-- ===== src/Node/Cleanup.antt =====
-- pkg/node/cleanup.go: the manager of the periodic tasks. A task is a function on a state that the tasks
-- share, `none` if it never ends; a task that has not run yet last ran at the zero time.
-- The manager is taken as not being stopped; a stop ends the loop.
pub mod Rounds
mod Examples
use nitella.Base.{
  ◌^◌, ℕ, zero, suc, ◌+◌, ◌-◌, ◌*◌, ◌/◌, ◌%◌, ◌≤◌, ◌<◌, min, max, String, ◌≡◌, refl, sym, ap, ◌∙◌,
  ◌≢◌, ◌↔◌, ◌⊎◌, inl, inr, Bool, true, false, not, ◌&&◌, ◌||◌, Option, none, some, List, [], ◌∷◌,
  ◌++◌, map, arith, ltb, leb, ◌==◌, if◌then◌else◌, length, get_or, any-perm, any, all, All, str_eq,
  str_eq_iff, codes, concat, concat_cancel_left, concat_assoc, concat_apart, codes-concat,
  codes-injective, IsFree, separator_cancel, separator-IsFree, cut, split_on, is_digit, includes,
  Bool-cases, Option-cases,
}
use nitella.Base.Map
use nitella.Base.Map.{
  Map, lookup-insert, lookup-erase, lookup-retain, lookup-insert_self, lookup-insert_ne,
  lookup-erase_self, lookup-erase_ne,
}
use nitella.Base.Int.{ℤ, pos, ◌-ℤ◌}

pub record CleanupTask (S : Type 0) : Type 0 where
  pub name : String
  pub interval : ℕ
  pub fn : S → Option S
  pub last_run : ℕ

pub record CleanupManager (S : Type 0) : Type 0 where
  pub tasks : List (CleanupTask S)
  pub tick_interval : ℕ
  pub task_timeout : ℕ

module _ {S : Type 0} where
  -- `NewCleanupManager`, with the default time limit of a task.
  unfoldable pub new_cleanup_manager : ℕ → ℕ → CleanupManager S
  new_cleanup_manager tick timeout = record {
    tasks = [];
    tick_interval = (if tick == 0 then 1000000000 else tick);
    task_timeout = timeout;
  }

  -- `SetTaskTimeout`
  unfoldable pub set_task_timeout : CleanupManager S → ℕ → CleanupManager S
  set_task_timeout cm timeout = record cm { task_timeout = timeout }

  -- `Register`
  unfoldable pub register : CleanupManager S → String → ℕ → (S → Option S) → CleanupManager S
  register cm name interval fn = record cm {
    tasks = cm.tasks ++ (record { name = name; interval = interval; fn = fn; last_run = 0 } ∷ []);
  }

  abbrev pub is_due : ℕ → CleanupTask S → Bool
  is_due now task = leb task.interval (now - task.last_run)

  abbrev pub cons_task :
      CleanupTask S → Option (List (CleanupTask S) × S) → Option (List (CleanupTask S) × S)
  cons_task task none = none
  cons_task task (some (tasks, s)) = some (task ∷ tasks, s)

  -- The loop over the tasks; it goes on only when a task that is run ends, its time limit or not.
  unfoldable pub run_tasks : ℕ → List (CleanupTask S) → S → Option (List (CleanupTask S) × S)
  run_tasks now [] s = some ([], s)
  run_tasks now (task ∷ tasks) s =
      if is_due now task
      then (elim (task.fn s) [
        | none ↦ none
        | some s' ↦ cons_task (record task { last_run = now }) (run_tasks now tasks s')
      ])
      else cons_task task (run_tasks now tasks s)

  abbrev pub with_tasks :
      CleanupManager S → Option (List (CleanupTask S) × S) → Option (CleanupManager S × S)
  with_tasks cm none = none
  with_tasks cm (some (tasks, s)) = some (record cm { tasks = tasks }, s)

  -- `runDueTasks`, at a tick.
  unfoldable pub run_due_tasks : CleanupManager S → ℕ → S → Option (CleanupManager S × S)
  run_due_tasks cm now s = with_tasks cm (run_tasks now cm.tasks s)

  -- `Stats`: name, interval, last run and the time to the next run, which is negative if that is overdue.
  unfoldable pub stats : ℕ → List (CleanupTask S) → List (String × ℕ × ℕ × ℤ)
  stats now [] = []
  stats now (task ∷ tasks) =
      (task.name, task.interval, task.last_run, pos task.interval -ℤ pos (now - task.last_run))
      ∷ stats now tasks
