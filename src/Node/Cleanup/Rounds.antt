-- ===== src/Node/Cleanup/Rounds.antt =====
-- pkg/node/cleanup.go: which tasks a tick runs.
use nitella.Base.{
  ℕ, ◌≡◌, refl, inl, inr, Option, none, some, List, [], ◌∷◌, if◌then◌else◌, Bool-cases,
  Option-cases,
}
use nitella.Node.Cleanup.{
  cons_task, CleanupTask, CleanupManager, is_due, run_tasks, with_tasks, run_due_tasks,
}

module _ {S : Type 0} where
  -- The state after some functions in turn, as long as each ends.
  abbrev pub in_turn : List (S → Option S) → Option S → Option S
  in_turn fns none = none
  in_turn [] (some s) = some s
  in_turn (fn ∷ fns) (some s) = in_turn fns (fn s)

  abbrev pub due_fns : ℕ → List (CleanupTask S) → List (S → Option S)
  due_fns now [] = []
  due_fns now (task ∷ tasks) =
      let rest = due_fns now tasks in if is_due now task then task.fn ∷ rest else rest

  abbrev pub marked : ℕ → List (CleanupTask S) → List (CleanupTask S)
  marked now [] = []
  marked now (task ∷ tasks) =
      (if is_due now task then record task { last_run = now } else task) ∷ marked now tasks

  abbrev pub finished : CleanupManager S → ℕ → Option S → Option (CleanupManager S × S)
  finished cm now none = none
  finished cm now (some s) = some (record cm { tasks = marked now cm.tasks }, s)

  abbrev pair_tasks : List (CleanupTask S) → Option S → Option (List (CleanupTask S) × S)
  pair_tasks tasks none = none
  pair_tasks tasks (some s) = some (tasks, s)

  cons-pair_tasks :
      (task : CleanupTask S) (tasks : List (CleanupTask S)) (s : Option S)
      → cons_task task (pair_tasks tasks s) ≡ pair_tasks (task ∷ tasks) s
  cons-pair_tasks task tasks none = refl
  cons-pair_tasks task tasks (some s) = refl

  run_tasks_lem :
      (now : ℕ) (tasks : List (CleanupTask S)) (s : S)
      → run_tasks now tasks s ≡ pair_tasks (marked now tasks) (in_turn (due_fns now tasks) (some s))
  unfolding run_tasks
  run_tasks_lem now [] s = refl
  run_tasks_lem now (task ∷ tasks) s = elim (Bool-cases (is_due now task)) [
    | inl e ↦ elim (Option-cases (task.fn s)) [
      | inl hung ↦ rw (e, hung, run_tasks)
      | inr (s', ends) ↦
          rw (e, ends, run_tasks, run_tasks_lem now tasks s')
            (cons-pair_tasks (record task { last_run = now }) (marked now tasks)
              (in_turn (due_fns now tasks) (some s')))
    ]
    | inr e ↦
        rw (e, run_tasks_lem now tasks s)
          (cons-pair_tasks task (marked now tasks) (in_turn (due_fns now tasks) (some s)))
  ]

  finish :
      (cm : CleanupManager S) (now : ℕ) (s : Option S)
      → with_tasks cm (pair_tasks (marked now cm.tasks) s) ≡ finished cm now s
  finish cm now none = refl
  finish cm now (some s) = refl

  -- A tick runs exactly the tasks that are due, each once and in the order of their registration, and notes
  -- the tick as their last run; if one of them does not end, no later one is run and the tick has no
  -- end.
  pub run_due_tasks-finished :
      (cm : CleanupManager S) (now : ℕ) (s : S)
      → run_due_tasks cm now s ≡ finished cm now (in_turn (due_fns now cm.tasks) (some s))
  unfolding run_due_tasks
  run_due_tasks-finished cm now s =
      rw (run_tasks_lem now cm.tasks s) (finish cm now (in_turn (due_fns now cm.tasks) (some s)))
