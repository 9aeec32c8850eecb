-- ===== src/Node/Cleanup/Examples.antt =====
-- pkg/node/cleanup.go: ticks at concrete times.
use nitella.Base.{ℕ, ◌+◌, ◌*◌, ◌≡◌, refl, none, some, [], ◌∷◌}
use nitella.Node.Cleanup.{CleanupManager, run_tasks, run_due_tasks, new_cleanup_manager, register}
use nitella.Node.Cleanup.Rounds.{in_turn, due_fns, finished, run_due_tasks-finished}

-- the tasks add to a number
abbrev manager : CleanupManager ℕ
manager = record {
  tasks =
      record { name = "a"; interval = 10; fn = λ s. some (s + 1); last_run = 95 }
      ∷ record { name = "b"; interval = 5; fn = λ s. some (s * 2); last_run = 95 }
      ∷ [];
  tick_interval = 1;
  task_timeout = 30;
}

run_due_tasks-finished_example :
    run_due_tasks manager 100 7
    ≡ finished manager 100 (in_turn (due_fns 100 manager.tasks) (some 7))
run_due_tasks-finished_example = run_due_tasks-finished manager 100 7

-- a task that hangs keeps the one behind it from running
abbrev hanging : CleanupManager ℕ
hanging =
    register (register (new_cleanup_manager 0 30) "a" 10 (λ s. none)) "b" 5 (λ s. some (s * 2))

hangs : run_due_tasks hanging 100 7 ≡ none
unfolding run_due_tasks run_tasks register new_cleanup_manager
hangs = refl
