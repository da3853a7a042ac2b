-- ===== src/Task/Examples.antt =====
-- A daemon of src/task.c whose child 7 has failed.
use myclib.Prelude.{ℕ, ◌≡◌, refl, true, none, some, [], ◌∷◌, arith}
use myclib.Task.{
  Task, sleeping, start, quit, exited, reap, fork, record_pid, wait, go_on, Reachable, begin, next,
}
use myclib.Task.Child.{Accounts, Reachable-Accounts, signal_sleeping}

abbrev failed : Task
failed = record {
  place = sleeping;
  child_pid = some 7;
  pid_file = true;
  child = none;
  killed = [];
  last_child = some 7;
}

failed-Reachable : Reachable true failed
unfolding reap
failed-Reachable =
    next
      (next (next (next begin (fork (start true) 7 refl (omega arith))) (record_pid _ 7 refl))
        (wait _ (exited 1) refl))
      (go_on _ (exited 1) refl)

Reachable-Accounts_example : Accounts true failed
Reachable-Accounts_example = Reachable-Accounts true failed-Reachable

signal_sleeping_example :
    (failed.child ≡ none)
    × ((pid : ℕ) × (failed.last_child ≡ some pid) × ((quit 0 failed).killed ≡ pid ∷ []))
signal_sleeping_example = signal_sleeping true failed failed-Reachable refl
