-- ===== src/Task/Child.antt =====
-- Which process the parent of src/task.c takes for its child.
use mathlib.Core.Path.{subst}
use myclib.Prelude.{
  Option-cases, ℕ, zero, suc, ◌≡◌, ◌≢◌, refl, ap, ◌∙◌, sym, inl, inr, Bool, true, false, Option,
  none, some, List, [], ◌∷◌,
}
use myclib.Task.{
  Place, forking, forked, waiting, reaped, sleeping, leaving, left, ended, Task, start, kill_child,
  do_exit, quit, exited, signaled, reap, Step, fork_fails, fork, record_pid, wait_fails, wait,
  go_on, wake, clean_up, finish, do_signal, Reachable, begin, next,
}

-- What is known at a place: the child that runs, the recorded pid and the child that ended last.
abbrev pub Known : Place → (child pid last : Option ℕ) → Type 0
Known forking child pid last = (child ≡ none) × (pid ≡ last)
Known (forked p) child pid last = (child ≡ some p) × (pid ≡ last)
Known waiting child pid last = (child ≡ pid) × (pid ≢ none)
Known (reaped status) child pid last = (child ≡ none) × (pid ≡ last) × (pid ≢ none)
Known sleeping child pid last = (child ≡ none) × (pid ≡ last) × (pid ≢ none)
Known (leaving status) child pid last = child ≡ pid
Known (left status) child pid last = Unit
Known (ended e) child pid last = Unit

-- behind `do_exit`
abbrev pub is_over : Place → Bool
is_over (left status) = true
is_over (ended e) = true
is_over _ = false

pub record Accounts (saved : Bool) (t : Task) : Type 0 where
  pub known : Known t.place t.child t.child_pid t.last_child
  pub running : is_over t.place ≡ false → (t.killed ≡ []) × (t.pid_file ≡ saved)

module _ (saved : Bool) where
  start-Accounts : Accounts saved (start saved)
  start-Accounts = record { known = (refl, refl); running = λ h. (refl, refl) }

  -- what is known of a state at a given place
  Accounts-Known :
      {t : Task} {p : Place}
      → Accounts saved t
      → t.place ≡ p
      → Known p t.child t.child_pid t.last_child
  Accounts-Known {t} a at = subst (λ q. Known q t.child t.child_pid t.last_child) at a.known

  Step-Accounts : {t t' : Task} → Step t t' → Accounts saved t → Accounts saved t'
  unfolding reap do_exit
  Step-Accounts (fork_fails t at) a = record { known = tt; running = λ h. cc }
  Step-Accounts (fork t pid at pos) a = record {
    known = (refl, (Accounts-Known a at).1);
    running = λ h. a.running (ap is_over at);
  }
  Step-Accounts (record_pid t pid at) a = record {
    known = ((Accounts-Known a at).0, λ e. cc);
    running = λ h. a.running (ap is_over at);
  }
  Step-Accounts (wait_fails t at) a = record {
    known = (Accounts-Known a at).0;
    running = λ h. a.running (ap is_over at);
  }
  Step-Accounts (wait t status at) a =
      let k = Accounts-Known a at in
      record { known = (refl, sym k.0, k.1); running = λ h. a.running (ap is_over at) }
  Step-Accounts (go_on t (exited zero) at) a = record {
    known = (Accounts-Known a at).0;
    running = λ h. a.running (ap is_over at);
  }
  Step-Accounts (go_on t (exited (suc n)) at) a = record {
    known = Accounts-Known a at;
    running = λ h. a.running (ap is_over at);
  }
  Step-Accounts (go_on t (signaled n) at) a = record {
    known = Accounts-Known a at;
    running = λ h. a.running (ap is_over at);
  }
  Step-Accounts (wake t at) a =
      let k = Accounts-Known a at in
      record { known = (k.0, k.1); running = λ h. a.running (ap is_over at) }
  Step-Accounts (clean_up t status at) a = record { known = tt; running = λ h. cc }
  Step-Accounts (finish t status at) a = record { known = tt; running = λ h. cc }
  Step-Accounts (do_signal t alive) a = record { known = tt; running = λ h. cc }

  pub Reachable-Accounts : {t : Task} → Reachable saved t → Accounts saved t
  Reachable-Accounts begin = start-Accounts
  Reachable-Accounts (next before step) = Step-Accounts step (Reachable-Accounts before)

  -- what a signal kills, with a recorded pid
  quit-killed :
      (t : Task) (pid : ℕ) → t.child_pid ≡ some pid → t.killed ≡ [] → (quit 0 t).killed ≡ pid ∷ []
  unfolding do_exit
  quit-killed t pid e none_yet =
      ap (λ (c : Option ℕ). kill_child c t.killed) e ∙ ap (λ (k : List ℕ). pid ∷ k) none_yet

  -- Where a signal arrives in `waitpid`, exactly the child that runs is killed.
  pub signal_waiting :
      (t : Task)
      → Reachable saved t
      → t.place ≡ waiting
      → (pid : ℕ) × (t.child ≡ some pid) × ((quit 0 t).killed ≡ pid ∷ [])
  signal_waiting t reachable at =
      let a = Reachable-Accounts reachable in
      let known = Accounts-Known a at in
      elim (Option-cases t.child_pid) [
        | inl e ↦ absurd (known.1 e)
        | inr (pid, e) ↦ (pid, known.0 ∙ e, quit-killed t pid e (a.running (ap is_over at)).0)
      ]

  -- Where a signal arrives in `sleep`, no child runs, and SIGTERM is sent to exactly one pid: that of the
  -- child whose end `waitpid` has reported last.
  pub signal_sleeping :
      (t : Task)
      → Reachable saved t
      → t.place ≡ sleeping
      → (t.child ≡ none) × ((pid : ℕ) × (t.last_child ≡ some pid) × ((quit 0 t).killed ≡ pid ∷ []))
  signal_sleeping t reachable at =
      let a = Reachable-Accounts reachable in
      let (no_child, last, recorded) = Accounts-Known a at in
      elim (Option-cases t.child_pid) [
        | inl e ↦ absurd (recorded e)
        | inr (pid, e) ↦
            (no_child, (pid, sym last ∙ e, quit-killed t pid e (a.running (ap is_over at)).0))
      ]
