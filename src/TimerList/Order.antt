-- ===== src/TimerList/Order.antt =====
-- The order of the list of src/timer_list.c.
use myclib.Prelude.{
  ℕ, ◌+◌, ◌*◌, ◌^◌, ◌≤◌, ◌<◌, ◌≡◌, Bool, not, ◌&&◌, ◌||◌, List, [], ◌∷◌, All, ltb, leb, ◌==◌,
  if◌then◌else◌, arith, Bool-cases, inl, inr,
}
use myclib.TimerList.{
  Time, Timer, less, same, more, at_most, due_sec, due_usec, timer_cmp, timer_list_add,
  timer_list_discard_target, expired, expire, Request, create, discard_target, request, requests,
  rearm, call_loop, runs,
}

-- when a timer is due, as one number
abbrev pub due : Timer → ℕ
due t = due_sec t * 2 ^ 32 + due_usec t

lexicographic :
    (s₁ u₁ s₂ u₂ : ℕ)
    → u₁ < 2 ^ 32
    → u₂ < 2 ^ 32
    → at_most (
        if ltb s₁ s₂ || (s₁ == s₂ && ltb u₁ u₂)
        then less
        else if s₁ == s₂ && u₁ == u₂
        then same
        else more)
      ≡ leb (s₁ * 2 ^ 32 + u₁) (s₂ * 2 ^ 32 + u₂)
lexicographic s₁ u₁ s₂ u₂ h k = ground arith

at_most-timer_cmp : (a b : Timer) → at_most (timer_cmp a b) ≡ leb (due a) (due b)
unfolding timer_cmp
at_most-timer_cmp a b =
    lexicographic (due_sec a) (due_usec a) (due_sec b) (due_usec b) (omega arith) (omega arith)

-- every timer stands before those that are due later
abbrev pub Sorted : List Timer → Type 0
Sorted [] = Unit
Sorted (t ∷ ts) = All (λ u. due t ≤ due u) ts × Sorted ts

All-timer_list_add :
    (n : ℕ) (new : Timer) (ts : List Timer)
    → n ≤ due new
    → All (λ u. n ≤ due u) ts
    → All (λ u. n ≤ due u) (timer_list_add new ts)
unfolding timer_list_add
All-timer_list_add n new [] h all = (h, tt)
All-timer_list_add n new (p ∷ ps) h all = elim (Bool-cases (at_most (timer_cmp new p))) [
  | inl e ↦ rw e (h, all)
  | inr e ↦ rw e (all.0, All-timer_list_add n new ps h all.1)
]

All-mono : (m n : ℕ) (ts : List Timer) → m ≤ n → All (λ u. n ≤ due u) ts → All (λ u. m ≤ due u) ts
All-mono m n [] h all = tt
All-mono m n (t ∷ ts) h all = (omega (arith, all.0, h), All-mono m n ts h all.1)

pub timer_list_add-Sorted :
    (new : Timer) (ts : List Timer) → Sorted ts → Sorted (timer_list_add new ts)
unfolding timer_list_add
timer_list_add-Sorted new [] s = (tt, tt)
timer_list_add-Sorted new (p ∷ ps) s = elim (Bool-cases (at_most (timer_cmp new p))) [
  | inl e ↦
      let before : due new ≤ due p = ground (arith, at_most-timer_cmp new p) in
      rw e ((before, All-mono (due new) (due p) ps before s.0), s)
  | inr e ↦
      let after : due p ≤ due new = ground (arith, at_most-timer_cmp new p) in
      rw e (All-timer_list_add (due p) new ps after s.0, timer_list_add-Sorted new ps s.1)
]

timer_list_discard_target-All :
    (n target : ℕ) (x : Bool) (ts : List Timer)
    → All (λ u. n ≤ due u) ts
    → All (λ u. n ≤ due u) (timer_list_discard_target target x ts)
unfolding timer_list_discard_target
timer_list_discard_target-All n target x [] all = tt
timer_list_discard_target-All n target x (t ∷ ts) all = elim (Bool-cases (t.cb == target)) [
  | inl e ↦ simp e (all.0, timer_list_discard_target-All n target x ts all.1)
  | inr e ↦ simp e (all.0, timer_list_discard_target-All n target x ts all.1)
]

timer_list_discard_target-Sorted :
    (target : ℕ) (x : Bool) (ts : List Timer)
    → Sorted ts
    → Sorted (timer_list_discard_target target x ts)
unfolding timer_list_discard_target
timer_list_discard_target-Sorted target x [] s = tt
timer_list_discard_target-Sorted target x (t ∷ ts) s = elim (Bool-cases (t.cb == target)) [
  | inl e ↦ simp e (
    timer_list_discard_target-All (due t) target x ts s.0,
    timer_list_discard_target-Sorted target x ts s.1,
  )
  | inr e ↦ simp e (
    timer_list_discard_target-All (due t) target x ts s.0,
    timer_list_discard_target-Sorted target x ts s.1,
  )
]

requests-Sorted : (rs : List Request) (ts : List Timer) → Sorted ts → Sorted (requests ts rs)
unfolding requests request
requests-Sorted [] ts s = s
requests-Sorted (create msec repeat cb now junk ∷ rs) ts s =
    requests-Sorted rs _ (timer_list_add-Sorted _ ts s)
requests-Sorted (discard_target cb x ∷ rs) ts s =
    requests-Sorted rs _ (timer_list_discard_target-Sorted cb x ts s)

-- The loops of the tick keep both lists sorted.
expire-All :
    (cur : Time) (n : ℕ) (ts timeouts : List Timer)
    → All (λ u. n ≤ due u) ts
    → All (λ u. n ≤ due u) (expire cur ts timeouts).1
unfolding expire
expire-All cur n [] timeouts all = tt
expire-All cur n (t ∷ ts) timeouts all = elim (Bool-cases (expired cur t)) [
  | inl e ↦ rw e (expire-All cur n ts (timer_list_add t timeouts) all.1)
  | inr e ↦ rw e (all.0, expire-All cur n ts timeouts all.1)
]

pub expire-Sorted :
    (cur : Time) (ts timeouts : List Timer)
    → Sorted ts
    → Sorted timeouts
    → Sorted (expire cur ts timeouts).0 × Sorted (expire cur ts timeouts).1
unfolding expire
expire-Sorted cur [] timeouts s o = (o, tt)
expire-Sorted cur (t ∷ ts) timeouts s o = elim (Bool-cases (expired cur t)) [
  | inl e ↦
      rw e
        (expire-Sorted cur ts (timer_list_add t timeouts) s.1 (timer_list_add-Sorted t timeouts o))
  | inr e ↦
      let rest = expire-Sorted cur ts timeouts s.1 o in
      rw e (rest.0, (expire-All cur (due t) ts timeouts s.0, rest.1))
]

pub rearm-Sorted :
    (cur : Time) (timeouts ts : List Timer) → Sorted ts → Sorted (rearm cur timeouts ts).1
unfolding rearm
rearm-Sorted cur [] ts s = s
rearm-Sorted cur (tmp ∷ rest) ts s = elim (Bool-cases (not tmp.discard && tmp.repeat)) [
  | inl e ↦ rw e (rearm-Sorted cur rest _ (timer_list_add-Sorted _ ts s))
  | inr e ↦ rw e (rearm-Sorted cur rest ts s)
]

pub call_loop-Sorted :
    (call : ℕ → List Timer → List Request) (timeouts ts : List Timer)
    → Sorted ts
    → Sorted (call_loop call timeouts ts).1
unfolding call_loop
call_loop-Sorted call [] ts s = s
call_loop-Sorted call (t ∷ rest) ts s = elim (Bool-cases (runs t)) [
  | inl e ↦ rw e (call_loop-Sorted call rest _ (requests-Sorted (call t.cb ts) ts s))
  | inr e ↦ rw e (call_loop-Sorted call rest ts s)
]
