-- ===== src/TimerList/Tick.antt =====
-- The tick of src/timer_list.c: which callbacks run, and in which order.
use myclib.Prelude.{
  ℕ, suc, ◌+◌, ◌*◌, ◌^◌, ◌≤◌, ◌<◌, ◌≡◌, ◌⊎◌, refl, ap, Bool, true, ◌&&◌, List, [], ◌∷◌, map, All,
  ltb, leb, if◌then◌else◌, arith, Bool-cases, inl, inr,
}
use myclib.TimerList.{
  Time, Timer, at_most, timer_cmp, timer_cmp_tv, timer_list_add, expired, expire, Request,
  call_loop, timer_list_tick,
}
use myclib.TimerList.Order.{Sorted, due, expire-Sorted, rearm-Sorted, call_loop-Sorted}

-- how many timers pass a test
abbrev pub occurrences : (Timer → Bool) → List Timer → ℕ
occurrences f [] = 0
occurrences f (t ∷ ts) = let later = occurrences f ts in if f t then suc later else later

-- of timers that are taken out, those that were not discarded, or with a call
abbrev pub called : List Timer → List Timer
called [] = []
called (t ∷ ts) =
    let later = called ts in
    if t.discard then (if t.exec_on_discard then t ∷ later else later) else t ∷ later

-- when a timer is due, in seconds and microseconds that do not wrap
abbrev pub seconds : Timer → ℕ
seconds t = t.ts.tv_sec + t.sec

abbrev pub micros : Timer → ℕ
micros t = t.ts.tv_usec + t.msec * 1000

-- whether a timer leaves the list: it is discarded, or its second is reached
abbrev pub is_due : Time → Timer → Bool
is_due cur t = if t.discard then true else leb (seconds t) cur.tv_sec

-- The times are unsigned ints, and later than the first 10 ^ 6 seconds of 1970.
pub record InRange (t : Timer) : Type 0 where
  pub late : 10 ^ 6 ≤ seconds t
  pub no_wrap : seconds t < 2 ^ 32
  pub no_wrap_micros : micros t < 2 ^ 32

abbrev pub NotLater : Timer → Timer → Type 0
NotLater t u = (seconds t < seconds u) ⊎ ((seconds t ≡ seconds u) × (micros t ≤ micros u))

abbrev pub Ordered : List Timer → Type 0
Ordered [] = Unit
Ordered (t ∷ ts) = All (NotLater t) ts × Ordered ts

expired-is_due :
    (cur : Time) (t : Timer) → cur.tv_usec < 10 ^ 6 → InRange t → expired cur t ≡ is_due cur t
unfolding timer_cmp_tv
expired-is_due cur t h r = ground (arith, h, r.late, r.no_wrap)

occurrences-is_due :
    (f : Timer → Bool) (cur : Time)
    → cur.tv_usec < 10 ^ 6
    → (ts : List Timer) → All InRange ts
    → occurrences (λ t. f t && expired cur t) ts ≡ occurrences (λ t. f t && is_due cur t) ts
occurrences-is_due f cur h [] a = refl
occurrences-is_due f cur h (t ∷ ts) (r, a) =
    rw (expired-is_due cur t h r) (rw (occurrences-is_due f cur h ts a) refl)

NotLater-due : (t u : Timer) → InRange t → InRange u → due t ≤ due u → NotLater t u
NotLater-due t u r q h = elim (Bool-cases (ltb (seconds t) (seconds u))) [
  | inl e ↦ inl (ground arith)
  | inr e ↦ inr (
    ground (arith, r.no_wrap, q.no_wrap, r.no_wrap_micros, q.no_wrap_micros),
    ground (arith, r.no_wrap, q.no_wrap, r.no_wrap_micros, q.no_wrap_micros),
  )
]

All-NotLater :
    (t : Timer) (ts : List Timer)
    → InRange t
    → All InRange ts
    → All (λ u. due t ≤ due u) ts
    → All (NotLater t) ts
All-NotLater t [] r rs a = tt
All-NotLater t (u ∷ ts) r (q, rs) (h, a) = (NotLater-due t u r q h, All-NotLater t ts r rs a)

Sorted-Ordered : (ts : List Timer) → Sorted ts → All InRange ts → Ordered ts
Sorted-Ordered [] s a = tt
Sorted-Ordered (t ∷ ts) (h, s) (r, a) = (All-NotLater t ts r a h, Sorted-Ordered ts s a)

module _ (P : Timer → Type 0) where
  All-add : (new : Timer) (ts : List Timer) → P new → All P ts → All P (timer_list_add new ts)
  unfolding timer_list_add
  All-add new [] p a = (p, tt)
  All-add new (q ∷ ts) p (b, a) = elim (Bool-cases (at_most (timer_cmp new q))) [
    | inl e ↦ rw e (p, (b, a))
    | inr e ↦ rw e (b, All-add new ts p a)
  ]

  All-expire :
      (cur : Time) (ts timeouts : List Timer)
      → All P ts
      → All P timeouts
      → All P (expire cur ts timeouts).0
  unfolding expire
  All-expire cur [] timeouts a b = b
  All-expire cur (t ∷ ts) timeouts (p, a) b = elim (Bool-cases (expired cur t)) [
    | inl e ↦ rw e (All-expire cur ts (timer_list_add t timeouts) a (All-add t timeouts p b))
    | inr e ↦ rw e (All-expire cur ts timeouts a b)
  ]

occurrences-timer_list_add :
    (f : Timer → Bool) (new : Timer) (ts : List Timer)
    → occurrences f (timer_list_add new ts) ≡ occurrences f (new ∷ ts)
unfolding timer_list_add
occurrences-timer_list_add f new [] = refl
occurrences-timer_list_add f new (p ∷ ps) = ground (arith, occurrences-timer_list_add f new ps)

occurrences-expire :
    (f : Timer → Bool) (cur : Time) (ts timeouts : List Timer)
    → occurrences f (expire cur ts timeouts).0
      ≡ occurrences f timeouts + occurrences (λ t. f t && expired cur t) ts
unfolding expire
occurrences-expire f cur [] timeouts = omega arith
occurrences-expire f cur (t ∷ ts) timeouts = elim (Bool-cases (expired cur t)) [
  | inl e ↦ simp e (
      ground (
        arith,
        occurrences-expire f cur ts (timer_list_add t timeouts),
        occurrences-timer_list_add f t timeouts,
      ))
  | inr e ↦ simp e (ground (arith, occurrences-expire f cur ts timeouts))
]

module _ (call : ℕ → List Timer → List Request) where
  call_loop-called :
      (timeouts ts : List Timer)
      → (call_loop call timeouts ts).0 ≡ map (λ t. t.cb) (called timeouts)
  unfolding call_loop
  call_loop-called [] ts = refl
  call_loop-called (t ∷ rest) ts = elim (Bool-cases t.discard) [
    | inl e ↦ elim (Bool-cases t.exec_on_discard) [
      | inl e' ↦ simp (e, e') (ap (λ cbs. t.cb ∷ cbs) (call_loop-called rest _))
      | inr e' ↦ simp (e, e') (call_loop-called rest ts)
    ]
    | inr e ↦ simp e (ap (λ cbs. t.cb ∷ cbs) (call_loop-called rest _))
  ]

  -- At a time whose microseconds are below 10 ^ 6, and for timers whose times do not wrap and are due
  -- later than 10 ^ 6 seconds after the epoch: a tick of a sorted list runs the callbacks of exactly the
  -- timers of the list that are discarded or whose second is reached, whatever their milliseconds, as
  -- often as they stand in it, less those that were discarded without a call. It runs them by seconds,
  -- and by microseconds in the same one, with no carry between them. The list is sorted again, with the
  -- timers that repeat back in their places, whatever timers the callbacks create and discard.
  pub timer_list_tick-runs :
      (cur : Time) (timers : List Timer)
      → cur.tv_usec < 10 ^ 6
      → All InRange timers
      → Sorted timers
      → let (cbs, freed, timers') = timer_list_tick call cur timers in
        ((timeouts : List Timer) × (cbs ≡ map (λ t. t.cb) (called timeouts))
          × Ordered timeouts
          × ((f : Timer → Bool)
              → occurrences f timeouts ≡ occurrences (λ t. f t && is_due cur t) timers))
        × Sorted timers'
  unfolding timer_list_tick
  timer_list_tick-runs cur timers h ranges s =
      let (out, left) = expire-Sorted cur timers [] s tt in
      let timeouts = (expire cur timers []).0 in
      (
        (
          timeouts,
          call_loop-called timeouts (expire cur timers []).1,
          Sorted-Ordered timeouts out (All-expire InRange cur timers [] ranges tt),
          λ f.
              omega (
                arith,
                occurrences-expire f cur timers [],
                occurrences-is_due f cur h timers ranges,
              ),
        ),
        rearm-Sorted cur timeouts _ (call_loop-Sorted call timeouts _ left),
      )
