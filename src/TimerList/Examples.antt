-- ===== src/TimerList/Examples.antt =====
-- A run of src/timer_list.c with four timers.
use myclib.Prelude.{
  ℕ, ◌<◌, ◌≡◌, All, refl, Bool, true, false, ◌&&◌, List, [], ◌∷◌, map, ◌==◌, if◌then◌else◌, arith,
}
use myclib.TimerList.{
  timer_cmp, timer_list_add, timer_cmp_tv, Time, Timer, Request, discard_target, timer_list_tick,
}
use myclib.TimerList.Order.{Sorted}
use myclib.TimerList.Tick.{occurrences, called, InRange, Ordered, is_due, timer_list_tick-runs}

abbrev at : ℕ → Time
at s = record { tv_sec = s; tv_usec = 0 }

abbrev timer : ℕ → Bool → Bool → ℕ → Timer
timer cb repeat discard sec = record {
  sec = sec;
  msec = 0;
  repeat = repeat;
  discard = discard;
  exec_on_discard = false;
  cb = cb;
  ts = at 2000100;
}

-- timer 3 is discarded
abbrev timers : List Timer
timers =
    timer 1 true false 2 ∷ timer 2 false false 5 ∷ timer 3 false true 7 ∷ timer 4 false false 9 ∷ []

timers-Sorted : Sorted timers
timers-Sorted = omega arith

-- the callback of timer 1 discards timer 4
abbrev call : ℕ → List Timer → List Request
call cb ts = if cb == 1 then discard_target 4 false ∷ [] else []

tick_runs : (timer_list_tick call (at 2000106) timers).0 ≡ 1 ∷ 2 ∷ []
unfolding timer_list_tick timer_cmp_tv timer_list_add timer_cmp
tick_runs = refl

timers-InRange : All InRange timers
timers-InRange =
    let r : (cb : ℕ) (repeat discard : Bool) (sec : ℕ)
        → sec < 10
        → InRange (timer cb repeat discard sec) =
      λ cb repeat discard sec h. record {
        late = omega arith;
        no_wrap = omega arith;
        no_wrap_micros = omega arith;
      } in
    (
      r 1 true false 2 (omega arith),
      (
        r 2 false false 5 (omega arith),
        (r 3 false true 7 (omega arith), (r 4 false false 9 (omega arith), tt)),
      ),
    )

timer_list_tick-runs_example :
    let (cbs, freed, timers') = timer_list_tick call (at 2000106) timers in
    ((timeouts : List Timer) × (cbs ≡ map (λ t. t.cb) (called timeouts))
      × Ordered timeouts
      × ((f : Timer → Bool)
          → occurrences f timeouts ≡ occurrences (λ t. f t && is_due (at 2000106) t) timers))
    × Sorted timers'
timer_list_tick-runs_example =
    timer_list_tick-runs call (at 2000106) timers (omega arith) timers-InRange timers-Sorted
