-- ===== src/TimerWheel/Examples.antt =====
-- The functions of src/timer_wheel.c at a wheel of four slots.
use myclib.Prelude.{
  ℕ, zero, suc, ◌≡◌, ◌≢◌, refl, true, false, List, [], ◌∷◌, ◌==◌, if◌then◌else◌, All, Has, arith,
}
use myclib.TimerWheel.{
  Node, Wheel, timer_wheel_add, timer_wheel_del, Request, add, del, timer_wheel_tick,
}
use myclib.TimerWheel.Order.{Sorted, InSolt, IsValid}
use myclib.TimerWheel.Tick.{due, Sane}
use myclib.TimerWheel.OnTime.{timer_wheel_tick-due, timer_wheel_tick-IsValid}
use myclib.TimerWheel.Armed.{Spares, after, timer_wheel_add-fires}

abbrev timer : ℕ → ℕ → ℕ → Node
timer id cycle tigger_ts = record {
  id = id;
  is_repeat = true;
  is_deleted = false;
  cycle = cycle;
  tigger_ts = tigger_ts;
}

-- the timers 1, 3 and 2 in the slot of the next tick, 7
abbrev solts : ℕ → List Node
solts zero = []
solts (suc zero) = []
solts (suc (suc zero)) = []
solts (suc (suc (suc zero))) = timer 1 2 7 ∷ timer 3 5 7 ∷ timer 2 8 11 ∷ []
solts (suc (suc (suc (suc i)))) = []

abbrev wheel : Wheel
wheel = record { solt_nb = 4; tick_interval = 1000; cur_ts = 6; solts = solts; pending = [] }

solts-InSolt : (i : ℕ) → All (InSolt 4 6 i) (solts i)
solts-InSolt zero = tt
solts-InSolt (suc zero) = tt
solts-InSolt (suc (suc zero)) = tt
solts-InSolt (suc (suc (suc zero))) = omega arith
solts-InSolt (suc (suc (suc (suc i)))) = tt

solts-Sorted : (i : ℕ) → Sorted (solts i)
solts-Sorted zero = tt
solts-Sorted (suc zero) = tt
solts-Sorted (suc (suc zero)) = tt
solts-Sorted (suc (suc (suc zero))) = omega arith
solts-Sorted (suc (suc (suc (suc i)))) = tt

wheel-IsValid : IsValid wheel
wheel-IsValid = record {
  turning = omega arith;
  placed = solts-InSolt;
  sorted = solts-Sorted;
  waiting = tt;
}

-- the callback of timer 1 deletes timer 2 and adds timer 9
abbrev call : ℕ → Wheel → List Request
call id w = if id == 1 then del 2 ∷ add 9 3 false ∷ [] else []

call-Sane : (id : ℕ) (w : Wheel) → Sane (call id w)
call-Sane id w = ground arith

call-Spares : (id : ℕ) (w : Wheel) → Sane (call id w) × Spares 20 (call id w)
call-Spares id w = ground arith

-- timer 3 runs before timer 1
tick_runs : (timer_wheel_tick call wheel).0 ≡ 3 ∷ 1 ∷ []
unfolding timer_wheel_tick timer_wheel_add timer_wheel_del
tick_runs = refl

timer_wheel_tick-due_example :
    let (ids, w) = timer_wheel_tick call wheel in
    (ids ≡ 3 ∷ 1 ∷ []) × ((i : ℕ) → i ≢ 3 → due 7 (solts i) ≡ []) × (w.cur_ts ≡ 7)
unfolding due
timer_wheel_tick-due_example = timer_wheel_tick-due call wheel-IsValid

timer_wheel_tick-IsValid_example : IsValid (timer_wheel_tick call wheel).1
timer_wheel_tick-IsValid_example = timer_wheel_tick-IsValid call call-Sane wheel-IsValid

timer_wheel_add-fires_example :
    Has (λ k. k ≡ 20) (timer_wheel_tick call (after call 4 (timer_wheel_add wheel 20 5 true))).0
timer_wheel_add-fires_example = timer_wheel_add-fires call 4 20 true call-Spares wheel-IsValid
