-- ===== src/TimerWheel/OnTime.antt =====
-- Every timer of src/timer_wheel.c runs at the tick at which it is due, and at no other.
use myclib.Prelude.{
  ℕ, ◌+◌, ◌%◌, ◌<◌, ◌≡◌, ◌≢◌, refl, sym, ap, ◌∙◌, List, [], ◌∷◌, map, ◌==◌, All, arith, inl, inr,
  Bool-cases,
}
use mathlib.Core.List.{reverse}
use myclib.TimerWheel.{Node, Wheel, collect, expire, Request, timer_wheel_tick}
use myclib.TimerWheel.Order.{Sorted, InSolt, IsValid, set_solt_keeps, set_solt_elsewhere}
use myclib.TimerWheel.Tick.{
  due, expire-due, expire-left, expire-waiting, Sane, fire_ids, fire_clock, fire-IsValid,
}

later_than :
    (nb now i : ℕ) (ns : List Node) → All (InSolt nb now i) ns → All (λ n. now < n.tigger_ts) ns
later_than nb now i [] all = tt
later_than nb now i (n ∷ ns) all = (all.0.1, later_than nb now i ns all.1)

cycles : (nb now i : ℕ) (ns : List Node) → All (InSolt nb now i) ns → All (λ n. 0 < n.cycle) ns
cycles nb now i [] all = tt
cycles nb now i (n ∷ ns) all = (all.0.2, cycles nb now i ns all.1)

-- A node that is due next stands in the slot of the next tick.
due_elsewhere :
    (nb now i : ℕ) (ns : List Node)
    → All (InSolt nb now i) ns
    → i ≢ (now + 1) % nb
    → due (now + 1) ns ≡ []
unfolding due
due_elsewhere nb now i [] all h = refl
due_elsewhere nb now i (n ∷ ns) all h =
    ground
      (arith, due_elsewhere nb now i ns, ap (λ (t : ℕ). t % nb) {x = n.tigger_ts} {y = now + 1})

not_yet : (nb now i t : ℕ) → t % nb ≡ i → i ≢ (now + 1) % nb → now < t → now + 1 < t
not_yet nb now i t e h lt = elim (Bool-cases (t == now + 1)) [
  | inl same ↦ let eq : t ≡ now + 1 = ground arith in absurd (h (sym e ∙ ap (λ (k : ℕ). k % nb) eq))
  | inr other ↦ ground arith
]

-- The other slots have waited one tick more.
waited :
    (nb now i : ℕ) (ns : List Node)
    → All (InSolt nb now i) ns
    → i ≢ (now + 1) % nb
    → All (InSolt nb (now + 1) i) ns
waited nb now i [] all h = tt
waited nb now i (n ∷ ns) all h =
    ((all.0.0, not_yet nb now i n.tigger_ts all.0.0 h all.0.1, all.0.2), waited nb now i ns all.1 h)

module _ (call : ℕ → Wheel → List Request) where
  -- A tick of a valid wheel runs the callbacks of exactly the nodes that are due at the new time and
  -- are not marked, each once: those stand in the slot of this tick, no other slot has one, and the
  -- callbacks run from the end of the slot to its front. The time is one tick later.
  pub timer_wheel_tick-due :
      {w : Wheel}
      → IsValid w
      → let now = w.cur_ts + 1 in
        let (ids, w') = timer_wheel_tick call w in
        (ids ≡ map (λ n. n.id) (reverse (due now (w.solts (now % w.solt_nb)))))
        × ((i : ℕ) → i ≢ now % w.solt_nb → due now (w.solts i) ≡ [])
        × (w'.cur_ts ≡ now)
  unfolding timer_wheel_tick
  timer_wheel_tick-due {w} v =
      let now = w.cur_ts in
      let idx = (now + 1) % w.solt_nb in
      let nodes = w.solts idx in
      let (head, left) = expire (now + 1) nodes [] in
      let start = collect w in
      (
        fire_ids call start.pending start
            ∙ ap (map (λ n. n.id)) (
                expire-due now nodes [] (later_than w.solt_nb now idx nodes (v.placed idx))
                  (v.sorted idx)),
        λ i h. due_elsewhere w.solt_nb now i (w.solts i) (v.placed i) h,
        (fire_clock call start.pending start).0,
      )

  -- A tick keeps the wheel valid, if no callback asks for a cycle of 0: each slot stays sorted, and
  -- every node in it is due at a later tick of this slot, so that no timer is ever missed.
  pub timer_wheel_tick-IsValid :
      {w : Wheel}
      → ((id : ℕ) (w' : Wheel) → Sane (call id w'))
      → IsValid w
      → IsValid (timer_wheel_tick call w).1
  unfolding timer_wheel_tick
  timer_wheel_tick-IsValid {w} sane v =
      let now = w.cur_ts in
      let nb = w.solt_nb in
      let idx = (now + 1) % nb in
      let nodes = w.solts idx in
      let (head, left) = expire (now + 1) nodes [] in
      let (placed, sorted) = expire-left nb now idx nodes [] (v.placed idx) (v.sorted idx) in
      fire-IsValid call head sane (record {
        turning = v.turning;
        placed =
            set_solt_elsewhere (λ j. All (InSolt nb (now + 1) j)) w.solts idx left
              (λ j h. waited nb now j (w.solts j) (v.placed j) h) placed;
        sorted = set_solt_keeps (λ j. Sorted) w.solts idx left v.sorted sorted;
        waiting = expire-waiting (now + 1) nodes [] (cycles nb now idx nodes (v.placed idx)) tt;
      })
