-- ===== src/TimerWheel/Armed.antt =====
-- A timer of src/timer_wheel.c that was added and not deleted runs after as many ticks as its cycle.
use myclib.Prelude.{
  ℕ, zero, suc, ◌+◌, ◌%◌, ◌<◌, ◌≡◌, ◌≢◌, refl, Bool, true, false, not, ◌&&◌, List, [], ◌∷◌, map,
  ltb, leb, ◌==◌, Has, Has-reverse_aux, arith, inl, inr, Bool-cases,
}
use mathlib.Core.Path.{subst}
use mathlib.Core.List.{reverse}
use myclib.TimerWheel.{
  Node, Wheel, insert, set_solt, add_node, timer_wheel_add, mark, timer_wheel_del, collect, expire,
  Request, add, del, request, requests, finish, fire, timer_wheel_tick,
}
use myclib.TimerWheel.Order.{IsValid, timer_wheel_add-IsValid}
use myclib.TimerWheel.Tick.{due, Sane}
use myclib.TimerWheel.OnTime.{timer_wheel_tick-due, timer_wheel_tick-IsValid}

-- the node at `id`, not marked and due at `t`
abbrev Waits : ℕ → ℕ → Node → Type 0
Waits id t n = (n.id ≡ id) × (n.is_deleted ≡ false) × (n.tigger_ts ≡ t)

abbrev pub Armed : Wheel → ℕ → ℕ → Type 0
Armed w id t = Has (Waits id t) (w.solts (t % w.solt_nb))

insert-Has_self : (P : Node → Type 0) (n : Node) (ns : List Node) → P n → Has P (insert n ns)
unfolding insert
insert-Has_self P n [] p = inl p
insert-Has_self P n (m ∷ ns) p = elim (Bool-cases (leb n.tigger_ts m.tigger_ts)) [
  | inl e ↦ simp e (inl p)
  | inr e ↦ simp e (inr (insert-Has_self P n ns p))
]

insert-Has : (P : Node → Type 0) (n : Node) (ns : List Node) → Has P ns → Has P (insert n ns)
unfolding insert
insert-Has P n [] h = absurd h
insert-Has P n (m ∷ ns) h = elim (Bool-cases (leb n.tigger_ts m.tigger_ts)) [
  | inl e ↦ simp e (inr h)
  | inr e ↦ simp e (elim h [ inl p ↦ inl p | inr rest ↦ inr (insert-Has P n ns rest) ])
]

mark-Has :
    (id t other : ℕ) (ns : List Node)
    → other ≢ id
    → Has (Waits id t) ns
    → Has (Waits id t) (mark other ns)
unfolding mark
mark-Has id t other [] ne h = h
mark-Has id t other (n ∷ ns) ne (inr h) = inr (mark-Has id t other ns ne h)
mark-Has id t other (n ∷ ns) ne (inl h) =
    let apart : (n.id == other) ≡ false = ground arith in inl (simp apart h)

set_solt-Has :
    (P : Node → Type 0) (solts : ℕ → List Node) (i j : ℕ) (ns : List Node)
    → (Has P (solts i) → Has P ns)
    → Has P (solts j)
    → Has P (set_solt solts i ns j)
set_solt-Has P solts i j ns keep h = elim (Bool-cases (j == i)) [
  | inl e ↦ let same : j ≡ i = ground arith in rw e (keep (subst (λ k. Has P (solts k)) same h))
  | inr e ↦ rw e h
]

set_solt-Has_self :
    (P : Node → Type 0) (solts : ℕ → List Node) (i : ℕ) (ns : List Node)
    → Has P ns
    → Has P (set_solt solts i ns i)
set_solt-Has_self P solts i ns h = let same : (i == i) ≡ true = ground arith in rw same h

add_node-Armed_self :
    (w : Wheel) (n : Node) → n.is_deleted ≡ false → Armed (add_node w n) n.id (w.cur_ts + n.cycle)
unfolding add_node
add_node-Armed_self w n live =
    let t = w.cur_ts + n.cycle in
    let i = t % w.solt_nb in
    let new = record n { tigger_ts = t } in
    set_solt-Has_self (Waits n.id t) w.solts i (insert new (w.solts i))
      (insert-Has_self (Waits n.id t) new (w.solts i) (refl, live, refl))

add_node-Armed : (w : Wheel) (n : Node) (id t : ℕ) → Armed w id t → Armed (add_node w n) id t
unfolding add_node
add_node-Armed w n id t h =
    set_solt-Has (Waits id t) w.solts ((w.cur_ts + n.cycle) % w.solt_nb) (t % w.solt_nb) _
      (insert-Has (Waits id t) _ _) h

-- No request names the node.
abbrev pub Spares : ℕ → List Request → Type 0
Spares id [] = Unit
Spares id (add other cycle is_repeat ∷ rs) = Spares id rs
Spares id (del other ∷ rs) = (other ≢ id) × Spares id rs

requests-Armed :
    (rs : List Request) (w : Wheel) (id t : ℕ)
    → Spares id rs
    → Armed w id t
    → Armed (requests w rs) id t
unfolding requests request timer_wheel_add timer_wheel_del
requests-Armed [] w id t s h = h
requests-Armed (add other cycle is_repeat ∷ rs) w id t s h = requests-Armed rs _ id t s (
    add_node-Armed w
      (record {
        id = other;
        is_repeat = is_repeat;
        is_deleted = false;
        cycle = cycle;
        tigger_ts = 0;
      })
      id t h)
requests-Armed (del other ∷ rs) w id t s h =
    requests-Armed rs _ id t s.1 (mark-Has id t other (w.solts (t % w.solt_nb)) s.0 h)

finish-Armed : (ns : List Node) (w : Wheel) (id t : ℕ) → Armed w id t → Armed (finish ns w) id t
unfolding finish
finish-Armed [] w id t h = h
finish-Armed (n ∷ ns) w id t h = elim (Bool-cases n.is_repeat) [
  | inl e ↦ simp e (add_node-Armed (record w { pending = ns }) n id t h)
  | inr e ↦ simp e h
]

expire-Has :
    (now id t : ℕ) (ns head : List Node)
    → now < t
    → Has (Waits id t) ns
    → Has (Waits id t) (expire now ns head).1
unfolding expire
expire-Has now id t [] head lt h = h
expire-Has now id t (n ∷ ns) head lt (inl h) =
    let later : ltb now n.tigger_ts ≡ true = ground arith in
    simp (h.1, later) (inl (h.0, refl, h.2))
expire-Has now id t (n ∷ ns) head lt (inr h) = elim (Bool-cases n.is_deleted) [
  | inl e ↦ simp e (expire-Has now id t ns head lt h)
  | inr e ↦ elim (Bool-cases (ltb now n.tigger_ts)) [
    | inl f ↦ simp (e, f) (inr h)
    | inr f ↦ simp (e, f) (expire-Has now id t ns (n ∷ head) lt h)
  ]
]

due-Has : (id now : ℕ) (ns : List Node) → Has (Waits id now) ns → Has (λ n. n.id ≡ id) (due now ns)
unfolding due
due-Has id now [] h = elim h [ ]
due-Has id now (n ∷ ns) (inl h) =
    let here : (not n.is_deleted && (n.tigger_ts == now)) ≡ true = ground arith in
    simp here (inl h.0)
due-Has id now (n ∷ ns) (inr h) = elim (Bool-cases (not n.is_deleted && (n.tigger_ts == now))) [
  | inl e ↦ simp e (inr (due-Has id now ns h))
  | inr e ↦ simp e (due-Has id now ns h)
]

map-Has :
    (id : ℕ) (ns : List Node) → Has (λ n. n.id ≡ id) ns → Has (λ k. k ≡ id) (map (λ n. n.id) ns)
map-Has id [] h = elim h [ ]
map-Has id (n ∷ ns) (inl h) = inl h
map-Has id (n ∷ ns) (inr h) = inr (map-Has id ns h)

module _ (call : ℕ → Wheel → List Request) where
  fire-Armed :
      (ns : List Node) (w : Wheel) (id t : ℕ)
      → ((k : ℕ) (v : Wheel) → Spares id (call k v))
      → Armed w id t
      → Armed (fire call ns w).1 id t
  unfolding fire
  fire-Armed [] w id t s h = h
  fire-Armed (n ∷ ns) w id t s h =
      let w' = requests w (call n.id w) in
      fire-Armed ns _ id t s
        (finish-Armed w'.pending w' id t (requests-Armed (call n.id w) w id t (s n.id w) h))

  -- A tick before `t` leaves the timer armed for `t`.
  tick-Armed :
      (w : Wheel) (id t : ℕ)
      → ((k : ℕ) (v : Wheel) → Spares id (call k v))
      → w.cur_ts + 1 < t
      → Armed w id t
      → Armed (timer_wheel_tick call w).1 id t
  unfolding timer_wheel_tick
  tick-Armed w id t s lt h =
      let now = w.cur_ts + 1 in
      let idx = now % w.solt_nb in
      fire-Armed (collect w).pending (collect w) id t s (
        set_solt-Has (Waits id t) w.solts idx (t % w.solt_nb) _
          (expire-Has now id t (w.solts idx) [] lt) h)

  -- The tick of the time `t` runs the callback of a timer that is armed for `t`.
  tick-fires :
      (w : Wheel) (id t : ℕ)
      → IsValid w
      → w.cur_ts + 1 ≡ t
      → Armed w id t
      → Has (λ k. k ≡ id) (timer_wheel_tick call w).0
  tick-fires w id t v e h =
      let now = w.cur_ts + 1 in
      let nodes = w.solts (now % w.solt_nb) in
      let armed : Has (Waits id now) nodes = rw (← e) at h in
      rw (timer_wheel_tick-due call v).0 (
        map-Has id (reverse (due now nodes))
          (Has-reverse_aux (λ n. n.id ≡ id) (due now nodes) [] (inl (due-Has id now nodes armed))))

  -- the wheel after `n` ticks
  unfoldable pub after : ℕ → Wheel → Wheel
  after zero w = w
  after (suc n) w = after n (timer_wheel_tick call w).1

  Armed-fires :
      (n : ℕ) (w : Wheel) (id : ℕ)
      → ((k : ℕ) (v : Wheel) → Sane (call k v) × Spares id (call k v))
      → IsValid w
      → Armed w id (w.cur_ts + suc n)
      → Has (λ k. k ≡ id) (timer_wheel_tick call (after n w)).0
  unfolding after
  Armed-fires zero w id s v h = tick-fires w id _ v (omega arith) h
  Armed-fires (suc n) w id s v h =
      let w' = (timer_wheel_tick call w).1 in
      let clock : w.cur_ts + suc (suc n) ≡ w'.cur_ts + suc n =
        omega (arith, (timer_wheel_tick-due call v).2) in
      Armed-fires n w' id s (timer_wheel_tick-IsValid call (λ k u. (s k u).0) v)
        (subst (Armed w' id) clock (tick-Armed w id _ (λ k u. (s k u).1) (omega arith) h))

  -- A timer that is added to a valid wheel with a cycle of `n + 1` ticks runs its callback in the
  -- tick number `n + 1` from then on, whatever the callbacks of the ticks before add or delete, as
  -- long as they ask for no cycle of 0 and do not delete this timer.
  pub timer_wheel_add-fires :
      (n : ℕ) {w : Wheel} (id : ℕ) (is_repeat : Bool)
      → ((k : ℕ) (v : Wheel) → Sane (call k v) × Spares id (call k v))
      → IsValid w
      → Has
          (λ k. k ≡ id)
          (timer_wheel_tick call (after n (timer_wheel_add w id (suc n) is_repeat))).0
  timer_wheel_add-fires n {w} id is_repeat s v =
      Armed-fires n (timer_wheel_add w id (suc n) is_repeat) id s
        (timer_wheel_add-IsValid id (suc n) is_repeat v (omega arith))
        (unfold timer_wheel_add add_node in
          add_node-Armed_self w
            (record {
              id = id;
              is_repeat = is_repeat;
              is_deleted = false;
              cycle = suc n;
              tigger_ts = 0;
            })
            refl)
