-- ===== src/TimerWheel/Tick.antt =====
-- `timer_wheel_tick` of src/timer_wheel.c: which timers a tick runs, and that it keeps the wheel valid.
use myclib.Prelude.{
  ℕ, ◌+◌, ◌≤◌, ◌<◌, ◌≡◌, refl, ap, not, ◌&&◌, List, [], ◌∷◌, map, ltb, ◌==◌, if◌then◌else◌, All,
  arith, inl, inr, Bool-cases,
}
use mathlib.Core.List.{reverse_aux}
use myclib.TimerWheel.{
  Node, Wheel, add_node, timer_wheel_add, timer_wheel_del, expire, Request, add, del, request,
  requests, finish, fire,
}
use myclib.TimerWheel.Order.{
  Sorted, InSolt, IsValid, add_node-IsValid, timer_wheel_add-IsValid, timer_wheel_del-IsValid,
}

-- the nodes of a list that are due at the tick `now` and are not marked
unfoldable pub due : ℕ → List Node → List Node
due now [] = []
due now (n ∷ ns) =
    let rest = due now ns in if not n.is_deleted && (n.tigger_ts == now) then n ∷ rest else rest

pub due_later :
    (now t : ℕ) (ns : List Node) → now < t → All (λ m. t ≤ m.tigger_ts) ns → due now ns ≡ []
unfolding due
due_later now t [] h all = refl
due_later now t (n ∷ ns) h all = ground (arith, due_later now t ns)

pub expire-due :
    (now : ℕ) (ns head : List Node)
    → All (λ n. now < n.tigger_ts) ns
    → Sorted ns
    → (expire (now + 1) ns head).0 ≡ reverse_aux (due (now + 1) ns) head
unfolding expire due
expire-due now [] head all s = refl
expire-due now (n ∷ ns) head all s = ground (
  arith,
  expire-due now ns head,
  expire-due now ns (n ∷ head),
  due_later (now + 1) n.tigger_ts ns,
)

later_still :
    (nb now i t : ℕ) (ns : List Node)
    → now + 1 < t
    → All (λ m. t ≤ m.tigger_ts) ns
    → All (InSolt nb now i) ns
    → All (InSolt nb (now + 1) i) ns
later_still nb now i t [] h after all = tt
later_still nb now i t (n ∷ ns) h after all =
    (omega arith, later_still nb now i t ns h after.1 all.1)

-- What `expire` leaves is a sorted rest of the slot, due later than now.
pub expire-left :
    (nb now i : ℕ) (ns head : List Node)
    → All (InSolt nb now i) ns
    → Sorted ns
    → All (InSolt nb (now + 1) i) (expire (now + 1) ns head).1 × Sorted (expire (now + 1) ns head).1
unfolding expire
expire-left nb now i [] head all s = (tt, tt)
expire-left nb now i (n ∷ ns) head all s = elim (Bool-cases n.is_deleted) [
  | inl e ↦ simp e (expire-left nb now i ns head all.1 s.1)
  | inr e ↦ elim (Bool-cases (ltb (now + 1) n.tigger_ts)) [
    | inl f ↦
        let lt : now + 1 < n.tigger_ts = ground arith in
        simp (e, f) ((omega arith, later_still nb now i n.tigger_ts ns lt s.0 all.1), s)
    | inr f ↦ simp (e, f) (expire-left nb now i ns (n ∷ head) all.1 s.1)
  ]
]

pub expire-waiting :
    (now : ℕ) (ns head : List Node)
    → All (λ n. 0 < n.cycle) ns
    → All (λ n. 0 < n.cycle) head
    → All (λ n. 0 < n.cycle) (expire now ns head).0
unfolding expire
expire-waiting now [] head all h = h
expire-waiting now (n ∷ ns) head all h = elim (Bool-cases n.is_deleted) [
  | inl e ↦ simp e (expire-waiting now ns head all.1 h)
  | inr e ↦ elim (Bool-cases (ltb now n.tigger_ts)) [
    | inl f ↦ simp (e, f) h
    | inr f ↦ simp (e, f) (expire-waiting now ns (n ∷ head) all.1 (all.0, h))
  ]
]

-- Whatever a callback asks for leaves the time and the number of slots.
pub requests_clock :
    (rs : List Request) (w : Wheel)
    → ((requests w rs).cur_ts ≡ w.cur_ts) × ((requests w rs).solt_nb ≡ w.solt_nb)
unfolding requests request timer_wheel_add timer_wheel_del add_node
requests_clock [] w = (refl, refl)
requests_clock (add id cycle is_repeat ∷ rs) w = requests_clock rs _
requests_clock (del id ∷ rs) w = requests_clock rs _

pub finish_clock :
    (ns : List Node) (w : Wheel)
    → ((finish ns w).cur_ts ≡ w.cur_ts) × ((finish ns w).solt_nb ≡ w.solt_nb)
unfolding finish add_node
finish_clock [] w = (refl, refl)
finish_clock (n ∷ ns) w = (ground arith, ground arith)

-- Every cycle that is asked for is at least one tick.
abbrev pub Sane : List Request → Type 0
Sane [] = Unit
Sane (add id cycle is_repeat ∷ rs) = (0 < cycle) × Sane rs
Sane (del id ∷ rs) = Sane rs

pub requests-IsValid :
    (rs : List Request) {w : Wheel} → Sane rs → IsValid w → IsValid (requests w rs)
unfolding requests request
requests-IsValid [] s v = v
requests-IsValid (add id cycle is_repeat ∷ rs) s v =
    requests-IsValid rs s.1 (timer_wheel_add-IsValid id cycle is_repeat v s.0)
requests-IsValid (del id ∷ rs) s v = requests-IsValid rs s (timer_wheel_del-IsValid id v)

pub finish-IsValid :
    (ns : List Node) {w : Wheel} → All (λ n. 0 < n.cycle) ns → IsValid w → IsValid (finish ns w)
unfolding finish
finish-IsValid [] all v = v
finish-IsValid (n ∷ ns) {w} all v =
    let rest : IsValid (record w { pending = ns }) = record {
      turning = v.turning;
      placed = v.placed;
      sorted = v.sorted;
      waiting = all.1;
    } in
    elim (Bool-cases n.is_repeat) [
      | inl e ↦ simp e (add_node-IsValid n rest all.0)
      | inr e ↦ simp e rest
    ]

module _ (call : ℕ → Wheel → List Request) where
  pub fire_ids : (ns : List Node) (w : Wheel) → (fire call ns w).0 ≡ map (λ n. n.id) ns
  unfolding fire
  fire_ids [] w = refl
  fire_ids (n ∷ ns) w = ap (λ ids. n.id ∷ ids) (fire_ids ns _)

  pub fire_clock :
      (ns : List Node) (w : Wheel)
      → ((fire call ns w).1.cur_ts ≡ w.cur_ts) × ((fire call ns w).1.solt_nb ≡ w.solt_nb)
  unfolding fire
  fire_clock [] w = (refl, refl)
  fire_clock (n ∷ ns) w =
      let w' = requests w (call n.id w) in
      omega (
        arith,
        fire_clock ns (finish w'.pending w'),
        finish_clock w'.pending w',
        requests_clock (call n.id w) w,
      )

  pub fire-IsValid :
      (ns : List Node) {w : Wheel}
      → ((id : ℕ) (v : Wheel) → Sane (call id v))
      → IsValid w
      → IsValid (fire call ns w).1
  unfolding fire
  fire-IsValid [] sane v = v
  fire-IsValid (n ∷ ns) {w} sane v =
      let v' = requests-IsValid (call n.id w) (sane n.id w) v in
      fire-IsValid ns sane (finish-IsValid (requests w (call n.id w)).pending v'.waiting v')
