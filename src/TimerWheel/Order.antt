-- ===== src/TimerWheel/Order.antt =====
-- The representation invariant of the timer wheel of src/timer_wheel.c, and that adding, marking and
-- ticking keep it.
use myclib.Prelude.{
  ℕ, ◌+◌, ◌%◌, ◌≤◌, ◌<◌, ◌≡◌, ◌≢◌, refl, Bool, true, false, List, [], ◌∷◌, leb, ◌==◌, All, arith,
  inl, inr, Bool-cases,
}
use mathlib.Core.Path.{subst}
use myclib.TimerWheel.{
  Node, Wheel, insert, set_solt, add_node, timer_wheel_add, mark, timer_wheel_del,
}

-- no node of a sorted slot is due before the one in front of it
abbrev pub Sorted : List Node → Type 0
Sorted [] = Unit
Sorted (n ∷ ns) = All (λ m. n.tigger_ts ≤ m.tigger_ts) ns × Sorted ns

-- The node stands in the slot of its tick, which is to come.
abbrev pub InSolt : ℕ → ℕ → ℕ → Node → Type 0
InSolt nb now i n = (n.tigger_ts % nb ≡ i) × (now < n.tigger_ts) × (0 < n.cycle)

pub record IsValid (w : Wheel) : Type 0 where
  pub turning : 0 < w.solt_nb
  pub placed : (i : ℕ) → All (InSolt w.solt_nb w.cur_ts i) (w.solts i)
  pub sorted : (i : ℕ) → Sorted (w.solts i)
  pub waiting : All (λ n. 0 < n.cycle) w.pending

module _ (P : Node → Type 0) where
  pub insert-All : (n : Node) (ns : List Node) → P n → All P ns → All P (insert n ns)
  unfolding insert
  insert-All n [] p all = (p, tt)
  insert-All n (m ∷ ns) p all = elim (Bool-cases (leb n.tigger_ts m.tigger_ts)) [
    | inl e ↦ rw e (p, all)
    | inr e ↦ rw e (all.0, insert-All n ns p all.1)
  ]

  mark-All :
      (id : ℕ) (ns : List Node)
      → ((n : Node) → P n → P (record n { is_deleted = true }))
      → All P ns
      → All P (mark id ns)
  unfolding mark
  mark-All id [] keep all = tt
  mark-All id (n ∷ ns) keep all = elim (Bool-cases (n.id == id)) [
    | inl e ↦ rw e (keep n all.0, mark-All id ns keep all.1)
    | inr e ↦ rw e (all.0, mark-All id ns keep all.1)
  ]

after-All :
    (a b : ℕ) (ns : List Node)
    → a ≤ b
    → All (λ m. b ≤ m.tigger_ts) ns
    → All (λ m. a ≤ m.tigger_ts) ns
after-All a b [] h all = tt
after-All a b (n ∷ ns) h all = (omega arith, after-All a b ns h all.1)

insert-Sorted : (n : Node) (ns : List Node) → Sorted ns → Sorted (insert n ns)
unfolding insert
insert-Sorted n [] s = (tt, tt)
insert-Sorted n (m ∷ ns) s = elim (Bool-cases (leb n.tigger_ts m.tigger_ts)) [
  | inl e ↦
      let le : n.tigger_ts ≤ m.tigger_ts = ground arith in
      rw e ((le, after-All n.tigger_ts m.tigger_ts ns le s.0), s)
  | inr e ↦
      rw e (
        insert-All (λ k. m.tigger_ts ≤ k.tigger_ts) n ns (ground arith) s.0,
        insert-Sorted n ns s.1,
      )
]

mark-Sorted : (id : ℕ) (ns : List Node) → Sorted ns → Sorted (mark id ns)
unfolding mark
mark-Sorted id [] s = tt
mark-Sorted id (n ∷ ns) s = elim (Bool-cases (n.id == id)) [
  | inl e ↦
      rw e (mark-All (λ m. n.tigger_ts ≤ m.tigger_ts) id ns (λ m h. h) s.0, mark-Sorted id ns s.1)
  | inr e ↦
      rw e (mark-All (λ m. n.tigger_ts ≤ m.tigger_ts) id ns (λ m h. h) s.0, mark-Sorted id ns s.1)
]

-- A property of every other slot, and of what replaces this one, is one of each slot afterwards.
pub set_solt_elsewhere :
    (P : ℕ → List Node → Type 0) (solts : ℕ → List Node) (i : ℕ) (ns : List Node)
    → ((j : ℕ) → j ≢ i → P j (solts j))
    → P i ns
    → (j : ℕ) → P j (set_solt solts i ns j)
set_solt_elsewhere P solts i ns others new j = elim (Bool-cases (j == i)) [
  | inl e ↦ rw e (let same : i ≡ j = ground arith in subst (λ k. P k ns) same new)
  | inr e ↦ rw e (others j (ground arith))
]

pub set_solt_keeps :
    (P : ℕ → List Node → Type 0) (solts : ℕ → List Node) (i : ℕ) (ns : List Node)
    → ((j : ℕ) → P j (solts j))
    → P i ns
    → (j : ℕ) → P j (set_solt solts i ns j)
set_solt_keeps P solts i ns all = set_solt_elsewhere P solts i ns (λ j h. all j)

pub add_node-IsValid : {w : Wheel} (n : Node) → IsValid w → 0 < n.cycle → IsValid (add_node w n)
unfolding add_node
add_node-IsValid {w} n v pos =
    let ts = w.cur_ts + n.cycle in
    let new = record n { tigger_ts = ts } in
    let i = ts % w.solt_nb in
    record {
      turning = v.turning;
      placed =
          set_solt_keeps (λ j. All (InSolt w.solt_nb w.cur_ts j)) w.solts i _ v.placed
            (insert-All (InSolt w.solt_nb w.cur_ts i) new (w.solts i) (refl, omega arith, pos)
              (v.placed i));
      sorted =
          set_solt_keeps (λ j. Sorted) w.solts i _ v.sorted
            (insert-Sorted new (w.solts i) (v.sorted i));
      waiting = v.waiting;
    }

-- `timer_wheel_add` of a cycle that is not 0 keeps the wheel valid.
pub timer_wheel_add-IsValid :
    {w : Wheel} (id cycle : ℕ) (is_repeat : Bool)
    → IsValid w
    → 0 < cycle
    → IsValid (timer_wheel_add w id cycle is_repeat)
unfolding timer_wheel_add
timer_wheel_add-IsValid id cycle is_repeat v pos =
    add_node-IsValid
      (record { id = id; is_repeat = is_repeat; is_deleted = false; cycle = cycle; tigger_ts = 0 })
      v pos

-- `timer_wheel_del` keeps the wheel valid.
pub timer_wheel_del-IsValid : {w : Wheel} (id : ℕ) → IsValid w → IsValid (timer_wheel_del w id)
unfolding timer_wheel_del
timer_wheel_del-IsValid {w} id v = record {
  turning = v.turning;
  placed = λ i. mark-All (InSolt w.solt_nb w.cur_ts i) id (w.solts i) (λ n h. h) (v.placed i);
  sorted = λ i. mark-Sorted id (w.solts i) (v.sorted i);
  waiting = mark-All (λ n. 0 < n.cycle) id w.pending (λ n h. h) v.waiting;
}
