-- ===== src/AsyncWork/Order.antt =====
-- The sorted list of the works of src/async_work.c.
use myclib.Prelude.{
  ℕ, suc, ◌≤◌, ◌≡◌, refl, true, Bool-cases, List, [], ◌∷◌, leb, if◌then◌else◌, All, arith, inl, inr,
}
use myclib.AsyncWork.{Work, insert_work, take_expired}

-- earlier deadlines first
abbrev pub Sorted : List Work → Type 0
Sorted [] = Unit
Sorted (aw ∷ list) = All (λ w. aw.deadline ≤ w.deadline) list × Sorted list

-- the works that are still waiting at a time
abbrev pub waiting : ℕ → List Work → List Work
waiting ts [] = []
waiting ts (aw ∷ list) = if leb aw.deadline ts then waiting ts list else aw ∷ waiting ts list

-- the works whose deadline has come, marked
abbrev pub due : ℕ → List Work → List Work
due ts [] = []
due ts (aw ∷ list) =
    if leb aw.deadline ts then record aw { is_timeout = true } ∷ due ts list else due ts list

All-insert_work :
    (m : ℕ) (aw : Work) (list : List Work)
    → m ≤ aw.deadline
    → All (λ w. m ≤ w.deadline) list
    → All (λ w. m ≤ w.deadline) (insert_work aw list)
unfolding insert_work
All-insert_work m aw [] h a = (h, tt)
All-insert_work m aw (pos ∷ list) h (p, a) = ground (arith, All-insert_work m aw list h a)

All-le :
    (m n : ℕ) (list : List Work)
    → m ≤ n
    → All (λ w. n ≤ w.deadline) list
    → All (λ w. m ≤ w.deadline) list
All-le m n [] h a = tt
All-le m n (w ∷ list) h (p, a) = (omega arith, All-le m n list h a)

pub insert_work-Sorted : (aw : Work) (list : List Work) → Sorted list → Sorted (insert_work aw list)
unfolding insert_work
insert_work-Sorted aw [] s = (tt, tt)
insert_work-Sorted aw (pos ∷ list) (a, s) = ground (
  arith,
  insert_work-Sorted aw list s,
  All-insert_work pos.deadline aw list,
  All-le aw.deadline pos.deadline list,
)

-- Behind a work that is not due, none is.
none_due :
    (ts : ℕ) (list : List Work)
    → All (λ w. suc ts ≤ w.deadline) list
    → (due ts list ≡ []) × (waiting ts list ≡ list)
none_due ts [] a = (refl, refl)
none_due ts (w ∷ list) (p, a) = ground (arith, none_due ts list a)

pub take_expired-due :
    (ts : ℕ) (list : List Work)
    → Sorted list
    → take_expired ts list ≡ (due ts list, waiting ts list)
unfolding take_expired
take_expired-due ts [] s = refl
take_expired-due ts (pos ∷ list) (a, s) = elim (Bool-cases (leb pos.deadline ts)) [
  | inl e ↦ rw e (rw (take_expired-due ts list s) refl)
  | inr e ↦
      let (f, g) = none_due ts list (All-le (suc ts) pos.deadline list (ground arith) a) in
      rw e (rw f (rw g refl))
]

All-waiting :
    (m ts : ℕ) (list : List Work)
    → All (λ w. m ≤ w.deadline) list
    → All (λ w. m ≤ w.deadline) (waiting ts list)
All-waiting m ts [] a = tt
All-waiting m ts (w ∷ list) (p, a) = ground (arith, All-waiting m ts list a)

pub waiting-Sorted : (ts : ℕ) (list : List Work) → Sorted list → Sorted (waiting ts list)
waiting-Sorted ts [] s = tt
waiting-Sorted ts (w ∷ list) (a, s) =
    ground (arith, waiting-Sorted ts list s, All-waiting w.deadline ts list a)

pub waiting-waiting :
    (m n : ℕ) (list : List Work) → m ≤ n → waiting n (waiting m list) ≡ waiting n list
waiting-waiting m n [] h = refl
waiting-waiting m n (w ∷ list) h = ground (arith, waiting-waiting m n list h)
