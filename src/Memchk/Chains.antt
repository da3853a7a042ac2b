-- ===== src/Memchk/Chains.antt =====
-- A search for the descriptor of a pointer in a bucket of src/memchk.c, and its removal.
use mathlib.Core.Path.{subst}
use myclib.Prelude.{
  ℕ, suc, ◌+◌, ◌≡◌, ◌≢◌, refl, inl, inr, Bool-cases, Option, none, some, List, [], ◌∷◌, ◌==◌, arith,
  if◌then◌else◌, length,
}
use myclib.Memchk.{Ptr, Descriptor, without, find}
use myclib.Memchk.View.{size_in, Distinct}

pub size_in-cons :
    (d : Descriptor) (c : List Descriptor) (p : Ptr) (size : ℕ) (q : Ptr)
    → d.ptr ≡ p
    → d.size ≡ size
    → size_in (d ∷ c) q ≡ (if p == q then some size else size_in c q)
unfolding size_in
size_in-cons d c p size q at_p sized = ground arith

-- Where the search finds nothing, the pointer is none of a block.
pub find-none : (c : List Descriptor) (p : Ptr) → find c p ≡ none → size_in c p ≡ none
unfolding find size_in
find-none [] p h = refl
find-none (d ∷ c) p h = ground (arith, find-none c p)

-- What unlinking entry `n` does to the chain, if this is the entry of `p`.
pub record Unlinked (c : List Descriptor) (p : Ptr) (n : ℕ) : Type 0 where
  pub present : size_in c p ≢ none
  pub reads : (q : Ptr) → size_in (without n c) q ≡ (if p == q then none else size_in c q)
  pub distinct : Distinct (without n c)
  pub shorter : length (without n c) + 1 ≡ length c

Unlinked-first :
    (d : Descriptor) (c : List Descriptor) → Distinct (d ∷ c) → Unlinked (d ∷ c) d.ptr 0
unfolding size_in
Unlinked-first d c distinct = record {
  present = ground arith;
  reads = λ q. ground (arith, distinct.0);
  distinct = distinct.1;
  shorter = omega arith;
}

Unlinked-later :
    (d : Descriptor) (c : List Descriptor) (p : Ptr) (n : ℕ)
    → d.ptr ≢ p
    → Distinct (d ∷ c)
    → Unlinked c p n
    → Unlinked (d ∷ c) p (suc n)
unfolding size_in
Unlinked-later d c p n other distinct u = record {
  present = ground (arith, u.present);
  reads = λ q. ground (arith, u.reads q);
  distinct = (ground (arith, u.reads d.ptr, distinct.0), u.distinct);
  shorter = omega (arith, u.shorter);
}

-- what holds of the result of the search
pub Found : List Descriptor → Ptr → Option (ℕ × Descriptor) → Type 0
Found c p none = Unit
Found c p (some (n, e)) = Unlinked c p n

pub Found-Unlinked :
    (c : List Descriptor) (p : Ptr) (n : ℕ) (d : Descriptor)
    → Found c p (some (n, d))
    → Unlinked c p n
unfolding Found
Found-Unlinked c p n d u = u

next : Option (ℕ × Descriptor) → Option (ℕ × Descriptor)
next none = none
next (some (n, e)) = some (suc n, e)

find-next :
    (d : Descriptor) (c : List Descriptor) (p : Ptr)
    → find (d ∷ c) p ≡ (if d.ptr == p then some (0, d) else next (find c p))
unfolding find next
find-next d c p = ground arith

Found-next :
    (d : Descriptor) (c : List Descriptor) (p : Ptr) (o : Option (ℕ × Descriptor))
    → d.ptr ≢ p
    → Distinct (d ∷ c)
    → Found c p o
    → Found (d ∷ c) p (next o)
unfolding Found next
Found-next d c p none other distinct found = tt
Found-next d c p (some (n, e)) other distinct found = Unlinked-later d c p n other distinct found

pub find-Found : (c : List Descriptor) (p : Ptr) → Distinct c → Found c p (find c p)
unfolding Found find
find-Found [] p distinct = tt
find-Found (d ∷ c) p distinct = elim (Bool-cases (d.ptr == p)) [
  | inl hit ↦
      let same : d.ptr ≡ p = ground arith in
      rw (find-next d c p)
        (rw hit (subst (λ q. Unlinked (d ∷ c) q 0) same (Unlinked-first d c distinct)))
  | inr miss ↦
      rw (find-next d c p)
        (rw miss (Found-next d c p (find c p) (ground arith) distinct (find-Found c p distinct.1)))
]
