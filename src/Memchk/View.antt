-- ===== src/Memchk/View.antt =====
-- The blocks that the allocator of src/memchk.c has given out, as the tables show them.
use Prim.Native.Nat.{bit_and-bitwise, digits}
use myclib.Prelude.{
  ℕ, zero, suc, ◌+◌, ◌/◌, ◌≤◌, ◌<◌, ◌≡◌, ◌≢◌, refl, inl, inr, Bool-cases, Option, none, some, List,
  [], ◌∷◌, ◌==◌, arith, if◌then◌else◌, u32, length, min,
}
use myclib.Memchk.{Ptr, bucket_count, hash, Descriptor, Hlist, Memchk, leak_loop, mem_leak}

-- the number of entries in `n` buckets from `i` on, given the length of each
unfoldable pub sum : (ℕ → ℕ) → ℕ → ℕ → ℕ
sum f zero i = 0
sum f (suc n) i = f i + sum f n (i + 1)

sum_outside :
    (f g : ℕ → ℕ) (j n i : ℕ) → ((k : ℕ) → k ≢ j → g k ≡ f k) → j < i → sum g n i ≡ sum f n i
unfolding sum
sum_outside f g j zero i same h = refl
sum_outside f g j (suc n) i same h =
    ground (arith, sum_outside f g j n (i + 1) same, same i (ground arith))

-- two families of lengths that differ at one place
pub sum_at :
    (f g : ℕ → ℕ) (j n i : ℕ)
    → ((k : ℕ) → k ≢ j → g k ≡ f k)
    → i ≤ j
    → j < i + n
    → sum g n i + f j ≡ sum f n i + g j
unfolding sum
sum_at f g j zero i same p q = absurd (omega arith)
sum_at f g j (suc n) i same p q = elim (Bool-cases (i == j)) [
  | inl e ↦ ground (arith, sum_outside f g j n (i + 1) same)
  | inr e ↦ ground (arith, sum_at f g j n (i + 1) same, same i (ground arith))
]

-- the size of the block with this pointer
unfoldable pub size_in : List Descriptor → Ptr → Option ℕ
size_in [] p = none
size_in (d ∷ c) p = if d.ptr == p then some d.size else size_in c p

-- No two descriptors have the same pointer.
abbrev pub Distinct : List Descriptor → Type 0
Distinct [] = Unit
Distinct (d ∷ c) = (size_in c d.ptr ≡ none) × Distinct c

module _ {H : Type 0} (lists : Hlist H) where
  -- the chain of a pointer
  abbrev pub chain : Memchk H → Ptr → List Descriptor
  chain s p = lists.entries (s.htab (hash p))

  -- the size of the block at a pointer, if it is given out
  abbrev pub size_at : Memchk H → Ptr → Option ℕ
  size_at s p = size_in (chain s p) p

  abbrev pub chain_length : Memchk H → ℕ → ℕ
  chain_length s i = length (lists.entries (s.htab i))

  -- the number of descriptors in the table
  abbrev pub total : Memchk H → ℕ
  total s = sum (chain_length s) bucket_count 0

  leak_loop-sum :
      (n i : ℕ) (s : Memchk H) (count : ℕ)
      → (leak_loop lists n i s (u32 count)).0 ≡ u32 (count + sum (chain_length s) n i)
  unfolding leak_loop sum
  leak_loop-sum zero i s count = omega arith
  leak_loop-sum (suc n) i s count =
      let c = lists.entries (s.htab i) in
      let e : u32 (u32 count + length c) ≡ u32 (count + length c) = omega arith in
      rw e (omega (arith, leak_loop-sum n (i + 1) s (count + length c)))

  leak_loop_start :
      (n : ℕ) (s : Memchk H) → (leak_loop lists n 0 s 0).0 ≡ u32 (sum (chain_length s) n 0)
  leak_loop_start n s = omega (arith, leak_loop-sum n 0 s 0)

  -- `mem_leak` returns the number of descriptors.
  pub mem_leak-count : (s : Memchk H) → (mem_leak lists s).0 ≡ u32 (total s)
  unfolding mem_leak
  mem_leak-count s = leak_loop_start bucket_count s

and_digits-le : (n a b : ℕ) → digits (λ b. zero) min n a b ≤ b
and_digits-le zero a b = omega arith
and_digits-le (suc n) zero b = omega arith
and_digits-le (suc n) (suc a) b = omega (arith, and_digits-le n (suc a / 2) (b / 2))

pub hash-lt : (p : Ptr) → hash p < bucket_count
unfolding hash
hash-lt p = omega (arith, bit_and-bitwise (p / 8) 2046, and_digits-le (p / 8) (p / 8) 2046)
