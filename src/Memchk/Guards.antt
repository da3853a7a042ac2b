-- ===== src/Memchk/Guards.antt =====
-- The guards around a block of src/memchk.c, and the memory of a block that is resized.
use myclib.Prelude.{
  ℕ, zero, suc, ◌+◌, ◌^◌, ◌≤◌, ◌<◌, ◌≡◌, ◌≢◌, ◌⊎◌, refl, ap, ◌∙◌, inl, inr, false, not, none, List,
  [], ◌∷◌, ◌==◌, arith, if◌then◌else◌, All, ltb, leb, ◌&&◌,
}
use myclib.Memchk.{
  Ptr, raw_mem, guard_size, Hlist, Memchk, Mallocs, add_block, mem_realloc, returned, null,
  new_descriptor, is_dirty, dp_dirty,
}
use myclib.Memchk.View.{size_at}
use myclib.Memchk.Free.{block_ptr, IsValid, mem_alloc-add_block, free_ptr_given_out}
use myclib.Memchk.Calls.{mem_realloc-mem_alloc}

-- Octets that are raw, but for one at the most.
is_dirty-octet :
    (m : Ptr → ℕ) (a : Ptr) (v p n : ℕ)
    → ((k : ℕ) → p ≤ k → k < p + n → m k ≡ (if k == a then v else raw_mem))
    → is_dirty m p n ≡ (if leb p a && ltb a (p + n) then not (v == raw_mem) else false)
unfolding is_dirty
is_dirty-octet m a v p zero h = ground arith
is_dirty-octet m a v p (suc n) h =
    ground (arith, h p, is_dirty-octet m a v (p + 1) n (λ k lo hi. h k (omega arith) (omega arith)))

-- The stores of the program, an octet each.
abbrev pub stores : List (Ptr × ℕ) → (Ptr → ℕ) → Ptr → ℕ
stores [] m = m
stores ((a, v) ∷ ws) m = stores ws (λ k. if k == a then v else m k)

-- The stores lie in `n` octets from `p` on.
abbrev pub Inside : Ptr → ℕ → List (Ptr × ℕ) → Type 0
Inside p n ws = All (λ (a, v). (p ≤ a) × (a < p + n)) ws

stores_outside :
    (p n : ℕ) (ws : List (Ptr × ℕ)) (m : Ptr → ℕ) (k : Ptr)
    → Inside p n ws
    → (k < p) ⊎ (p + n ≤ k)
    → stores ws m k ≡ m k
stores_outside p n [] m k inside out = refl
stores_outside p n ((a, v) ∷ ws) m k inside out =
    stores_outside p n ws (λ j. if j == a then v else m j) k inside.1 out ∙ ground arith

-- A block and its guards, after `mem_alloc`, and stores that change one octet of the guards at most.
module _ (got : Mallocs) (size : ℕ)
    (fits : got.block + guard_size + size + guard_size < 2 ^ 64) where
  raw_around :
      {H : Type 0} (lists : Hlist H) (s : Memchk H) (rest : H) (k : Ptr)
      → got.block ≤ k
      → k < got.block + guard_size + size + guard_size
      → (add_block lists got size s rest).1.memory k ≡ raw_mem
  unfolding add_block
  raw_around lists s rest k a b = ground arith

  -- After `mem_alloc`, stores into the block, one store of `v` into an octet of a guard, and more stores
  -- into the block, `dp_dirty` tells an access out of bounds exactly if `v` is not the octet that the
  -- guards are filled with, provided that the block with its guards lies in the address space.
  pub dp_dirty-overrun :
      {H : Type 0} (lists : Hlist H) (s : Memchk H) (rest : H) (ws ws' : List (Ptr × ℕ)) (a : Ptr)
      (v : ℕ)
      → Inside (block_ptr got) size ws
      → Inside (block_ptr got) size ws'
      → ((got.block ≤ a) × (a < block_ptr got))
        ⊎ ((block_ptr got + size ≤ a) × (a < block_ptr got + size + guard_size))
      → let m = stores ws (add_block lists got size s rest).1.memory in
        let m' = stores ws' (λ k. if k == a then v else m k) in
        (dp_dirty m' (new_descriptor got size)).0 ≡ not (v == raw_mem)
  unfolding dp_dirty
  dp_dirty-overrun lists s rest ws ws' a v inside inside' place =
      let p = block_ptr got in
      let m0 = (add_block lists got size s rest).1.memory in
      let m = stores ws m0 in
      let m' = stores ws' (λ k. if k == a then v else m k) in
      let octet : (k : ℕ)
          → got.block ≤ k
          → k < got.block + guard_size + size + guard_size
          → (k < p) ⊎ (p + size ≤ k)
          → m' k ≡ (if k == a then v else raw_mem) =
        λ k lo hi out.
          stores_outside p size ws' (λ j. if j == a then v else m j) k inside' out
          ∙ ap (λ (x : ℕ). if k == a then v else x)
              (stores_outside p size ws m0 k inside out ∙ raw_around lists s rest k lo hi) in
      let upper =
        is_dirty-octet m' a v got.block guard_size
          (λ k lo hi. octet k lo (omega arith) (inl (omega arith))) in
      let bottom =
        is_dirty-octet m' a v (p + size) guard_size
          (λ k lo hi. octet k (omega arith) (omega arith) (inr lo)) in
      ground (arith, upper, bottom)

  -- `mem_realloc` of a block that is given out, where `malloc` gives memory for the new one and the
  -- block with its guards lies in the address space, succeeds, and every octet of the block that it
  -- returns is the one that guards are filled with, whatever the old block held.
  pub mem_realloc-raw :
      {H : Type 0} (lists : Hlist H) (s : Memchk H) (p : Ptr)
      → IsValid lists s
      → p ≢ null
      → size_at lists s p ≢ none
      → 0 < size
      → got.descriptor ≢ null
      → got.block ≢ null
      → (p ≡ block_ptr got) ⊎ (size_at lists s (block_ptr got) ≡ none)
      → (s' : Memchk H) × (mem_realloc lists got p size s ≡ returned (block_ptr got, s'))
        × ((k : ℕ) → k < size → s'.memory (block_ptr got + k) ≡ raw_mem)
  mem_realloc-raw lists s p valid nonnull known positive descriptor block fresh =
      let (s1, freed, valid1, reads, fewer, same) = free_ptr_given_out lists p s valid known in
      let (rest, result) = mem_alloc-add_block lists got size s1 positive (record {
        descriptor = descriptor;
        block = block;
        fresh = ground (arith, reads (block_ptr got), fresh);
      }) in
      (
        (add_block lists got size s1 rest).1,
        mem_realloc-mem_alloc lists got p size s s1 nonnull positive freed
            ∙ result
            ∙ unfold add_block in refl,
        λ k lt. raw_around lists s1 rest (block_ptr got + k) (omega arith) (omega arith),
      )
