-- ===== src/Mpool/Overflow.antt =====
-- A request of src/mpool.c that is larger than a block.
use myclib.Prelude.{
  ℕ, zero, suc, ◌+◌, ◌*◌, ◌^◌, ◌≤◌, ◌<◌, ◌≡◌, refl, Bool, true, Option, none, some, ◌>>=◌, List, [],
  ◌∷◌, ◌++◌, All, ltb, leb, length, arith, Option-cases, inl, inr, Bool-cases,
}
use mathlib.Core.Path.{subst}
use myclib.Mpool.{
  Span, Pointer, Pool, aligned, room, scan, block_size, alloc_block, alloc_small, mpool_cleanup_add,
}
use myclib.Mpool.Blocks.{top, Sound, top-snoc, aligned-bounds, room-le, top_beyond}
use myclib.Mpool.Alloc.{IsValid}

module _ (size : ℕ) (align : Bool) where
  -- A block is never used less than before.
  abbrev Grows : List Span → Option (Pointer × List Span) → Type 0
  Grows blks none = Unit
  Grows blks (some (p, blks')) = (j : ℕ) → top blks j ≤ top blks' j

  Grows-cons :
      (blk : Span) (blks : List Span) (found : Option (Pointer × List Span))
      → Grows blks found
      → Grows (blk ∷ blks) (found >>= λ (p, rest). some (p, blk ∷ rest))
  Grows-cons blk blks none g = tt
  Grows-cons blk blks (some (p, rest)) g = elim [ zero ↦ omega arith | suc j ↦ g j ]

  scan-Grows : (skip i : ℕ) (blks : List Span) → Grows blks (scan size align skip i blks)
  unfolding scan
  scan-Grows skip i [] = tt
  scan-Grows (suc skip) i (blk ∷ rest) = Grows-cons blk rest _ (scan-Grows skip (i + 1) rest)
  scan-Grows zero i (blk ∷ rest) =
      elim (Bool-cases (leb size (room blk.end (aligned align blk.avail)))) [
        | inl e ↦ rw e (elim [
          | zero ↦
              let up = aligned-bounds align blk.avail blk.avail (omega arith) in omega (arith, up.0)
          | suc j ↦ omega arith
        ])
        | inr e ↦ rw e (Grows-cons blk rest _ (scan-Grows zero (i + 1) rest))
      ]

  -- No sound block has room for more bytes than it has.
  scan-none :
      (n skip i : ℕ) (blks : List Span)
      → n * 16 < 2 ^ 64
      → n * 16 < size
      → All (Sound (n * 16)) blks
      → scan size align skip i blks ≡ none
  unfolding scan
  scan-none n skip i [] s h all = refl
  scan-none n (suc skip) i (blk ∷ rest) s h all = rw (scan-none n skip (i + 1) rest s h all.1)
  scan-none n zero i (blk ∷ rest) s h all =
      let bounds = aligned-bounds align blk.avail n all.0.2 in
      let left =
        room-le blk.end (aligned align blk.avail) (omega (arith, bounds.1, all.0.0))
          (omega (arith, all.0.0, s)) in
      elim (Bool-cases (leb size (room blk.end (aligned align blk.avail)))) [
        | inl e ↦ absurd (ground (arith, left, all.0.0))
        | inr e ↦ rw (e, scan-none n zero (i + 1) rest s h all.1)
      ]

module _ (pool : Pool) (size : ℕ) (align memory : Bool) where
  abbrev Higher : Option (Pointer × Pool) → Type 0
  Higher none = Unit
  Higher (some (p, pool')) = (j : ℕ) → top pool.blocks j ≤ top pool'.blocks j

  alloc_block-Higher : Higher (alloc_block pool size align memory)
  unfolding alloc_block
  alloc_block-Higher = elim (Bool-cases memory) [
    | inl e ↦ rw e (λ j. ground (
      arith,
      top-snoc pool.blocks
          (record { avail = aligned align 24 + size; end = block_size pool.blocks }) j,
      top_beyond pool.blocks j,
    ))
    | inr e ↦ rw e tt
  ]

  alloc_small-Higher : Higher (alloc_small pool size align memory)
  unfolding alloc_small
  alloc_small-Higher = elim (Option-cases (scan size align pool.current 0 pool.blocks)) [
    | inl e ↦ simp (e, alloc_small) alloc_block-Higher
    | inr ((p, blocks), e) ↦
        simp (e, alloc_small)
          (subst (Grows size align pool.blocks) e
            (scan-Grows size align pool.current 0 pool.blocks))
  ]

-- On a valid pool that gets a block from the system, `mpool_cleanup_add` of more bytes than a block
-- has hands out bytes past the end of that new block.
pub mpool_cleanup_add-past_end :
    (n : ℕ) (pool : Pool) (size : ℕ) (memory : Bool)
    → IsValid n pool
    → n * 16 < size
    → n * 16 < top (mpool_cleanup_add pool size true memory).1.blocks (length pool.blocks)
unfolding mpool_cleanup_add alloc_block
mpool_cleanup_add-past_end n pool size memory v h =
    let n₀ = length pool.blocks in
    let blk : Span = record { avail = 32 + size; end = block_size pool.blocks } in
    let grown : Pool = record pool { blocks = pool.blocks ++ blk ∷ []; current = n₀ } in
    let past : n * 16 < top grown.blocks n₀ = ground (arith, top-snoc pool.blocks blk n₀) in
    let payload : alloc_small pool size true true
        ≡ some (record { block = n₀; offset = 32 }, grown) =
      simp (scan-none size true n pool.current 0 pool.blocks v.small h v.sound, alloc_small) refl in
    let positive : ltb 0 size ≡ true = ground arith in
    elim (Option-cases (alloc_small grown 24 true memory)) [
      | inl e ↦ simp (positive, payload, e) past
      | inr ((node, pool'), e) ↦
          let higher : (j : ℕ) → top grown.blocks j ≤ top pool'.blocks j =
            subst (Higher grown 24 true memory) e (alloc_small-Higher grown 24 true memory) in
          simp (positive, payload, e) (omega (arith, past, higher n₀))
    ]
