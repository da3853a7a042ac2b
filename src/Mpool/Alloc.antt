-- ===== src/Mpool/Alloc.antt =====
-- One allocation of src/mpool.c from the blocks of a pool.
use myclib.Prelude.{
  ℕ, ◌+◌, ◌*◌, ◌%◌, ◌^◌, ◌≤◌, ◌<◌, ◌≡◌, refl, ◌∙◌, Bool, true, false, Option, none, some, List, [],
  ◌∷◌, All, length, length-append, arith, Option-cases, inl, inr, Bool-cases,
}
use mathlib.Core.Path.{subst}
use myclib.Mpool.{Span, Pointer, Pool, aligned, scan, block_size, alloc_block, alloc_small}
use myclib.Mpool.Blocks.{
  top, Sound, Found, scan-Finds, Finds, top-Sound, top_beyond, top-snoc, Sound-snoc,
  block_size-snoc, aligned-bounds,
}

-- a pool whose blocks have `n * 16` bytes
pub record IsValid (n : ℕ) (pool : Pool) : Type 0 where
  pub small : n * 16 < 2 ^ 64
  pub psize : block_size pool.blocks ≡ n * 16
  pub sound : All (Sound (n * 16)) pool.blocks
  pub chosen : pool.current < length pool.blocks
  pub limit : pool.max + 32 ≤ n * 16
  pub roomy : 64 ≤ n * 16

-- The `size` bytes at `p` are handed out: they lie in a block behind its header and behind all that
-- was handed out of it before, and count as used from then on.
pub record Fresh (n : ℕ) (pool : Pool) (size : ℕ) (align : Bool) (p : Pointer) (pool' : Pool)
    : Type 0 where
  pub header : 24 ≤ p.offset
  pub above : top pool.blocks p.block ≤ p.offset
  pub within : p.offset + size ≤ n * 16
  pub covered : p.offset + size ≤ top pool'.blocks p.block
  pub alignment : align ≡ true → p.offset % 16 ≡ 0
  pub grows : (j : ℕ) → top pool.blocks j ≤ top pool'.blocks j
  pub max : pool'.max ≡ pool.max
  pub large : pool'.large ≡ pool.large
  pub valid : IsValid n pool'

module _ (n : ℕ) (pool : Pool) (size : ℕ) (align memory : Bool) where
  -- An allocation gives fresh bytes; it fails only where there is no memory.
  abbrev pub Gives : Option (Pointer × Pool) → Type 0
  Gives none = memory ≡ false
  Gives (some (p, pool')) = Fresh n pool size align p pool'

  aligned-mod : (m : ℕ) → align ≡ true → aligned align m % 16 ≡ 0
  aligned-mod m e = rw e (grind arith)

  Fresh-scan :
      (p : Pointer) (blocks : List Span)
      → IsValid n pool
      → Found n 0 size align pool.blocks p blocks
      → Fresh n pool size align p (record pool { blocks = blocks })
  Fresh-scan p blocks v f =
      let k : p.block ≡ f.k = omega (arith, f.block) in
      let sound = top-Sound (n * 16) pool.blocks f.k v.sound f.within in
      let bounds = aligned-bounds align (top pool.blocks f.k) n sound.1 in
      record {
        header = omega (arith, f.offset, bounds.0, sound.0);
        above = rw k (omega (arith, f.offset, bounds.0));
        within = f.fits;
        covered = ground (arith, f.used p.block, k);
        alignment = λ e. rw f.offset (aligned-mod _ e);
        grows = λ j. ground (arith, f.used j, f.offset, bounds.0);
        max = refl;
        large = refl;
        valid = record {
          small = v.small;
          psize = f.first ∙ v.psize;
          sound = f.sound;
          chosen = omega (arith, f.count, v.chosen);
          limit = v.limit;
          roomy = v.roomy;
        };
      }

  alloc_block-Gives :
      IsValid n pool → size + 32 ≤ n * 16 → Gives (alloc_block pool size align memory)
  unfolding alloc_block
  alloc_block-Gives v h = elim (Bool-cases memory) [
    | inl e ↦ rw e (
        let blk : Span = record { avail = aligned align 24 + size; end = block_size pool.blocks } in
        let low : (24 ≤ aligned align 24) × (aligned align 24 ≤ 32) =
          aligned-bounds align 24 2 (omega arith) in
        let tops = top-snoc pool.blocks blk in
        record {
          header = low.0;
          above = omega (arith, top_beyond pool.blocks (length pool.blocks) (omega arith));
          within = omega (arith, low.1, h);
          covered = ground (arith, tops (length pool.blocks));
          alignment = aligned-mod 24;
          grows = λ j. ground (arith, tops j, top_beyond pool.blocks j);
          max = refl;
          large = refl;
          valid = record {
            small = v.small;
            psize = block_size-snoc pool.blocks blk (omega (arith, v.chosen)) ∙ v.psize;
            sound =
                Sound-snoc (n * 16) pool.blocks blk v.sound
                  (v.psize, omega (arith, low.0), omega (arith, low.1, h));
            chosen = omega (arith, length-append pool.blocks (blk ∷ []));
            limit = v.limit;
            roomy = v.roomy;
          };
        })
    | inr e ↦ rw e refl
  ]

  -- In a valid pool `alloc_small` of at most `n * 16 - 32` bytes returns bytes of a block that no
  -- allocation before has, aligned if asked to, and fails only if it needs a block and gets none.
  pub alloc_small-Gives :
      IsValid n pool → size + 32 ≤ n * 16 → Gives (alloc_small pool size align memory)
  unfolding alloc_small
  alloc_small-Gives v h =
      let found = scan-Finds n v.small size align pool.current 0 pool.blocks v.sound in
      elim (Option-cases (scan size align pool.current 0 pool.blocks)) [
        | inl e ↦ simp (e, alloc_small) (alloc_block-Gives v h)
        | inr ((p, blocks), e) ↦
            simp (e, alloc_small)
              (Fresh-scan p blocks v (subst (Finds n v.small size align 0 pool.blocks) e found))
      ]
