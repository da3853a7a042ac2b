-- ===== src/Mpool/Blocks.antt =====
-- The blocks of src/mpool.c: how far each is used, and what the search for room finds.
use myclib.Prelude.{
  ℕ, zero, suc, ◌+◌, ◌-◌, ◌*◌, ◌^◌, ◌≤◌, ◌<◌, ◌≡◌, refl, sym, Bool, true, false, Option, none, some,
  ◌>>=◌, List, [], ◌∷◌, ◌++◌, All, leb, ◌==◌, if◌then◌else◌, length, arith, inl, inr, Bool-cases,
}
use myclib.Mpool.{Span, Pointer, align_ptr, aligned, room, scan, block_size}

-- how far block number `k` is used; 0 where there is no such block
abbrev pub top : List Span → ℕ → ℕ
top [] k = 0
top (blk ∷ rest) zero = blk.avail
top (blk ∷ rest) (suc k) = top rest k

-- blocks of `size` bytes that are used no further than to their ends; `size` is a multiple of 16
abbrev pub Sound : ℕ → Span → Type 0
Sound size blk = (blk.end ≡ size) × (24 ≤ blk.avail) × (blk.avail ≤ size)

pub align-le : (p n : ℕ) → p ≤ n * 16 → align_ptr p ≤ n * 16
align-le p n h = grind arith

pub align-ge : (p : ℕ) → p ≤ align_ptr p
align-ge p = omega arith

pub aligned-bounds :
    (align : Bool) (p n : ℕ) → p ≤ n * 16 → (p ≤ aligned align p) × (aligned align p ≤ n * 16)
aligned-bounds true p n h = (align-ge p, align-le p n h)
aligned-bounds false p n h = (omega arith, h)

pub room-le : (end m : ℕ) → m ≤ end → end < 2 ^ 64 → room end m ≡ end - m
room-le end m h lt = omega arith

room-fits :
    (end m size : ℕ) → m ≤ end → end < 2 ^ 64 → leb size (room end m) ≡ true → m + size ≤ end
room-fits end m size h lt e = ground (arith, room-le end m h lt)

-- what a search that starts at block number `i` has found, in blocks of `n * 16` bytes
pub record Found (n i size : ℕ) (align : Bool) (blks : List Span) (p : Pointer) (blks' : List Span)
    : Type 0 where
  pub k : ℕ
  pub block : p.block ≡ i + k
  pub within : k < length blks
  pub offset : p.offset ≡ aligned align (top blks k)
  pub fits : p.offset + size ≤ n * 16
  pub used : (j : ℕ) → top blks' j ≡ (if j == k then p.offset + size else top blks j)
  pub count : length blks' ≡ length blks
  pub first : block_size blks' ≡ block_size blks
  pub sound : All (Sound (n * 16)) blks'

module _ (n : ℕ) (small : n * 16 < 2 ^ 64) (size : ℕ) (align : Bool) where
  abbrev pub Finds : ℕ → List Span → Option (Pointer × List Span) → Type 0
  Finds i blks none = Unit
  Finds i blks (some (p, blks')) = Found n i size align blks p blks'

  later_top :
      (i : ℕ) (blk : Span) (blks : List Span) (p : Pointer) (rest : List Span)
      → (f : Found n (i + 1) size align blks p rest) (j : ℕ)
      → top (blk ∷ rest) j ≡ (if j == suc f.k then p.offset + size else top (blk ∷ blks) j)
  later_top i blk blks p rest f zero = ground arith
  later_top i blk blks p rest f (suc j) = ground (arith, f.used j)

  found_later :
      (i : ℕ) (blk : Span) (blks : List Span) (found : Option (Pointer × List Span))
      → Sound (n * 16) blk
      → Finds (i + 1) blks found
      → Finds i (blk ∷ blks) (found >>= λ (p, rest). some (p, blk ∷ rest))
  found_later i blk blks none s f = tt
  found_later i blk blks (some (p, rest)) s f =
      let later_used : (j : ℕ)
          → top (blk ∷ rest) j ≡ (if j == suc f.k then p.offset + size else top (blk ∷ blks) j) =
        λ j. later_top i blk blks p rest f j in
      record {
        k = suc f.k;
        block = omega (arith, f.block);
        within = omega (arith, f.within);
        offset = f.offset;
        fits = f.fits;
        used = later_used;
        count = omega (arith, f.count);
        first = refl;
        sound = (s, f.sound);
      }

  found_here :
      (i : ℕ) (blk : Span) (blks : List Span)
      → All (Sound (n * 16)) (blk ∷ blks)
      → aligned align blk.avail + size ≤ n * 16
      → Finds i (blk ∷ blks) (
          some (
            record { block = i; offset = aligned align blk.avail },
            record blk { avail = aligned align blk.avail + size } ∷ blks,
          ))
  found_here i blk blks all h =
      let bounds = aligned-bounds align blk.avail n all.0.2 in
      record {
        k = 0;
        block = omega arith;
        within = omega arith;
        offset = refl;
        fits = h;
        used = elim [ zero ↦ ground arith | suc j ↦ ground arith ];
        count = refl;
        first = refl;
        sound = ((all.0.0, omega (arith, bounds.0, all.0.1), h), all.1);
      }

  pub scan-Finds :
      (skip i : ℕ) (blks : List Span)
      → All (Sound (n * 16)) blks
      → Finds i blks (scan size align skip i blks)
  unfolding scan
  scan-Finds skip i [] all = tt
  scan-Finds (suc skip) i (blk ∷ rest) all =
      found_later i blk rest _ all.0 (scan-Finds skip (i + 1) rest all.1)
  scan-Finds zero i (blk ∷ rest) all =
      let m = aligned align blk.avail in
      let bounds = aligned-bounds align blk.avail n all.0.2 in
      let later = found_later i blk rest _ all.0 (scan-Finds zero (i + 1) rest all.1) in
      elim (Bool-cases (leb size (room blk.end m))) [
        | inl e ↦ rw e (
            found_here i blk rest all (
              rw (sym all.0.0) (
                room-fits blk.end m size (omega (arith, bounds.1, all.0.0)) (omega (arith, all.0.0))
                  e)))
        | inr e ↦ rw e later
      ]

-- the facts on blocks that an allocation needs
pub top-Sound :
    (size : ℕ) (blks : List Span) (k : ℕ)
    → All (Sound size) blks
    → k < length blks
    → (24 ≤ top blks k) × (top blks k ≤ size)
top-Sound size [] k all h = absurd (omega arith)
top-Sound size (blk ∷ rest) zero all h = (all.0.1, all.0.2)
top-Sound size (blk ∷ rest) (suc k) all h = top-Sound size rest k all.1 (omega arith)

pub top_beyond : (blks : List Span) (k : ℕ) → length blks ≤ k → top blks k ≡ 0
top_beyond [] k h = refl
top_beyond (blk ∷ rest) zero h = absurd (omega arith)
top_beyond (blk ∷ rest) (suc k) h = top_beyond rest k (omega arith)

pub top-snoc :
    (blks : List Span) (blk : Span) (j : ℕ)
    → top (blks ++ blk ∷ []) j ≡ (if j == length blks then blk.avail else top blks j)
top-snoc [] blk zero = ground arith
top-snoc [] blk (suc j) = ground arith
top-snoc (b ∷ rest) blk zero = ground arith
top-snoc (b ∷ rest) blk (suc j) = ground (arith, top-snoc rest blk j)

pub Sound-snoc :
    (size : ℕ) (blks : List Span) (blk : Span)
    → All (Sound size) blks
    → Sound size blk
    → All (Sound size) (blks ++ blk ∷ [])
Sound-snoc size [] blk all s = (s, tt)
Sound-snoc size (b ∷ rest) blk all s = (all.0, Sound-snoc size rest blk all.1 s)

pub block_size-snoc :
    (blks : List Span) (blk : Span)
    → 0 < length blks
    → block_size (blks ++ blk ∷ []) ≡ block_size blks
block_size-snoc [] blk h = absurd (omega arith)
block_size-snoc (b ∷ rest) blk h = refl
