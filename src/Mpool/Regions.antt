-- ===== src/Mpool/Regions.antt =====
-- Bytes that src/mpool.c hands out: regions of blocks, and how a step of a run extends them.
use myclib.Prelude.{
  ℕ, ◌+◌, ◌*◌, ◌≤◌, ◌≡◌, ◌≢◌, ap, List, [], ◌∷◌, ◌++◌, All, ◌==◌, arith, inl, inr, Bool-cases, ◌⊎◌,
}
use myclib.Mpool.{Pointer, Pool}
use myclib.Mpool.Blocks.{top}
use myclib.Mpool.Alloc.{IsValid}

-- bytes of a block
pub record Region : Type 0 where
  pub at : Pointer
  pub size : ℕ

-- two regions share no byte
abbrev pub Apart : Region → Region → Type 0
Apart r s =
    (r.at.block ≢ s.at.block)
    ⊎ (r.at.offset + r.size ≤ s.at.offset)
    ⊎ (s.at.offset + s.size ≤ r.at.offset)

abbrev pub Disjoint : List Region → Type 0
Disjoint [] = Unit
Disjoint (r ∷ rs) = All (Apart r) rs × Disjoint rs

-- a region lies in a block of `size` bytes, behind its header
abbrev pub Inside : ℕ → Region → Type 0
Inside size r = (24 ≤ r.at.offset) × (r.at.offset + r.size ≤ size)

abbrev pub Above : Pool → Region → Type 0
Above pool r = top pool.blocks r.at.block ≤ r.at.offset

abbrev pub Covered : Pool → Region → Type 0
Covered pool r = r.at.offset + r.size ≤ top pool.blocks r.at.block

pub record Step (n : ℕ) (pool : Pool) (rs : List Region) (pool' : Pool) : Type 0 where
  pub inside : All (Inside (n * 16)) rs
  pub above : All (Above pool) rs
  pub covered : All (Covered pool') rs
  pub disjoint : Disjoint rs
  pub grows : (j : ℕ) → top pool.blocks j ≤ top pool'.blocks j
  pub valid : IsValid n pool'

module _ (P : Region → Type 0) where
  All-append : (rs ss : List Region) → All P rs → All P ss → All P (rs ++ ss)
  All-append [] ss h k = k
  All-append (r ∷ rs) ss h k = (h.0, All-append rs ss h.1 k)

  All-mono :
      (Q : Region → Type 0) (rs : List Region) → ((r : Region) → P r → Q r) → All P rs → All Q rs
  All-mono Q [] f h = tt
  All-mono Q (r ∷ rs) f h = (f r h.0, All-mono Q rs f h.1)

Apart-after : (pool : Pool) (r s : Region) → Covered pool r → Above pool s → Apart r s
Apart-after pool r s c a = elim (Bool-cases (r.at.block == s.at.block)) [
  | inl e ↦
      let same : r.at.block ≡ s.at.block = ground arith in
      inr (inl (omega (arith, c, a, ap (top pool.blocks) same)))
  | inr e ↦ inl (ground arith)
]

Disjoint-append :
    (pool : Pool) (rs ss : List Region)
    → All (Covered pool) rs
    → All (Above pool) ss
    → Disjoint rs
    → Disjoint ss
    → Disjoint (rs ++ ss)
Disjoint-append pool [] ss c a d e = e
Disjoint-append pool (r ∷ rs) ss c a d e = (
  All-append (Apart r) rs ss d.0
      (All-mono (Above pool) (Apart r) ss (λ s. Apart-after pool r s c.0) a),
  Disjoint-append pool rs ss c.1 a d.1 e,
)

pub Step-append :
    (n : ℕ) (p₀ p₁ p₂ : Pool) (rs ss : List Region)
    → Step n p₀ rs p₁
    → Step n p₁ ss p₂
    → Step n p₀ (rs ++ ss) p₂
Step-append n p₀ p₁ p₂ rs ss a b =
    let lower : (s : Region) → Above p₁ s → Above p₀ s =
      λ s h. omega (arith, a.grows s.at.block, h) in
    let higher : (r : Region) → Covered p₁ r → Covered p₂ r =
      λ r h. omega (arith, b.grows r.at.block, h) in
    record {
      inside = All-append (Inside (n * 16)) rs ss a.inside b.inside;
      above = All-append (Above p₀) rs ss a.above (All-mono (Above p₁) (Above p₀) ss lower b.above);
      covered =
          All-append (Covered p₂) rs ss (All-mono (Covered p₁) (Covered p₂) rs higher a.covered)
            b.covered;
      disjoint = Disjoint-append p₁ rs ss a.covered b.above a.disjoint b.disjoint;
      grows = λ j. omega (arith, a.grows j, b.grows j);
      valid = b.valid;
    }
