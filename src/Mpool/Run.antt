-- ===== src/Mpool/Run.antt =====
-- Sequences of calls of `mpool_alloc` and `mpool_nalloc` of src/mpool.c: no two of them share a byte.
use myclib.Prelude.{
  ℕ, ◌*◌, ◌≡◌, ◌≢◌, refl, Bool, true, Option, none, some, ◌>>=◌, List, [], ◌∷◌, ◌++◌, All, leb,
  ◌==◌, arith, inl, inr, Bool-cases,
}
use myclib.Mpool.{
  Pointer, Address, in_block, in_heap, Large, Pool, alloc_large, at_least_one, alloc_bytes,
}
use myclib.Mpool.Alloc.{IsValid, Fresh, Gives, alloc_small-Gives}
use myclib.Mpool.Regions.{Region, Disjoint, Inside, Step, Step-append}

-- One call: of `mpool_alloc`, or of `mpool_nalloc` where `align` is false, with what `malloc` and
-- `posix_memalign` do in it.
pub record Call : Type 0 where
  pub align : Bool
  pub nbytes : ℕ
  pub heap : ℕ
  pub memory : Bool

abbrev node_regions : List Large → List Region
node_regions [] = []
node_regions (lg ∷ rest) = record { at = lg.node; size = 16 } ∷ []

-- the bytes of blocks that a call hands out: those of its result, or those of the node of a large one
abbrev pub handed : ℕ → Pool → Option (Address × Pool) → List Region × Pool
handed size pool none = ([], pool)
handed size pool (some (in_block p, pool')) = (record { at = p; size = size } ∷ [], pool')
handed size pool (some (in_heap p asked, pool')) = (node_regions pool'.large, pool')

unfoldable pub run : Pool → List Call → List Region × Pool
run pool [] = ([], pool)
run pool (c ∷ calls) =
    let (here, pool') =
      handed (at_least_one c.nbytes) pool (alloc_bytes c.align pool c.nbytes c.heap c.memory) in
    let (rest, pool'') = run pool' calls in (here ++ rest, pool'')

-- A large result is an address of `malloc`, and `malloc` was asked for these bytes.
abbrev pub Asked : ℕ → Option (Address × Pool) → Type 0
Asked size none = Unit
Asked size (some (in_block p, pool')) = Unit
Asked size (some (in_heap p asked, pool')) = (p ≢ 0) × (asked ≡ size)

-- the same of every call
abbrev pub AllAsked : Pool → List Call → Type 0
AllAsked pool [] = Unit
AllAsked pool (c ∷ calls) =
    let size = at_least_one c.nbytes in
    let result = alloc_bytes c.align pool c.nbytes c.heap c.memory in
    Asked size result × AllAsked (handed size pool result).1 calls

small-Asked :
    (size : ℕ) (result : Option (Pointer × Pool))
    → Asked size (result >>= λ (m, pool'). some (in_block m, pool'))
small-Asked size none = tt
small-Asked size (some (p, pool')) = tt

large-Asked :
    (size heap : ℕ) (result : Option (Pointer × Pool))
    → heap ≢ 0
    → Asked size (
        result >>= λ (node, pool'). some (
          in_heap heap size,
          record pool' { large = record { node = node; alloc = heap } ∷ pool'.large },
        ))
large-Asked size heap none h = tt
large-Asked size heap (some (p, pool')) h = (h, refl)

alloc_bytes-Asked :
    (pool : Pool) (c : Call)
    → Asked (at_least_one c.nbytes) (alloc_bytes c.align pool c.nbytes c.heap c.memory)
unfolding alloc_bytes alloc_large
alloc_bytes-Asked pool c =
    let size = at_least_one c.nbytes in
    elim (Bool-cases (leb size pool.max)) [
      | inl e ↦ simp e (small-Asked size _)
      | inr e ↦ elim (Bool-cases (c.heap == 0)) [
        | inl e₁ ↦ simp (e, e₁) tt
        | inr e₁ ↦ simp (e, e₁) (large-Asked size c.heap _ (ground arith))
      ]
    ]

run-AllAsked : (pool : Pool) (calls : List Call) → AllAsked pool calls
run-AllAsked pool [] = tt
run-AllAsked pool (c ∷ calls) =
    let result = alloc_bytes c.align pool c.nbytes c.heap c.memory in
    (alloc_bytes-Asked pool c, run-AllAsked (handed (at_least_one c.nbytes) pool result).1 calls)

module _ (n : ℕ) where
  Step-nil : (pool : Pool) → IsValid n pool → Step n pool [] pool
  Step-nil pool v = record {
    inside = tt;
    above = tt;
    covered = tt;
    disjoint = tt;
    grows = λ j. omega arith;
    valid = v;
  }

  Fresh-Step :
      (pool : Pool) (size : ℕ) (align : Bool) (p : Pointer) (pool' : Pool)
      → Fresh n pool size align p pool'
      → Step n pool (record { at = p; size = size } ∷ []) pool'
  Fresh-Step pool size align p pool' f = record {
    inside = ((f.header, f.within), tt);
    above = (f.above, tt);
    covered = (f.covered, tt);
    disjoint = (tt, tt);
    grows = f.grows;
    valid = f.valid;
  }

  -- what `handed` makes of a result
  abbrev Steps : ℕ → Pool → Option (Address × Pool) → Type 0
  Steps size pool result = let (rs, pool') = handed size pool result in Step n pool rs pool'

  small-Steps :
      (pool : Pool) (size : ℕ) (align memory : Bool) (result : Option (Pointer × Pool))
      → IsValid n pool
      → Gives n pool size align memory result
      → Steps size pool (result >>= λ (m, pool'). some (in_block m, pool'))
  small-Steps pool size align memory none v g = Step-nil pool v
  small-Steps pool size align memory (some (p, pool')) v g = Fresh-Step pool size align p pool' g

  large-Steps :
      (pool : Pool) (size heap : ℕ) (memory : Bool) (result : Option (Pointer × Pool))
      → IsValid n pool
      → Gives n pool 16 true memory result
      → Steps size pool (
          result >>= λ (node, pool'). some (
            in_heap heap size,
            record pool' { large = record { node = node; alloc = heap } ∷ pool'.large },
          ))
  large-Steps pool size heap memory none v g = Step-nil pool v
  large-Steps pool size heap memory (some (p, pool')) v g = record {
    inside = ((g.header, g.within), tt);
    above = (g.above, tt);
    covered = (g.covered, tt);
    disjoint = (tt, tt);
    grows = g.grows;
    valid = record {
      small = g.valid.small;
      psize = g.valid.psize;
      sound = g.valid.sound;
      chosen = g.valid.chosen;
      limit = g.valid.limit;
      roomy = g.valid.roomy;
    };
  }

  alloc_bytes-Steps :
      (pool : Pool) (c : Call)
      → IsValid n pool
      → Steps (at_least_one c.nbytes) pool (alloc_bytes c.align pool c.nbytes c.heap c.memory)
  unfolding alloc_bytes alloc_large
  alloc_bytes-Steps pool c v =
      let size = at_least_one c.nbytes in
      elim (Bool-cases (leb size pool.max)) [
        | inl e ↦ simp e (
            small-Steps pool size c.align c.memory _ v
              (alloc_small-Gives n pool size c.align c.memory v (ground (arith, v.limit))))
        | inr e ↦ elim (Bool-cases (c.heap == 0)) [
          | inl e₁ ↦ simp (e, e₁) (Step-nil pool v)
          | inr e₁ ↦
              simp (e, e₁)
                (large-Steps pool size c.heap c.memory _ v
                  (alloc_small-Gives n pool 16 true c.memory v (omega (arith, v.roomy))))
        ]
      ]

  run-Step :
      (pool : Pool) (calls : List Call)
      → IsValid n pool
      → Step n pool (run pool calls).0 (run pool calls).1
  unfolding run
  run-Step pool [] v = Step-nil pool v
  run-Step pool (c ∷ calls) v =
      let (here, pool') =
        handed (at_least_one c.nbytes) pool (alloc_bytes c.align pool c.nbytes c.heap c.memory) in
      let one = alloc_bytes-Steps pool c v in
      Step-append n pool pool' (run pool' calls).1 here (run pool' calls).0 one
        (run-Step pool' calls one.valid)

  -- Whatever calls of `mpool_alloc` and `mpool_nalloc` are made on a valid pool, with any sizes and
  -- wherever memory runs out: the bytes of blocks that they hand out, and those that hold the nodes of
  -- large allocations, lie in their blocks behind the headers, no two of them share a byte, and the
  -- pool stays valid. A larger result is an address that `malloc` returned, not `NULL`, for as many bytes
  -- as are asked for; where these lie is left to `malloc`.
  pub run-Disjoint :
      (pool : Pool) (calls : List Call)
      → IsValid n pool
      → let (regions, pool') = run pool calls in
        Disjoint regions × All (Inside (n * 16)) regions × IsValid n pool' × AllAsked pool calls
  run-Disjoint pool calls v =
      let s = run-Step pool calls v in (s.disjoint, s.inside, s.valid, run-AllAsked pool calls)
