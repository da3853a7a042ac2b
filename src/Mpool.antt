-- ===== src/Mpool.antt =====
-- src/mpool.c: the memory pool, blocks of 16 KiB that are handed out from the front.
-- An address in a block is the number of the block, in the order of the list, and the offset from its
-- start; a block starts at a multiple of 16, so that an offset and its address are aligned alike. An
-- address that `malloc` returned is a number, 0 for `NULL`. Whether a call of `posix_memalign` has
-- memory to give is an argument. A 64-bit target: `mpool_block_t` has 24 bytes, `mpool_large_t` 16 and
-- `mpool_free_func_t` 24. The spinlock is compiled out (`USE_SPINLOCK` is 0).
pub mod Blocks
pub mod Alloc
pub mod Regions
pub mod Run
pub mod Free
pub mod Overflow
mod Examples
use myclib.Prelude.{
  ℕ, zero, suc, ◌+◌, ◌-◌, ◌*◌, ◌/◌, ◌%◌, ◌^◌, Bool, true, false, Option, none, some, ◌>>=◌, List,
  [], ◌∷◌, ◌++◌, map, ltb, leb, ◌==◌, if◌then◌else◌, length,
}

-- `mpool_block_t`
pub record Span : Type 0 where
  pub avail : ℕ
  pub end : ℕ

pub record Pointer : Type 0 where
  pub block : ℕ
  pub offset : ℕ

-- What an allocation returns: a place in a block, or an address of `malloc`, with the number of bytes
-- that `malloc` was asked for.
pub data Address : Type 0 where
  in_block : Pointer → Address
  in_heap : (p size : ℕ) → Address

-- `mpool_large_t` at its address
pub record Large : Type 0 where
  pub node : Pointer
  pub alloc : ℕ

-- `mpool_free_func_t` at its address; a `free_func` of 0 is not set.
pub record Cleanup : Type 0 where
  pub node : Pointer
  pub free_func : ℕ
  pub payload : Option Pointer

pub record Pool : Type 0 where
  pub blocks : List Span
  pub current : ℕ
  pub max : ℕ
  pub large : List Large
  pub free_list : List Cleanup

abbrev pub block_header : ℕ
block_header = 24

abbrev pub max_alloc_from_pool : ℕ
max_alloc_from_pool = 4095

abbrev pub default_block_size : ℕ
default_block_size = 16 * 1024

-- `MM_ALIGN_PTR(p, 16)`
abbrev pub align_ptr : ℕ → ℕ
align_ptr p = (p + 15) / 16 * 16

abbrev pub aligned : Bool → ℕ → ℕ
aligned align p = if align then align_ptr p else p

-- `(size_t)(end - m)`
abbrev pub room : ℕ → ℕ → ℕ
room end m = (end + 2 ^ 64 - m) % 2 ^ 64

abbrev pub fresh_span : ℕ → Span
fresh_span end = record { avail = align_ptr block_header; end = end }

unfoldable pub mpool_new : Bool → Bool → Option Pool
mpool_new pool_memory block_memory =
    let remaining = default_block_size - block_header in
    if pool_memory
    then if block_memory
      then some (record {
        blocks = fresh_span default_block_size ∷ [];
        current = 0;
        max = if ltb remaining max_alloc_from_pool then remaining else max_alloc_from_pool;
        large = [];
        free_list = [];
      })
      else none
    else none

-- The loop of `alloc_small` over the blocks from number `i` on, the first `skip` of which stand
-- before `current`.
pub scan : ℕ → Bool → ℕ → ℕ → List Span → Option (Pointer × List Span)
scan size align skip i [] = none
scan size align (suc skip) i (blk ∷ rest) = do
  (p, rest') ← scan size align skip (i + 1) rest
  some (p, blk ∷ rest')
scan size align zero i (blk ∷ rest) =
    let later = scan size align zero (i + 1) rest in
    let m = aligned align blk.avail in
    if leb size (room blk.end m)
    then some (record { block = i; offset = m }, record blk { avail = m + size } ∷ rest)
    else (do (p, rest') ← later; some (p, blk ∷ rest'))

-- `blocks->end - (char *)blocks`; a pool has a first block.
abbrev pub block_size : List Span → ℕ
block_size [] = 0
block_size (blk ∷ rest) = blk.end

unfoldable pub alloc_block : Pool → ℕ → Bool → Bool → Option (Pointer × Pool)
alloc_block pool size align memory =
    let psize = block_size pool.blocks in
    let m = aligned align block_header in
    let n = length pool.blocks in
    if memory
    then some (
      record { block = n; offset = m },
      record pool {
        blocks = pool.blocks ++ record { avail = m + size; end = psize } ∷ [];
        current = n;
      },
    )
    else none

unfoldable pub alloc_small : Pool → ℕ → Bool → Bool → Option (Pointer × Pool)
unfolding scan alloc_block
alloc_small pool size align memory = elim (scan size align pool.current 0 pool.blocks) [
  | some (p, blocks) ↦ some (p, record pool { blocks = blocks })
  | none ↦ alloc_block pool size align memory
]

-- `p` is what `malloc(size)` returns.
unfoldable pub alloc_large : Pool → ℕ → ℕ → Bool → Option (Address × Pool)
unfolding alloc_small
alloc_large pool size p memory = if p == 0 then none else do
  (node, pool') ← alloc_small pool 16 true memory
  some (in_heap p size, record pool' { large = record { node = node; alloc = p } ∷ pool'.large })

-- the numbers of the blocks of a list that starts at number `i`
abbrev pub numbers : ℕ → List Span → List ℕ
numbers i [] = []
numbers i (blk ∷ rest) = i ∷ numbers (i + 1) rest

abbrev pub at_least_one : ℕ → ℕ
at_least_one nbytes = if nbytes == 0 then 1 else nbytes

-- `mpool_alloc`, and `mpool_nalloc` where `align` is false
unfoldable pub alloc_bytes : Bool → Pool → ℕ → ℕ → Bool → Option (Address × Pool)
unfolding alloc_small alloc_large
alloc_bytes align pool nbytes p memory =
    let size = at_least_one nbytes in
    if leb size pool.max
    then (do (m, pool') ← alloc_small pool size align memory; some (in_block m, pool'))
    else alloc_large pool size p memory

unfoldable pub mpool_alloc : Pool → ℕ → ℕ → Bool → Option (Address × Pool)
unfolding alloc_bytes
mpool_alloc = alloc_bytes true

unfoldable pub mpool_nalloc : Pool → ℕ → ℕ → Bool → Option (Address × Pool)
unfolding alloc_bytes
mpool_nalloc = alloc_bytes false

-- The list without the first node of `p`, if there is one.
pub unlink_large : ℕ → List Large → Option (List Large)
unlink_large p [] = none
unlink_large p (lg ∷ rest) =
    let later = unlink_large p rest in
    if p == lg.alloc then some rest else (do rest' ← later; some (lg ∷ rest'))

-- With the addresses that are passed to `free`.
unfoldable pub mpool_pfree : Pool → ℕ → Bool × List ℕ × Pool
unfolding unlink_large
mpool_pfree pool p = elim (unlink_large p pool.large) [
  | some large ↦ (true, p ∷ [], record pool { large = large })
  | none ↦ (false, [], pool)
]

-- Memory for the two allocations of the call; on a failure of the second one the pool keeps the first.
unfoldable pub mpool_cleanup_add : Pool → ℕ → Bool → Bool → Option Cleanup × Pool
unfolding alloc_small
mpool_cleanup_add pool size memory memory' =
    let add_node : Option Pointer → Pool → Option Cleanup × Pool = λ payload pool₁.
      elim (alloc_small pool₁ 24 true memory') [
        | none ↦ (none, pool₁)
        | some (node, pool₂) ↦
            let c : Cleanup = record { node = node; free_func = 0; payload = payload } in
            (some c, record pool₂ { free_list = c ∷ pool₂.free_list })
      ] in
    if ltb 0 size
    then (elim (alloc_small pool size true memory) [
      | none ↦ (none, pool)
      | some (payload, pool₁) ↦ add_node (some payload) pool₁
    ])
    else add_node none pool

-- The callbacks that run, each with its argument.
pub cleanups : List Cleanup → List (ℕ × Option Pointer)
cleanups [] = []
cleanups (c ∷ rest) =
    let later = cleanups rest in
    if c.free_func == 0 then later else (c.free_func, c.payload) ∷ later

unfoldable pub mpool_run_cleanup : Pool → List (ℕ × Option Pointer) × Pool
unfolding cleanups
mpool_run_cleanup pool = (cleanups pool.free_list, record pool { free_list = [] })

-- With the callbacks that run and the addresses that are passed to `free`. `alloc` is set to `NULL`
-- only in nodes that are dropped.
unfoldable pub mpool_reset : Pool → List (ℕ × Option Pointer) × List ℕ × Pool
unfolding mpool_run_cleanup
mpool_reset pool =
    let (ran, pool₁) = mpool_run_cleanup pool in
    (
      ran,
      map (λ lg. lg.alloc) pool₁.large,
      record pool₁ {
        blocks = map (λ blk. fresh_span blk.end) pool₁.blocks;
        current = 0;
        large = [];
      },
    )

-- The callbacks that run, and what is passed to `free`: addresses of `malloc`, then blocks.
unfoldable pub mpool_destroy : Pool → List (ℕ × Option Pointer) × List ℕ × List ℕ
unfolding mpool_run_cleanup
mpool_destroy pool =
    let (ran, pool₁) = mpool_run_cleanup pool in
    (ran, map (λ lg. lg.alloc) pool₁.large, numbers 0 pool₁.blocks)
