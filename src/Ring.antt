-- ===== src/Ring.antt =====
-- include/ring.h: a ring of elements that doubles its storage when it is full.
-- `*pr` or `r` that a call changes is returned. A cell of the block `elts` is one element, so the
-- byte offset `i * size`, an `unsigned int` product, names the cell `offset size i`.
pub mod Bounds
pub mod Refine
mod Examples
pub mod Run
use myclib.Prelude.{
  ℕ, zero, suc, ◌+◌, ◌-◌, ◌*◌, ◌/◌, ◌^◌, Bool, true, false, Option, none, some, List, [], ◌∷◌, ltb,
  leb, ◌==◌, if◌then◌else◌, ◌>>=◌, Block, malloc, load, store, memcpy, u32,
}

pub record Ring (A : Type 0) : Type 0 where
  pub cap : ℕ
  pub idx_begin : ℕ
  pub idx_end : ℕ
  pub size : ℕ
  pub nelts : ℕ
  pub elts : Block A

pub offset : ℕ → ℕ → ℕ
offset size i = u32 (i * size) / size

module _ {A : Type 0} where
  unfoldable pub ring_new : ℕ → ℕ → Ring A
  ring_new cap size = record {
    cap = cap;
    idx_begin = 0;
    idx_end = 0;
    size = size;
    nelts = 0;
    elts = malloc (offset size cap);
  }

  pub ring_expand : Ring A → Option (Ring A)
  ring_expand r =
      let bytes = offset r.size in
      let fresh : Block A = malloc (bytes (u32 (r.cap * 2))) in
      if ltb r.idx_begin r.idx_end
      then (do
        elts ←
            memcpy fresh (bytes r.idx_begin) r.elts (bytes r.idx_begin)
              (bytes (r.idx_end - r.idx_begin))
        some (record r { cap = u32 (r.cap * 2); elts = elts }))
      else (do
        upper ←
            memcpy fresh (bytes r.idx_begin) r.elts (bytes r.idx_begin)
              (bytes (r.cap - r.idx_begin))
        elts ← memcpy upper (bytes r.cap) r.elts 0 (bytes r.idx_end)
        some (record r { cap = u32 (r.cap * 2); idx_end = u32 (r.cap + r.idx_end); elts = elts }))

  -- `if (r->nelts == r->cap) ring_expand(&r);`
  pub make_room : Ring A → Option (Ring A)
  make_room r = if r.nelts == r.cap then ring_expand r else some r

  -- `++r->idx_end`, its wrap at the capacity, and `++r->nelts`
  pub advance : Ring A → Ring A
  advance r =
      let idx_end = u32 (r.idx_end + 1) in
      record r { idx_end = if leb r.cap idx_end then 0 else idx_end; nelts = u32 (r.nelts + 1) }

  -- The address that `ring_push` returns is the index of a cell.
  unfoldable pub ring_push : Ring A → Option (ℕ × Ring A)
  unfolding make_room advance
  ring_push r = do r ← make_room r; some (offset r.size r.idx_end, advance r)

  unfoldable pub ring_push_h : Ring A → A → Option (Ring A)
  unfolding make_room advance
  ring_push_h r v = do
    r ← make_room r
    elts ← store r.elts (offset r.size r.idx_end) v
    some (advance (record r { elts = elts }))

  unfoldable pub ring_tighten : Ring A → ℕ → Ring A
  ring_tighten r step =
      let nelts = if ltb r.nelts step then 0 else r.nelts - step in
      let moved = u32 (r.idx_begin + step) in
      let around = if ltb (u32 (r.cap + 2 ^ 32 - 1)) moved then moved - r.cap else moved in
      record r { idx_begin = if nelts == 0 then r.idx_end else around; nelts = nelts }

  -- The elements that the body of `ring_for_each_idx` sees, with `n` rounds left at `pos`.
  pub walk : Ring A → ℕ → ℕ → Option (List A)
  walk r zero pos = some []
  walk r (suc n) pos =
      let rest = walk r n (if pos + 1 == r.cap then 0 else pos + 1) in
      load r.elts pos >>= λ x. rest >>= λ xs. some (x ∷ xs)

  unfoldable pub ring_for_each_idx : Ring A → Option (List A)
  unfolding walk
  ring_for_each_idx r = walk r r.nelts r.idx_begin
