-- ===== src/Arr.antt =====
-- src/arr.c and include/arr.h: an array that doubles its storage when it is full.
-- A cell of the block `elts` is one element; a pointer to an element is its index. Whether a call of
-- `malloc` succeeds is an argument, `granted`. `*a` after a call is returned.
pub mod Contents
pub mod Push
pub mod Delete
mod Examples
use myclib.Prelude.{
  ℕ, zero, suc, ◌+◌, ◌-◌, ◌*◌, ◌/◌, Bool, true, false, Option, none, some, List, [], ◌∷◌, ltb, ◌==◌,
  if◌then◌else◌, ◌>>=◌, check, Block, malloc, load, memcpy, u32,
}

pub record Arr (A : Type 0) : Type 0 where
  pub elts : Block A
  pub nelts : ℕ
  pub size : ℕ
  pub nalloc : ℕ

-- the number of elements in as many bytes as the 32-bit product
pub cells : ℕ → ℕ → ℕ
cells n size = u32 (n * size) / size

module _ {A : Type 0} where
  -- `arr_new`; `arr_init` fills in the same fields of a caller's array.
  unfoldable pub arr_new : ℕ → ℕ → Arr A
  arr_new n size = record { elts = malloc (cells n size); nelts = 0; size = size; nalloc = n }

  -- `none` is the return of -1.
  unfoldable pub arr_init : Bool → ℕ → ℕ → Option (Arr A)
  arr_init granted n size = if granted then some (arr_new n size) else none

  pub grow : Arr A → Option (Arr A)
  grow a = do
    let bytes = u32 (a.size * a.nalloc)
    elts ← memcpy (malloc (u32 (2 * bytes) / a.size)) 0 a.elts 0 (bytes / a.size)
    some (record a { elts = elts; nalloc = u32 (a.nalloc * 2) })

  pub take_slot : Arr A → ℕ × Arr A
  take_slot a = (cells a.nelts a.size, record a { nelts = u32 (a.nelts + 1) })

  -- The inner option is the pointer that is returned, `none` for `NULL`.
  unfoldable pub arr_push : Bool → Arr A → Option (Option ℕ × Arr A)
  unfolding grow take_slot
  arr_push granted a =
      if a.nelts == a.nalloc
      then (if granted
          then (do a' ← grow a; let (p, a'') = take_slot a' in some (some p, a''))
          else some (none, a))
      else (let (p, a') = take_slot a in some (some p, a'))

  unfoldable pub arr_pop : Arr A → Option (ℕ × Arr A)
  arr_pop a =
      check (ltb 0 a.nelts) (some (cells (a.nelts - 1) a.size, record a { nelts = a.nelts - 1 }))

  unfoldable pub arr_clear : Arr A → Arr A
  arr_clear a = record a { nelts = 0 }

  -- `same x` is `cmp(p, val) == 0` at an element `x`. The loop of `arr_del` has `n` elements left,
  -- the next one at `p`.
  pub del_loop : (A → Bool) → Arr A → ℕ → ℕ → Option (Bool × Arr A)
  del_loop same a zero p = some (false, a)
  del_loop same a (suc n) p =
      let rest = del_loop same a n (p + 1) in
      load a.elts p >>= λ x.
      if same x
      then (do
        elts ← memcpy a.elts p a.elts (p + 1) n
        some (true, record a { elts = elts; nelts = a.nelts - 1 }))
      else rest

  unfoldable pub arr_del : (A → Bool) → Arr A → Option (Bool × Arr A)
  unfolding del_loop
  arr_del same a = del_loop same a (cells a.nelts a.size) 0

  -- The elements that the body of `arr_for_each` sees.
  pub walk : Block A → ℕ → ℕ → Option (List A)
  walk b zero pos = some []
  walk b (suc n) pos =
      let rest = walk b n (pos + 1) in load b pos >>= λ x. rest >>= λ xs. some (x ∷ xs)

  unfoldable pub arr_for_each : Arr A → Option (List A)
  unfolding walk
  arr_for_each a = walk a.elts a.nelts 0
