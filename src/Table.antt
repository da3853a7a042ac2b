-- ===== src/Table.antt =====
-- src/table.c: a chained hash table of pointers to pointers.
-- A pointer is a number, 0 for `NULL`. The functions `cmp` and `hash` that `table_new` is given are
-- arguments: `same a b` is `cmp(a, b) == 0`. Each operation runs under the lock of its bucket.
-- `*tb` after a call is returned; the fields `cmp` and `hash` never change and are not stored.

pub mod View
pub mod Put
pub mod Destroy
pub mod Visit
mod Examples
pub mod Collect
pub mod Remove
use myclib.Prelude.{
  drop, ℕ, zero, suc, ◌+◌, ◌-◌, ◌%◌, ◌^◌, Bool, true, false, Option, none, some, List, [], ◌∷◌, not,
  ltb, ◌==◌, if◌then◌else◌, ◌>>=◌, check, u32, Block, store, arith,
}
use myclib.Arr.{Arr, arr_new, arr_push}

abbrev pub Ptr : Type 0
Ptr = ℕ

abbrev pub null : Ptr
null = 0

-- `entry_t`; the chain of a bucket is the list of its entries.
pub record Entry : Type 0 where
  pub key : Ptr
  pub value : Ptr

abbrev pub Chain : Type 0
Chain = List Entry

-- `length` is the bit pattern of the atomic `int`.
pub record Table : Type 0 where
  pub size : ℕ
  pub length : ℕ
  pub buckets : ℕ → Chain

abbrev pub int_max : ℕ
int_max = 2 ^ 31 - 1

abbrev pub primes : List ℕ
primes = 1 ∷ 3 ∷ 11 ∷ 509 ∷ 1021 ∷ 2053 ∷ 4093 ∷ 8191 ∷ 16381 ∷ 32771 ∷ 65521 ∷ int_max ∷ []

-- `for (i = 1; primes[i] < hint; i++)`, and then `primes[i - 1]`: the first argument is
-- `primes[i - 1]`, the list is what follows it. Past the end of the array it is a fault.
pub bucket_count : ℕ → List ℕ → ℕ → Option ℕ
bucket_count previous [] hint = none
bucket_count previous (p ∷ rest) hint =
    let next = bucket_count p rest hint in if ltb p hint then next else some previous

unfoldable pub table_new : ℕ → Option Table
unfolding bucket_count
table_new hint = do
  size ← bucket_count 1 (drop 1 primes) hint
  some (record { size = size; length = 0; buckets = λ i. [] })

abbrev pub set_bucket : (ℕ → Chain) → ℕ → Chain → ℕ → Chain
set_bucket buckets i c j = if j == i then c else buckets j

-- the macro `bucket_find`, as an index
abbrev pub bucket_find : (Ptr → ℕ) → Table → Ptr → ℕ
bucket_find hash tb key = hash key % tb.size

-- the macro `entry_find`
unfoldable pub entry_find : (Ptr → Ptr → Bool) → Chain → Ptr → Option Entry
entry_find same [] key = none
entry_find same (e ∷ c) key = if same e.key key then some e else entry_find same c key

-- the value of the entry that was found, `NULL` if there is none
abbrev pub value_of : Option Entry → Ptr
value_of none = null
value_of (some e) = e.value

-- The loop of `table_remove`: the value that is returned, whether an entry was unlinked, and the
-- chain that is left.
unfoldable pub unlink : (Ptr → Ptr → Bool) → Chain → Ptr → Ptr × Bool × Chain
unlink same [] key = (null, false, [])
unlink same (e ∷ c) key =
    let (ret, found, rest) = unlink same c key in
    if same e.key key then (e.value, true, c) else (ret, found, e ∷ rest)

module _ (same : Ptr → Ptr → Bool) (hash : Ptr → ℕ) where
  unfoldable pub table_put : Table → Ptr → Ptr → Ptr × Table
  table_put tb key value =
      let i = bucket_find hash tb key in
      let prev = value_of (entry_find same (tb.buckets i) key) in
      if prev == null
      then (
        prev,
        record tb {
          length = u32 (tb.length + 1);
          buckets = set_bucket tb.buckets i (record { key = key; value = value } ∷ tb.buckets i);
        },
      )
      else (prev, tb)

  -- `assert(key)` fails at the null key.
  unfoldable pub table_get : Table → Ptr → Option Ptr
  table_get tb key =
      check (not (key == null))
        (some (value_of (entry_find same (tb.buckets (bucket_find hash tb key)) key)))

  unfoldable pub table_remove : Table → Ptr → Option (Ptr × Table)
  table_remove tb key =
      let i = bucket_find hash tb key in
      let (ret, found, chain) = unlink same (tb.buckets i) key in
      check (not (key == null)) (
        some (
          if found
          then (
            ret,
            record tb {
              length = u32 (tb.length + 2 ^ 32 - 1);
              buckets = set_bucket tb.buckets i chain;
            },
          )
          else (ret, tb)))

-- `apply` may change the value of an entry and the caller's `*cl`.
module _ {S : Type 0} (apply : Ptr → Ptr → S → Ptr × S) where
  pub map_chain : Chain → S → Chain × S
  map_chain [] cl = ([], cl)
  map_chain (e ∷ c) cl =
      let (value, cl') = apply e.key e.value cl in
      let (rest, cl'') = map_chain c cl' in (record e { value = value } ∷ rest, cl'')

  -- The loop over the buckets, with `n` left from `i` on.
  pub map_loop : ℕ → ℕ → (ℕ → Chain) → S → (ℕ → Chain) × S
  map_loop zero i buckets cl = (buckets, cl)
  map_loop (suc n) i buckets cl =
      let (c, cl') = map_chain (buckets i) cl in map_loop n (i + 1) (set_bucket buckets i c) cl'

  unfoldable pub table_map : Table → S → Table × S
  unfolding map_chain map_loop
  table_map tb cl =
      let (buckets, cl') = map_loop tb.size 0 tb.buckets cl in
      (record tb { buckets = buckets }, cl')

-- `*pbuf = value` at the pointer that `arr_push` returned, a fault at `NULL`.
pub put_value : Ptr → Option ℕ × Arr Ptr → Option (Arr Ptr)
put_value v (none, a) = none
put_value v (some p, a) = do elts ← store a.elts p v; some (record a { elts = elts })

-- `granted` is what `malloc` does should the array have to grow.
module _ (granted : Bool) where
  pub push_chain : Chain → Arr Ptr → Option (Arr Ptr)
  push_chain [] a = some a
  push_chain (e ∷ c) a = arr_push granted a >>= put_value e.value >>= push_chain c

  pub push_loop : ℕ → ℕ → (ℕ → Chain) → Arr Ptr → Option (Arr Ptr)
  push_loop zero i buckets a = some a
  push_loop (suc n) i buckets a = push_chain (buckets i) a >>= push_loop n (i + 1) buckets

  unfoldable pub table_to_array : Table → Option (Arr Ptr)
  unfolding put_value push_chain push_loop
  table_to_array tb = push_loop tb.size 0 tb.buckets (arr_new tb.length 8)

unfoldable pub table_length : Table → ℕ
table_length tb = tb.length
