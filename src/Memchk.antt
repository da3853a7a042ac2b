-- ===== src/Memchk.antt =====
-- src/memchk.c: an allocator that keeps a descriptor for each block, with guards around the block.
-- An address and an octet are numbers, and the memory is the function from the ones to the others.
-- The lists are those of list_head.h, which is not in the repository: `Hlist` has the functions
-- that the code calls and what it relies on. What `malloc` returns is an argument, and `free`
-- leaves the octets as they are. `long double` has 16 bytes. The names of files, the lines and the
-- texts of the log are left out.

pub mod View
pub mod Free
pub mod Chains
pub mod Blocks
pub mod Calls
pub mod Run
pub mod Guards
mod Examples
use Prim.Native.Nat.{bit_and}
use myclib.Prelude.{
  ℕ, zero, suc, ◌+◌, ◌-◌, ◌*◌, ◌/◌, ◌%◌, ◌^◌, ◌≡◌, Bool, true, false, Option, none, some, List, [],
  ◌∷◌, ◌++◌, not, ◌&&◌, ltb, leb, ◌==◌, if◌then◌else◌, u32, drop, take, length,
}

abbrev pub Ptr : Type 0
Ptr = ℕ

abbrev pub null : Ptr
null = 0

abbrev pub u64 : ℕ → ℕ
u64 n = n % 2 ^ 64

abbrev pub raw_mem : ℕ
raw_mem = 0x3A

-- `sizeof(long double)`
abbrev pub guard_size : ℕ
guard_size = 16

abbrev pub bucket_count : ℕ
bucket_count = 2047

-- the macro `hash`, for the table `htab`
unfoldable pub hash : Ptr → ℕ
hash p = bit_and (p / 2 ^ 3) (bucket_count - 1)

-- `mem_descriptor_t`
pub record Descriptor : Type 0 where
  pub size : ℕ
  pub start_space : Ptr
  pub last_space : Ptr
  pub ptr : Ptr

-- the list without its element `n`
abbrev pub without : ℕ → List Descriptor → List Descriptor
without n c = take n c ++ drop (suc n) c

-- The lists of descriptors, by their heads. `entries` are those that `hlist_for_each_entry` visits,
-- `del n` is `hlist_del_init` at the entry `n` of these.
pub record Hlist (H : Type 0) : Type 0 where
  pub entries : H → List Descriptor
  pub empty : H → Bool
  pub add_head : Descriptor → H → H
  pub push : H → Option (Descriptor × H)
  pub del : ℕ → H → H
  pub empty_lem : (h : H) → empty h ≡ (length (entries h) == 0)
  pub entries-add_head : (d : Descriptor) (h : H) → entries (add_head d h) ≡ d ∷ entries h
  pub push_lem : (h : H) → empty h ≡ false → (d : Descriptor) × (h' : H) × (push h ≡ some (d, h'))
  pub entries-del : (n : ℕ) (h : H) → entries (del n h) ≡ without n (entries h)

-- `free_list`, `htab` and the memory of the process
pub record Memchk (H : Type 0) : Type 0 where
  pub free_list : H
  pub htab : ℕ → H
  pub memory : Ptr → ℕ

-- How a call ends: it returns, an assertion fails, an address is used that is none, or `exit(1)`.
pub data Call {ℓ} (A : Type ℓ) : Type ℓ where
  returned : A → Call A
  failed_assert : Call A
  fault : Call A
  exited : Call A

infixl 5 ◌>>=◌
abbrev pub ◌>>=◌ {ℓ κ} : {A : Type ℓ} {B : Type κ} → Call A → (A → Call B) → Call B
returned a >>= f = f a
failed_assert >>= f = failed_assert
fault >>= f = fault
exited >>= f = exited

abbrev pub assert {ℓ} : {A : Type ℓ} → Bool → Call A → Call A
assert true k = k
assert false k = failed_assert

-- a use of a pointer
abbrev pub use_ptr {ℓ} : {A : Type ℓ} → Ptr → Call A → Call A
use_ptr p k = if p == null then fault else k

-- What the calls of `malloc` return: the address of a new descriptor, and that of the block.
pub record Mallocs : Type 0 where
  pub descriptor : Ptr
  pub block : Ptr

-- `memset(p, v, n)`
abbrev pub memset : (Ptr → ℕ) → Ptr → ℕ → ℕ → Ptr → ℕ
memset memory p v n k = if leb p k && ltb k (p + n) then v else memory k

abbrev pub set_bucket : {H : Type 0} → (ℕ → H) → ℕ → H → ℕ → H
set_bucket htab i h j = if j == i then h else htab j

-- the place of the first entry with this pointer, and the entry
unfoldable pub find : List Descriptor → Ptr → Option (ℕ × Descriptor)
find [] p = none
find (d ∷ c) p =
    let rest : Option (ℕ × Descriptor) = elim (find c p) [
      | none ↦ none
      | some (n, e) ↦ some (suc n, e)
    ] in
    if d.ptr == p then some (0, d) else rest

-- the fields that `mem_alloc` writes to its descriptor
abbrev pub new_descriptor : Mallocs → ℕ → Descriptor
new_descriptor got size =
    let ptr = u64 (got.block + guard_size) in
    record { size = size; start_space = got.block; last_space = u64 (ptr + size); ptr = ptr }

module _ {H : Type 0} (lists : Hlist H) where
  -- The descriptor that `mem_alloc` takes, whose fields it overwrites: the list that is left.
  unfoldable pub take_descriptor : Ptr → H → Call H
  take_descriptor fresh free_list =
      if lists.empty free_list
      then use_ptr fresh (returned free_list)
      else elim (lists.push free_list) [ none ↦ failed_assert | some (d, rest) ↦ returned rest ]

  -- The rest of `mem_alloc`, with what is left of the free descriptors: the pointer that is returned
  -- and the state.
  unfoldable pub add_block : Mallocs → ℕ → Memchk H → H → Ptr × Memchk H
  add_block got size s rest =
      let tolsize = u64 (size + guard_size + guard_size) in
      let dp = new_descriptor got size in
      let i = hash dp.ptr in
      (
        dp.ptr,
        record {
          free_list = rest;
          htab = set_bucket s.htab i (lists.add_head dp (s.htab i));
          memory = memset s.memory dp.start_space raw_mem tolsize;
        },
      )

  unfoldable pub mem_alloc : Mallocs → ℕ → Memchk H → Call (Ptr × Memchk H)
  unfolding take_descriptor add_block
  mem_alloc got size s = assert (ltb 0 size) (
      take_descriptor got.descriptor s.free_list >>= λ rest.
      use_ptr got.block (returned (add_block got size s rest)))

  -- The result of `_mem_free`, true for 0 and false for -1, and the state that it leaves.
  unfoldable pub free_ptr : Ptr → Memchk H → Bool × Memchk H
  unfolding find
  free_ptr p s =
      let chain = s.htab (hash p) in
      if lists.empty chain then (false, s) else elim (find (lists.entries chain) p) [
        | none ↦ (false, s)
        | some (n, d) ↦ (
          true,
          record s {
            free_list = lists.add_head d s.free_list;
            htab = set_bucket s.htab (hash p) (lists.del n chain);
          },
        )
      ]

  unfoldable pub mem_free : Ptr → Memchk H → Call (Memchk H)
  mem_free p s =
      assert (not (p == null)) (let (ok, s') = free_ptr p s in if ok then returned s' else exited)

  unfoldable pub mem_calloc : Mallocs → ℕ → ℕ → Memchk H → Call (Ptr × Memchk H)
  mem_calloc got nmemb size s =
      let tolsize = u64 (nmemb * size) in
      assert (ltb 0 tolsize) (
        mem_alloc got tolsize s >>= λ (p, s').
        returned (p, record s' { memory = memset s'.memory p 0 tolsize }))

  unfoldable pub mem_realloc : Mallocs → Ptr → ℕ → Memchk H → Call (Ptr × Memchk H)
  mem_realloc got p size s = assert (not (p == null)) (
      assert (ltb 0 size)
        (let (ok, s') = free_ptr p s in if ok then mem_alloc got size s' else exited))

-- `is_dirty`, with `n` octets left
unfoldable pub is_dirty : (Ptr → ℕ) → Ptr → ℕ → Bool
is_dirty memory p zero = false
is_dirty memory p (suc n) =
    let rest = is_dirty memory (p + 1) n in if memory p == raw_mem then rest else true

-- What is written to the log for a descriptor.
pub data Line : Type 0 where
  upper_boundary : Descriptor → Line
  bottom_boundary : Descriptor → Line
  unfreed : Descriptor → Line

-- `dp_dirty`: its result and its lines
unfoldable pub dp_dirty : (Ptr → ℕ) → Descriptor → Bool × List Line
dp_dirty memory dp =
    let upper = is_dirty memory dp.start_space guard_size in
    let bottom = is_dirty memory dp.last_space guard_size in
    (
      if bottom then true else upper,
      (if upper then upper_boundary dp ∷ [] else [])
          ++ (if bottom then bottom_boundary dp ∷ [] else []),
    )

-- `mem_leak`, one bucket: the lines
unfoldable pub leak_chain : (Ptr → ℕ) → List Descriptor → List Line
unfolding dp_dirty
leak_chain memory [] = []
leak_chain memory (dp ∷ c) = (dp_dirty memory dp).1 ++ (unfreed dp ∷ leak_chain memory c)

module _ {H : Type 0} (lists : Hlist H) where
  -- the loop of `mem_leak`, with `n` buckets left from `i` on: `count` and the lines
  unfoldable pub leak_loop : ℕ → ℕ → Memchk H → ℕ → ℕ × List Line
  unfolding leak_chain
  leak_loop zero i s count = (count, [])
  leak_loop (suc n) i s count =
      let c = lists.entries (s.htab i) in
      let (count', lines) = leak_loop n (i + 1) s (u32 (count + length c)) in
      (count', leak_chain s.memory c ++ lines)

  unfoldable pub mem_leak : Memchk H → ℕ × List Line
  unfolding leak_loop
  mem_leak s = leak_loop bucket_count 0 s 0
