-- ===== src/Memchk/Free.antt =====
-- One call of `mem_alloc` or `_mem_free` of src/memchk.c against the blocks that are given out.
use mathlib.Core.Path.{subst}
use myclib.Prelude.{
  ℕ, ◌+◌, ◌<◌, ◌≡◌, ◌≢◌, refl, ap, ◌∙◌, sym, inl, inr, Bool-cases, Option-cases, true, false,
  Option, none, some, List, ◌==◌, arith, if◌then◌else◌, length,
}
use myclib.Memchk.{
  Ptr, null, guard_size, bucket_count, hash, u64, Descriptor, Hlist, Memchk, Mallocs, returned,
  set_bucket, find, mem_alloc, free_ptr, take_descriptor, add_block, new_descriptor,
}
use myclib.Memchk.View.{sum_at, size_in, Distinct, chain, size_at, total, chain_length, hash-lt}
use myclib.Memchk.Chains.{size_in-cons, find-none, find-Found, Found-Unlinked, Unlinked, Found}

-- the pointer that `mem_alloc` returns
abbrev pub block_ptr : Mallocs → Ptr
block_ptr got = u64 (got.block + guard_size)

-- What the allocator keeps: in each bucket no two descriptors with one pointer.
pub record IsValid {H : Type 0} (lists : Hlist H) (s : Memchk H) : Type 0 where
  pub distinct : (i : ℕ) → Distinct (lists.entries (s.htab i))

module _ {H : Type 0} (lists : Hlist H) where
  set_bucket-Distinct :
      (htab : ℕ → H) (j : ℕ) (h : H)
      → ((i : ℕ) → Distinct (lists.entries (htab i)))
      → Distinct (lists.entries h)
      → (i : ℕ) → Distinct (lists.entries (set_bucket htab j h i))
  set_bucket-Distinct htab j h all new i = elim (Bool-cases (i == j)) [
    | inl e ↦ rw e new
    | inr e ↦ rw e (all i)
  ]

  -- A table with another chain in one bucket.
  total-set_bucket :
      (s s' : Memchk H) (i : ℕ) (h : H)
      → i < bucket_count
      → s'.htab ≡ set_bucket s.htab i h
      → total lists s' + length (lists.entries (s.htab i))
        ≡ total lists s + length (lists.entries h)
  total-set_bucket s s' i h lt e =
      let f = chain_length lists s in
      let g = chain_length lists s' in
      let same : (k : ℕ) → k ≢ i → g k ≡ f k = λ k other. rw e (ground arith) in
      let here : g i ≡ length (lists.entries h) = rw e (ground arith) in
      rw (← here) (sum_at f g i bucket_count 0 same (omega arith) lt)

  take_descriptor-returned :
      (fresh : Ptr) (free_list : H)
      → fresh ≢ null
      → (rest : H) × (take_descriptor lists fresh free_list ≡ returned rest)
  unfolding take_descriptor
  take_descriptor-returned fresh free_list h = elim (Bool-cases (lists.empty free_list)) [
    | inl e ↦ (free_list, rw e (ground arith))
    | inr e ↦ let (d, rest, pushed) = lists.push_lem free_list e in (rest, rw e (rw pushed refl))
  ]

  -- what the two calls of `malloc` in `mem_alloc` give: memory, at an address that is not given out
  pub record Granted (got : Mallocs) (s : Memchk H) : Type 0 where
    pub descriptor : got.descriptor ≢ null
    pub block : got.block ≢ null
    pub fresh : size_at lists s (block_ptr got) ≡ none

  add_block-htab :
      (got : Mallocs) (size : ℕ) (s : Memchk H) (rest : H)
      → let s' = (add_block lists got size s rest).1 in
        (d : Descriptor) × (d.ptr ≡ block_ptr got)
        × (d.size ≡ size)
        × (s'.htab
            ≡ set_bucket s.htab
                (hash (block_ptr got))
                (lists.add_head d (s.htab (hash (block_ptr got)))))
  unfolding add_block
  add_block-htab got size s rest = (new_descriptor got size, refl, refl, refl)

  set_bucket-reads :
      (s s' : Memchk H) (p : Ptr) (h : H) (v : Option ℕ)
      → s'.htab ≡ set_bucket s.htab (hash p) h
      → ((q : Ptr)
          → size_in (lists.entries h) q ≡ (if p == q then v else size_in (chain lists s p) q))
      → (q : Ptr) → size_at lists s' q ≡ (if p == q then v else size_at lists s q)
  set_bucket-reads s s' p h v tables reads q =
      let at_q = ap (λ (f : ℕ → H). f (hash q)) tables in
      elim (Bool-cases (hash q == hash p)) [
        | inl e ↦
            let same : hash q ≡ hash p = ground arith in
            let here : s'.htab (hash q) ≡ h = at_q ∙ rw e refl in
            ap (λ (g : H). size_in (lists.entries g) q) here
            ∙ reads q
            ∙ ap (λ (i : ℕ). if p == q then v else size_in (lists.entries (s.htab i)) q) (sym same)
        | inr e ↦
            let other : p == q ≡ false = elim (Bool-cases (p == q)) [
              | inl f ↦ let pq : p ≡ q = ground arith in absurd (ground (arith, ap hash pq))
              | inr f ↦ f
            ] in
            let here : s'.htab (hash q) ≡ s.htab (hash q) = at_q ∙ rw e refl in
            rw other (ap (λ (g : H). size_in (lists.entries g) q) here)
      ]

  pub add_block-effect :
      (got : Mallocs) (size : ℕ) (s : Memchk H) (rest : H)
      → IsValid lists s
      → size_at lists s (block_ptr got) ≡ none
      → let p = block_ptr got in
        let s' = (add_block lists got size s rest).1 in
        IsValid lists s'
        × ((q : Ptr) → size_at lists s' q ≡ (if p == q then some size else size_at lists s q))
        × (total lists s' ≡ total lists s + 1)
  add_block-effect got size s rest valid fresh =
      let p = block_ptr got in
      let (d, at_p, sized, tables) = add_block-htab got size s rest in
      let s' = (add_block lists got size s rest).1 in
      let h = lists.add_head d (s.htab (hash p)) in
      let entries = lists.entries-add_head d (s.htab (hash p)) in
      (
        record {
          distinct = rw tables (
              set_bucket-Distinct s.htab (hash p) h valid.distinct
                (rw entries (rw at_p (fresh, valid.distinct (hash p)))));
        },
        set_bucket-reads s s' p h (some size) tables (λ q.
            ap (λ (c : List Descriptor). size_in c q) entries
            ∙ size_in-cons d (chain lists s p) p size q at_p sized),
        omega (arith, total-set_bucket s s' (hash p) h (hash-lt p) tables, ap length entries),
      )

  free_ptr-effect :
      (p : Ptr) (s : Memchk H) (n : ℕ) (d : Descriptor)
      → IsValid lists s
      → Unlinked (chain lists s p) p n
      → let s' : Memchk H = record s {
        free_list = lists.add_head d s.free_list;
        htab = set_bucket s.htab (hash p) (lists.del n (s.htab (hash p)));
      } in
        IsValid lists s'
        × ((q : Ptr) → size_at lists s' q ≡ (if p == q then none else size_at lists s q))
        × (total lists s' + 1 ≡ total lists s)
  free_ptr-effect p s n d valid u =
      let h = lists.del n (s.htab (hash p)) in
      let s' : Memchk H = record s {
        free_list = lists.add_head d s.free_list;
        htab = set_bucket s.htab (hash p) h;
      } in
      let entries = lists.entries-del n (s.htab (hash p)) in
      (
        record {
          distinct = set_bucket-Distinct s.htab (hash p) h valid.distinct (rw entries u.distinct);
        },
        set_bucket-reads s s' p h none refl (λ q. rw entries (u.reads q)),
        omega (
          arith,
          total-set_bucket s s' (hash p) h (hash-lt p) refl,
          ap length entries,
          u.shorter,
        ),
      )

  -- `mem_alloc` of a size that is not 0 comes to `add_block`.
  pub mem_alloc-add_block :
      (got : Mallocs) (size : ℕ) (s : Memchk H)
      → 0 < size
      → Granted got s
      → (rest : H) × (mem_alloc lists got size s ≡ returned (add_block lists got size s rest))
  unfolding mem_alloc
  mem_alloc-add_block got size s positive granted =
      let (rest, taken) = take_descriptor-returned got.descriptor s.free_list granted.descriptor in
      (rest, rw taken (ground (arith, granted.block)))

  -- A pointer that is not given out.
  pub free_ptr_unknown :
      (p : Ptr) (s : Memchk H)
      → IsValid lists s
      → size_at lists s p ≡ none
      → free_ptr lists p s ≡ (false, s)
  unfolding free_ptr
  free_ptr_unknown p s valid unknown = elim (Bool-cases (lists.empty (s.htab (hash p)))) [
    | inl e ↦ rw e refl
    | inr e ↦ elim (Option-cases (find (chain lists s p) p)) [
      | inl f ↦ rw e (rw f refl)
      | inr ((n, d), f) ↦
          let found =
            subst (λ o. Found (chain lists s p) p o) f
              (find-Found (chain lists s p) p (valid.distinct (hash p))) in
          absurd (let u = Found-Unlinked (chain lists s p) p n d found in u.present unknown)
    ]
  ]

  pub free_ptr_given_out :
      (p : Ptr) (s : Memchk H)
      → IsValid lists s
      → size_at lists s p ≢ none
      → (s' : Memchk H) × (free_ptr lists p s ≡ (true, s'))
        × IsValid lists s'
        × ((q : Ptr) → size_at lists s' q ≡ (if p == q then none else size_at lists s q))
        × (total lists s' + 1 ≡ total lists s)
        × (s'.memory ≡ s.memory)
  unfolding free_ptr
  free_ptr_given_out p s valid known = elim (Option-cases (find (chain lists s p) p)) [
    | inl f ↦ absurd (known (find-none (chain lists s p) p f))
    | inr ((n, d), f) ↦
        let u = Found-Unlinked (chain lists s p) p n d (
          subst (λ o. Found (chain lists s p) p o) f
            (find-Found (chain lists s p) p (valid.distinct (hash p)))) in
        let nonempty : lists.empty (s.htab (hash p)) ≡ false =
          lists.empty_lem (s.htab (hash p)) ∙ ground (arith, u.shorter) in
        let (valid', reads, fewer) = free_ptr-effect p s n d valid u in
        (
          record s {
            free_list = lists.add_head d s.free_list;
            htab = set_bucket s.htab (hash p) (lists.del n (s.htab (hash p)));
          },
          rw nonempty (rw f refl),
          valid',
          reads,
          fewer,
          refl,
        )
  ]
