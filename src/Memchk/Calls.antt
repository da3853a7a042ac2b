-- ===== src/Memchk/Calls.antt =====
-- Each call of src/memchk.c against the list of the blocks that are given out.
use myclib.Prelude.{
  ℕ, ◌*◌, ◌<◌, ◌≡◌, ◌≢◌, refl, ◌∙◌, true, false, none, ◌∷◌, ◌==◌, arith, length, ltb,
}
use myclib.Memchk.{
  Ptr, null, u64, Hlist, Memchk, Mallocs, returned, exited, mem_alloc, mem_free, mem_calloc,
  mem_realloc, free_ptr, add_block, memset,
}
use myclib.Memchk.View.{size_at, total}
use myclib.Memchk.Free.{
  IsValid, block_ptr, mem_alloc-add_block, add_block-effect, free_ptr_given_out,
}
use myclib.Memchk.Blocks.{
  Blocks, size_of, erase, Fits, Distinct, size_of-erase, erase-Distinct, length-erase,
}

-- The state has exactly these blocks, and `mem_leak` counts them.
pub record Represents {H : Type 0} (lists : Hlist H) (s : Memchk H) (bs : Blocks) : Type 0 where
  pub valid : IsValid lists s
  pub distinct : Distinct bs
  pub sizes : (q : Ptr) → size_at lists s q ≡ size_of bs q
  pub counted : total lists s ≡ length bs

module _ {H : Type 0} (lists : Hlist H) where
  pub mem_alloc-Represents :
      (got : Mallocs) (size : ℕ) (s : Memchk H) (bs : Blocks)
      → Represents lists s bs
      → Fits got size bs
      → (s' : Memchk H) × (mem_alloc lists got size s ≡ returned (block_ptr got, s'))
        × Represents lists s' ((block_ptr got, size) ∷ bs)
  mem_alloc-Represents got size s bs rep fits =
      let fresh = rep.sizes (block_ptr got) ∙ fits.3 in
      let (rest, result) =
        mem_alloc-add_block lists got size s fits.0
          (record { descriptor = fits.1; block = fits.2; fresh = fresh }) in
      let (valid', reads, more) = add_block-effect lists got size s rest rep.valid fresh in
      let s' = (add_block lists got size s rest).1 in
      (
        s',
        result ∙ unfold add_block in refl,
        record {
          valid = valid';
          distinct = (fits.3, rep.distinct);
          sizes = λ q. ground (arith, reads q, rep.sizes q);
          counted = omega (arith, more, rep.counted);
        },
      )

  pub free_ptr-Represents :
      (p : Ptr) (s : Memchk H) (bs : Blocks)
      → Represents lists s bs
      → size_of bs p ≢ none
      → (s' : Memchk H) × (free_ptr lists p s ≡ (true, s')) × Represents lists s' (erase p bs)
  free_ptr-Represents p s bs rep known =
      let (s', result, valid', reads, fewer, same) =
        free_ptr_given_out lists p s rep.valid (ground (arith, rep.sizes p)) in
      (
        s',
        result,
        record {
          valid = valid';
          distinct = erase-Distinct p bs rep.distinct;
          sizes = λ q. ground (arith, reads q, rep.sizes q, size_of-erase p bs q);
          counted = omega (arith, fewer, rep.counted, length-erase p bs known);
        },
      )

  pub mem_free-exited :
      (p : Ptr) (s : Memchk H)
      → p ≢ null
      → free_ptr lists p s ≡ (false, s)
      → mem_free lists p s ≡ exited
  unfolding mem_free
  mem_free-exited p s nonnull e = let h : p == null ≡ false = ground arith in rw h (rw e refl)

  pub mem_free-returned :
      (p : Ptr) (s s' : Memchk H)
      → p ≢ null
      → free_ptr lists p s ≡ (true, s')
      → mem_free lists p s ≡ returned s'
  unfolding mem_free
  mem_free-returned p s s' nonnull e = let h : p == null ≡ false = ground arith in rw h (rw e refl)

  pub mem_realloc-exited :
      (got : Mallocs) (p : Ptr) (size : ℕ) (s : Memchk H)
      → p ≢ null
      → 0 < size
      → free_ptr lists p s ≡ (false, s)
      → mem_realloc lists got p size s ≡ exited
  unfolding mem_realloc
  mem_realloc-exited got p size s nonnull positive e =
      let h : p == null ≡ false = ground arith in
      let k : ltb 0 size ≡ true = ground arith in rw h (rw k (rw e refl))

  pub mem_realloc-mem_alloc :
      (got : Mallocs) (p : Ptr) (size : ℕ) (s s' : Memchk H)
      → p ≢ null
      → 0 < size
      → free_ptr lists p s ≡ (true, s')
      → mem_realloc lists got p size s ≡ mem_alloc lists got size s'
  unfolding mem_realloc
  mem_realloc-mem_alloc got p size s s' nonnull positive e =
      let h : p == null ≡ false = ground arith in
      let k : ltb 0 size ≡ true = ground arith in rw h (rw k (rw e refl))

  pub mem_calloc-memset :
      (got : Mallocs) (nmemb size : ℕ) (s s' : Memchk H) (p : Ptr)
      → 0 < u64 (nmemb * size)
      → mem_alloc lists got (u64 (nmemb * size)) s ≡ returned (p, s')
      → mem_calloc lists got nmemb size s
        ≡ returned (p, record s' { memory = memset s'.memory p 0 (u64 (nmemb * size)) })
  unfolding mem_calloc
  mem_calloc-memset got nmemb size s s' p positive e =
      let k : ltb 0 (u64 (nmemb * size)) ≡ true = ground arith in rw k (rw e refl)

  -- The memory is no part of what is given out.
  pub Represents-memory :
      (s : Memchk H) (bs : Blocks) (memory : Ptr → ℕ)
      → Represents lists s bs
      → Represents lists (record s { memory = memory }) bs
  Represents-memory s bs memory rep = record {
    valid = record { distinct = rep.valid.distinct };
    distinct = rep.distinct;
    sizes = rep.sizes;
    counted = rep.counted;
  }
