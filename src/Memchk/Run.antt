-- ===== src/Memchk/Run.antt =====
-- Sequences of calls of src/memchk.c against the list of the blocks that are given out.
use mathlib.Core.Path.{subst}
use myclib.Prelude.{
  ℕ, ◌*◌, ◌≡◌, ap, ◌∙◌, sym, inl, inr, Option-cases, Option, none, some, List, [], ◌∷◌, arith,
  length, u32,
}
use myclib.Memchk.{
  u64, Hlist, Memchk, Call, returned, exited, failed_assert, fault, mem_alloc, mem_free, mem_calloc,
  mem_realloc, mem_leak, memset, ◌>>=◌,
}
use myclib.Memchk.View.{mem_leak-count}
use myclib.Memchk.Free.{block_ptr, free_ptr_unknown}
use myclib.Memchk.Blocks.{
  Request, alloc, calloc, realloc, free, Blocks, size_of, erase, spec_call, then_run, spec_run,
  Legal, LegalThen, LegalRun, give_back-none, give_back-some, spec_realloc-none, spec_realloc-some,
}
use myclib.Memchk.Calls.{
  Represents, mem_alloc-Represents, free_ptr-Represents, mem_free-exited, mem_free-returned,
  mem_realloc-exited, mem_realloc-mem_alloc, mem_calloc-memset, Represents-memory,
}

module _ {H : Type 0} (lists : Hlist H) where
  call : Request → Memchk H → Call (Memchk H)
  unfolding mem_alloc mem_calloc mem_realloc mem_free
  call (alloc got size) s = mem_alloc lists got size s >>= λ (p, s'). returned s'
  call (calloc got nmemb size) s = mem_calloc lists got nmemb size s >>= λ (p, s'). returned s'
  call (realloc got p size) s = mem_realloc lists got p size s >>= λ (p, s'). returned s'
  call (free p) s = mem_free lists p s

  unfoldable pub run : List Request → Memchk H → Call (Memchk H)
  unfolding call
  run [] s = returned s
  run (r ∷ rs) s = call r s >>= run rs

-- The two runs end alike.
abbrev pub Agree : {H : Type 0} → Hlist H → Call (Memchk H) → Option Blocks → Type 0
Agree lists (returned s) (some bs) =
    Represents lists s bs × ((mem_leak lists s).0 ≡ u32 (length bs))
Agree lists (returned s) none = ⊥
Agree lists exited none = Unit
Agree lists exited (some bs) = ⊥
Agree lists failed_assert o = ⊥
Agree lists fault o = ⊥

module _ {H : Type 0} (lists : Hlist H) where
  -- what a call does, with the state represented
  Step : Call (Memchk H) → Option Blocks → Type 0
  Step (returned s) (some bs) = Represents lists s bs
  Step (returned s) none = ⊥
  Step exited none = Unit
  Step exited (some bs) = ⊥
  Step failed_assert o = ⊥
  Step fault o = ⊥

  call-Step :
      (r : Request) (s : Memchk H) (bs : Blocks)
      → Represents lists s bs
      → Legal r bs
      → Step (call lists r s) (spec_call r bs)
  unfolding call Step spec_call
  call-Step (alloc got size) s bs rep legal =
      let (s', result, rep') = mem_alloc-Represents lists got size s bs rep legal in rw result rep'
  call-Step (calloc got nmemb size) s bs rep legal =
      let n = u64 (nmemb * size) in
      let (s', result, rep') = mem_alloc-Represents lists got n s bs rep legal in
      rw (mem_calloc-memset lists got nmemb size s s' (block_ptr got) legal.0 result) (
        Represents-memory lists s' ((block_ptr got, n) ∷ bs) (memset s'.memory (block_ptr got) 0 n)
          rep')
  call-Step (realloc got p size) s bs rep (nonnull, fits) = elim (Option-cases (size_of bs p)) [
    | inl unknown ↦
        let freed = free_ptr_unknown lists p s rep.valid (rep.sizes p ∙ unknown) in
        rw (mem_realloc-exited lists got p size s nonnull fits.0 freed)
          (subst (Step exited) (sym (spec_realloc-none got p size bs unknown)) tt)
    | inr (n, known) ↦
        let (s', freed, rep') = free_ptr-Represents lists p s bs rep (ground (arith, known)) in
        let (s'', result, rep'') = mem_alloc-Represents lists got size s' (erase p bs) rep' fits in
        rw (mem_realloc-mem_alloc lists got p size s s' nonnull fits.0 freed) (
          rw result
            (subst (Step (returned s'')) (sym (spec_realloc-some got p size bs n known)) rep''))
  ]
  call-Step (free p) s bs rep nonnull = elim (Option-cases (size_of bs p)) [
    | inl unknown ↦
        rw
          (mem_free-exited lists p s nonnull
            (free_ptr_unknown lists p s rep.valid (rep.sizes p ∙ unknown)))
          (subst (Step exited) (sym (give_back-none p bs unknown)) tt)
    | inr (n, known) ↦
        let (s', freed, rep') = free_ptr-Represents lists p s bs rep (ground (arith, known)) in
        rw (mem_free-returned lists p s s' nonnull freed)
          (subst (Step (returned s')) (sym (give_back-some p bs n known)) rep')
  ]

  run_rest :
      (rs : List Request) (c : Call (Memchk H)) (o : Option Blocks)
      → ((s : Memchk H) (bs : Blocks)
          → Represents lists s bs
          → LegalRun rs bs
          → Step (run lists rs s) (spec_run rs bs))
      → Step c o
      → LegalThen o (LegalRun rs)
      → Step (c >>= run lists rs) (then_run o (spec_run rs))
  unfolding Step
  run_rest rs (returned s) (some bs) go step legal = go s bs step legal
  run_rest rs (returned s) none go step legal = absurd step
  run_rest rs exited none go step legal = step
  run_rest rs exited (some bs) go step legal = absurd step
  run_rest rs failed_assert o go step legal = absurd step
  run_rest rs fault o go step legal = absurd step

  run-Step :
      (rs : List Request) (s : Memchk H) (bs : Blocks)
      → Represents lists s bs
      → LegalRun rs bs
      → Step (run lists rs s) (spec_run rs bs)
  unfolding run spec_run Step
  run-Step [] s bs rep legal = rep
  run-Step (r ∷ rs) s bs rep legal =
      run_rest rs (call lists r s) (spec_call r bs) (run-Step rs) (call-Step r s bs rep legal.0)
        legal.1

  Step-Agree : (c : Call (Memchk H)) (o : Option Blocks) → Step c o → Agree lists c o
  unfolding Step
  Step-Agree (returned s) (some bs) rep =
      (rep, mem_leak-count lists s ∙ ap (λ (n : ℕ). u32 n) rep.counted)
  Step-Agree (returned s) none step = step
  Step-Agree exited none step = step
  Step-Agree exited (some bs) step = step
  Step-Agree failed_assert o step = absurd step
  Step-Agree fault o step = absurd step

  pub run-Agree :
      (rs : List Request) (s : Memchk H) (bs : Blocks)
      → Represents lists s bs
      → LegalRun rs bs
      → Agree lists (run lists rs s) (spec_run rs bs)
  run-Agree rs s bs rep legal =
      Step-Agree (run lists rs s) (spec_run rs bs) (run-Step rs s bs rep legal)
