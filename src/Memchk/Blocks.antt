-- ===== src/Memchk/Blocks.antt =====
-- The blocks that src/memchk.c has given out, as a list, and its calls on them.
use myclib.Prelude.{
  ℕ, ◌+◌, ◌*◌, ◌<◌, ◌≡◌, ◌≢◌, refl, inl, inr, Bool-cases, Option, none, some, List, [], ◌∷◌, ◌==◌,
  arith, if◌then◌else◌, length,
}
use myclib.Memchk.{Ptr, null, u64, Mallocs}
use myclib.Memchk.Free.{block_ptr}

-- A call, with what `malloc` returns in it.
pub data Request : Type 0 where
  alloc : Mallocs → ℕ → Request
  calloc : Mallocs → ℕ → ℕ → Request
  realloc : Mallocs → Ptr → ℕ → Request
  free : Ptr → Request

-- The blocks that are given out, with their sizes, and the same calls on them; `none` is `exit(1)`.
abbrev pub Blocks : Type 0
Blocks = List (Ptr × ℕ)

abbrev pub size_of : Blocks → Ptr → Option ℕ
size_of [] p = none
size_of ((q, n) ∷ bs) p = if q == p then some n else size_of bs p

abbrev pub erase : Ptr → Blocks → Blocks
erase p [] = []
erase p ((q, n) ∷ bs) = if q == p then bs else (q, n) ∷ erase p bs

-- a pointer that is given back
abbrev pub give_back : Ptr → Blocks → Option Blocks
give_back p bs = elim (size_of bs p) [ none ↦ none | some n ↦ some (erase p bs) ]

unfoldable pub spec_call : Request → Blocks → Option Blocks
spec_call (alloc got size) bs = some ((block_ptr got, size) ∷ bs)
spec_call (calloc got nmemb size) bs = some ((block_ptr got, u64 (nmemb * size)) ∷ bs)
spec_call (realloc got p size) bs = elim (give_back p bs) [
  | none ↦ none
  | some bs' ↦ some ((block_ptr got, size) ∷ bs')
]
spec_call (free p) bs = give_back p bs

abbrev pub then_run : Option Blocks → (Blocks → Option Blocks) → Option Blocks
then_run none f = none
then_run (some bs) f = f bs

unfoldable pub spec_run : List Request → Blocks → Option Blocks
unfolding spec_call
spec_run [] bs = some bs
spec_run (r ∷ rs) bs = then_run (spec_call r bs) (spec_run rs)

pub give_back-none : (p : Ptr) (bs : Blocks) → size_of bs p ≡ none → give_back p bs ≡ none
give_back-none p bs h = rw (h, give_back) refl

pub give_back-some :
    (p : Ptr) (bs : Blocks) (n : ℕ) → size_of bs p ≡ some n → give_back p bs ≡ some (erase p bs)
give_back-some p bs n h = rw (h, give_back) refl

pub spec_realloc-none :
    (got : Mallocs) (p : Ptr) (size : ℕ) (bs : Blocks)
    → size_of bs p ≡ none
    → spec_call (realloc got p size) bs ≡ none
unfolding spec_call
spec_realloc-none got p size bs h = rw (h, spec_call, give_back) refl

pub spec_realloc-some :
    (got : Mallocs) (p : Ptr) (size : ℕ) (bs : Blocks) (n : ℕ)
    → size_of bs p ≡ some n
    → spec_call (realloc got p size) bs ≡ some ((block_ptr got, size) ∷ erase p bs)
unfolding spec_call
spec_realloc-some got p size bs n h = rw (h, spec_call, give_back) refl

-- `malloc` gives memory, at an address that is not given out.
abbrev pub Fits : Mallocs → ℕ → Blocks → Type 0
Fits got size bs =
    (0 < size) × (got.descriptor ≢ null) × (got.block ≢ null) × (size_of bs (block_ptr got) ≡ none)

-- No size is 0 and no pointer is `NULL`, which are assertions, and `malloc` gives memory.
abbrev pub Legal : Request → Blocks → Type 0
Legal (alloc got size) bs = Fits got size bs
Legal (calloc got nmemb size) bs = Fits got (u64 (nmemb * size)) bs
Legal (realloc got p size) bs = (p ≢ null) × Fits got size (erase p bs)
Legal (free p) bs = p ≢ null

abbrev pub LegalThen : Option Blocks → (Blocks → Type 0) → Type 0
LegalThen none legal = Unit
LegalThen (some bs) legal = legal bs

abbrev pub LegalRun : List Request → Blocks → Type 0
LegalRun [] bs = Unit
LegalRun (r ∷ rs) bs = Legal r bs × LegalThen (spec_call r bs) (LegalRun rs)

abbrev pub Distinct : Blocks → Type 0
Distinct [] = Unit
Distinct ((q, n) ∷ bs) = (size_of bs q ≡ none) × Distinct bs

pub size_of-erase :
    (p : Ptr) (bs : Blocks) (q : Ptr)
    → Distinct bs
    → size_of (erase p bs) q ≡ (if p == q then none else size_of bs q)
size_of-erase p [] q d = ground arith
size_of-erase p ((r, n) ∷ bs) q d = ground (arith, size_of-erase p bs q)

pub erase-Distinct : (p : Ptr) (bs : Blocks) → Distinct bs → Distinct (erase p bs)
erase-Distinct p [] d = tt
erase-Distinct p ((r, n) ∷ bs) d = elim (Bool-cases (r == p)) [
  | inl e ↦ rw e d.1
  | inr e ↦ rw e (ground (arith, size_of-erase p bs r), erase-Distinct p bs d.1)
]

pub length-erase :
    (p : Ptr) (bs : Blocks) → size_of bs p ≢ none → length (erase p bs) + 1 ≡ length bs
length-erase p [] h = absurd (h refl)
length-erase p ((r, n) ∷ bs) h = ground (arith, length-erase p bs)
