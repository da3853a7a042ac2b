-- ===== src/Memchk/Examples.antt =====
-- The calls of src/memchk.c on a memory of zeros, with lists that push and pop at their heads.
use myclib.Prelude.{
  ℕ, zero, suc, ◌+◌, ◌<◌, ◌≡◌, refl, inl, inr, Bool-cases, false, not, Option, none, some, List, [],
  ◌∷◌, ◌==◌, if◌then◌else◌, arith, length,
}
use myclib.Memchk.{
  Ptr, raw_mem, Descriptor, without, Hlist, Memchk, Mallocs, new_descriptor, returned, exited, hash,
  take_descriptor, add_block, mem_realloc, free_ptr, dp_dirty,
}
use myclib.Memchk.View.{sum, size_in, Distinct}
use myclib.Memchk.Free.{IsValid}
use myclib.Memchk.Blocks.{Request, alloc, calloc, realloc, free, LegalRun, spec_call, spec_run}
use myclib.Memchk.Calls.{Represents}
use myclib.Memchk.Run.{run, run-Agree, Agree}
use myclib.Memchk.Guards.{stores, dp_dirty-overrun, mem_realloc-raw}

abbrev pop : List Descriptor → Option (Descriptor × List Descriptor)
pop [] = none
pop (d ∷ c) = some (d, c)

pop_lem :
    (c : List Descriptor)
    → length c == 0 ≡ false
    → (d : Descriptor) × (c' : List Descriptor) × (pop c ≡ some (d, c'))
pop_lem [] h = ground arith
pop_lem (d ∷ c) h = (d, c, refl)

abbrev lists : Hlist (List Descriptor)
lists = record {
  entries = λ c. c;
  empty = λ c. length c == 0;
  add_head = λ d c. d ∷ c;
  push = pop;
  del = without;
  empty_lem = λ c. refl;
  entries-add_head = λ d c. refl;
  push_lem = pop_lem;
  entries-del = λ n c. refl;
}

abbrev start : Memchk (List Descriptor)
start = record { free_list = []; htab = λ i. []; memory = λ k. 0 }

abbrev got : Ptr → Mallocs
got p = record { descriptor = 64; block = p }

sum_zero : (n i : ℕ) → sum (λ k. 0) n i ≡ 0
unfolding sum
sum_zero zero i = refl
sum_zero (suc n) i = omega (arith, sum_zero n (i + 1))

start-Represents : Represents lists start []
unfolding size_in
start-Represents = record {
  valid = record { distinct = λ i. tt };
  distinct = tt;
  sizes = λ q. refl;
  counted = sum_zero 2047 0;
}

abbrev requests : List Request
requests = alloc (got 4096) 8 ∷ calloc (got 8192) 2 3 ∷ realloc (got 12288) 4112 5 ∷ free 8208 ∷ []

requests-LegalRun : LegalRun requests []
unfolding spec_call
requests-LegalRun = ground arith

run-Agree_example : Agree lists (run lists requests start) (spec_run requests [])
run-Agree_example = run-Agree lists requests start [] start-Represents requests-LegalRun

-- A pointer that was freed ends the program.
free_twice : run lists (alloc (got 4096) 8 ∷ free 4112 ∷ free 4112 ∷ []) start ≡ exited
unfolding run take_descriptor free_ptr hash
free_twice = refl

-- an octet behind a block of 3
dp_dirty-overrun_example :
    let m = stores ((4112, 7) ∷ []) (add_block lists (got 4096) 3 start []).1.memory in
    let m' = stores ((4114, 9) ∷ []) (λ k. if k == 4115 then 1 else m k) in
    (dp_dirty m' (new_descriptor (got 4096) 3)).0 ≡ not (1 == raw_mem)
dp_dirty-overrun_example =
    dp_dirty-overrun (got 4096) 3 (omega arith) lists start [] ((4112, 7) ∷ []) ((4114, 9) ∷ [])
      4115 1 (omega arith) (omega arith) (inr (omega arith))

-- the state with one block of 8 octets
abbrev one_block : Memchk (List Descriptor)
one_block = (add_block lists (got 4096) 8 start []).1

one_block-Distinct : (i : ℕ) → Distinct (one_block.htab i)
unfolding add_block size_in hash
one_block-Distinct i = elim (Bool-cases (i == 514)) [ inl e ↦ rw e (refl, tt) | inr e ↦ rw e tt ]

one_block-IsValid : IsValid lists one_block
unfolding add_block size_in hash
one_block-IsValid = record { distinct = one_block-Distinct }

mem_realloc-raw_example :
    (s' : Memchk (List Descriptor)) × (mem_realloc lists (got 8192) 4112 3 one_block
      ≡ returned (8208, s'))
    × ((k : ℕ) → k < 3 → s'.memory (8208 + k) ≡ raw_mem)
unfolding add_block size_in hash
mem_realloc-raw_example =
    mem_realloc-raw (got 8192) 3 (omega arith) lists one_block 4112 one_block-IsValid (omega arith)
      (ground arith) (omega arith) (omega arith) (omega arith) (inr refl)
