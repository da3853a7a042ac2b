-- ===== src/Mpool/Examples.antt =====
-- Runs of src/mpool.c, and its theorems at a new pool.
use myclib.Prelude.{
  ◌≡◌, refl, true, false, some, List, [], ◌∷◌, ◌++◌, All, arith, ◌==◌, if◌then◌else◌,
}
use myclib.Mpool.{Pool, fresh_span, mpool_new, mpool_pfree, alloc_bytes}
use myclib.Mpool.Alloc.{IsValid}
use myclib.Mpool.Regions.{Disjoint, Inside}
use myclib.Mpool.Run.{AllAsked, Call, run, run-Disjoint}
use myclib.Mpool.Free.{count, held, mpool_pfree-count}

abbrev pool : Pool
pool = record {
  blocks = fresh_span 16384 ∷ [];
  current = 0;
  max = 4095;
  large = [];
  free_list = [];
}

new_pool : mpool_new true true ≡ some pool
unfolding mpool_new
new_pool = refl

pool-IsValid : IsValid 1024 pool
pool-IsValid = record {
  small = omega arith;
  psize = refl;
  sound = (omega arith, tt);
  chosen = omega arith;
  limit = omega arith;
  roomy = omega arith;
}

-- 5 bytes, then a large allocation, then 7 bytes that need not be aligned
abbrev calls : List Call
calls =
    record { align = true; nbytes = 5; heap = 0; memory = true }
    ∷ record { align = true; nbytes = 9000; heap = 77; memory = true }
    ∷ record { align = false; nbytes = 7; heap = 0; memory = true }
    ∷ []

abbrev after : Pool
after = (run pool calls).1

offsets :
    (run pool calls).0
    ≡ record { at = record { block = 0; offset = 32 }; size = 5 }
      ∷ record { at = record { block = 0; offset = 48 }; size = 16 }
      ∷ record { at = record { block = 0; offset = 64 }; size = 7 }
      ∷ []
unfolding run alloc_bytes
offsets = refl

run-Disjoint_example :
    Disjoint (run pool calls).0
    × All (Inside 16384) (run pool calls).0
    × IsValid 1024 after
    × AllAsked pool calls
run-Disjoint_example = run-Disjoint 1024 pool calls pool-IsValid

mpool_pfree-count_example :
    (count 77 ((mpool_pfree after 77).1 ++ held (mpool_pfree after 77).2.large)
      ≡ count 77 (held after.large))
    × ((mpool_pfree after 77).0 ≡ (if count 77 (held after.large) == 0 then false else true))
    × ((mpool_pfree after 77).1 ≡ (if count 77 (held after.large) == 0 then [] else 77 ∷ []))
mpool_pfree-count_example = mpool_pfree-count after 77 77
