-- ===== src/Ring/Examples.antt =====
-- The functions of ring.h at a full ring of two elements that goes round the end of its storage.
use myclib.Prelude.{
  ◌>>=◌, get_elem?, ℕ, zero, suc, ◌≡◌, ◌<◌, refl, some, List, [], ◌∷◌, arith, ◌==◌, if◌then◌else◌,
}
use myclib.Ring.{Ring, ring_expand, ring_push_h, ring_for_each_idx, offset}
use myclib.Ring.Bounds.{slot}
use myclib.Ring.Refine.{Holds}
use myclib.Ring.Run.{Call, push, tighten, run, queue, pushes, run_refines}

abbrev full : Ring ℕ
full = record {
  cap = 2;
  idx_begin = 1;
  idx_end = 1;
  size = 4;
  nelts = 2;
  elts = record { room = 2; cell = λ k. if k == 0 then some 8 else some 7 };
}

abbrev contents : List ℕ
contents = 7 ∷ 8 ∷ []

full-elements : (k : ℕ) → k < 2 → full.elts.cell (slot full k) ≡ get_elem? contents k
full-elements zero lt = refl
full-elements (suc zero) lt = refl
full-elements (suc (suc k)) lt = absurd (omega arith)

full-Holds : Holds full contents
full-Holds = record { valid = omega arith; count = refl; elements = full-elements }

-- a push that doubles the storage, and what a walk then sees
push_and_walk : (ring_push_h full 9 >>= ring_for_each_idx) ≡ some (7 ∷ 8 ∷ 9 ∷ [])
unfolding ring_push_h ring_expand ring_for_each_idx offset
push_and_walk = refl

-- the calls of `ring_test` in src/ring.c, in small
abbrev calls : List (Call ℕ)
calls = push 9 ∷ tighten 2 ∷ push 3 ∷ []

run_refines_example :
    (r : Ring ℕ) × (run full calls ≡ some r)
    × Holds r (9 ∷ 3 ∷ [])
    × (ring_for_each_idx r ≡ some (9 ∷ 3 ∷ []))
unfolding queue
run_refines_example =
    run_refines calls 4 full-Holds (unfold pushes in omega arith) (omega arith) (omega arith)
