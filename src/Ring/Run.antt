-- ===== src/Ring/Run.antt =====
-- A client of include/ring.h that pushes and tightens in any order, as src/ring.c does.
use myclib.Prelude.{
  ℕ, ◌+◌, ◌*◌, ◌^◌, ◌≤◌, ◌<◌, ◌≡◌, refl, Option, some, List, [], ◌∷◌, ◌++◌, arith, ◌>>=◌, length,
  drop, length-append, length-drop,
}
use myclib.Ring.{Ring, ring_push_h, ring_tighten, ring_for_each_idx}
use myclib.Ring.Refine.{Holds, ring_push_h-append, ring_tighten-drop, ring_for_each_idx-Holds}

pub data Call (A : Type 0) : Type 0 where
  push : A → Call A
  tighten : ℕ → Call A

twice_mono : (a b s : ℕ) → a ≤ b → a * 2 * s ≤ b * 2 * s
twice_mono a b s h = grind arith

module _ {A : Type 0} where
  unfoldable pub run : Ring A → List (Call A) → Option (Ring A)
  run r [] = some r
  run r (push v ∷ calls) = ring_push_h r v >>= λ r'. run r' calls
  run r (tighten step ∷ calls) = run (ring_tighten r step) calls

  -- the queue after the same calls
  unfoldable pub queue : List A → List (Call A) → List A
  queue xs [] = xs
  queue xs (push v ∷ calls) = queue (xs ++ v ∷ []) calls
  queue xs (tighten step ∷ calls) = queue (drop step xs) calls

  unfoldable pub pushes : List (Call A) → ℕ
  pushes [] = 0
  pushes (push v ∷ calls) = pushes calls + 1
  pushes (tighten step ∷ calls) = pushes calls

  -- Any sequence of `ring_push_h` and `ring_tighten` succeeds, and a walk of the ring that it leaves
  -- sees the queue after the same calls, as long as `n` elements, all that are there or are pushed,
  -- twice over fit 32-bit sizes.
  pub run_refines :
      (calls : List (Call A)) {r : Ring A} {xs : List A} (n : ℕ)
      → Holds r xs
      → length xs + pushes calls ≤ n
      → n * 2 * r.size < 2 ^ 32
      → n * 2 ≤ 2 ^ 31
      → (r' : Ring A) × (run r calls ≡ some r')
        × Holds r' (queue xs calls)
        × (ring_for_each_idx r' ≡ some (queue xs calls))
  unfolding run queue pushes
  run_refines [] {r} n h fill fits small = (r, refl, h, ring_for_each_idx-Holds h)
  run_refines (push v ∷ calls) {r} {xs} n h fill fits small =
      let (m, done, hm, same) = ring_push_h-append v h (λ full. record {
        twice_fits =
            omega (
              arith,
              h.count,
              h.valid.count_in,
              twice_mono r.cap n r.size (omega (arith, h.count)),
            );
        twice_small = omega (arith, h.count);
      }) in
      rw (done, ◌>>=◌)
        (run_refines calls n hm (omega (arith, length-append xs (v ∷ []))) (rw same fits) small)
  run_refines (tighten step ∷ calls) {r} {xs} n h fill fits small =
      run_refines calls n (ring_tighten-drop step h) (omega (arith, length-drop step xs))
        (unfold ring_tighten in fits) small
