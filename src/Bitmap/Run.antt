-- ===== src/Bitmap/Run.antt =====
-- Sequences of calls of src/bitmap.c against the set of numbers that they leave.
use myclib.Prelude.{
  ℕ, ◌+◌, ◌*◌, ◌^◌, ◌≤◌, ◌<◌, ◌≡◌, Bool, true, false, Option, some, List, [], ◌∷◌, ◌==◌,
  if◌then◌else◌, ◌>>=◌, arith, All,
}
use myclib.Bitmap.{Bitmap, bitmap_alloc, bitmap_set, bitmap_get, bitmap_clear}
use myclib.Bitmap.Words.{
  Holds, update, bitmap_get-Holds, bitmap_set-Holds, bitmap_clear-Holds, bitmap_alloc-Holds,
}

pub data Change : Type 0 where
  set : ℕ → Change
  clear : ℕ → Change

abbrev pub position : Change → ℕ
position (set p) = p
position (clear p) = p

call : Change → Bitmap → Option Bitmap
call (set p) bmp = bitmap_set bmp p
call (clear p) bmp = bitmap_clear bmp p

unfoldable pub run : List Change → Bitmap → Option Bitmap
unfolding call
run [] bmp = some bmp
run (c ∷ cs) bmp = call c bmp >>= run cs

-- Whether a number is in the set after the changes, if it is as `b` says before them: the last change
-- at this number decides.
abbrev pub member : List Change → ℕ → Bool → Bool
member [] q b = b
member (set p ∷ cs) q b = member cs q (if p == q then true else b)
member (clear p ∷ cs) q b = member cs q (if p == q then false else b)

run_get :
    (cs : List Change) (bmp : Bitmap) (f : ℕ → Bool) (size q : ℕ)
    → Holds bmp f
    → size ≤ 32 * bmp.size
    → All (λ c. position c < size) cs
    → q < size
    → (run cs bmp >>= λ b. bitmap_get b q) ≡ some (member cs q (f q))
unfolding run
run_get [] bmp f size q holds room all lt = bitmap_get-Holds bmp f q holds (omega arith)
run_get (set p ∷ cs) bmp f size q holds room all lt =
    let (bmp', result, holds', same) = bitmap_set-Holds bmp f p holds (omega (arith, all.0)) in
    rw result (run_get cs bmp' (update f p true) size q holds' (omega (arith, same)) all.1 lt)
run_get (clear p ∷ cs) bmp f size q holds room all lt =
    let (bmp', result, holds', same) = bitmap_clear-Holds bmp f p holds (omega (arith, all.0)) in
    rw result (run_get cs bmp' (update f p false) size q holds' (omega (arith, same)) all.1 lt)

-- In a bitmap that is made for numbers below `size`, where `calloc` succeeds and the words can be
-- counted in 32 bits, any calls of `bitmap_set` and `bitmap_clear` at such numbers succeed, and
-- `bitmap_get` then returns whether the last one at its number has set it, and 0 if there was none.
pub bitmap_get-run :
    (size : ℕ) (cs : List Change) (q : ℕ)
    → size + 31 < 2 ^ 32
    → All (λ c. position c < size) cs
    → q < size
    → (run cs (bitmap_alloc true size) >>= λ b. bitmap_get b q) ≡ some (member cs q false)
bitmap_get-run size cs q fits all lt =
    let (holds, room) = bitmap_alloc-Holds size fits in
    run_get cs (bitmap_alloc true size) (λ p. false) size q holds room all lt
