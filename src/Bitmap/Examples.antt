-- ===== src/Bitmap/Examples.antt =====
-- A bitmap of src/bitmap.c for numbers below 40.
use myclib.Prelude.{◌≡◌, refl, true, none, some, List, [], ◌∷◌, ◌>>=◌, arith}
use myclib.Bitmap.{bitmap_alloc, bitmap_get, bitmap_set}
use myclib.Bitmap.Run.{Change, set, clear, run, bitmap_get-run}

abbrev changes : List Change
changes = set 3 ∷ set 35 ∷ clear 3 ∷ set 31 ∷ []

bitmap_get-run_example : (run changes (bitmap_alloc true 40) >>= λ b. bitmap_get b 35) ≡ some true
bitmap_get-run_example = bitmap_get-run 40 changes 35 (omega arith) (omega arith) (omega arith)

-- No position is checked: one behind the words is outside the memory.
set_outside : bitmap_set (bitmap_alloc true 40) 64 ≡ none
unfolding bitmap_set bitmap_alloc
set_outside = refl
