-- ===== src/Arr/Examples.antt =====
-- The functions of src/arr.c at a full array of two elements.
use myclib.Prelude.{
  ℕ, zero, suc, ◌≡◌, ◌<◌, refl, true, none, some, List, [], ◌∷◌, arith, ◌==◌, if◌then◌else◌,
  get_elem?,
}
use myclib.Arr.{Arr, arr_del, arr_for_each}
use myclib.Arr.Contents.{Holds, arr_for_each-Holds}
use myclib.Arr.Delete.{contains, erase, arr_del-erase}

abbrev pair : Arr ℕ
pair = record {
  elts = record { room = 2; cell = λ k. if k == 0 then some 7 else some 8 };
  nelts = 2;
  size = 4;
  nalloc = 2;
}

abbrev contents : List ℕ
contents = 7 ∷ 8 ∷ []

pair-elements : (k : ℕ) → k < 2 → pair.elts.cell k ≡ get_elem? contents k
pair-elements zero lt = refl
pair-elements (suc zero) lt = refl
pair-elements (suc (suc k)) lt = absurd (omega arith)

pair-Holds : Holds pair contents
pair-Holds = record { valid = omega arith; count = refl; elements = pair-elements }

abbrev bare : Arr ℕ
bare = record { elts = record { room = 0; cell = λ k. none }; nelts = 0; size = 4; nalloc = 0 }

arr_for_each-Holds_example : arr_for_each pair ≡ some contents
arr_for_each-Holds_example = arr_for_each-Holds pair-Holds

arr_del-erase_example :
    (a : Arr ℕ) × (arr_del (λ x. x == 7) pair ≡ some (true, a)) × Holds a (8 ∷ [])
unfolding contains erase
arr_del-erase_example = arr_del-erase (λ x. x == 7) pair-Holds
