-- ===== src/Str/Examples.antt =====
-- A search of src/str.c at concrete strings.
use myclib.Prelude.{ℕ, ◌+◌, ◌-◌, ◌≡◌, refl, Option, some, List, [], ◌∷◌, min, arith}
use myclib.Str.{Str, str_find, str_cmp, zero_sign}
use myclib.Str.Find.{First, str_find-First}

abbrev banana : List ℕ
banana = b'b' ∷ b'a' ∷ b'n' ∷ b'a' ∷ b'n' ∷ b'a' ∷ []

abbrev na : List ℕ
na = b'n' ∷ b'a' ∷ []

abbrev text : Str
text = record { len = 6; data_ptr = some banana }

abbrev part : Str
part = record { len = 2; data_ptr = some na }

find_test : str_find text 5 3 part ≡ some (some 4)
unfolding str_find
find_test = refl

-- bytes behind a 0 are not compared
cmp_test :
    str_cmp
      (record { len = 2; data_ptr = some (0 ∷ 1 ∷ []) })
      (record { len = 2; data_ptr = some (0 ∷ 2 ∷ []) })
    ≡ some zero_sign
unfolding str_cmp
cmp_test = refl

str_find-First_example :
    (r : Option ℕ) × (str_find text 5 3 part ≡ some r)
    × First banana na 2 ((5 - 3) + (3 - 5)) (min 5 3) r
str_find-First_example =
    str_find-First text part 5 3 banana na refl refl (omega arith) (omega arith) (omega arith)
      (ground arith) (omega arith) (omega arith)
