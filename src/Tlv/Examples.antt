-- ===== src/Tlv/Examples.antt =====
-- A type map of include/tlv.h with a string and a number, and a value of each.
use myclib.Prelude.{ℕ, ◌+◌, ◌≡◌, refl, none, some, List, [], ◌∷◌, ◌++◌, length, arith}
use myclib.Tlv.{
  str, dword, Desc, Value, memory, Tlv, TypeMap, static_tb, tlv_set, tlv_new, tlv_pl_get, tlv_exec,
  tlv_type_desc_new,
}
use myclib.Tlv.RoundTrip.{arrived, tlv_pl_get-set}
use myclib.Tlv.Limits.{tlv_exec-new}

abbrev name_desc : Desc
name_desc = record { id = 1; fn_tb = record { kind = str; exec = 77 } }

abbrev types : TypeMap
types = none ∷ some name_desc ∷ some (record { id = 2; fn_tb = static_tb dword }) ∷ []

desc_test : tlv_type_desc_new 1 (static_tb str) 77 ≡ name_desc
unfolding tlv_type_desc_new
desc_test = refl

abbrev hi : Value
hi = memory (b'h' ∷ b'i' ∷ 0 ∷ [])

set_test : tlv_set 1 hi 2 types ≡ some (0 ∷ 1 ∷ 0 ∷ 2 ∷ b'h' ∷ b'i' ∷ [])
unfolding tlv_set
set_test = refl

get_test :
    tlv_pl_get types (0 ∷ 1 ∷ 0 ∷ 2 ∷ b'h' ∷ b'i' ∷ 9 ∷ [])
    ≡ some (some (arrived name_desc 1 hi 2, 9 ∷ []))
unfolding tlv_pl_get
get_test = refl

tlv_pl_get-set_example :
    (octets : List ℕ) × (tlv_set 1 hi 2 types ≡ some octets)
    × (length octets ≡ 4 + 2)
    × ((rest : List ℕ)
        → tlv_pl_get types (octets ++ rest) ≡ some (some (arrived name_desc 1 hi 2, rest)))
tlv_pl_get-set_example =
    tlv_pl_get-set types 1 name_desc hi 2 (omega arith) refl (2, refl, omega arith)

abbrev made : Tlv
made = record { fn_tb = static_tb str; id = 1; len = 2; val = memory (b'h' ∷ b'i' ∷ 0 ∷ []) }

new_test : tlv_new 1 hi 2 types ≡ some made
unfolding tlv_new
new_test = refl

exec_test : tlv_exec (λ exec tlv. exec + 1) made ≡ 0
exec_test = tlv_exec-new (λ exec tlv. exec + 1) types 1 hi 2 made new_test
