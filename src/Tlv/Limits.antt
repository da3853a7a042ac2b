-- ===== src/Tlv/Limits.antt =====
-- What include/tlv.h does not keep, and what it does not check.
use myclib.Prelude.{
  ℕ, ◌+◌, ◌*◌, ◌^◌, ◌≤◌, ◌≡◌, refl, Option, none, some, List, ◌∷◌, ◌>>=◌, length, get_elem?,
  get_elem?_beyond, arith,
}
use myclib.Tlv.{
  Kind, buf, null, word, dword, str, byte, Desc, Value, null_ptr, memory, number, Tlv, TypeMap, u16,
  init, init_buf, init_str, tlv_new, tlv_exec, tlv_pl_get,
}

init_buf-exec :
    (tlv : Tlv) (val : Value) (len : ℕ) (t : Tlv) → init_buf tlv val len ≡ some t → t.fn_tb.exec ≡ 0
init_buf-exec tlv null_ptr len t e = ground arith
init_buf-exec tlv (number n) len t e = ground arith
init_buf-exec tlv (memory bytes) len t e = ground arith

init_str-exec : (tlv : Tlv) (val : Value) (t : Tlv) → init_str tlv val ≡ some t → t.fn_tb.exec ≡ 0
init_str-exec tlv null_ptr t e = ground arith
init_str-exec tlv (number n) t e = ground arith
init_str-exec tlv (memory bytes) t e = ground arith

init-exec :
    (kind : Kind) (tlv : Tlv) (val : Value) (len : ℕ) (t : Tlv)
    → init kind tlv val len ≡ some t
    → t.fn_tb.exec ≡ 0
unfolding init
init-exec buf tlv val len t e = init_buf-exec tlv val len t e
init-exec null tlv val len t e = ground arith
init-exec word tlv val len t e = ground arith
init-exec dword tlv val len t e = ground arith
init-exec str tlv val len t e = init_str-exec tlv val t e
init-exec byte tlv val len t e = ground arith

entry-exec :
    (entry : Option (Option Desc)) (id : ℕ) (val : Value) (len : ℕ) (tlv : Tlv)
    → (entry >>= λ e. e >>= λ desc.
        init desc.fn_tb.kind
          (record { fn_tb = desc.fn_tb; id = id; len = u16 len; val = null_ptr })
          val
          len)
      ≡ some tlv
    → tlv.fn_tb.exec ≡ 0
entry-exec none id val len tlv e = ground arith
entry-exec (some none) id val len tlv e = ground arith
entry-exec (some (some desc)) id val len tlv e =
    init-exec desc.fn_tb.kind
      (record { fn_tb = desc.fn_tb; id = id; len = u16 len; val = null_ptr }) val len tlv e

-- A value that `tlv_new` makes has lost the function `exec` of its type: `tlv_exec` returns 0 without a
-- call, whatever was registered.
pub tlv_exec-new :
    (run : ℕ → Tlv → ℕ) (arr : TypeMap) (id : ℕ) (val : Value) (len : ℕ) (tlv : Tlv)
    → tlv_new id val len arr ≡ some tlv
    → tlv_exec run tlv ≡ 0
unfolding tlv_new tlv_exec
tlv_exec-new run arr id val len tlv e = rw (entry-exec (get_elem? arr id) id val len tlv e) refl

-- An id for which the type map has no entry makes `tlv_pl_get` read outside the map.
pub tlv_pl_get_outside :
    (arr : TypeMap) (a b c d : ℕ) (p : List ℕ)
    → length arr ≤ a * 2 ^ 8 + b
    → tlv_pl_get arr (a ∷ b ∷ c ∷ d ∷ p) ≡ none
unfolding tlv_pl_get
tlv_pl_get_outside arr a b c d p h = rw (get_elem?_beyond arr (a * 2 ^ 8 + b) h) refl
