-- ===== src/Tlv.antt =====
-- include/tlv.h: values with an id and a length, written into a payload and read from one.
-- What is written at `p` is the list of octets, in order; what a call may read at `p` is the list of the
-- octets there, and a read behind its end is a fault, `none`. A pointer to a function is a number, 0 for
-- `NULL`; the functions of a table but `exec` are told by its kind. Allocations succeed. An `unsigned
-- short` is 16 bits, and numbers are stored in the order of the network.
pub mod Octets
pub mod RoundTrip
pub mod Limits
mod Examples
use myclib.Prelude.{
  ℕ, zero, suc, ◌+◌, ◌-◌, ◌*◌, ◌/◌, ◌%◌, ◌^◌, Bool, true, false, Option, none, some, List, [], ◌∷◌,
  ◌++◌, ltb, leb, ◌==◌, if◌then◌else◌, ◌>>=◌, check, length, get_elem?, take, drop,
}

-- which of the six sets of functions
pub data Kind : Type 0 where
  buf : Kind
  null : Kind
  word : Kind
  dword : Kind
  str : Kind
  byte : Kind

-- `tlv_fn_tb_t`
pub record FnTb : Type 0 where
  pub kind : Kind
  pub exec : ℕ

-- `tlv_type_desc_t`
pub record Desc : Type 0 where
  pub id : ℕ
  pub fn_tb : FnTb

-- The value of a `tlv_t`: a pointer that is `NULL` or points to bytes, or a number.
pub data Value : Type 0 where
  null_ptr : Value
  memory : (bytes : List ℕ) → Value
  number : (n : ℕ) → Value

-- `tlv_t`, and the types that it is cast to
pub record Tlv : Type 0 where
  pub fn_tb : FnTb
  pub id : ℕ
  pub len : ℕ
  pub val : Value

-- the type map: `none` is an entry that is `NULL`
abbrev pub TypeMap : Type 0
TypeMap = List (Option Desc)

abbrev pub u16 : ℕ → ℕ
u16 n = n % 2 ^ 16

-- `PAYLOAD_SET` of 1, 2 and 4 bytes
abbrev pub set8 : ℕ → List ℕ
set8 n = n % 256 ∷ []

abbrev pub set16 : ℕ → List ℕ
set16 n = n / 2 ^ 8 % 256 ∷ n % 256 ∷ []

abbrev pub set32 : ℕ → List ℕ
set32 n = n / 2 ^ 24 % 256 ∷ n / 2 ^ 16 % 256 ∷ n / 2 ^ 8 % 256 ∷ n % 256 ∷ []

-- `PAYLOAD_GET` of 1, 2 and 4 bytes: the number, and what is behind it
abbrev pub get8 : List ℕ → Option (ℕ × List ℕ)
get8 (a ∷ p) = some (a, p)
get8 _ = none

abbrev pub get16 : List ℕ → Option (ℕ × List ℕ)
get16 (a ∷ b ∷ p) = some (a * 2 ^ 8 + b, p)
get16 _ = none

abbrev pub get32 : List ℕ → Option (ℕ × List ℕ)
get32 (a ∷ b ∷ c ∷ d ∷ p) = some (a * 2 ^ 24 + b * 2 ^ 16 + c * 2 ^ 8 + d, p)
get32 _ = none

-- `memcpy` of `n` bytes
abbrev pub copy : ℕ → List ℕ → Option (List ℕ)
copy n p = check (leb n (length p)) (some (take n p))

abbrev pub zeros : ℕ → List ℕ
zeros zero = []
zeros (suc n) = 0 ∷ zeros n

-- `strncpy` of `n` bytes, which stops to read at a 0
abbrev pub strncpy : ℕ → List ℕ → Option (List ℕ)
strncpy zero p = some []
strncpy (suc n) [] = none
strncpy (suc n) (c ∷ p) =
    let more = strncpy n p in
    if c == 0 then some (zeros (suc n)) else (more >>= λ bytes. some (c ∷ bytes))

-- `strlen`
abbrev pub strlen : List ℕ → Option ℕ
strlen [] = none
strlen (c ∷ p) = let more = strlen p in if c == 0 then some 0 else (more >>= λ n. some (suc n))

-- `PAYLOAD_SET_STR`
abbrev pub set_str : Value → ℕ → Option (List ℕ)
set_str null_ptr len = some []
set_str (memory bytes) len = if len == 0 then some [] else copy len bytes
set_str (number n) len = none

abbrev pub set_number : (ℕ → List ℕ) → Value → Option (List ℕ)
set_number set (number n) = some (set n)
set_number set _ = none

-- `tlv->fn_tb->pl_set`
unfoldable pub pl_set : Kind → Tlv → Option (List ℕ)
pl_set buf tlv = set_str tlv.val tlv.len
pl_set null tlv = some []
pl_set word tlv = set_number set16 tlv.val
pl_set dword tlv = set_number set32 tlv.val
pl_set str tlv = set_str tlv.val tlv.len
pl_set byte tlv = set_number set8 tlv.val

unfoldable pub tlv_pl_set : Tlv → Option (List ℕ)
unfolding pl_set
tlv_pl_set tlv = do
  payload ← pl_set tlv.fn_tb.kind tlv
  some (set16 tlv.id ++ set16 tlv.len ++ payload)

abbrev pub get_number : (List ℕ → Option (ℕ × List ℕ)) → Tlv → List ℕ → Option (Tlv × List ℕ)
get_number get tlv p = do (n, p) ← get p; some (record tlv { val = number n }, p)

-- `tlv->fn_tb->pl_get`
unfoldable pub pl_get : Kind → Tlv → List ℕ → Option (Tlv × List ℕ)
pl_get buf tlv p = do
  bytes ← copy tlv.len p
  some (record tlv { val = memory bytes }, drop tlv.len p)
pl_get null tlv p = some (tlv, p)
pl_get word tlv p = get_number get16 tlv p
pl_get dword tlv p = get_number get32 tlv p
pl_get str tlv p = do
  bytes ← strncpy tlv.len p
  some (record tlv { val = memory (bytes ++ 0 ∷ []) }, drop tlv.len p)
pl_get byte tlv p = get_number get8 tlv p

-- The inner option is `NULL`, or the value and the pointer behind it.
unfoldable pub tlv_pl_get : TypeMap → List ℕ → Option (Option (Tlv × List ℕ))
unfolding pl_get
tlv_pl_get arr p = do
  (id, p) ← get16 p
  (len, p) ← get16 p
  entry ← get_elem? arr id
  elim entry [
    | none ↦ some none
    | some desc ↦ do
      got ←
          pl_get desc.fn_tb.kind (record { fn_tb = desc.fn_tb; id = id; len = len; val = null_ptr })
            p
      some (some got)
  ]

-- the tables that are declared, without `exec`
abbrev pub static_tb : Kind → FnTb
static_tb kind = record { kind = kind; exec = 0 }

abbrev pub init_number : Kind → ℕ → ℕ → Tlv → Value → Option Tlv
init_number kind size modulus tlv (number n) =
    some (record tlv { fn_tb = static_tb kind; len = size; val = number (n % modulus) })
init_number kind size modulus tlv _ = none

abbrev pub init_buf : Tlv → Value → ℕ → Option Tlv
init_buf tlv (memory bytes) len = do
  copied ← copy len bytes
  some (record tlv { fn_tb = static_tb buf; len = u16 len; val = memory copied })
init_buf tlv _ len = none

abbrev pub init_str : Tlv → Value → Option Tlv
init_str tlv (memory bytes) = do
  n ← strlen bytes
  copied ← copy (u16 n) bytes
  some (record tlv { fn_tb = static_tb str; len = u16 n; val = memory (copied ++ 0 ∷ []) })
init_str tlv _ = none

-- `tlv->fn_tb->init`, with what `val` points to
unfoldable pub init : Kind → Tlv → Value → ℕ → Option Tlv
init buf tlv val len = init_buf tlv val len
init null tlv val len = some (record tlv { fn_tb = static_tb null; len = 0 })
init word tlv val len = init_number word 2 (2 ^ 16) tlv val
init dword tlv val len = init_number dword 4 (2 ^ 32) tlv val
init str tlv val len = init_str tlv val
init byte tlv val len = init_number byte 1 (2 ^ 8) tlv val

-- The value is `NULL` until `init` sets it; the value of the kind `null` is not set, and not used.
unfoldable pub tlv_new : ℕ → Value → ℕ → TypeMap → Option Tlv
unfolding init
tlv_new id val val_len arr = do
  entry ← get_elem? arr id
  desc ← entry
  init desc.fn_tb.kind (record { fn_tb = desc.fn_tb; id = id; len = u16 val_len; val = null_ptr })
      val val_len

unfoldable pub tlv_set : ℕ → Value → ℕ → TypeMap → Option (List ℕ)
unfolding tlv_new tlv_pl_set
tlv_set id val val_len arr = do tlv ← tlv_new id val val_len arr; tlv_pl_set tlv

abbrev pub replace : TypeMap → ℕ → Desc → TypeMap
replace [] i desc = []
replace (entry ∷ arr) zero desc = some desc ∷ arr
replace (entry ∷ arr) (suc i) desc = entry ∷ replace arr i desc

-- the old entry, and the map
unfoldable pub tlv_type_desc_map : TypeMap → Desc → Option (Option Desc × TypeMap)
tlv_type_desc_map arr desc = do tmp ← get_elem? arr desc.id; some (tmp, replace arr desc.id desc)

unfoldable pub tlv_type_desc_new : ℕ → FnTb → ℕ → Desc
tlv_type_desc_new id fn_tb exec = record { id = u16 id; fn_tb = record fn_tb { exec = exec } }

-- `run` is what the functions `exec` return.
unfoldable pub tlv_exec : (ℕ → Tlv → ℕ) → Tlv → ℕ
tlv_exec run tlv = if tlv.fn_tb.exec == 0 then 0 else run tlv.fn_tb.exec tlv
