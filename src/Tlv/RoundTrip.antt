-- ===== src/Tlv/RoundTrip.antt =====
-- Values that include/tlv.h writes into a payload, read back from it.
use myclib.Prelude.{
  length-take, ℕ, ◌+◌, ◌*◌, ◌/◌, ◌%◌, ◌^◌, ◌≤◌, ◌<◌, ◌≡◌, refl, sym, ap, ◌∙◌, Option, none, some,
  List, [], ◌∷◌, ◌++◌, append-nil, ◌>>=◌, length, get_elem?, take, arith,
}
use myclib.Tlv.{
  Kind, buf, null, word, dword, str, byte, FnTb, Desc, Value, null_ptr, memory, number, Tlv,
  TypeMap, u16, set8, set16, set32, copy, strlen, set_str, pl_set, tlv_pl_set, pl_get, tlv_pl_get,
  init, init_buf, init_str, tlv_new, tlv_set, static_tb,
}
use myclib.Tlv.Octets.{drop-append, copy_all, copy-append, le-strlen, strncpy-append}

-- What a caller may hand over for a kind: memory of at least the given length or a terminated string, of
-- less than 2 ^ 16 bytes, or a number of the size of the kind.
abbrev pub Fits : Kind → Value → ℕ → Type 0
Fits buf (memory bytes) len = (len ≤ length bytes) × (len < 2 ^ 16)
Fits null val len = Unit
Fits word (number n) len = n < 2 ^ 16
Fits dword (number n) len = n < 2 ^ 32
Fits str (memory bytes) len = (n : ℕ) × (strlen bytes ≡ some n) × (n < 2 ^ 16)
Fits byte (number n) len = n < 2 ^ 8
Fits _ _ len = ⊥

-- the length of the payload
abbrev pub size : Kind → Value → ℕ → ℕ
size buf val len = len
size null val len = 0
size word val len = 2
size dword val len = 4
size str (memory bytes) len = elim (strlen bytes) [ none ↦ 0 | some n ↦ n ]
size str _ len = 0
size byte val len = 1

-- the value of the other side
abbrev pub received : Kind → Value → ℕ → Value
received buf (memory bytes) len = memory (take len bytes)
received str (memory bytes) len = memory (take (size str (memory bytes) len) bytes ++ 0 ∷ [])
received word val len = val
received dword val len = val
received byte val len = val
received _ _ len = null_ptr

-- One kind: the payload of the value that `init` makes.
record Carried (kind : Kind) (tlv : Tlv) (val : Value) (len : ℕ) : Type 0 where
  made : Tlv
  payload : List ℕ
  made_by : init kind tlv val len ≡ some made
  kind_kept : made.fn_tb.kind ≡ kind
  id_kept : made.id ≡ tlv.id
  len_set : made.len ≡ size kind val len
  short : size kind val len < 2 ^ 16
  payload_set : pl_set kind made ≡ some payload
  payload_length : length payload ≡ size kind val len
  payload_got :
      (fn_tb : FnTb) (id : ℕ) (rest : List ℕ)
      → pl_get kind
          (record { fn_tb = fn_tb; id = id; len = size kind val len; val = null_ptr })
          (payload ++ rest)
        ≡ some (
          record { fn_tb = fn_tb; id = id; len = size kind val len; val = received kind val len },
          rest,
        )

-- the value that `init` makes of a number
abbrev numbered : Kind → Tlv → ℕ → ℕ → Tlv
numbered kind tlv n len = record tlv {
  fn_tb = static_tb kind;
  len = size kind (number n) len;
  val = number n;
}

Carried-number :
    (kind : Kind) (tlv : Tlv) (n len : ℕ) (payload : List ℕ)
    → init kind tlv (number n) len ≡ some (numbered kind tlv n len)
    → pl_set kind (numbered kind tlv n len) ≡ some payload
    → size kind (number n) len ≡ length payload
    → length payload ≤ 4
    → ((got : Tlv) (rest : List ℕ)
        → pl_get kind got (payload ++ rest)
          ≡ some (record got { val = received kind (number n) len }, rest))
    → Carried kind tlv (number n) len
Carried-number kind tlv n len payload e set l short get = record {
  made = numbered kind tlv n len;
  payload = payload;
  made_by = e;
  kind_kept = refl;
  id_kept = refl;
  len_set = refl;
  short = omega arith;
  payload_set = set;
  payload_length = sym l;
  payload_got = λ fn_tb id rest.
      get (record { fn_tb = fn_tb; id = id; len = size kind (number n) len; val = null_ptr }) rest;
}

-- a value of memory that `init` makes
abbrev filled : Kind → Tlv → List ℕ → ℕ → Tlv
filled kind tlv bytes len = record tlv { fn_tb = static_tb kind; len = len; val = memory bytes }

init_buf-Fits :
    (tlv : Tlv) (bytes : List ℕ) (len : ℕ)
    → len ≤ length bytes
    → len < 2 ^ 16
    → init_buf tlv (memory bytes) len ≡ some (filled buf tlv (take len bytes) len)
init_buf-Fits tlv bytes len h k =
    let e : u16 len ≡ len = omega arith in rw (copy_all len bytes h) (rw e refl)

init_str-Fits :
    (tlv : Tlv) (bytes : List ℕ) (n : ℕ)
    → strlen bytes ≡ some n
    → n < 2 ^ 16
    → init_str tlv (memory bytes) ≡ some (filled str tlv (take n bytes ++ 0 ∷ []) n)
init_str-Fits tlv bytes n e k =
    let e' : u16 n ≡ n = omega arith in
    rw e (rw e' (rw (copy_all n bytes (le-strlen bytes n e)) refl))

set_str-copy :
    (bytes : List ℕ) (len : ℕ) (out : List ℕ)
    → copy len bytes ≡ some out
    → set_str (memory bytes) len ≡ some out
set_str-copy bytes len out e = ground arith

Carried-init :
    (kind : Kind) (tlv : Tlv) (val : Value) (len : ℕ) → Fits kind val len → Carried kind tlv val len
unfolding init pl_set pl_get
Carried-init null tlv val len h = record {
  made = record tlv { fn_tb = static_tb null; len = 0 };
  payload = [];
  made_by = refl;
  kind_kept = refl;
  id_kept = refl;
  len_set = refl;
  short = omega arith;
  payload_set = refl;
  payload_length = refl;
  payload_got = λ fn_tb id rest. refl;
}
Carried-init word tlv (number n) len h =
    Carried-number word tlv n len (set16 n) (ap (λ m. some (numbered word tlv m len)) (omega arith))
      refl refl (omega arith)
      (λ got rest. ap (λ m. some (record got { val = number m }, rest)) (omega arith))
Carried-init dword tlv (number n) len h =
    Carried-number dword tlv n len (set32 n)
      (ap (λ m. some (numbered dword tlv m len)) (omega arith)) refl refl (omega arith)
      (λ got rest. ap (λ m. some (record got { val = number m }, rest)) (omega arith))
Carried-init byte tlv (number n) len h =
    Carried-number byte tlv n len (set8 n) (ap (λ m. some (numbered byte tlv m len)) (omega arith))
      refl refl (omega arith)
      (λ got rest. ap (λ m. some (record got { val = number m }, rest)) (omega arith))
Carried-init buf tlv (memory bytes) len (h, k) = record {
  made = filled buf tlv (take len bytes) len;
  payload = take len bytes;
  made_by = init_buf-Fits tlv bytes len h k;
  kind_kept = refl;
  id_kept = refl;
  len_set = refl;
  short = k;
  payload_set =
      set_str-copy (take len bytes) len (take len bytes)
        (ap (λ p. copy len p) (sym (append-nil (take len bytes))) ∙ copy-append len bytes [] h);
  payload_length = length-take len bytes h;
  payload_got =
      λ fn_tb id rest. rw (copy-append len bytes rest h) (rw (drop-append len bytes rest h) refl);
}
Carried-init str tlv (memory bytes) len (n, e, k) =
    let h = le-strlen bytes n e in
    let size_n : size str (memory bytes) len ≡ n = rw (e, size) refl in
    record {
      made = filled str tlv (take n bytes ++ 0 ∷ []) n;
      payload = take n bytes;
      made_by = init_str-Fits tlv bytes n e k;
      kind_kept = refl;
      id_kept = refl;
      len_set = sym size_n;
      short = rw size_n k;
      payload_set =
          set_str-copy (take n bytes ++ 0 ∷ []) n (take n bytes) (copy-append n bytes (0 ∷ []) h);
      payload_length = length-take n bytes h ∙ sym size_n;
      payload_got = λ fn_tb id rest.
          rw size_n (rw (strncpy-append bytes rest n e) (rw (drop-append n bytes rest h) refl));
    }
Carried-init buf tlv null_ptr len h = absurd h
Carried-init buf tlv (number n) len h = absurd h
Carried-init word tlv null_ptr len h = absurd h
Carried-init word tlv (memory bytes) len h = absurd h
Carried-init dword tlv null_ptr len h = absurd h
Carried-init dword tlv (memory bytes) len h = absurd h
Carried-init byte tlv null_ptr len h = absurd h
Carried-init byte tlv (memory bytes) len h = absurd h
Carried-init str tlv null_ptr len h = absurd h
Carried-init str tlv (number n) len h = absurd h

-- the value at the other side, whose table is that of the type map there
abbrev pub arrived : Desc → ℕ → Value → ℕ → Tlv
arrived desc id val len = record {
  fn_tb = desc.fn_tb;
  id = id;
  len = size desc.fn_tb.kind val len;
  val = received desc.fn_tb.kind val len;
}

-- `tlv_pl_get` behind the id and the length
abbrev after_header : TypeMap → List ℕ → ℕ → ℕ → Option (Option (Tlv × List ℕ))
after_header arr p id len = do
  entry ← get_elem? arr id
  elim entry [
    | none ↦ some none
    | some desc ↦ do
      got ←
          pl_get desc.fn_tb.kind (record { fn_tb = desc.fn_tb; id = id; len = len; val = null_ptr })
            p
      some (some got)
  ]

tlv_pl_get-header :
    (arr : TypeMap) (id len : ℕ) (p : List ℕ)
    → id < 2 ^ 16
    → len < 2 ^ 16
    → tlv_pl_get arr (set16 id ++ set16 len ++ p) ≡ after_header arr p id len
unfolding tlv_pl_get
tlv_pl_get-header arr id len p h k =
    let id' : id / 2 ^ 8 % 256 * 2 ^ 8 + id % 256 ≡ id = omega arith in
    let len' : len / 2 ^ 8 % 256 * 2 ^ 8 + len % 256 ≡ len = omega arith in
    ap (λ i. after_header arr p i (len / 2 ^ 8 % 256 * 2 ^ 8 + len % 256)) id'
    ∙ ap (after_header arr p id) len'

-- A value that fits the kind of its id is written in four octets and its payload, and `tlv_pl_get` reads
-- it back with the id, the length and the value, whatever follows, and stops behind it.
pub tlv_pl_get-set :
    (arr : TypeMap) (id : ℕ) (desc : Desc) (val : Value) (len : ℕ)
    → id < 2 ^ 16
    → get_elem? arr id ≡ some (some desc)
    → Fits desc.fn_tb.kind val len
    → (octets : List ℕ) × (tlv_set id val len arr ≡ some octets)
      × (length octets ≡ 4 + size desc.fn_tb.kind val len)
      × ((rest : List ℕ)
          → tlv_pl_get arr (octets ++ rest) ≡ some (some (arrived desc id val len, rest)))
unfolding tlv_set tlv_new tlv_pl_set tlv_pl_get
tlv_pl_get-set arr id desc val len h e f =
    let tlv : Tlv = record { fn_tb = desc.fn_tb; id = id; len = u16 len; val = null_ptr } in
    let c = Carried-init desc.fn_tb.kind tlv val len f in
    (
      set16 id ++ set16 (size desc.fn_tb.kind val len) ++ c.payload,
      rw e (rw c.made_by (rw c.kind_kept (rw c.payload_set (rw c.id_kept (rw c.len_set refl))))),
      omega (arith, c.payload_length),
      λ rest.
          tlv_pl_get-header arr id (size desc.fn_tb.kind val len) (c.payload ++ rest) h c.short
          ∙ rw e (rw (c.payload_got desc.fn_tb id rest) refl),
    )
