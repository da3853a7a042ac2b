-- ===== src/Fmt.antt =====
-- src/fmt.c: formatting of arguments by a format string.
-- `put` and what `cl` points to are parameters: `put c s` is the state that a call with the byte `c`
-- leaves, `none` if it faults; the code does not use what `put` returns. `readable s` says whether `cl`
-- points to memory in which the fields `cur` and `buf` of a `fmt_buf_t` can be read: `fmt_put` reads them
-- through every `cl` and does not use them. The variable arguments are a list of typed values; reading
-- one as another type is a fault, like a failed `assert`. A string is the list of its bytes before the 0.
pub mod Numbers
pub mod Sinks
pub mod Bounded
pub mod RoundTrip
mod Examples
use myclib.Prelude.{
  ℕ, zero, suc, ◌+◌, ◌-◌, ◌*◌, ◌/◌, ◌%◌, ◌^◌, Bool, true, false, Option, none, some, List, [], ◌∷◌,
  ◌++◌, ltb, leb, ◌==◌, ◌&&◌, if◌then◌else◌, ◌>>=◌, check, length, Block, malloc, load, store,
}

-- A value as `va_arg` takes it: an `int` or `unsigned` as 32 bits, a pointer as 64 bits, a `char *`,
-- which may be `NULL`, and a `str_t *` as its `len` bytes.
pub data Arg : Type 0 where
  word : (bits : ℕ) → Arg
  pointer : (bits : ℕ) → Arg
  chars : (bytes : List ℕ) → Arg
  null_chars : Arg
  str_t : (bytes : List ℕ) → Arg

-- an `int`
pub data ℤ : Type 0 where
  pos : (n : ℕ) → ℤ
  negsuc : (n : ℕ) → ℤ

-- 32 bits as an `int`
abbrev pub to_int : ℕ → ℤ
to_int bits = if ltb bits (2 ^ 31) then pos bits else negsuc (2 ^ 32 - 1 - bits)

abbrev pub neg : ℕ → ℤ
neg zero = pos 0
neg (suc n) = negsuc n

-- `m % 10 + '0'` and `m / 10`, which round to 0
abbrev pub int_digit : ℤ → ℕ
int_digit (pos n) = n % 10 + b'0'
int_digit (negsuc n) = b'0' - suc n % 10

abbrev pub int_tenth : ℤ → ℤ
int_tenth (pos n) = pos (n / 10)
int_tenth (negsuc n) = neg (suc n / 10)

abbrev pub is_positive : ℤ → Bool
is_positive (pos n) = ltb 0 n
is_positive (negsuc n) = false

-- The loop of `cvt_d`, with `room` bytes of `buf` in front of `p`, and those from `p` on.
pub int_loop : ℕ → ℤ → List ℕ → Option (ℕ × List ℕ)
int_loop zero m p = none
int_loop (suc room) m p =
    let more = int_loop room (int_tenth m) (int_digit m ∷ p) in
    if is_positive (int_tenth m) then more else some (room, int_digit m ∷ p)

-- `m` of `cvt_d`: at `INT_MIN` it is the `unsigned` 2 ^ 31 as an `int`
abbrev pub magnitude : ℤ → ℤ
magnitude (pos n) = pos n
magnitude (negsuc n) = if n == 2 ^ 31 - 1 then to_int (2 ^ 31 - 1 + 1) else pos (suc n)

-- `*--p = c`
abbrev pub push_front : ℕ → ℕ × List ℕ → Option (ℕ × List ℕ)
push_front c (zero, p) = none
push_front c (suc room, p) = some (room, c ∷ p)

abbrev pub push_sign : ℤ → ℕ × List ℕ → Option (ℕ × List ℕ)
push_sign (pos n) p = some p
push_sign (negsuc n) p = push_front b'-' p

-- The loops over digits of the unsigned conversions, as `int_loop`.
pub digit_loop : (base : ℕ) → (ℕ → ℕ) → ℕ → ℕ → List ℕ → Option (ℕ × List ℕ)
digit_loop base digit zero m p = none
digit_loop base digit (suc room) m p =
    let more = digit_loop base digit room (m / base) (digit (m % base) ∷ p) in
    if m / base == 0 then some (room, digit (m % base) ∷ p) else more

abbrev pub dec_digit : ℕ → ℕ
dec_digit d = d + b'0'

-- `"0123456789abcdef"[d]`
abbrev pub hex_digit : ℕ → ℕ
hex_digit d = if ltb d 10 then d + b'0' else d - 10 + b'a'

-- the texts that the conversions of numbers hand to `fmt_put`
unfoldable pub text_d : ℤ → Option (List ℕ)
unfolding int_loop
text_d val = do p ← int_loop 256 (magnitude val) []; p ← push_sign val p; some p.1

unfoldable pub text_u : ℕ → Option (List ℕ)
unfolding digit_loop
text_u m = do p ← digit_loop 10 dec_digit 43 m []; some p.1

unfoldable pub text_x : ℕ → Option (List ℕ)
unfolding digit_loop
text_x m = do p ← digit_loop 16 hex_digit 43 m []; some p.1

unfoldable pub text_p : ℕ → Option (List ℕ)
unfolding digit_loop
text_p m = do
  p ← digit_loop 16 hex_digit 43 m []
  p ← push_front b'x' p
  p ← push_front b'0' p
  some p.1

module _ {S : Type 0} (readable : S → Bool) (put : ℕ → S → Option S) where
  pub fmt_put : List ℕ → S → Option S
  fmt_put [] s = some s
  fmt_put (c ∷ str) s = if readable s then (do s ← put c s; fmt_put str s) else none

  pub cvt_c : List Arg → S → Option (S × List Arg)
  cvt_c (word bits ∷ args) s = do s ← put (bits % 256) s; some (s, args)
  cvt_c _ s = none

  pub cvt_d : List Arg → S → Option (S × List Arg)
  unfolding fmt_put text_d
  cvt_d (word bits ∷ args) s = do text ← text_d (to_int bits); s ← fmt_put text s; some (s, args)
  cvt_d _ s = none

  -- `cvt_f` and `cvt_o`, which are empty
  pub cvt_f : List Arg → S → Option (S × List Arg)
  cvt_f args s = some (s, args)

  pub cvt_p : List Arg → S → Option (S × List Arg)
  unfolding fmt_put text_p
  cvt_p (pointer bits ∷ args) s = do text ← text_p bits; s ← fmt_put text s; some (s, args)
  cvt_p _ s = none

  pub cvt_s : List Arg → S → Option (S × List Arg)
  unfolding fmt_put
  cvt_s (chars bytes ∷ args) s = do s ← fmt_put bytes s; some (s, args)
  cvt_s _ s = none

  pub cvt_u : List Arg → S → Option (S × List Arg)
  unfolding fmt_put text_u
  cvt_u (word bits ∷ args) s = do text ← text_u bits; s ← fmt_put text s; some (s, args)
  cvt_u _ s = none

  pub cvt_x : List Arg → S → Option (S × List Arg)
  unfolding fmt_put text_x
  cvt_x (word bits ∷ args) s = do text ← text_x bits; s ← fmt_put text s; some (s, args)
  cvt_x _ s = none

  pub cvt_v : List Arg → S → Option (S × List Arg)
  unfolding fmt_put
  cvt_v (str_t bytes ∷ args) s = do s ← fmt_put bytes s; some (s, args)
  cvt_v _ s = none

  -- the call of `cvt[c]`
  pub convert : ℕ → List Arg → S → Option (S × List Arg)
  unfolding cvt_c cvt_d cvt_f cvt_p cvt_s cvt_u cvt_v cvt_x
  convert c args s =
      if c == b'c'
      then cvt_c args s
      else if c == b'd'
      then cvt_d args s
      else if leb b'e' c && leb c b'g'
      then cvt_f args s
      else if c == b'o'
      then cvt_f args s
      else if c == b'p'
      then cvt_p args s
      else if c == b's'
      then cvt_s args s
      else if c == b'u'
      then cvt_u args s
      else if c == b'v'
      then cvt_v args s
      else if c == b'x'
      then cvt_x args s
      else none

  -- A format that ends in a lone `%` comes to the entry of the byte 0, which is `NULL`.
  pub fmt_vfmt : List ℕ → List Arg → S → Option (S × List Arg)
  unfolding convert
  fmt_vfmt [] args s = some (s, args)
  fmt_vfmt (c ∷ []) args s = if c == b'%' then none else (do s ← put c s; some (s, args))
  fmt_vfmt (c ∷ d ∷ fmt) args s =
      if c == b'%'
      then (if d == b'%'
          then (do s ← put d s; fmt_vfmt fmt args s)
          else (do (s, args) ← convert d args s; fmt_vfmt fmt args s))
      else (do s ← put c s; fmt_vfmt (d ∷ fmt) args s)

-- `fmt_buf_t`, with `buf` at the start of the block `str`, and `cur` and `end` as offsets in it.
pub record FmtBuf : Type 0 where
  pub str : Block ℕ
  pub cur : ℕ
  pub end : ℕ

unfoldable pub snput : ℕ → FmtBuf → Option FmtBuf
snput c cl =
    if ltb cl.cur cl.end
    then (do str ← store cl.str cl.cur c; some (record cl { str = str; cur = cl.cur + 1 }))
    else some cl

-- A `fmt_buf_t` has both fields.
abbrev pub has_fields : FmtBuf → Bool
has_fields cl = true

-- `memset(str, 0x0, size)`
unfoldable pub clear : Block ℕ → ℕ → Option (Block ℕ)
clear str size =
    check (leb size str.room)
      (some (record str { cell = λ k. if ltb k size then some 0 else str.cell k }))

-- `fmt_snprint` and `fmt_vsnprint`, for a size that is not negative: the count, and the block.
unfoldable pub fmt_snprint : Block ℕ → ℕ → List ℕ → List Arg → Option (ℕ × Block ℕ)
unfolding snput clear fmt_vfmt
fmt_snprint str size fmt args = do
  str ← clear str size
  (cl, args) ← fmt_vfmt has_fields snput fmt args (record { str = str; cur = 0; end = size })
  some (cl.cur, cl.str)
