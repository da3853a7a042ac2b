-- ===== src/Fmt/Sinks.antt =====
-- Where the bytes of src/fmt.c go.
use myclib.Prelude.{
  ℕ, ◌%◌, ◌≡◌, refl, sym, ◌∙◌, Bool, true, false, Option-cases, Option, none, some, List, [], ◌∷◌,
  ◌++◌, leb, ◌==◌, ◌&&◌, if◌then◌else◌, ◌>>=◌, arith, inl, inr,
}
use myclib.Fmt.{
  Arg, word, pointer, chars, null_chars, str_t, fmt_put, cvt_c, cvt_d, cvt_f, cvt_p, cvt_s, cvt_u,
  cvt_v, cvt_x, convert, fmt_vfmt, to_int, text_d, text_u, text_p, text_x,
}

-- What a conversion writes, and the arguments that it leaves: no sink is in sight.
abbrev number : (ℕ → Option (List ℕ)) → List Arg → Option (List ℕ × List Arg)
number text (word bits ∷ args) = do bytes ← text bits; some (bytes, args)
number text _ = none

abbrev address : List Arg → Option (List ℕ × List Arg)
address (pointer bits ∷ args) = do bytes ← text_p bits; some (bytes, args)
address _ = none

abbrev string : List Arg → Option (List ℕ × List Arg)
string (chars bytes ∷ args) = some (bytes, args)
string _ = none

abbrev view : List Arg → Option (List ℕ × List Arg)
view (str_t bytes ∷ args) = some (bytes, args)
view _ = none

abbrev piece : ℕ → List Arg → Option (List ℕ × List Arg)
piece c args =
    if c == b'c'
    then number (λ bits. some (bits % 256 ∷ [])) args
    else if c == b'd'
    then number (λ bits. text_d (to_int bits)) args
    else if leb b'e' c && leb c b'g'
    then some ([], args)
    else if c == b'o'
    then some ([], args)
    else if c == b'p'
    then address args
    else if c == b's'
    then string args
    else if c == b'u'
    then number text_u args
    else if c == b'v'
    then view args
    else if c == b'x'
    then number text_x args
    else none

abbrev pub behind : List ℕ → Option (List ℕ × List Arg) → Option (List ℕ × List Arg)
behind bytes none = none
behind bytes (some (out, args)) = some (bytes ++ out, args)

-- all bytes that a format and its arguments give, and the arguments that are left
abbrev pub output : List ℕ → List Arg → Option (List ℕ × List Arg)
output [] args = some ([], args)
output (c ∷ []) args = if c == b'%' then none else some (c ∷ [], args)
output (c ∷ d ∷ fmt) args =
    let after = output fmt args in
    let literal = output (d ∷ fmt) args in
    let converted = (do (bytes, args) ← piece d args; behind bytes (output fmt args)) in
    if c == b'%'
    then (if d == b'%' then behind (d ∷ []) after else converted)
    else behind (c ∷ []) literal

bind_ext :
    {A B : Type 0} (m : Option A) {f g : A → Option B}
    → ((a : A) → f a ≡ g a)
    → (m >>= f) ≡ (m >>= g)
bind_ext none h = refl
bind_ext (some a) h = h a

-- the bytes into a sink, one after the other
unfoldable pub puts : {S : Type 0} → (ℕ → S → Option S) → List ℕ → S → Option S
puts put [] s = some s
puts put (c ∷ str) s = do s ← put c s; puts put str s

-- A sink whose `cl` can always be read as a `fmt_buf_t`.
module _ {S : Type 0} (readable : S → Bool) (reads : (s : S) → readable s ≡ true)
    (put : ℕ → S → Option S) where
  fmt_put-puts : (xs : List ℕ) (s : S) → fmt_put readable put xs s ≡ puts put xs s
  unfolding fmt_put puts
  fmt_put-puts [] s = refl
  fmt_put-puts (x ∷ xs) s = elim (Option-cases (put x s)) [
    | inl e ↦ rw (reads s) (rw e refl)
    | inr (s', e) ↦ rw (reads s) (rw e (fmt_put-puts xs s'))
  ]

  puts-append : (xs ys : List ℕ) (s : S) → puts put (xs ++ ys) s ≡ (puts put xs s >>= puts put ys)
  unfolding puts
  puts-append [] ys s = refl
  puts-append (x ∷ xs) ys s = elim (Option-cases (put x s)) [
    | inl e ↦ rw e refl
    | inr (s', e) ↦ rw e (puts-append xs ys s')
  ]

  -- puts the bytes
  abbrev pub emit : Option (List ℕ × List Arg) → S → Option (S × List Arg)
  emit none s = none
  emit (some (bytes, args)) s = do s ← puts put bytes s; some (s, args)

  emit-behind :
      (bytes : List ℕ) (o : Option (List ℕ × List Arg)) (s : S)
      → emit (behind bytes o) s ≡ (puts put bytes s >>= emit o)
  emit-behind bytes none s = elim (Option-cases (puts put bytes s)) [
    | inl e ↦ rw e refl
    | inr (s', e) ↦ rw e refl
  ]
  emit-behind bytes (some (out, args)) s =
      rw (puts-append bytes out s)
        (elim (Option-cases (puts put bytes s)) [ inl e ↦ rw e refl | inr (s', e) ↦ rw e refl ])

  -- a conversion of a word to a text
  emit-number :
      (text : ℕ → Option (List ℕ)) (bits : ℕ) (args : List Arg) (s : S)
      → emit (number text (word bits ∷ args)) s
        ≡ (text bits >>= λ bytes. puts put bytes s >>= λ s'. some (s', args))
  emit-number text bits args s = elim (Option-cases (text bits)) [
    | inl e ↦ rw e refl
    | inr (bytes, e) ↦ rw e refl
  ]

  emit-address :
      (bits : ℕ) (args : List Arg) (s : S)
      → emit (address (pointer bits ∷ args)) s
        ≡ (text_p bits >>= λ bytes. puts put bytes s >>= λ s'. some (s', args))
  emit-address bits args s = elim (Option-cases (text_p bits)) [
    | inl e ↦ rw e refl
    | inr (bytes, e) ↦ rw e refl
  ]

  cvt_c-emit :
      (args : List Arg) (s : S)
      → cvt_c readable put args s ≡ emit (number (λ bits. some (bits % 256 ∷ [])) args) s
  unfolding cvt_c puts
  cvt_c-emit [] s = refl
  cvt_c-emit (word bits ∷ args) s = ground arith
  cvt_c-emit (pointer bits ∷ args) s = refl
  cvt_c-emit (chars bytes ∷ args) s = refl
  cvt_c-emit (null_chars ∷ args) s = refl
  cvt_c-emit (str_t bytes ∷ args) s = refl

  cvt_d-emit :
      (args : List Arg) (s : S)
      → cvt_d readable put args s ≡ emit (number (λ bits. text_d (to_int bits)) args) s
  unfolding cvt_d puts
  cvt_d-emit [] s = refl
  cvt_d-emit (word bits ∷ args) s =
      bind_ext (text_d (to_int bits)) (λ text. rw (fmt_put-puts text s) refl)
      ∙ sym (emit-number (λ bits. text_d (to_int bits)) bits args s)
  cvt_d-emit (pointer bits ∷ args) s = refl
  cvt_d-emit (chars bytes ∷ args) s = refl
  cvt_d-emit (null_chars ∷ args) s = refl
  cvt_d-emit (str_t bytes ∷ args) s = refl

  cvt_p-emit : (args : List Arg) (s : S) → cvt_p readable put args s ≡ emit (address args) s
  unfolding cvt_p puts
  cvt_p-emit [] s = refl
  cvt_p-emit (word bits ∷ args) s = refl
  cvt_p-emit (pointer bits ∷ args) s =
      bind_ext (text_p bits) (λ text. rw (fmt_put-puts text s) refl)
      ∙ sym (emit-address bits args s)
  cvt_p-emit (chars bytes ∷ args) s = refl
  cvt_p-emit (null_chars ∷ args) s = refl
  cvt_p-emit (str_t bytes ∷ args) s = refl

  cvt_s-emit : (args : List Arg) (s : S) → cvt_s readable put args s ≡ emit (string args) s
  unfolding cvt_s puts
  cvt_s-emit [] s = refl
  cvt_s-emit (word bits ∷ args) s = refl
  cvt_s-emit (pointer bits ∷ args) s = refl
  cvt_s-emit (chars bytes ∷ args) s = rw (fmt_put-puts bytes s) refl
  cvt_s-emit (null_chars ∷ args) s = refl
  cvt_s-emit (str_t bytes ∷ args) s = refl

  cvt_u-emit : (args : List Arg) (s : S) → cvt_u readable put args s ≡ emit (number text_u args) s
  unfolding cvt_u puts
  cvt_u-emit [] s = refl
  cvt_u-emit (word bits ∷ args) s =
      bind_ext (text_u bits) (λ text. rw (fmt_put-puts text s) refl)
      ∙ sym (emit-number text_u bits args s)
  cvt_u-emit (pointer bits ∷ args) s = refl
  cvt_u-emit (chars bytes ∷ args) s = refl
  cvt_u-emit (null_chars ∷ args) s = refl
  cvt_u-emit (str_t bytes ∷ args) s = refl

  cvt_v-emit : (args : List Arg) (s : S) → cvt_v readable put args s ≡ emit (view args) s
  unfolding cvt_v puts
  cvt_v-emit [] s = refl
  cvt_v-emit (word bits ∷ args) s = refl
  cvt_v-emit (pointer bits ∷ args) s = refl
  cvt_v-emit (chars bytes ∷ args) s = refl
  cvt_v-emit (null_chars ∷ args) s = refl
  cvt_v-emit (str_t bytes ∷ args) s = rw (fmt_put-puts bytes s) refl

  cvt_x-emit : (args : List Arg) (s : S) → cvt_x readable put args s ≡ emit (number text_x args) s
  unfolding cvt_x puts
  cvt_x-emit [] s = refl
  cvt_x-emit (word bits ∷ args) s =
      bind_ext (text_x bits) (λ text. rw (fmt_put-puts text s) refl)
      ∙ sym (emit-number text_x bits args s)
  cvt_x-emit (pointer bits ∷ args) s = refl
  cvt_x-emit (chars bytes ∷ args) s = refl
  cvt_x-emit (null_chars ∷ args) s = refl
  cvt_x-emit (str_t bytes ∷ args) s = refl

  emit_choice :
      (b : Bool) (s : S) {m m' : Option (S × List Arg)} (o o' : Option (List ℕ × List Arg))
      → m ≡ emit o s
      → m' ≡ emit o' s
      → (if b then m else m') ≡ emit (if b then o else o') s
  emit_choice true s o o' e e' = e
  emit_choice false s o o' e e' = e'

  convert-piece :
      (c : ℕ) (args : List Arg) (s : S) → convert readable put c args s ≡ emit (piece c args) s
  unfolding convert cvt_f puts
  convert-piece c args s = emit_choice (c == b'c') s _ _ (cvt_c-emit args s) (
      emit_choice (c == b'd') s _ _ (cvt_d-emit args s) (
        emit_choice (leb b'e' c && leb c b'g') s _ _ refl (
          emit_choice (c == b'o') s _ _ refl (
            emit_choice (c == b'p') s _ _ (cvt_p-emit args s) (
              emit_choice (c == b's') s _ _ (cvt_s-emit args s) (
                emit_choice (c == b'u') s _ _ (cvt_u-emit args s) (
                  emit_choice (c == b'v') s _ _ (cvt_v-emit args s)
                    (emit_choice (c == b'x') s _ _ (cvt_x-emit args s) refl))))))))

  emit-byte :
      (c : ℕ) (o : Option (List ℕ × List Arg)) (s : S)
      → emit (behind (c ∷ []) o) s ≡ (put c s >>= emit o)
  unfolding puts
  emit-byte c o s =
      rw (emit-behind (c ∷ []) o s)
        (elim (Option-cases (put c s)) [ inl e ↦ rw e refl | inr (s', e) ↦ rw e refl ])

  emit-after :
      (o : Option (List ℕ × List Arg)) (next : List Arg → Option (List ℕ × List Arg)) (s : S)
      → emit (o >>= λ x. behind x.0 (next x.1)) s ≡ (emit o s >>= λ x. emit (next x.1) x.0)
  emit-after none next s = refl
  emit-after (some (bytes, args)) next s =
      rw (emit-behind bytes (next args) s)
        (elim (Option-cases (puts put bytes s)) [ inl e ↦ rw e refl | inr (s', e) ↦ rw e refl ])

  -- The formatter puts the bytes of the output into every such sink, in order, and takes the same
  -- arguments. It faults exactly if the output does not exist or the sink faults.
  pub fmt_vfmt-output :
      (fmt : List ℕ) (args : List Arg) (s : S)
      → fmt_vfmt readable put fmt args s ≡ emit (output fmt args) s
  unfolding fmt_vfmt puts
  fmt_vfmt-output [] args s = refl
  fmt_vfmt-output (c ∷ []) args s =
      emit_choice (c == b'%') s none (some (c ∷ [], args)) refl (ground arith)
  fmt_vfmt-output (c ∷ d ∷ fmt) args s =
      let literal = (λ (s' : S). fmt_vfmt-output (d ∷ fmt) args s') in
      let after = (λ (s' : S). fmt_vfmt-output fmt args s') in
      let converted = (λ (x : S × List Arg). fmt_vfmt-output fmt x.1 x.0) in
      emit_choice (c == b'%') s _ _
        (emit_choice (d == b'%') s _ _
          (bind_ext (put d s) after ∙ sym (emit-byte d (output fmt args) s))
          (rw (convert-piece d args s) (bind_ext (emit (piece d args) s) converted)
            ∙ sym (emit-after (piece d args) (output fmt) s)))
        (bind_ext (put c s) literal ∙ sym (emit-byte c (output (d ∷ fmt) args) s))
