-- ===== src/Fmt/Bounded.antt =====
-- `fmt_snprint` of src/fmt.c, which writes into a buffer of bounded size.
use myclib.Prelude.{
  ℕ, zero, suc, ◌+◌, ◌-◌, ◌≤◌, ◌<◌, ◌≡◌, refl, ◌∙◌, true, false, Bool-cases, none, some, List, [],
  ◌∷◌, ltb, leb, ◌==◌, if◌then◌else◌, length, min, get_elem?, Block, arith, inl, inr,
}
use myclib.Fmt.{Arg, FmtBuf, has_fields, snput, clear, fmt_snprint}
use myclib.Fmt.Sinks.{output, puts, fmt_vfmt-output}

-- The bytes are in the buffer from `cur` on, as far as it reaches, and the cells around them are as they
-- were.
record Puts (bytes : List ℕ) (cl cl' : FmtBuf) : Type 0 where
  end_kept : cl'.end ≡ cl.end
  room_kept : cl'.str.room ≡ cl.str.room
  moved : cl'.cur ≡ min cl.end (cl.cur + length bytes)
  written : (k : ℕ) → cl.cur ≤ k → k < cl'.cur → cl'.str.cell k ≡ get_elem? bytes (k - cl.cur)
  low : (k : ℕ) → k < cl.cur → cl'.str.cell k ≡ cl.str.cell k
  high : (k : ℕ) → cl'.cur ≤ k → cl'.str.cell k ≡ cl.str.cell k

-- the buffer with a byte at `cur`
abbrev advanced : ℕ → FmtBuf → FmtBuf
advanced c cl = record {
  str = record { room = cl.str.room; cell = λ k. if k == cl.cur then some c else cl.str.cell k };
  cur = cl.cur + 1;
  end = cl.end;
}

snput_room :
    (c : ℕ) (cl : FmtBuf)
    → ltb cl.cur cl.end ≡ true
    → cl.end ≤ cl.str.room
    → snput c cl ≡ some (advanced c cl)
unfolding snput
snput_room c cl e h =
    let inside : ltb cl.cur cl.str.room ≡ true = ground arith in rw e (rw inside refl)

snput_full : (c : ℕ) (cl : FmtBuf) → ltb cl.cur cl.end ≡ false → snput c cl ≡ some cl
unfolding snput
snput_full c cl e = rw e refl

Puts-cons :
    (c : ℕ) (bytes : List ℕ) (cl cl' : FmtBuf)
    → cl.cur < cl.end
    → Puts bytes (advanced c cl) cl'
    → Puts (c ∷ bytes) cl cl'
Puts-cons c bytes cl cl' h p = record {
  end_kept = p.end_kept;
  room_kept = p.room_kept;
  moved = omega (arith, p.moved);
  written = λ k a b. elim (Bool-cases (k == cl.cur)) [
    | inl e ↦ ground (arith, p.low k)
    | inr e ↦
        let q : k - cl.cur ≡ suc (k - (cl.cur + 1)) = ground arith in
        rw q (p.written k (ground arith) b)
  ];
  low = λ k a. ground (arith, p.low k);
  high = λ k a. ground (arith, p.high k, p.moved);
}

Puts-full :
    (c : ℕ) (bytes : List ℕ) (cl cl' : FmtBuf)
    → cl.cur ≡ cl.end
    → Puts bytes cl cl'
    → Puts (c ∷ bytes) cl cl'
Puts-full c bytes cl cl' h p = record {
  end_kept = p.end_kept;
  room_kept = p.room_kept;
  moved = omega (arith, p.moved);
  written = λ k a b. absurd (omega (arith, p.moved));
  low = p.low;
  high = p.high;
}

puts-Puts :
    (bytes : List ℕ) (cl : FmtBuf)
    → cl.end ≤ cl.str.room
    → cl.cur ≤ cl.end
    → (cl' : FmtBuf) × (puts snput bytes cl ≡ some cl') × Puts bytes cl cl'
unfolding puts
puts-Puts [] cl h k = (
  cl,
  refl,
  record {
    end_kept = refl;
    room_kept = refl;
    moved = omega arith;
    written = λ k' a b. absurd (omega arith);
    low = λ k' a. refl;
    high = λ k' a. refl;
  },
)
puts-Puts (c ∷ bytes) cl h k = elim (Bool-cases (ltb cl.cur cl.end)) [
  | inl e ↦
      let lt : cl.cur < cl.end = ground arith in
      let (cl', e', p) = puts-Puts bytes (advanced c cl) h (omega arith) in
      (cl', rw (snput_room c cl e h) e', Puts-cons c bytes cl cl' lt p)
  | inr e ↦
      let (cl', e', p) = puts-Puts bytes cl h k in
      (cl', rw (snput_full c cl e) e', Puts-full c bytes cl cl' (ground arith) p)
]

-- the byte of a string, or of the zeros behind it
abbrev pub byte_at : List ℕ → ℕ → ℕ
byte_at out k = elim (get_elem? out k) [ none ↦ 0 | some c ↦ c ]

byte_at-some : (out : List ℕ) (k : ℕ) → k < length out → get_elem? out k ≡ some (byte_at out k)
byte_at-some [] k h = absurd (omega arith)
byte_at-some (c ∷ out) zero h = refl
byte_at-some (c ∷ out) (suc k) h = byte_at-some out k (omega arith)

byte_at_beyond : (out : List ℕ) (k : ℕ) → length out ≤ k → byte_at out k ≡ 0
byte_at_beyond [] k h = refl
byte_at_beyond (c ∷ out) zero h = absurd (omega arith)
byte_at_beyond (c ∷ out) (suc k) h = byte_at_beyond out k (omega arith)

-- the buffer that `fmt_snprint` starts with
abbrev started : Block ℕ → ℕ → FmtBuf
started str size = record {
  str = record { room = str.room; cell = λ k. if ltb k size then some 0 else str.cell k };
  cur = 0;
  end = size;
}

-- With room for `size` bytes, `fmt_snprint` never writes outside them: it leaves the first `size` bytes of
-- the output and zeros behind a shorter one, returns how many bytes of the output these are, and keeps
-- all cells from `size` on. It fails for no format that has an output.
pub fmt_snprint-output :
    (str : Block ℕ) (size : ℕ) (fmt : List ℕ) (args : List Arg) (out : List ℕ) (rest : List Arg)
    → size ≤ str.room
    → output fmt args ≡ some (out, rest)
    → (str' : Block ℕ) × (fmt_snprint str size fmt args ≡ some (min size (length out), str'))
      × (str'.room ≡ str.room)
      × ((k : ℕ) → k < size → str'.cell k ≡ some (byte_at out k))
      × ((k : ℕ) → size ≤ k → str'.cell k ≡ str.cell k)
unfolding fmt_snprint clear
fmt_snprint-output str size fmt args out rest h e =
    let inside : leb size str.room ≡ true = ground arith in
    let (cl', e', p) = puts-Puts out (started str size) h (omega arith) in
    let run = fmt_vfmt-output has_fields (λ cl. refl) snput fmt args (started str size) in
    let moved : cl'.cur ≡ min size (length out) = omega (arith, p.moved) in
    (
      cl'.str,
      rw inside (rw run (rw e (rw e' (rw moved refl)))),
      p.room_kept,
      λ k a. elim (Bool-cases (ltb k (length out))) [
        | inl b ↦
            let same : k - 0 ≡ k = omega arith in
            p.written k (omega arith) (ground arith) ∙ rw same (byte_at-some out k (ground arith))
        | inr b ↦ ground (arith, p.high k, byte_at_beyond out k)
      ],
      λ k a. ground (arith, p.high k),
    )
