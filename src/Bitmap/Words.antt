-- ===== src/Bitmap/Words.antt =====
-- The set of numbers that a bitmap of src/bitmap.c stands for.
use Prim.Native.Nat.{bit_and, bit_or}
use mathlib.Core.Path.{subst}
use myclib.Prelude.{
  ℕ, ◌+◌, ◌-◌, ◌*◌, ◌/◌, ◌%◌, ◌^◌, ◌≤◌, ◌<◌, ◌≡◌, refl, ap, ◌∙◌, sym, inl, inr, Bool-cases, Bool,
  true, false, not, some, ◌==◌, ltb, if◌then◌else◌, u32, Block, load, store, arith,
}
use myclib.Bitmap.{
  Bitmap, bitmap_alloc, bitmap_set, bitmap_get, bitmap_clear, bit_mask, set_word, zeroed,
}
use myclib.Bitmap.Bits.{
  bit, bit-or, bit-and, bit-le, bit-zero, no_bits-zero, bit-power, power-lt, bit-complement,
}

-- a set of numbers, with one of them put in or taken out
abbrev pub update : (ℕ → Bool) → ℕ → Bool → ℕ → Bool
update f p b q = if p == q then b else f q

-- The bitmap has room for `size` words and holds exactly the numbers of the set, of those for which
-- it has a bit.
pub record Holds (bmp : Bitmap) (f : ℕ → Bool) : Type 0 where
  pub words : Block ℕ
  pub here : bmp.bitmap ≡ some words
  pub room : words.room ≡ bmp.size
  pub bits :
      (q : ℕ)
      → q < 32 * bmp.size
      → (w : ℕ) × (words.cell (q / 32) ≡ some w) × (bit w (q % 32) ≡ (if f q then 1 else 0))

-- The test of a bit.
test_word :
    (w j : ℕ) (b : Bool) → bit w j ≡ (if b then 1 else 0) → not (bit_and w (bit_mask j) == 0) ≡ b
test_word w j true h =
    let e : bit (bit_and w (2 ^ j)) j ≡ 1 = ground (arith, bit-and j w (2 ^ j), bit-power j j) in
    elim (Bool-cases (bit_and w (2 ^ j) == 0)) [
      | inl z ↦
          let gone : bit_and w (2 ^ j) ≡ 0 = ground arith in
          absurd (
            let f : bit 0 j ≡ 1 = subst (λ (x : ℕ). bit x j ≡ 1) gone e in
            omega (arith, f, bit-zero j))
      | inr z ↦ rw z refl
    ]
test_word w j false h =
    let e : bit_and w (2 ^ j) ≡ 0 =
      no_bits-zero (bit_and w (2 ^ j)) (λ k. ground (arith, bit-and k w (2 ^ j), bit-power j k)) in
    rw e refl

pub bitmap_get-Holds :
    (bmp : Bitmap) (f : ℕ → Bool) (p : ℕ)
    → Holds bmp f
    → p < 32 * bmp.size
    → bitmap_get bmp p ≡ some (f p)
unfolding bitmap_get
bitmap_get-Holds bmp f p h lt =
    let (w, at_p, set) = h.bits p lt in
    let inside : ltb (p / 32) h.words.room ≡ true = ground (arith, h.room) in
    rw h.here (rw inside (rw at_p (ap (λ (b : Bool). some b) (test_word w (p % 32) (f p) set))))

-- A store of a word that differs in one bit.
module _ (bmp : Bitmap) (f : ℕ → Bool) (p : ℕ) (h : Holds bmp f) (lt : p < 32 * bmp.size) where
  abbrev word : ℕ
  word = (h.bits p lt).0

  -- the words after the store
  abbrev changed : ℕ → Block ℕ
  changed v = record h.words { cell = λ k. if k == p / 32 then some v else h.words.cell k }

  changed_bits :
      (v : ℕ) (b : Bool)
      → ((k : ℕ) → k < 32 → bit v k ≡ (if p % 32 == k then (if b then 1 else 0) else bit word k))
      → (q : ℕ) → q < 32 * bmp.size
      → (w : ℕ) × ((changed v).cell (q / 32) ≡ some w)
        × (bit w (q % 32) ≡ (if update f p b q then 1 else 0))
  changed_bits v b bits q within =
      let (w, at_q, set) = h.bits q within in
      elim (Bool-cases (q / 32 == p / 32)) [
        | inl e ↦
            let same : q / 32 ≡ p / 32 = ground arith in
            let one_word : w ≡ word =
              let both : some w ≡ some word = sym at_q ∙ ap h.words.cell same ∙ (h.bits p lt).1 in
              cc in
            (
              v,
              rw e refl,
              ground (arith, bits (q % 32), set, one_word, ap (λ (x : ℕ). bit x (q % 32)) one_word),
            )
        | inr e ↦ (w, rw e at_q, ground (arith, set))
      ]

  store-bit :
      (v : ℕ) (b : Bool)
      → ((k : ℕ) → k < 32 → bit v k ≡ (if p % 32 == k then (if b then 1 else 0) else bit word k))
      → (store h.words (p / 32) v ≡ some (changed v))
        × Holds (set_word bmp (changed v)) (update f p b)
  store-bit v b bits =
      let inside : ltb (p / 32) h.words.room ≡ true = ground (arith, h.room) in
      (
        rw inside refl,
        record { words = changed v; here = refl; room = h.room; bits = changed_bits v b bits },
      )

  load-word : load h.words (p / 32) ≡ some word
  load-word =
      let inside : ltb (p / 32) h.words.room ≡ true = ground (arith, h.room) in
      rw inside (h.bits p lt).1

  pub bitmap_set-Holds :
      (bmp' : Bitmap) × (bitmap_set bmp p ≡ some bmp')
      × Holds bmp' (update f p true)
      × (bmp'.size ≡ bmp.size)
  unfolding bitmap_set
  bitmap_set-Holds =
      let v = bit_or word (bit_mask (p % 32)) in
      let (stored, holds) = store-bit v true (λ k within.
        ground (arith, bit-or k word (2 ^ (p % 32)), bit-power (p % 32) k, bit-le k word)) in
      (set_word bmp (changed v), rw h.here (rw load-word (rw stored refl)), holds, refl)

  pub bitmap_clear-Holds :
      (bmp' : Bitmap) × (bitmap_clear bmp p ≡ some bmp')
      × Holds bmp' (update f p false)
      × (bmp'.size ≡ bmp.size)
  unfolding bitmap_clear
  bitmap_clear-Holds =
      let mask = 2 ^ 32 - 1 - 2 ^ (p % 32) in
      let v = bit_and word mask in
      let (stored, holds) = store-bit v false (λ k within. ground (
        arith,
        bit-and k word mask,
        bit-complement 32 k (2 ^ (p % 32)) (power-lt (p % 32) 32 (omega arith)) within,
        bit-power (p % 32) k,
        bit-le k word,
      )) in
      (set_word bmp (changed v), rw h.here (rw load-word (rw stored refl)), holds, refl)

-- A bitmap that is made for numbers below `size` holds none.
pub bitmap_alloc-Holds :
    (size : ℕ)
    → size + 31 < 2 ^ 32
    → Holds (bitmap_alloc true size) (λ q. false) × (size ≤ 32 * (bitmap_alloc true size).size)
unfolding bitmap_alloc bit
bitmap_alloc-Holds size h =
    let n = u32 (size + 31) / 32 in
    (
      record {
        words = zeroed n;
        here = refl;
        room = refl;
        bits = λ q lt. (0, refl, bit-zero (q % 32));
      },
      omega arith,
    )
