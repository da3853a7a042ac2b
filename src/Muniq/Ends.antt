-- ===== src/Muniq/Ends.antt =====
-- The end of the next block of a text file, in the loop of `main` of tools/muniq/muniq.c.
use myclib.Prelude.{
  take-ext, take-snoc, drop-drop, get_elem?-some, ℕ, zero, suc, ◌+◌, ◌-◌, ◌≤◌, ◌<◌, ◌≡◌, ◌≢◌, refl,
  ◌∙◌, sym, inl, inr, Bool-cases, Bool, true, false, Option, none, some, List, [], ◌∷◌, ◌++◌, ◌==◌,
  length, take, drop, get_elem?, arith, take-drop_lem, length-drop, get_elem?-drop,
}
use myclib.Outcome.{ok}
use myclib.Muniq.{Memory, newline, map_file, strchr, find_end, scan_repeat_str}
use myclib.Muniq.Lines.{newlines, load-ok, Readable}
use myclib.Muniq.Repeats.{Repeated, Scanned, scan_repeat_str-Scan}
use myclib.Muniq.Found.{scan_repeat_str_finds}
use myclib.Muniq.Twice.{block_lines, block-Twice}
use myclib.Muniq.Blocks.{Unrepeated, map_file-get, map_file-Readable}

-- A text file: no octet is 0, and the last one is a newline.
pub record IsText (file : List ℕ) : Type 0 where
  pub octets : (k b : ℕ) → get_elem? file k ≡ some b → b ≢ 0
  pub last : (k : ℕ) → k + 1 ≡ length file → get_elem? file k ≡ some newline

module _ (mapped : ℕ) (file : List ℕ) (room : length file < mapped) (text : IsText file) where
  abbrev pub m : Memory
  m = map_file mapped file

  abbrev pub end : ℕ
  end = length file

  pub readable : Readable m end
  readable = map_file-Readable mapped file room

  strchr-line :
      (n p : ℕ)
      → p + n ≡ mapped
      → p < end
      → (q : ℕ) × (strchr m p n ≡ ok (some q))
        × (p ≤ q)
        × (q < end)
        × (m q ≡ some newline)
        × (newlines m p (q + 1 - p) ≡ 1)
  unfolding strchr newlines
  strchr-line zero p e h = absurd (omega arith)
  strchr-line (suc n) p e h =
      let (b, here) = get_elem?-some p file h in
      let at_p = map_file-get mapped file p h ∙ here in
      let step = load-ok m p b at_p in
      elim (Bool-cases (b == newline)) [
        | inl hit ↦
            let one : p + 1 - p ≡ suc 0 = omega arith in
            (
              p,
              rw step (rw hit refl),
              omega arith,
              h,
              at_p ∙ ground (arith, hit),
              rw one (ground (arith, at_p, hit)),
            )
        | inr miss ↦
            let nonzero : b == 0 ≡ false = ground (arith, text.octets p b here) in
            let more : p + 1 < end = ground (arith, text.last p, here) in
            let (q, result, lo, hi, nl, count) = strchr-line n (p + 1) (omega arith) more in
            let next : q + 1 - p ≡ suc (q + 1 - (p + 1)) = omega arith in
            (
              q,
              rw step (rw miss (rw nonzero result)),
              omega arith,
              hi,
              nl,
              rw next (ground (arith, at_p, count)),
            )
      ]

  -- What the search for the end of the next block comes to: the end of a line, or of a repeated block.
  pub record Ends (p least most q : ℕ) (is_repeat : Bool) : Type 0 where
    pub lo : p ≤ q
    pub hi : q < end
    pub nl : m q ≡ some newline
    pub once : is_repeat ≡ false → newlines m p (q + 1 - p) ≡ 1
    pub single : is_repeat ≡ false → Unrepeated least most (drop p file)
    pub twice : is_repeat ≡ true → Repeated m end readable p least most q

  abbrev pub FindsEnd : ℕ → ℕ → ℕ → Type 0
  FindsEnd p least most =
      (q : ℕ) × (is_repeat : Bool) × (find_end m mapped p end most least ≡ ok (q, is_repeat))
      × Ends p least most q is_repeat

  unrepeated :
      (p least most : ℕ)
      → scan_repeat_str m p end most least ≡ ok none
      → Unrepeated least most (drop p file)
  unrepeated p least most nothing c rest nonempty enough within twice =
      let lines = block_lines mapped file readable p c rest twice in
      scan_repeat_str_finds m end readable p (p + length c) least most
        (block-Twice mapped file readable p c rest twice nonempty) (omega (arith, lines))
        (omega (arith, lines)) nothing

  find_end_after :
      (p least most : ℕ) (o : Option ℕ)
      → p < end
      → scan_repeat_str m p end most least ≡ ok o
      → Scanned m end readable p least most o
      → FindsEnd p least most
  unfolding find_end
  find_end_after p least most none h result scanned =
      let (q, line_end, lo, hi, nl, count) = strchr-line (mapped - p) p (omega arith) h in
      (
        q,
        false,
        rw result (rw line_end refl),
        record {
          lo = lo;
          hi = hi;
          nl = nl;
          once = λ e. count;
          single = λ e. unrepeated p least most result;
          twice = λ e. cc;
        },
      )
  find_end_after p least most (some q) h result r = (
    q,
    true,
    rw result refl,
    record {
      lo = omega (arith, r.start);
      hi = r.within;
      nl = r.ends;
      once = λ e. cc;
      single = λ e. cc;
      twice = λ e. r;
    },
  )

  pub find_end-Ends : (p least most : ℕ) → p < end → FindsEnd p least most
  find_end-Ends p least most h =
      let (o, result, scanned) = scan_repeat_str-Scan m end readable p least most in
      find_end_after p least most o h result scanned

  -- The block of `n + 1` octets from `p` on, if the last one is a newline.
  pub block_lem :
      (p n : ℕ)
      → p + n < end
      → m (p + n) ≡ some newline
      → take (n + 1) (drop p file) ≡ take n (drop p file) ++ newline ∷ []
  block_lem p n h nl =
      let e : n + 1 ≡ suc n = omega arith in
      rw e (
        take-snoc n (drop p file) newline
          (get_elem?-drop p file n ∙ sym (map_file-get mapped file (p + n) h) ∙ nl))

  -- What follows the octets from `p` on, after `n` of them.
  pub rest_lem : (p n : ℕ) → drop p file ≡ take n (drop p file) ++ drop (p + n) file
  rest_lem p n = sym (rw (← drop-drop p n file) (take-drop_lem n (drop p file)))

  -- Two ranges with the same octets.
  pub same_block :
      (a b n : ℕ)
      → a + n ≤ end
      → b + n ≤ end
      → ((k : ℕ) → k < n → m (a + k) ≡ m (b + k))
      → take n (drop a file) ≡ take n (drop b file)
  same_block a b n h k same =
      take-ext n (drop a file) (drop b file) (omega (arith, length-drop a file))
        (omega (arith, length-drop b file))
        λ i lt.
          get_elem?-drop a file i
          ∙ sym (map_file-get mapped file (a + i) (omega arith))
          ∙ same i lt
          ∙ map_file-get mapped file (b + i) (omega arith)
          ∙ sym (get_elem?-drop b file i)
