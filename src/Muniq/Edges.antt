-- ===== src/Muniq/Edges.antt =====
-- Files that are one line without a newline, for tools/muniq/muniq.c.
use myclib.Prelude.{
  drop_step, drop_all, get_elem?-some, take-append, ℕ, zero, suc, ◌+◌, ◌*◌, ◌^◌, ◌-◌, ◌≤◌, ◌<◌, ◌≡◌,
  ◌≢◌, refl, ap, ◌∙◌, sym, inl, inr, Bool-cases, true, false, Option, none, some, List, [], ◌∷◌,
  ◌++◌, ◌==◌, ltb, leb, length, drop, get_elem?, arith, length-append,
}
use myclib.Outcome.{ok}
use myclib.Muniq.{Memory, newline, read, map_file, strchr, find_end, copy_loop, muniq}
use myclib.Muniq.Ints.{fits_ints_lem}
use myclib.Muniq.Lines.{load-ok}
use myclib.Muniq.Repeats.{Scanned, scan_repeat_str-Scan}
use myclib.Muniq.Blocks.{map_file-get, map_file-Readable}

-- A line that does not end: no octet is 0 or a newline.
pub record IsUnterminated (file : List ℕ) : Type 0 where
  pub nonempty : 0 < length file
  pub octets : (k b : ℕ) → get_elem? file k ≡ some b → (b ≢ 0) × (b ≢ newline)

module _ (mapped : ℕ) (file : List ℕ) (room : length file < mapped)
    (line : IsUnterminated file) where
  abbrev m : Memory
  m = map_file mapped file

  abbrev end : ℕ
  end = length file

  at_end : m end ≡ some 0
  at_end = ground arith

  strchr-none : (n p : ℕ) → p + n ≡ mapped → p ≤ end → strchr m p n ≡ ok none
  unfolding strchr
  strchr-none zero p e h = absurd (omega arith)
  strchr-none (suc n) p e h = elim (Bool-cases (p == end)) [
    | inl last ↦ let same : p ≡ end = ground arith in rw same (rw (load-ok m end 0 at_end) refl)
    | inr before ↦
        let (b, here) = get_elem?-some p file (ground arith) in
        let (nonzero, other) = line.octets p b here in
        let f : b == newline ≡ false = ground arith in
        let g : b == 0 ≡ false = ground arith in
        rw (load-ok m p b (map_file-get mapped file p (ground arith) ∙ here))
          (rw f (rw g (strchr-none n (p + 1) (omega arith) (ground arith))))
  ]

  no_block :
      (p least most : ℕ) (o : Option ℕ)
      → Scanned m end (map_file-Readable mapped file room) p least most o
      → o ≡ none
  no_block p least most none scanned = refl
  no_block p least most (some q) r =
      absurd ((line.octets q newline (sym (map_file-get mapped file q r.within) ∙ r.ends)).1 refl)

  find_end_all : (least most : ℕ) → find_end m mapped 0 end most least ≡ ok (end, false)
  unfolding find_end
  find_end_all least most =
      let (o, result, scanned) =
        scan_repeat_str-Scan m end (map_file-Readable mapped file room) 0 least most in
      rw (result ∙ ap (λ (x : Option ℕ). ok x) (no_block 0 least most o scanned))
        (rw (strchr-none (mapped - 0) 0 (omega arith) (omega arith)) refl)

  read_past : (n p : ℕ) → p + n ≡ end → read m p (suc n) ≡ ok (drop p file ++ 0 ∷ [])
  unfolding read
  read_past zero p e =
      let same : p ≡ end = omega arith in
      rw same (rw (load-ok m end 0 at_end) (rw (drop_all end file (omega arith)) refl))
  read_past (suc n) p e =
      let (b, here) = get_elem?-some p file (omega arith) in
      rw (load-ok m p b (map_file-get mapped file p (omega arith) ∙ here))
        (rw (drop_step p file b here) (rw (read_past n (p + 1) (omega arith)) refl))

  copy_done :
      (fuel least most p : ℕ) (out : List ℕ)
      → end ≤ p
      → copy_loop m mapped end most least (suc fuel) p out ≡ ok out
  unfolding copy_loop
  copy_done fuel least most p out h = let e : ltb p end ≡ false = ground arith in rw e refl

  copy_first :
      (fuel least most : ℕ)
      → copy_loop m mapped end most least (suc fuel) 0 []
        ≡ copy_loop m mapped end most least fuel (0 + (end - 0 + 1)) (file ++ 0 ∷ [])
  unfolding copy_loop
  copy_first fuel least most =
      let more : ltb 0 end ≡ true = ground (arith, line.nonempty) in
      let fits : leb (0 + (end - 0 + 1)) mapped ≡ true = ground arith in
      let all : read m 0 (end - 0 + 1) ≡ ok (file ++ 0 ∷ []) =
        let e : end - 0 + 1 ≡ suc end = omega arith in rw e (read_past end 0 (omega arith)) in
      rw more (rw (find_end_all least most) (rw all (rw fits refl)))

  -- A file that is one line without a newline, shorter than its mapping and than 2 ^ 31 octets, is
  -- written with an octet 0 behind it, one octet more than the input, and the program returns 0; the
  -- limits are such that `max_repeat * 2 + 1` is below 2 ^ 31.
  pub muniq_unterminated :
      (max_repeat min_repeat : ℕ)
      → length file < 2 ^ 31
      → max_repeat * 2 + 1 < 2 ^ 31
      → muniq mapped max_repeat min_repeat file ≡ ok (file ++ 0 ∷ [], false)
  unfolding muniq
  muniq_unterminated most least small lines =
      let ints = fits_ints_lem end most line.nonempty small lines in
      let size = length-append file (0 ∷ []) in
      let one_more : length (file ++ 0 ∷ []) - end ≡ suc 0 = omega (arith, size) in
      let longer : ltb (length (file ++ 0 ∷ [])) end ≡ false = ground (arith, size) in
      let fuel : end + 1 ≡ suc (suc (end - 1)) = omega (arith, line.nonempty) in
      let out : copy_loop m mapped end most least (end + 1) 0 [] ≡ ok (file ++ 0 ∷ []) = rw fuel (
        copy_first (suc (end - 1)) least most
        ∙ copy_done (end - 1) least most (0 + (end - 0 + 1)) (file ++ 0 ∷ []) (omega arith)) in
      rw ints (rw out (rw (take-append file (0 ∷ [])) (rw one_more (rw longer refl))))
