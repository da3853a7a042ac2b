-- ===== src/Muniq/WholePages.antt =====
-- Files that fill their pages, for tools/muniq/muniq.c.
use myclib.Prelude.{
  take_all, get_elem?-some, ℕ, zero, suc, ◌+◌, ◌-◌, ◌*◌, ◌^◌, ◌≤◌, ◌<◌, ◌≡◌, ◌⊎◌, refl, ap, ◌∙◌,
  inl, inr, Bool-cases, true, false, none, some, List, [], ◌==◌, ltb, leb, length, arith,
}
use myclib.Outcome.{ok, fault}
use myclib.Muniq.{
  Memory, newline, load, map_file, strnchr, mark_lines, find_end, copy_loop, muniq, scan_repeat_str,
}
use myclib.Muniq.Ints.{fits_ints_lem}
use myclib.Muniq.Lines.{newlines, newlines-add, load-ok, First, First-later, one_newline}
use myclib.Muniq.Blocks.{count_lines, map_file-get, newlines-take}

-- The file ends where its mapping does.
module _ (file : List ℕ) where
  whole : Memory
  whole = map_file (length file) file

  whole_end : whole (length file) ≡ none
  unfolding whole
  whole_end = ground arith

  whole_get : (k : ℕ) → k < length file → (b : ℕ) × (whole k ≡ some b)
  unfolding whole
  whole_get k h =
      let (b, here) = get_elem?-some k file h in (b, map_file-get (length file) file k h ∙ here)

  load-fault : load whole (length file) ≡ fault
  unfolding load
  load-fault = ground (arith, whole_end)

  -- what a search for a newline up to the end of the mapping comes to
  abbrev Searched : ℕ → ℕ → Type 0
  Searched n p =
      (strnchr whole p newline n ≡ fault)
      ⊎ ((q : ℕ) × (strnchr whole p newline n ≡ ok (some q)) × First whole p n (some q))

  strnchr-Searched : (n p : ℕ) → p + n ≡ length file → Searched n p
  unfolding strnchr
  strnchr-Searched zero p e =
      let same : p ≡ length file = omega arith in inl (rw same (rw load-fault refl))
  strnchr-Searched (suc n) p e =
      let (b, at_p) = whole_get p (omega arith) in
      elim (Bool-cases (b == newline)) [
        | inl hit ↦
            let is_newline : b ≡ newline = ground arith in
            inr (
              p,
              rw (load-ok whole p b at_p) (rw hit refl),
              (
                omega arith,
                omega arith,
                at_p ∙ ap (λ (x : ℕ). some x) is_newline,
                one_newline whole p b at_p hit,
              ),
            )
        | inr miss ↦ elim (strnchr-Searched n (p + 1) (omega arith)) [
          | inl fails ↦ inl (rw (load-ok whole p b at_p) (rw miss fails))
          | inr (q, found, first) ↦ inr (
            q,
            rw (load-ok whole p b at_p) (rw miss found),
            First-later whole p n b (some q) at_p (ground arith) first,
          )
        ]
      ]

  -- With fewer lines left than entries to fill, the last search leaves the mapping.
  mark_lines-fault :
      (n p : ℕ)
      → p ≤ length file
      → newlines whole p (length file - p) < n
      → mark_lines whole (length file) n p ≡ fault
  unfolding mark_lines
  mark_lines-fault zero p h few = absurd (omega arith)
  mark_lines-fault (suc n) p h few = elim (strnchr-Searched (length file - p) p (omega arith)) [
    | inl fails ↦ rw fails refl
    | inr (q, found, first) ↦
        let e : q + 1 - p + (length file - (q + 1)) ≡ length file - p =
          omega (arith, first.0, first.1) in
        let g : p + (q + 1 - p) ≡ q + 1 = omega (arith, first.0) in
        let split = newlines-add whole (q + 1 - p) (length file - (q + 1)) p in
        let split' : newlines whole p (length file - p)
            ≡ newlines whole p (q + 1 - p) + newlines whole (q + 1) (length file - (q + 1)) =
          rw (← e) (split ∙ rw g refl) in
        rw found (
          rw (mark_lines-fault n (q + 1) (omega (arith, first.1)) (omega (arith, split', first.3)))
            refl)
  ]

  scan-fault :
      (most least : ℕ)
      → 0 < length file
      → count_lines file ≤ most * 2
      → scan_repeat_str whole 0 (length file) most least ≡ fault
  unfolding scan_repeat_str
  scan-fault most least nonempty few =
      let inside : leb (length file) 0 ≡ false = ground (arith, nonempty) in
      let lines : newlines whole 0 (length file - 0) ≡ count_lines file =
        let e : length file - 0 ≡ length file = omega arith in
        rw e (
          unfold whole in
          newlines-take (length file) file (length file) 0 (omega arith)
          ∙ ap count_lines (take_all (length file) file (omega arith))) in
      rw inside (rw (mark_lines-fault (most * 2 + 1) 0 (omega arith) (omega (arith, lines))) refl)

  find_end-fault :
      (most least : ℕ)
      → 0 < length file
      → count_lines file ≤ most * 2
      → find_end whole (length file) 0 (length file) most least ≡ fault
  unfolding find_end
  find_end-fault most least nonempty few = rw (scan-fault most least nonempty few) refl

  copy_loop-fault :
      (fuel most least : ℕ)
      → 0 < length file
      → count_lines file ≤ most * 2
      → copy_loop whole (length file) (length file) most least (suc fuel) 0 [] ≡ fault
  unfolding copy_loop
  copy_loop-fault fuel most least nonempty few =
      let more : ltb 0 (length file) ≡ true = ground (arith, nonempty) in
      rw more (rw (find_end-fault most least nonempty few) refl)

  -- A file that fills its pages and is not empty, of less than 2 ^ 31 octets, with at most twice as many lines as a repeated block
  -- may have, makes the program read behind the mapping.
  pub muniq_whole_pages :
      (max_repeat min_repeat : ℕ)
      → 0 < length file
      → length file < 2 ^ 31
      → max_repeat * 2 + 1 < 2 ^ 31
      → count_lines file ≤ max_repeat * 2
      → muniq (length file) max_repeat min_repeat file ≡ fault
  unfolding muniq
  muniq_whole_pages most least nonempty small lines few =
      let ints = fits_ints_lem (length file) most nonempty small lines in
      let fuel : length file + 1 ≡ suc (length file) = omega arith in
      let out : copy_loop (map_file (length file) file) (length file) (length file) most least
            (length file + 1) 0 []
          ≡ fault =
        rw fuel (unfold whole in copy_loop-fault (length file) most least nonempty few) in
      rw ints (rw out refl)
