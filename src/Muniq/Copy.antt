-- ===== src/Muniq/Copy.antt =====
-- The loop of `main` of tools/muniq/muniq.c on a text file.
use myclib.Prelude.{
  take_all, drop_all, ℕ, zero, suc, ◌+◌, ◌*◌, ◌^◌, ◌-◌, ◌≤◌, ◌<◌, ◌≡◌, refl, ap, ◌∙◌, sym, inl, inr,
  Bool-cases, Bool, true, false, some, List, [], ◌∷◌, ◌++◌, ltb, leb, if◌then◌else◌, length, take,
  drop, arith, length-drop, length-take, append_assoc, append-nil, length-append,
}
use myclib.Outcome.{ok}
use myclib.Muniq.{Memory, newline, map_file, find_end, copy_loop, muniq, zero_octets}
use myclib.Muniq.Lines.{newlines}
use myclib.Muniq.Blocks.{
  count_lines, Deduplicated, finish, line, repeat, cut_repeat, read-take, newlines-take,
  count_lines-snoc,
}
use myclib.Muniq.Ints.{fits_ints_lem}
use myclib.Muniq.Ends.{IsText, Ends, find_end-Ends, block_lem, rest_lem, same_block}

module _ (mapped : ℕ) (file : List ℕ) (room : length file < mapped) (text : IsText file) where
  abbrev m : Memory
  m = map_file mapped file

  abbrev end : ℕ
  end = length file

  -- what the loop does from `p` on, with `out` written
  abbrev Copies : ℕ → ℕ → ℕ → ℕ → List ℕ → Type 0
  Copies fuel least most p out =
      (ys : List ℕ) × (copy_loop m mapped end most least fuel p out ≡ ok (out ++ ys))
      × Deduplicated least most (drop p file) ys
      × (length ys ≤ end - p)

  -- the octets of a block but for its last newline
  abbrev content : ℕ → ℕ → List ℕ
  content p q = take (q - p) (drop p file)

  lines_of :
      (p least most q : ℕ) (is_repeat : Bool)
      → Ends mapped file room text p least most q is_repeat
      → newlines m p (q + 1 - p) ≡ count_lines (content p q) + 1
  lines_of p least most q is_repeat ends =
      let e : q + 1 - p ≡ q - p + 1 = omega (arith, ends.lo) in
      let at_q : m (p + (q - p)) ≡ some newline =
        let f : p + (q - p) ≡ q = omega (arith, ends.lo) in rw f ends.nl in
      newlines-take mapped file (q + 1 - p) p (omega (arith, ends.lo, ends.hi))
      ∙ ap count_lines
          (rw e (block_lem mapped file room text p (q - p) (omega (arith, ends.lo, ends.hi)) at_q))
      ∙ count_lines-snoc (content p q)

  block_of :
      (p least most q : ℕ) (is_repeat : Bool)
      → Ends mapped file room text p least most q is_repeat
      → take (q - p + 1) (drop p file) ≡ content p q ++ newline ∷ []
  block_of p least most q is_repeat ends =
      let f : p + (q - p) ≡ q = omega (arith, ends.lo) in
      block_lem mapped file room text p (q - p) (omega (arith, ends.lo, ends.hi)) (rw f ends.nl)

  length-block : (p q : ℕ) → p ≤ q → q < end → length (take (q - p + 1) (drop p file)) ≡ q - p + 1
  length-block p q lo hi = length-take (q - p + 1) (drop p file) (omega (arith, length-drop p file))

  copy_step :
      (fuel least most p q : ℕ) (out : List ℕ) (is_repeat : Bool)
      → p < end
      → length out ≤ p
      → find_end m mapped p end most least ≡ ok (q, is_repeat)
      → Ends mapped file room text p least most q is_repeat
      → copy_loop m mapped end most least (suc fuel) p out
        ≡ copy_loop m mapped end most least fuel
            (if is_repeat then p + (q - p + 1) + (q - p + 1) else p + (q - p + 1))
            (out ++ take (q - p + 1) (drop p file))
  unfolding copy_loop
  copy_step fuel least most p q out is_repeat h short result ends =
      let more : ltb p end ≡ true = ground arith in
      let fits : leb (length out + (q - p + 1)) mapped ≡ true = ground (arith, ends.lo, ends.hi) in
      rw more (
        rw result (
          rw (read-take mapped file (q - p + 1) p (omega (arith, ends.lo, ends.hi)))
            (rw fits refl)))

  first_of :
      (p least most q : ℕ)
      → Ends mapped file room text p least most q true
      → drop p file ≡ (content p q ++ newline ∷ []) ++ drop (p + (q - p + 1)) file
  first_of p least most q ends =
      rest_lem mapped file room text p (q - p + 1)
      ∙ ap (λ (zs : List ℕ). zs ++ drop (p + (q - p + 1)) file) (block_of p least most q true ends)

  -- The octets behind a block that is repeated are its own, but for the last one.
  content_again :
      (p least most q : ℕ)
      → Ends mapped file room text p least most q true
      → q + 1 + (q - p) ≤ end
      → take (q - p) (drop (p + (q - p + 1)) file) ≡ content p q
  content_again p least most q ends h =
      let e : p + (q - p + 1) ≡ q + 1 = omega (arith, ends.lo) in
      let r = ends.twice refl in
      rw e (
        sym (
          same_block mapped file room text p (q + 1) (q - p) (omega (arith, ends.lo)) (omega arith)
            (λ k lt. r.same k lt)))

  second_of :
      (p least most q : ℕ)
      → Ends mapped file room text p least most q true
      → q + 1 + (q - p) < end
      → m (q + 1 + (q - p)) ≡ some newline
      → drop (p + (q - p + 1)) file
        ≡ (content p q ++ newline ∷ []) ++ drop (p + (q - p + 1) + (q - p + 1)) file
  second_of p least most q ends inside nl =
      let next = p + (q - p + 1) in
      let f : next + (q - p) ≡ q + 1 + (q - p) = omega (arith, ends.lo) in
      let block = block_lem mapped file room text next (q - p) (omega arith) (rw f nl) in
      rest_lem mapped file room text next (q - p + 1)
      ∙ ap (λ (zs : List ℕ). zs ++ drop (next + (q - p + 1)) file)
          (block
            ∙ ap (λ (zs : List ℕ). zs ++ newline ∷ [])
                (content_again p least most q ends (omega arith)))

  last_of :
      (p least most q : ℕ)
      → Ends mapped file room text p least most q true
      → q + 1 + (q - p) ≡ end
      → drop (p + (q - p + 1)) file ≡ content p q
  last_of p least most q ends at_end =
      let next = p + (q - p + 1) in
      sym (take_all (q - p) (drop next file) (omega (arith, length-drop next file, ends.lo)))
      ∙ content_again p least most q ends (omega arith)

  no_more : (xs ys : List ℕ) → length ys ≡ 0 → xs ++ ys ≡ xs
  no_more xs [] h = append-nil xs
  no_more xs (y ∷ ys) h = absurd (omega arith)

  block-Deduplicated :
      (least most p q : ℕ) (is_repeat : Bool) (ys : List ℕ)
      → Ends mapped file room text p least most q is_repeat
      → let next = if is_repeat then p + (q - p + 1) + (q - p + 1) else p + (q - p + 1) in
        Deduplicated least most (drop next file) ys
        → length ys ≤ end - next
        → Deduplicated least most (drop p file) (take (q - p + 1) (drop p file) ++ ys)
  block-Deduplicated least most p q false ys ends rest short =
      line (content p q) (drop (p + (q - p + 1)) file) ys
        (omega (arith, lines_of p least most q false ends, ends.once refl)) (ends.single refl)
        (rest_lem mapped file room text p (q - p + 1)
          ∙ ap (λ (zs : List ℕ). zs ++ drop (p + (q - p + 1)) file)
              (block_of p least most q false ends))
        (ap (λ (zs : List ℕ). zs ++ ys) (block_of p least most q false ends)) rest
  block-Deduplicated least most p q true ys ends rest short =
      let r = ends.twice refl in
      let one_block = ap (λ (zs : List ℕ). zs ++ ys) (block_of p least most q true ends) in
      let first = first_of p least most q ends in
      let count = lines_of p least most q true ends in
      elim r.stops [
        | inr (inside, nl) ↦
            repeat (content p q) (drop (p + (q - p + 1) + (q - p + 1)) file) ys
              (omega (arith, count, r.enough)) (omega (arith, count, r.not_more))
              (first
                ∙ ap (λ (zs : List ℕ). (content p q ++ newline ∷ []) ++ zs)
                    (second_of p least most q ends inside nl))
              one_block rest
        | inl at_end ↦
            let none_left : length ys ≡ 0 = omega (arith, short, ends.lo) in
            cut_repeat (content p q) (omega (arith, count, r.enough))
              (omega (arith, count, r.not_more))
              (first
                ∙ ap (λ (zs : List ℕ). (content p q ++ newline ∷ []) ++ zs)
                    (last_of p least most q ends at_end))
              (one_block ∙ no_more (content p q ++ newline ∷ []) ys none_left)
      ]

  -- one round before the others
  copy_block :
      (fuel least most p q : ℕ) (out : List ℕ) (is_repeat : Bool)
      → p < end
      → length out ≤ p
      → find_end m mapped p end most least ≡ ok (q, is_repeat)
      → Ends mapped file room text p least most q is_repeat
      → Copies fuel least most
          (if is_repeat then p + (q - p + 1) + (q - p + 1) else p + (q - p + 1))
          (out ++ take (q - p + 1) (drop p file))
      → Copies (suc fuel) least most p out
  copy_block fuel least most p q out is_repeat h short result ends (ys, rest, dedup, fewer) =
      let block = take (q - p + 1) (drop p file) in
      (
        block ++ ys,
        rw (copy_step fuel least most p q out is_repeat h short result ends)
            (rw rest (rw (append_assoc out block ys) refl)),
        block-Deduplicated least most p q is_repeat ys ends dedup fewer,
        ground (
          arith,
          length-append block ys,
          length-block p q ends.lo ends.hi,
          fewer,
          ends.lo,
          ends.hi,
        ),
      )

  copy_loop-Copies :
      (fuel least most p : ℕ) (out : List ℕ)
      → end - p < fuel
      → length out ≤ p
      → Copies fuel least most p out
  copy_loop-Copies zero least most p out h short = absurd (omega arith)
  copy_loop-Copies (suc fuel) least most p out h short = elim (Bool-cases (ltb p end)) [
    | inl more ↦
        let (q, is_repeat, result, ends) =
          find_end-Ends mapped file room text p least most (ground arith) in
        copy_block fuel least most p q out is_repeat (ground arith) short result ends (
          copy_loop-Copies fuel least most _ _ (ground (arith, ends.lo)) (
            ground (
              arith,
              length-append out (take (q - p + 1) (drop p file)),
              length-block p q ends.lo ends.hi,
            )))
    | inr done ↦ (
      [],
      unfold copy_loop in rw done (ap (λ (zs : List ℕ). ok zs) (sym (append-nil out))),
      rw (drop_all p file (ground arith)) finish,
      omega arith,
    )
  ]

  zero_octets-le : (k n : ℕ) → k ≤ n → zero_octets (k - n) ≡ []
  zero_octets-le k n h = let e : k - n ≡ 0 = omega arith in rw e refl

  pub muniq-Deduplicated :
      (max_repeat min_repeat : ℕ)
      → 0 < length file
      → length file < 2 ^ 31
      → max_repeat * 2 + 1 < 2 ^ 31
      → (ys : List ℕ) × (muniq mapped max_repeat min_repeat file ≡ ok (ys, ltb (length ys) end))
        × Deduplicated min_repeat max_repeat file ys
        × (length ys ≤ end)
  unfolding muniq
  muniq-Deduplicated most least nonempty small lines =
      let ints = fits_ints_lem end most nonempty small lines in
      let (ys, result, dedup, fewer) =
        copy_loop-Copies (end + 1) least most 0 [] (omega arith) (omega arith) in
      (
        ys,
        rw ints (
            rw result (
              rw (take_all end ys (omega (arith, fewer))) (
                rw (zero_octets-le (length ys) end (omega (arith, fewer)))
                  (rw (append-nil ys) refl)))),
        dedup,
        omega (arith, fewer),
      )
