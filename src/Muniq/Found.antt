-- ===== src/Muniq/Found.antt =====
-- `scan_repeat_str` of tools/muniq/muniq.c overlooks no block of lines that stands twice.
use mathlib.Core.Path.{subst}
use myclib.Prelude.{
  ℕ, zero, suc, ◌+◌, ◌-◌, ◌*◌, ◌≤◌, ◌<◌, ◌≡◌, ◌≢◌, refl, ap, ◌∙◌, sym, inl, inr, Bool-cases,
  Option-cases, Bool, true, false, not, Option, none, some, List, ◌==◌, ltb, leb, if◌then◌else◌,
  get_elem?, arith,
}
use myclib.Outcome.{Result, ok}
use myclib.Muniq.{Memory, newline, memcmp, mark_or, longest_repeat, scan_repeat_str}
use myclib.Muniq.Lines.{
  newlines, load-ok, Readable, Marks, Complete, mark_lines-Marks, newlines_two,
}
use myclib.Muniq.Repeats.{memcmp-SameOctets, compare_blocks, mark_or-Stop}

module _ (m : Memory) (end : ℕ) (readable : Readable m end) where
  memcmp-true :
      (n a b : ℕ)
      → a + n ≤ end
      → b + n ≤ end
      → ((k : ℕ) → k < n → m (a + k) ≡ m (b + k))
      → memcmp m a b n ≡ ok true
  unfolding memcmp
  memcmp-true zero a b h k same = refl
  memcmp-true (suc n) a b h k same =
      let (x, at_a) = readable a (omega arith) in
      let e : a + 0 ≡ a = omega arith in
      let f : b + 0 ≡ b = omega arith in
      let at_b : m b ≡ some x = ap m (sym f) ∙ sym (same 0 (omega arith)) ∙ ap m e ∙ at_a in
      let eq : x == x ≡ true = ground arith in
      rw (load-ok m a x at_a) (
        rw (load-ok m b x at_b) (
          rw eq (
            memcmp-true n (a + 1) (b + 1) (omega arith) (omega arith) λ i lt.
              let g : a + 1 + i ≡ a + suc i = omega arith in
              let h' : b + 1 + i ≡ b + suc i = omega arith in
              rw g (rw h' (same (suc i) (omega arith))))))

  -- The block from `p` to the newline at `q` is more than a newline and stands once more behind it.
  pub record Twice (p q : ℕ) : Type 0 where
    pub start : p < q
    pub within : q + 1 + (q - p) < end
    pub ends : m q ≡ some newline
    pub ends_again : m (q + 1 + (q - p)) ≡ some newline
    pub same : (k : ℕ) → k < q - p → m (p + k) ≡ m (q + 1 + k)
    pub same_lines :
        newlines m p (q + 1 + (q - p) + 1 - p) ≡ newlines m p (q + 1 - p) + newlines m p (q + 1 - p)

  -- A repeated block is found.
  abbrev Hits : Result (Option ℕ) → Type 0
  Hits r = (q : ℕ) × (r ≡ ok (some q))

  Hits-if :
      (b : Bool) (x y : Result (Option ℕ))
      → (b ≡ true → Hits x)
      → (b ≡ false → Hits y)
      → Hits (if b then x else y)
  Hits-if true x y h k = h refl
  Hits-if false x y h k = k refl

  compare_blocks-Hits :
      (p p2 p3 : ℕ) (next : Result (Option ℕ))
      → p < p2
      → p2 < end
      → p3 ≤ end
      → Hits next
      → Hits (compare_blocks m end readable p p2 p3 next)
  compare_blocks-Hits p p2 p3 next lo hi le hits =
      Hits-if (p == p2) _ _ (λ e. absurd (ground arith))
        λ other.
          Hits-if (not (p3 - p2 == p2 - p + 1)) _ _ (λ e. hits)
            λ e.
              let at : p2 + 1 + (p2 - p) ≡ p3 = ground arith in
              let (same, result, eq) =
                memcmp-SameOctets m end readable (p2 - p) p (p2 + 1) (omega arith) (omega arith) in
              rw result (Hits-if same _ _ (λ s. (p2, refl)) (λ s. hits))

  compare-Twice :
      (p q : ℕ) (next : Result (Option ℕ))
      → Twice p q
      → Hits (compare_blocks m end readable p q (q + 1 + (q - p)) next)
  compare-Twice p q next t =
      let same =
        memcmp-true (q - p) p (q + 1) (omega (arith, t.start, t.within)) (omega (arith, t.within))
          t.same in
      Hits-if (p == q) _ _ (λ e. absurd (ground (arith, t.start)))
        λ other.
          Hits-if (not (q + 1 + (q - p) - q == q - p + 1)) _ _ (λ e. absurd (ground arith))
            λ e. rw same (q, refl)

  mark_or-some : (marks : List ℕ) (i q : ℕ) → get_elem? marks i ≡ some q → mark_or marks i end ≡ q
  mark_or-some marks i q h = rw (h, mark_or) refl

  abbrev round : ℕ → List ℕ → ℕ → Result (Option ℕ) → Result (Option ℕ)
  round p marks k next = elim (get_elem? marks k) [
    | none ↦ next
    | some p2 ↦ compare_blocks m end readable p p2 (mark_or marks (suc k * 2 - 1) end) next
  ]

  module _ (p q k least n : ℕ) (marks : List ℕ) (all : Marks m end readable p marks)
      (complete : Complete m end readable n p marks) (twice : Twice p q)
      (lines : newlines m p (q + 1 - p) ≡ suc k) (enough : least ≤ suc k)
      (rounds : k + k + 1 < n) where
    hit_here : (next : Result (Option ℕ)) → Hits (round p marks k next)
    hit_here next =
        let first =
          complete q k (omega (arith, twice.start)) (omega (arith, twice.within)) twice.ends lines
            (omega arith) in
        let second =
          complete (q + 1 + (q - p)) (suc k * 2 - 1) (omega (arith, twice.start)) twice.within
            twice.ends_again (omega (arith, twice.same_lines, lines)) (omega arith) in
        let p3 = mark_or-some marks (suc k * 2 - 1) (q + 1 + (q - p)) second in
        rw (first, round) (rw p3 (compare-Twice p q next twice))

    hit_later : (j : ℕ) (next : Result (Option ℕ)) → k < j → Hits next → Hits (round p marks j next)
    hit_later j next lt hits = elim (Option-cases (get_elem? marks j)) [
      | inl missing ↦ rw (missing, round) hits
      | inr (p2, found) ↦
          let (lo, hi, nl, count) = all j p2 found in
          let more = newlines_two m p p2 q lo in
          rw (found, round)
            (compare_blocks-Hits p p2 (mark_or marks (suc j * 2 - 1) end) next
              (ground (arith, more, twice.start, twice.ends, lines, count)) hi
              (ground (arith, mark_or-Stop m end readable p (suc j * 2 - 1) marks all)) hits)
    ]

    longest_repeat-Hits : (most : ℕ) → k < most → Hits (longest_repeat m p end most least marks)
    unfolding longest_repeat
    longest_repeat-Hits zero lt = absurd (omega arith)
    longest_repeat-Hits (suc j) lt =
        Hits-if (ltb (suc j) least) _ _ (λ e. absurd (ground arith))
          λ e. elim (Bool-cases (k == j)) [
            | inl here ↦
                let same : k ≡ j = ground arith in
                let next = longest_repeat m p end j least marks in
                subst (λ (i : ℕ). Hits (round p marks i next)) same (hit_here next)
            | inr later ↦
                hit_later j (longest_repeat m p end j least marks) (ground arith)
                  (longest_repeat-Hits j (ground arith))
          ]

  -- A block of `least` to `most` lines, not a lone newline, that stands twice is never overlooked.
  pub scan_repeat_str_finds :
      (p q least most : ℕ)
      → Twice p q
      → least ≤ newlines m p (q + 1 - p)
      → newlines m p (q + 1 - p) ≤ most
      → scan_repeat_str m p end most least ≢ ok none
  unfolding scan_repeat_str
  scan_repeat_str_finds p q least most twice enough within =
      let inside : leb end p ≡ false = ground (arith, twice.start, twice.within) in
      let (marks, result, all, complete) =
        mark_lines-Marks m end readable (most * 2 + 1) p
          (omega (arith, twice.start, twice.within)) in
      let one = newlines_two m p p q (omega arith) twice.start twice.ends in
      let k = newlines m p (q + 1 - p) - 1 in
      let (found, hit) =
        longest_repeat-Hits p q k least (most * 2 + 1) marks all complete twice (omega (arith, one))
          (omega (arith, one)) (omega (arith, one)) most (omega (arith, one)) in
      let some_block : scan_repeat_str m p end most least ≡ ok (some found) =
        rw inside (rw result hit) in
      λ nothing. cc
