-- ===== src/Muniq/Repeats.antt =====
-- What `scan_repeat_str` of tools/muniq/muniq.c finds: a block of lines that is repeated.
use myclib.Prelude.{
  ℕ, zero, suc, ◌+◌, ◌-◌, ◌*◌, ◌≤◌, ◌<◌, ◌≡◌, ◌⊎◌, refl, ap, ◌∙◌, inl, inr, Bool-cases,
  Option-cases, Bool, true, false, not, Option, none, some, List, ◌==◌, ltb, leb, if◌then◌else◌,
  get_elem?, arith,
}
use myclib.Outcome.{Result, ok, ◌>>=◌}
use myclib.Muniq.{Memory, newline, memcmp, mark_or, longest_repeat, scan_repeat_str}
use myclib.Muniq.Lines.{newlines, load-ok, Readable, Marks, mark_lines-Marks}

module _ (m : Memory) (end : ℕ) (readable : Readable m end) where
  -- what `memcmp` says of two ranges
  abbrev pub SameOctets : ℕ → ℕ → ℕ → Bool → Type 0
  SameOctets a b n same = same ≡ true → (k : ℕ) → k < n → m (a + k) ≡ m (b + k)

  SameOctets-suc :
      (a b n x : ℕ) (same : Bool)
      → m a ≡ some x
      → m b ≡ some x
      → SameOctets (a + 1) (b + 1) n same
      → SameOctets a b (suc n) same
  SameOctets-suc a b n x same at_a at_b rest e zero lt =
      let f : a + 0 ≡ a = omega arith in
      let g : b + 0 ≡ b = omega arith in rw f (rw g (rw at_a (rw at_b refl)))
  SameOctets-suc a b n x same at_a at_b rest e (suc k) lt =
      let f : a + suc k ≡ a + 1 + k = omega arith in
      let g : b + suc k ≡ b + 1 + k = omega arith in rw f (rw g (rest e k (omega arith)))

  pub memcmp-SameOctets :
      (n a b : ℕ)
      → a + n ≤ end + 1
      → b + n ≤ end + 1
      → (same : Bool) × (memcmp m a b n ≡ ok same) × SameOctets a b n same
  unfolding memcmp
  memcmp-SameOctets zero a b h k = (true, refl, λ e i lt. absurd (omega arith))
  memcmp-SameOctets (suc n) a b h k =
      let (x, at_a) = readable a (omega arith) in
      let (y, at_b) = readable b (omega arith) in
      elim (Bool-cases (x == y)) [
        | inl e ↦
            let (same, result, rest) =
              memcmp-SameOctets n (a + 1) (b + 1) (omega arith) (omega arith) in
            let xy : y ≡ x = ground arith in
            (
              same,
              rw (load-ok m a x at_a) (rw (load-ok m b y at_b) (rw e result)),
              SameOctets-suc a b n x same at_a (at_b ∙ ap (λ (z : ℕ). some z) xy) rest,
            )
        | inr e ↦ (false, rw (load-ok m a x at_a) (rw (load-ok m b y at_b) (rw e refl)), λ f. cc)
      ]

  -- The block from `p` to the newline at `q` has from `least` to `most` lines and stands once more
  -- behind it, but perhaps, at the end of the file, for its last newline.
  pub record Repeated (p least most q : ℕ) : Type 0 where
    pub start : p < q
    pub within : q < end
    pub ends : m q ≡ some newline
    pub enough : least ≤ newlines m p (q + 1 - p)
    pub not_more : newlines m p (q + 1 - p) ≤ most
    pub same : (k : ℕ) → k < q - p → m (p + k) ≡ m (q + 1 + k)
    pub stops :
        (q + 1 + (q - p) ≡ end) ⊎ ((q + 1 + (q - p) < end) × (m (q + 1 + (q - p)) ≡ some newline))

  abbrev pub Scanned : ℕ → ℕ → ℕ → Option ℕ → Type 0
  Scanned p least most none = Unit
  Scanned p least most (some q) = Repeated p least most q

  -- the outcome of the search for a repeated block
  abbrev pub Scan : ℕ → ℕ → ℕ → Result (Option ℕ) → Type 0
  Scan p least most r = (o : Option ℕ) × (r ≡ ok o) × Scanned p least most o

  Scan-if :
      (p least most : ℕ) (b : Bool) (x y : Result (Option ℕ))
      → (b ≡ true → Scan p least most x)
      → (b ≡ false → Scan p least most y)
      → Scan p least most (if b then x else y)
  Scan-if p least most true x y h k = h refl
  Scan-if p least most false x y h k = k refl

  Scan-none : (p least most : ℕ) → Scan p least most (ok none)
  Scan-none p least most = (none, refl, tt)

  abbrev pub compare_blocks : ℕ → ℕ → ℕ → Result (Option ℕ) → Result (Option ℕ)
  compare_blocks p p2 p3 next =
      if p == p2
      then ok none
      else if not (p3 - p2 == p2 - p + 1)
      then next
      else memcmp m p (p2 + 1) (p2 - p) >>= λ same. if same then ok (some p2) else next

  -- what is known of `p3`
  abbrev pub Stop : ℕ → Type 0
  Stop q = (q ≡ end) ⊎ ((q < end) × (m q ≡ some newline))

  compared :
      (p k least most p2 p3 : ℕ) (next : Result (Option ℕ)) (same : Bool)
      → p < p2
      → p2 < end
      → m p2 ≡ some newline
      → newlines m p (p2 + 1 - p) ≡ k + 1
      → least ≤ k + 1
      → k + 1 ≤ most
      → Stop p3
      → p2 + 1 + (p2 - p) ≡ p3
      → SameOctets p (p2 + 1) (p2 - p) same
      → Scan p least most next
      → Scan p least most (if same then ok (some p2) else next)
  compared p k least most p2 p3 next true lo hi nl count a b stop at eq scan = (
    some p2,
    refl,
    record {
      start = lo;
      within = hi;
      ends = nl;
      enough = omega (arith, count);
      not_more = omega (arith, count);
      same = eq refl;
      stops = rw at stop;
    },
  )
  compared p k least most p2 p3 next false lo hi nl count a b stop at eq scan = scan

  compare_blocks-Scan :
      (p k least most p2 p3 : ℕ) (next : Result (Option ℕ))
      → p ≤ p2
      → p2 < end
      → m p2 ≡ some newline
      → newlines m p (p2 + 1 - p) ≡ k + 1
      → least ≤ k + 1
      → k + 1 ≤ most
      → Stop p3
      → Scan p least most next
      → Scan p least most (compare_blocks p p2 p3 next)
  compare_blocks-Scan p k least most p2 p3 next lo hi nl count a b stop scan =
      Scan-if p least most (p == p2) _ _ (λ e. Scan-none p least most)
        λ other.
          Scan-if p least most (not (p3 - p2 == p2 - p + 1)) _ _ (λ e. scan)
            λ e.
              let at : p2 + 1 + (p2 - p) ≡ p3 = ground arith in
              let le : p3 ≤ end = ground (arith, stop) in
              let (same, result, eq) =
                memcmp-SameOctets (p2 - p) p (p2 + 1) (omega arith) (omega arith) in
              rw result (
                compared p k least most p2 p3 next same (ground arith) hi nl count a b stop at eq
                  scan)

  pub mark_or-Stop :
      (p i : ℕ) (marks : List ℕ) → Marks m end readable p marks → Stop (mark_or marks i end)
  mark_or-Stop p i marks all = elim (Option-cases (get_elem? marks i)) [
    | inl e ↦ inl (ground (arith, e))
    | inr (q, e) ↦ let (lo, hi, nl, count) = all i q e in inr (ground (arith, e), ground (arith, e))
  ]

  longest_repeat-Scan :
      (p : ℕ) (marks : List ℕ) (least most k : ℕ)
      → Marks m end readable p marks
      → k ≤ most
      → Scan p least most (longest_repeat m p end k least marks)
  unfolding longest_repeat
  longest_repeat-Scan p marks least most zero all h = Scan-none p least most
  longest_repeat-Scan p marks least most (suc k) all h =
      let next = longest_repeat-Scan p marks least most k all (omega arith) in
      Scan-if p least most (ltb (suc k) least) _ _ (λ e. Scan-none p least most)
        λ e. elim (Option-cases (get_elem? marks k)) [
          | inl missing ↦ rw missing next
          | inr (q, found) ↦
              let (lo, hi, nl, count) = all k q found in
              rw found (
                compare_blocks-Scan p k least most q (mark_or marks (suc k * 2 - 1) end) _ lo hi nl
                  count (ground arith) (omega arith) (mark_or-Stop p (suc k * 2 - 1) marks all)
                  next)
        ]

  -- `scan_repeat_str` returns, with `NULL` or with the end of a block that is repeated.
  pub scan_repeat_str-Scan :
      (p least most : ℕ) → Scan p least most (scan_repeat_str m p end most least)
  unfolding scan_repeat_str
  scan_repeat_str-Scan p least most =
      Scan-if p least most (leb end p) _ _ (λ e. Scan-none p least most)
        λ e.
          let (marks, result, all, complete) =
            mark_lines-Marks m end readable (most * 2 + 1) p (ground arith) in
          rw result (longest_repeat-Scan p marks least most most all (omega arith))
