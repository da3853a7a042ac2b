-- ===== src/Muniq/Lines.antt =====
-- The ends of the lines that `scan_repeat_str` of tools/muniq/muniq.c marks.
use myclib.Prelude.{
  ℕ, zero, suc, ◌+◌, ◌-◌, ◌≤◌, ◌<◌, ◌≡◌, ◌≢◌, refl, ap, ◌∙◌, inl, inr, Bool-cases, true, Option,
  none, some, List, [], ◌∷◌, ◌==◌, if◌then◌else◌, get_elem?, arith,
}
use myclib.Outcome.{ok}
use myclib.Muniq.{Memory, newline, load, strnchr, mark_lines}

-- the newlines in `n` octets from `p` on
unfoldable pub newlines : Memory → ℕ → ℕ → ℕ
newlines m p zero = 0
newlines m p (suc n) =
    let rest = newlines m (p + 1) n in
    elim (m p) [ none ↦ rest | some b ↦ if b == newline then 1 + rest else rest ]

pub newlines-add :
    (m : Memory) (n k p : ℕ) → newlines m p (n + k) ≡ newlines m p n + newlines m (p + n) k
unfolding newlines
newlines-add m zero k p =
    let e : p + 0 ≡ p = omega arith in let f : 0 + k ≡ k = omega arith in rw e (rw f (omega arith))
newlines-add m (suc n) k p =
    let e : suc n + k ≡ suc (n + k) = omega arith in
    rw e (ground (arith, newlines-add m n k (p + 1)))

pub load-ok : (m : Memory) (p b : ℕ) → m p ≡ some b → load m p ≡ ok b
unfolding load
load-ok m p b h = ground arith

-- All octets up to the end can be read, also the one at the end.
abbrev pub Readable : Memory → ℕ → Type 0
Readable m end = (k : ℕ) → k ≤ end → (b : ℕ) × (m k ≡ some b)

-- the first newline in `n` octets from `p` on, if there is one
abbrev pub First : Memory → ℕ → ℕ → Option ℕ → Type 0
First m p n none = newlines m p n ≡ 0
First m p n (some q) = (p ≤ q) × (q < p + n) × (m q ≡ some newline) × (newlines m p (q + 1 - p) ≡ 1)

module _ (m : Memory) where
  pub First-later :
      (p n : ℕ) (b : ℕ) (o : Option ℕ)
      → m p ≡ some b
      → b ≢ newline
      → First m (p + 1) n o
      → First m p (suc n) o
  unfolding newlines
  First-later p n b none at_p other first = ground (arith, at_p, first)
  First-later p n b (some q) at_p other first =
      let e : q + 1 - p ≡ suc (q + 1 - (p + 1)) = omega (arith, first.0) in
      (omega (arith, first.0), omega (arith, first.1), first.2, rw e (ground (arith, first.3)))

  pub one_newline : (p b : ℕ) → m p ≡ some b → b == newline ≡ true → newlines m p (p + 1 - p) ≡ 1
  unfolding newlines
  one_newline p b at_p hit = let e : p + 1 - p ≡ suc 0 = omega arith in rw e (ground arith)

-- Two newlines are counted twice.
pub newlines_two :
    (m : Memory) (p q r : ℕ)
    → p ≤ q
    → q < r
    → m r ≡ some newline
    → newlines m p (q + 1 - p) + 1 ≤ newlines m p (r + 1 - p)
unfolding newlines
newlines_two m p q r h k nl =
    let e : r + 1 - p ≡ q + 1 - p + (r - (q + 1) + 1) = omega arith in
    let f : p + (q + 1 - p) ≡ q + 1 = omega arith in
    let g : q + 1 + (r - (q + 1)) ≡ r = omega arith in
    let split = newlines-add m (q + 1 - p) (r - (q + 1) + 1) p in
    let last = newlines-add m (r - (q + 1)) 1 (q + 1) in
    let one : newlines m (q + 1 + (r - (q + 1))) 1 ≡ 1 = rw g (ground (arith, nl)) in
    let split' : newlines m p (q + 1 - p + (r - (q + 1) + 1))
        ≡ newlines m p (q + 1 - p) + newlines m (q + 1) (r - (q + 1) + 1) =
      rw f at split in
    rw e (omega (arith, split', last, one))

module _ (m : Memory) (end : ℕ) (readable : Readable m end) where
  strnchr-First :
      (n p : ℕ) → p + n ≤ end → (o : Option ℕ) × (strnchr m p newline n ≡ ok o) × First m p n o
  unfolding strnchr
  strnchr-First zero p h =
      let (b, at_p) = readable p (omega arith) in
      (none, rw (load-ok m p b at_p) refl, unfold newlines in refl)
  strnchr-First (suc n) p h =
      let (b, at_p) = readable p (omega arith) in
      elim (Bool-cases (b == newline)) [
        | inl e ↦
            let hit : b ≡ newline = ground arith in
            (
              some p,
              rw (load-ok m p b at_p) (rw e refl),
              (
                omega arith,
                omega arith,
                at_p ∙ ap (λ (x : ℕ). some x) hit,
                one_newline m p b at_p e,
              ),
            )
        | inr e ↦
            let (o, result, first) = strnchr-First n (p + 1) (omega arith) in
            (
              o,
              rw (load-ok m p b at_p) (rw e result),
              First-later m p n b o at_p (ground arith) first,
            )
      ]

  -- an entry of `lines_mark`: the end of the line with this number, from `begin` on
  abbrev pub Mark : ℕ → ℕ → ℕ → Type 0
  Mark begin i q =
      (begin ≤ q) × (q < end) × (m q ≡ some newline) × (newlines m begin (q + 1 - begin) ≡ i + 1)

  abbrev pub Marks : ℕ → List ℕ → Type 0
  Marks begin marks = (i q : ℕ) → get_elem? marks i ≡ some q → Mark begin i q

  Marks-cons :
      (begin q : ℕ) (marks : List ℕ)
      → First m begin (end - begin) (some q)
      → begin ≤ end
      → Marks (q + 1) marks
      → Marks begin (q ∷ marks)
  Marks-cons begin q marks first h later zero r at_i =
      let same : q ≡ r = ground arith in
      rw (← same) (first.0, omega (arith, first.1), first.2, first.3)
  Marks-cons begin q marks first h later (suc i) r at_i =
      let (lo, hi, nl, count) = later i r at_i in
      let split = newlines-add m (q + 1 - begin) (r + 1 - (q + 1)) begin in
      let e : q + 1 - begin + (r + 1 - (q + 1)) ≡ r + 1 - begin = omega (arith, first.0) in
      let f : begin + (q + 1 - begin) ≡ q + 1 = omega (arith, first.0) in
      (omega (arith, first.0), hi, nl, rw (← e) (split ∙ rw f (omega (arith, count, first.3))))

  -- All newlines are marked whose number is below `n`.
  abbrev pub Complete : ℕ → ℕ → List ℕ → Type 0
  Complete n begin marks =
      (q j : ℕ)
      → begin ≤ q
      → q < end
      → m q ≡ some newline
      → newlines m begin (q + 1 - begin) ≡ suc j
      → j < n
      → get_elem? marks j ≡ some q

  Complete-none : (n begin : ℕ) → newlines m begin (end - begin) ≡ 0 → Complete n begin []
  Complete-none n begin empty q j lo hi nl count lt =
      let e : q + 1 - begin + (end - (q + 1)) ≡ end - begin = omega arith in
      let split = newlines-add m (q + 1 - begin) (end - (q + 1)) begin in
      absurd (
        let f : newlines m begin (q + 1 - begin + (end - (q + 1))) ≡ 0 = rw e empty in
        omega (arith, split, f))

  Complete-cons :
      (n begin f : ℕ) (marks : List ℕ)
      → First m begin (end - begin) (some f)
      → Complete n (f + 1) marks
      → Complete (suc n) begin (f ∷ marks)
  Complete-cons n begin f marks first later q zero lo hi nl count lt =
      let same : f ≡ q =
        ground
          (arith, newlines_two m begin q f, newlines_two m begin f q, first.0, first.2, first.3) in
      rw same refl
  Complete-cons n begin f marks first later q (suc j) lo hi nl count lt =
      let behind : f < q = ground (arith, newlines_two m begin q f, first.0, first.2, first.3) in
      let e : f + 1 - begin + (q + 1 - (f + 1)) ≡ q + 1 - begin = omega (arith, first.0) in
      let g : begin + (f + 1 - begin) ≡ f + 1 = omega (arith, first.0) in
      let split = newlines-add m (f + 1 - begin) (q + 1 - (f + 1)) begin in
      let split' : newlines m begin (q + 1 - begin)
          ≡ newlines m begin (f + 1 - begin) + newlines m (f + 1) (q + 1 - (f + 1)) =
        rw (← e) (split ∙ rw g refl) in
      later q j (omega arith) hi nl (omega (arith, split', first.3)) (omega arith)

  -- what the loop does from `begin` on
  abbrev pub Marked : ℕ → ℕ → Type 0
  Marked n begin =
      (marks : List ℕ) × (mark_lines m end n begin ≡ ok marks)
      × Marks begin marks
      × Complete n begin marks

  mark_next :
      (n begin : ℕ) (o : Option ℕ)
      → begin ≤ end
      → strnchr m begin newline (end - begin) ≡ ok o
      → First m begin (end - begin) o
      → ((q : ℕ) → q + 1 ≤ end → Marked n (q + 1))
      → Marked (suc n) begin
  unfolding mark_lines
  mark_next n begin none h result first go =
      ([], rw result refl, (λ i q e. cc), Complete-none (suc n) begin first)
  mark_next n begin (some q) h result first go =
      let (marks, rest, later, complete) = go q (omega (arith, first.1)) in
      (
        q ∷ marks,
        rw result (rw rest refl),
        Marks-cons begin q marks first h later,
        Complete-cons n begin q marks first complete,
      )

  pub mark_lines-Marks : (n begin : ℕ) → begin ≤ end → Marked n begin
  unfolding mark_lines
  mark_lines-Marks zero begin h = ([], refl, (λ i q e. cc), λ q j a b c d e. absurd (omega arith))
  mark_lines-Marks (suc n) begin h =
      let (o, result, first) = strnchr-First (end - begin) begin (omega arith) in
      mark_next n begin o h result first (λ q le. mark_lines-Marks n (q + 1) le)
