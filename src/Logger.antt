-- ===== src/Logger.antt =====
-- src/logger.c: the log file that is kept short.
-- A file is the list of its octets. Whether the calls of the system succeed is an
-- argument.
mod Examples
use myclib.Prelude.{
  ℕ, zero, suc, ◌+◌, ◌-◌, ◌%◌, ◌^◌, ◌≤◌, ◌<◌, ◌≡◌, ◌≢◌, refl, sym, ap, ◌∙◌, ◌⊎◌, inl, inr, Bool,
  true, false, Bool-cases, Option, none, some, List, [], ◌∷◌, ◌++◌, append_assoc, ltb, leb, ◌==◌,
  if◌then◌else◌, ◌>>=◌, length, length-append, length-take, length-drop, take-drop_lem, take_all,
  take, drop, All, arith,
}

pub record Calls : Type 0 where
  pub fileno : Bool
  pub mmap : Bool
  pub ftruncate : Bool

-- The loop of `writeback_file` from `p` on: what is behind the newline. Without one, `head` is behind the
-- end and `memmove` is called for -1 octets, a fault.
pub find_head : List ℕ → Option (List ℕ)
find_head [] = none
find_head (c ∷ p) = let rest = find_head p in if c == b'\n' then some p else rest

-- Behind the loop, with the octets from `head` on: the result, `none` for -1, beside the file. The int
-- `cnt` wraps around, and a negative one is a fault in `memmove`.
unfoldable pub move_lines : (ftruncate : Bool) → (file head : List ℕ) → Option (Option ℕ × List ℕ)
move_lines ftruncate file head =
    let cnt = length head % 2 ^ 32 in
    let kept = take cnt head in
    if leb (2 ^ 31) cnt
    then none
    else if ftruncate
    then some (some cnt, kept)
    else some (none, kept ++ drop cnt file)

unfoldable pub writeback_file : Calls → List ℕ → (max_cnt del_cnt : ℕ) → Option (Option ℕ × List ℕ)
unfolding find_head move_lines
writeback_file calls file max_cnt del_cnt =
    let moved = (do head ← find_head (drop del_cnt file); move_lines calls.ftruncate file head) in
    if calls.fileno
    then (if leb (length file) max_cnt
        then some (some (length file), file)
        else if calls.mmap
        then moved
        else some (none, file))
    else some (none, file)

abbrev pub NoNewline : List ℕ → Type 0
NoNewline p = All (λ c. c ≢ b'\n') p

-- the octets from `p` on up to a newline, and behind it
abbrev Cut : List ℕ → Type 0
Cut p =
    ((find_head p ≡ none) × NoNewline p)
    ⊎ ((line rest : List ℕ) × (p ≡ line ++ b'\n' ∷ rest)
        × NoNewline line
        × (find_head p ≡ some rest))

find_head-Cut : (p : List ℕ) → Cut p
unfolding find_head
find_head-Cut [] = inl (refl, tt)
find_head-Cut (c ∷ p) = elim (Bool-cases (c == b'\n')) [
  | inl e ↦ inr ([], p, ap (λ d. d ∷ p) (ground arith), tt, rw e refl)
  | inr e ↦
      let other : c ≢ b'\n' = ground arith in
      elim (find_head-Cut p) [
        | inl (f, a) ↦ inl (rw e f, (other, a))
        | inr (line, rest, q, a, f) ↦ inr (c ∷ line, rest, ap (λ d. c ∷ d) q, (other, a), rw e f)
      ]
]

move_lines_lem :
    (file head : List ℕ)
    → length head < 2 ^ 31
    → move_lines true file head ≡ some (some (length head), head)
unfolding move_lines
move_lines_lem file head h =
    let wrap : length head % 2 ^ 32 ≡ length head = omega (arith, h) in
    let int : leb (2 ^ 31) (length head) ≡ false = ground (arith, h) in
    rw wrap (rw int (rw (take_all (length head) head (omega arith)) refl))

abbrev pub fine : Calls
fine = record { fileno = true; mmap = true; ftruncate = true }

-- Where the calls of the system succeed and the file is longer than `max_cnt` and shorter than 2 ^ 31, `writeback_file` drops
-- `del_cnt` octets and the rest of the line that follows, keeps all lines behind it and returns their
-- length; or there is no newline from `del_cnt` on, and it faults.
pub writeback_file-lines :
    (file : List ℕ) (max_cnt del_cnt : ℕ)
    → max_cnt < length file
    → length file < 2 ^ 31
    → ((writeback_file fine file max_cnt del_cnt ≡ none) × NoNewline (drop del_cnt file))
      ⊎ ((dropped line kept : List ℕ) × (file ≡ dropped ++ (line ++ b'\n' ∷ kept))
          × (length dropped ≡ del_cnt)
          × NoNewline line
          × (writeback_file fine file max_cnt del_cnt ≡ some (some (length kept), kept)))
unfolding writeback_file
writeback_file-lines file max_cnt del_cnt h small =
    let behind : (line kept : List ℕ)
        → drop del_cnt file ≡ line ++ b'\n' ∷ kept
        → del_cnt + suc (length kept) ≤ length file =
      λ line kept q. omega (
        arith,
        length-drop del_cnt file,
        ap (λ p. length p) q,
        length-append line (b'\n' ∷ kept),
      ) in
    let long : leb (length file) max_cnt ≡ false = ground arith in
    elim (find_head-Cut (drop del_cnt file)) [
      | inl (f, a) ↦ inl (rw long (rw f refl), a)
      | inr (line, kept, q, a, f) ↦ inr (
        take del_cnt file,
        line,
        kept,
        sym (take-drop_lem del_cnt file) ∙ ap (λ p. take del_cnt file ++ p) q,
        length-take del_cnt file (omega (arith, behind line kept q)),
        a,
        rw long (rw f (move_lines_lem file kept (omega (arith, small, behind line kept q)))),
      )
    ]
