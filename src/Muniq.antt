-- ===== src/Muniq.antt =====
-- tools/muniq/muniq.c: a filter that drops blocks of lines that are repeated.
-- The input is mapped: an address is an offset in the mapping, whose octets behind the file, up to
-- the end of the page, are 0. An access behind it is a fault. The limits on the number of lines are
-- not negative. `getopt` and the calls that open and map the files are left out: they succeed for a
-- file of 1 to 2 ^ 31 - 1 octets, the lengths that the int `input_filelen` holds. The stack has room for
-- what `alloca` takes from it.

pub mod Lines
pub mod Ints
pub mod Repeats
pub mod Found
pub mod Blocks
pub mod Twice
pub mod Ends
pub mod Copy
pub mod Edges
pub mod WholePages
mod Examples
use myclib.Prelude.{
  ℕ, zero, suc, ◌+◌, ◌-◌, ◌*◌, ◌/◌, ◌^◌, ◌<◌, Bool, true, false, not, Option, none, some, List, [],
  ◌∷◌, ◌++◌, ltb, leb, ◌==◌, if◌then◌else◌, length, take, get_elem?,
}
use myclib.Outcome.{Result, ok, fault, out_of_fuel, ◌>>=◌}

abbrev pub newline : ℕ
newline = 10

-- the octets at the offsets of a mapping
abbrev pub Memory : Type 0
Memory = ℕ → Option ℕ

-- `mmap` of a file whose length is an int, in `mapped` octets; `muniq` maps no other.
abbrev pub map_file : ℕ → List ℕ → Memory
map_file mapped file i =
    if ltb i (length file) then get_elem? file i else if ltb i mapped then some 0 else none

-- `*p`
unfoldable pub load : Memory → ℕ → Result ℕ
load m p = elim (m p) [ none ↦ fault | some b ↦ ok b ]

-- `strnchr`: the octet is read before the bound is tested, also at the end.
unfoldable pub strnchr : Memory → ℕ → ℕ → ℕ → Result (Option ℕ)
strnchr m str c zero = load m str >>= λ b. ok none
strnchr m str c (suc n) =
    load m str >>= λ b. if b == c then ok (some str) else strnchr m (str + 1) c n

-- the loop of `scan_repeat_str`, with `n` rounds left: the entries of `lines_mark` up to the first
-- that is `NULL`
unfoldable pub mark_lines : Memory → ℕ → ℕ → ℕ → Result (List ℕ)
mark_lines m end zero begin = ok []
mark_lines m end (suc n) begin = strnchr m begin newline (end - begin) >>= λ o. elim o [
  | none ↦ ok []
  | some q ↦ mark_lines m end n (q + 1) >>= λ marks. ok (q ∷ marks)
]

-- `memcmp(a, b, n) == 0`
unfoldable pub memcmp : Memory → ℕ → ℕ → ℕ → Result Bool
memcmp m a b zero = ok true
memcmp m a b (suc n) =
    load m a >>= λ x. load m b >>= λ y. if x == y then memcmp m (a + 1) (b + 1) n else ok false

-- an entry of `lines_mark`, or `end` for `NULL`
abbrev pub mark_or : List ℕ → ℕ → ℕ → ℕ
mark_or marks i end = elim (get_elem? marks i) [ none ↦ end | some q ↦ q ]

-- `_scan_repeat_str`, whose third argument is `max_repeat_line`
unfoldable pub longest_repeat : Memory → ℕ → ℕ → ℕ → ℕ → List ℕ → Result (Option ℕ)
longest_repeat m p end zero min_repeat marks = ok none
longest_repeat m p end (suc k) min_repeat marks =
    let next = longest_repeat m p end k min_repeat marks in
    if ltb (suc k) min_repeat then ok none else elim (get_elem? marks k) [
      | none ↦ next
      | some p2 ↦
          let p3 = mark_or marks (suc k * 2 - 1) end in
          if p == p2
          then ok none
          else if not (p3 - p2 == p2 - p + 1)
          then next
          else memcmp m p (p2 + 1) (p2 - p) >>= λ same. if same then ok (some p2) else next
    ]

unfoldable pub scan_repeat_str : Memory → ℕ → ℕ → ℕ → ℕ → Result (Option ℕ)
scan_repeat_str m p end max_repeat min_repeat =
    if leb end p
    then ok none
    else mark_lines m end (max_repeat * 2 + 1) p >>= λ marks.
        longest_repeat m p end max_repeat min_repeat marks

-- `strchr(p, '\n')`, with `n` octets mapped from `p` on
unfoldable pub strchr : Memory → ℕ → ℕ → Result (Option ℕ)
strchr m p zero = fault
strchr m p (suc n) = load m p >>= λ b.
    if b == newline then ok (some p) else if b == 0 then ok none else strchr m (p + 1) n

-- the octets that `memcpy` reads
unfoldable pub read : Memory → ℕ → ℕ → Result (List ℕ)
read m p zero = ok []
read m p (suc n) = load m p >>= λ b. read m (p + 1) n >>= λ bs. ok (b ∷ bs)

-- `tmp` and `is_repeat`, in the loop of `main`
unfoldable pub find_end : Memory → ℕ → ℕ → ℕ → ℕ → ℕ → Result (ℕ × Bool)
find_end m mapped pin pend max_repeat min_repeat =
    scan_repeat_str m pin pend max_repeat min_repeat >>= λ o. elim o [
      | some tmp ↦ ok (tmp, true)
      | none ↦ strchr m pin (mapped - pin) >>= λ q. elim q [
        | none ↦ ok (pend, false)
        | some tmp ↦ ok (tmp, false)
      ]
    ]

-- The loop of `main`, on fuel: `out` is what is written, in an output that is mapped as the input is.
unfoldable pub copy_loop : Memory → ℕ → ℕ → ℕ → ℕ → ℕ → ℕ → List ℕ → Result (List ℕ)
copy_loop m mapped pend max_repeat min_repeat zero pin out = out_of_fuel
copy_loop m mapped pend max_repeat min_repeat (suc fuel) pin out =
    let round = find_end m mapped pin pend max_repeat min_repeat >>= λ (tmp, is_repeat).
    let len = tmp - pin + 1 in
    read m pin len >>= λ block.
    if leb (length out + len) mapped
    then copy_loop m mapped pend max_repeat min_repeat fuel
        (if is_repeat then pin + len + len else pin + len) (out ++ block)
    else fault in
    if ltb pin pend then round else ok out

-- `n` zeros
abbrev pub zero_octets : ℕ → List ℕ
zero_octets zero = []
zero_octets (suc n) = 0 ∷ zero_octets n

-- `mmap` takes the length of the file as an int that is not 0, and `max_repeat_line * 2 + 1` is an int.
unfoldable pub fits_ints : ℕ → ℕ → Bool
fits_ints n max_repeat =
    if ltb 0 n then (if ltb n (2 ^ 31) then ltb (max_repeat * 2 + 1) (2 ^ 31) else false) else false

-- The output file after `truncate`, and whether `main` returns 1. What lies behind the length that
-- `ftruncate` gave the file is not written to it, and `truncate` fills up with zeros. A file that
-- cannot be mapped whole is a fault, and so is an overflow of an int.
unfoldable pub muniq : ℕ → ℕ → ℕ → List ℕ → Result (List ℕ × Bool)
unfolding fits_ints
muniq mapped max_repeat min_repeat file =
    let n = length file in
    if fits_ints n max_repeat
    then (copy_loop (map_file mapped file) mapped n max_repeat min_repeat (n + 1) 0 [] >>= λ out.
        ok (take n out ++ zero_octets (length out - n), ltb (length out) n))
    else fault
