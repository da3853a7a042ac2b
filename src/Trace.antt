-- ===== src/Trace.antt =====
-- src/trace.c: the executable regions of the process, and the region of an address.
-- A line is the list of its octets, none of them 0. What `getline` reads is an argument. The array of
-- regions, which `realloc` enlarges, is a list. The writing of the log is left out.

pub mod Numbers
pub mod Regions
pub mod Lookup
mod Examples
use myclib.Prelude.{
  ℕ, zero, suc, ◌+◌, ◌-◌, ◌*◌, ◌^◌, ◌<◌, Bool, true, false, not, ◌&&◌, Option, none, some, List, [],
  ◌∷◌, ◌++◌, ltb, leb, ◌==◌, if◌then◌else◌, ◌>>=◌, check, length, take, drop, get_elem?, min,
}

-- `map_t`
pub record Region : Type 0 where
  pub name : List ℕ
  pub begin : ℕ
  pub end : ℕ

-- the fields of `trace_ctx_s` on the regions; `text_map_num` is the length of the list
pub record Context : Type 0 where
  pub text_maps : List Region
  pub text_map_max_num : ℕ

-- `strcmp(s, t) == 0`
unfoldable pub same_text : List ℕ → List ℕ → Bool
same_text [] [] = true
same_text [] (y ∷ ys) = false
same_text (x ∷ xs) [] = false
same_text (x ∷ xs) (y ∷ ys) = if x == y then same_text xs ys else false

unfoldable pub starts_with : List ℕ → List ℕ → Bool
starts_with [] xs = true
starts_with (p ∷ ps) [] = false
starts_with (p ∷ ps) (x ∷ xs) = if p == x then starts_with ps xs else false

-- `strstr(xs, pattern) != NULL`
unfoldable pub contains : List ℕ → List ℕ → Bool
unfolding starts_with
contains pattern [] = starts_with pattern []
contains pattern (x ∷ xs) =
    let rest = contains pattern xs in if starts_with pattern (x ∷ xs) then true else rest

abbrev pub executable : List ℕ
executable = b'r' ∷ b'-' ∷ b'x' ∷ b'p' ∷ []

unfoldable pub is_text : List ℕ → Bool
is_text line = contains executable line

-- the value of a digit of base 16
unfoldable pub hex_digit : ℕ → Option ℕ
hex_digit c =
    if leb b'0' c && leb c b'9'
    then some (c - b'0')
    else if leb b'a' c && leb c b'f'
    then some (c - b'a' + 10)
    else if leb b'A' c && leb c b'F'
    then some (c - b'A' + 10)
    else none

abbrev pub ulong_max : ℕ
ulong_max = 2 ^ 64 - 1

-- `strtoul` in base 16, at a text that begins with a digit: the digits from the left, and what
-- follows them
unfoldable pub read_hex : ℕ → List ℕ → ℕ × List ℕ
read_hex acc [] = (min acc ulong_max, [])
read_hex acc (c ∷ cs) = elim (hex_digit c) [
  | none ↦ (min acc ulong_max, c ∷ cs)
  | some d ↦ read_hex (acc * 16 + d) cs
]

-- the octet at an index of a text, with the 0 that ends it
abbrev pub octet : List ℕ → ℕ → ℕ
octet line i = elim (get_elem? line i) [ none ↦ 0 | some b ↦ b ]

abbrev pub is_separator : ℕ → Bool
is_separator c = if c == b'/' then true else c == b' '

-- the loop that steps `ptr` back; before the line it is a fault
unfoldable pub step_back : List ℕ → ℕ → Option ℕ
step_back line zero = if is_separator (octet line 0) then some 0 else none
step_back line (suc i) =
    let before = step_back line i in
    if is_separator (octet line (suc i)) then some (suc i) else before

-- `strdup(ptr + 1)` without its last octet; an empty text is a fault
unfoldable pub copy_name : List ℕ → Option (List ℕ)
copy_name [] = none
copy_name (c ∷ cs) = some (take (length cs) (c ∷ cs))

-- the two numbers of a line; the end of the line in place of the dash is a fault
unfoldable pub read_second : ℕ × List ℕ → Option (ℕ × ℕ)
read_second (begin, []) = none
read_second (begin, c ∷ cs) = some (begin, (read_hex 0 cs).0)

unfoldable pub read_range : List ℕ → Option (ℕ × ℕ)
unfolding read_second
read_range line = read_second (read_hex 0 line)

-- the region of a line: `none` inside stands for a line that is passed over
unfoldable pub parse_line : List ℕ → Option (Option Region)
parse_line line = step_back line (length line) >>= λ i.
    if octet line i == b' '
    then some none
    else copy_name (drop (i + 1) line) >>= λ name. read_range line >>= λ (begin, end).
        some (some (record { name = name; begin = begin; end = end }))

-- the array, enlarged if it is full
unfoldable pub grow_maps : Context → Context
grow_maps ctx =
    if leb ctx.text_map_max_num (length ctx.text_maps)
    then record ctx { text_map_max_num = ctx.text_map_max_num + 32 }
    else ctx

-- The new element of the array, which has to lie in it.
unfoldable pub append_map : Region → Context → Option Context
append_map region ctx =
    check (ltb (length ctx.text_maps) ctx.text_map_max_num)
      (some (record ctx { text_maps = ctx.text_maps ++ region ∷ [] }))

-- one round of `get_task_maps`
unfoldable pub read_line : List ℕ → Context → Option Context
read_line line ctx =
    if not (is_text line)
    then some ctx
    else parse_line line >>= λ found. elim found [
      | none ↦ some (grow_maps ctx)
      | some region ↦ append_map region (grow_maps ctx)
    ]

-- the loop of `get_task_maps` over the lines
unfoldable pub get_task_maps : List (List ℕ) → Context → Option Context
get_task_maps [] ctx = some ctx
get_task_maps (line ∷ lines) ctx = read_line line ctx >>= get_task_maps lines

-- `confirm_addr_info`, for the program `prgname`, with or without `USE_PIE`: the address and the name
-- that are stored, or nothing, with the return of 1
unfoldable pub confirm_addr_info : Bool → List ℕ → List Region → ℕ → Option (ℕ × List ℕ)
confirm_addr_info pie prgname [] orig_addr = none
confirm_addr_info pie prgname (r ∷ maps) orig_addr =
    let rest = confirm_addr_info pie prgname maps orig_addr in
    if ltb r.begin orig_addr && ltb orig_addr r.end
    then some (
      if same_text r.name prgname
          then (if pie then orig_addr - r.begin else orig_addr)
          else orig_addr - r.begin,
      r.name,
    )
    else rest
