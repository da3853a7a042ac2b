-- ===== src/Dns.antt =====
-- src/dns.c: the parser of DNS messages, over a packet of bytes.
-- Pointers are offsets into the packet, `buf->end` is its length. The name that is being written is
-- the list of the bytes so far, and a write past its 256 bytes is a fault, as is a read past the
-- packet. `htons` and `htonl` of a field that is read from the packet give its big-endian value.
pub mod Reads
pub mod Safety
pub mod Message
pub mod Names
mod Examples
use Prim.Native.Nat.{bit_and}
use myclib.Prelude.{
  ℕ, zero, suc, ◌+◌, ◌*◌, ◌/◌, ◌%◌, ◌^◌, not, Bool, true, false, ◌&&◌, ◌||◌, List, [], ◌∷◌, ◌++◌,
  map, ltb, leb, ◌==◌, if◌then◌else◌, length,
}
use myclib.Outcome.{Result, ok, bad, fault, out_of_fuel, ◌>>=◌}

pub record Packet : Type 0 where
  pub len : ℕ
  pub byte : ℕ → ℕ

-- the octets that `parse_name` wrote before its terminating 0, and the other fields of `dns_question`
pub record Question : Type 0 where
  pub name : List ℕ
  pub kind : ℕ
  pub class : ℕ

-- `dns_rr`; `payload`, the pointer `data`, is an offset.
pub record Rr : Type 0 where
  pub name : List ℕ
  pub kind : ℕ
  pub class : ℕ
  pub ttl : ℕ
  pub len : ℕ
  pub payload : ℕ

pub record RespInfo : Type 0 where
  pub domain : List ℕ
  pub ipv4 : List (List ℕ)

abbrev pub name_size : ℕ
name_size = 256

abbrev pub header_size : ℕ
header_size = 12

-- `tolower` of the C locale
abbrev pub to_lower : ℕ → ℕ
to_lower c = if leb b'A' c && leb c b'Z' then c + 32 else c

-- the string at an array of bytes: what is before its first 0
abbrev pub c_string : List ℕ → List ℕ
c_string [] = []
c_string (c ∷ cs) = if c == 0 then [] else c ∷ c_string cs

-- a write of `bytes` at `name->ptr`
pub write_name : List ℕ → List ℕ → Result (List ℕ)
write_name name bytes = if leb (length (name ++ bytes)) name_size then ok (name ++ bytes) else fault

module _ (pkt : Packet) where
  pub read : ℕ → Result ℕ
  read i = if ltb i pkt.len then ok (pkt.byte i) else fault

  pub read_bytes : ℕ → ℕ → Result (List ℕ)
  read_bytes zero i = ok []
  read_bytes (suc n) i = do b ← read i; rest ← read_bytes n (i + 1); ok (b ∷ rest)

  pub read16 : ℕ → Result ℕ
  read16 i = do a ← read i; b ← read (i + 1); ok (a * 256 + b)

  pub read32 : ℕ → Result ℕ
  read32 i = do a ← read16 i; b ← read16 (i + 2); ok (a * 65536 + b)

  -- The `for (;;)` of `parse_name`, at the offset `ptr` with `name` written so far.
  pub name_loop : ℕ → ℕ → List ℕ → Result (ℕ × List ℕ)
  name_loop zero ptr name = out_of_fuel
  name_loop (suc fuel) ptr name = if ptr == pkt.len then bad else do
    len ← read ptr
    if len == 0
        then ok (ptr + 1, name)
        else if bit_and len 0xC0 == 0xC0
        then (if ltb pkt.len (ptr + 2) then bad else ok (ptr + 2, name))
        else if ltb pkt.len (ptr + 1 + len)
        then bad
        else if ltb name_size (length name + len + 2)
        then bad
        else do
          dotted ← if ltb 0 (length name) then write_name name (b'.' ∷ []) else ok name
          label ← read_bytes len (ptr + 1)
          longer ← write_name dotted label
          name_loop fuel (ptr + 1 + len) longer

  -- Each round reads a byte, so that one round more than bytes is enough.
  unfoldable pub parse_name : ℕ → Result (ℕ × List ℕ)
  unfolding name_loop write_name read read_bytes
  parse_name ptr = do
    (ptr', name) ← name_loop (pkt.len + 1) ptr []
    terminated ← write_name name (0 ∷ [])
    ok (ptr', map to_lower name)

  unfoldable pub parse_question : ℕ → Result (ℕ × Question)
  unfolding parse_name read16
  parse_question start = do
    (ptr, name) ← parse_name start
    if ltb pkt.len (ptr + 4) then bad else do
      kind ← read16 ptr
      class ← read16 (ptr + 2)
      ok (ptr + 4, record { name = name; kind = kind; class = class })

  unfoldable pub parse_rr : ℕ → Result (ℕ × Rr)
  unfolding parse_name read16 read32
  parse_rr start = do
    (ptr, name) ← parse_name start
    if ltb pkt.len (ptr + 10) then bad else do
      kind ← read16 ptr
      class ← read16 (ptr + 2)
      ttl ← read32 (ptr + 4)
      len ← read16 (ptr + 8)
      if ltb pkt.len (ptr + 10 + len)
          then bad
          else ok (
            ptr + 10 + len,
            record {
              name = name;
              kind = kind;
              class = class;
              ttl = ttl;
              len = len;
              payload = ptr + 10;
            },
          )

  -- `do parse_question while (q_index--)`
  pub question_at : ℕ → ℕ → Result Question
  question_at zero ptr = do (ptr', q) ← parse_question ptr; ok q
  question_at (suc n) ptr = do (ptr', q) ← parse_question ptr; question_at n ptr'

  unfoldable pub dns_get_question : ℕ → Result Question
  unfolding question_at
  dns_get_question q_index = do
    q_count ← read16 4
    if leb q_count q_index || ltb pkt.len header_size then bad else question_at q_index header_size

  pub skip_questions : ℕ → ℕ → Result ℕ
  skip_questions zero ptr = ok ptr
  skip_questions (suc n) ptr = do (ptr', q) ← parse_question ptr; skip_questions n ptr'

  -- `do parse_rr while (a_index--)`
  pub rr_at : ℕ → ℕ → Result Rr
  rr_at zero ptr = do (ptr', a) ← parse_rr ptr; ok a
  rr_at (suc n) ptr = do (ptr', a) ← parse_rr ptr; rr_at n ptr'

  unfoldable pub dns_get_answer : ℕ → Result Rr
  unfolding skip_questions rr_at
  dns_get_answer a_index = do
    q_count ← read16 4
    a_count ← read16 6
    if leb a_count a_index || ltb pkt.len header_size
        then bad
        else do ptr ← skip_questions q_count header_size; rr_at a_index ptr

  -- `is_vaild_dns_resp`: the bit QR is set and the code of the response is 0.
  pub is_valid_dns_resp : Result Bool
  is_valid_dns_resp =
      if ltb pkt.len header_size
      then ok false
      else do flags ← read16 2; ok ((flags / 2 ^ 15) % 2 == 1 && flags % 2 ^ 4 == 0)

  -- the octets of an address, where the record has four
  pub address : Rr → Result (List (List ℕ))
  address a = if a.len == 4 then (do octets ← read_bytes 4 a.payload; ok (octets ∷ [])) else ok []

  -- The loop of `dns_resp_parse`, with `n` answers left from number `i` on.
  pub answers : ℕ → ℕ → Result (List (List ℕ))
  answers zero i = ok []
  answers (suc n) i = do
    a ← dns_get_answer i
    here ← address a
    rest ← answers n (i + 1)
    ok (here ++ rest)

  -- `dns_resp_parse` after its first test
  unfoldable pub resp_info : Result RespInfo
  unfolding address answers
  resp_info = do
    a_count ← read16 6
    q ← dns_get_question 0
    ipv4 ← answers a_count 0
    ok (record { domain = c_string q.name; ipv4 = ipv4 })

  unfoldable pub dns_resp_parse : Result RespInfo
  unfolding is_valid_dns_resp
  dns_resp_parse = do valid ← is_valid_dns_resp; if valid then resp_info else bad
