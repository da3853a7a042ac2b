-- ===== src/Buf.antt =====
-- include/buf.h: a buffer that is filled at its tail and parsed from `pos` on.
-- Pointers are offsets from `head`. `bytes` are the octets of [head, tail), so that `tail` is their
-- number; what lies behind the tail is never read.
use myclib.Prelude.{ℕ, ◌+◌, ◌-◌, List, [], ◌++◌, drop, length}

pub record Buf : Type 0 where
  pub end : ℕ
  pub bytes : List ℕ
  pub pos : ℕ

abbrev pub buf_init : ℕ → Buf
buf_init sz = record { end = sz; bytes = []; pos = 0 }

-- `buf_cache_push` of octets that were written at the tail
abbrev pub buf_cache_push : Buf → List ℕ → Buf
buf_cache_push b octets = record b { bytes = b.bytes ++ octets }

abbrev pub buf_data_push : Buf → ℕ → Buf
buf_data_push b n = record b { pos = b.pos + n }

abbrev pub buf_room_len : Buf → ℕ
buf_room_len b = b.end - length b.bytes

-- the octets of [pos, tail)
abbrev pub raw_data : Buf → List ℕ
raw_data b = drop b.pos b.bytes

abbrev pub buf_raw_data_len : Buf → ℕ
buf_raw_data_len b = length b.bytes - b.pos

abbrev pub buf_clear : Buf → Buf
buf_clear b = record b { bytes = []; pos = 0 }

abbrev pub buf_move : Buf → Buf
buf_move b = record b { bytes = raw_data b; pos = 0 }
