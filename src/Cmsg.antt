-- ===== src/Cmsg.antt =====
-- src/com_msg.c and include/com_msg.h: messages with an id, framed in a stream of octets.
-- `unsigned int` is sent as four octets of a little-endian machine. What a read of the descriptor
-- brings is an argument: `none` where it fails, else the octets, of which at most the room of the
-- cache is taken. `memory n` is whether `malloc(n)` succeeds. A handler is a function of the payload
-- that returns whether it succeeds; `none` is the pointer of a message without payload, which is never
-- set. A read of octets that are not there is a fault, `none`.
pub mod Frames
pub mod Reads
pub mod Stuck
mod Examples
use myclib.Prelude.{
  ℕ, zero, suc, ◌+◌, ◌-◌, ◌*◌, ◌/◌, ◌%◌, Bool, true, false, Option, none, some, ◌>>=◌, List, [],
  ◌∷◌, ◌++◌, ltb, leb, ◌==◌, if◌then◌else◌, length, take, drop,
}
use myclib.Buf.{
  Buf, buf_cache_push, buf_data_push, buf_room_len, raw_data, buf_raw_data_len, buf_move,
}

-- `cmsg_data_t`
pub record Data : Type 0 where
  pub id : ℕ
  pub len : ℕ
  pub payload : Option (List ℕ)

-- `cmsg_t`
pub record Cmsg : Type 0 where
  pub id : ℕ
  pub deal_req : Option (List ℕ) → Bool
  pub deal_resp : Option (List ℕ) → Bool

pub data CmsgType : Type 0 where
  cmsg_inner : CmsgType
  cmsg_server : CmsgType
  cmsg_client : CmsgType

pub record Ctx : Type 0 where
  pub kind : CmsgType
  pub msgs : List Cmsg
  pub recv_cache : Buf

abbrev pub cmsg_find : List Cmsg → ℕ → Option Cmsg
cmsg_find [] id = none
cmsg_find (pos ∷ msgs) id =
    let later = cmsg_find msgs id in if pos.id == id then some pos else later

-- -1 where the id is taken
unfoldable pub cmsg_register : Ctx → Cmsg → Option Ctx
cmsg_register ctx msg = elim (cmsg_find ctx.msgs msg.id) [
  | some old ↦ none
  | none ↦ some (record ctx { msgs = ctx.msgs ++ msg ∷ [] })
]

-- the four octets of an `unsigned int`
abbrev pub word_octets : ℕ → List ℕ
word_octets n = n % 256 ∷ n / 256 % 256 ∷ n / 65536 % 256 ∷ n / 16777216 % 256 ∷ []

abbrev pub word : List ℕ → Option ℕ
word (a ∷ b ∷ c ∷ d ∷ rest) = some (a + b * 256 + c * 65536 + d * 16777216)
word octets = none

abbrev pub frame : ℕ → List ℕ → List ℕ
frame id payload = word_octets id ++ word_octets (length payload) ++ payload

-- The octets that `cmsg_send` writes, and `none` where it returns -1 before it writes.
unfoldable pub cmsg_send : Ctx → ℕ → List ℕ → Option (List ℕ)
cmsg_send ctx id payload = elim (cmsg_find ctx.msgs id) [
  | none ↦ none
  | some pos ↦ some (frame id payload)
]

-- what `cmsg_data_get_from_buf` returns: -1, 0, or 1 with a message and the buffer behind it
pub data Got : Type 0 where
  failed : Got
  insufficient : Got
  got : Data → Buf → Got

-- What a call of `cmsg_recv_and_deal` has come to when the reads given are used up.
pub data Progress : Type 0 where
  returned : Bool → Ctx → Progress
  waiting : Ctx → Progress

module _ (memory : ℕ → Bool) where
  unfoldable pub cmsg_data_get_from_buf : Buf → Option Got
  cmsg_data_get_from_buf buf = if ltb (buf_raw_data_len buf) 8 then some insufficient else do
    id ← word (raw_data buf)
    len ← word (raw_data (buf_data_push buf 4))
    let rest = buf_data_push (buf_data_push buf 4) 4
    let whole : Data = record { id = id; len = len; payload = some (take len (raw_data rest)) }
    if len == 0
        then some (got (record { id = id; len = len; payload = none }) rest)
        else if ltb (buf_raw_data_len rest) len
        then some insufficient
        else if memory len
        then some (got whole (buf_data_push rest len))
        else some failed

  abbrev pub deal : CmsgType → Cmsg → Option (List ℕ) → Bool
  deal cmsg_inner msg payload = msg.deal_req payload
  deal cmsg_server msg payload = msg.deal_req payload
  deal cmsg_client msg payload = msg.deal_resp payload

  unfoldable pub cmsg_deal : Ctx → Data → Bool
  cmsg_deal ctx m = elim (cmsg_find ctx.msgs m.id) [
    | none ↦ false
    | some msg ↦ deal ctx.kind msg m.payload
  ]

  -- The inner loop of `cmsg_recv_and_deal`: whether it ends without an error, the messages that were
  -- dealt with, and the cache. A round takes at least eight octets, so that a round more than octets
  -- is enough.
  pub deal_loop : ℕ → Ctx → Buf → Option (Bool × List Data × Buf)
  deal_loop zero ctx buf = none
  deal_loop (suc fuel) ctx buf = do
    result ← cmsg_data_get_from_buf buf
    elim result [
      | failed ↦ some (false, [], buf)
      | insufficient ↦ some (true, [], buf)
      | got m buf' ↦
          let later = deal_loop fuel ctx buf' in
          if cmsg_deal ctx m
          then (do (ok, ms, buf'') ← later; some (ok, m ∷ ms, buf''))
          else some (false, [], buf')
    ]

  -- `cmsg_recv` of the octets that a read brings
  abbrev pub cmsg_recv : Ctx → List ℕ → Buf
  cmsg_recv ctx octets = buf_cache_push ctx.recv_cache (take (buf_room_len ctx.recv_cache) octets)

  -- `cmsg_recv_and_deal` over the results of its reads, with the messages dealt with.
  pub cmsg_recv_and_deal : Ctx → List (Option (List ℕ)) → Option (List Data × Progress)
  cmsg_recv_and_deal ctx [] = some ([], waiting ctx)
  cmsg_recv_and_deal ctx (none ∷ reads) = some ([], returned false ctx)
  cmsg_recv_and_deal ctx (some octets ∷ reads) = do
    let cache = cmsg_recv ctx octets
    (ok, ms, cache') ← deal_loop (suc (length cache.bytes)) ctx cache
    let next : Ctx = record ctx { recv_cache = buf_move cache' }
    let later = cmsg_recv_and_deal next reads
    if ok
        then if ltb 0 (buf_raw_data_len next.recv_cache)
          then (do (ms', end) ← later; some (ms ++ ms', end))
          else some (ms, returned true next)
        else some (ms, returned false (record ctx { recv_cache = cache' }))
