-- ===== src/Cmsg/Examples.antt =====
-- The functions of src/com_msg.c at two short messages.
use myclib.Prelude.{ℕ, ◌≡◌, refl, Bool, true, false, some, List, [], ◌∷◌, ◌++◌, map, arith}
use myclib.Buf.{Buf, raw_data, buf_init}
use myclib.Cmsg.{
  Cmsg, Ctx, cmsg_inner, cmsg_server, insufficient, cmsg_data_get_from_buf, cmsg_deal, cmsg_send,
  returned, waiting, cmsg_recv_and_deal,
}
use myclib.Cmsg.Frames.{Sent, data_of, frame_of, Dealt}
use myclib.Cmsg.Reads.{get_part, cmsg_recv_and_deal-split}
use myclib.Cmsg.Stuck.{full, cmsg_recv_and_deal-stuck}

abbrev memory : ℕ → Bool
memory n = true

always : (n : ℕ) → memory n ≡ true
always n = refl

abbrev handler : ℕ → Cmsg
handler id = record { id = id; deal_req = λ p. true; deal_resp = λ p. false }

abbrev ctx : Ctx
ctx = record { kind = cmsg_inner; msgs = handler 1 ∷ handler 300 ∷ []; recv_cache = buf_init 1024 }

abbrev hello : Sent
hello = record { id = 300; payload = 104 ∷ 105 ∷ [] }

abbrev null : Sent
null = record { id = 1; payload = [] }

sent_octets :
    cmsg_send ctx 300 (104 ∷ 105 ∷ []) ≡ some (44 ∷ 1 ∷ 0 ∷ 0 ∷ 2 ∷ 0 ∷ 0 ∷ 0 ∷ 104 ∷ 105 ∷ [])
unfolding cmsg_send
sent_octets = refl

hello-Dealt : Dealt memory always ctx hello
unfolding cmsg_deal
hello-Dealt = ((omega arith, omega arith), refl)

null-Dealt : Dealt memory always ctx null
unfolding cmsg_deal
null-Dealt = ((omega arith, omega arith), refl)

abbrev arrived : Buf
arrived = record { end = 1024; bytes = frame_of hello ++ frame_of null ++ 1 ∷ 0 ∷ []; pos = 0 }

waits : (b : Buf) → raw_data b ≡ 1 ∷ 0 ∷ [] → cmsg_data_get_from_buf memory b ≡ some insufficient
waits b e =
    get_part memory null (1 ∷ 0 ∷ []) (0 ∷ 0 ∷ 0 ∷ 0 ∷ 0 ∷ 0 ∷ []) (omega arith, omega arith)
      (refl, omega arith) b e

abbrev part : List ℕ
part = 44 ∷ 1 ∷ 0 ∷ 0 ∷ 2 ∷ 0 ∷ 0 ∷ 0 ∷ 104 ∷ []

cmsg_recv_and_deal-split_example :
    (ctx' : Ctx) × (cmsg_recv_and_deal memory ctx
        (some (frame_of null ++ part) ∷ some (105 ∷ frame_of null) ∷ [])
      ≡ some (data_of null ∷ data_of hello ∷ data_of null ∷ [], returned true ctx'))
    × (ctx'.recv_cache.bytes ≡ [])
cmsg_recv_and_deal-split_example =
    cmsg_recv_and_deal-split memory always ctx (null ∷ []) (null ∷ []) hello part (105 ∷ []) refl
      refl (refl, omega arith) (omega arith) (null-Dealt, tt) (hello-Dealt, (null-Dealt, tt))
      (omega arith) (omega arith)

cmsg_recv_and_deal-stuck_example :
    cmsg_recv_and_deal memory (full cmsg_server [] part) (map some ((7 ∷ []) ∷ [] ∷ []))
    ≡ some ([], waiting (full cmsg_server [] part))
cmsg_recv_and_deal-stuck_example =
    cmsg_recv_and_deal-stuck memory cmsg_server [] hello part (105 ∷ []) ((7 ∷ []) ∷ [] ∷ [])
      (omega arith, omega arith) (refl, omega arith) (omega arith)
