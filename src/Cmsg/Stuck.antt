-- ===== src/Cmsg/Stuck.antt =====
-- src/com_msg.c at a message that is larger than the cache of the receiver.
use myclib.Prelude.{
  ℕ, ◌-◌, ◌<◌, ◌≡◌, refl, Bool, true, some, List, [], ◌∷◌, map, ltb, length, arith, append-nil,
}
use myclib.Cmsg.{CmsgType, Cmsg, Ctx, deal_loop, waiting, cmsg_recv_and_deal}
use myclib.Cmsg.Frames.{Sent, Sendable}
use myclib.Cmsg.Reads.{Begins, get_part}

-- a context whose cache is full of these octets
abbrev pub full : CmsgType → List Cmsg → List ℕ → Ctx
full kind msgs octets = record {
  kind = kind;
  msgs = msgs;
  recv_cache = record { end = length octets; bytes = octets; pos = 0 };
}

-- Once the beginning of a frame that is larger than the cache fills the cache, `cmsg_recv_and_deal`
-- never returns: after any number of successful reads, whatever they bring, it has dealt with no
-- message, its cache is what it was, and it reads on.
pub cmsg_recv_and_deal-stuck :
    (memory : ℕ → Bool) (kind : CmsgType) (msgs : List Cmsg) (m : Sent) (part end : List ℕ)
    (reads : List (List ℕ))
    → Sendable m
    → Begins m part end
    → 0 < length part
    → cmsg_recv_and_deal memory (full kind msgs part) (map some reads)
      ≡ some ([], waiting (full kind msgs part))
unfolding cmsg_recv_and_deal deal_loop
cmsg_recv_and_deal-stuck memory kind msgs m part end [] s b h = refl
cmsg_recv_and_deal-stuck memory kind msgs m part end (octets ∷ reads) s b h =
    let ctx = full kind msgs part in
    let no_room : length part - length part ≡ 0 = omega arith in
    let wait = get_part memory m part end s b ctx.recv_cache refl in
    let more : ltb 0 (length part - 0) ≡ true = ground arith in
    simp
      (
        no_room,
        append-nil part,
        wait,
        more,
        cmsg_recv_and_deal-stuck memory kind msgs m part end reads s b h,
      )
      refl
