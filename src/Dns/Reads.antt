-- ===== src/Dns/Reads.antt =====
-- Reads of a packet and writes of a name in src/dns.c that stay in their buffers.
use myclib.Prelude.{
  ℕ, zero, suc, ◌+◌, ◌*◌, ◌≤◌, ◌<◌, ◌≡◌, refl, List, [], ◌∷◌, ◌++◌, length, length-append, arith,
  ap,
}
use myclib.Dns.{Packet, read, read_bytes, read16, read32, write_name}
use myclib.Outcome.{ok}

-- the `n` octets from `i` on
abbrev pub octets : Packet → ℕ → ℕ → List ℕ
octets pkt zero i = []
octets pkt (suc n) i = pkt.byte i ∷ octets pkt n (i + 1)

pub length-octets : (pkt : Packet) (n i : ℕ) → length (octets pkt n i) ≡ n
length-octets pkt zero i = refl
length-octets pkt (suc n) i = ap suc (length-octets pkt n (i + 1))

abbrev pub octets16 : Packet → ℕ → ℕ
octets16 pkt i = pkt.byte i * 256 + pkt.byte (i + 1)

module _ (pkt : Packet) where
  pub read-ok : (i : ℕ) → i < pkt.len → read pkt i ≡ ok (pkt.byte i)
  unfolding read
  read-ok i h = ground arith

  pub read_bytes-ok : (n i : ℕ) → i + n ≤ pkt.len → read_bytes pkt n i ≡ ok (octets pkt n i)
  unfolding read_bytes
  read_bytes-ok zero i h = refl
  read_bytes-ok (suc n) i h = rw (read-ok i (omega arith), read_bytes-ok n (i + 1) (omega arith))

  pub read16-ok : (i : ℕ) → i + 2 ≤ pkt.len → read16 pkt i ≡ ok (octets16 pkt i)
  unfolding read16
  read16-ok i h = rw (read-ok i (omega arith), read-ok (i + 1) (omega arith))

  pub read32-ok :
      (i : ℕ) → i + 4 ≤ pkt.len → read32 pkt i ≡ ok (octets16 pkt i * 65536 + octets16 pkt (i + 2))
  unfolding read32
  read32-ok i h = rw (read16-ok i (omega arith), read16-ok (i + 2) (omega arith))

pub write_name-ok :
    (name bytes : List ℕ)
    → length name + length bytes ≤ 256
    → write_name name bytes ≡ ok (name ++ bytes)
unfolding write_name
write_name-ok name bytes h = ground (arith, length-append name bytes)
