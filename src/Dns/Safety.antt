-- ===== src/Dns/Safety.antt =====
-- `parse_name` of src/dns.c stays in the packet and in the name.
use Prim.Native.Nat.{bit_and}
use myclib.Prelude.{
  ℕ, zero, suc, ◌+◌, ◌≤◌, ◌<◌, ◌≡◌, List, [], ◌∷◌, ◌++◌, ltb, ◌==◌, if◌then◌else◌, length,
  length-append, length-map, arith,
}
use myclib.Dns.{Packet, write_name, name_loop, parse_name}
use myclib.Outcome.{ok, Returns, Returns-bind, Returns-mono, Returns-if}
use myclib.Dns.Reads.{octets, length-octets, read-ok, read_bytes-ok, write_name-ok}

-- the name with the dot before the next label
abbrev pub dotted : List ℕ → List ℕ
dotted name = if ltb 0 (length name) then name ++ b'.' ∷ [] else name

length-dotted : (name : List ℕ) → length (dotted name) ≤ length name + 1
length-dotted name = ground (arith, length-append name (b'.' ∷ []))

pub dot-ok :
    (name : List ℕ)
    → length name + 1 ≤ 256
    → (if ltb 0 (length name) then write_name name (b'.' ∷ []) else ok name) ≡ ok (dotted name)
dot-ok name h = ground (arith, write_name-ok name (b'.' ∷ []))

module _ (pkt : Packet) where
  -- the parser has moved on from `start`, within the packet
  abbrev pub Moved : ℕ → ℕ → Type 0
  Moved start ptr = (start < ptr) × (ptr ≤ pkt.len)

  name_loop-Returns :
      (fuel ptr : ℕ) (name : List ℕ)
      → pkt.len < fuel + ptr
      → ptr ≤ pkt.len
      → length name ≤ 255
      → Returns (λ (p, out). Moved ptr p × (length out ≤ 255)) (name_loop pkt fuel ptr name)
  unfolding name_loop
  name_loop-Returns zero ptr name f h l = absurd (omega arith)
  name_loop-Returns (suc fuel) ptr name f h l =
      let Q : ℕ × List ℕ → Type 0 = λ (p, out). Moved ptr p × (length out ≤ 255) in
      let n = pkt.byte ptr in
      let long = length-octets pkt n (ptr + 1) in
      Returns-if Q (ptr == pkt.len) _ _ (λ e. tt)
        λ e. rw (read-ok pkt ptr (ground arith)) (
          Returns-if Q (n == 0) _ _ (λ e₁. ground arith)
            λ e₁.
              Returns-if Q (bit_and n 0xC0 == 0xC0) _ _
                (λ e₂. Returns-if Q (ltb pkt.len (ptr + 2)) _ _ (λ e₃. tt) (λ e₃. ground arith))
                λ e₂.
                  Returns-if Q (ltb pkt.len (ptr + 1 + n)) _ _ (λ e₃. tt)
                    λ e₃.
                      Returns-if Q (ltb 256 (length name + n + 2)) _ _ (λ e₄. tt)
                        λ e₄.
                          rw
                            (
                              dot-ok name (ground arith),
                              read_bytes-ok pkt n (ptr + 1) (ground arith),
                              write_name-ok (dotted name) (octets pkt n (ptr + 1))
                                  (ground (arith, length-dotted name, long)),
                            )
                            (Returns-mono _ Q _
                              (name_loop-Returns fuel (ptr + 1 + n)
                                (dotted name ++ octets pkt n (ptr + 1)) (omega arith) (ground arith)
                                (ground (
                                  arith,
                                  length-append (dotted name) (octets pkt n (ptr + 1)),
                                  length-dotted name,
                                  long,
                                )))
                              (λ (p, out) moved. omega arith)))

  -- what a parser of an entry at `start` returns
  abbrev pub Entered : {A : Type 0} → ℕ → ℕ × A → Type 0
  Entered start (ptr, a) = Moved start ptr

  -- `parse_name` at an offset in the packet ends, whatever the bytes are: it reads inside the packet,
  -- writes at most 256 bytes with the terminating 0, and where it does not return -1 it has consumed
  -- at least one byte and at most the packet.
  pub parse_name-Returns :
      (ptr : ℕ)
      → ptr ≤ pkt.len
      → Returns (λ (ptr', name). Moved ptr ptr' × (length name ≤ 255)) (parse_name pkt ptr)
  unfolding parse_name
  parse_name-Returns ptr h =
      let Q : ℕ × List ℕ → Type 0 = λ (p, out). Moved ptr p × (length out ≤ 255) in
      Returns-bind Q Q (name_loop pkt (pkt.len + 1) ptr []) _
        (name_loop-Returns (pkt.len + 1) ptr [] (omega arith) h (omega arith))
        λ (p, out) (moved, short).
          rw (write_name-ok out (0 ∷ []) (omega arith)) (moved, rw length-map short)
