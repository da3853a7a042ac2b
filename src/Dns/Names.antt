-- ===== src/Dns/Names.antt =====
-- `parse_name` of src/dns.c on a name that is written out in the packet.
use Prim.Native.Nat.{bit_and}
use mathlib.Core.Path.{subst}
use myclib.Prelude.{
  ℕ, zero, suc, ◌+◌, ◌≤◌, ◌<◌, ◌≡◌, refl, ap, ◌∙◌, false, List, [], ◌∷◌, ◌++◌, map, All, ltb, ◌==◌,
  length, length-append, arith,
}
use myclib.Dns.{Packet, to_lower, read, read_bytes, name_loop, parse_name}
use myclib.Outcome.{ok}
use myclib.Dns.Reads.{octets, read-ok, read_bytes-ok, write_name-ok}
use myclib.Dns.Safety.{dotted, dot-ok}

-- a label of a name: not empty, and its length is not the mark of a pointer
abbrev pub IsLabel : List ℕ → Type 0
IsLabel l = (0 < length l) × (bit_and (length l) 0xC0 == 0xC0 ≡ false)

-- the octets of a name: each label behind its length, and a 0
abbrev pub encode : List (List ℕ) → List ℕ
encode [] = 0 ∷ []
encode (l ∷ ls) = length l ∷ l ++ encode ls

-- `name` with these labels behind it, with dots between labels
abbrev pub join : List ℕ → List (List ℕ) → List ℕ
join name [] = name
join name (l ∷ ls) = join (dotted name ++ l) ls

length-join : (ls : List (List ℕ)) (name : List ℕ) → length name ≤ length (join name ls)
length-join [] name = omega arith
length-join (l ∷ ls) name = ground (
  arith,
  length-join ls (dotted name ++ l),
  length-append (dotted name) l,
  length-append name (b'.' ∷ []),
)

dotted-longer : (name : List ℕ) → length name ≤ length (dotted name)
dotted-longer name = ground (arith, length-append name (b'.' ∷ []))

length-encode : (ls : List (List ℕ)) → length ls < length (encode ls)
length-encode [] = omega arith
length-encode (l ∷ ls) = omega (arith, length-append l (encode ls), length-encode ls)

module _ (pkt : Packet) where
  -- these octets stand in the packet from an offset on
  abbrev pub Stands : ℕ → List ℕ → Type 0
  Stands i [] = Unit
  Stands i (x ∷ xs) = (pkt.byte i ≡ x) × Stands (i + 1) xs

  Stands-append :
      (xs ys : List ℕ) (i : ℕ)
      → Stands i (xs ++ ys)
      → Stands (i + length xs) ys × (octets pkt (length xs) i ≡ xs)
  Stands-append [] ys i s =
      let here : i ≡ i + 0 = omega arith in (subst (λ j. Stands j ys) here s, refl)
  Stands-append (x ∷ xs) ys i s =
      let (rest, e) = Stands-append xs ys (i + 1) s.1 in
      let there : i + 1 + length xs ≡ i + suc (length xs) = omega arith in
      (subst (λ j. Stands j ys) there rest, rw (s.0, e) refl)

  name_loop-encode :
      (fuel : ℕ) (ls : List (List ℕ)) (ptr : ℕ) (name : List ℕ)
      → length ls < fuel
      → ptr + length (encode ls) ≤ pkt.len
      → Stands ptr (encode ls)
      → All IsLabel ls
      → length (join name ls) + 2 ≤ 256
      → name_loop pkt fuel ptr name ≡ ok (ptr + length (encode ls), join name ls)
  unfolding name_loop
  name_loop-encode zero ls ptr name f h s all room = absurd (omega arith)
  name_loop-encode (suc fuel) [] ptr name f h s all room =
      let inside : ptr == pkt.len ≡ false = ground arith in
      let byte : read pkt ptr ≡ ok 0 = read-ok pkt ptr (omega arith) ∙ ap ok s.0 in
      rw (inside, byte) refl
  name_loop-encode (suc fuel) (l ∷ ls) ptr name f h s all room =
      let n = length l in
      let inside : ptr == pkt.len ≡ false = ground arith in
      let sizes : length (l ++ encode ls) ≡ n + length (encode ls) = length-append l (encode ls) in
      let byte : read pkt ptr ≡ ok n = read-ok pkt ptr (omega (arith, h)) ∙ ap ok s.0 in
      let positive : n == 0 ≡ false = ground (arith, all.0.0) in
      let whole : ltb pkt.len (ptr + 1 + n) ≡ false = ground (arith, sizes, h) in
      let longer = length-join ls (dotted name ++ l) in
      let long = length-append (dotted name) l in
      let fits : ltb 256 (length name + n + 2) ≡ false =
        ground (arith, longer, long, room, length-append name (b'.' ∷ [])) in
      let (rest, e) = Stands-append l (encode ls) (ptr + 1) s.1 in
      let label : read_bytes pkt n (ptr + 1) ≡ ok l =
        read_bytes-ok pkt n (ptr + 1) (omega (arith, sizes, h)) ∙ ap ok e in
      let later =
        name_loop-encode fuel ls (ptr + 1 + n) (dotted name ++ l) (omega arith)
          (omega (arith, sizes, h)) rest all.1 room in
      let place : ptr + 1 + n + length (encode ls) ≡ ptr + suc (length (l ++ encode ls)) =
        omega (arith, sizes) in
      simp
        (
          inside,
          byte,
          positive,
          all.0.1,
          whole,
          fits,
          dot-ok name (omega (arith, dotted-longer name, longer, long, room)),
          label,
          write_name-ok (dotted name) l (omega (arith, longer, long, room)),
          later,
          place,
        )
        refl

  -- A name whose labels are written out in the packet, each behind its length, comes back as these
  -- labels with dots between them, in lower case, and the parser stands behind the final 0. The name
  -- must leave two bytes of the 256 free.
  pub parse_name-encode :
      (ls : List (List ℕ)) (ptr : ℕ)
      → ptr + length (encode ls) ≤ pkt.len
      → Stands ptr (encode ls)
      → All IsLabel ls
      → length (join [] ls) + 2 ≤ 256
      → parse_name pkt ptr ≡ ok (ptr + length (encode ls), map to_lower (join [] ls))
  unfolding parse_name
  parse_name-encode ls ptr h s all room =
      let loop =
        name_loop-encode (pkt.len + 1) ls ptr [] (omega (arith, length-encode ls, h)) h s all
          room in
      simp (loop, write_name-ok (join [] ls) (0 ∷ []) (omega (arith, room))) refl
