-- ===== src/Ring/Bounds.antt =====
-- The representation invariant of `ring_t`, and that each function of ring.h keeps it.
use myclib.Prelude.{
  ℕ, ◌+◌, ◌-◌, ◌*◌, ◌^◌, ◌≤◌, ◌<◌, ◌≡◌, none, some, arith, ltb, leb, ◌&&◌, if◌then◌else◌,
}
use myclib.Ring.{Ring, offset, ring_new, ring_expand, advance, ring_tighten}

offset_lem : (size i : ℕ) → 0 < size → i * size < 2 ^ 32 → offset size i ≡ i
unfolding offset
offset_lem size i p h = grind arith

-- the index of the `k`-th element
abbrev pub slot : {A : Type 0} → Ring A → ℕ → ℕ
slot r k = let i = r.idx_begin + k in if ltb i r.cap then i else i - r.cap

pub record IsValid {A : Type 0} (r : Ring A) : Type 0 where
  pub sized : 0 < r.size
  pub fits : r.cap * r.size < 2 ^ 32
  pub small : r.cap ≤ 2 ^ 31
  pub storage : r.elts.room ≡ r.cap
  pub begin_in : r.idx_begin < r.cap
  pub end_at : r.idx_end ≡ slot r r.nelts
  pub count_in : r.nelts ≤ r.cap

-- What `ring_expand` needs, so that the doubled size is no overflow.
pub record CanGrow {A : Type 0} (r : Ring A) : Type 0 where
  pub twice_fits : r.cap * 2 * r.size < 2 ^ 32
  pub twice_small : r.cap * 2 ≤ 2 ^ 31

module _ {A : Type 0} where
  pub offset_in : {r : Ring A} (i : ℕ) → IsValid r → i ≤ r.cap → offset r.size i ≡ i
  offset_in {r} i v h = offset_lem r.size i v.sized (grind arith)

  pub ring_new-IsValid :
      (cap size : ℕ)
      → 0 < cap
      → 0 < size
      → cap * size < 2 ^ 32
      → cap ≤ 2 ^ 31
      → IsValid (ring_new {A = A} cap size)
  unfolding ring_new
  ring_new-IsValid cap size p q h s = record {
    sized = q;
    fits = h;
    small = s;
    storage = offset_lem size cap q h;
    begin_in = p;
    end_at = ground arith;
    count_in = omega arith;
  }

  -- the ring that `ring_expand` makes of a full one
  abbrev pub expanded : Ring A → Ring A
  expanded r = record r {
    cap = r.cap * 2;
    idx_end = r.cap + r.idx_end;
    elts = record {
      room = r.cap * 2;
      cell = λ k.
          if leb r.cap k && ltb k (r.cap + r.idx_end)
          then r.elts.cell (0 + (k - r.cap))
          else (if leb r.idx_begin k && ltb k (r.idx_begin + (r.cap - r.idx_begin))
              then r.elts.cell (r.idx_begin + (k - r.idx_begin))
              else none);
    };
  }

  pub ring_expand_lem :
      {r : Ring A} → IsValid r → CanGrow r → r.nelts ≡ r.cap → ring_expand r ≡ some (expanded r)
  unfolding ring_expand
  ring_expand_lem {r} v g full = ground (
    arith,
    offset_in r.idx_begin v,
    offset_in r.idx_end v,
    offset_in (r.cap - r.idx_begin) v,
    offset_in r.cap v,
    offset_lem r.size (r.cap * 2) v.sized,
  )

  pub expanded-IsValid :
      {r : Ring A} → IsValid r → CanGrow r → r.nelts ≡ r.cap → IsValid (expanded r)
  expanded-IsValid v g full = ground arith

  pub advance-IsValid : {r : Ring A} → IsValid r → r.nelts < r.cap → IsValid (advance r)
  unfolding advance
  advance-IsValid v h = ground arith

  pub ring_tighten-IsValid : {r : Ring A} (step : ℕ) → IsValid r → IsValid (ring_tighten r step)
  unfolding ring_tighten
  ring_tighten-IsValid step v = ground arith
