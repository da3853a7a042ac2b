-- ===== src/Muniq/Ints.antt =====
-- The ints of tools/muniq/muniq.c.
use myclib.Prelude.{ℕ, ◌+◌, ◌*◌, ◌^◌, ◌<◌, ◌≡◌, true, arith}
use myclib.Muniq.{fits_ints}

pub fits_ints_lem :
    (n max_repeat : ℕ)
    → 0 < n
    → n < 2 ^ 31
    → max_repeat * 2 + 1 < 2 ^ 31
    → fits_ints n max_repeat ≡ true
unfolding fits_ints
fits_ints_lem n max_repeat nonempty small lines = ground (arith, nonempty, small, lines)
