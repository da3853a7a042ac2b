-- ===== src/Prelude/Memory.antt =====
-- A block of memory that `malloc` returned, as an array of cells of one type.
-- `room` is the number of cells that were asked for; a cell that was never written holds `none`.
-- A read or a write outside the block is a fault, `none`.
use Prim.Native.Nat.{ℕ, ◌+◌, ◌-◌}
use mathlib.Core.Bool.{◌&&◌}
use mathlib.Core.Option.{Option, none, some}
use myclib.Prelude.Tests.{ltb, leb, ◌==◌, if◌then◌else◌, check}

pub record Block {ℓ} (A : Type ℓ) : Type ℓ where
  pub room : ℕ
  pub cell : ℕ → Option A

module _ {ℓ} {A : Type ℓ} where
  abbrev pub malloc : ℕ → Block A
  malloc n = record { room = n; cell = λ _. none }

  abbrev pub load : Block A → ℕ → Option A
  load b i = check (ltb i b.room) (b.cell i)

  abbrev pub store : Block A → ℕ → A → Option (Block A)
  store b i v =
      check (ltb i b.room) (some (record b { cell = λ k. if k == i then some v else b.cell k }))

  -- `memcpy(dst + d, src + s, n)`. The cells of `src` are those from before the call, so that with
  -- `src` the block `dst` itself it is `memmove`.
  abbrev pub memcpy : Block A → ℕ → Block A → ℕ → ℕ → Option (Block A)
  memcpy dst d src s n = check (leb (d + n) dst.room && leb (s + n) src.room) (
      some (record dst {
        cell = λ k. if leb d k && ltb k (d + n) then src.cell (s + (k - d)) else dst.cell k;
      }))
