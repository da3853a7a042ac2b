-- ===== src/Bitmap.antt =====
-- src/bitmap.c: a set of numbers, one bit to a number, in words of 32 bits.
-- The words are a block of memory; `none` in their place is `NULL`. What `calloc` returns is an
-- argument. `1 << 31`, which overflows an `int`, is taken for the word with the highest bit.

pub mod Bits
pub mod Words
pub mod Run
mod Examples
use Prim.Native.Nat.{bit_and, bit_or}
use myclib.Prelude.{
  ℕ, ◌+◌, ◌-◌, ◌/◌, ◌%◌, ◌^◌, Bool, true, false, not, Option, none, some, ◌==◌, if◌then◌else◌,
  ◌>>=◌, u32, Block, load, store,
}

pub record Bitmap : Type 0 where
  pub size : ℕ
  pub bitmap : Option (Block ℕ)

-- `calloc` of words
abbrev pub zeroed : ℕ → Block ℕ
zeroed n = record { room = n; cell = λ i. some 0 }

-- `bitmap_alloc`, where `calloc` succeeds if it is granted
unfoldable pub bitmap_alloc : Bool → ℕ → Bitmap
bitmap_alloc granted size =
    let n = u32 (size + 31) / 32 in
    record { size = n; bitmap = if granted then some (zeroed n) else none }

unfoldable pub bitmap_init : Bitmap
bitmap_init = record { size = 0; bitmap = none }

-- `1 << offset`
abbrev pub bit_mask : ℕ → ℕ
bit_mask offset = 2 ^ offset

-- a word in place of another one
abbrev pub set_word : Bitmap → Block ℕ → Bitmap
set_word bmp words = record bmp { bitmap = some words }

unfoldable pub bitmap_set : Bitmap → ℕ → Option Bitmap
bitmap_set bmp pos =
    let index = pos / 32 in
    let offset = pos % 32 in
    bmp.bitmap >>= λ words. load words index >>= λ w.
    store words index (bit_or w (bit_mask offset)) >>= λ words'. some (set_word bmp words')

unfoldable pub bitmap_get : Bitmap → ℕ → Option Bool
bitmap_get bmp pos =
    let index = pos / 32 in
    let offset = pos % 32 in
    bmp.bitmap >>= λ words. load words index >>= λ w. some (not (bit_and w (bit_mask offset) == 0))

unfoldable pub bitmap_clear : Bitmap → ℕ → Option Bitmap
bitmap_clear bmp pos =
    let index = pos / 32 in
    let offset = pos % 32 in
    bmp.bitmap >>= λ words. load words index >>= λ w.
    store words index (bit_and w (2 ^ 32 - 1 - bit_mask offset)) >>= λ words'.
    some (set_word bmp words')

-- `bitmap_free`: the bitmap, and whether `free` is called
unfoldable pub bitmap_free : Bitmap → Bitmap × Bool
bitmap_free bmp = elim bmp.bitmap [
  | none ↦ (bmp, false)
  | some words ↦ (record bmp { bitmap = none }, true)
]
