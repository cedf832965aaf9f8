-- ===== src/Bitmap.antt =====
-- The bitmaps of a1_filesystem/a1fs.c: bit `index` is counted from the highest bit of the first byte
-- on. A map is its list of bytes.
pub mod Bits
pub mod Laws
pub mod Find
mod Tests
use Prim.Native.Nat.{bit_and, bit_or}
use uoft_operating_systems.Common.{
  ℕ, zero, suc, ◌-◌, ◌/◌, ◌%◌, ◌^◌, List, [], ◌∷◌, Run, ok, stop, out_of_bounds, ◌>>=◌, ◌==◌,
  if◌then◌else◌, Option, none, some,
}

-- `map[i]`, and `map[i] = byte`.
unfoldable pub load : List ℕ → ℕ → Run ℕ
load [] i = stop out_of_bounds
load (x ∷ xs) zero = ok x
load (x ∷ xs) (suc i) = load xs i

unfoldable pub store : List ℕ → ℕ → ℕ → Run (List ℕ)
store [] i byte = stop out_of_bounds
store (x ∷ xs) zero byte = ok (byte ∷ xs)
store (x ∷ xs) (suc i) byte = store xs i byte >>= λ ys. ok (x ∷ ys)

-- `mask` is an unsigned char, so `~mask` is `255 - mask` once it is stored in one.
unfoldable pub modify2 : List ℕ → ℕ → ℕ → ℕ → Run (List ℕ)
modify2 map index mask value = do
  x₁ ← load map (index / 8)
  store map (index / 8) (if value == 1 then bit_or x₁ mask else bit_and x₁ (255 - mask))

unfoldable pub modify : List ℕ → ℕ → ℕ → Run (List ℕ)
modify map index value = do
  x₁ ← load map (index / 8)
  let mask = 2 ^ (7 - index % 8)
  store map (index / 8) (if value == 1 then bit_or x₁ mask else bit_and x₁ (255 - mask))

-- The inner loop of `find_next_bit`, `n` rounds from the bit `j` of the byte on.
unfoldable pub scan_byte : ℕ → ℕ → ℕ → Option ℕ
scan_byte zero j x₁ = none
scan_byte (suc n) j x₁ = if bit_and x₁ (2 ^ (7 - j)) == 0 then some j else scan_byte n (suc j) x₁

-- The outer loop, `n` rounds from the byte `bit_byte` on; `none` is -1.
unfoldable pub find_from : ℕ → ℕ → List ℕ → Run (Option ℕ)
find_from zero bit_byte map = ok none
find_from (suc n) bit_byte map = do
  x₁ ← load map bit_byte
  elim (scan_byte 8 0 x₁) [ some j ↦ ok (some j) | none ↦ find_from n (suc bit_byte) map ]

-- A1FS_BLOCK_SIZE
abbrev pub block_size : ℕ
block_size = 4096

unfoldable pub find_next_bit : List ℕ → Run (Option ℕ)
find_next_bit map = find_from block_size 0 map
