-- ===== src/Bitmap/Tests.antt =====
-- A bitmap of two bytes, and one of 4096.
use uoft_operating_systems.Common.{
  ℕ, ◌≡◌, refl, List, [], ◌∷◌, replicate, arith, ok, Returns, length, if◌then◌else◌, ◌==◌,
}
use uoft_operating_systems.Bitmap.{modify, find_next_bit}
use uoft_operating_systems.Bitmap.Laws.{bit_at, modify-bit_at}
use uoft_operating_systems.Bitmap.Find.{Found, find_next_bit-Found}

abbrev two_bytes : List ℕ
two_bytes = 0x80 ∷ 0xFF ∷ []

modify-bit_at_example :
    (map' : List ℕ) × (modify two_bytes 9 0 ≡ ok map')
    × (length map' ≡ 2)
    × (bit_at map' 10 ≡ (if 10 == 9 then ok (0 == 1) else bit_at two_bytes 10))
modify-bit_at_example = modify-bit_at two_bytes 9 0 10 (omega arith) (omega arith)

-- The first bit of the first byte is set, no other.
abbrev fresh : List ℕ
fresh = 0x80 ∷ replicate 4095 0

find_next_bit-Found_example : Returns (Found fresh) (find_next_bit fresh)
find_next_bit-Found_example = find_next_bit-Found fresh refl
