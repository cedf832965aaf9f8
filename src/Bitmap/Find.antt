-- ===== src/Bitmap/Find.antt =====
-- What `find_next_bit` finds.
use Prim.Native.Nat.{bit_and}
use uoft_operating_systems.Common.{
  ℕ, zero, suc, ◌+◌, ◌-◌, ◌*◌, ◌/◌, ◌%◌, ◌^◌, ◌<◌, ◌≡◌, refl, ap, ◌∙◌, arith, true, false, not,
  ◌==◌, Bool-cases, inl, inr, Option, some, none, List, length, ok, Returns,
}
use uoft_operating_systems.Bitmap.{load, scan_byte, find_from, find_next_bit}
use uoft_operating_systems.Bitmap.Laws.{is_set, bit_at, bit_at-load, load_exact}

-- What the scan of a byte gives.
pub data Scanned (x : ℕ) : Option ℕ → Type 0 where
  all_set : ((i : ℕ) → i < 8 → is_set x i ≡ true) → Scanned x none
  clear :
      (j : ℕ)
      → j < 8
      → is_set x j ≡ false
      → ((i : ℕ) → i < j → is_set x i ≡ true)
      → Scanned x (some j)

pub scan_byte-Scanned :
    (n j x : ℕ) → n + j ≡ 8 → ((i : ℕ) → i < j → is_set x i ≡ true) → Scanned x (scan_byte n j x)
unfolding scan_byte is_set
scan_byte-Scanned zero j x e set = all_set (λ i h. set i (omega arith))
scan_byte-Scanned (suc n) j x e set = elim (Bool-cases (bit_and x (2 ^ (7 - j)) == 0)) [
  | inl none_there ↦ rw none_there (clear j (omega arith) (rw none_there refl) set)
  | inr there ↦ rw there (scan_byte-Scanned n (suc j) x (omega arith) (λ i h. more there i h))
]
  where
    more :
        (bit_and x (2 ^ (7 - j)) == 0) ≡ false
        → (i : ℕ) → i < suc j
        → not (bit_and x (2 ^ (7 - i)) == 0) ≡ true
    more there i h = elim (Bool-cases (i == j)) [
      | inl same ↦ ap (λ k. not (bit_and x (2 ^ (7 - k)) == 0)) (ground arith) ∙ ap not there
      | inr other ↦ set i (ground arith)
    ]

-- -1 if every bit of the map is set; else the place within its byte of the first bit that is clear.
pub data Found (map : List ℕ) : Option ℕ → Type 0 where
  full : ((k : ℕ) → k < 8 * length map → bit_at map k ≡ ok true) → Found map none
  first_clear :
      (byte j : ℕ)
      → j < 8
      → bit_at map (8 * byte + j) ≡ ok false
      → ((k : ℕ) → k < 8 * byte + j → bit_at map k ≡ ok true)
      → Found map (some j)

-- The bits below a place of the byte `b` are set when those of the bytes before are.
pub bits_below :
    (map : List ℕ) (b x j : ℕ)
    → load map b ≡ ok x
    → ((k : ℕ) → k < 8 * b → bit_at map k ≡ ok true)
    → ((i : ℕ) → i < j → is_set x i ≡ true)
    → j < 9
    → (k : ℕ) → k < 8 * b + j
    → bit_at map k ≡ ok true
bits_below map b x j l set before small k h = elim (Bool-cases (k / 8 == b)) [
  | inl here ↦ bit_at-load map k b x (ground arith) l ∙ ap ok (before (k % 8) (ground arith))
  | inr there ↦ set k (ground arith)
]

find_from-Found :
    (n b : ℕ) (map : List ℕ)
    → n + b ≡ length map
    → ((k : ℕ) → k < 8 * b → bit_at map k ≡ ok true)
    → Returns (Found map) (find_from n b map)
unfolding find_from
find_from-Found zero b map e set = full (λ k h. set k (omega arith))
find_from-Found (suc n) b map e set =
    let (x, l) = load_exact map b (omega arith) in
    rw l (
      scanned (find_from-Found n (suc b) map (omega arith)) x l (scan_byte 8 0 x)
        (scan_byte-Scanned 8 0 x refl (λ i h. absurd (omega arith))))
  where
    scanned :
        (((k : ℕ) → k < 8 * suc b → bit_at map k ≡ ok true)
          → Returns (Found map) (find_from n (suc b) map))
        → (x : ℕ) → load map b ≡ ok x
        → (r : Option ℕ) → Scanned x r
        → Returns (Found map) (elim r [ some j ↦ ok (some j) | none ↦ find_from n (suc b) map ])
    scanned rest x l none (all_set all) =
        rest (λ k h. bits_below map b x 8 l set all (omega arith) k (omega arith))
    scanned rest x l (some _) (clear j small off before) =
        first_clear b j small
          (bit_at-load map (8 * b + j) b x (omega arith) l
            ∙ ap ok (ap (is_set x) (omega arith) ∙ off))
          (bits_below map b x j l set before (omega arith))

-- On a map of 4096 bytes, `find_next_bit` ends within its bounds: it gives -1 just when every bit is
-- set, and otherwise the place within its byte of the first bit of the map that is clear.
pub find_next_bit-Found :
    (map : List ℕ) → length map ≡ 4096 → Returns (Found map) (find_next_bit map)
unfolding find_next_bit
find_next_bit-Found map e = find_from-Found 4096 0 map (omega arith) (λ k h. absurd (omega arith))
