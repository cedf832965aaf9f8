-- ===== src/Common/Bits.antt =====
-- `&` and `|` of the flag words as arithmetic: one equation for the lowest digit, and from it the
-- masks that the sources use.
use Prim.Native.Nat.{
  ℕ, zero, suc, ◌+◌, ◌-◌, ◌*◌, ◌/◌, ◌%◌, ◌^◌, ◌≤◌, ◌<◌, min, max, digits, bit_and, bit_or,
  bit_and-bitwise, bit_or-bitwise,
}
use mathlib.Core.Path.{◌≡◌, refl, ap, sym, ◌∙◌}
use native.Mathlib.Nat.{pow-suc}
use native.Mathlib.Omega.{arith}

-- Fuel beyond the first number's value changes nothing.
module _ (rest : ℕ → ℕ) (op : ℕ → ℕ → ℕ) where
  spent : (fuel b : ℕ) → digits rest op fuel 0 b ≡ rest b
  spent zero b = refl
  spent (suc fuel) b = refl

  surplus :
      (a fuel spare b : ℕ)
      → a ≤ fuel
      → a ≤ spare
      → digits rest op fuel a b ≡ digits rest op spare a b
  surplus zero fuel spare b h k = spent fuel b ∙ sym (spent spare b)
  surplus (suc a) zero spare b h k = absurd (omega arith)
  surplus (suc a) (suc fuel) zero b h k = absurd (omega arith)
  surplus (suc a) (suc fuel) (suc spare) b h k =
      ap (λ d. d * 2 + op (suc a % 2) (b % 2))
        (surplus (suc a / 2) fuel spare (b / 2) (omega arith) (omega arith))

  unrolled :
      (a b : ℕ)
      → digits rest op (suc a) (suc a) b
        ≡ digits rest op (suc a / 2) (suc a / 2) (b / 2) * 2 + op (suc a % 2) (b % 2)
  unrolled a b =
      ap (λ d. d * 2 + op (suc a % 2) (b % 2))
        (surplus (suc a / 2) a (suc a / 2) (b / 2) (omega arith) (omega arith))

pub bit_or-digit : (a b : ℕ) → bit_or a b ≡ bit_or (a / 2) (b / 2) * 2 + max (a % 2) (b % 2)
bit_or-digit zero b = omega (arith, bit_or-bitwise 0 b, bit_or-bitwise 0 (b / 2))
bit_or-digit (suc a) b =
    bit_or-bitwise (suc a) b
    ∙ unrolled (λ y. y) max a b
    ∙ ap (λ d. d * 2 + max (suc a % 2) (b % 2)) (sym (bit_or-bitwise (suc a / 2) (b / 2)))

pub bit_and-digit : (a b : ℕ) → bit_and a b ≡ bit_and (a / 2) (b / 2) * 2 + min (a % 2) (b % 2)
bit_and-digit zero b = omega (arith, bit_and-bitwise 0 b, bit_and-bitwise 0 (b / 2))
bit_and-digit (suc a) b =
    bit_and-bitwise (suc a) b
    ∙ unrolled (λ y. 0) min a b
    ∙ ap (λ d. d * 2 + min (suc a % 2) (b % 2)) (sym (bit_and-bitwise (suc a / 2) (b / 2)))

-- With 0, by the number of digits.
or_zero_within : (k a : ℕ) → a ≤ k → bit_or a 0 ≡ a
or_zero_within zero zero h = refl
or_zero_within zero (suc a) h = absurd (omega arith)
or_zero_within (suc k) zero h = refl
or_zero_within (suc k) (suc a) h =
    omega (arith, bit_or-digit (suc a) 0, or_zero_within k (suc a / 2) (omega arith))

pub bit_or-zero : (a : ℕ) → bit_or a 0 ≡ a
bit_or-zero a = or_zero_within a a (omega arith)

and_zero_within : (k a : ℕ) → a ≤ k → bit_and a 0 ≡ 0
and_zero_within zero zero h = refl
and_zero_within zero (suc a) h = absurd (omega arith)
and_zero_within (suc k) zero h = refl
and_zero_within (suc k) (suc a) h =
    omega (arith, bit_and-digit (suc a) 0, and_zero_within k (suc a / 2) (omega arith))

pub bit_and-zero : (a : ℕ) → bit_and a 0 ≡ 0
bit_and-zero a = and_zero_within a a (omega arith)

-- A mask of `k` ones keeps a number of `k` digits.
pub bit_and_ones : (k a : ℕ) → a < 2 ^ k → bit_and a (2 ^ k - 1) ≡ a
bit_and_ones zero a h = let e : a ≡ 0 = omega arith in rw e refl
bit_and_ones (suc k) a h = omega (
  arith,
  pow-suc 2 k,
  bit_and-digit a (2 ^ suc k - 1),
  half,
  bit_and_ones k (a / 2) (omega (arith, pow-suc 2 k)),
)
  where
    half : bit_and (a / 2) ((2 ^ suc k - 1) / 2) ≡ bit_and (a / 2) (2 ^ k - 1)
    half = ap (bit_and (a / 2)) (omega (arith, pow-suc 2 k))

-- A shifted mask, and the masks of one bit.
module _ (a m : ℕ) where
  pub bit_and-double : bit_and a (m * 2) ≡ bit_and (a / 2) m * 2
  bit_and-double = omega (arith, bit_and-digit a (m * 2), ap (bit_and (a / 2)) back)
    where
      back : m * 2 / 2 ≡ m
      back = omega arith

  pub bit_or-double : bit_or a (m * 2) ≡ bit_or (a / 2) m * 2 + a % 2
  bit_or-double = omega (arith, bit_or-digit a (m * 2), ap (bit_or (a / 2)) back)
    where
      back : m * 2 / 2 ≡ m
      back = omega arith

module _ (a : ℕ) where
  pub bit_and-one : bit_and a 1 ≡ a % 2
  bit_and-one = omega (arith, bit_and-digit a 1, bit_and-zero (a / 2))

  pub bit_or-one : bit_or a 1 ≡ a / 2 * 2 + 1
  bit_or-one = omega (arith, bit_or-digit a 1, bit_or-zero (a / 2))

module _ (a : ℕ) where
  pub bit_and_two : bit_and a 2 ≡ a / 2 % 2 * 2
  bit_and_two = omega (arith, bit_and-double a 1, bit_and-one (a / 2))

  pub bit_or_two : bit_or a 2 ≡ a / 4 * 4 + 2 + a % 2
  bit_or_two = omega (arith, bit_or-double a 1, bit_or-one (a / 2))

module _ (a : ℕ) where
  pub bit_and_four : bit_and a 4 ≡ a / 4 % 2 * 4
  bit_and_four = omega (arith, bit_and-double a 2, bit_and_two (a / 2))

  pub bit_or_four : bit_or a 4 ≡ a / 8 * 8 + 4 + a % 4
  bit_or_four = omega (arith, bit_or-double a 2, bit_or_two (a / 2))

module _ (a : ℕ) where
  pub bit_and_eight : bit_and a 8 ≡ a / 8 % 2 * 8
  bit_and_eight = omega (arith, bit_and-double a 4, bit_and_four (a / 2))

  pub bit_or_eight : bit_or a 8 ≡ a / 16 * 16 + 8 + a % 8
  bit_or_eight = omega (arith, bit_or-double a 4, bit_or_four (a / 2))

  pub bit_and_seven : bit_and a 7 ≡ a % 8
  bit_and_seven = omega (arith, bit_and-digit a 7, bit_and-digit (a / 2) 3, bit_and-one (a / 2 / 2))

-- `~1`, `~2` on 32 bits, and `~7` on 32 and on 64 bits.
module _ (a : ℕ) where
  pub clear_one : a < 2 ^ 32 → bit_and a (2 ^ 32 - 2) ≡ a / 2 * 2
  clear_one h = omega (arith, bit_and-digit a (2 ^ 32 - 2), bit_and_ones 31 (a / 2) (omega arith))

  pub clear_two : a < 2 ^ 32 → bit_and a (2 ^ 32 - 3) ≡ a / 4 * 4 + a % 2
  clear_two h = omega (
    arith,
    bit_and-digit a (2 ^ 32 - 3),
    bit_and-digit (a / 2) (2 ^ 31 - 2),
    bit_and_ones 30 (a / 2 / 2) (omega arith),
  )

  pub clear_seven : a < 2 ^ 32 → bit_and a (2 ^ 32 - 8) ≡ a / 8 * 8
  clear_seven h = omega (
    arith,
    bit_and-digit a (2 ^ 32 - 8),
    bit_and-digit (a / 2) (2 ^ 31 - 4),
    bit_and-digit (a / 2 / 2) (2 ^ 30 - 2),
    bit_and_ones 29 (a / 2 / 2 / 2) (omega arith),
  )

  pub clear_seven_wide : a < 2 ^ 64 → bit_and a (2 ^ 64 - 8) ≡ a / 8 * 8
  clear_seven_wide h = omega (
    arith,
    bit_and-digit a (2 ^ 64 - 8),
    bit_and-digit (a / 2) (2 ^ 63 - 4),
    bit_and-digit (a / 2 / 2) (2 ^ 62 - 2),
    bit_and_ones 61 (a / 2 / 2 / 2) (omega arith),
  )

-- Flags in the three low bits of an aligned pointer.
pub bit_or_low : (p f : ℕ) → f < 8 → bit_or (p * 8) f ≡ p * 8 + f
bit_or_low p f h = omega (
  arith,
  bit_or-digit (p * 8) f,
  bit_or-digit (p * 8 / 2) (f / 2),
  bit_or-digit (p * 8 / 2 / 2) (f / 2 / 2),
  none_left,
)
  where
    none_left : bit_or (p * 8 / 2 / 2 / 2) (f / 2 / 2 / 2) ≡ p
    none_left =
        ap (bit_or (p * 8 / 2 / 2 / 2)) zero_left ∙ bit_or-zero (p * 8 / 2 / 2 / 2) ∙ omega arith
      where
        zero_left : f / 2 / 2 / 2 ≡ 0
        zero_left = omega arith
