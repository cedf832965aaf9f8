-- ===== src/Bitmap/Bits.antt =====
-- The binary digits of a number, and what the bit operations do to them.
use Prim.Native.Nat.{bit_and, bit_or}
use native.Mathlib.Nat.{pow-suc}
use uoft_operating_systems.Common.{
  ℕ, zero, suc, ◌-◌, ◌*◌, ◌/◌, ◌%◌, ◌^◌, ◌<◌, ◌≡◌, refl, sym, ap, ◌∙◌, arith, ◌==◌, if◌then◌else◌,
}
use uoft_operating_systems.Common.Bits.{bit_and-digit, bit_or-digit, bit_and-one, bit_and-double}

unfoldable pub digit : ℕ → ℕ → ℕ
digit x zero = x % 2
digit x (suc i) = digit (x / 2) i

pub bit_or-digits : (i a b : ℕ) → digit (bit_or a b) i ≡ (if digit a i == 0 then digit b i else 1)
unfolding digit
bit_or-digits zero a b = ground (arith, bit_or-digit a b)
bit_or-digits (suc i) a b =
    ap (λ n. digit n i) (omega (arith, bit_or-digit a b)) ∙ bit_or-digits i (a / 2) (b / 2)

pub bit_and-digits : (i a b : ℕ) → digit (bit_and a b) i ≡ (if digit a i == 0 then 0 else digit b i)
unfolding digit
bit_and-digits zero a b = ground (arith, bit_and-digit a b)
bit_and-digits (suc i) a b =
    ap (λ n. digit n i) (omega (arith, bit_and-digit a b)) ∙ bit_and-digits i (a / 2) (b / 2)

pub digit-bound : (i x : ℕ) → digit x i < 2
unfolding digit
digit-bound zero x = omega arith
digit-bound (suc i) x = digit-bound i (x / 2)

digit-zero : (i : ℕ) → digit 0 i ≡ 0
unfolding digit
digit-zero zero = refl
digit-zero (suc i) = digit-zero i

-- A power of two has one digit, and picks one.
pub digit-power : (k i : ℕ) → digit (2 ^ k) i ≡ (if k == i then 1 else 0)
unfolding digit
digit-power zero zero = refl
digit-power zero (suc i) = digit-zero i ∙ ground arith
digit-power (suc k) zero = ground (arith, pow-suc 2 k)
digit-power (suc k) (suc i) =
    ap (λ n. digit n i) (omega (arith, pow-suc 2 k)) ∙ digit-power k i ∙ ground arith

pub bit_and-power : (k x : ℕ) → bit_and x (2 ^ k) ≡ digit x k * 2 ^ k
unfolding digit
bit_and-power zero x = omega (arith, bit_and-one x)
bit_and-power (suc k) x =
    ap (bit_and x) double
    ∙ bit_and-double x (2 ^ k)
    ∙ ap (λ n. n * 2) (bit_and-power k (x / 2))
    ∙ regroup
    ∙ ap (λ n. digit (x / 2) k * n) (sym double)
  where
    double : 2 ^ suc k ≡ 2 ^ k * 2
    double = omega (arith, pow-suc 2 k)

    regroup : digit (x / 2) k * 2 ^ k * 2 ≡ digit (x / 2) k * (2 ^ k * 2)
    regroup = omega arith

-- The digits of `~m` in a word of `n` bits.
pub digit-complement : (i n m : ℕ) → i < n → m < 2 ^ n → digit (2 ^ n - 1 - m) i ≡ 1 - digit m i
unfolding digit
digit-complement i zero m h small = absurd (omega arith)
digit-complement zero (suc n) m h small = omega (arith, pow-suc 2 n)
digit-complement (suc i) (suc n) m h small =
    ap (λ t. digit t i) (omega (arith, pow-suc 2 n))
    ∙ digit-complement i n (m / 2) (omega arith) (omega (arith, pow-suc 2 n))
