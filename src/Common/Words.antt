-- ===== src/Common/Words.antt =====
-- Words by their binary digits: `&` and `|` digit by digit.
use Prim.Native.Nat.{ℕ, zero, suc, ◌+◌, ◌*◌, ◌/◌, ◌%◌, ◌^◌, ◌<◌, min, max, bit_and, bit_or}
use mathlib.Core.Path.{◌≡◌, refl, ◌∙◌}
use mathlib.Core.Bool.{Bool, true, false, not, ◌&&◌, ◌||◌}
use native.Mathlib.Nat.{pow-suc}
use native.Mathlib.Omega.{arith}
use uoft_operating_systems.Common.Tests.{◌==◌, if◌then◌else◌}
use uoft_operating_systems.Common.Bits.{bit_and-digit, bit_or-digit, bit_and-zero}

-- The digit `j` is 1.
unfoldable pub on : ℕ → ℕ → Bool
on zero a = a % 2 == 1
on (suc j) a = on j (a / 2)

-- The number of the digits that `f` gives, and whether it gives one, below `k`.
unfoldable pub word : ℕ → (ℕ → Bool) → ℕ
word zero f = 0
word (suc k) f = word k (λ j. f (suc j)) * 2 + (if f 0 then 1 else 0)

unfoldable pub any : ℕ → (ℕ → Bool) → Bool
any zero f = false
any (suc k) f = f 0 || any k (λ j. f (suc j))

min_digit : (a b : ℕ) → min (a % 2) (b % 2) ≡ (if (a % 2 == 1) && (b % 2 == 1) then 1 else 0)
min_digit a b = ground arith

max_digit : (p q : Bool) → max (if p then 1 else 0) (if q then 1 else 0) ≡ (if p || q then 1 else 0)
max_digit true true = refl
max_digit true false = refl
max_digit false true = refl
max_digit false false = refl

-- `a & b`, when `b` has at most `k` digits.
pub bit_and-word : (k a b : ℕ) → b < 2 ^ k → bit_and a b ≡ word k (λ j. on j a && on j b)
unfolding word on
bit_and-word zero a b h = let e : b ≡ 0 = omega arith in rw e (bit_and-zero a)
bit_and-word (suc k) a b h =
    bit_and-digit a b
    ∙ (λ i. bit_and-word k (a / 2) (b / 2) (omega (arith, pow-suc 2 k)) i * 2 + min_digit a b i)

digit_of : (w : ℕ) (p : Bool) → (w * 2 + (if p then 1 else 0)) % 2 ≡ (if p then 1 else 0)
digit_of w true = omega arith
digit_of w false = omega arith

half_of : (w : ℕ) (p : Bool) → (w * 2 + (if p then 1 else 0)) / 2 ≡ w
half_of w true = omega arith
half_of w false = omega arith

pub bit_or-word : (k : ℕ) (f g : ℕ → Bool) → bit_or (word k f) (word k g) ≡ word k (λ j. f j || g j)
unfolding word
bit_or-word zero f g = refl
bit_or-word (suc k) f g =
    let u = word k (λ j. f (suc j)) in
    let v = word k (λ j. g (suc j)) in
    bit_or-digit (u * 2 + (if f 0 then 1 else 0)) (v * 2 + (if g 0 then 1 else 0))
    ∙ (λ i.
        bit_or (half_of u (f 0) i) (half_of v (g 0) i) * 2
        + max (digit_of u (f 0) i) (digit_of v (g 0) i))
    ∙ (λ i. bit_or-word k (λ j. f (suc j)) (λ j. g (suc j)) i * 2 + max_digit (f 0) (g 0) i)

-- A word is 0 just if it has no digit 1.
pub word-any : (k : ℕ) (f : ℕ → Bool) → (word k f == 0) ≡ not (any k f)
unfolding word any
word-any zero f = refl
word-any (suc k) f =
    last (word k (λ j. f (suc j))) (f 0)
    ∙ rw (word-any k (λ j. f (suc j))) (joined (f 0) (any k (λ j. f (suc j))))
  where
    last : (w : ℕ) (p : Bool) → (w * 2 + (if p then 1 else 0) == 0) ≡ (not p && (w == 0))
    last w true = ground arith
    last w false = ground arith

    joined : (p q : Bool) → (not p && not q) ≡ not (p || q)
    joined true q = refl
    joined false q = refl

pub word-lt : (k : ℕ) (f : ℕ → Bool) → word k f < 2 ^ k
unfolding word
word-lt zero f = omega arith
word-lt (suc k) f = last (word-lt k (λ j. f (suc j))) (f 0)
  where
    last :
        word k (λ j. f (suc j)) < 2 ^ k
        → (p : Bool) → word k (λ j. f (suc j)) * 2 + (if p then 1 else 0) < 2 ^ suc k
    last h true = omega (arith, pow-suc 2 k)
    last h false = omega (arith, pow-suc 2 k)

-- Words with the same digits.
pub word-ext : (k : ℕ) (f g : ℕ → Bool) → ((j : ℕ) → f j ≡ g j) → word k f ≡ word k g
unfolding word
word-ext zero f g h = refl
word-ext (suc k) f g h = λ i.
    word-ext k (λ j. f (suc j)) (λ j. g (suc j)) (λ j. h (suc j)) i * 2 + (if h 0 i then 1 else 0)
