-- ===== src/Common/Outcome.antt =====
-- The outcome of code that can stop at a failed `assert`, touch memory out of its bounds or overflow
-- an int, and the copies between arrays, with their bounds checked.
use Prim.Native.Nat.{ℕ, ◌+◌, ◌≤◌}
use mathlib.Core.Path.{◌≡◌, refl, ap, sym, ◌∙◌}
use mathlib.Core.Bool.{Bool, true, false}
use mathlib.Core.List.{List, ◌++◌, append_assoc}
use native.Mathlib.Omega.{arith}
use uoft_operating_systems.Common.Tests.{leb, le→leb, if◌then◌else◌}
use uoft_operating_systems.Common.Lists.{
  length, take, drop, length-append, take-append_at, drop-append_at,
}

pub data Fault : Type 0 where
  assertion_failed out_of_bounds uninitialized_read null_dereference int_overflow : Fault

pub data Run {ℓ} (A : Type ℓ) : Type ℓ where
  ok : A → Run A
  stop : Fault → Run A

infixl 5 ◌>>=◌ ◌>>◌
abbrev pub ◌>>=◌ {ℓ κ} : {A : Type ℓ} {B : Type κ} → Run A → (A → Run B) → Run B
ok a >>= f = f a
stop e >>= f = stop e

abbrev pub ◌>>◌ {ℓ} : {B : Type ℓ} → Run (Unit {0}) → Run B → Run B
m >> k = m >>= λ _. k

abbrev pub assert : Bool → Run (Unit {0})
assert true = ok tt
assert false = stop assertion_failed

-- The run ends with no fault, and its value meets `P`.
abbrev pub Returns {ℓ} : {A : Type ℓ} → (A → Type 0) → Run A → Type 0
Returns P (ok a) = P a
Returns P (stop e) = ⊥

module _ {ℓ} {A : Type ℓ} where
  pub Returns-bind {κ} :
      {B : Type κ} (P : A → Type 0) (Q : B → Type 0) (r : Run A) (k : A → Run B)
      → Returns P r
      → ((a : A) → P a → Returns Q (k a))
      → Returns Q (r >>= k)
  Returns-bind P Q (ok a) k p next = next a p
  Returns-bind P Q (stop e) k p next = absurd p

  pub Returns-mono :
      (P Q : A → Type 0) (r : Run A) → Returns P r → ((a : A) → P a → Q a) → Returns Q r
  Returns-mono P Q (ok a) p weaken = weaken a p
  Returns-mono P Q (stop e) p weaken = absurd p

  -- `memcpy` out of an array of the elements `mem`: `n` of them from `off`.
  unfoldable pub load_range : List A → ℕ → ℕ → Run (List A)
  load_range mem off n =
      if leb (off + n) (length mem) then ok (take n (drop off mem)) else stop out_of_bounds

  -- `memcpy` of `xs` into an array at `off`.
  unfoldable pub store_range : List A → ℕ → List A → Run (List A)
  store_range mem off xs =
      if leb (off + length xs) (length mem)
      then ok (take off mem ++ (xs ++ drop (off + length xs) mem))
      else stop out_of_bounds

  -- Both at an array in three parts, the middle one touched.
  pub load_range-mid :
      (a b c : List A) (off n : ℕ)
      → off ≡ length a
      → n ≡ length b
      → load_range (a ++ (b ++ c)) off n ≡ ok b
  unfolding load_range
  load_range-mid a b c off n p q = rw (
    le→leb (off + n) (length (a ++ (b ++ c))) room,
    drop-append_at off a (b ++ c) p,
    take-append_at n b c q,
  )
    where
      room : off + n ≤ length (a ++ (b ++ c))
      room = omega (arith, length-append a (b ++ c), length-append b c)

  pub store_range-mid :
      (a b xs c : List A) (off : ℕ)
      → off ≡ length a
      → length xs ≡ length b
      → store_range (a ++ (b ++ c)) off xs ≡ ok (a ++ (xs ++ c))
  unfolding store_range
  store_range-mid a b xs c off p q = rw (
    le→leb (off + length xs) (length (a ++ (b ++ c))) room,
    take-append_at off a (b ++ c) p,
    behind,
  )
    where
      room : off + length xs ≤ length (a ++ (b ++ c))
      room = omega (arith, length-append a (b ++ c), length-append b c)

      behind : drop (off + length xs) (a ++ (b ++ c)) ≡ c
      behind =
          ap (drop (off + length xs)) (sym (append_assoc a b c))
          ∙ drop-append_at (off + length xs) (a ++ b) c (omega (arith, length-append a b))

  pub Returns-value : (P : A → Type 0) (r : Run A) → Returns P r → (a : A) × (r ≡ ok a) × P a
  Returns-value P (ok a) p = (a, refl, p)
  Returns-value P (stop e) p = absurd p

-- A value, if there is one, meets `P`.
abbrev pub IfReturns : {A : Type 0} → (A → Type 0) → Run A → Type 0
IfReturns P (ok a) = P a
IfReturns P (stop e) = Unit

module _ {A B : Type 0} where
  pub after_any :
      (Q : B → Type 0) (m : Run A) (k : A → Run B)
      → ((a : A) → IfReturns Q (k a))
      → IfReturns Q (m >>= k)
  after_any Q (ok a) k next = next a
  after_any Q (stop e) k next = tt

  pub after_value :
      (P : A → Type 0) (Q : B → Type 0) (m : Run A) (k : A → Run B)
      → IfReturns P m
      → ((a : A) → P a → IfReturns Q (k a))
      → IfReturns Q (m >>= k)
  after_value P Q (ok a) k holds next = next a holds
  after_value P Q (stop e) k holds next = tt

  -- Two runs that go on alike from a value that meets `P`.
  pub bind_agree :
      (P : A → Type 0) (f g : A → Run B) (m : Run A)
      → IfReturns P m
      → ((a : A) → P a → f a ≡ g a)
      → (m >>= f) ≡ (m >>= g)
  bind_agree P f g (ok a) holds same = same a holds
  bind_agree P f g (stop e) holds same = refl

-- What holds of the value if there is one holds of the value that there is.
pub Returns-also :
    {A : Type 0} (P Q : A → Type 0) (r : Run A)
    → Returns P r
    → IfReturns Q r
    → Returns (λ a. P a × Q a) r
Returns-also P Q (ok a) p q = (p, q)
Returns-also P Q (stop e) p q = absurd p
