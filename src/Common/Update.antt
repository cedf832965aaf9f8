-- ===== src/Common/Update.antt =====
-- Functions on the numbers as memory: one place is written.
use Prim.Native.Nat.{ℕ}
use mathlib.Core.Path.{◌≡◌, refl}
use mathlib.Core.Logic.{◌≢◌}
use uoft_operating_systems.Common.Tests.{◌==◌, if◌then◌else◌, eq→==, ne→==}

unfoldable pub set : {A : Type 0} → (ℕ → A) → ℕ → A → ℕ → A
set f at x a = if a == at then x else f a

pub set-at : {A : Type 0} (f : ℕ → A) (a : ℕ) (x : A) → set f a x a ≡ x
unfolding set
set-at f a x = rw (eq→== a a refl) refl

pub set-else : {A : Type 0} (f : ℕ → A) (a : ℕ) (x : A) (b : ℕ) → b ≢ a → set f a x b ≡ f b
unfolding set
set-else f a x b ne = rw (ne→== b a ne) refl
