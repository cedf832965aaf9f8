-- ===== src/Intrusive/Linked.antt =====
-- The lists of list.h: which links stand for which sequence of entries.
use uoft_operating_systems.Common.{ℕ, ◌≡◌, ◌≢◌, refl, ap, ◌∙◌, List, ◌∷◌, ok, ne→==}
use uoft_operating_systems.Common.Update.{set-at}
use uoft_operating_systems.Validator.{Validator, validator_exit, enter-idle, exit-enter}
use uoft_operating_systems.Intrusive.{Links, through, enter, exit}
use uoft_operating_systems.Intrusive.Chain.{Chain, Distinct}

-- A list between two calls: a ring from its head over the entries and back, none of them NULL.
pub record Linked (links : Links) (list : ℕ) (entries : List ℕ) : Type 0 where
  pub chain : Chain links.next links.prev list entries list
  pub distinct : Distinct (0 ∷ list ∷ entries)
  pub idle : (links.validators list).owner ≡ 0

pub through_entry : (entry : ℕ) → entry ≢ 0 → through entry ≡ ok tt
unfolding through
through_entry entry ne = rw (ne→== entry 0 ne) refl

-- What an operation that enters and leaves does to the validator.
pub left_idle :
    (self list : ℕ) (links : Links) (next prev : ℕ → ℕ)
    → (links.validators list).owner ≡ 0
    → ((exit self list (record (enter self list links) { next = next; prev = prev })).validators
        list).owner
      ≡ 0
left_idle self list links next prev idle =
    ap (λ (v : Validator). v.owner)
      (set-at _ list _
        ∙ ap (validator_exit self) (set-at links.validators list _)
        ∙ ap (validator_exit self) (enter-idle self (links.validators list) idle)
        ∙ exit-enter self (record (links.validators list) { owner = self }) refl)
