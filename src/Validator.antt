-- ===== src/Validator.antt =====
-- a2_message_queue/mutex_validator.c in the debug build (`NDEBUG` not defined).
-- A thread is its `pthread_self()`, a number other than 0. The name, which only the report prints,
-- is left out; `reports` counts the calls of `report_error`. `nap` only takes time.
pub mod Exclusion
mod Tests
use uoft_operating_systems.Common.{
  ℕ, ◌+◌, ◌≡◌, refl, eq→==, not, ◌==◌, if◌then◌else◌, Run, assert, List, [], ◌∷◌,
}

pub record Validator : Type 0 where
  pub owner : ℕ
  pub reports : ℕ

unfoldable pub validator_init : Validator
validator_init = record { owner = 0; reports = 0 }

unfoldable pub validator_destroy : Validator → Run (Unit {0})
validator_destroy v = assert (v.owner == 0)

-- `__sync_val_compare_and_swap(&validator->owner, old, new)`: the owner before, and the validator.
unfoldable pub compare_and_swap : Validator → ℕ → ℕ → ℕ × Validator
compare_and_swap v old new = (v.owner, if v.owner == old then record v { owner = new } else v)

unfoldable pub validator_enter : ℕ → Validator → Validator
unfolding compare_and_swap
validator_enter self v =
    let (owner, v') = compare_and_swap v 0 self in
    if not (owner == 0) then record v' { reports = v'.reports + 1 } else v'

unfoldable pub validator_exit : ℕ → Validator → Validator
unfolding compare_and_swap
validator_exit self v =
    let (owner, v') = compare_and_swap v self 0 in
    if not (owner == self) then record v' { reports = v'.reports + 1 } else v'

-- One thread that enters an idle validator and leaves it: nothing is reported.
pub enter-idle :
    (self : ℕ) (v : Validator) → v.owner ≡ 0 → validator_enter self v ≡ record v { owner = self }
unfolding validator_enter
enter-idle self v idle = rw (eq→== v.owner 0 idle)

pub exit-enter :
    (self : ℕ) (v : Validator) → v.owner ≡ self → validator_exit self v ≡ record v { owner = 0 }
unfolding validator_exit
exit-enter self v own = rw (eq→== v.owner self own)

pub init-idle : validator_init.owner ≡ 0
unfolding validator_init
init-idle = refl

-- What a thread does at a validator, in the order of the compare-and-swaps.
pub data Access : Type 0 where
  enters exits : ℕ → Access

unfoldable pub access : Access → Validator → Validator
access (enters self) v = validator_enter self v
access (exits self) v = validator_exit self v

unfoldable pub run : List Access → Validator → Validator
run [] v = v
run (a ∷ rest) v = run rest (access a v)
