-- ===== src/Validator/Tests.antt =====
-- Two threads at a validator: one waits for the other, and one that does not.
use uoft_operating_systems.Common.{◌≡◌, refl, false, List, [], ◌∷◌, ◌==◌}
use uoft_operating_systems.Validator.{validator_init, Access, enters, exits, run}
use uoft_operating_systems.Validator.Exclusion.{exclusive, run-exclusive}

abbrev overlapping : List Access
overlapping = enters 1 ∷ enters 2 ∷ exits 1 ∷ exits 2 ∷ []

overlapping_found : exclusive 0 overlapping ≡ false
unfolding exclusive
overlapping_found = refl

run-exclusive_example : ((run overlapping validator_init).reports == 0) ≡ exclusive 0 overlapping
run-exclusive_example = run-exclusive overlapping
