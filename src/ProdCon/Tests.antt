-- ===== src/ProdCon/Tests.antt =====
-- Runs of prodcon.c on three numbers.
use uoft_operating_systems.Common.{
  ℕ, zero, suc, ◌+◌, ◌*◌, ◌≡◌, true, refl, arith, some, List, [], ◌∷◌, stop, assertion_failed,
  Returns,
}
use uoft_operating_systems.ProdCon.{Side, producing, consuming, Event, acting, rousing}
use uoft_operating_systems.ProdCon.Steps.{main_run}
use uoft_operating_systems.ProdCon.Rounds.{acts, AllFair, in_order}
use uoft_operating_systems.ProdCon.Rounds.Start.{Finished, main_run-Finished}
use uoft_operating_systems.ProdCon.Short.{main_run-short}

abbrev self : Side → ℕ
self producing = 1
self consuming = 2

abbrev rand : ℕ → ℕ
rand i = 100 * i + 7

-- The consumer goes first, wakes without a signal, and the producer has two turns in a row.
abbrev round : List Event
round = acting consuming ∷ rousing consuming ∷ acting producing ∷ acting producing ∷ []

abbrev rounds : List (List Event)
rounds = round ∷ round ∷ round ∷ round ∷ round ∷ round ∷ round ∷ round ∷ round ∷ round ∷ round ∷ []

abbrev bytes : ℕ → List ℕ
bytes zero = []
bytes (suc n) = 0 ∷ bytes n

round-acts : (acts producing round ≡ true) × (acts consuming round ≡ true)
unfolding acts
round-acts = (refl, refl)

rounds-AllFair : AllFair rounds
rounds-AllFair = (
  round-acts,
  (
    round-acts,
    (
      round-acts,
      (
        round-acts,
        (
          round-acts,
          (round-acts, (round-acts, (round-acts, (round-acts, (round-acts, (round-acts, tt)))))),
        ),
      ),
    ),
  ),
)

main_run-Finished_example :
    Returns
      (Finished self 4 9 20 3 (bytes 20) rand)
      (main_run self rand (some (32, 9)) (some (bytes 20)) 20 3 (in_order rounds))
main_run-Finished_example =
    main_run-Finished self 4 9 20 3 (bytes 20) rand rounds (omega arith) (omega arith) (omega arith)
      (omega arith) (omega arith) refl rounds-AllFair (omega arith)

main_run-short_example :
    main_run self rand (some (32, 9)) (some (bytes 12)) 12 3 round ≡ stop assertion_failed
main_run-short_example =
    main_run-short self 4 9 12 3 (bytes 12) rand round (omega arith) (omega arith) (omega arith)
      (omega arith) (omega arith) refl round-acts.0
