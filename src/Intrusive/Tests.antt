-- ===== src/Intrusive/Tests.antt =====
-- A list whose head lies at address 8, with entries at 16, 24 and 32.
use uoft_operating_systems.Common.{◌≡◌, refl, List, [], ◌∷◌, inl, inr, arith, ok, ◌>>=◌}
use uoft_operating_systems.Intrusive.{Links, list_init}
use uoft_operating_systems.Intrusive.Client.{
  Call, add_head, add_tail, del, visit, AllAllowed, effect, without, run, seen, all_some,
  init-run-seen,
}

abbrev garbage : Links
garbage = record {
  next = λ a. 99;
  prev = λ a. a;
  validators = λ a. record { owner = 5; reports = 7 };
}

abbrev calls : List Call
calls = add_tail 1 16 ∷ add_head 2 24 ∷ visit 1 ∷ del 2 16 ∷ add_tail 1 32 ∷ visit 2 ∷ []

calls-AllAllowed : AllAllowed 8 calls []
unfolding effect without
calls-AllAllowed = (ground arith, (ground arith, (tt, (inr (inl refl), (ground arith, (tt, tt))))))

init-run-seen_example : (list_init 8 garbage >>= run 7 8 calls) ≡ ok (all_some (seen calls []))
init-run-seen_example =
    init-run-seen calls 7 8 garbage (ground arith) calls-AllAllowed (omega arith)

-- What the iterations see there.
seen_there : seen calls [] ≡ (24 ∷ 16 ∷ []) ∷ (24 ∷ 32 ∷ []) ∷ []
unfolding seen effect without
seen_there = refl
