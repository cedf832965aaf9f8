-- ===== src/Validator/Exclusion.antt =====
-- A validator reports exactly the runs in which two threads are inside at a time.
use uoft_operating_systems.Common.{
  ℕ, ◌≤◌, ◌<◌, ◌≡◌, refl, sym, ap, ◌∙◌, Bool, true, false, ◌&&◌, List, [], ◌∷◌, ◌==◌, arith, inl,
  inr, Bool-cases,
}
use uoft_operating_systems.Validator.{
  Validator, validator_init, validator_enter, validator_exit, Access, enters, exits, access, run,
  enter-idle, exit-enter,
}

-- `holder` is the thread that is inside, 0 for none: a thread enters when nobody is inside, and
-- leaves when it is.
unfoldable pub exclusive : ℕ → List Access → Bool
exclusive holder [] = true
exclusive holder (enters self ∷ rest) = (holder == 0) && exclusive self rest
exclusive holder (exits self ∷ rest) = (holder == self) && exclusive 0 rest

reports_kept : (a : Access) (v : Validator) → v.reports ≤ (access a v).reports
unfolding access validator_enter validator_exit
reports_kept (enters self) v = ground arith
reports_kept (exits self) v = ground arith

reports_grow : (accesses : List Access) (v : Validator) → v.reports ≤ (run accesses v).reports
unfolding run
reports_grow [] v = omega arith
reports_grow (a ∷ rest) v = omega (arith, reports_kept a v, reports_grow rest (access a v))

-- One that has reported something still has at the end.
reported :
    (accesses : List Access) (v : Validator)
    → 0 < v.reports
    → ((run accesses v).reports == 0) ≡ false
reported accesses v h = ground (arith, reports_grow accesses v)

enter-busy :
    (self : ℕ) (v : Validator) → (v.owner == 0) ≡ false → 0 < (validator_enter self v).reports
unfolding validator_enter
enter-busy self v busy = ground arith

exit-other :
    (self : ℕ) (v : Validator) → (v.owner == self) ≡ false → 0 < (validator_exit self v).reports
unfolding validator_exit
exit-other self v other = ground arith

-- From a validator that has reported nothing.
run-reports :
    (accesses : List Access) (v : Validator)
    → v.reports ≡ 0
    → ((run accesses v).reports == 0) ≡ exclusive v.owner accesses
unfolding run exclusive access
run-reports [] v e = ground arith
run-reports (enters self ∷ rest) v e = elim (Bool-cases (v.owner == 0)) [
  | inl idle ↦
      ap (λ w. (run rest w).reports == 0) (enter-idle self v (ground arith))
      ∙ run-reports rest (record v { owner = self }) e
      ∙ ap (λ b. b && exclusive self rest) (sym idle)
  | inr busy ↦ rw (busy, reported rest (validator_enter self v) (enter-busy self v busy)) refl
]
run-reports (exits self ∷ rest) v e = elim (Bool-cases (v.owner == self)) [
  | inl own ↦
      ap (λ w. (run rest w).reports == 0) (exit-enter self v (ground arith))
      ∙ run-reports rest (record v { owner = 0 }) e
      ∙ ap (λ b. b && exclusive 0 rest) (sym own)
  | inr other ↦ rw (other, reported rest (validator_exit self v) (exit-other self v other)) refl
]

-- From `validator_init`, in whatever order threads enter and leave, the validator reports nothing
-- just if every thread enters while nobody is inside and leaves while it is inside itself.
pub run-exclusive :
    (accesses : List Access) → ((run accesses validator_init).reports == 0) ≡ exclusive 0 accesses
unfolding validator_init
run-exclusive accesses = run-reports accesses validator_init refl
