-- ===== src/ProdCon/Rounds.antt =====
-- Turns of the two threads of prodcon.c in rounds in which each of them has a turn.
pub mod Ends
pub mod Start
use mathlib.Core.Path.{subst}
use native.Mathlib.Decide.{dec_lt, dec_le}
use uoft_operating_systems.Common.{
  ℕ, zero, suc, ◌+◌, ◌-◌, ◌*◌, ◌^◌, ◌≤◌, ◌<◌, ◌≡◌, ◌⊎◌, refl, sym, ap, ◌∙◌, arith, Bool, true,
  false, Option, none, some, List, [], ◌∷◌, ◌++◌, length, Run, ok, stop, Returns, Returns-bind,
  Returns-mono, ◌>>=◌, inl, inr, lt→ltb,
}
use uoft_operating_systems.MsgQueue.Backend.{Backend}
use uoft_operating_systems.ProdCon.{
  Side, producing, consuming, Event, acting, rousing, Wait, asleep, woken_if, Producer, announcing,
  sending, leaving, gone, Consumer, awaiting, receiving, departing, joining, finished, failed,
  World,
}
use uoft_operating_systems.ProdCon.Steps.{producer_step, consumer_step, thread_turn, run_threads}
use uoft_operating_systems.ProdCon.Plan.{
  woken_if-awake, Handles, total, ProducerAt, at_announcing, at_sending, at_leaving, at_gone,
  ConsumerAt, at_awaiting, at_receiving, at_departing, at_joining, at_finished, Good, ProducerAble,
  ConsumerAble, QueueAt, Ended, through, closed,
}
use uoft_operating_systems.ProdCon.Produce.Turn.{producer_turn-Next}
use uoft_operating_systems.ProdCon.Consume.Turn.{consumer_turn-Next}

-- Whether a thread has a turn.
unfoldable pub acts : Side → List Event → Bool
acts side [] = false
acts producing (acting producing ∷ events) = true
acts producing (acting consuming ∷ events) = acts producing events
acts producing (rousing _ ∷ events) = acts producing events
acts consuming (acting producing ∷ events) = acts consuming events
acts consuming (acting consuming ∷ events) = true
acts consuming (rousing _ ∷ events) = acts consuming events

-- In each round both have.
abbrev pub AllFair : List (List Event) → Type 0
AllFair [] = Unit {0}
AllFair (round ∷ rounds) =
    ((acts producing round ≡ true) × (acts consuming round ≡ true)) × AllFair rounds

unfoldable pub in_order : List (List Event) → List Event
in_order [] = []
in_order (round ∷ rounds) = round ++ in_order rounds

module _ (self : Side → ℕ) (capacity count : ℕ) (rand : ℕ → ℕ) (big : 12 < capacity)
    (small : 64 * count < 2 ^ 31) (writer reader address : ℕ)
    (h : Handles writer reader address) where
  run_threads-append :
      (xs ys : List Event) (w : World)
      → run_threads self count rand (xs ++ ys) w
        ≡ (run_threads self count rand xs w >>= run_threads self count rand ys)
  unfolding run_threads
  run_threads-append [] ys w = refl
  run_threads-append (x ∷ xs) ys w =
      onward (thread_turn self count rand x w) (run_threads-append xs ys)
    where
      onward :
          (r : Run World)
          → ((w' : World)
              → run_threads self count rand (xs ++ ys) w'
                ≡ (run_threads self count rand xs w' >>= run_threads self count rand ys))
          → (r >>= run_threads self count rand (xs ++ ys))
            ≡ ((r >>= run_threads self count rand xs) >>= run_threads self count rand ys)
      onward (ok w') same = same w'
      onward (stop e) same = refl

  ProducerAt-le : {p : ℕ} {x : Producer} → ProducerAt count rand p x → p ≤ count + 2
  ProducerAt-le (at_announcing e) = omega (arith, e)
  ProducerAt-le (at_sending e lt) = omega (arith, e, lt)
  ProducerAt-le (at_leaving e) = omega (arith, e)
  ProducerAt-le (at_gone e) = omega (arith, e)

  ConsumerAt-le : {c : ℕ} {x : Consumer} → ConsumerAt count rand c x → c ≤ count + 3
  ConsumerAt-le (at_awaiting e) = omega (arith, e)
  ConsumerAt-le (at_receiving e lt) = omega (arith, e, lt)
  ConsumerAt-le (at_departing e) = omega (arith, e)
  ConsumerAt-le (at_joining e) = omega (arith, e)
  ConsumerAt-le (at_finished e) = omega (arith, e)

  -- A wakeup is no harm.
  roused :
      (p c : ℕ) (w : World) (x y : Wait)
      → Good capacity count rand writer reader p c w
      → (x ≡ asleep → w.producer_wait ≡ asleep)
      → (y ≡ asleep → w.consumer_wait ≡ asleep)
      → Good capacity count rand writer reader p c
          (record w { producer_wait = x; consumer_wait = y })
  roused p c w x y good same same' = record {
    produces = good.produces;
    consumes = good.consumes;
    queue_holds = good.queue_holds;
    ahead = good.ahead;
    joined_last = good.joined_last;
    producer_sleeps = λ e. good.producer_sleeps (same e);
    consumer_sleeps = λ e. good.consumer_sleeps (same' e);
    writer_open = good.writer_open;
    reader_open = good.reader_open;
  }

  -- A thread that has a turn gets further if it could at the start.
  abbrev Further : List Event → ℕ → ℕ → World → Type 0
  Further events p c w =
      (p' c' : ℕ) × Good capacity count rand writer reader p' c' w
      × ((p ≤ p') × (c ≤ c'))
      × (acts producing events ≡ true → ProducerAble capacity count p c → p < p')
      × (acts consuming events ≡ true → ConsumerAble capacity count p c → c < c')

  run_threads-Further :
      (events : List Event) (p c : ℕ) (w : World)
      → Good capacity count rand writer reader p c w
      → Returns (Further events p c) (run_threads self count rand events w)
  unfolding run_threads thread_turn acts
  run_threads-Further [] p c w good = (p, c, good, (omega arith, omega arith), (λ e. cc), λ e. cc)
  run_threads-Further (acting producing ∷ events) p c w good =
      Returns-bind _ (Further (acting producing ∷ events) p c)
        (producer_step self count rand w.producer w) (run_threads self count rand events)
        (producer_turn-Next self capacity count rand big small writer reader address h p c w good)
        (λ w₁ (p₁, good₁, le, able).
          Returns-mono (Further events p₁ c) (Further (acting producing ∷ events) p c)
            (run_threads self count rand events w₁) (run_threads-Further events p₁ c w₁ good₁)
            (λ w' (p', c', good', (le_p, le_c), _, consumes). (
              p',
              c',
              good',
              (omega (arith, le, le_p), le_c),
              (λ _ a. omega (arith, able a, le_p)),
              λ e (in_time, (more, last)). consumes e (
                in_time,
                (
                  (λ lt. omega (arith, more lt, le)),
                  λ at. omega (arith, last at, le, ProducerAt-le good₁.produces),
                ),
              ),
            )))
  run_threads-Further (acting consuming ∷ events) p c w good =
      Returns-bind _ (Further (acting consuming ∷ events) p c)
        (consumer_step self count rand w.consumer w) (run_threads self count rand events)
        (consumer_turn-Next self capacity count rand small writer reader address h p c w good)
        (λ w₁ (c₁, good₁, le, able).
          Returns-mono (Further events p c₁) (Further (acting consuming ∷ events) p c)
            (run_threads self count rand events w₁) (run_threads-Further events p c₁ w₁ good₁)
            (λ w' (p', c', good', (le_p, le_c), produces, _). (
              p',
              c',
              good',
              (le_p, omega (arith, le, le_c)),
              (λ e (early, room). produces e (early, λ lt. omega (arith, room lt, le))),
              λ _ a. omega (arith, able a, le_c),
            )))
  run_threads-Further (rousing producing ∷ events) p c w good =
      run_threads-Further events p c (record w { producer_wait = woken_if true w.producer_wait })
        (roused p c w (woken_if true w.producer_wait) w.consumer_wait good
          (λ e. absurd (woken_if-awake w.producer_wait e)) (λ e. e))
  run_threads-Further (rousing consuming ∷ events) p c w good =
      run_threads-Further events p c (record w { consumer_wait = woken_if true w.consumer_wait })
        (roused p c w w.producer_wait (woken_if true w.consumer_wait) good (λ e. e)
          (λ e. absurd (woken_if-awake w.consumer_wait e)))

  -- Before the end one of them can get further.
  some_able :
      (p c : ℕ) (w : World)
      → Good capacity count rand writer reader p c w
      → c ≤ count + 2
      → ProducerAble capacity count p c ⊎ ConsumerAble capacity count p c
  some_able p c w good le = elim (dec_lt p (count + 1)) [
    | yes early ↦ elim (dec_lt c p) [
      | yes more ↦ inr (le, ((λ _. more), λ at. absurd (omega (arith, at, more, early))))
      | no even ↦ inl (omega (arith, early), λ _. omega (arith, even, big))
    ]
    | no late ↦ elim (dec_lt p (count + 2)) [
      | yes last ↦ inl (omega (arith, last), λ lt. absurd (omega (arith, lt, late)))
      | no over ↦ inr (
        le,
        ((λ lt. omega (arith, lt, over)), λ _. omega (arith, over, ProducerAt-le good.produces)),
      )
    ]
  ]

  pub run_threads-rounds :
      (rounds : List (List Event)) (p c : ℕ) (w : World)
      → Good capacity count rand writer reader p c w
      → AllFair rounds
      → 2 * count + 5 ≤ p + c + length rounds
      → Returns
          (Good capacity count rand writer reader (count + 2) (count + 3))
          (run_threads self count rand (in_order rounds) w)
  unfolding in_order run_threads
  run_threads-rounds [] p c w good fair enough =
      let top : p ≡ count + 2 =
        omega (arith, enough, ProducerAt-le good.produces, ConsumerAt-le good.consumes) in
      let top' : c ≡ count + 3 =
        omega (arith, enough, ProducerAt-le good.produces, ConsumerAt-le good.consumes) in
      subst (λ ((m, n) : ℕ × ℕ). Good capacity count rand writer reader m n w)
        (λ i. (top i, top' i)) good
  run_threads-rounds (round ∷ rounds) p c w good ((first, second), fair) enough =
      rw (run_threads-append round (in_order rounds) w) (
        Returns-bind (Further round p c)
          (Good capacity count rand writer reader (count + 2) (count + 3))
          (run_threads self count rand round w) (run_threads self count rand (in_order rounds))
          (run_threads-Further round p c w good)
          (λ w' (p', c', good', (le_p, le_c), produces, consumes).
            run_threads-rounds rounds p' c' w' good' fair (elim (dec_le c (count + 2)) [
              | yes early ↦ elim (some_able p c w good early) [
                | inl able ↦ omega (arith, enough, produces first able, le_c)
                | inr able ↦ omega (arith, enough, consumes second able, le_p)
              ]
              | no over ↦
                  let end : c ≡ count + 3 = omega (arith, over, ConsumerAt-le good.consumes) in
                  omega (arith, end, good.joined_last end, le_p, le_c)
            ])))
