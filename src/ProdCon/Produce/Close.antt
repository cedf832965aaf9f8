-- ===== src/ProdCon/Produce/Close.antt =====
-- The turn of the producer of prodcon.c that closes its handle.
use mathlib.Core.Path.{subst}
use uoft_operating_systems.Common.{
  ℕ, ◌+◌, ◌*◌, ◌^◌, ◌≤◌, ◌<◌, ◌≡◌, ◌⊎◌, refl, sym, ap, arith, Bool, true, false, none, List, [],
  ◌∷◌, lt→ltb, le→ltb, length, Returns, Returns-bind, Returns-mono, inl, inr,
}
use uoft_operating_systems.MsgQueue.Backend.{Backend}
use uoft_operating_systems.MsgQueue.Backend.Tracks.{Tracks}
use uoft_operating_systems.MsgQueue.Carries.{Carries}
use uoft_operating_systems.MsgQueue.Backend.Tracks.{holders}
use uoft_operating_systems.MsgQueue.Handle.{has, null_handle, reader_flag, writer_flag}
use uoft_operating_systems.MsgQueue.Lifecycle.{Closed, msg_queue_close}
use uoft_operating_systems.MsgQueue.Lifecycle.Close.{Outcome, msg_queue_close-Closes}
use uoft_operating_systems.ProdCon.{Side, leaving, World, wakes_reader, live}
use uoft_operating_systems.ProdCon.Steps.{producer_step}
use uoft_operating_systems.ProdCon.Plan.{
  woken_if-awake, ProducerNext, Handles, handles, box, total, at_gone, Good, through, closed,
  QueueAt, QueueAt-as, QueueAt-live,
}

-- The flags of the handles besides the producer's.
abbrev others : Bool → List ℕ
others true = []
others false = reader_flag ∷ []

length-others : (b : Bool) → length (others b) ≤ 1
length-others true = omega arith
length-others false = omega arith

Tracks-others :
    (mq : Backend) (b : Bool)
    → Tracks mq (handles false b) true true
    → Tracks mq (writer_flag ∷ others b) true true
Tracks-others mq true t = t
Tracks-others mq false t = t

module _ (self : Side → ℕ) (capacity count : ℕ) (rand : ℕ → ℕ) (big : 12 < capacity)
    (small : 64 * count < 2 ^ 31) (writer reader address : ℕ)
    (h : Handles writer reader address) where
  module _ (p c : ℕ) (w : World) (good : Good capacity count rand writer reader p c w) where
    -- The backend and the calls once the producer has closed its handle.
    Left : Bool → Closed → Type 0
    Left reader_gone result =
        QueueAt capacity count rand (count + 1) (through count c) true reader_gone result.backend
        × ((reader_gone ≡ true) ⊎ (wakes_reader result.calls ≡ true))

    Outcome-Left :
        (reader_gone : Bool) (result : Closed)
        → Outcome
            (box capacity count rand (count + 1) (through count c) false reader_gone)
            (others reader_gone)
            true
            true
            result
        → Left reader_gone result
    unfolding Left holders wakes_reader has
    Outcome-Left true result (e, calls) = (
      subst (QueueAt capacity count rand (count + 1) (through count c) true true) (sym e) refl,
      inl refl,
    )
    Outcome-Left false result (mq, e, t, carries, calls) = (
      subst (QueueAt capacity count rand (count + 1) (through count c) true false) (sym e)
          (refl, carries, t),
      inr (ap wakes_reader calls),
    )

    pub close-Next :
        p ≡ count + 1
        → Returns
            (ProducerNext capacity count rand writer reader p c)
            (producer_step self count rand (leaving (total rand count)) w)
    unfolding producer_step Left
    close-Next at =
        let b = closed count c in
        let m = box capacity count rand (count + 1) (through count c) false b in
        Returns-bind (λ mq. Carries mq m × Tracks mq (handles false b) true true)
          (ProducerNext capacity count rand writer reader p c) (live w.queue) _
          (QueueAt-live capacity count rand (count + 1) (through count c) false b w.queue refl (
            QueueAt-as capacity count rand (through count p) (through count c) (count + 1)
              (through count c) (closed count p) b false b w.queue (omega (arith, at)) refl
              (le→ltb (count + 1) p (omega (arith, at))) refl good.queue_holds))
          (λ mq (carries, t).
            Returns-bind (λ result. (result.errno ≡ none) × Left b result)
              (ProducerNext capacity count rand writer reader p c) (msg_queue_close w.writer mq) _
              (Returns-mono _ (λ result. (result.errno ≡ none) × Left b result)
                (msg_queue_close w.writer mq)
                (subst
                  (λ q.
                    Returns
                      (λ (result : Closed).
                        (result.handle ≡ null_handle)
                        × (result.errno ≡ none)
                        × Outcome m (others b) true true result)
                      (msg_queue_close q mq))
                  (sym (good.writer_open (omega (arith, at))))
                  (msg_queue_close-Closes writer address mq m [] (others b) true true h.writer_some
                    h.writer_backend (omega (arith, length-others b))
                    (subst (λ f. Tracks mq (f ∷ others b) true true) (sym h.writer_flags)
                      (Tracks-others mq b t))
                    carries))
                (λ result (_, ok', left). (ok', Outcome-Left b result left)))
              (λ result (done, (holds, wakes)). rw done (
                p + 1,
                record {
                  produces = at_gone (omega (arith, at));
                  consumes = good.consumes;
                  queue_holds =
                      QueueAt-as capacity count rand (count + 1) (through count c)
                        (through count (p + 1)) (through count c) true b (closed count (p + 1)) b
                        result.backend (omega (arith, at)) refl
                        (sym (lt→ltb (count + 1) (p + 1) (omega (arith, at)))) refl holds;
                  ahead = omega (arith, good.ahead);
                  joined_last = λ e. omega (arith, at);
                  producer_sleeps = λ e lt. absurd (omega (arith, at, lt));
                  consumer_sleeps = λ e lt. absurd (elim wakes [
                    | inl gone' ↦ ground (arith, gone', lt)
                    | inr signalled ↦ woken_if-awake w.consumer_wait (rw⁻¹ signalled e)
                  ]);
                  writer_open = λ lt. absurd (omega (arith, at, lt));
                  reader_open = good.reader_open;
                },
                omega arith,
                λ able. omega arith,
              )))
