-- ===== src/ProdCon/Consume/Close.antt =====
-- The turn of the consumer of prodcon.c that closes its handle.
use mathlib.Core.Path.{subst}
use uoft_operating_systems.Common.{
  ℕ, ◌+◌, ◌*◌, ◌^◌, ◌≤◌, ◌<◌, ◌≡◌, refl, sym, arith, Bool, true, false, none, List, [], ◌∷◌, ◌++◌,
  lt→ltb, le→ltb, length, Returns, Returns-bind, Returns-mono,
}
use uoft_operating_systems.MsgQueue.Backend.{Backend}
use uoft_operating_systems.MsgQueue.Backend.Tracks.{Tracks, holders}
use uoft_operating_systems.MsgQueue.Carries.{Carries}
use uoft_operating_systems.MsgQueue.Handle.{has, null_handle, reader_flag, writer_flag, get_flags}
use uoft_operating_systems.MsgQueue.Lifecycle.{Closed, msg_queue_close}
use uoft_operating_systems.MsgQueue.Lifecycle.Close.{Outcome, msg_queue_close-Closes}
use uoft_operating_systems.ProdCon.{Side, departing, World, live}
use uoft_operating_systems.ProdCon.Steps.{consumer_step}
use uoft_operating_systems.ProdCon.Plan.{
  ConsumerNext, Handles, handles, box, total, at_joining, Good, through, closed, QueueAt,
  QueueAt-as, QueueAt-live,
}
use uoft_operating_systems.ProdCon.Consume.Next.{and_false}

-- The flags of the handles besides the consumer's.
abbrev others : Bool → List ℕ
others true = []
others false = writer_flag ∷ []

length-others : (b : Bool) (flags : ℕ) → length (others b ++ flags ∷ []) ≤ 2
length-others true flags = omega arith
length-others false flags = omega arith

Tracks-others :
    (mq : Backend) (b : Bool)
    → Tracks mq (handles b false) true true
    → Tracks mq (others b ++ reader_flag ∷ []) true true
Tracks-others mq true t = t
Tracks-others mq false t = t

module _ (self : Side → ℕ) (capacity count : ℕ) (rand : ℕ → ℕ) (small : 64 * count < 2 ^ 31)
    (writer reader address : ℕ) (h : Handles writer reader address) where
  module _ (p c : ℕ) (w : World) (good : Good capacity count rand writer reader p c w) where
    Outcome-left :
        (writer_gone : Bool) (result : Closed)
        → Outcome
            (box capacity count rand (through count p) (count + 1) writer_gone false)
            (others writer_gone ++ [])
            true
            true
            result
        → QueueAt capacity count rand (through count p) (count + 1) writer_gone true result.backend
    unfolding holders has
    Outcome-left true result (e, calls) =
        subst (QueueAt capacity count rand (through count p) (count + 1) true true) (sym e) refl
    Outcome-left false result (mq, e, t, carries, calls) =
        subst (QueueAt capacity count rand (through count p) (count + 1) false true) (sym e)
          (refl, carries, t)

    pub close-Next :
        c ≡ count + 1
        → Returns
            (ConsumerNext capacity count rand writer reader p c)
            (consumer_step self count rand (departing (total rand count)) w)
    unfolding consumer_step
    close-Next at =
        let s = through count p in
        let a = closed count p in
        let m = box capacity count rand s (count + 1) a false in
        Returns-bind (λ mq. Carries mq m × Tracks mq (handles a false) true true)
          (ConsumerNext capacity count rand writer reader p c) (live w.queue) _
          (QueueAt-live capacity count rand s (count + 1) a false w.queue (and_false a) (
            QueueAt-as capacity count rand s (through count c) s (count + 1) a (closed count c) a
              false w.queue refl (omega (arith, at)) refl (le→ltb (count + 1) c (omega (arith, at)))
              good.queue_holds))
          (λ mq (carries, t).
            Returns-bind
              (λ result.
                (result.errno ≡ none)
                × QueueAt capacity count rand s (count + 1) a true result.backend)
              (ConsumerNext capacity count rand writer reader p c) (msg_queue_close w.reader mq) _
              (Returns-mono _
                (λ result.
                  (result.errno ≡ none)
                  × QueueAt capacity count rand s (count + 1) a true result.backend)
                (msg_queue_close w.reader mq)
                (subst
                  (λ q.
                    Returns
                      (λ (result : Closed).
                        (result.handle ≡ null_handle)
                        × (result.errno ≡ none)
                        × Outcome m (others a ++ []) true true result)
                      (msg_queue_close q mq))
                  (sym (good.reader_open (omega (arith, at))))
                  (msg_queue_close-Closes reader address mq m (others a) [] true true h.reader_some
                    h.reader_backend (omega (arith, length-others a (get_flags reader)))
                    (subst (λ f. Tracks mq (others a ++ f ∷ []) true true) (sym h.reader_flags)
                      (Tracks-others mq a t))
                    carries))
                (λ result (_, ok', left). (ok', Outcome-left a result left)))
              (λ result (done, holds). rw done (
                c + 1,
                record {
                  produces = good.produces;
                  consumes = at_joining (omega (arith, at));
                  queue_holds =
                      QueueAt-as capacity count rand s (count + 1) s (through count (c + 1)) a true
                        a (closed count (c + 1)) result.backend refl (omega (arith, at)) refl
                        (sym (lt→ltb (count + 1) (c + 1) (omega (arith, at)))) holds;
                  ahead = omega (arith, good.ahead);
                  joined_last = λ e. absurd (omega (arith, at, e));
                  producer_sleeps = λ e lt. absurd (omega (arith, at, lt, good.ahead));
                  consumer_sleeps = λ e lt. absurd (omega (arith, at, lt));
                  writer_open = good.writer_open;
                  reader_open = λ lt. absurd (omega (arith, at, lt));
                },
                omega arith,
                λ able. omega arith,
              )))
