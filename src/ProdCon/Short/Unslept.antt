-- ===== src/ProdCon/Short/Unslept.antt =====
-- A producer that has not slept yet, in the turns of the consumer.
use uoft_operating_systems.Common.{
  ℕ, ◌≡◌, refl, Bool, true, false, ◌==◌, Run, IfReturns, after_any, assert,
}
use uoft_operating_systems.MsgQueue.Sync.{Reply, Step, returned, blocked}
use uoft_operating_systems.MsgQueue.Backend.{Backend}
use uoft_operating_systems.MsgQueue.Lifecycle.{msg_queue_close}
use uoft_operating_systems.ProdCon.{
  Side, consuming, Wait, ready, asleep, woken, Producer, announcing, sending, leaving, gone,
  Consumer, awaiting, receiving, departing, joining, finished, failed, World, woken_if,
  wakes_writer, live, succeeded, read_turn,
}
use uoft_operating_systems.ProdCon.Steps.{
  was_read, count_read, received, join_producer, consumer_step,
}

-- A thread that has not slept is ready after the other's turns.
abbrev pub IsReady : World → Type 0
IsReady w = w.producer_wait ≡ ready

pub woken_if-ready : (b : Bool) (wait : Wait) → wait ≡ ready → woken_if b wait ≡ ready
woken_if-ready true ready e = refl
woken_if-ready true asleep e = cc
woken_if-ready true woken e = cc
woken_if-ready false wait e = e

module _ (self : Side → ℕ) (count : ℕ) (rand : ℕ → ℕ) where
  was_read-IsReady :
      (w : World) (next : Reply → Run Consumer) (step : Step Backend)
      → IsReady w
      → IfReturns IsReady (was_read self count rand w next step)
  unfolding was_read
  was_read-IsReady w next (blocked mq calls) e = e
  was_read-IsReady w next (returned reply mq calls) e =
      after_any IsReady (next reply) _ (λ x. woken_if-ready (wakes_writer calls) w.producer_wait e)

  join_producer-IsReady :
      (sum : ℕ) (x : Producer) (w : World)
      → IsReady w
      → IfReturns IsReady (join_producer self count rand sum x w)
  unfolding join_producer
  join_producer-IsReady sum announcing w e = e
  join_producer-IsReady sum (sending i s n) w e = e
  join_producer-IsReady sum (leaving s) w e = e
  join_producer-IsReady sum (gone expected) w e =
      after_any IsReady (assert (expected == sum)) _ (λ _. e)

  pub consumer_step-IsReady :
      (x : Consumer) (w : World) → IsReady w → IfReturns IsReady (consumer_step self count rand x w)
  unfolding consumer_step
  consumer_step-IsReady awaiting w e = after_any IsReady (live w.queue) _ (λ mq.
      after_any IsReady (read_turn (self consuming) w.reader w.consumer_wait mq 4) _
        (λ step. was_read-IsReady w (count_read self count rand) step e))
  consumer_step-IsReady (receiving n i sum) w e = after_any IsReady (live w.queue) _ (λ mq.
      after_any IsReady (read_turn (self consuming) w.reader w.consumer_wait mq 4) _
        (λ step. was_read-IsReady w (received self count rand n i sum) step e))
  consumer_step-IsReady (departing sum) w e = after_any IsReady (live w.queue) _ (λ mq.
      after_any IsReady (msg_queue_close w.reader mq) _ (λ result.
        after_any IsReady (assert (succeeded result.errno)) _
          (λ _. woken_if-ready (wakes_writer result.calls) w.producer_wait e)))
  consumer_step-IsReady (joining sum) w e = join_producer-IsReady sum w.producer w e
  consumer_step-IsReady (finished sum) w e = e
  consumer_step-IsReady failed w e = e
