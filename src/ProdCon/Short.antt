-- ===== src/ProdCon/Short.antt =====
-- prodcon.c with a queue that is too short for its messages.
pub mod Unslept
use mathlib.Core.Path.{subst}
use uoft_operating_systems.Common.{
  ℕ, ◌+◌, ◌*◌, ◌^◌, ◌≤◌, ◌<◌, ◌≡◌, refl, sym, ap, ◌∙◌, arith, Bool, true, false, Option, none, some,
  List, [], ◌∷◌, length, ◌==◌, leb, le→leb, le→ltb, if-true, Run, ok, stop, assertion_failed,
  Returns, IfReturns, after_any, Returns-also, ◌>>=◌, assert,
}
use uoft_operating_systems.MsgQueue.Handle.{writer_flag, has}
use uoft_operating_systems.MsgQueue.Sync.{emsgsize, Reply, Step, returned, blocked}
use uoft_operating_systems.MsgQueue.Frame.{bytes_of, length-bytes_of}
use uoft_operating_systems.MsgQueue.Backend.{Backend}
use uoft_operating_systems.MsgQueue.Backend.Tracks.{Tracks}
use uoft_operating_systems.MsgQueue.Mailbox.{send, refuses}
use uoft_operating_systems.MsgQueue.Carries.{Carries, Agrees}
use uoft_operating_systems.MsgQueue.Lifecycle.{msg_queue_close}
use uoft_operating_systems.MsgQueue.Send.{msg_queue_write}
use uoft_operating_systems.MsgQueue.Send.Refine.{msg_queue_write-refines}
use uoft_operating_systems.ProdCon.{
  Side, producing, consuming, Event, acting, rousing, Wait, ready, asleep, woken, Producer,
  announcing, sending, leaving, gone, Consumer, awaiting, receiving, departing, joining, finished,
  failed, World, woken_if, wakes_writer, live, succeeded, write_turn, read_turn,
}
use uoft_operating_systems.ProdCon.Steps.{
  written, announced, was_read, count_read, received, join_producer, producer_step, consumer_step,
  thread_turn, run_threads, main_begin, main_run,
}
use uoft_operating_systems.ProdCon.Plan.{
  woken_if-awake, Handles, handles, box, ProducerAt, at_sending, at_leaving, at_gone, Good,
  QueueAt-as, QueueAt-live, through, closed,
}
use uoft_operating_systems.ProdCon.Consume.Turn.{consumer_turn-Next}
use uoft_operating_systems.ProdCon.Rounds.{acts}
use uoft_operating_systems.ProdCon.Rounds.Start.{Ready, main_begin-Ready}
use uoft_operating_systems.ProdCon.Short.Unslept.{woken_if-ready, IsReady, consumer_step-IsReady}

-- A run that stops whatever the value stops.
stop_by :
    {A B : Type 0} (P : A → Type 0) (m : Run A) (k : A → Run B)
    → Returns P m
    → ((a : A) → P a → k a ≡ stop assertion_failed)
    → (m >>= k) ≡ stop assertion_failed
stop_by P (ok a) k p stops = stops a p
stop_by P (stop e) k p stops = absurd p

module _ (self : Side → ℕ) (capacity count : ℕ) (rand : ℕ → ℕ) where
  module _ (short : capacity ≤ 12) (small : 64 * count < 2 ^ 31) (writer reader address : ℕ)
      (h : Handles writer reader address) where
    refused :
        send writer_flag (bytes_of 4 count) (box capacity count rand 0 0 false false)
        ≡ (refuses emsgsize, box capacity count rand 0 0 false false)
    unfolding send has
    refused =
        rw (length-bytes_of 4 count) (if-true _ _ (leb capacity 12) (le→leb capacity 12 short))

    written-stops :
        (w : World) (step : Step Backend)
        → Agrees (refuses emsgsize, box capacity count rand 0 0 false false) step
        → written self count rand w (announced self count rand) step ≡ stop assertion_failed
    unfolding written announced
    written-stops w (returned reply mq calls) (e, _) = rw e refl
    written-stops w (blocked mq calls) a = absurd a

    announcing-stops :
        (w : World) (x : Producer)
        → Good capacity count rand writer reader 0 0 w
        → IsReady w
        → ProducerAt count rand 0 x
        → producer_step self count rand x w ≡ stop assertion_failed
    unfolding producer_step write_turn
    announcing-stops w announcing good e at =
        stop_by
          (λ mq.
            Carries mq (box capacity count rand 0 0 false false)
            × Tracks mq (handles false false) true true)
          (live w.queue) _
          (QueueAt-live capacity count rand 0 0 false false w.queue refl (
            QueueAt-as capacity count rand (through count 0) (through count 0) 0 0 (closed count 0)
              (closed count 0) false false w.queue (omega arith) (omega arith)
              (le→ltb (count + 1) 0 (omega arith)) (le→ltb (count + 1) 0 (omega arith))
              good.queue_holds))
          (λ mq (carries, _).
            let bytes = bytes_of 4 count in
            stop_by (Agrees (refuses emsgsize, box capacity count rand 0 0 false false))
              (write_turn (self producing) w.writer w.producer_wait mq bytes) _
              (subst
                (λ ((q, wait) : ℕ × Wait).
                  Returns (Agrees (refuses emsgsize, box capacity count rand 0 0 false false))
                    (write_turn (self producing) q wait mq bytes))
                (λ i. (sym (good.writer_open (omega arith)) i, sym e i))
                (subst (λ v. Returns (Agrees v) (msg_queue_write (self producing) writer mq bytes))
                  (ap (λ f. send f bytes (box capacity count rand 0 0 false false)) h.writer_flags
                    ∙ refused)
                  (msg_queue_write-refines (self producing) mq
                    (box capacity count rand 0 0 false false) bytes carries
                    (omega (arith, length-bytes_of 4 count)) writer address h.writer_backend)))
              (λ step a. written-stops w step a))
    announcing-stops w (sending i sum number) good e (at_sending q lt) = absurd (omega (arith, q))
    announcing-stops w (leaving sum) good e (at_leaving q) = absurd (omega (arith, q))
    announcing-stops w (gone sum) good e (at_gone q) = absurd (omega (arith, q))

    run_threads-stops :
        (events : List Event) (w : World)
        → Good capacity count rand writer reader 0 0 w
        → IsReady w
        → acts producing events ≡ true
        → run_threads self count rand events w ≡ stop assertion_failed
    unfolding run_threads thread_turn acts
    run_threads-stops [] w good e some_turn = cc
    run_threads-stops (acting producing ∷ events) w good e some_turn =
        rw (announcing-stops w w.producer good e good.produces) refl
    run_threads-stops (acting consuming ∷ events) w good e some_turn =
        stop_by _ (consumer_step self count rand w.consumer w) (run_threads self count rand events)
          (Returns-also _ IsReady (consumer_step self count rand w.consumer w)
            (consumer_turn-Next self capacity count rand small writer reader address h 0 0 w good)
            (consumer_step-IsReady self count rand w.consumer w e))
          (λ w' ((c', good', _, _), e').
            let still : c' ≡ 0 = omega (arith, good'.ahead) in
            run_threads-stops events w'
              (subst (λ c. Good capacity count rand writer reader 0 c w') still good') e' some_turn)
    run_threads-stops (rousing producing ∷ events) w good e some_turn =
        run_threads-stops events (record w { producer_wait = woken_if true w.producer_wait })
          (record {
            produces = good.produces;
            consumes = good.consumes;
            queue_holds = good.queue_holds;
            ahead = good.ahead;
            joined_last = good.joined_last;
            producer_sleeps = λ q. absurd (woken_if-awake w.producer_wait q);
            consumer_sleeps = good.consumer_sleeps;
            writer_open = good.writer_open;
            reader_open = good.reader_open;
          })
          (woken_if-ready true w.producer_wait e) some_turn
    run_threads-stops (rousing consuming ∷ events) w good e some_turn =
        run_threads-stops events (record w { consumer_wait = woken_if true w.consumer_wait })
          (record {
            produces = good.produces;
            consumes = good.consumes;
            queue_holds = good.queue_holds;
            ahead = good.ahead;
            joined_last = good.joined_last;
            producer_sleeps = good.producer_sleeps;
            consumer_sleeps = λ q. absurd (woken_if-awake w.consumer_wait q);
            writer_open = good.writer_open;
            reader_open = good.reader_open;
          })
          e some_turn

-- For a capacity of 9 to 12 bytes, which `msg_queue_create` accepts, fewer than 2^31 / 64 numbers, and
-- memory from `malloc` for the backend (a multiple of 8 other than 0) and for the buffer, the
-- assertion of `producer` on its first write fails in every schedule in which it has a turn.
pub main_run-short :
    (self : Side → ℕ) (slot event capacity count : ℕ) (block : List ℕ) (rand : ℕ → ℕ)
    (events : List Event)
    → 0 < slot
    → slot * 8 < 2 ^ 64
    → 9 ≤ capacity
    → capacity ≤ 12
    → 64 * count < 2 ^ 31
    → length block ≡ capacity
    → acts producing events ≡ true
    → main_run self rand (some (slot * 8, event)) (some block) capacity count events
      ≡ stop assertion_failed
unfolding main_run
main_run-short self slot event capacity count block rand events pos valid least short few len
      some_turn =
    stop_by (Ready self slot event capacity count block rand)
      (main_begin (some (slot * 8, event)) (some block) capacity) _
      (main_begin-Ready self slot event capacity count block rand pos valid least
        (omega (arith, short)) len)
      onward
  where
    onward :
        (begun : Option World)
        → Ready self slot event capacity count block rand begun
        → (elim begun [
          | none ↦ ok none
          | some w ↦ (do w' ← run_threads self count rand events w; ok (some w'))
        ])
          ≡ stop assertion_failed
    onward none ready' = absurd ready'
    onward (some w) (writer, reader, h, good, e) =
        rw
          (run_threads-stops self capacity count rand short few writer reader (slot * 8) h events w
            good e some_turn)
          refl
