-- ===== src/ProdCon/Produce/Next.antt =====
-- A turn of the producer of prodcon.c that makes a write.
use mathlib.Core.Path.{subst}
use native.Mathlib.Decide.{dec_lt}
use uoft_operating_systems.Common.{
  ℕ, suc, ◌+◌, ◌*◌, ◌%◌, ◌^◌, ◌≤◌, ◌<◌, ◌≡◌, refl, sym, ap, arith, true, false, some, lt→ltb,
  le→ltb, Run, Returns, Returns-bind, Returns-also, ◌>>=◌,
}
use uoft_operating_systems.MsgQueue.Sync.{Reply, value, Step, returned, blocked}
use uoft_operating_systems.MsgQueue.Frame.{bytes_of}
use uoft_operating_systems.MsgQueue.Backend.{Backend}
use uoft_operating_systems.MsgQueue.Backend.Tracks.{Tracks}
use uoft_operating_systems.MsgQueue.Carries.{Carries}
use uoft_operating_systems.ProdCon.{
  Side, producing, Producer, World, write_turn, lt_int, live, is_zero,
}
use uoft_operating_systems.ProdCon.Steps.{written, announced, sent, send_next}
use uoft_operating_systems.ProdCon.Plan.{
  woken_if-awake, ProducerNext, Handles, handles, box, payload, total, total-le, ProducerAt,
  at_sending, at_leaving, Good, through, closed, QueueAt-as, QueueAt-live, add_int_value,
}
use uoft_operating_systems.ProdCon.Kept.Write.{write_turn-kept}
use uoft_operating_systems.ProdCon.Kept.{KeepsWrite, Tracks-same}
use uoft_operating_systems.ProdCon.Produce.{WriteOutcome, write_turn-WriteOutcome}

module _ (self : Side → ℕ) (capacity count : ℕ) (rand : ℕ → ℕ) (big : 12 < capacity)
    (small : 64 * count < 2 ^ 31) (writer reader address : ℕ)
    (h : Handles writer reader address) where
  send_next-ProducerAt :
      (i : ℕ)
      → i ≤ count
      → ProducerAt count rand (suc i) (send_next self count rand i (total rand i))
  unfolding send_next lt_int
  send_next-ProducerAt i le = elim (dec_lt i count) [
    | yes lt ↦
        rw (lt→ltb i count lt, lt→ltb count (2 ^ 31) (omega (arith, small)))
          (at_sending (omega arith) lt)
    | no ge ↦
        let last : i ≡ count = omega (arith, ge, le) in
        rw (le→ltb i count (omega (arith, ge)), last) (at_leaving (omega arith))
  ]

  pub announced-ProducerAt :
      (reply : Reply)
      → reply.ret ≡ value 0
      → Returns (ProducerAt count rand 1) (announced self count rand reply)
  unfolding announced total
  announced-ProducerAt reply e = rw e (send_next-ProducerAt 0 (omega arith))

  pub sent-ProducerAt :
      (i : ℕ) (reply : Reply)
      → i < count
      → reply.ret ≡ value 0
      → Returns
          (ProducerAt count rand (suc (suc i)))
          (sent self count rand i (total rand i) (rand i % 64) reply)
  unfolding sent total
  sent-ProducerAt i reply lt e =
      rw (e, add_int_value (total rand i) (rand i % 64) (omega (arith, lt, small, total-le rand i)))
        (let next : suc i ≡ i + 1 = omega arith in
          subst
            (λ k.
              ProducerAt count rand (suc (suc i))
                (send_next self count rand k (total rand (suc i))))
            next (send_next-ProducerAt (suc i) (omega (arith, lt))))

  module _ (p c : ℕ) (w : World) (good : Good capacity count rand writer reader p c w) where
    written-Next :
        (next : Reply → Run Producer) (mq : Backend) (step : Step Backend)
        → p ≤ count
        → c ≤ p
        → Tracks mq (handles false false) true true
        → WriteOutcome capacity count rand big p c step
        → KeepsWrite mq step
        → ((reply : Reply)
            → reply.ret ≡ value 0
            → Returns (ProducerAt count rand (suc p)) (next reply))
        → Returns
            (ProducerNext capacity count rand writer reader p c)
            (written self count rand w next step)
    unfolding written
    written-Next next mq (blocked mq' calls) early le t (full, carries) kept goes = (
      p,
      record {
        produces = good.produces;
        consumes = good.consumes;
        queue_holds =
            QueueAt-as capacity count rand p c (through count p) (through count c) false false
              (closed count p) (closed count c) (some mq') (omega (arith, early))
              (omega (arith, early, le)) (sym (le→ltb (count + 1) p (omega (arith, early))))
              (sym (le→ltb (count + 1) c (omega (arith, early, le))))
              (refl, carries, Tracks-same mq mq' (handles false false) true true kept t);
        ahead = good.ahead;
        joined_last = good.joined_last;
        producer_sleeps = λ e lt. full;
        consumer_sleeps = good.consumer_sleeps;
        writer_open = good.writer_open;
        reader_open = good.reader_open;
      },
      omega arith,
      λ (_, able). omega (arith, able early, full),
    )
    written-Next next mq (returned reply mq' calls) early le t (done, carries) (kept, wakes) goes =
        Returns-bind (ProducerAt count rand (suc p))
          (ProducerNext capacity count rand writer reader p c) (next reply) _ (goes reply done)
          (λ x at. (
            suc p,
            record {
              produces = at;
              consumes = good.consumes;
              queue_holds =
                  QueueAt-as capacity count rand (suc p) c (through count (suc p)) (through count c)
                    false false (closed count (suc p)) (closed count c) (some mq')
                    (omega (arith, early)) (omega (arith, early, le))
                    (sym (le→ltb (count + 1) (suc p) (omega (arith, early))))
                    (sym (le→ltb (count + 1) c (omega (arith, early, le))))
                    (refl, carries, Tracks-same mq mq' (handles false false) true true kept t);
              ahead = omega (arith, good.ahead);
              joined_last = λ e. omega (arith, e, early, le);
              producer_sleeps = λ e. absurd (ground (arith, e));
              consumer_sleeps =
                  λ e. absurd (woken_if-awake w.consumer_wait (rw⁻¹ (wakes (ap is_zero done)) e));
              writer_open = λ lt. good.writer_open (omega (arith, lt));
              reader_open = good.reader_open;
            },
            omega arith,
            λ able. omega arith,
          ))

    pub write-Next :
        (next : Reply → Run Producer)
        → p ≤ count
        → ((reply : Reply)
            → reply.ret ≡ value 0
            → Returns (ProducerAt count rand (suc p)) (next reply))
        → Returns (ProducerNext capacity count rand writer reader p c) (
            live w.queue >>= λ mq.
            write_turn
              (self producing)
              w.writer
              w.producer_wait
              mq
              (bytes_of 4 (payload count rand p))
            >>= λ step. written self count rand w next step)
    write-Next next early goes =
        let le : c ≤ p = omega (arith, good.ahead, early) in
        Returns-bind
          (λ mq.
            Carries mq (box capacity count rand p c false false)
            × Tracks mq (handles false false) true true)
          (ProducerNext capacity count rand writer reader p c) (live w.queue) _
          (QueueAt-live capacity count rand p c false false w.queue refl (
            QueueAt-as capacity count rand (through count p) (through count c) p c (closed count p)
              (closed count c) false false w.queue (omega (arith, early)) (omega (arith, early, le))
              (le→ltb (count + 1) p (omega (arith, early)))
              (le→ltb (count + 1) c (omega (arith, early, le))) good.queue_holds))
          (λ mq (carries, t).
            let bytes = bytes_of 4 (payload count rand p) in
            Returns-bind
              (λ step. WriteOutcome capacity count rand big p c step × KeepsWrite mq step)
              (ProducerNext capacity count rand writer reader p c)
              (write_turn (self producing) w.writer w.producer_wait mq bytes) _
              (Returns-also (WriteOutcome capacity count rand big p c) (KeepsWrite mq)
                (write_turn (self producing) w.writer w.producer_wait mq bytes)
                (subst
                  (λ q.
                    Returns (WriteOutcome capacity count rand big p c)
                      (write_turn (self producing) q w.producer_wait mq bytes))
                  (sym (good.writer_open (omega (arith, early))))
                  (write_turn-WriteOutcome capacity count rand big writer reader address h
                    (self producing) w.producer_wait mq p c le (λ e. good.producer_sleeps e early)
                    carries))
                (write_turn-kept (self producing) w.writer w.producer_wait mq bytes))
              (λ step (outcome, kept). written-Next next mq step early le t outcome kept goes))
