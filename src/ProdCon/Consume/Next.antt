-- ===== src/ProdCon/Consume/Next.antt =====
-- A turn of the consumer of prodcon.c that makes a read.
use mathlib.Core.Path.{subst}
use native.Mathlib.Decide.{dec_lt}
use uoft_operating_systems.Common.{
  ℕ, suc, ◌+◌, ◌*◌, ◌%◌, ◌^◌, ◌≤◌, ◌<◌, ◌≡◌, refl, sym, ap, ◌∙◌, arith, Bool, true, false, ◌&&◌,
  some, lt→ltb, le→ltb, eq→==, ok, Run, Returns, Returns-bind, Returns-also, ◌>>=◌,
}
use uoft_operating_systems.MsgQueue.Sync.{Reply, value, Step, returned, blocked}
use uoft_operating_systems.MsgQueue.Frame.{bytes_of, length-bytes_of, of_bytes-bytes_of}
use uoft_operating_systems.MsgQueue.Backend.{Backend}
use uoft_operating_systems.MsgQueue.Backend.Tracks.{Tracks}
use uoft_operating_systems.MsgQueue.Carries.{Carries}
use uoft_operating_systems.ProdCon.{
  Side, consuming, Consumer, World, read_turn, lt_int, int_of, live,
}
use uoft_operating_systems.ProdCon.Steps.{was_read, count_read, received, receive_next}
use uoft_operating_systems.ProdCon.Plan.{
  woken_if-awake, ConsumerNext, Handles, handles, box, payload, total, total-le, ConsumerAt,
  at_receiving, at_departing, Good, through, closed, QueueAt-as, QueueAt-live, add_int_value,
}
use uoft_operating_systems.ProdCon.Kept.Read.{read_turn-kept}
use uoft_operating_systems.ProdCon.Kept.{KeepsRead, Tracks-same, is_nil}
use uoft_operating_systems.ProdCon.Consume.{ReadOutcome, read_turn-ReadOutcome}

pub and_false : (b : Bool) → (b && false) ≡ false
and_false true = refl
and_false false = refl

int_of-bytes : (k : ℕ) → k < 2 ^ 32 → int_of (bytes_of 4 k) ≡ ok k
unfolding int_of
int_of-bytes k small = rw (length-bytes_of 4 k, of_bytes-bytes_of 4 k small) refl

is_nil-bytes : (k : ℕ) → is_nil (bytes_of 4 k) ≡ false
unfolding bytes_of
is_nil-bytes k = refl

module _ (self : Side → ℕ) (capacity count : ℕ) (rand : ℕ → ℕ) (small : 64 * count < 2 ^ 31)
    (writer reader address : ℕ) (h : Handles writer reader address) where
  receive_next-ConsumerAt :
      (i : ℕ)
      → i ≤ count
      → ConsumerAt count rand (suc i) (receive_next self count rand count i (total rand i))
  unfolding receive_next lt_int
  receive_next-ConsumerAt i le = elim (dec_lt i count) [
    | yes lt ↦
        rw (lt→ltb i count lt, lt→ltb count (2 ^ 31) (omega (arith, small)))
          (at_receiving (omega arith) lt)
    | no ge ↦
        let last : i ≡ count = omega (arith, ge, le) in
        rw (le→ltb i count (omega (arith, ge)), last) (at_departing (omega arith))
  ]

  pub count_read-ConsumerAt :
      (reply : Reply)
      → reply.ret ≡ value 4
      → reply.stored ≡ bytes_of 4 count
      → Returns (ConsumerAt count rand 1) (count_read self count rand reply)
  unfolding count_read total
  count_read-ConsumerAt reply e bytes =
      rw (e, bytes, int_of-bytes count (omega (arith, small)), eq→== count count refl)
        (receive_next-ConsumerAt 0 (omega arith))

  pub received-ConsumerAt :
      (i : ℕ) (reply : Reply)
      → i < count
      → reply.ret ≡ value 4
      → reply.stored ≡ bytes_of 4 (rand i % 64)
      → Returns
          (ConsumerAt count rand (suc (suc i)))
          (received self count rand count i (total rand i) reply)
  unfolding received total
  received-ConsumerAt i reply lt e bytes =
      rw
        (
          e,
          bytes,
          int_of-bytes (rand i % 64) (omega arith),
          add_int_value (total rand i) (rand i % 64) (omega (arith, lt, small, total-le rand i)),
        )
        (let next : suc i ≡ i + 1 = omega arith in
          subst
            (λ k.
              ConsumerAt count rand (suc (suc i))
                (receive_next self count rand count k (total rand (suc i))))
            next (receive_next-ConsumerAt (suc i) (omega (arith, lt))))

  module _ (p c : ℕ) (w : World) (good : Good capacity count rand writer reader p c w) where
    was_read-Next :
        (next : Reply → Run Consumer) (mq : Backend) (step : Step Backend)
        → c ≤ count
        → Tracks mq (handles (closed count p) false) true true
        → ReadOutcome capacity count rand (through count p) c (closed count p) step
        → KeepsRead mq step
        → ((reply : Reply)
            → reply.ret ≡ value 4
            → reply.stored ≡ bytes_of 4 (payload count rand c)
            → Returns (ConsumerAt count rand (suc c)) (next reply))
        → Returns
            (ConsumerNext capacity count rand writer reader p c)
            (was_read self count rand w next step)
    unfolding was_read
    was_read-Next next mq (blocked mq' calls) early t (empty, carries) kept goes = (
      c,
      record {
        produces = good.produces;
        consumes = good.consumes;
        queue_holds =
            QueueAt-as capacity count rand (through count p) c (through count p) (through count c)
              (closed count p) false (closed count p) (closed count c) (some mq') refl
              (omega (arith, early)) refl (sym (le→ltb (count + 1) c (omega (arith, early))))
              (
                and_false (closed count p),
                carries,
                Tracks-same mq mq' (handles (closed count p) false) true true kept t,
              );
        ahead = good.ahead;
        joined_last = good.joined_last;
        producer_sleeps = good.producer_sleeps;
        consumer_sleeps = λ e lt. omega (arith, empty, early);
        writer_open = good.writer_open;
        reader_open = good.reader_open;
      },
      omega arith,
      λ (_, (more, _)). omega (arith, more early, empty, early),
    )
    was_read-Next next mq (returned reply mq' calls) early t ((more, ret), stored, carries)
          (kept, wakes) goes =
        Returns-bind (ConsumerAt count rand (suc c))
          (ConsumerNext capacity count rand writer reader p c) (next reply) _
          (goes reply ret stored)
          (λ x at. (
            suc c,
            record {
              produces = good.produces;
              consumes = at;
              queue_holds =
                  QueueAt-as capacity count rand (through count p) (suc c) (through count p)
                    (through count (suc c)) (closed count p) false (closed count p)
                    (closed count (suc c)) (some mq') refl (omega (arith, early)) refl
                    (sym (le→ltb (count + 1) (suc c) (omega (arith, early))))
                    (
                      and_false (closed count p),
                      carries,
                      Tracks-same mq mq' (handles (closed count p) false) true true kept t,
                    );
              ahead = omega (arith, more, early);
              joined_last = λ e. absurd (omega (arith, e, early));
              producer_sleeps = λ e. absurd (
                  woken_if-awake w.producer_wait
                    (rw⁻¹ (wakes (ap is_nil stored ∙ is_nil-bytes (payload count rand c))) e));
              consumer_sleeps = λ e. absurd (ground (arith, e));
              writer_open = good.writer_open;
              reader_open = λ lt. good.reader_open (omega (arith, early));
            },
            omega arith,
            λ able. omega arith,
          ))

    pub reading-Next :
        (next : Reply → Run Consumer)
        → c ≤ count
        → ((reply : Reply)
            → reply.ret ≡ value 4
            → reply.stored ≡ bytes_of 4 (payload count rand c)
            → Returns (ConsumerAt count rand (suc c)) (next reply))
        → Returns (ConsumerNext capacity count rand writer reader p c) (
            live w.queue >>= λ mq.
            read_turn (self consuming) w.reader w.consumer_wait mq 4 >>= λ step.
            was_read self count rand w next step)
    reading-Next next early goes =
        let s = through count p in
        let a = closed count p in
        Returns-bind
          (λ mq.
            Carries mq (box capacity count rand s c a false)
            × Tracks mq (handles a false) true true)
          (ConsumerNext capacity count rand writer reader p c) (live w.queue) _
          (QueueAt-live capacity count rand s c a false w.queue (and_false a) (
            QueueAt-as capacity count rand s (through count c) s c a (closed count c) a false
              w.queue refl (omega (arith, early)) refl (le→ltb (count + 1) c (omega (arith, early)))
              good.queue_holds))
          (λ mq (carries, t).
            Returns-bind (λ step. ReadOutcome capacity count rand s c a step × KeepsRead mq step)
              (ConsumerNext capacity count rand writer reader p c)
              (read_turn (self consuming) w.reader w.consumer_wait mq 4) _
              (Returns-also (ReadOutcome capacity count rand s c a) (KeepsRead mq)
                (read_turn (self consuming) w.reader w.consumer_wait mq 4)
                (subst
                  (λ q.
                    Returns (ReadOutcome capacity count rand s c a)
                      (read_turn (self consuming) q w.consumer_wait mq 4))
                  (sym (good.reader_open (omega (arith, early))))
                  (read_turn-ReadOutcome capacity count rand writer reader address h
                    (self consuming) w.consumer_wait mq s c a (λ e. ground (arith, e, early))
                    (λ e. omega (arith, good.consumer_sleeps e early)) carries))
                (read_turn-kept (self consuming) w.reader w.consumer_wait mq 4))
              (λ step (outcome, kept). was_read-Next next mq step early t outcome kept goes))
