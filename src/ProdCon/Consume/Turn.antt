-- ===== src/ProdCon/Consume/Turn.antt =====
-- A turn of the consumer of prodcon.c.
use mathlib.Core.Path.{subst}
use uoft_operating_systems.Common.{
  ℕ, suc, ◌+◌, ◌*◌, ◌^◌, ◌<◌, ◌≡◌, refl, sym, ap, ◌∙◌, arith, lt→ltb, eq→==, Returns,
}
use uoft_operating_systems.MsgQueue.Frame.{bytes_of}
use uoft_operating_systems.ProdCon.{
  Side, Producer, announcing, sending, leaving, gone, Consumer, awaiting, receiving, departing,
  joining, finished, failed, World,
}
use uoft_operating_systems.ProdCon.Steps.{count_read, received, join_producer, consumer_step}
use uoft_operating_systems.ProdCon.Plan.{
  ConsumerNext, Handles, payload, total, ProducerAt, at_announcing, at_sending, at_leaving, at_gone,
  ConsumerAt, at_awaiting, at_receiving, at_departing, at_joining, at_finished, Good, through,
  closed, QueueAt-as,
}
use uoft_operating_systems.ProdCon.Consume.Next.{
  reading-Next, count_read-ConsumerAt, received-ConsumerAt,
}
use uoft_operating_systems.ProdCon.Consume.Close.{close-Next}

module _ (self : Side → ℕ) (capacity count : ℕ) (rand : ℕ → ℕ) (small : 64 * count < 2 ^ 31)
    (writer reader address : ℕ) (h : Handles writer reader address) where
  module _ (p c : ℕ) (w : World) (good : Good capacity count rand writer reader p c w) where
    join-Next :
        (x : Producer)
        → c ≡ count + 2
        → ProducerAt count rand p x
        → Returns
            (ConsumerNext capacity count rand writer reader p c)
            (join_producer self count rand (total rand count) x w)
    unfolding join_producer
    join-Next announcing at (at_announcing e) =
        (c, good, omega arith, λ (_, (_, last)). omega (arith, last at, e))
    join-Next (sending i sum number) at (at_sending e lt) =
        (c, good, omega arith, λ (_, (_, last)). omega (arith, last at, e, lt))
    join-Next (leaving sum) at (at_leaving e) =
        (c, good, omega arith, λ (_, (_, last)). omega (arith, last at, e))
    join-Next (gone sum) at (at_gone e) = rw (eq→== (total rand count) (total rand count) refl) (
      c + 1,
      record {
        produces = good.produces;
        consumes = at_finished (omega (arith, at));
        queue_holds =
            QueueAt-as capacity count rand (through count p) (through count c) (through count p)
              (through count (c + 1)) (closed count p) (closed count c) (closed count p)
              (closed count (c + 1)) w.queue refl (omega (arith, at)) refl
              (lt→ltb (count + 1) c (omega (arith, at))
                ∙ sym (lt→ltb (count + 1) (c + 1) (omega (arith, at))))
              good.queue_holds;
        ahead = omega (arith, good.ahead);
        joined_last = λ _. e;
        producer_sleeps = λ s lt. absurd (omega (arith, e, lt));
        consumer_sleeps = λ s lt. absurd (omega (arith, at, lt));
        writer_open = good.writer_open;
        reader_open = λ lt. absurd (omega (arith, at, lt));
      },
      omega arith,
      λ able. omega arith,
    )

    consumer_step-Next :
        (x : Consumer)
        → ConsumerAt count rand c x
        → Returns
            (ConsumerNext capacity count rand writer reader p c)
            (consumer_step self count rand x w)
    unfolding consumer_step
    consumer_step-Next awaiting (at_awaiting e) =
        reading-Next self capacity count rand small writer reader address h p c w good
          (count_read self count rand) (omega (arith, e))
          (λ reply ret stored.
            subst (λ k. Returns (ConsumerAt count rand (suc k)) (count_read self count rand reply))
              (sym e)
              (count_read-ConsumerAt self capacity count rand small writer reader address h reply
                ret (stored ∙ ap (λ k. bytes_of 4 (payload count rand k)) e)))
    consumer_step-Next (receiving n i sum) (at_receiving e lt) =
        let e' : c ≡ suc i = omega (arith, e) in
        reading-Next self capacity count rand small writer reader address h p c w good
          (received self count rand count i (total rand i)) (omega (arith, e', lt))
          (λ reply ret stored.
            subst
              (λ k.
                Returns (ConsumerAt count rand (suc k))
                  (received self count rand count i (total rand i) reply))
              (sym e')
              (received-ConsumerAt self capacity count rand small writer reader address h i reply lt
                ret (stored ∙ ap (λ k. bytes_of 4 (payload count rand k)) e')))
    consumer_step-Next (departing sum) (at_departing e) =
        close-Next self capacity count rand small writer reader address h p c w good e
    consumer_step-Next (joining sum) (at_joining e) = join-Next w.producer e good.produces
    consumer_step-Next failed at = elim at [ ]
    consumer_step-Next (finished sum) (at_finished e) =
        (c, good, omega arith, λ (early, _). omega (arith, e, early))

    -- A turn of the consumer keeps the invariant, and gets it further if it can.
    pub consumer_turn-Next :
        Returns
          (ConsumerNext capacity count rand writer reader p c)
          (consumer_step self count rand w.consumer w)
    consumer_turn-Next = consumer_step-Next w.consumer good.consumes
