-- ===== src/ProdCon/Produce/Turn.antt =====
-- A turn of the producer of prodcon.c.
use mathlib.Core.Path.{subst}
use uoft_operating_systems.Common.{ℕ, suc, ◌*◌, ◌%◌, ◌^◌, ◌<◌, ◌≡◌, sym, arith, Returns, ◌>>=◌}
use uoft_operating_systems.MsgQueue.Frame.{bytes_of}
use uoft_operating_systems.ProdCon.{
  Side, producing, Producer, announcing, sending, leaving, gone, World, write_turn, live,
}
use uoft_operating_systems.ProdCon.Steps.{written, announced, sent, producer_step}
use uoft_operating_systems.ProdCon.Plan.{
  ProducerNext, Handles, payload, total, ProducerAt, at_announcing, at_sending, at_leaving, at_gone,
  Good,
}
use uoft_operating_systems.ProdCon.Produce.Next.{write-Next, announced-ProducerAt, sent-ProducerAt}
use uoft_operating_systems.ProdCon.Produce.Close.{close-Next}

module _ (self : Side → ℕ) (capacity count : ℕ) (rand : ℕ → ℕ) (big : 12 < capacity)
    (small : 64 * count < 2 ^ 31) (writer reader address : ℕ)
    (h : Handles writer reader address) where
  module _ (p c : ℕ) (w : World) (good : Good capacity count rand writer reader p c w) where
    producer_step-Next :
        (x : Producer)
        → ProducerAt count rand p x
        → Returns
            (ProducerNext capacity count rand writer reader p c)
            (producer_step self count rand x w)
    unfolding producer_step
    producer_step-Next announcing (at_announcing e) =
        subst
          (λ k. Returns (ProducerNext capacity count rand writer reader p c) (
            live w.queue >>= λ mq.
            write_turn (self producing) w.writer w.producer_wait mq
              (bytes_of 4 (payload count rand k))
            >>= λ step. written self count rand w (announced self count rand) step))
          e
          (write-Next self capacity count rand big small writer reader address h p c w good
            (announced self count rand) (omega (arith, e))
            (λ reply done.
              subst (λ k. Returns (ProducerAt count rand (suc k)) (announced self count rand reply))
                (sym e)
                (announced-ProducerAt self capacity count rand big small writer reader address h
                  reply done)))
    producer_step-Next (sending i sum number) (at_sending e lt) =
        let e' : p ≡ suc i = omega (arith, e) in
        subst
          (λ k. Returns (ProducerNext capacity count rand writer reader p c) (
            live w.queue >>= λ mq.
            write_turn (self producing) w.writer w.producer_wait mq
              (bytes_of 4 (payload count rand k))
            >>= λ step.
                written self count rand w (sent self count rand i (total rand i) (rand i % 64))
                  step))
          e'
          (write-Next self capacity count rand big small writer reader address h p c w good
            (sent self count rand i (total rand i) (rand i % 64)) (omega (arith, e', lt))
            (λ reply done.
              subst
                (λ k.
                  Returns (ProducerAt count rand (suc k))
                    (sent self count rand i (total rand i) (rand i % 64) reply))
                (sym e')
                (sent-ProducerAt self capacity count rand big small writer reader address h i reply
                  lt done)))
    producer_step-Next (leaving sum) (at_leaving e) =
        close-Next self capacity count rand big small writer reader address h p c w good e
    producer_step-Next (gone sum) (at_gone e) =
        (p, good, omega arith, λ (early, _). omega (arith, e, early))

    -- A turn of the producer keeps the invariant, and gets it further if it can.
    pub producer_turn-Next :
        Returns
          (ProducerNext capacity count rand writer reader p c)
          (producer_step self count rand w.producer w)
    producer_turn-Next = producer_step-Next w.producer good.produces
