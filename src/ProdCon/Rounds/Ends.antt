-- ===== src/ProdCon/Rounds/Ends.antt =====
-- The end of both threads of prodcon.c.
use uoft_operating_systems.Common.{ℕ, ◌+◌, ◌≡◌, refl, arith, Bool, true, Option, none, some, lt→ltb}
use uoft_operating_systems.MsgQueue.Backend.{Backend}
use uoft_operating_systems.ProdCon.{
  Producer, announcing, sending, leaving, gone, Consumer, awaiting, receiving, departing, joining,
  finished, failed, World,
}
use uoft_operating_systems.ProdCon.Plan.{
  total, ProducerAt, at_announcing, at_sending, at_leaving, at_gone, ConsumerAt, at_awaiting,
  at_receiving, at_departing, at_joining, at_finished, Good, QueueAt, Ended, through, closed,
}

module _ (capacity count : ℕ) (rand : ℕ → ℕ) (writer reader : ℕ) where
  finished_at :
      {c : ℕ} (x : Consumer)
      → c ≡ count + 3
      → ConsumerAt count rand c x
      → x ≡ finished (total rand count)
  finished_at awaiting at (at_awaiting e) = absurd (omega (arith, at, e))
  finished_at (receiving n i sum) at (at_receiving e lt) = absurd (omega (arith, at, e, lt))
  finished_at (departing sum) at (at_departing e) = absurd (omega (arith, at, e))
  finished_at (joining sum) at (at_joining e) = absurd (omega (arith, at, e))
  finished_at (finished sum) at (at_finished e) = refl
  finished_at failed at x = elim x [ ]

  gone_at :
      {p : ℕ} (x : Producer)
      → p ≡ count + 2
      → ProducerAt count rand p x
      → x ≡ gone (total rand count)
  gone_at announcing at (at_announcing e) = absurd (omega (arith, at, e))
  gone_at (sending i sum number) at (at_sending e lt) = absurd (omega (arith, at, e, lt))
  gone_at (leaving sum) at (at_leaving e) = absurd (omega (arith, at, e))
  gone_at (gone sum) at (at_gone e) = refl

  freed :
      (s r : ℕ) (a b : Bool) (queue : Option Backend)
      → a ≡ true
      → b ≡ true
      → QueueAt capacity count rand s r a b queue
      → queue ≡ none
  freed s r a b none ea eb q = refl
  freed s r a b (some mq) ea eb (open_, _, _) = absurd (ground (arith, ea, eb, open_))

  pub Good-Ended :
      (w : World)
      → Good capacity count rand writer reader (count + 2) (count + 3) w
      → Ended count rand w
  Good-Ended w good = (
    finished_at w.consumer refl good.consumes,
    gone_at w.producer refl good.produces,
    freed (through count (count + 2)) (through count (count + 3)) (closed count (count + 2))
        (closed count (count + 3)) w.queue (lt→ltb (count + 1) (count + 2) (omega arith))
        (lt→ltb (count + 1) (count + 3) (omega arith)) good.queue_holds,
  )
