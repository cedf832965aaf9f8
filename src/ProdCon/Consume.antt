-- ===== src/ProdCon/Consume.antt =====
-- A call of `msg_queue_read` by the consumer of prodcon.c.
pub mod Next
pub mod Close
pub mod Turn
use mathlib.Core.Path.{subst}
use uoft_operating_systems.Common.{
  ℕ, zero, suc, ◌+◌, ◌-◌, ◌≤◌, ◌<◌, ◌≡◌, refl, sym, ap, ◌∙◌, arith, Bool, true, false, List, ok,
  Returns, Returns-mono,
}
use uoft_operating_systems.MsgQueue.Handle.{reader_flag, has, get_backend, get_flags}
use uoft_operating_systems.MsgQueue.Sync.{Reply, value, Step, returned, blocked}
use uoft_operating_systems.MsgQueue.Frame.{bytes_of, length-bytes_of}
use uoft_operating_systems.MsgQueue.Backend.{Backend}
use uoft_operating_systems.MsgQueue.Mailbox.{Mailbox, on_empty, take_from, receive}
use uoft_operating_systems.MsgQueue.Carries.{Carries, Agrees}
use uoft_operating_systems.MsgQueue.Receive.{msg_queue_read, read_loop}
use uoft_operating_systems.MsgQueue.Receive.Refine.{msg_queue_read-refines}
use uoft_operating_systems.MsgQueue.Receive.Loop.{read_loop-refines}
use uoft_operating_systems.ProdCon.{Wait, ready, asleep, woken, read_turn}
use uoft_operating_systems.ProdCon.Plan.{Handles, box, slice, payload}

module _ (capacity count : ℕ) (rand : ℕ → ℕ) where
  -- What a read of message `c` comes to with `s` messages sent.
  abbrev pub ReadOutcome : ℕ → ℕ → Bool → Step Backend → Type 0
  ReadOutcome s c writer_gone (returned reply mq calls) =
      ((c < s) × (reply.ret ≡ value 4))
      × (reply.stored ≡ bytes_of 4 (payload count rand c))
      × Carries mq (box capacity count rand s (suc c) writer_gone false)
  ReadOutcome s c writer_gone (blocked mq calls) =
      (s ≤ c) × Carries mq (box capacity count rand s c writer_gone false)

  ReadOutcome-by :
      (n s c : ℕ) (writer_gone : Bool) (step : Step Backend)
      → s - c ≡ n
      → (writer_gone ≡ true → c < s)
      → Agrees
          (take_from reader_flag 4
            (box capacity count rand s c writer_gone false)
            (slice count rand c n))
          step
      → ReadOutcome s c writer_gone step
  unfolding take_from on_empty slice has
  ReadOutcome-by zero s c true step e more a = absurd (omega (arith, e, more refl))
  ReadOutcome-by zero s c false (returned reply mq calls) e more a = absurd a
  ReadOutcome-by zero s c false (blocked mq calls) e more a = (omega (arith, e), a)
  ReadOutcome-by (suc n) s c writer_gone (returned reply mq calls) e more (same, carries) = (
    (
      omega (arith, e),
      ap (λ (r : Reply). r.ret) same ∙ ap value (length-bytes_of 4 (payload count rand c)),
    ),
    ap (λ (r : Reply). r.stored) same,
    subst
        (λ k. Carries mq (record {
          capacity = capacity;
          messages = slice count rand (suc c) k;
          readers_gone = false;
          writers_gone = writer_gone;
        }))
        (omega (arith, e)) carries,
  )
  ReadOutcome-by (suc n) s c writer_gone (blocked mq calls) e more a = absurd a

  receive-take_from : (b : Mailbox) → receive reader_flag 4 b ≡ take_from reader_flag 4 b b.messages
  unfolding receive has
  receive-take_from b = refl

  module _ (writer reader address : ℕ) (h : Handles writer reader address) (self : ℕ) where
    pub read_turn-ReadOutcome :
        (wait : Wait) (mq : Backend) (s c : ℕ) (writer_gone : Bool)
        → (writer_gone ≡ true → c < s)
        → (wait ≡ asleep → s ≤ c)
        → Carries mq (box capacity count rand s c writer_gone false)
        → Returns (ReadOutcome s c writer_gone) (read_turn self reader wait mq 4)
    unfolding read_turn
    read_turn-ReadOutcome asleep mq s c writer_gone more slept carries = (slept refl, carries)
    read_turn-ReadOutcome ready mq s c writer_gone more slept carries =
        let b = box capacity count rand s c writer_gone false in
        Returns-mono _ (ReadOutcome s c writer_gone) (msg_queue_read self reader mq 4)
          (subst (λ v. Returns (Agrees v) (msg_queue_read self reader mq 4))
            (ap (λ f. receive f 4 b) h.reader_flags ∙ receive-take_from b)
            (msg_queue_read-refines self reader address 4 mq b h.reader_backend carries))
          (λ step. ReadOutcome-by (s - c) s c writer_gone step refl more)
    read_turn-ReadOutcome woken mq s c writer_gone more slept carries =
        let b = box capacity count rand s c writer_gone false in
        Returns-mono _ (ReadOutcome s c writer_gone) (read_loop self (get_flags reader) mq 4)
          (subst
            (λ f.
              Returns (Agrees (take_from f 4 b b.messages))
                (read_loop self (get_flags reader) mq 4))
            h.reader_flags (read_loop-refines self mq b (get_flags reader) 4 carries))
          (λ step. ReadOutcome-by (s - c) s c writer_gone step refl more)
