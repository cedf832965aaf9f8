-- ===== src/ProdCon/Produce.antt =====
-- A call of `msg_queue_write` by the producer of prodcon.c.
pub mod Next
pub mod Close
pub mod Turn
use mathlib.Core.Path.{subst}
use uoft_operating_systems.Common.{
  ℕ, zero, suc, ◌+◌, ◌-◌, ◌*◌, ◌%◌, ◌^◌, ◌≤◌, ◌<◌, ◌≡◌, ◌≢◌, refl, sym, ap, ◌∙◌, arith, min, Bool,
  true, false, not, ◌&&◌, Option, none, some, List, [], ◌∷◌, ◌++◌, ltb, leb, le→leb, lt→leb, length,
  ◌==◌, if◌then◌else◌, if-true, if-false, ok, Run, Returns, Returns-bind, Returns-mono,
  Returns-also, ◌>>=◌, Bool-cases, inl, inr,
}
use uoft_operating_systems.MsgQueue.Handle.{
  reader_flag, writer_flag, nonblock_flag, has, get_backend, get_flags,
}
use uoft_operating_systems.MsgQueue.Sync.{Sync, Reply, value, Step, returned, blocked}
use uoft_operating_systems.MsgQueue.Frame.{bytes_of, length-bytes_of}
use uoft_operating_systems.MsgQueue.Backend.{Backend}
use uoft_operating_systems.MsgQueue.Backend.Tracks.{Tracks}
use uoft_operating_systems.MsgQueue.Mailbox.{Mailbox, weight, Verdict, gives, waits, send, resumed}
use uoft_operating_systems.MsgQueue.Carries.{Carries, Agrees}
use uoft_operating_systems.MsgQueue.Send.{msg_queue_write, write_loop}
use uoft_operating_systems.MsgQueue.Send.Refine.{msg_queue_write-refines, write_loop-refines}
use uoft_operating_systems.ProdCon.{
  Producer, announcing, sending, leaving, gone, Consumer, Wait, ready, asleep, woken, World,
  write_turn,
}
use uoft_operating_systems.ProdCon.Plan.{Handles, box, slice, slice-snoc, weight-slice, payload}
use uoft_operating_systems.ProdCon.Kept.Write.{write_turn-kept}
use uoft_operating_systems.ProdCon.Kept.{KeepsWrite}

module _ (capacity count : ℕ) (rand : ℕ → ℕ) (big : 12 < capacity) where
  -- What a write of message `p` comes to with `c` messages taken.
  abbrev pub WriteOutcome : ℕ → ℕ → Step Backend → Type 0
  WriteOutcome p c (returned reply mq calls) =
      (reply.ret ≡ value 0) × Carries mq (box capacity count rand (suc p) c false false)
  WriteOutcome p c (blocked mq calls) =
      (capacity < 12 * (p - c) + 12) × Carries mq (box capacity count rand p c false false)

  abbrev put : ℕ → ℕ → Verdict × Mailbox
  put p c =
      let b = box capacity count rand p c false false in
      if leb (weight b.messages + 12) capacity
      then (
        gives (record { ret = value 0; errno = none; stored = [] }),
        record b { messages = b.messages ++ bytes_of 4 (payload count rand p) ∷ [] },
      )
      else (waits, b)

  put-send :
      (p c : ℕ)
      → send writer_flag
          (bytes_of 4 (payload count rand p))
          (box capacity count rand p c false false)
        ≡ put p c
  unfolding send has
  put-send p c =
      rw (length-bytes_of 4 (payload count rand p))
        (if-false _ _ (leb capacity 12) (lt→leb capacity 12 big))

  put-resumed :
      (p c : ℕ)
      → resumed writer_flag
          (bytes_of 4 (payload count rand p))
          (box capacity count rand p c false false)
        ≡ put p c
  unfolding resumed has
  put-resumed p c = rw (length-bytes_of 4 (payload count rand p)) refl

  WriteOutcome-by :
      (room : Bool) (p c : ℕ) (step : Step Backend)
      → c ≤ p
      → leb (weight (slice count rand c (p - c)) + 12) capacity ≡ room
      → Agrees
          (let b = box capacity count rand p c false false in
            if room
            then (
              gives (record { ret = value 0; errno = none; stored = [] }),
              record b { messages = b.messages ++ bytes_of 4 (payload count rand p) ∷ [] },
            )
            else (waits, b))
          step
      → WriteOutcome p c step
  WriteOutcome-by true p c (returned reply mq calls) le fits (e, carries) = (
    ap (λ (r : Reply). r.ret) e,
    subst
        (λ (l : List (List ℕ)). Carries mq (record {
          capacity = capacity;
          messages = l;
          readers_gone = false;
          writers_gone = false;
        }))
        (ap (λ k. slice count rand c (p - c) ++ bytes_of 4 (payload count rand k) ∷ [])
            (omega (arith, le))
          ∙ sym (slice-snoc count rand c (p - c))
          ∙ ap (slice count rand c) (omega (arith, le)))
        carries,
  )
  WriteOutcome-by true p c (blocked mq calls) le fits a = absurd a
  WriteOutcome-by false p c (returned reply mq calls) le full a = absurd a
  WriteOutcome-by false p c (blocked mq calls) le full carries =
      (ground (arith, full, weight-slice count rand c (p - c)), carries)

  module _ (writer reader address : ℕ) (h : Handles writer reader address) (self : ℕ) where
    -- A call that gets as far as it can.
    pub write_turn-WriteOutcome :
        (wait : Wait) (mq : Backend) (p c : ℕ)
        → c ≤ p
        → (wait ≡ asleep → capacity < 12 * (p - c) + 12)
        → Carries mq (box capacity count rand p c false false)
        → Returns
            (WriteOutcome p c)
            (write_turn self writer wait mq (bytes_of 4 (payload count rand p)))
    unfolding write_turn
    write_turn-WriteOutcome asleep mq p c le slept carries = (slept refl, carries)
    write_turn-WriteOutcome ready mq p c le slept carries =
        let bytes = bytes_of 4 (payload count rand p) in
        let b = box capacity count rand p c false false in
        Returns-mono _ (WriteOutcome p c) (msg_queue_write self writer mq bytes)
          (subst (λ v. Returns (Agrees v) (msg_queue_write self writer mq bytes))
            (ap (λ f. send f bytes b) h.writer_flags ∙ put-send p c)
            (msg_queue_write-refines self mq b bytes carries
              (omega (arith, length-bytes_of 4 (payload count rand p))) writer address
              h.writer_backend))
          (λ step. WriteOutcome-by (leb (weight b.messages + 12) capacity) p c step le refl)
    write_turn-WriteOutcome woken mq p c le slept carries =
        let bytes = bytes_of 4 (payload count rand p) in
        let b = box capacity count rand p c false false in
        Returns-mono _ (WriteOutcome p c) (write_loop self (get_flags writer) mq bytes)
          (subst (λ v. Returns (Agrees v) (write_loop self (get_flags writer) mq bytes))
            (ap (λ f. resumed f bytes b) h.writer_flags ∙ put-resumed p c)
            (write_loop-refines self mq b bytes carries
              (omega (arith, length-bytes_of 4 (payload count rand p))) (get_flags writer)
              (omega (arith, length-bytes_of 4 (payload count rand p)))))
          (λ step. WriteOutcome-by (leb (weight b.messages + 12) capacity) p c step le refl)
