-- ===== src/MsgQueue/Receive/Refine.antt =====
-- `msg_queue_read` refines `Mailbox.receive`.
use uoft_operating_systems.Common.{
  ℕ, ◌≡◌, refl, inl, inr, ◌∷◌, [], Bool-cases, ok, Returns, Returns-bind,
}
use uoft_operating_systems.MsgQueue.Handle.{reader_flag, has, get_backend, get_flags}
use uoft_operating_systems.MsgQueue.Sync.{lock, after}
use uoft_operating_systems.MsgQueue.Backend.{Backend}
use uoft_operating_systems.MsgQueue.Receive.{read_locked, msg_queue_read}
use uoft_operating_systems.MsgQueue.Receive.Loop.{read_locked-refines}
use uoft_operating_systems.MsgQueue.Mailbox.{Mailbox, take_from, receive}
use uoft_operating_systems.MsgQueue.Carries.{Carries, Agrees, after-Agrees}

-- `msg_queue_read`, on a handle to a backend that carries the mailbox `box`, comes to its return or
-- to its `cond_wait` with no failed assertion and no access out of bounds of the queue, answers what
-- `receive` does, whatever the handle's flags and the length asked for, and leaves the mailbox that it
-- leaves. A message longer than the length is stored whole, past the end of the caller's buffer.
pub msg_queue_read-refines :
    (self queue address len : ℕ) (mq : Backend) (box : Mailbox)
    → get_backend queue ≡ ok address
    → Carries mq box
    → Returns (Agrees (receive (get_flags queue) len box)) (msg_queue_read self queue mq len)
unfolding msg_queue_read receive
msg_queue_read-refines self queue address len mq box e c =
    elim (Bool-cases (has (get_flags queue) reader_flag)) [
      | inr no' ↦ rw no' (refl, c)
      | inl yes' ↦
          rw (yes', e)
            (Returns-bind (Agrees (take_from (get_flags queue) len box box.messages)) _
              (read_locked self (get_flags queue) mq len) (after (lock ∷ []))
              (read_locked-refines self mq box (get_flags queue) len c)
              (after-Agrees (take_from (get_flags queue) len box box.messages) (lock ∷ [])))
    ]
