-- ===== src/ProdCon/Kept/Write.antt =====
-- What `msg_queue_write` keeps of a backend, and whom it signals.
use uoft_operating_systems.Common.{
  ℕ, Bool-cases, inl, inr, refl, List, [], ◌∷◌, ok, IfReturns, after_any, after_value,
  if◌then◌else◌, length, ltb, leb, ◌==◌, add_size,
}
use uoft_operating_systems.RingBuffer.{ring_buffer_write, ring_buffer_free}
use uoft_operating_systems.MsgQueue.Handle.{writer_flag, nonblock_flag, has, get_backend, get_flags}
use uoft_operating_systems.MsgQueue.Sync.{lock, unlock, epipe, emsgsize, returned, after}
use uoft_operating_systems.MsgQueue.Backend.{Backend, readable_event}
use uoft_operating_systems.MsgQueue.Frame.{bytes_of}
use uoft_operating_systems.MsgQueue.Send.{
  failed, write_message, write_loop, write_locked, msg_queue_write,
}
use uoft_operating_systems.ProdCon.{Wait, ready, asleep, woken, wakes_reader, write_turn}
use uoft_operating_systems.ProdCon.Kept.{
  SameUsers, KeepsWrite, same_users, settled_writable, raised, IfReturns-either, with_buffer,
  after-KeepsWrite,
}

module _ (self flags : ℕ) (bytes : List ℕ) (mq₀ : Backend) where
  write_message-kept :
      (mq : Backend)
      → SameUsers mq₀ mq
      → IfReturns (KeepsWrite mq₀) (write_message self flags mq bytes)
  unfolding write_message wakes_reader
  write_message-kept mq s =
      after_any _ (ring_buffer_write self mq.buffer (bytes_of 8 (length bytes))) _ (λ (_, rb₁).
        after_any _ (ring_buffer_write self rb₁ bytes) _ (λ (_, rb₂).
          elim (Bool-cases (has flags nonblock_flag)) [
            | inl e ↦ rw e (with_buffer mq₀ mq rb₂ s, λ z. cc)
            | inr e ↦ rw e (
              raised readable_event mq₀ _ (settled_writable self mq₀ _ (with_buffer mq₀ mq rb₂ s)),
              λ z. refl,
            )
          ]))

  write_loop-kept :
      (mq : Backend)
      → SameUsers mq₀ mq
      → IfReturns (KeepsWrite mq₀) (write_loop self flags mq bytes)
  unfolding write_loop
  write_loop-kept mq s =
      let (room, rb) = ring_buffer_free self mq.buffer in
      elim (Bool-cases (ltb room (add_size (length bytes) 8))) [
        | inl e ↦ rw e (with_buffer mq₀ mq rb s)
        | inr e ↦ rw e (write_message-kept (record mq { buffer = rb }) (with_buffer mq₀ mq rb s))
      ]

  write_locked-kept :
      (mq : Backend)
      → SameUsers mq₀ mq
      → IfReturns (KeepsWrite mq₀) (write_locked self flags mq bytes)
  unfolding write_locked
  write_locked-kept mq s =
      IfReturns-either (KeepsWrite mq₀) mq.no_readers
        (ok (returned (failed epipe) mq (unlock ∷ [])))
        (if leb mq.buffer.size (add_size (length bytes) 8)
          then ok (returned (failed emsgsize) mq (unlock ∷ []))
          else write_loop self flags mq bytes)
        (s, λ z. cc)
        (IfReturns-either (KeepsWrite mq₀) (leb mq.buffer.size (add_size (length bytes) 8))
          (ok (returned (failed emsgsize) mq (unlock ∷ []))) (write_loop self flags mq bytes)
          (s, λ z. cc) (write_loop-kept mq s))

pub write_turn-kept :
    (self queue : ℕ) (wait : Wait) (mq : Backend) (bytes : List ℕ)
    → IfReturns (KeepsWrite mq) (write_turn self queue wait mq bytes)
unfolding write_turn msg_queue_write
write_turn-kept self queue asleep mq bytes = same_users mq
write_turn-kept self queue woken mq bytes =
    write_loop-kept self (get_flags queue) bytes mq mq (same_users mq)
write_turn-kept self queue ready mq bytes = elim (Bool-cases (has (get_flags queue) writer_flag)) [
  | inr e ↦ rw e (same_users mq, λ z. cc)
  | inl e ↦ rw e (elim (Bool-cases (length bytes == 0)) [
    | inl none' ↦ rw none' (same_users mq, λ z. cc)
    | inr some' ↦ rw some' (
        after_any _ (get_backend queue) _ (λ _.
          after_value (KeepsWrite mq) _ (write_locked self (get_flags queue) mq bytes)
            (after (lock ∷ []))
            (write_locked-kept self (get_flags queue) bytes mq mq (same_users mq))
            (after-KeepsWrite mq)))
  ])
]
