-- ===== src/ProdCon/Kept/Read.antt =====
-- What `msg_queue_read` keeps of a backend, and whom it signals.
use uoft_operating_systems.Common.{
  ℕ, some, stop, uninitialized_read, Bool-cases, inl, inr, refl, Bool, true, false, ◌&&◌, [], ◌∷◌,
  ok, IfReturns, after_any, after_value, if◌then◌else◌, ltb,
}
use uoft_operating_systems.RingBuffer.{ring_buffer_read, ring_buffer_peek}
use uoft_operating_systems.MsgQueue.Handle.{reader_flag, nonblock_flag, has, get_backend, get_flags}
use uoft_operating_systems.MsgQueue.Sync.{
  lock, unlock, wait_space_empty, minus_one, eagain, returned, blocked, after,
}
use uoft_operating_systems.MsgQueue.Backend.{Backend, test_empty, writable_event, nowriters_event}
use uoft_operating_systems.MsgQueue.Frame.{of_bytes}
use uoft_operating_systems.MsgQueue.Receive.{
  read_message, read_eof, read_ready, read_loop, read_locked, msg_queue_read,
}
use uoft_operating_systems.ProdCon.{Wait, ready, asleep, woken, wakes_writer, read_turn}
use uoft_operating_systems.ProdCon.Kept.{
  SameUsers, KeepsRead, same_users, SameUsers-tested, looked_empty, settled_readable, raised,
  with_buffer, after-KeepsRead,
}

module _ (self flags len : ℕ) (mq₀ : Backend) where
  read_message-kept :
      (mq : Backend) → SameUsers mq₀ mq → IfReturns (KeepsRead mq₀) (read_message self mq len)
  unfolding read_message wakes_writer
  read_message-kept mq s =
      after_any _ (ring_buffer_peek self mq.buffer 8) _ (λ (peeked, header, rb₁).
        after_any _ (if peeked then ok (of_bytes header) else stop uninitialized_read) _
          (λ msg_head. after_any _ (ring_buffer_read self rb₁ 8) _ (λ (popped, header', rb₂).
            after_any _ (ring_buffer_read self rb₂ (if popped then of_bytes header' else msg_head))
              _
              (λ (_, body, rb₃).
                let kept =
                  raised writable_event mq₀ _
                    (settled_readable self mq₀ _ (with_buffer mq₀ mq rb₃ s)) in
                elim (Bool-cases (ltb len msg_head)) [
                  | inl e ↦ rw e (kept, λ z. refl)
                  | inr e ↦ rw e (kept, λ z. refl)
                ]))))

  read_eof-kept : (mq : Backend) → SameUsers mq₀ mq → KeepsRead mq₀ (read_eof mq)
  unfolding read_eof
  read_eof-kept mq s = (raised nowriters_event mq₀ mq s, λ z. cc)

  read_ready-kept :
      (mq : Backend) → SameUsers mq₀ mq → IfReturns (KeepsRead mq₀) (read_ready self mq len)
  unfolding read_ready
  read_ready-kept mq s =
      let m = (test_empty self mq).1 in
      let k = looked_empty self mq₀ mq s in
      elim (Bool-cases ((test_empty self mq).0 && m.no_writers)) [
        | inl e ↦ rw e (read_eof-kept m k)
        | inr e ↦ rw e (read_message-kept m k)
      ]

  wanting_body-kept :
      (wanting : Bool) (mq : Backend)
      → SameUsers mq₀ mq
      → IfReturns (KeepsRead mq₀) (
          if wanting
          then (if has flags nonblock_flag
              then ok (
                  returned
                    (record { ret = minus_one; errno = some eagain; stored = [] })
                    mq
                    (unlock ∷ []))
              else ok (blocked mq (wait_space_empty ∷ [])))
          else read_ready self mq len)
  wanting_body-kept false mq s = read_ready-kept mq s
  wanting_body-kept true mq s = elim (Bool-cases (has flags nonblock_flag)) [
    | inl e ↦ rw e (s, λ z. cc)
    | inr e ↦ rw e s
  ]

  read_loop-kept :
      (mq : Backend) → SameUsers mq₀ mq → IfReturns (KeepsRead mq₀) (read_loop self flags mq len)
  unfolding read_loop
  read_loop-kept mq s =
      let tested = if mq.no_writers then (false, mq) else test_empty self mq in
      wanting_body-kept tested.0 tested.1 (
        SameUsers-tested mq₀ mq.no_writers (false, mq) (test_empty self mq) s
          (looked_empty self mq₀ mq s))

  ended_body-kept :
      (ended : Bool) (mq : Backend)
      → SameUsers mq₀ mq
      → IfReturns (KeepsRead mq₀) (if ended then ok (read_eof mq) else read_loop self flags mq len)
  ended_body-kept false mq s = read_loop-kept mq s
  ended_body-kept true mq s = read_eof-kept mq s

  read_locked-kept :
      (mq : Backend) → SameUsers mq₀ mq → IfReturns (KeepsRead mq₀) (read_locked self flags mq len)
  unfolding read_locked
  read_locked-kept mq s =
      let tested = if mq.no_writers then test_empty self mq else (false, mq) in
      ended_body-kept tested.0 tested.1 (
        SameUsers-tested mq₀ mq.no_writers (test_empty self mq) (false, mq)
          (looked_empty self mq₀ mq s) s)

pub read_turn-kept :
    (self queue : ℕ) (wait : Wait) (mq : Backend) (len : ℕ)
    → IfReturns (KeepsRead mq) (read_turn self queue wait mq len)
unfolding read_turn msg_queue_read
read_turn-kept self queue asleep mq len = same_users mq
read_turn-kept self queue woken mq len =
    read_loop-kept self (get_flags queue) len mq mq (same_users mq)
read_turn-kept self queue ready mq len = elim (Bool-cases (has (get_flags queue) reader_flag)) [
  | inr e ↦ rw e (same_users mq, λ z. cc)
  | inl e ↦ rw e (
      after_any _ (get_backend queue) _ (λ _.
        after_value (KeepsRead mq) _ (read_locked self (get_flags queue) mq len) (after (lock ∷ []))
          (read_locked-kept self (get_flags queue) len mq mq (same_users mq)) (after-KeepsRead mq)))
]
