-- ===== src/MsgQueue/Send.antt =====
-- `msg_queue_write` of msg_queue.c, up to its return or to its `cond_wait`.
pub mod Refine
use uoft_operating_systems.Common.{
  ℕ, ◌-◌, ◌^◌, Bool, not, ◌&&◌, none, some, List, [], ◌∷◌, ◌++◌, Run, ok, ◌>>=◌, ◌>>◌, ltb, leb,
  ◌==◌, if◌then◌else◌, add_size, length,
}
use uoft_operating_systems.RingBuffer.{ring_buffer_write, ring_buffer_free}
use uoft_operating_systems.MsgQueue.Handle.{writer_flag, nonblock_flag, has, get_backend, get_flags}
use uoft_operating_systems.MsgQueue.Sync.{
  lock, unlock, signal_space_empty, wait_space_full, Errno, ebadf, eagain, epipe, emsgsize, einval,
  value, minus_one, Reply, Step, returned, blocked, after,
}
use uoft_operating_systems.MsgQueue.Backend.{
  Backend, raise, lower, test_full, helper_wakeup, readable_event,
}
use uoft_operating_systems.MsgQueue.Frame.{bytes_of}

abbrev pub failed : Errno → Reply
failed e = record { ret = minus_one; errno = some e; stored = [] }

-- `mq->queue_event & ~MQPOLL_WRITABLE`, where no byte is free and there are or may be readers.
unfoldable pub settle_writable : ℕ → Backend → Backend
settle_writable self mq =
    let (no_room, mq') = test_full self mq in
    if no_room && not mq'.no_readers then lower (2 ^ 32 - 3) mq' else mq'

-- What follows the loop. Neither result of `ring_buffer_write` is looked at.
unfoldable pub write_message : ℕ → ℕ → Backend → List ℕ → Run (Step Backend)
unfolding settle_writable
write_message self flags mq bytes = do
  (_, rb₁) ← ring_buffer_write self mq.buffer (bytes_of 8 (length bytes))
  (_, rb₂) ← ring_buffer_write self rb₁ bytes
  let mq₁ = record mq { buffer = rb₂ }
  let mq₂ = raise readable_event (settle_writable self mq₁)
  if has flags nonblock_flag
      then ok (returned (failed eagain) mq₁ (signal_space_empty ∷ unlock ∷ []))
      else ok (
          returned (record { ret = value 0; errno = none; stored = [] }) mq₂
            (signal_space_empty ∷ (helper_wakeup mq₂ ++ unlock ∷ [])))

-- From the test of the loop on: the way in, and the way on after each wakeup.
unfoldable pub write_loop : ℕ → ℕ → Backend → List ℕ → Run (Step Backend)
unfolding write_message
write_loop self flags mq bytes =
    let (room, rb) = ring_buffer_free self mq.buffer in
    let mq' = record mq { buffer = rb } in
    if ltb room (add_size (length bytes) 8)
    then ok (blocked mq' (wait_space_full ∷ []))
    else write_message self flags mq' bytes

unfoldable pub write_locked : ℕ → ℕ → Backend → List ℕ → Run (Step Backend)
unfolding write_loop
write_locked self flags mq bytes =
    if mq.no_readers
    then ok (returned (failed epipe) mq (unlock ∷ []))
    else if leb mq.buffer.size (add_size (length bytes) 8)
    then ok (returned (failed emsgsize) mq (unlock ∷ []))
    else write_loop self flags mq bytes

-- `bytes` is the caller's buffer, `length` bytes long.
unfoldable pub msg_queue_write : ℕ → ℕ → Backend → List ℕ → Run (Step Backend)
unfolding write_locked
msg_queue_write self queue mq bytes =
    if not (has (get_flags queue) writer_flag)
    then ok (returned (failed ebadf) mq [])
    else if length bytes == 0
    then ok (returned (failed einval) mq [])
    else (do
      _ ← get_backend queue
      step ← write_locked self (get_flags queue) mq bytes
      after (lock ∷ []) step)
