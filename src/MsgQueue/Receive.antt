-- ===== src/MsgQueue/Receive.antt =====
-- `msg_queue_read` of msg_queue.c, up to its return or to its `cond_wait`.
pub mod Front
pub mod Loop
pub mod Refine
use uoft_operating_systems.Common.{
  ℕ, ◌-◌, ◌^◌, Bool, true, false, not, ◌&&◌, Option, none, some, List, [], ◌∷◌, ◌++◌, Run, ok, stop,
  uninitialized_read, ◌>>=◌, ◌>>◌, ltb, if◌then◌else◌,
}
use uoft_operating_systems.RingBuffer.{ring_buffer_read, ring_buffer_peek}
use uoft_operating_systems.MsgQueue.Handle.{reader_flag, nonblock_flag, has, get_backend, get_flags}
use uoft_operating_systems.MsgQueue.Sync.{
  Sync, lock, unlock, signal_space_full, wait_space_empty, ebadf, eagain, emsgsize, value,
  minus_one, Step, returned, blocked, after,
}
use uoft_operating_systems.MsgQueue.Backend.{
  Backend, raise, lower, test_empty, helper_wakeup, writable_event, nowriters_event,
}
use uoft_operating_systems.MsgQueue.Frame.{of_bytes}

-- `mq->queue_event & ~MQPOLL_READABLE`, where the queue is empty and has or may get writers.
unfoldable pub settle_readable : ℕ → Backend → Backend
settle_readable self mq =
    let (empty, mq') = test_empty self mq in
    if empty && not mq'.no_writers then lower (2 ^ 32 - 2) mq' else mq'

-- From the peek at the header on. `msg_head` is a local variable without an initial value.
-- `stored` goes to the caller's buffer, of `len` bytes, with no regard for its end: if it is longer,
-- the program writes past this buffer, and has unlocked the mutex before (the first `unlock` of
-- the calls), so that other threads may come in between. That this does not happen is what `Fits`
-- of `MsgQueue.Fifo` says.
unfoldable pub read_message : ℕ → Backend → ℕ → Run (Step Backend)
unfolding settle_readable
read_message self mq len = do
  (peeked, header, rb₁) ← ring_buffer_peek self mq.buffer 8
  msg_head ← if peeked then ok (of_bytes header) else stop uninitialized_read
  let short = ltb len msg_head
  (popped, header', rb₂) ← ring_buffer_read self rb₁ 8
  let msg_head' = if popped then of_bytes header' else msg_head
  (_, body, rb₃) ← ring_buffer_read self rb₂ msg_head'
  let mq₁ = raise writable_event (settle_readable self (record mq { buffer = rb₃ }))
  ok (
      returned
        (record {
          ret = value msg_head';
          errno = if short then some emsgsize else none;
          stored = body;
        })
        mq₁
        ((if short then unlock ∷ [] else [])
          ++ (signal_space_full ∷ (helper_wakeup mq₁ ++ unlock ∷ []))))

-- The end of file.
unfoldable pub read_eof : Backend → Step Backend
read_eof mq =
    let mq' = raise nowriters_event mq in
    returned (record { ret = value 0; errno = none; stored = [] }) mq'
      (helper_wakeup mq' ++ unlock ∷ [])

-- What follows the loop.
unfoldable pub read_ready : ℕ → Backend → ℕ → Run (Step Backend)
unfolding read_eof read_message
read_ready self mq len =
    let (empty, mq') = test_empty self mq in
    if empty && mq'.no_writers then ok (read_eof mq') else read_message self mq' len

-- From the test of the loop on: the way in, and the way on after each wakeup.
unfoldable pub read_loop : ℕ → ℕ → Backend → ℕ → Run (Step Backend)
unfolding read_ready
read_loop self flags mq len =
    let (wanting, mq') = if mq.no_writers then (false, mq) else test_empty self mq in
    if wanting
    then (if has flags nonblock_flag
        then ok (
            returned (record { ret = minus_one; errno = some eagain; stored = [] }) mq'
              (unlock ∷ []))
        else ok (blocked mq' (wait_space_empty ∷ [])))
    else read_ready self mq' len

-- The test before the loop.
unfoldable pub read_locked : ℕ → ℕ → Backend → ℕ → Run (Step Backend)
unfolding read_eof read_loop
read_locked self flags mq len =
    let (ended, mq') = if mq.no_writers then test_empty self mq else (false, mq) in
    if ended then ok (read_eof mq') else read_loop self flags mq' len

unfoldable pub msg_queue_read : ℕ → ℕ → Backend → ℕ → Run (Step Backend)
unfolding read_locked
msg_queue_read self queue mq len =
    if not (has (get_flags queue) reader_flag)
    then ok (returned (record { ret = minus_one; errno = some ebadf; stored = [] }) mq [])
    else (do
      _ ← get_backend queue
      step ← read_locked self (get_flags queue) mq len
      after (lock ∷ []) step)
