-- ===== src/MsgQueue/Lifecycle.antt =====
-- `msg_queue_create`, `msg_queue_open` and `msg_queue_close` of msg_queue.c.
pub mod Create
pub mod Close
use uoft_operating_systems.Common.{
  ℕ, ◌+◌, Bool, true, false, not, Option, none, some, List, [], ◌∷◌, ◌++◌, Run, ok, ◌>>=◌, ◌>>◌,
  assert, ltb, ◌==◌, if◌then◌else◌,
}
use Prim.Native.Nat.{bit_and}
use uoft_operating_systems.MsgQueue.Handle.{
  all_flags, null_handle, get_backend, get_flags, invalid_flags,
}
use uoft_operating_systems.MsgQueue.Sync.{
  Sync, lock, unlock, broadcast_space_full, broadcast_space_empty, Errno, einval, ebadf, enomem,
}
use uoft_operating_systems.MsgQueue.Backend.{
  Backend, mq_init, mq_destroy, mq_open, mq_close, raise, writable_event, readable_event,
  noreaders_event, nowriters_event,
}

-- sizeof(size_t)
abbrev pub header_size : ℕ
header_size = 8

-- A handle (0 on failure), the backend behind it, and `errno`.
abbrev pub Opened : Type 0
Opened = ℕ × Option Backend × Option Errno

-- `backend` is what `malloc` returns for the backend: its address and the bits that it holds where
-- `queue_event` comes to lie. `block` is what it then returns for the ring buffer.
unfoldable pub msg_queue_create : Option (ℕ × ℕ) → Option (List ℕ) → ℕ → ℕ → Run Opened
msg_queue_create backend block capacity flags =
    if not (invalid_flags flags == 0)
    then ok (null_handle, none, some einval)
    else if ltb capacity (header_size + 1)
    then ok (null_handle, none, some einval)
    else elim backend [
      | none ↦ ok (null_handle, none, some enomem)
      | some (address, event) ↦ (do
        assert (bit_and address all_flags == 0)
        made ← mq_init event block capacity
        elim made [
          | none ↦ ok (null_handle, none, some enomem)
          | some mq ↦ (do (handle, mq') ← mq_open address mq flags; ok (handle, some mq', none))
        ])
    ]

-- `mq` is the backend that the handle points to.
unfoldable pub msg_queue_open : ℕ → Backend → ℕ → Run (ℕ × Backend × Option Errno × List Sync)
msg_queue_open queue mq flags =
    if queue == 0
    then ok (null_handle, mq, some ebadf, [])
    else if not (invalid_flags flags == 0)
    then ok (null_handle, mq, some einval, [])
    else (do
      address ← get_backend queue
      (handle, mq') ← mq_open address mq flags
      ok (handle, mq', none, lock ∷ unlock ∷ []))

-- The last two parts of the body: a side without handles is made known.
unfoldable pub mark_no_readers : Backend → Backend × List Sync
mark_no_readers mq =
    if mq.no_readers
    then (raise noreaders_event (raise writable_event mq), broadcast_space_full ∷ [])
    else (mq, [])

unfoldable pub mark_no_writers : Backend → Backend × List Sync
mark_no_writers mq =
    if mq.no_writers
    then (raise nowriters_event (raise readable_event mq), broadcast_space_empty ∷ [])
    else (mq, [])

-- The caller's handle afterwards, the backend (`none` once it is destroyed and freed), `errno` when
-- the return value is -1.
pub record Closed : Type 0 where
  pub handle : ℕ
  pub backend : Option Backend
  pub errno : Option Errno
  pub calls : List Sync

unfoldable pub msg_queue_close : ℕ → Backend → Run Closed
unfolding mark_no_readers mark_no_writers
msg_queue_close queue mq =
    if queue == 0
    then ok (record { handle = queue; backend = some mq; errno = some ebadf; calls = [] })
    else (do
      _ ← get_backend queue
      (last, mq₁) ← mq_close mq (get_flags queue)
      if last
          then (do
            mq_destroy mq₁
            ok (record {
              handle = null_handle;
              backend = none;
              errno = none;
              calls = lock ∷ unlock ∷ [];
            }))
          else (do
            let (mq₂, readers_gone) = mark_no_readers mq₁
            let (mq₃, writers_gone) = mark_no_writers mq₂
            ok (record {
              handle = null_handle;
              backend = some mq₃;
              errno = none;
              calls = lock ∷ (readers_gone ++ (writers_gone ++ unlock ∷ []));
            })))
