-- ===== src/MsgQueue/Backend.antt =====
-- `mq_backend` of msg_queue.c, and the functions on its counters.
pub mod Tracks
use Prim.Native.Nat.{bit_and, bit_or}
use uoft_operating_systems.Common.{
  ℕ, ◌-◌, ◌^◌, Bool, true, false, not, ◌&&◌, Option, none, some, List, [], ◌∷◌, Run, ok, ◌>>=◌,
  ◌>>◌, assert, leb, ◌==◌, if◌then◌else◌, add_size, sub_size,
}
use uoft_operating_systems.Validator.{Validator, validator_init, validator_destroy}
use uoft_operating_systems.RingBuffer.{
  RingBuffer, ring_buffer_init, ring_buffer_destroy, ring_buffer_used, ring_buffer_free,
}
use uoft_operating_systems.MsgQueue.Handle.{reader_flag, writer_flag, has, make_handle}
use uoft_operating_systems.MsgQueue.Sync.{Sync, notify}

abbrev pub readable_event : ℕ
readable_event = 0x01

abbrev pub writable_event : ℕ
writable_event = 0x02

abbrev pub noreaders_event : ℕ
noreaders_event = 0x04

abbrev pub nowriters_event : ℕ
nowriters_event = 0x08

-- `waiting_node`: its address stands for `is_ready` and `poll_mutex`.
pub record WaitingNode : Type 0 where
  pub address : ℕ
  pub events : ℕ

-- The mutex and the two condition variables show in the `Sync` calls. `waiting` are the nodes on
-- `queue_list_head`, from the head on, and `list_validator` its validator, which every operation of
-- list.h enters and leaves.
pub record Backend : Type 0 where
  pub buffer : RingBuffer
  pub refs : ℕ
  pub readers : ℕ
  pub writers : ℕ
  pub no_readers : Bool
  pub no_writers : Bool
  pub queue_event : ℕ
  pub waiting : List WaitingNode
  pub list_validator : Validator

-- What opening and closing handles does not touch.
abbrev pub contents : Backend → RingBuffer × Validator
contents mq = (mq.buffer, mq.list_validator)

-- `queue_event` is not initialised: `event` is what the block from `malloc` holds there.
unfoldable pub mq_init : ℕ → Option (List ℕ) → ℕ → Run (Option Backend)
mq_init event block capacity = do
  made ← ring_buffer_init block capacity
  ok (elim made [
    | none ↦ none
    | some buffer ↦ some (record {
      buffer = buffer;
      refs = 0;
      readers = 0;
      writers = 0;
      no_readers = false;
      no_writers = false;
      queue_event = event;
      waiting = [];
      list_validator = validator_init;
    })
  ])

unfoldable pub mq_destroy : Backend → Run (Unit {0})
mq_destroy mq = do
  assert (mq.refs == 0)
  assert (mq.readers == 0)
  assert (mq.writers == 0)
  ring_buffer_destroy mq.buffer
  validator_destroy mq.list_validator

unfoldable pub open_reader : ℕ → Backend → Backend
open_reader flags mq =
    if has flags reader_flag
    then record mq { readers = add_size mq.readers 1; no_readers = false }
    else mq

unfoldable pub open_writer : ℕ → Backend → Backend
open_writer flags mq =
    if has flags writer_flag
    then record mq { writers = add_size mq.writers 1; no_writers = false }
    else mq

-- `address` is where the backend lies.
unfoldable pub mq_open : ℕ → Backend → ℕ → Run (ℕ × Backend)
unfolding open_reader open_writer
mq_open address mq flags = do
  let mq' = open_writer flags (open_reader flags (record mq { refs = add_size mq.refs 1 }))
  handle ← make_handle address flags
  ok (handle, mq')

unfoldable pub close_reader : ℕ → Backend → Backend
close_reader flags mq =
    if has flags reader_flag
    then (let left = sub_size mq.readers 1 in
        record mq { readers = left; no_readers = if left == 0 then true else mq.no_readers })
    else mq

unfoldable pub close_writer : ℕ → Backend → Backend
close_writer flags mq =
    if has flags writer_flag
    then (let left = sub_size mq.writers 1 in
        record mq { writers = left; no_writers = if left == 0 then true else mq.no_writers })
    else mq

-- True if this was the last handle.
unfoldable pub mq_close : Backend → ℕ → Run (Bool × Backend)
mq_close mq flags = do
  assert (not (mq.refs == 0))
  assert (leb mq.readers mq.refs)
  assert (leb mq.writers mq.refs)
  let mq₁ = close_writer flags (close_reader flags mq)
  let mq₂ = record mq₁ { refs = sub_size mq₁.refs 1 }
  if mq₂.refs == 0
      then (do assert (mq₂.readers == 0); assert (mq₂.writers == 0); ok (true, mq₂))
      else ok (false, mq₂)

-- `mq->queue_event = mq->queue_event | mask`, and `& ~mask` with the complement given.
unfoldable pub raise : ℕ → Backend → Backend
raise mask mq = record mq { queue_event = bit_or mq.queue_event mask }

unfoldable pub lower : ℕ → Backend → Backend
lower complement mq = record mq { queue_event = bit_and mq.queue_event complement }

-- `ring_buffer_used(&mq->buffer) == 0`, and `ring_buffer_free(&mq->buffer) == 0`.
unfoldable pub test_empty : ℕ → Backend → Bool × Backend
test_empty self mq =
    let (n, buffer) = ring_buffer_used self mq.buffer in (n == 0, record mq { buffer = buffer })

unfoldable pub test_full : ℕ → Backend → Bool × Backend
test_full self mq =
    let (n, buffer) = ring_buffer_free self mq.buffer in (n == 0, record mq { buffer = buffer })

-- The nodes that `helper_wakeup` signals: a requested event is on.
unfoldable pub wakeups : ℕ → List WaitingNode → List Sync
wakeups event [] = []
wakeups event (node ∷ nodes) =
    if has node.events event then notify node.address ∷ wakeups event nodes else wakeups event nodes

unfoldable pub helper_wakeup : Backend → List Sync
unfolding wakeups
helper_wakeup mq = wakeups mq.queue_event mq.waiting
