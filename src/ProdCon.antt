-- ===== src/ProdCon.antt =====
-- prodcon.c of a2_message_queue: a thread that sends numbers through a queue and one that adds them.
-- A turn of a thread is one call on the queue with what follows it up to the next. A thread in
-- `cond_wait` sleeps until the other signals its condition variable.
mod Tests
pub mod Steps
pub mod Plan
pub mod Kept
pub mod Produce
pub mod Consume
pub mod Rounds
pub mod Short
use uoft_operating_systems.Common.{
  ℕ, ◌+◌, ◌-◌, ◌%◌, ◌^◌, Bool, true, false, not, ◌&&◌, ◌||◌, Option, none, some, List, [], ◌∷◌, Run,
  ok, stop, out_of_bounds, uninitialized_read, null_dereference, int_overflow, ◌>>=◌, ◌>>◌, assert,
  ltb, ◌==◌, if◌then◌else◌, length,
}
use uoft_operating_systems.MsgQueue.Handle.{reader_flag, writer_flag, get_flags}
use uoft_operating_systems.MsgQueue.Sync.{
  Sync, lock, unlock, signal_space_full, signal_space_empty, broadcast_space_full,
  broadcast_space_empty, wait_space_full, wait_space_empty, notify, Errno, einval, ebadf, eagain,
  epipe, emsgsize, enomem, Return, value, minus_one, Reply, Step, returned, blocked,
}
use uoft_operating_systems.MsgQueue.Backend.{Backend}
use uoft_operating_systems.MsgQueue.Frame.{bytes_of, of_bytes}
use uoft_operating_systems.MsgQueue.Lifecycle.{
  Closed, msg_queue_create, msg_queue_open, msg_queue_close,
}
use uoft_operating_systems.MsgQueue.Send.{msg_queue_write, write_loop}
use uoft_operating_systems.MsgQueue.Receive.{msg_queue_read, read_loop}

pub data Side : Type 0 where
  producing consuming : Side

-- A turn of a thread, and a wakeup of one without a signal.
pub data Event : Type 0 where
  acting rousing : Side → Event

-- About to make its call, in its `cond_wait`, or signalled there.
pub data Wait : Type 0 where
  ready asleep woken : Wait

-- Where `producer` stands: before its first write, before the write of its `i`th number with its
-- sum so far, before its close, and behind it with `context->sum`.
pub data Producer : Type 0 where
  announcing : Producer
  sending : ℕ → ℕ → ℕ → Producer
  leaving gone : ℕ → Producer

-- Where `main` stands: before its first read, before the read of its `i`th number of `count` with its sum
-- so far, before its close, at the join, and at its return of 0 or of 1.
pub data Consumer : Type 0 where
  awaiting : Consumer
  receiving : ℕ → ℕ → ℕ → Consumer
  departing joining finished : ℕ → Consumer
  failed : Consumer

-- `queue` is the backend until it is freed, `writer` and `reader` are the handles of the two threads.
pub record World : Type 0 where
  pub queue : Option Backend
  pub writer : ℕ
  pub producer : Producer
  pub producer_wait : Wait
  pub reader : ℕ
  pub consumer : Consumer
  pub consumer_wait : Wait

-- Whether calls signal `space_full`, on which a writer sleeps, and `space_empty`, on which a reader does.
unfoldable pub wakes_writer : List Sync → Bool
wakes_writer [] = false
wakes_writer (signal_space_full ∷ calls) = true
wakes_writer (broadcast_space_full ∷ calls) = true
wakes_writer (_ ∷ calls) = wakes_writer calls

unfoldable pub wakes_reader : List Sync → Bool
wakes_reader [] = false
wakes_reader (signal_space_empty ∷ calls) = true
wakes_reader (broadcast_space_empty ∷ calls) = true
wakes_reader (_ ∷ calls) = wakes_reader calls

abbrev pub woken_if : Bool → Wait → Wait
woken_if true asleep = woken
woken_if _ wait = wait

-- The backend behind a handle.
abbrev pub live : Option Backend → Run Backend
live (some mq) = ok mq
live none = stop null_dereference

-- Addition of ints, and an int variable from the bytes that a read stored in it.
unfoldable pub add_int : ℕ → ℕ → Run ℕ
add_int a b =
    let c = (a + b) % 2 ^ 32 in
    if (ltb a (2 ^ 31) && (ltb b (2 ^ 31) && not (ltb c (2 ^ 31))))
      || (not (ltb a (2 ^ 31)) && (not (ltb b (2 ^ 31)) && ltb c (2 ^ 31)))
    then stop int_overflow
    else ok c

unfoldable pub int_of : List ℕ → Run ℕ
int_of stored =
    if ltb 4 (length stored)
    then stop out_of_bounds
    else if length stored == 4
    then ok (of_bytes stored)
    else stop uninitialized_read

-- `i < count` for an `i` that is not negative.
unfoldable pub lt_int : ℕ → ℕ → Bool
lt_int i count = ltb i count && ltb count (2 ^ 31)

abbrev pub is_zero : Return → Bool
is_zero (value n) = n == 0
is_zero minus_one = false

abbrev pub is_four : Return → Bool
is_four (value n) = n == 4
is_four minus_one = false

abbrev pub is_epipe : Option Errno → Bool
is_epipe (some epipe) = true
is_epipe _ = false

abbrev pub succeeded : Option Errno → Bool
succeeded none = true
succeeded (some e) = false

-- A call of the queue that may be in its `cond_wait`: it goes on from there once it is woken.
unfoldable pub write_turn : ℕ → ℕ → Wait → Backend → List ℕ → Run (Step Backend)
write_turn self queue ready mq bytes = msg_queue_write self queue mq bytes
write_turn self queue asleep mq bytes = ok (blocked mq [])
write_turn self queue woken mq bytes = write_loop self (get_flags queue) mq bytes

unfoldable pub read_turn : ℕ → ℕ → Wait → Backend → ℕ → Run (Step Backend)
read_turn self queue ready mq len = msg_queue_read self queue mq len
read_turn self queue asleep mq len = ok (blocked mq [])
read_turn self queue woken mq len = read_loop self (get_flags queue) mq len
