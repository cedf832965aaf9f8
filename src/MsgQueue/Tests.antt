-- ===== src/MsgQueue/Tests.antt =====
-- Runs of msg_queue.c on a queue of twenty bytes with one message of two.
use uoft_operating_systems.Common.{
  ℕ, ◌*◌, ◌≡◌, refl, true, false, ◌||◌, none, some, List, [], ◌∷◌, ◌++◌, ok, arith, Returns,
}
use uoft_operating_systems.RingBuffer.{RingBuffer}
use uoft_operating_systems.RingBuffer.Holds.{straight}
use uoft_operating_systems.MsgQueue.Handle.{
  reader_flag, writer_flag, has, null_handle, make_handle, get_backend, get_flags, invalid_flags,
}
use uoft_operating_systems.MsgQueue.Handle.Laws.{make_handle-round_trip}
use uoft_operating_systems.MsgQueue.Sync.{enomem}
use uoft_operating_systems.MsgQueue.Backend.{Backend, mq_open}
use uoft_operating_systems.MsgQueue.Backend.Tracks.{holders, Tracks, mq_open-Tracks}
use uoft_operating_systems.MsgQueue.Lifecycle.{msg_queue_create, msg_queue_close}
use uoft_operating_systems.MsgQueue.Lifecycle.Create.{
  Created, no_buffer, msg_queue_create-Created, msg_queue_create-refusals,
}
use uoft_operating_systems.MsgQueue.Lifecycle.Close.{Outcome, msg_queue_close-Closes}
use uoft_operating_systems.MsgQueue.Frame.{bytes_of, frame, frames}
use uoft_operating_systems.MsgQueue.Mailbox.{Mailbox, receive, take_from, send, resumed}
use uoft_operating_systems.MsgQueue.Carries.{Carries, Agrees}
use uoft_operating_systems.MsgQueue.Receive.{read_loop, msg_queue_read}
use uoft_operating_systems.MsgQueue.Receive.Loop.{read_loop-refines}
use uoft_operating_systems.MsgQueue.Receive.Refine.{msg_queue_read-refines}
use uoft_operating_systems.MsgQueue.Send.{write_loop, msg_queue_write}
use uoft_operating_systems.MsgQueue.Send.Refine.{msg_queue_write-refines, write_loop-refines}
use uoft_operating_systems.MsgQueue.Fifo.{
  Turn, reads, writes, resumes_read, resumes_write, AllSound, AllFit, run, all_put, all_taken,
}
use uoft_operating_systems.MsgQueue.FifoLaws.{run-fifo}

abbrev ring : RingBuffer
ring = record {
  buffer =
      2 ∷ 0 ∷ 0 ∷ 0 ∷ 0 ∷ 0 ∷ 0 ∷ 0 ∷ 5 ∷ 6 ∷ 0xDD ∷ 0xDD ∷ 0xDD ∷ 0xDD ∷ 0xDD ∷ 0xDD ∷ 0xDD ∷ 0xDD
      ∷ 0xDD ∷ 0xDD ∷ [];
  size = 20;
  head = 0;
  tail = 10;
  full = false;
  validator = record { owner = 0; reports = 0 };
}

-- A reader and a writer are open.
abbrev queue : Backend
queue = record {
  buffer = ring;
  refs = 2;
  readers = 1;
  writers = 1;
  no_readers = false;
  no_writers = false;
  queue_event = 3;
  waiting = [];
  list_validator = record { owner = 0; reports = 0 };
}

abbrev box : Mailbox
box = record {
  capacity = 20;
  messages = (5 ∷ 6 ∷ []) ∷ [];
  readers_gone = false;
  writers_gone = false;
}

-- The handles: the backend at address 24, for a reader and for a writer.
abbrev reader : ℕ
reader = 25

abbrev writer : ℕ
writer = 26

queue-Carries : Carries queue box
unfolding frames frame bytes_of
queue-Carries = record {
  bytes = record {
    shape = straight 0 10 (record {
      bytes = refl;
      size = refl;
      room = omega arith;
      head = refl;
      tail = refl;
      full = refl;
    });
    small = omega arith;
    idle = refl;
  };
  filled = (omega arith, tt);
  list_idle = refl;
  capacity = refl;
  readers_gone = refl;
  writers_gone = refl;
}

queue-Tracks : Tracks queue (1 ∷ 2 ∷ []) true true
unfolding holders has
queue-Tracks = record {
  refs = refl;
  readers = refl;
  writers = refl;
  no_readers = refl;
  no_writers = refl;
  seen_readers = λ h. refl;
  seen_writers = λ h. refl;
}

reader_backend : get_backend reader ≡ ok 24
unfolding get_backend
reader_backend = refl

writer_backend : get_backend writer ≡ ok 24
unfolding get_backend
writer_backend = refl

-- A write that has to wait, a read, the write again, and a read that waits.
abbrev turns : List Turn
turns =
    writes 2 writer (1 ∷ 2 ∷ 3 ∷ [])
    ∷ reads 1 reader 10
    ∷ resumes_write 2 2 (1 ∷ 2 ∷ 3 ∷ [])
    ∷ reads 1 reader 10
    ∷ reads 1 reader 10
    ∷ resumes_read 1 1 10
    ∷ []

turns-AllSound : AllSound 10 turns
turns-AllSound = (
  (24, writer_backend, omega arith),
  (
    (24, reader_backend, omega arith),
    (
      (omega arith, omega arith),
      ((24, reader_backend, omega arith), ((24, reader_backend, omega arith), (omega arith, tt))),
    ),
  ),
)

run-fifo_example :
    Returns
      (λ (steps, mq').
        (box' : Mailbox) × Carries mq' box'
        × AllFit turns steps
        × (box.messages ++ all_put turns steps ≡ all_taken turns steps ++ box'.messages))
      (run queue turns)
run-fifo_example =
    run-fifo 10 turns queue box (omega arith) queue-Carries (omega arith, tt) turns-AllSound

-- Three bytes are asked for and two are there.
msg_queue_read-refines_example :
    Returns (Agrees (receive (get_flags reader) 3 box)) (msg_queue_read 1 reader queue 3)
msg_queue_read-refines_example =
    msg_queue_read-refines 1 reader 24 3 queue box reader_backend queue-Carries

read_loop-refines_example :
    Returns (Agrees (take_from 1 3 box box.messages)) (read_loop 1 1 queue 3)
read_loop-refines_example = read_loop-refines 1 queue box 1 3 queue-Carries

msg_queue_write-refines_example :
    Returns
      (Agrees (send (get_flags writer) (9 ∷ []) box))
      (msg_queue_write 2 writer queue (9 ∷ []))
msg_queue_write-refines_example =
    msg_queue_write-refines 2 queue box (9 ∷ []) queue-Carries (omega arith) writer 24
      writer_backend

write_loop-refines_example :
    Returns (Agrees (resumed 2 (9 ∷ []) box)) (write_loop 2 2 queue (9 ∷ []))
write_loop-refines_example =
    write_loop-refines 2 queue box (9 ∷ []) queue-Carries (omega arith) 2 (omega arith)

abbrev block : List ℕ
block = 1 ∷ 2 ∷ 3 ∷ 4 ∷ 5 ∷ 6 ∷ 7 ∷ 8 ∷ 9 ∷ 10 ∷ []

msg_queue_create-Created_example :
    Returns (Created (3 * 8) 10 3) (msg_queue_create (some (3 * 8, 99)) (some block) 10 3)
msg_queue_create-Created_example =
    msg_queue_create-Created 3 99 10 3 block (omega arith) (omega arith) (omega arith) (omega arith)
      (omega arith) refl

both_flags : make_handle 24 3 ≡ ok 27
unfolding make_handle invalid_flags
both_flags = refl

-- `malloc` fails for the buffer.
msg_queue_create-refusals_example :
    msg_queue_create (some (3 * 8, 99)) none 10 3 ≡ ok (null_handle, none, some enomem)
msg_queue_create-refusals_example =
    msg_queue_create-refusals (some (3 * 8, 99)) none 10 3 enomem (omega arith)
      (no_buffer 3 99 (omega arith) (omega arith) refl refl)

mq_open-Tracks_example :
    Returns
      (λ (result, mq').
        (result ≡ 27)
        × Tracks mq' (3 ∷ 1 ∷ 2 ∷ []) (true || has 3 reader_flag) (true || has 3 writer_flag))
      (mq_open 24 queue 3)
mq_open-Tracks_example =
    mq_open-Tracks 24 3 27 queue (1 ∷ 2 ∷ []) true true both_flags (omega arith) queue-Tracks

make_handle-round_trip_example :
    (handle : ℕ) × (make_handle (3 * 8) 5 ≡ ok handle)
    × (get_backend handle ≡ ok (3 * 8))
    × (get_flags handle ≡ 5)
make_handle-round_trip_example =
    make_handle-round_trip 3 5 (omega arith) (omega arith) (omega arith)

msg_queue_close-Closes_example :
    Returns
      (λ result.
        (result.handle ≡ null_handle)
        × (result.errno ≡ none)
        × Outcome box (1 ∷ []) true true result)
      (msg_queue_close writer queue)
unfolding get_flags
msg_queue_close-Closes_example =
    msg_queue_close-Closes writer 24 queue box (1 ∷ []) [] true true (omega arith) writer_backend
      (omega arith) queue-Tracks queue-Carries
