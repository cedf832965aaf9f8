-- ===== src/ProdCon/Steps.antt =====
-- The two threads of prodcon.c, and `main` as a whole.
use uoft_operating_systems.Common.{
  ℕ, ◌+◌, ◌%◌, true, not, ◌&&◌, Option, none, some, List, [], ◌∷◌, Run, ok, ◌>>=◌, ◌>>◌, assert,
  ◌==◌, if◌then◌else◌,
}
use uoft_operating_systems.MsgQueue.Handle.{reader_flag, writer_flag}
use uoft_operating_systems.MsgQueue.Sync.{value, minus_one, Reply, Step, returned, blocked}
use uoft_operating_systems.MsgQueue.Backend.{Backend}
use uoft_operating_systems.MsgQueue.Frame.{bytes_of}
use uoft_operating_systems.MsgQueue.Lifecycle.{msg_queue_create, msg_queue_open, msg_queue_close}
use uoft_operating_systems.ProdCon.{
  Side, Event, Producer, Consumer, World, wakes_writer, wakes_reader, woken_if, live, add_int,
  int_of, lt_int, is_zero, is_four, is_epipe, succeeded, write_turn, read_turn, producing,
  consuming, acting, rousing, ready, asleep, announcing, sending, leaving, gone, awaiting,
  receiving, departing, joining, finished, failed,
}

-- `self` are the identities of the threads, `count` is `numberCount`, and `rand i` is what the `i`th
-- call of `rand` gives.
module _ (self : Side → ℕ) (count : ℕ) (rand : ℕ → ℕ) where
  -- The head of the loop of `producer`.
  unfoldable pub send_next : ℕ → ℕ → Producer
  unfolding lt_int
  send_next i sum = if lt_int i count then sending i sum (rand i % 64) else leaving sum

  -- After a write: `next` is where the thread stands if it has returned.
  unfoldable pub written : World → (Reply → Run Producer) → Step Backend → Run World
  unfolding wakes_reader
  written w next (blocked mq calls) = ok (record w { queue = some mq; producer_wait = asleep })
  written w next (returned reply mq calls) = do
    producer ← next reply
    ok (record w {
      queue = some mq;
      producer = producer;
      producer_wait = ready;
      consumer_wait = woken_if (wakes_reader calls) w.consumer_wait;
    })

  unfoldable pub announced : Reply → Run Producer
  unfolding send_next
  announced reply = do assert (is_zero reply.ret); ok (send_next 0 0)

  unfoldable pub sent : ℕ → ℕ → ℕ → Reply → Run Producer
  unfolding send_next add_int
  sent i sum number reply =
      let onward = add_int sum number >>= λ sum'. ok (send_next (i + 1) sum') in
      if not (is_zero reply.ret) && is_epipe reply.errno then ok (leaving sum) else onward

  unfoldable pub producer_step : Producer → World → Run World
  unfolding write_turn written announced sent wakes_reader
  producer_step announcing w = do
    mq ← live w.queue
    step ← write_turn (self producing) w.writer w.producer_wait mq (bytes_of 4 count)
    written w announced step
  producer_step (sending i sum number) w = do
    mq ← live w.queue
    step ← write_turn (self producing) w.writer w.producer_wait mq (bytes_of 4 number)
    written w (sent i sum number) step
  producer_step (leaving sum) w = do
    mq ← live w.queue
    result ← msg_queue_close w.writer mq
    assert (succeeded result.errno)
    ok (record w {
      queue = result.backend;
      writer = result.handle;
      producer = gone sum;
      consumer_wait = woken_if (wakes_reader result.calls) w.consumer_wait;
    })
  producer_step (gone sum) w = ok w

  -- The head of the loop of `main`; its `n` is the count that it has read.
  unfoldable pub receive_next : ℕ → ℕ → ℕ → Consumer
  unfolding lt_int
  receive_next n i sum = if lt_int i n then receiving n i sum else departing sum

  unfoldable pub was_read : World → (Reply → Run Consumer) → Step Backend → Run World
  unfolding wakes_writer
  was_read w next (blocked mq calls) = ok (record w { queue = some mq; consumer_wait = asleep })
  was_read w next (returned reply mq calls) = do
    consumer ← next reply
    ok (record w {
      queue = some mq;
      consumer = consumer;
      consumer_wait = ready;
      producer_wait = woken_if (wakes_writer calls) w.producer_wait;
    })

  unfoldable pub count_read : Reply → Run Consumer
  unfolding int_of receive_next
  count_read reply = do
    assert (is_four reply.ret)
    n ← int_of reply.stored
    assert (n == count)
    ok (receive_next n 0 0)

  unfoldable pub received : ℕ → ℕ → ℕ → Reply → Run Consumer
  unfolding int_of receive_next add_int
  received n i sum reply =
      let onward = int_of reply.stored >>= λ number.
      add_int sum number >>= λ sum'. ok (receive_next n (i + 1) sum') in
      elim reply.ret [
        | minus_one ↦ ok failed
        | value len ↦ if len == 0 then ok (departing sum) else onward
      ]

  -- `pthread_join` goes on once the thread has returned.
  unfoldable pub join_producer : ℕ → Producer → World → Run World
  join_producer sum (gone expected) w = do
    assert (expected == sum)
    ok (record w { consumer = finished sum })
  join_producer sum _ w = ok w

  unfoldable pub consumer_step : Consumer → World → Run World
  unfolding read_turn was_read count_read received join_producer wakes_writer
  consumer_step awaiting w = do
    mq ← live w.queue
    step ← read_turn (self consuming) w.reader w.consumer_wait mq 4
    was_read w count_read step
  consumer_step (receiving n i sum) w = do
    mq ← live w.queue
    step ← read_turn (self consuming) w.reader w.consumer_wait mq 4
    was_read w (received n i sum) step
  consumer_step (departing sum) w = do
    mq ← live w.queue
    result ← msg_queue_close w.reader mq
    assert (succeeded result.errno)
    ok (record w {
      queue = result.backend;
      reader = result.handle;
      consumer = joining sum;
      producer_wait = woken_if (wakes_writer result.calls) w.producer_wait;
    })
  consumer_step (joining sum) w = join_producer sum w.producer w
  consumer_step (finished sum) w = ok w
  consumer_step failed w = ok w

  -- A wakeup without a signal, which `cond_wait` may have.
  unfoldable pub thread_turn : Event → World → Run World
  unfolding producer_step consumer_step
  thread_turn (acting producing) w = producer_step w.producer w
  thread_turn (acting consuming) w = consumer_step w.consumer w
  thread_turn (rousing producing) w =
      ok (record w { producer_wait = woken_if true w.producer_wait })
  thread_turn (rousing consuming) w =
      ok (record w { consumer_wait = woken_if true w.consumer_wait })

  -- Turns of the threads and such wakeups, in the order of a schedule.
  unfoldable pub run_threads : List Event → World → Run World
  unfolding thread_turn
  run_threads [] w = ok w
  run_threads (event ∷ events) w = thread_turn event w >>= λ w'. run_threads events w'

-- `main` up to `pthread_create`; `none` is the return of 1 when there is no queue.
unfoldable pub main_begin : Option (ℕ × ℕ) → Option (List ℕ) → ℕ → Run (Option World)
main_begin backend block capacity = do
  (reader, made, _) ← msg_queue_create backend block capacity reader_flag
  let begun = live made >>= λ mq. msg_queue_open reader mq writer_flag >>= λ (writer, mq', _, _).
      ok (
        some (record {
          queue = some mq';
          writer = writer;
          producer = announcing;
          producer_wait = ready;
          reader = reader;
          consumer = awaiting;
          consumer_wait = ready;
        }))
  if reader == 0 then ok none else begun

-- `main` up to `pthread_create`, and then turns of the two threads in the order of a schedule.
unfoldable pub main_run :
    (Side → ℕ)
    → (ℕ → ℕ)
    → Option (ℕ × ℕ)
    → Option (List ℕ)
    → ℕ
    → ℕ
    → List Event
    → Run (Option World)
unfolding main_begin run_threads
main_run self rand backend block capacity count events = do
  begun ← main_begin backend block capacity
  elim begun [
    | none ↦ ok none
    | some w ↦ (do w' ← run_threads self count rand events w; ok (some w'))
  ]
