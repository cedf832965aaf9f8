-- ===== src/ProdCon/Kept.antt =====
-- What a backend keeps in a call of `msg_queue_write` or `msg_queue_read`, and whom the call signals.
pub mod Write
pub mod Read
use uoft_operating_systems.Common.{
  ℕ, ◌∙◌, ◌-◌, ◌^◌, some, stop, uninitialized_read, Bool-cases, inl, inr, ◌≡◌, refl, Bool, true,
  false, not, ◌&&◌, List, [], ◌∷◌, Run, ok, IfReturns, after_any, after_value, if◌then◌else◌,
  length, ltb, leb, ◌==◌, add_size,
}
use uoft_operating_systems.RingBuffer.{
  RingBuffer, ring_buffer_write, ring_buffer_read, ring_buffer_peek, ring_buffer_free,
}
use uoft_operating_systems.MsgQueue.Handle.{
  reader_flag, writer_flag, nonblock_flag, has, get_backend, get_flags,
}
use uoft_operating_systems.MsgQueue.Sync.{
  lock, unlock, wait_space_empty, minus_one, epipe, emsgsize, eagain, Step, returned, blocked,
  after,
}
use uoft_operating_systems.MsgQueue.Backend.{
  Backend, raise, lower, test_empty, test_full, readable_event, writable_event, nowriters_event,
}
use uoft_operating_systems.MsgQueue.Frame.{bytes_of, of_bytes}
use uoft_operating_systems.MsgQueue.Send.{
  failed, settle_writable, write_message, write_loop, write_locked, msg_queue_write,
}
use uoft_operating_systems.MsgQueue.Receive.{
  settle_readable, read_message, read_eof, read_ready, read_loop, read_locked, msg_queue_read,
}
use uoft_operating_systems.MsgQueue.Backend.Tracks.{Tracks}
use uoft_operating_systems.ProdCon.{
  Wait, ready, asleep, woken, wakes_writer, wakes_reader, is_zero, write_turn, read_turn,
}

-- The counters of the handles.
pub record SameUsers (mq mq' : Backend) : Type 0 where
  pub refs : mq'.refs ≡ mq.refs
  pub readers : mq'.readers ≡ mq.readers
  pub writers : mq'.writers ≡ mq.writers
  pub no_readers : mq'.no_readers ≡ mq.no_readers
  pub no_writers : mq'.no_writers ≡ mq.no_writers

pub same_users : (mq : Backend) → SameUsers mq mq
same_users mq = record {
  refs = refl;
  readers = refl;
  writers = refl;
  no_readers = refl;
  no_writers = refl;
}

pub SameUsers-either :
    (mq : Backend) (b : Bool) (x y : Backend)
    → SameUsers mq x
    → SameUsers mq y
    → SameUsers mq (if b then x else y)
SameUsers-either mq true x y p q = p
SameUsers-either mq false x y p q = q

pub SameUsers-tested :
    (mq : Backend) (b : Bool) (x y : Bool × Backend)
    → SameUsers mq x.1
    → SameUsers mq y.1
    → SameUsers mq (if b then x else y).1
SameUsers-tested mq true x y p q = p
SameUsers-tested mq false x y p q = q

pub lowered : (mask : ℕ) (mq mq' : Backend) → SameUsers mq mq' → SameUsers mq (lower mask mq')
unfolding lower
lowered mask mq mq' s = record {
  refs = s.refs;
  readers = s.readers;
  writers = s.writers;
  no_readers = s.no_readers;
  no_writers = s.no_writers;
}

pub looked_full :
    (self : ℕ) (mq mq' : Backend) → SameUsers mq mq' → SameUsers mq (test_full self mq').1
unfolding test_full
looked_full self mq mq' s = record {
  refs = s.refs;
  readers = s.readers;
  writers = s.writers;
  no_readers = s.no_readers;
  no_writers = s.no_writers;
}

pub looked_empty :
    (self : ℕ) (mq mq' : Backend) → SameUsers mq mq' → SameUsers mq (test_empty self mq').1
unfolding test_empty
looked_empty self mq mq' s = record {
  refs = s.refs;
  readers = s.readers;
  writers = s.writers;
  no_readers = s.no_readers;
  no_writers = s.no_writers;
}

pub settled_writable :
    (self : ℕ) (mq mq' : Backend) → SameUsers mq mq' → SameUsers mq (settle_writable self mq')
unfolding settle_writable
settled_writable self mq mq' s =
    let m = (test_full self mq').1 in
    SameUsers-either mq ((test_full self mq').0 && not m.no_readers) (lower (2 ^ 32 - 3) m) m
      (lowered (2 ^ 32 - 3) mq m (looked_full self mq mq' s)) (looked_full self mq mq' s)

pub settled_readable :
    (self : ℕ) (mq mq' : Backend) → SameUsers mq mq' → SameUsers mq (settle_readable self mq')
unfolding settle_readable
settled_readable self mq mq' s =
    let m = (test_empty self mq').1 in
    SameUsers-either mq ((test_empty self mq').0 && not m.no_writers) (lower (2 ^ 32 - 2) m) m
      (lowered (2 ^ 32 - 2) mq m (looked_empty self mq mq' s)) (looked_empty self mq mq' s)

pub raised : (mask : ℕ) (mq mq' : Backend) → SameUsers mq mq' → SameUsers mq (raise mask mq')
unfolding raise
raised mask mq mq' s = record {
  refs = s.refs;
  readers = s.readers;
  writers = s.writers;
  no_readers = s.no_readers;
  no_writers = s.no_writers;
}

abbrev pub is_nil : List ℕ → Bool
is_nil [] = true
is_nil (b ∷ bs) = false

-- The counters stay, and a write that succeeds wakes a reader.
abbrev pub KeepsWrite : Backend → Step Backend → Type 0
KeepsWrite mq (returned reply mq' calls) =
    SameUsers mq mq' × (is_zero reply.ret ≡ true → wakes_reader calls ≡ true)
KeepsWrite mq (blocked mq' calls) = SameUsers mq mq'

-- The counters stay, and a read that gives a message wakes a writer.
abbrev pub KeepsRead : Backend → Step Backend → Type 0
KeepsRead mq (returned reply mq' calls) =
    SameUsers mq mq' × ((is_nil reply.stored ≡ false) → wakes_writer calls ≡ true)
KeepsRead mq (blocked mq' calls) = SameUsers mq mq'

pub IfReturns-either :
    {A : Type 0} (P : A → Type 0) (b : Bool) (x y : Run A)
    → IfReturns P x
    → IfReturns P y
    → IfReturns P (if b then x else y)
IfReturns-either P true x y p q = p
IfReturns-either P false x y p q = q

pub with_buffer :
    (mq mq' : Backend) (rb : RingBuffer)
    → SameUsers mq mq'
    → SameUsers mq (record mq' { buffer = rb })
with_buffer mq mq' rb s = record {
  refs = s.refs;
  readers = s.readers;
  writers = s.writers;
  no_readers = s.no_readers;
  no_writers = s.no_writers;
}

-- More calls at the start.
pub after-KeepsWrite :
    (mq : Backend) (step : Step Backend)
    → KeepsWrite mq step
    → IfReturns (KeepsWrite mq) (after (lock ∷ []) step)
unfolding wakes_reader
after-KeepsWrite mq (returned reply mq' calls) k = k
after-KeepsWrite mq (blocked mq' calls) k = k

pub after-KeepsRead :
    (mq : Backend) (step : Step Backend)
    → KeepsRead mq step
    → IfReturns (KeepsRead mq) (after (lock ∷ []) step)
unfolding wakes_writer
after-KeepsRead mq (returned reply mq' calls) k = k
after-KeepsRead mq (blocked mq' calls) k = k

pub Tracks-same :
    (mq mq' : Backend) (handles : List ℕ) (had_r had_w : Bool)
    → SameUsers mq mq'
    → Tracks mq handles had_r had_w
    → Tracks mq' handles had_r had_w
Tracks-same mq mq' handles had_r had_w s t = record {
  refs = s.refs ∙ t.refs;
  readers = s.readers ∙ t.readers;
  writers = s.writers ∙ t.writers;
  no_readers = s.no_readers ∙ t.no_readers;
  no_writers = s.no_writers ∙ t.no_writers;
  seen_readers = t.seen_readers;
  seen_writers = t.seen_writers;
}
