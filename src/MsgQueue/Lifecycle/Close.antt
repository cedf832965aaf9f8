-- ===== src/MsgQueue/Lifecycle/Close.antt =====
-- `msg_queue_close` on one of the open handles of a queue.
use uoft_operating_systems.Common.{
  ℕ, ◌^◌, ◌<◌, ◌≡◌, refl, sym, ap, ◌∙◌, Bool, true, false, ◌&&◌, none, some, List, [], ◌∷◌, ◌++◌,
  arith, length, ok, Returns, Returns-bind, ◌>>◌, ◌==◌, if◌then◌else◌, ne→==,
}
use mathlib.Core.Path.{subst}
use uoft_operating_systems.RingBuffer.{RingBuffer, ring_buffer_destroy}
use uoft_operating_systems.Validator.{Validator, validator_destroy}
use uoft_operating_systems.RingBuffer.Holds.{Represents}
use uoft_operating_systems.MsgQueue.Handle.{
  reader_flag, writer_flag, null_handle, get_backend, get_flags,
}
use uoft_operating_systems.MsgQueue.Sync.{
  Sync, lock, unlock, broadcast_space_full, broadcast_space_empty,
}
use uoft_operating_systems.MsgQueue.Frame.{frames}
use uoft_operating_systems.MsgQueue.Mailbox.{Mailbox}
use uoft_operating_systems.MsgQueue.Carries.{Carries, Carries-raise}
use uoft_operating_systems.MsgQueue.Backend.{
  Backend, contents, mq_close, mq_destroy, raise, noreaders_event, nowriters_event, readable_event,
  writable_event,
}
use uoft_operating_systems.MsgQueue.Backend.Tracks.{holders, Tracks, mq_close-Tracks}
use uoft_operating_systems.MsgQueue.Lifecycle.{
  Closed, mark_no_readers, mark_no_writers, msg_queue_close,
}

-- The mailbox once a side has or has not lost its last handle.
abbrev pub box_after : Mailbox → List ℕ → Bool → Bool → Mailbox
box_after box left had_r had_w = record box {
  readers_gone = had_r && (holders reader_flag left == 0);
  writers_gone = had_w && (holders writer_flag left == 0);
}

-- The calls of a close that is not the last.
abbrev pub close_calls : Mailbox → List Sync
close_calls box =
    lock
    ∷ ((if box.readers_gone then broadcast_space_full ∷ [] else [])
        ++ ((if box.writers_gone then broadcast_space_empty ∷ [] else []) ++ unlock ∷ []))

-- What is left of the queue.
abbrev pub Remains : Mailbox → List ℕ → Bool → Bool → Closed → Type 0
Remains box left had_r had_w result =
    (mq : Backend) × (result.backend ≡ some mq)
    × Tracks mq left had_r had_w
    × Carries mq (box_after box left had_r had_w)
    × (result.calls ≡ close_calls (box_after box left had_r had_w))

-- A queue with no handle left is destroyed.
abbrev pub Outcome : Mailbox → List ℕ → Bool → Bool → Closed → Type 0
Outcome box [] had_r had_w result = (result.backend ≡ none) × (result.calls ≡ lock ∷ unlock ∷ [])
Outcome box (flags ∷ left) had_r had_w result = Remains box (flags ∷ left) had_r had_w result

Tracks-raise :
    (mask : ℕ) (mq : Backend) (handles : List ℕ) (had_r had_w : Bool)
    → Tracks mq handles had_r had_w
    → Tracks (raise mask mq) handles had_r had_w
unfolding raise
Tracks-raise mask mq handles had_r had_w t = record {
  refs = t.refs;
  readers = t.readers;
  writers = t.writers;
  no_readers = t.no_readers;
  no_writers = t.no_writers;
  seen_readers = t.seen_readers;
  seen_writers = t.seen_writers;
}

Stands : Backend → Mailbox → List ℕ → Bool → Bool → Type 0
Stands mq box left had_r had_w = Tracks mq left had_r had_w × Carries mq box

Stands-raise :
    (mask : ℕ) (mq : Backend) (box : Mailbox) (left : List ℕ) (had_r had_w : Bool)
    → Stands mq box left had_r had_w
    → Stands (raise mask mq) box left had_r had_w
unfolding Stands
Stands-raise mask mq box left had_r had_w (t, c) =
    (Tracks-raise mask mq left had_r had_w t, Carries-raise mask mq box c)

-- One of two backends, with calls or none.
abbrev choice : Bool → Backend → Backend → List Sync → Backend × List Sync
choice b x y calls = if b then (x, calls) else (y, [])

choice-Stands :
    (b : Bool) (x y : Backend) (calls : List Sync) (box : Mailbox) (left : List ℕ)
    (had_r had_w : Bool)
    → Stands x box left had_r had_w
    → Stands y box left had_r had_w
    → Stands (choice b x y calls).0 box left had_r had_w
      × ((choice b x y calls).1 ≡ (if b then calls else []))
choice-Stands true x y calls box left had_r had_w s t = (s, refl)
choice-Stands false x y calls box left had_r had_w s t = (t, refl)

-- Making a side known as gone changes `queue_event` alone.
no_readers_marked :
    (mq : Backend) (box : Mailbox) (left : List ℕ) (had_r had_w : Bool)
    → Stands mq box left had_r had_w
    → Stands (mark_no_readers mq).0 box left had_r had_w
      × ((mark_no_readers mq).1 ≡ (if box.readers_gone then broadcast_space_full ∷ [] else []))
unfolding Stands mark_no_readers
no_readers_marked mq box left had_r had_w s =
    let marked =
      Stands-raise noreaders_event (raise writable_event mq) box left had_r had_w
        (Stands-raise writable_event mq box left had_r had_w s) in
    let (stands, calls) =
      choice-Stands mq.no_readers (raise noreaders_event (raise writable_event mq)) mq
        (broadcast_space_full ∷ []) box left had_r had_w marked s in
    (stands, calls ∙ ap (λ b. if b then broadcast_space_full ∷ [] else []) ((s.1).readers_gone))

no_writers_marked :
    (mq : Backend) (box : Mailbox) (left : List ℕ) (had_r had_w : Bool)
    → Stands mq box left had_r had_w
    → Stands (mark_no_writers mq).0 box left had_r had_w
      × ((mark_no_writers mq).1 ≡ (if box.writers_gone then broadcast_space_empty ∷ [] else []))
unfolding Stands mark_no_writers
no_writers_marked mq box left had_r had_w s =
    let marked =
      Stands-raise nowriters_event (raise readable_event mq) box left had_r had_w
        (Stands-raise readable_event mq box left had_r had_w s) in
    let (stands, calls) =
      choice-Stands mq.no_writers (raise nowriters_event (raise readable_event mq)) mq
        (broadcast_space_empty ∷ []) box left had_r had_w marked s in
    (stands, calls ∙ ap (λ b. if b then broadcast_space_empty ∷ [] else []) ((s.1).writers_gone))

-- `mq_close` keeps the buffer and the list's validator, so the messages stay.
Carries-closed :
    (mq mq' : Backend) (box : Mailbox) (left : List ℕ) (had_r had_w : Bool)
    → Carries mq box
    → contents mq' ≡ contents mq
    → Tracks mq' left had_r had_w
    → Carries mq' (box_after box left had_r had_w)
Carries-closed mq mq' box left had_r had_w c same t = record {
  bytes =
      subst (λ (rb : RingBuffer). Represents rb (frames box.messages))
        (sym (ap (λ (p : RingBuffer × Validator). p.0) same)) c.bytes;
  filled = c.filled;
  list_idle = ap (λ (p : RingBuffer × Validator). p.1.owner) same ∙ c.list_idle;
  capacity = ap (λ (p : RingBuffer × Validator). p.0.size) same ∙ c.capacity;
  readers_gone = t.no_readers;
  writers_gone = t.no_writers;
}

-- No assertion of `mq_destroy` fails for the last handle.
last_destroyed :
    (mq : Backend) (box : Mailbox) (left : List ℕ) (had_r had_w : Bool)
    → Stands mq box left had_r had_w
    → length left ≡ 0
    → mq_destroy mq ≡ ok tt
unfolding mq_destroy Stands ring_buffer_destroy validator_destroy holders
last_destroyed mq box [] had_r had_w (t, c) e =
    rw (t.refs, t.readers, t.writers, c.bytes.idle, c.list_idle) refl
last_destroyed mq box (h ∷ hs) had_r had_w (t, c) e = absurd (omega arith)

-- After `mq_close`.
concluded :
    (last : Bool) (mq : Backend) (box : Mailbox) (left : List ℕ) (had_r had_w : Bool)
    → last ≡ (length left == 0)
    → Stands mq (box_after box left had_r had_w) left had_r had_w
    → Returns
        (λ result.
          (result.handle ≡ null_handle)
          × (result.errno ≡ none)
          × Outcome box left had_r had_w result)
        (if last
          then (mq_destroy mq
              >> ok (record {
                handle = null_handle;
                backend = none;
                errno = none;
                calls = lock ∷ unlock ∷ [];
              }))
          else ok (record {
            handle = null_handle;
            backend = some (mark_no_writers (mark_no_readers mq).0).0;
            errno = none;
            calls =
                lock
                ∷ ((mark_no_readers mq).1
                    ++ ((mark_no_writers (mark_no_readers mq).0).1 ++ unlock ∷ []));
          }))
unfolding Stands
concluded true mq box [] had_r had_w e s =
    rw (last_destroyed mq (box_after box [] had_r had_w) [] had_r had_w s refl)
      (refl, refl, (refl, refl))
concluded true mq box (h ∷ hs) had_r had_w e s = absurd (ground arith)
concluded false mq box [] had_r had_w e s = absurd (ground arith)
concluded false mq box (h ∷ hs) had_r had_w e s =
    let box' = box_after box (h ∷ hs) had_r had_w in
    let marked = no_readers_marked mq box' (h ∷ hs) had_r had_w s in
    let marked' = no_writers_marked (mark_no_readers mq).0 box' (h ∷ hs) had_r had_w marked.0 in
    (
      refl,
      refl,
      (
        (mark_no_writers (mark_no_readers mq).0).0,
        refl,
        marked'.0.0,
        marked'.0.1,
        λ i. lock ∷ (marked.1 i ++ (marked'.1 i ++ unlock ∷ [])),
      ),
    )

-- Closing one of the open handles of a queue passes every assertion, sets the caller's handle to the
-- null handle and does not set `errno`. After the last handle the backend is destroyed. Otherwise the
-- queue keeps its messages, its counters are those of the handles that are left, and the threads
-- blocked in a write (in a read) are woken if no reader (no writer) is left; no other call of sync.h
-- is made but for the mutex, so no thread that waits in `msg_queue_poll` is notified.
pub msg_queue_close-Closes :
    (queue address : ℕ) (mq : Backend) (box : Mailbox) (before behind : List ℕ) (had_r had_w : Bool)
    → 0 < queue
    → get_backend queue ≡ ok address
    → length (before ++ get_flags queue ∷ behind) < 2 ^ 64
    → Tracks mq (before ++ get_flags queue ∷ behind) had_r had_w
    → Carries mq box
    → Returns
        (λ result.
          (result.handle ≡ null_handle)
          × (result.errno ≡ none)
          × Outcome box (before ++ behind) had_r had_w result)
        (msg_queue_close queue mq)
unfolding msg_queue_close Stands
msg_queue_close-Closes queue address mq box before behind had_r had_w pos valid room t c =
    rw (ne→== queue 0 (λ e. omega arith), valid)
      (Returns-bind _ _ (mq_close mq (get_flags queue)) _
        (mq_close-Tracks (get_flags queue) mq before behind had_r had_w room t)
        (λ (last, mq') (e, t', same).
          concluded last mq' box (before ++ behind) had_r had_w e
            (t', Carries-closed mq mq' box (before ++ behind) had_r had_w c same t')))
