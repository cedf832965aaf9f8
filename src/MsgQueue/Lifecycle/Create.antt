-- ===== src/MsgQueue/Lifecycle/Create.antt =====
-- `msg_queue_create`: a fresh queue, and its refusals.
use Prim.Native.Nat.{bit_and}
use uoft_operating_systems.Common.{
  ℕ, ◌+◌, ◌*◌, ◌-◌, ◌^◌, ◌≤◌, ◌<◌, ◌≡◌, refl, sym, ap, ◌∙◌, Bool, true, false, ◌&&◌, Option, none,
  some, List, [], ◌∷◌, inl, inr, arith, length, ◌==◌, if◌then◌else◌, Bool-cases, eq→==, ne→==,
  lt→ltb, le→ltb, ok, Returns, Returns-bind, Returns-value,
}
use uoft_operating_systems.Common.Bits.{bit_and_seven, clear_seven}
use mathlib.Core.Path.{subst}
use uoft_operating_systems.RingBuffer.{RingBuffer, ring_buffer_init}
use uoft_operating_systems.RingBuffer.Holds.{Represents}
use uoft_operating_systems.RingBuffer.Client.{ring_buffer_init-Represents}
use uoft_operating_systems.MsgQueue.Handle.{
  reader_flag, writer_flag, has, null_handle, invalid_flags, make_handle, get_backend, get_flags,
}
use uoft_operating_systems.MsgQueue.Handle.Laws.{make_handle-round_trip}
use uoft_operating_systems.MsgQueue.Sync.{Errno, einval, enomem}
use uoft_operating_systems.MsgQueue.Frame.{frames}
use uoft_operating_systems.Validator.{Validator, validator_init}
use uoft_operating_systems.MsgQueue.Backend.{contents, Backend, mq_init, mq_open}
use uoft_operating_systems.MsgQueue.Backend.Tracks.{Tracks, holders, mq_open-Tracks}
use uoft_operating_systems.MsgQueue.Mailbox.{Mailbox}
use uoft_operating_systems.MsgQueue.Carries.{Carries}
use uoft_operating_systems.MsgQueue.Lifecycle.{msg_queue_create}

abbrev pub fresh_box : ℕ → Mailbox
fresh_box capacity = record {
  capacity = capacity;
  messages = [];
  readers_gone = false;
  writers_gone = false;
}

pub mq_open-contents :
    (address flags handle : ℕ) (mq : Backend)
    → make_handle address flags ≡ ok handle
    → Returns (λ (result, mq'). contents mq' ≡ contents mq) (mq_open address mq flags)
unfolding mq_open
mq_open-contents address flags handle mq e = rw e (ground arith)

-- A fresh backend.
module _ (event capacity : ℕ) (rb : RingBuffer) (r : Represents rb []) where
  fresh : Backend
  fresh = record {
    buffer = rb;
    refs = 0;
    readers = 0;
    writers = 0;
    no_readers = false;
    no_writers = false;
    queue_event = event;
    waiting = [];
    list_validator = validator_init;
  }

  fresh-Tracks : Tracks fresh [] false false
  unfolding fresh holders
  fresh-Tracks = record {
    refs = refl;
    readers = refl;
    writers = refl;
    no_readers = refl;
    no_writers = refl;
    seen_readers = λ h. absurd (omega arith);
    seen_writers = λ h. absurd (omega arith);
  }

first_user : (b : Bool) → (b && ((if b then 1 else 0) + 0 == 0)) ≡ false
first_user true = refl
first_user false = refl

-- The first handle of a fresh backend.
open_fresh :
    (address flags handle event capacity : ℕ) (rb : RingBuffer) (r : Represents rb [])
    → rb.size ≡ capacity
    → make_handle address flags ≡ ok handle
    → Returns
        (λ (result, mq).
          (result ≡ handle)
          × Carries mq (fresh_box capacity)
          × Tracks mq (flags ∷ []) (has flags reader_flag) (has flags writer_flag))
        (mq_open address (fresh event capacity rb r) flags)
unfolding fresh frames holders validator_init
open_fresh address flags handle event capacity rb r size made =
    let mq = fresh event capacity rb r in
    let ((result, mq'), e, (h, t)) = Returns-value _ (mq_open address mq flags) (
      mq_open-Tracks address flags handle mq [] false false made (omega arith)
        (fresh-Tracks event capacity rb r)) in
    let same : contents mq' ≡ (rb, validator_init) =
      subst (Returns (λ (p : ℕ × Backend). contents p.1 ≡ (rb, validator_init))) e
        (mq_open-contents address flags handle mq made) in
    rw e (
      h,
      record {
        bytes = subst (λ b. Represents b []) (sym (ap (λ p. p.0) same)) r;
        filled = tt;
        list_idle = ap (λ (p : RingBuffer × Validator). p.1.owner) same;
        capacity = ap (λ (p : RingBuffer × Validator). p.0.size) same ∙ size;
        readers_gone = t.no_readers ∙ first_user (has flags reader_flag);
        writers_gone = t.no_writers ∙ first_user (has flags writer_flag);
      },
      t,
    )

-- What a successful call gives: a handle on an empty queue with one user, for any contents of the
-- memory that `malloc` returned.
abbrev pub Created : ℕ → ℕ → ℕ → ℕ × Option Backend × Option Errno → Type 0
Created address capacity flags (handle, backend, errno) =
    (errno ≡ none)
    × (get_backend handle ≡ ok address)
    × (get_flags handle ≡ flags)
    × ((mq : Backend) × (backend ≡ some mq)
        × Carries mq (fresh_box capacity)
        × Tracks mq (flags ∷ []) (has flags reader_flag) (has flags writer_flag))

-- With a capacity of 9 to 2^63 - 1 bytes, flags of the three bits, and memory from `malloc` for the
-- backend (a multiple of 8 other than 0) and for the buffer, `msg_queue_create` fails no assertion
-- and returns a handle with these flags to an empty queue of this capacity, whose counters track that
-- handle alone.
pub msg_queue_create-Created :
    (slot event capacity flags : ℕ) (block : List ℕ)
    → 0 < slot
    → slot * 8 < 2 ^ 64
    → flags < 8
    → 9 ≤ capacity
    → capacity < 2 ^ 63
    → length block ≡ capacity
    → Returns
        (Created (slot * 8) capacity flags)
        (msg_queue_create (some (slot * 8, event)) (some block) capacity flags)
unfolding msg_queue_create invalid_flags mq_init fresh
msg_queue_create-Created slot event capacity flags block pos aligned valid enough small len =
    let (rb, made, r, size) = ring_buffer_init-Represents block capacity len (omega arith) small in
    let (handle, h, p, f) = make_handle-round_trip slot flags aligned valid pos in
    rw (flags_ok, le→ltb capacity 9 enough, pointer_ok, made)
      (Returns-bind _ _ (mq_open (slot * 8) (fresh event capacity rb r) flags) _
        (open_fresh (slot * 8) flags handle event capacity rb r size h)
        (λ (result, mq) (e, c, t).
          (refl, ap get_backend e ∙ p, ap get_flags e ∙ f, (mq, refl, c, t))))
  where
    flags_ok : (bit_and flags (2 ^ 32 - 8) == 0) ≡ true
    flags_ok = eq→== (bit_and flags (2 ^ 32 - 8)) 0 (omega (arith, clear_seven flags (omega arith)))

    pointer_ok : (bit_and (slot * 8) 7 == 0) ≡ true
    pointer_ok = eq→== (bit_and (slot * 8) 7) 0 (omega (arith, bit_and_seven (slot * 8)))

no_other_flags : (flags : ℕ) → flags < 2 ^ 32 → flags < 8 → (bit_and flags (2 ^ 32 - 8) == 0) ≡ true
no_other_flags flags int valid =
    eq→== (bit_and flags (2 ^ 32 - 8)) 0 (omega (arith, clear_seven flags int))

aligned_slot : (slot : ℕ) → (bit_and (slot * 8) 7 == 0) ≡ true
aligned_slot slot = eq→== (bit_and (slot * 8) 7) 0 (omega (arith, bit_and_seven (slot * 8)))

-- Why no queue is created: other flags, a capacity that holds no message, or no memory for the
-- backend or for its buffer.
pub data Refusal (backend : Option (ℕ × ℕ)) (block : Option (List ℕ)) (capacity flags : ℕ)
    : Errno → Type 0 where
  bad_flags : 8 ≤ flags → Refusal backend block capacity flags einval
  too_small : capacity < 9 → Refusal backend block capacity flags einval
  no_backend :
      flags < 8 → 9 ≤ capacity → backend ≡ none → Refusal backend block capacity flags enomem
  no_buffer :
      (slot event : ℕ)
      → flags < 8
      → 9 ≤ capacity
      → backend ≡ some (slot * 8, event)
      → block ≡ none
      → Refusal backend block capacity flags enomem

-- For each reason to refuse, whatever `malloc` returns otherwise, `msg_queue_create` returns the null
-- handle with the `errno` of that reason: EINVAL for flags above the three bits or a capacity below
-- nine bytes, ENOMEM when `malloc` fails for the backend or for the buffer. `flags` is a 32-bit int.
pub msg_queue_create-refusals :
    (backend : Option (ℕ × ℕ)) (block : Option (List ℕ)) (capacity flags : ℕ) (e : Errno)
    → flags < 2 ^ 32
    → Refusal backend block capacity flags e
    → msg_queue_create backend block capacity flags ≡ ok (null_handle, none, some e)
unfolding msg_queue_create invalid_flags mq_init ring_buffer_init
msg_queue_create-refusals backend block capacity flags _ int (bad_flags bad) =
    rw (ne→== (bit_and flags (2 ^ 32 - 8)) 0 (λ e. omega (arith, clear_seven flags int)))
msg_queue_create-refusals backend block capacity flags _ int (too_small small) =
    elim (Bool-cases (bit_and flags (2 ^ 32 - 8) == 0)) [
      | inl valid ↦ rw (valid, lt→ltb capacity 9 (omega arith))
      | inr bad ↦ rw bad
    ]
msg_queue_create-refusals backend block capacity flags _ int (no_backend valid enough e) =
    rw (no_other_flags flags int valid, le→ltb capacity 9 enough, e)
msg_queue_create-refusals backend block capacity flags _ int
      (no_buffer slot event valid enough e f) =
    rw (no_other_flags flags int valid, le→ltb capacity 9 enough, e, f, aligned_slot slot)
