-- ===== src/MsgQueue/Carries.antt =====
-- The ring buffer of a backend holds the frames of the messages of a mailbox.
use uoft_operating_systems.Common.{
  ℕ, ◌+◌, ◌-◌, ◌≤◌, ◌<◌, ◌≡◌, refl, sym, ap, ◌∙◌, Bool, true, false, List, [], ◌∷◌, ◌++◌,
  append_assoc, arith, length, length-append, ◌==◌, Run, Returns, if◌then◌else◌,
}
use uoft_operating_systems.RingBuffer.Holds.{Represents, length-le-size}
use uoft_operating_systems.RingBuffer.Exact.{used_exact, free_exact}
use uoft_operating_systems.MsgQueue.Frame.{bytes_of, frame, frames, length-bytes_of}
use uoft_operating_systems.MsgQueue.Backend.{Backend, test_empty, test_full, raise, lower}
use uoft_operating_systems.MsgQueue.Sync.{Sync, Step, returned, blocked, after}
use uoft_operating_systems.MsgQueue.Mailbox.{Mailbox, weight, Verdict, gives, waits}

abbrev pub AllFilled : List (List ℕ) → Type 0
AllFilled [] = Unit
AllFilled (message ∷ messages) = (0 < length message) × AllFilled messages

-- No message is empty, so that the read of a body passes `assert(length != 0)`.
pub record Carries (mq : Backend) (box : Mailbox) : Type 0 where
  pub bytes : Represents mq.buffer (frames box.messages)
  pub filled : AllFilled box.messages
  pub list_idle : mq.list_validator.owner ≡ 0
  pub capacity : mq.buffer.size ≡ box.capacity
  pub readers_gone : mq.no_readers ≡ box.readers_gone
  pub writers_gone : mq.no_writers ≡ box.writers_gone

pub length-frame : (message : List ℕ) → length (frame message) ≡ 8 + length message
unfolding frame
length-frame message =
    omega (
      arith,
      length-append (bytes_of 8 (length message)) message,
      length-bytes_of 8 (length message),
    )

pub length-frames : (messages : List (List ℕ)) → length (frames messages) ≡ weight messages
unfolding frames weight
length-frames [] = refl
length-frames (message ∷ messages) = omega (
  arith,
  length-append (frame message) (frames messages),
  length-frame message,
  length-frames messages,
)

pub frames-append : (xs ys : List (List ℕ)) → frames (xs ++ ys) ≡ frames xs ++ frames ys
unfolding frames
frames-append [] ys = refl
frames-append (x ∷ xs) ys =
    ap (λ t. frame x ++ t) (frames-append xs ys)
    ∙ sym (append_assoc (frame x) (frames xs) (frames ys))

pub AllFilled-append :
    (xs : List (List ℕ)) (y : List ℕ) → AllFilled xs → 0 < length y → AllFilled (xs ++ y ∷ [])
AllFilled-append [] y h k = (k, tt)
AllFilled-append (x ∷ xs) y (h, hs) k = (h, AllFilled-append xs y hs k)

module _ (self : ℕ) (mq : Backend) (box : Mailbox) (c : Carries mq box) where
  -- The backend is not changed by looking at it.
  pub test_empty-Carries : test_empty self mq ≡ (weight box.messages == 0, mq)
  unfolding test_empty
  test_empty-Carries =
      rw (used_exact self mq.buffer (frames box.messages) c.bytes, length-frames box.messages)

  pub test_full-Carries : test_full self mq ≡ (mq.buffer.size - weight box.messages == 0, mq)
  unfolding test_full
  test_full-Carries =
      rw (free_exact self mq.buffer (frames box.messages) c.bytes, length-frames box.messages)

  pub weight-le-size : weight box.messages ≤ mq.buffer.size
  weight-le-size = omega (
    arith,
    length-le-size mq.buffer (frames box.messages) c.bytes.shape,
    length-frames box.messages,
  )

-- How a call that came to `step` answers a verdict: with that reply, or by going to sleep.
abbrev pub Agrees : Verdict × Mailbox → Step Backend → Type 0
Agrees (gives reply, box) (returned reply' mq calls) = (reply' ≡ reply) × Carries mq box
Agrees (gives reply, box) (blocked mq calls) = ⊥
Agrees (waits, box) (returned reply mq calls) = ⊥
Agrees (waits, box) (blocked mq calls) = Carries mq box

pub Carries-raise :
    (mask : ℕ) (mq : Backend) (box : Mailbox) → Carries mq box → Carries (raise mask mq) box
unfolding raise
Carries-raise mask mq box c = record {
  bytes = c.bytes;
  filled = c.filled;
  list_idle = c.list_idle;
  capacity = c.capacity;
  readers_gone = c.readers_gone;
  writers_gone = c.writers_gone;
}

pub Carries-lower :
    (mask : ℕ) (mq : Backend) (box : Mailbox) → Carries mq box → Carries (lower mask mq) box
unfolding lower
Carries-lower mask mq box c = record {
  bytes = c.bytes;
  filled = c.filled;
  list_idle = c.list_idle;
  capacity = c.capacity;
  readers_gone = c.readers_gone;
  writers_gone = c.writers_gone;
}

-- More calls at the start of a step do not matter to what it answers.
pub after-Agrees :
    (verdict : Verdict × Mailbox) (calls : List Sync) (step : Step Backend)
    → Agrees verdict step
    → Returns (Agrees verdict) (after calls step)
after-Agrees (gives reply, box) calls (returned reply' mq more) a = a
after-Agrees (gives reply, box) calls (blocked mq more) a = a
after-Agrees (waits, box) calls (returned reply mq more) a = a
after-Agrees (waits, box) calls (blocked mq more) a = a

-- The mailbox is known from the backend and the messages.
abbrev pub view : Backend → List (List ℕ) → Mailbox
view mq messages = record {
  capacity = mq.buffer.size;
  messages = messages;
  readers_gone = mq.no_readers;
  writers_gone = mq.no_writers;
}

pub view-Carries : (mq : Backend) (box : Mailbox) → Carries mq box → view mq box.messages ≡ box
view-Carries mq box c = λ i. record {
  capacity = c.capacity i;
  messages = box.messages;
  readers_gone = c.readers_gone i;
  writers_gone = c.writers_gone i;
}

-- The same test on both sides.
pub agree_if :
    (b : Bool) (x y : Verdict × Mailbox) (x' y' : Run (Step Backend))
    → (b ≡ true → Returns (Agrees x) x')
    → (b ≡ false → Returns (Agrees y) y')
    → Returns (Agrees (if b then x else y)) (if b then x' else y')
agree_if true x y x' y' t f = t refl
agree_if false x y x' y' t f = f refl
