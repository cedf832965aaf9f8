-- ===== src/MsgQueue/Receive/Loop.antt =====
-- The loop of `msg_queue_read`, its tests and its ends.
use uoft_operating_systems.Common.{
  ℕ, ◌+◌, ◌≡◌, refl, ap, ◌∙◌, Bool, true, false, not, ◌&&◌, none, some, List, [], ◌∷◌, inl, inr,
  arith, length, if◌then◌else◌, Bool-cases, ne→==, Run, ok, Returns,
}
use mathlib.Core.Path.{subst}
use uoft_operating_systems.MsgQueue.Handle.{nonblock_flag, has}
use uoft_operating_systems.MsgQueue.Sync.{
  unlock, wait_space_empty, eagain, value, minus_one, Step, returned, blocked,
}
use uoft_operating_systems.MsgQueue.Backend.{Backend, test_empty, nowriters_event}
use uoft_operating_systems.MsgQueue.Receive.{
  read_message, read_eof, read_ready, read_loop, read_locked,
}
use uoft_operating_systems.MsgQueue.Mailbox.{Mailbox, weight, gives, take_from, on_empty}
use uoft_operating_systems.MsgQueue.Receive.Front.{read_message-front}
use uoft_operating_systems.MsgQueue.Carries.{Carries, Agrees, test_empty-Carries, Carries-raise}

abbrev pub is_nil : List (List ℕ) → Bool
is_nil [] = true
is_nil (message ∷ messages) = false

module _ (self : ℕ) (mq : Backend) (box : Mailbox) where
  test_empty-nil : Carries mq (record box { messages = [] }) → test_empty self mq ≡ (true, mq)
  unfolding weight
  test_empty-nil c = test_empty-Carries self mq (record box { messages = [] }) c

  test_empty-cons :
      (m : List ℕ) (ms : List (List ℕ))
      → Carries mq (record box { messages = m ∷ ms })
      → test_empty self mq ≡ (false, mq)
  unfolding weight
  test_empty-cons m ms c =
      test_empty-Carries self mq (record box { messages = m ∷ ms }) c
      ∙ ap (λ b. (b, mq)) (ne→== (8 + length m + weight ms) 0 (λ e. omega arith))

  read_eof-Agrees :
      Carries mq (record box { messages = [] })
      → Returns
          (Agrees (
            gives (record { ret = value 0; errno = none; stored = [] }),
            record box { messages = [] },
          ))
          (ok (read_eof mq))
  unfolding read_eof
  read_eof-Agrees c = (refl, Carries-raise nowriters_event mq (record box { messages = [] }) c)

  -- What follows the loop, as a function of its test.
  ready_at :
      (empty : Bool)
      → test_empty self mq ≡ (empty, mq)
      → (len : ℕ)
      → read_ready self mq len
        ≡ (if empty && mq.no_writers then ok (read_eof mq) else read_message self mq len)
  unfolding read_ready
  ready_at empty e len =
      ap
        (λ (t : Bool × Backend).
          if t.0 && t.1.no_writers then ok (read_eof t.1) else read_message self t.1 len)
        e

  -- The loop, as a function of its two tests.
  loop_body : ℕ → ℕ → Bool → Bool → Run (Step Backend)
  loop_body flags len empty gone =
      if not gone && empty
      then (if has flags nonblock_flag
          then ok (
              returned (record { ret = minus_one; errno = some eagain; stored = [] }) mq
                (unlock ∷ []))
          else ok (blocked mq (wait_space_empty ∷ [])))
      else if empty && gone
      then ok (read_eof mq)
      else read_message self mq len

  picked :
      (gone empty : Bool)
      → ◌≡◌ {A = Bool × Backend} (if gone then (false, mq) else (empty, mq)) (not gone && empty, mq)
  picked true empty = refl
  picked false empty = refl

  loop_at :
      (flags len : ℕ) (empty : Bool)
      → test_empty self mq ≡ (empty, mq)
      → read_loop self flags mq len ≡ loop_body flags len empty mq.no_writers
  unfolding read_loop loop_body
  loop_at flags len empty e =
      ap
        (λ (t : Bool × Backend).
          if t.0
          then (if has flags nonblock_flag
              then ok (
                  returned (record { ret = minus_one; errno = some eagain; stored = [] }) t.1
                    (unlock ∷ []))
              else ok (blocked t.1 (wait_space_empty ∷ [])))
          else read_ready self t.1 len)
        (ap (λ t. if mq.no_writers then (false, mq) else t) e ∙ picked mq.no_writers empty)
      ∙ ap
          (λ r.
            if not mq.no_writers && empty
            then (if has flags nonblock_flag
                then ok (
                    returned (record { ret = minus_one; errno = some eagain; stored = [] }) mq
                      (unlock ∷ []))
                else ok (blocked mq (wait_space_empty ∷ [])))
            else r)
          (ready_at empty e len)

  -- The whole critical section: the test before the loop only comes to the same end sooner.
  locked_at :
      (flags len : ℕ) (empty : Bool)
      → test_empty self mq ≡ (empty, mq)
      → read_locked self flags mq len ≡ loop_body flags len empty mq.no_writers
  unfolding read_locked loop_body
  locked_at flags len empty e =
      ap (λ (t : Bool × Backend). if t.0 then ok (read_eof t.1) else read_loop self flags t.1 len)
        (ap (λ t. if mq.no_writers then t else (false, mq)) e ∙ before mq.no_writers empty)
      ∙ ap (λ r. if mq.no_writers && empty then ok (read_eof mq) else r) (loop_at flags len empty e)
      ∙ same mq.no_writers empty
    where
      before :
          (gone empty : Bool)
          → ◌≡◌ {A = Bool × Backend} (if gone then (empty, mq) else (false, mq)) (gone && empty, mq)
      before true empty = refl
      before false empty = refl

      same :
          (gone empty : Bool)
          → (if gone && empty then ok (read_eof mq) else loop_body flags len empty gone)
            ≡ loop_body flags len empty gone
      same true true = refl
      same true false = refl
      same false empty = refl

  nil_refines :
      (flags len : ℕ) (gone : Bool)
      → Carries mq (record box { messages = [] })
      → Returns
          (Agrees (on_empty flags (record box { messages = [] }) gone))
          (loop_body flags len true gone)
  unfolding on_empty loop_body
  nil_refines flags len true c = read_eof-Agrees c
  nil_refines flags len false c = elim (Bool-cases (has flags nonblock_flag)) [
    | inl non ↦ rw non (refl, c)
    | inr block ↦ rw block c
  ]

  cons_at :
      (flags len : ℕ) (gone : Bool) → loop_body flags len false gone ≡ read_message self mq len
  unfolding loop_body
  cons_at flags len true = refl
  cons_at flags len false = refl

  -- The critical section, entered or gone on with, does what the mailbox does.
  loop_body-refines :
      (msgs : List (List ℕ)) (flags len : ℕ)
      → Carries mq (record box { messages = msgs })
      → Returns
          (Agrees (take_from flags len (record box { messages = msgs }) msgs))
          (loop_body flags len (is_nil msgs) mq.no_writers)
  unfolding take_from
  loop_body-refines [] flags len c =
      subst
        (λ b.
          Returns (Agrees (on_empty flags (record box { messages = [] }) b))
            (loop_body flags len true mq.no_writers))
        c.writers_gone (nil_refines flags len mq.no_writers c)
  loop_body-refines (m ∷ ms) flags len c =
      rw (cons_at flags len mq.no_writers) (read_message-front self mq box m ms len c flags)

  pub test_empty-is_nil :
      (msgs : List (List ℕ))
      → Carries mq (record box { messages = msgs })
      → test_empty self mq ≡ (is_nil msgs, mq)
  test_empty-is_nil [] c = test_empty-nil c
  test_empty-is_nil (m ∷ ms) c = test_empty-cons m ms c

  pub read_locked-refines :
      (flags len : ℕ)
      → Carries mq box
      → Returns (Agrees (take_from flags len box box.messages)) (read_locked self flags mq len)
  read_locked-refines flags len c =
      rw (locked_at flags len (is_nil box.messages) (test_empty-is_nil box.messages c))
        (loop_body-refines box.messages flags len c)

  -- The loop of `msg_queue_read`, entered or gone on with after a wakeup, on a backend that carries
  -- `box`: it comes to its return or to its `cond_wait` with no failed assertion and no access out of
  -- bounds of the queue, and answers and leaves what `take_from` does. A message longer than `len` is
  -- stored whole, so past the end of the caller's buffer, as `take_from` has it.
  pub read_loop-refines :
      (flags len : ℕ)
      → Carries mq box
      → Returns (Agrees (take_from flags len box box.messages)) (read_loop self flags mq len)
  read_loop-refines flags len c =
      rw (loop_at flags len (is_nil box.messages) (test_empty-is_nil box.messages c))
        (loop_body-refines box.messages flags len c)
