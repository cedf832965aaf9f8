-- ===== src/MsgQueue/Fifo.antt =====
-- Threads that take turns at one message queue: reads and writes, entered or gone on with after a
-- wakeup, each up to its return or its `cond_wait`.
use uoft_operating_systems.Common.{
  ℕ, ◌<◌, ◌≤◌, ◌≡◌, Option, some, List, [], ◌∷◌, ◌++◌, length, Run, ok, ◌>>=◌,
}
use uoft_operating_systems.MsgQueue.Handle.{get_backend}
use uoft_operating_systems.MsgQueue.Sync.{
  Errno, eagain, Return, value, minus_one, Step, returned, blocked,
}
use uoft_operating_systems.MsgQueue.Backend.{Backend}
use uoft_operating_systems.MsgQueue.Receive.{read_loop, msg_queue_read}
use uoft_operating_systems.MsgQueue.Send.{write_loop, msg_queue_write}
use uoft_operating_systems.MsgQueue.Mailbox.{Mailbox}
use uoft_operating_systems.MsgQueue.Carries.{Carries}

-- One turn of a thread. `resume_…` is a thread that `cond_wait` gave the mutex back to.
pub data Turn : Type 0 where
  reads : (self queue len : ℕ) → Turn
  resumes_read : (self flags len : ℕ) → Turn
  writes : (self queue : ℕ) → List ℕ → Turn
  resumes_write : (self flags : ℕ) → List ℕ → Turn

unfoldable pub turn : Backend → Turn → Run (Step Backend)
turn mq (reads self queue len) = msg_queue_read self queue mq len
turn mq (resumes_read self flags len) = read_loop self flags mq len
turn mq (writes self queue bytes) = msg_queue_write self queue mq bytes
turn mq (resumes_write self flags bytes) = write_loop self flags mq bytes

abbrev pub backend_of : Step Backend → Backend
backend_of (returned reply mq calls) = mq
backend_of (blocked mq calls) = mq

-- The turns in order.
unfoldable pub run : Backend → List Turn → Run (List (Step Backend) × Backend)
run mq [] = ok ([], mq)
run mq (t ∷ ts) = do
  step ← turn mq t
  (steps, mq') ← run (backend_of step) ts
  ok (step ∷ steps, mq')

-- The message that a read hands over: what it stores, if it stores anything.
abbrev pub handed : List ℕ → List (List ℕ)
handed [] = []
handed (b ∷ bs) = (b ∷ bs) ∷ []

-- The message that a write has put in. It has also done so when it says EAGAIN: that is how
-- `msg_queue_write` ends on a handle in non-blocking mode.
abbrev pub accepted : List ℕ → Return → Option Errno → List (List ℕ)
accepted bytes (value n) e = bytes ∷ []
accepted bytes minus_one (some eagain) = bytes ∷ []
accepted bytes minus_one _ = []

abbrev pub taken : Turn → Step Backend → List (List ℕ)
taken (reads self queue len) (returned reply mq calls) = handed reply.stored
taken (resumes_read self flags len) (returned reply mq calls) = handed reply.stored
taken _ _ = []

abbrev pub put : Turn → Step Backend → List (List ℕ)
put (writes self queue bytes) (returned reply mq calls) = accepted bytes reply.ret reply.errno
put (resumes_write self flags bytes) (returned reply mq calls) =
    accepted bytes reply.ret reply.errno
put _ _ = []

-- All that was handed over, and all that was put in, in the order of the turns.
abbrev pub all_taken : List Turn → List (Step Backend) → List (List ℕ)
all_taken (t ∷ ts) (s ∷ ss) = taken t s ++ all_taken ts ss
all_taken _ _ = []

abbrev pub all_put : List Turn → List (Step Backend) → List (List ℕ)
all_put (t ∷ ts) (s ∷ ss) = put t s ++ all_put ts ss
all_put _ _ = []

-- What the callers owe, with a bound `n` on the messages: a handle with a backend, a message within the
-- bound, room for so many bytes in the buffer of a read, and, at a `cond_wait` of a write, a message
-- that got past the first tests.
abbrev pub Sound : ℕ → Turn → Type 0
Sound n (reads self queue len) = (address : ℕ) × (get_backend queue ≡ ok address) × (n ≤ len)
Sound n (resumes_read self flags len) = n ≤ len
Sound n (writes self queue bytes) =
    (address : ℕ) × (get_backend queue ≡ ok address) × (length bytes ≤ n)
Sound n (resumes_write self flags bytes) = (0 < length bytes) × (length bytes ≤ n)

abbrev pub AllSound : ℕ → List Turn → Type 0
AllSound n [] = Unit {0}
AllSound n (t ∷ ts) = Sound n t × AllSound n ts

abbrev pub AllWithin : ℕ → List (List ℕ) → Type 0
AllWithin n [] = Unit {0}
AllWithin n (message ∷ messages) = (length message ≤ n) × AllWithin n messages

-- What a read stores ends within the buffer of its caller. Then the message is not longer than
-- this buffer, and the read does not let go of the mutex before its end.
abbrev pub Fits : Turn → Step Backend → Type 0
Fits (reads self queue len) (returned reply mq calls) = length reply.stored ≤ len
Fits (resumes_read self flags len) (returned reply mq calls) = length reply.stored ≤ len
Fits _ _ = Unit {0}

abbrev pub AllFit : List Turn → List (Step Backend) → Type 0
AllFit (t ∷ ts) (s ∷ ss) = Fits t s × AllFit ts ss
AllFit _ _ = Unit {0}

-- The balance of one turn: what was there and what goes in is what comes out and what is left.
abbrev pub Balanced : Mailbox → Turn → Step Backend → Type 0
Balanced box t step =
    (box' : Mailbox) × Carries (backend_of step) box'
    × (box.messages ++ put t step ≡ taken t step ++ box'.messages)
