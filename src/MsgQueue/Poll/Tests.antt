-- ===== src/MsgQueue/Poll/Tests.antt =====
-- The tests of `msg_queue_poll` on three entries, and a whole call on three others.
use uoft_operating_systems.Common.{
  ℕ, ◌+◌, ◌*◌, ◌≡◌, ◌≢◌, refl, not, ◌&&◌, none, some, List, [], ◌∷◌, ◌++◌, arith, length, ◌==◌,
  false, if◌then◌else◌, Returns,
}
use uoft_operating_systems.MsgQueue.Handle.{has, get_flags, get_backend}
use uoft_operating_systems.MsgQueue.Sync.{einval}
use uoft_operating_systems.MsgQueue.Backend.{WaitingNode, Backend, helper_wakeup}
use uoft_operating_systems.MsgQueue.Poll.{
  Pollfd, check_from, poll_checks, all_acceptable, skipped, cleared, poll_checks_exact,
}
use uoft_operating_systems.MsgQueue.Poll.Wait.{poll_begin, poll_count, poll_woken}
use uoft_operating_systems.MsgQueue.Poll.Nodes.{AllPoint, own}
use uoft_operating_systems.MsgQueue.Poll.Returns.{
  pending, Left, Counted, poll_woken-Left, Counted, poll_count-Counted,
}
use uoft_operating_systems.MsgQueue.Poll.Wakes.{
  Begun, poll_begin-Begun, notified, helper_wakeup-first,
}

-- A reader, an entry that is skipped, and a writer that asks to read.
abbrev entries : List Pollfd
entries =
    record { queue = 25; events = 1; revents = 77 }
    ∷ record { queue = 0; events = 0; revents = 3 }
    ∷ record { queue = 26; events = 1; revents = 5 }
    ∷ []

poll_checks_exact_example : poll_checks entries ≡ (
  if all_acceptable entries && not (skipped entries == length entries) then none else some einval,
  cleared entries,
)
poll_checks_exact_example = poll_checks_exact entries (omega arith)

-- Readers of the queues at 24 and at 48, and an entry that is skipped.
abbrev readers : List Pollfd
readers =
    record { queue = 25; events = 1; revents = 0 }
    ∷ record { queue = 0; events = 0; revents = 0 }
    ∷ record { queue = 49; events = 1; revents = 0 }
    ∷ []

abbrev node : ℕ → ℕ
node j = 1000 + 100 * j

abbrev other : List WaitingNode
other = record { address = 8; events = 3 } ∷ []

-- Both queues have an event on.
abbrev backend : List WaitingNode → Backend
backend nodes = record {
  buffer = record {
    buffer = [];
    size = 0;
    head = 0;
    tail = 0;
    full = false;
    validator = record { owner = 0; reports = 0 };
  };
  refs = 1;
  readers = 1;
  writers = 0;
  no_readers = false;
  no_writers = false;
  queue_event = 1;
  waiting = nodes;
  list_validator = record { owner = 0; reports = 0 };
}

abbrev waiting_queues : ℕ → Backend
waiting_queues q = backend (other ++ (own node 0 readers q ++ []))

readers-AllPoint : AllPoint readers
unfolding get_backend
readers-AllPoint = ((λ live. refl), ((λ live. absurd (live refl)), ((λ live. refl), tt)))

readers-checked : poll_checks readers ≡ (none, readers)
unfolding poll_checks check_from has get_flags
readers-checked = refl

poll_begin-Begun_example :
    Returns
      (Begun (poll_checks readers).0 (some node) (poll_checks readers).1 (λ q. backend other))
      (poll_begin (some node) readers (λ q. backend other))
poll_begin-Begun_example =
    poll_begin-Begun (some node) readers (λ q. backend other) (rw readers-checked readers-AllPoint)

node_apart : (j : ℕ) → 8 ≢ node j
node_apart j e = omega (arith, e)

-- The queues as the entries find them: the events of one queue go on between the entries.
abbrev views : ℕ → ℕ → Backend
views i q = record (waiting_queues q) { queue_event = 8 * i }

poll_woken-Left_example :
    Returns
      (Left views waiting_queues readers (λ q. other) (λ q. []))
      (poll_woken node readers views waiting_queues)
poll_woken-Left_example =
    poll_woken-Left node readers views waiting_queues (λ q. other) (λ q. [])
      (readers-AllPoint, (λ q j lt. (node_apart j, tt)), λ q. refl)
      (omega arith, (omega arith, (omega arith, tt)))

poll_count-Counted_example :
    Returns
      (Counted
        (pending (λ i. waiting_queues) 0 readers)
        (λ i. waiting_queues)
        waiting_queues
        readers
        (λ q. other)
        (λ q. []))
      (poll_count node readers (λ i. waiting_queues) waiting_queues)
poll_count-Counted_example =
    poll_count-Counted node readers (λ i. waiting_queues) waiting_queues (λ q. other) (λ q. [])
      (readers-AllPoint, (λ q j lt. (node_apart j, tt)), λ q. refl)
      (omega arith, (omega arith, (omega arith, tt)))

-- The queue at 48 has the event on for which the third entry asks, and the call sleeps on.
helper_wakeup-first_example : notified 1000 (helper_wakeup (waiting_queues 48)) ≡ false
helper_wakeup-first_example =
    helper_wakeup-first node (record { queue = 25; events = 1; revents = 0 })
      (record { queue = 0; events = 0; revents = 0 }
        ∷ record { queue = 49; events = 1; revents = 0 }
        ∷ [])
      (waiting_queues 48) 48 other [] (λ a b e. omega (arith, e)) (node_apart 0, tt) tt refl
