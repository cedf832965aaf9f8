-- ===== src/MsgQueue/Poll/Wakes.antt =====
-- How a call of `msg_queue_poll` enters its nodes, and whom `helper_wakeup` then signals: the call
-- sleeps on its node 0.
use uoft_operating_systems.Common.{
  ℕ, suc, ◌<◌, ◌≡◌, refl, sym, ap, ◌∙◌, arith, Bool, true, false, not, ◌&&◌, ◌||◌, Option, none,
  some, List, [], ◌∷◌, ◌++◌, Returns, Returns-bind, ◌==◌, eq→==, ne→==, Bool-cases, inl, inr,
}
use uoft_operating_systems.MsgQueue.Handle.{has}
use uoft_operating_systems.MsgQueue.Sync.{Sync, notify, Errno, enomem, minus_one}
use uoft_operating_systems.MsgQueue.Backend.{WaitingNode, Backend, wakeups, helper_wakeup}
use uoft_operating_systems.MsgQueue.Poll.{Pollfd, poll_checks}
use uoft_operating_systems.MsgQueue.Poll.Wait.{PollStep, finished, counting, register, poll_begin}
use uoft_operating_systems.MsgQueue.Poll.Nodes.{target, AllPoint, own, with_waiting, register_exact}
use uoft_operating_systems.MsgQueue.Poll.Leave.{Absent}

-- The call has its nodes on the queues, behind those that were there.
abbrev pub Entered : (ℕ → ℕ) → List Pollfd → (ℕ → Backend) → PollStep → Type 0
Entered node fds queues step =
    (queues' : ℕ → Backend) × (step ≡ counting fds queues')
    × ((q : ℕ) → queues' q ≡ with_waiting (queues q) ((queues q).waiting ++ own node 0 fds q))

-- How far the call has come, by the answers of the tests and of `malloc`.
abbrev pub Begun : Option Errno → Option (ℕ → ℕ) → List Pollfd → (ℕ → Backend) → PollStep → Type 0
Begun (some e) nodes fds queues step = step ≡ finished minus_one (some e) fds queues
Begun none none fds queues step = step ≡ finished minus_one (some enomem) fds queues
Begun none (some node) fds queues step = Entered node fds queues step

after_checks :
    (errno : Option Errno) (nodes : Option (ℕ → ℕ)) (fds : List Pollfd) (queues : ℕ → Backend)
    → AllPoint (poll_checks fds).1
    → (poll_checks fds).0 ≡ errno
    → Returns (Begun errno nodes (poll_checks fds).1 queues) (poll_begin nodes fds queues)
unfolding poll_begin
after_checks (some e) nodes fds queues points refused = rw (refused, poll_begin) refl
after_checks none none fds queues points passed = rw (passed, poll_begin) refl
after_checks none (some node) fds queues points passed =
    rw (passed, poll_begin)
      (Returns-bind
        (λ (queues' : ℕ → Backend).
          (q : ℕ)
          → queues' q
            ≡ with_waiting (queues q) ((queues q).waiting ++ own node 0 (poll_checks fds).1 q))
        (Entered node (poll_checks fds).1 queues) (register node 0 (poll_checks fds).1 queues) _
        (register_exact node 0 (poll_checks fds).1 queues points) (λ queues' h. (queues', refl, h)))

-- With each entry that is not skipped pointing somewhere, a call whose entries the tests refuse
-- returns -1 with their `errno`, and one for whose nodes there is no memory -1 with ENOMEM, and
-- neither touches a queue. Any other comes to its count with a node for each entry that is not
-- skipped at the end of that queue's nodes, in the order of the entries, and changes nothing else.
pub poll_begin-Begun :
    (nodes : Option (ℕ → ℕ)) (fds : List Pollfd) (queues : ℕ → Backend)
    → AllPoint (poll_checks fds).1
    → Returns
        (Begun (poll_checks fds).0 nodes (poll_checks fds).1 queues)
        (poll_begin nodes fds queues)
poll_begin-Begun nodes fds queues points =
    after_checks (poll_checks fds).0 nodes fds queues points refl

-- Whether the node at the address is signalled.
unfoldable pub notified : ℕ → List Sync → Bool
notified a [] = false
notified a (notify b ∷ calls) = (a == b) || notified a calls
notified a (_ ∷ calls) = notified a calls

-- Whether a node at the address asks for an event that is on.
unfoldable pub asked : ℕ → ℕ → List WaitingNode → Bool
asked a event [] = false
asked a event (node ∷ nodes) = ((a == node.address) && has node.events event) || asked a event nodes

notified-wakeups :
    (a event : ℕ) (nodes : List WaitingNode)
    → notified a (wakeups event nodes) ≡ asked a event nodes
unfolding notified asked wakeups
notified-wakeups a event [] = refl
notified-wakeups a event (node ∷ nodes) = elim (Bool-cases (has node.events event)) [
  | inl e ↦ rw (e, notified-wakeups a event nodes) (grind arith)
  | inr e ↦ rw (e, notified-wakeups a event nodes) (grind arith)
]

or_assoc : (a b c : Bool) → ((a || b) || c) ≡ (a || (b || c))
or_assoc true b c = refl
or_assoc false b c = refl

asked-append :
    (a event : ℕ) (xs ys : List WaitingNode)
    → asked a event (xs ++ ys) ≡ (asked a event xs || asked a event ys)
unfolding asked
asked-append a event [] ys = refl
asked-append a event (x ∷ xs) ys =
    ap (λ b. ((a == x.address) && has x.events event) || b) (asked-append a event xs ys)
    ∙ sym (or_assoc ((a == x.address) && has x.events event) (asked a event xs) (asked a event ys))

asked-Absent : (a event : ℕ) (xs : List WaitingNode) → Absent a xs → asked a event xs ≡ false
unfolding asked
asked-Absent a event [] p = refl
asked-Absent a event (x ∷ xs) (p, ps) =
    rw (ne→== a x.address (λ e. p (sym e))) (asked-Absent a event xs ps)

-- The nodes are at different addresses.
abbrev pub Apart : (ℕ → ℕ) → Type 0
Apart node = (a b : ℕ) → node a ≡ node b → a ≡ b

own-Absent :
    (node : ℕ → ℕ) (i j : ℕ) (fds : List Pollfd) (q : ℕ)
    → Apart node
    → j < i
    → Absent (node j) (own node i fds q)
unfolding own
own-Absent node i j [] q apart lt = tt
own-Absent node i j (fd ∷ fds) q apart lt =
    let rest = own-Absent node (suc i) j fds q apart (omega (arith, lt)) in
    elim (Bool-cases (not (fd.queue == 0) && (q == target fd))) [
      | inl e ↦ rw e ((λ h. omega (arith, lt, apart i j h)), rest)
      | inr e ↦ rw e rest
    ]

asked-own :
    (node : ℕ → ℕ) (event : ℕ) (fd : Pollfd) (fds : List Pollfd) (q : ℕ)
    → Apart node
    → asked (node 0) event (own node 0 (fd ∷ fds) q)
      ≡ ((not (fd.queue == 0) && (q == target fd)) && has fd.events event)
unfolding asked own
asked-own node event fd fds q apart =
    let rest =
      asked-Absent (node 0) event (own node 1 fds q)
        (own-Absent node 1 0 fds q apart (omega arith)) in
    elim (Bool-cases (not (fd.queue == 0) && (q == target fd))) [
      | inl e ↦ rw (e, eq→== (node 0) (node 0) refl, rest) (or_false (has fd.events event))
      | inr e ↦ rw (e, rest) refl
    ]
  where
    or_false : (b : Bool) → (b || false) ≡ b
    or_false true = refl
    or_false false = refl

-- While a call with the nodes `node` and the entries `fd ∷ fds` waits, and its nodes are at addresses
-- of their own, `helper_wakeup` on the queue `q` signals the node 0, on which the call sleeps, just if the
-- first entry is not skipped, points to `q`, and asks for an event that is on there. No other entry
-- wakes the call, whatever happens on its queue.
pub helper_wakeup-first :
    (node : ℕ → ℕ) (fd : Pollfd) (fds : List Pollfd) (mq : Backend) (q : ℕ)
    (pre post : List WaitingNode)
    → Apart node
    → Absent (node 0) pre
    → Absent (node 0) post
    → mq.waiting ≡ pre ++ (own node 0 (fd ∷ fds) q ++ post)
    → notified (node 0) (helper_wakeup mq)
      ≡ ((not (fd.queue == 0) && (q == target fd)) && has fd.events mq.queue_event)
unfolding helper_wakeup
helper_wakeup-first node fd fds mq q pre post apart before behind h =
    notified-wakeups (node 0) mq.queue_event mq.waiting
    ∙ ap (asked (node 0) mq.queue_event) h
    ∙ asked-append (node 0) mq.queue_event pre (own node 0 (fd ∷ fds) q ++ post)
    ∙ rw
        (
          asked-Absent (node 0) mq.queue_event pre before,
          asked-append (node 0) mq.queue_event (own node 0 (fd ∷ fds) q) post,
          asked-Absent (node 0) mq.queue_event post behind,
          asked-own node mq.queue_event fd fds q apart,
        )
        (or_false ((not (fd.queue == 0) && (q == target fd)) && has fd.events mq.queue_event))
  where
    or_false : (b : Bool) → (b || false) ≡ b
    or_false true = refl
    or_false false = refl
