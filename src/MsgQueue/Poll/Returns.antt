-- ===== src/MsgQueue/Poll/Returns.antt =====
-- What a call of `msg_queue_poll` counts, when it sleeps, what it leaves, and who wakes it.
use uoft_operating_systems.Common.{
  ℕ, zero, suc, ◌+◌, ◌/◌, ◌%◌, ◌^◌, ◌<◌, ◌≡◌, refl, sym, ap, ◌∙◌, arith, Bool, true, false, not,
  ◌&&◌, ◌||◌, none, List, [], ◌∷◌, ◌++◌, length, ok, Returns, Returns-bind, ltb, ◌==◌,
  if◌then◌else◌, eq→==, ne→==, lt→ltb, Bool-cases, inl, inr,
}
use Prim.Native.Nat.{bit_and, bit_or}
use uoft_operating_systems.Common.Bits.{bit_and-digit, bit_and-one, bit_and_seven}
use uoft_operating_systems.Common.Words.{
  on, word, any, bit_and-word, bit_or-word, word-any, word-lt, word-ext,
}
use uoft_operating_systems.MsgQueue.Handle.{reader_flag, writer_flag, has, get_flags}
use uoft_operating_systems.MsgQueue.Sync.{value}
use uoft_operating_systems.MsgQueue.Backend.{WaitingNode, Backend}
use uoft_operating_systems.MsgQueue.Poll.{Pollfd}
use uoft_operating_systems.MsgQueue.Poll.Wait.{
  reported, counts, helper_count, unregister, PollStep, finished, sleeping, poll_count, poll_end,
  poll_woken,
}
use uoft_operating_systems.MsgQueue.Poll.Nodes.{target, AllPoint, own, with_waiting}
use uoft_operating_systems.MsgQueue.Poll.Leave.{NotBefore, unregister_exact}

-- How far a call sees the queues: `views i q` is the queue `q` when the entry `i` is looked at.
abbrev pub Views : Type 0
Views = ℕ → ℕ → Backend

-- A requested event is on: a digit below the sign that is 1 in the events of the queue and in those
-- of the entry.
unfoldable pub ready : ℕ → Pollfd → Bool
unfolding on any
ready current fd = any 31 (λ j. on j current && on j fd.events)

-- MQPOLL_NOREADERS and MQPOLL_NOWRITERS, as the places of their digits.
abbrev pub hangup : ℕ → Bool
hangup (suc (suc zero)) = true
hangup (suc (suc (suc zero))) = true
hangup _ = false

-- The handle of an entry is a reader's or a writer's: one of its two lowest digits is 1.
unfoldable pub holds : Pollfd → Bool
unfolding on
holds fd = on 0 fd.queue || on 1 fd.queue

-- The events to be reported: those that are on in the queue and either requested or, on a reader or a
-- writer, the two that tell of the end of a side.
unfoldable pub due : ℕ → Pollfd → ℕ
unfolding on word holds
due current fd = word 31 (λ j. on j current && (on j fd.events || (holds fd && hangup j)))

-- The number of the entries, from `i` on, that are not skipped and have a requested event on.
unfoldable pub pending : Views → ℕ → List Pollfd → ℕ
unfolding ready
pending views i [] = 0
pending views i (fd ∷ fds) =
    (if not (fd.queue == 0) && ready (views i (target fd)).queue_event fd then 1 else 0)
    + pending views (suc i) fds

-- The entries with `revents` of what is to be reported.
unfoldable pub answered : Views → ℕ → List Pollfd → List Pollfd
unfolding due
answered views i [] = []
answered views i (fd ∷ fds) =
    (if fd.queue == 0 then fd else record fd { revents = due (views i (target fd)).queue_event fd })
    ∷ answered views (suc i) fds

-- The events of every entry are an int that is not negative.
abbrev pub AllEvents : List Pollfd → Type 0
AllEvents [] = Unit {0}
AllEvents (fd ∷ fds) = (fd.events < 2 ^ 31) × AllEvents fds

requested_word :
    (current : ℕ) (fd : Pollfd)
    → fd.events < 2 ^ 31
    → bit_and current fd.events ≡ word 31 (λ j. on j current && on j fd.events)
requested_word current fd h = bit_and-word 31 current fd.events h

counts-ready :
    (current : ℕ) (fd : Pollfd) → fd.events < 2 ^ 31 → counts current fd ≡ ready current fd
unfolding counts ready
counts-ready current fd h =
    let f : ℕ → Bool = λ j. on j current && on j fd.events in
    ap (λ w. not (w == 0) && ltb w (2 ^ 31)) (requested_word current fd h)
    ∙ rw (word-any 31 f, lt→ltb (word 31 f) (2 ^ 31) (word-lt 31 f)) (twice (any 31 f))
  where
    twice : (b : Bool) → (not (not b) && true) ≡ b
    twice true = refl
    twice false = refl

-- The digits of the mask.
none_on : (j : ℕ) → on j 0 ≡ false
unfolding on
none_on zero = refl
none_on (suc j) = none_on j

twelve : (j : ℕ) → on j 12 ≡ hangup j
unfolding on
twelve zero = refl
twelve (suc zero) = refl
twelve (suc (suc zero)) = refl
twelve (suc (suc (suc zero))) = refl
twelve (suc (suc (suc (suc j)))) = none_on j

low_two : (queue : ℕ) → bit_and (bit_and queue 7) 3 ≡ queue % 4
low_two queue = omega (
  arith,
  bit_and-digit (bit_and queue 7) 3,
  bit_and-one (bit_and queue 7 / 2),
  bit_and_seven queue,
)

-- The test of the flags.
holds_exact : (fd : Pollfd) → has (get_flags fd.queue) (bit_or reader_flag writer_flag) ≡ holds fd
unfolding has get_flags holds on
holds_exact fd = ap (λ w. not (w == 0)) (low_two fd.queue) ∙ ground arith

-- One digit.
requested_too : (c e g : Bool) → ((c && e) || (c && g)) ≡ (c && (e || (true && g)))
requested_too true e g = refl
requested_too false e g = refl

requested_only : (c e g : Bool) → (c && e) ≡ (c && (e || (false && g)))
requested_only true true g = refl
requested_only true false g = refl
requested_only false e g = refl

reported-due :
    (current : ℕ) (fd : Pollfd) → fd.events < 2 ^ 31 → reported current fd ≡ due current fd
unfolding reported due
reported-due current fd h =
    let f : ℕ → Bool = λ j. on j current && on j fd.events in
    let g : ℕ → Bool = λ j. on j current && on j 12 in
    rw (holds_exact fd, requested_word current fd h)
      (elim (Bool-cases (holds fd)) [
        | inl yes' ↦ rw yes' (
            ap (λ w. bit_or (word 31 f) w) (bit_and-word 31 current 12 (omega arith))
            ∙ bit_or-word 31 f g
            ∙ word-ext 31 _ _ (λ j.
              requested_too (on j current) (on j fd.events) (on j 12)
              ∙ ap (λ m. on j current && (on j fd.events || (true && m))) (twelve j)))
        | inr no' ↦
            rw no'
              (word-ext 31 _ _ (λ j. requested_only (on j current) (on j fd.events) (hangup j)))
      ])

helper_count_exact :
    (views : Views) (i : ℕ) (fds : List Pollfd)
    → AllPoint fds
    → AllEvents fds
    → helper_count views i fds ≡ ok (pending views i fds, answered views i fds)
unfolding helper_count pending answered
helper_count_exact views i [] p e = refl
helper_count_exact views i (fd ∷ fds) (p, ps) (e, es) = elim (Bool-cases (fd.queue == 0)) [
  | inl null ↦
      rw (null, helper_count_exact views (suc i) fds ps es)
        (ap (λ n. ok (n, fd ∷ answered views (suc i) fds)) (omega arith))
  | inr live ↦
      rw
        (
          live,
          p (λ e. ground arith),
          helper_count_exact views (suc i) fds ps es,
          counts-ready (views i (target fd)).queue_event fd e,
          reported-due (views i (target fd)).queue_event fd e,
        )
        refl
]

length-answered :
    (views : Views) (i : ℕ) (fds : List Pollfd) → length (answered views i fds) ≡ length fds
unfolding answered
length-answered views i [] = refl
length-answered views i (fd ∷ fds) = ap suc (length-answered views (suc i) fds)

answered-AllPoint :
    (views : Views) (i : ℕ) (fds : List Pollfd) → AllPoint fds → AllPoint (answered views i fds)
unfolding answered
answered-AllPoint views i [] p = tt
answered-AllPoint views i (fd ∷ fds) (p, ps) = elim (Bool-cases (fd.queue == 0)) [
  | inl e ↦ rw e (p, answered-AllPoint views (suc i) fds ps)
  | inr e ↦ rw e (p, answered-AllPoint views (suc i) fds ps)
]

own-answered :
    (node : ℕ → ℕ) (i : ℕ) (views : Views) (k : ℕ) (fds : List Pollfd) (q : ℕ)
    → own node i (answered views k fds) q ≡ own node i fds q
unfolding own answered
own-answered node i views k [] q = refl
own-answered node i views k (fd ∷ fds) q = elim (Bool-cases (fd.queue == 0)) [
  | inl e ↦ rw e (rw (e, own-answered node (suc i) views (suc k) fds q) refl)
  | inr e ↦ rw e (rw (e, own-answered node (suc i) views (suc k) fds q) refl)
]

-- The call has returned, and on each queue the nodes of the others are left.
abbrev pub Left :
    Views → (ℕ → Backend) → List Pollfd → (pre post : ℕ → List WaitingNode) → PollStep → Type 0
Left views queues fds pre post step =
    (queues' : ℕ → Backend) × (step
      ≡ finished (value (pending views 0 fds)) none (answered views 0 fds) queues')
    × ((q : ℕ) → queues' q ≡ with_waiting (queues q) (pre q ++ post q))

-- The nodes on the queues: those of the call, and before and behind them those of others.
abbrev pub Waits :
    (ℕ → ℕ) → List Pollfd → (ℕ → Backend) → (pre post : ℕ → List WaitingNode) → Type 0
Waits node fds queues pre post =
    AllPoint fds
    × NotBefore node (length fds) pre
    × ((q : ℕ) → (queues q).waiting ≡ pre q ++ (own node 0 fds q ++ post q))

poll_end-Left :
    (node : ℕ → ℕ) (fds : List Pollfd) (views : Views) (queues : ℕ → Backend)
    (pre post : ℕ → List WaitingNode)
    → Waits node fds queues pre post
    → Returns
        (Left views queues fds pre post)
        (poll_end node (pending views 0 fds) (answered views 0 fds) queues)
unfolding poll_end
poll_end-Left node fds views queues pre post (p, before, h) =
    Returns-bind
      (λ (queues' : ℕ → Backend). (q : ℕ) → queues' q ≡ with_waiting (queues q) (pre q ++ post q))
      (Left views queues fds pre post) (unregister node 0 (answered views 0 fds) queues) _
      (unregister_exact node 0 (length fds) (answered views 0 fds) queues pre post before
        (omega (arith, length-answered views 0 fds)) (answered-AllPoint views 0 fds p)
        (λ q. h q ∙ ap (λ l. pre q ++ (l ++ post q)) (sym (own-answered node 0 views 0 fds q))))
      (λ queues' left. (queues', refl, left))

-- After a wakeup, with each entry that is not skipped pointing somewhere, no `events` negative, and
-- the nodes of the call on their queues between others, none of those before at the address of one
-- of its own, the call returns, whatever is on in the queues as each entry finds them: the number of
-- the entries of which a requested event is on, with `revents` of the events that are on and requested,
-- and of the ends of a side that are on, if the handle is a reader's or a writer's; and on each
-- queue the nodes of the others are left, with nothing else changed.
pub poll_woken-Left :
    (node : ℕ → ℕ) (fds : List Pollfd) (views : Views) (queues : ℕ → Backend)
    (pre post : ℕ → List WaitingNode)
    → Waits node fds queues pre post
    → AllEvents fds
    → Returns (Left views queues fds pre post) (poll_woken node fds views queues)
unfolding poll_woken
poll_woken-Left node fds views queues pre post w events =
    rw (helper_count_exact views 0 fds w.0 events) (poll_end-Left node fds views queues pre post w)

-- How far a count comes when so many entries have a requested event on.
abbrev pub Counted :
    ℕ → Views → (ℕ → Backend) → List Pollfd → (pre post : ℕ → List WaitingNode) → PollStep → Type 0
Counted zero views queues fds pre post step = step ≡ sleeping (answered views 0 fds) queues
Counted (suc _) views queues fds pre post step = Left views queues fds pre post step

after_count :
    (n : ℕ) (node : ℕ → ℕ) (fds : List Pollfd) (views : Views) (queues : ℕ → Backend)
    (pre post : ℕ → List WaitingNode)
    → Waits node fds queues pre post
    → AllEvents fds
    → pending views 0 fds ≡ n
    → Returns (Counted n views queues fds pre post) (poll_count node fds views queues)
unfolding poll_count
after_count zero node fds views queues pre post w events e =
    rw (helper_count_exact views 0 fds w.0 events, eq→== (pending views 0 fds) 0 e) refl
after_count (suc n) node fds views queues pre post w events e =
    rw
      (
        helper_count_exact views 0 fds w.0 events,
        ne→== (pending views 0 fds) 0 (λ z. omega (arith, e, z)),
      )
      (poll_end-Left node fds views queues pre post w)

-- With each entry that is not skipped pointing somewhere, no `events` negative, and the nodes of the
-- call on their queues between others, none of those before at the address of one of its own, a call
-- goes to sleep with its nodes on the queues just if no requested event is on in the queues as each
-- entry finds them, and else returns: the number of the entries of which one is on, and on each queue
-- the nodes of the others, with nothing else changed. Both leave `revents` of the events that are on
-- and requested, and of the ends of a side that are on, if the handle is a reader's or a writer's.
pub poll_count-Counted :
    (node : ℕ → ℕ) (fds : List Pollfd) (views : Views) (queues : ℕ → Backend)
    (pre post : ℕ → List WaitingNode)
    → Waits node fds queues pre post
    → AllEvents fds
    → Returns
        (Counted (pending views 0 fds) views queues fds pre post)
        (poll_count node fds views queues)
poll_count-Counted node fds views queues pre post w events =
    after_count (pending views 0 fds) node fds views queues pre post w events refl
