-- ===== src/MsgQueue/Poll/Wait.antt =====
-- The rest of `msg_queue_poll` of msg_queue.c, with `helper_count`: from the allocation of the waiting
-- nodes on. The queues are their backends by address. Other threads run between the steps: while the
-- nodes are entered the mutex of one queue at a time is held, and none while the events are counted. So
-- the count takes the queues as they are at each entry, `views i` at the entry `i`. The entering of the
-- nodes is one step, and so is their removal: steps of other threads within them are not modelled.
use Prim.Native.Nat.{bit_and, bit_or}
use uoft_operating_systems.Common.{
  ℕ, suc, ◌+◌, ◌^◌, Bool, not, ◌&&◌, Option, none, some, List, [], ◌∷◌, ◌++◌, Run, ok, ◌>>=◌, ltb,
  ◌==◌, if◌then◌else◌,
}
use uoft_operating_systems.Common.Update.{set}
use uoft_operating_systems.MsgQueue.Handle.{reader_flag, writer_flag, has, get_backend, get_flags}
use uoft_operating_systems.MsgQueue.Sync.{Errno, enomem, Return, value, minus_one}
use uoft_operating_systems.MsgQueue.Backend.{WaitingNode, Backend, noreaders_event, nowriters_event}
use uoft_operating_systems.MsgQueue.Poll.{Pollfd, poll_checks}

-- A node at the end of `queue_list_head`, and a node taken off it.
unfoldable pub enlist : WaitingNode → Backend → Backend
enlist node mq = record mq { waiting = mq.waiting ++ node ∷ [] }

unfoldable pub without : ℕ → List WaitingNode → List WaitingNode
without address [] = []
without address (node ∷ nodes) =
    let others = node ∷ without address nodes in if node.address == address then nodes else others

unfoldable pub delist : ℕ → Backend → Backend
unfolding without
delist address mq = record mq { waiting = without address mq.waiting }

-- The first loop, from the entry `i` on: `node i` is the address of `wt_nodes[i]`.
unfoldable pub register : (ℕ → ℕ) → ℕ → List Pollfd → (ℕ → Backend) → Run (ℕ → Backend)
unfolding enlist
register node i [] queues = ok queues
register node i (fd ∷ fds) queues =
    let skipped = register node (suc i) fds queues in
    let entered = get_backend fd.queue >>= λ mq.
    register node (suc i) fds
      (set queues mq (enlist (record { address = node i; events = fd.events }) (queues mq))) in
    if fd.queue == 0 then skipped else entered

-- The last loop.
unfoldable pub unregister : (ℕ → ℕ) → ℕ → List Pollfd → (ℕ → Backend) → Run (ℕ → Backend)
unfolding delist
unregister node i [] queues = ok queues
unregister node i (fd ∷ fds) queues =
    let skipped = unregister node (suc i) fds queues in
    let removed = get_backend fd.queue >>= λ mq.
    unregister node (suc i) fds (set queues mq (delist (node i) (queues mq))) in
    if fd.queue == 0 then skipped else removed

-- `revents`, and whether `current_event & events` is above 0 as an int.
unfoldable pub reported : ℕ → Pollfd → ℕ
reported current_event fd =
    let requested = bit_and current_event fd.events in
    if has (get_flags fd.queue) (bit_or reader_flag writer_flag)
    then bit_or requested (bit_and current_event (bit_or nowriters_event noreaders_event))
    else requested

unfoldable pub counts : ℕ → Pollfd → Bool
counts current_event fd =
    let requested = bit_and current_event fd.events in
    not (requested == 0) && ltb requested (2 ^ 31)

-- From the entry `i` on.
unfoldable pub helper_count : (ℕ → ℕ → Backend) → ℕ → List Pollfd → Run (ℕ × List Pollfd)
unfolding reported counts
helper_count views i [] = ok (0, [])
helper_count views i (fd ∷ fds) =
    let others = helper_count views (suc i) fds in
    let skipped = others >>= λ (ready, fds'). ok (ready, fd ∷ fds') in
    let counted = get_backend fd.queue >>= λ mq. others >>= λ (ready, fds'). ok (
      (if counts (views i mq).queue_event fd then 1 else 0) + ready,
      record fd { revents = reported (views i mq).queue_event fd } ∷ fds',
    ) in
    if fd.queue == 0 then skipped else counted

-- How far a call comes: to its return, to the count of the events, or to its `cond_wait` on
-- `wt_nodes[0].is_ready`.
pub data PollStep : Type 0 where
  finished : Return → Option Errno → List Pollfd → (ℕ → Backend) → PollStep
  counting sleeping : List Pollfd → (ℕ → Backend) → PollStep

-- `nodes` is what `malloc` returns.
unfoldable pub poll_begin : Option (ℕ → ℕ) → List Pollfd → (ℕ → Backend) → Run PollStep
unfolding register
poll_begin nodes fds queues =
    let (errno, fds') = poll_checks fds in
    elim errno [
      | some e ↦ ok (finished minus_one (some e) fds' queues)
      | none ↦ elim nodes [
        | none ↦ ok (finished minus_one (some enomem) fds' queues)
        | some node ↦ register node 0 fds' queues >>= λ queues'. ok (counting fds' queues')
      ]
    ]

unfoldable pub poll_end : (ℕ → ℕ) → ℕ → List Pollfd → (ℕ → Backend) → Run PollStep
unfolding unregister
poll_end node num_ready fds queues =
    unregister node 0 fds queues >>= λ queues'. ok (finished (value num_ready) none fds queues')

-- `queues` are the queues when the count is done.
unfoldable pub poll_count : (ℕ → ℕ) → List Pollfd → (ℕ → ℕ → Backend) → (ℕ → Backend) → Run PollStep
unfolding helper_count poll_end
poll_count node fds views queues = do
  (num_ready, fds') ← helper_count views 0 fds
  let ended = poll_end node num_ready fds' queues
  if num_ready == 0 then ok (sleeping fds' queues) else ended

-- After the wakeup there is one more count, and no second wait.
unfoldable pub poll_woken : (ℕ → ℕ) → List Pollfd → (ℕ → ℕ → Backend) → (ℕ → Backend) → Run PollStep
unfolding helper_count poll_end
poll_woken node fds views queues = do
  (num_ready, fds') ← helper_count views 0 fds
  poll_end node num_ready fds' queues
