-- ===== src/MsgQueue/Poll/Nodes.antt =====
-- The waiting nodes of a call of `msg_queue_poll`, and the events that it counts.
use uoft_operating_systems.Common.{
  ℕ, suc, ◌^◌, ◌-◌, ◌≡◌, ◌≢◌, refl, sym, ap, ◌∙◌, arith, true, false, not, ◌&&◌, List, [], ◌∷◌,
  ◌++◌, append-nil, append_assoc, ok, Returns, Returns-mono, ◌==◌, if◌then◌else◌, eq→==, ne→==,
  Bool-cases, inl, inr,
}
use Prim.Native.Nat.{bit_and}
use uoft_operating_systems.Common.Update.{set, set-at, set-else}
use uoft_operating_systems.MsgQueue.Handle.{get_backend}
use uoft_operating_systems.MsgQueue.Backend.{WaitingNode, Backend}
use uoft_operating_systems.MsgQueue.Poll.{Pollfd}
use uoft_operating_systems.MsgQueue.Poll.Wait.{enlist, register}

-- Where a handle points.
abbrev pub target : Pollfd → ℕ
target fd = bit_and fd.queue (2 ^ 64 - 8)

-- Every entry is skipped or points somewhere.
abbrev pub AllPoint : List Pollfd → Type 0
AllPoint [] = Unit {0}
AllPoint (fd ∷ fds) = ((fd.queue ≢ 0) → get_backend fd.queue ≡ ok (target fd)) × AllPoint fds

-- The nodes that the entries from `i` on have on the queue `q`.
unfoldable pub own : (ℕ → ℕ) → ℕ → List Pollfd → ℕ → List WaitingNode
own node i [] q = []
own node i (fd ∷ fds) q =
    if not (fd.queue == 0) && (q == target fd)
    then record { address = node i; events = fd.events } ∷ own node (suc i) fds q
    else own node (suc i) fds q

abbrev pub with_waiting : Backend → List WaitingNode → Backend
with_waiting mq nodes = record mq { waiting = nodes }

pub own-none : (node : ℕ → ℕ) (i q : ℕ) → own node i [] q ≡ []
unfolding own
own-none node i q = refl

pub own-here :
    (node : ℕ → ℕ) (i : ℕ) (fd : Pollfd) (fds : List Pollfd)
    → (fd.queue == 0) ≡ false
    → own node i (fd ∷ fds) (target fd)
      ≡ record { address = node i; events = fd.events } ∷ own node (suc i) fds (target fd)
unfolding own
own-here node i fd fds e = rw (e, eq→== (target fd) (target fd) refl) refl

pub own-elsewhere :
    (node : ℕ → ℕ) (i : ℕ) (fd : Pollfd) (fds : List Pollfd) (q : ℕ)
    → q ≢ target fd
    → own node i (fd ∷ fds) q ≡ own node (suc i) fds q
unfolding own
own-elsewhere node i fd fds q ne = elim (Bool-cases (fd.queue == 0)) [
  | inl null ↦ rw null refl
  | inr live ↦ rw (live, ne→== q (target fd) ne) refl
]

pub own-skipped :
    (node : ℕ → ℕ) (i : ℕ) (fd : Pollfd) (fds : List Pollfd) (q : ℕ)
    → (fd.queue == 0) ≡ true
    → own node i (fd ∷ fds) q ≡ own node (suc i) fds q
unfolding own
own-skipped node i fd fds q e = rw e refl

-- One node more on the queue of the entry, then those of the entries behind it.
entered_waiting :
    (node : ℕ → ℕ) (i : ℕ) (fd : Pollfd) (fds : List Pollfd) (queues queues' : ℕ → Backend)
    → (fd.queue == 0) ≡ false
    → ((q : ℕ)
        → let before =
            set queues
              (target fd)
              (enlist (record { address = node i; events = fd.events }) (queues (target fd))) in
          queues' q ≡ with_waiting (before q) ((before q).waiting ++ own node (suc i) fds q))
    → (q : ℕ) → queues' q ≡ with_waiting (queues q) ((queues q).waiting ++ own node i (fd ∷ fds) q)
unfolding enlist
entered_waiting node i fd fds queues queues' live h q =
    let n : WaitingNode = record { address = node i; events = fd.events } in
    let before = set queues (target fd) (enlist n (queues (target fd))) in
    elim (Bool-cases (q == target fd)) [
      | inl here ↦
          let e : q ≡ target fd = ground (arith, here) in
          let at : before q ≡ enlist n (queues q) =
            rw e (set-at queues (target fd) (enlist n (queues (target fd)))) in
          let mine : own node i (fd ∷ fds) q ≡ n ∷ own node (suc i) fds q =
            rw e (own-here node i fd fds live) in
          h q
          ∙ ap (λ b. with_waiting b (b.waiting ++ own node (suc i) fds q)) at
          ∙ ap (with_waiting (queues q)) (
              append_assoc (queues q).waiting (n ∷ []) (own node (suc i) fds q)
              ∙ ap (λ l. (queues q).waiting ++ l) (sym mine))
      | inr there ↦
          let ne : q ≢ target fd = λ e. ground (arith, eq→== q (target fd) e) in
          h q
          ∙ ap (λ b. with_waiting b (b.waiting ++ own node (suc i) fds q))
              (set-else queues (target fd) (enlist n (queues (target fd))) q ne)
          ∙ ap (λ l. with_waiting (queues q) ((queues q).waiting ++ l))
              (sym (own-elsewhere node i fd fds q ne))
    ]

-- The queues after the nodes are entered.
pub register_exact :
    (node : ℕ → ℕ) (i : ℕ) (fds : List Pollfd) (queues : ℕ → Backend)
    → AllPoint fds
    → Returns
        (λ queues'.
          (q : ℕ) → queues' q ≡ with_waiting (queues q) ((queues q).waiting ++ own node i fds q))
        (register node i fds queues)
unfolding register
register_exact node i [] queues p = λ q. ap (with_waiting (queues q)) (
    sym (append-nil (queues q).waiting)
    ∙ ap (λ l. (queues q).waiting ++ l) (sym (own-none node i q)))
register_exact node i (fd ∷ fds) queues (p, ps) = elim (Bool-cases (fd.queue == 0)) [
  | inl null ↦ rw null (
      Returns-mono _ _ (register node (suc i) fds queues)
        (register_exact node (suc i) fds queues ps)
        (λ queues' h q.
          h q
          ∙ ap (λ l. with_waiting (queues q) ((queues q).waiting ++ l))
              (sym (own-skipped node i fd fds q null))))
  | inr live ↦
      let before =
        set queues (target fd)
          (enlist (record { address = node i; events = fd.events }) (queues (target fd))) in
      rw (live, p (λ e. ground arith))
        (Returns-mono _ _ (register node (suc i) fds before)
          (register_exact node (suc i) fds before ps)
          (λ queues' h. entered_waiting node i fd fds queues queues' live h))
]
