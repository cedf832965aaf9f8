-- ===== src/MsgQueue/Poll/Leave.antt =====
-- The end of a call of `msg_queue_poll`: its last loop, on queues where other threads' nodes wait too.
use uoft_operating_systems.Common.{
  ℕ, suc, ◌+◌, ◌<◌, ◌≤◌, ◌≡◌, ◌≢◌, refl, ap, ◌∙◌, arith, false, List, [], ◌∷◌, ◌++◌, length,
  Returns, Returns-mono, ◌==◌, eq→==, ne→==, Bool-cases, inl, inr,
}
use uoft_operating_systems.Common.Update.{set, set-at, set-else}
use uoft_operating_systems.MsgQueue.Backend.{WaitingNode, Backend}
use uoft_operating_systems.MsgQueue.Poll.{Pollfd}
use uoft_operating_systems.MsgQueue.Poll.Wait.{without, delist, unregister}
use uoft_operating_systems.MsgQueue.Poll.Nodes.{
  target, AllPoint, own, own-here, own-elsewhere, own-skipped, own-none, with_waiting,
}

-- No node of the list is at the address.
abbrev pub Absent : ℕ → List WaitingNode → Type 0
Absent a [] = Unit {0}
Absent a (n ∷ ns) = (n.address ≢ a) × Absent a ns

-- One node is taken out of the middle.
without-middle :
    (a e : ℕ) (pre rest : List WaitingNode)
    → Absent a pre
    → without a (pre ++ (record { address = a; events = e } ∷ rest)) ≡ pre ++ rest
unfolding without
without-middle a e [] rest p = rw (eq→== a a refl) refl
without-middle a e (x ∷ xs) rest (p, ps) =
    rw (ne→== x.address a p) (ap (λ l. x ∷ l) (without-middle a e xs rest ps))

-- None of the `k` nodes of this call is among the nodes before them.
abbrev pub NotBefore : (ℕ → ℕ) → ℕ → (ℕ → List WaitingNode) → Type 0
NotBefore node k pre = (q j : ℕ) → j < k → Absent (node j) (pre q)

-- What is left on the queues once the node of one entry is off.
one_left :
    (node : ℕ → ℕ) (i k : ℕ) (fd : Pollfd) (fds : List Pollfd) (queues : ℕ → Backend)
    (pre post : ℕ → List WaitingNode)
    → NotBefore node k pre
    → i < k
    → (fd.queue == 0) ≡ false
    → ((q : ℕ) → (queues q).waiting ≡ pre q ++ (own node i (fd ∷ fds) q ++ post q))
    → (q : ℕ)
    → set queues (target fd) (delist (node i) (queues (target fd))) q
      ≡ with_waiting (queues q) (pre q ++ (own node (suc i) fds q ++ post q))
unfolding delist
one_left node i k fd fds queues pre post others lt live h q = elim (Bool-cases (q == target fd)) [
  | inl here ↦
      let e : q ≡ target fd = ground (arith, here) in
      let mid = own node (suc i) fds (target fd) in
      let a : (queues (target fd)).waiting
          ≡ pre (target fd)
            ++ (record { address = node i; events = fd.events } ∷ mid ++ post (target fd)) =
        h (target fd)
        ∙ ap (λ l. pre (target fd) ++ (l ++ post (target fd))) (own-here node i fd fds live) in
      rw (e, set-at queues (target fd) (delist (node i) (queues (target fd))))
        (ap (with_waiting (queues (target fd))) (
          ap (without (node i)) a
          ∙ without-middle (node i) fd.events (pre (target fd)) (mid ++ post (target fd))
              (others (target fd) i lt)))
  | inr there ↦
      let ne : q ≢ target fd = λ e. ground (arith, eq→== q (target fd) e) in
      set-else queues (target fd) (delist (node i) (queues (target fd))) q ne
      ∙ ap (with_waiting (queues q))
          (h q ∙ ap (λ l. pre q ++ (l ++ post q)) (own-elsewhere node i fd fds q ne))
]

-- The last loop leaves on each queue the nodes of the others, in their order.
pub unregister_exact :
    (node : ℕ → ℕ) (i k : ℕ) (fds : List Pollfd) (queues : ℕ → Backend)
    (pre post : ℕ → List WaitingNode)
    → NotBefore node k pre
    → i + length fds ≤ k
    → AllPoint fds
    → ((q : ℕ) → (queues q).waiting ≡ pre q ++ (own node i fds q ++ post q))
    → Returns
        (λ queues'. (q : ℕ) → queues' q ≡ with_waiting (queues q) (pre q ++ post q))
        (unregister node i fds queues)
unfolding unregister
unregister_exact node i k [] queues pre post others le p h =
    λ q. ap (with_waiting (queues q)) (h q ∙ ap (λ l. pre q ++ (l ++ post q)) (own-none node i q))
unregister_exact node i k (fd ∷ fds) queues pre post others le (p, ps) h =
    elim (Bool-cases (fd.queue == 0)) [
      | inl null ↦ rw null (
          unregister_exact node (suc i) k fds queues pre post others (omega (arith, le)) ps
            (λ q. h q ∙ ap (λ l. pre q ++ (l ++ post q)) (own-skipped node i fd fds q null)))
      | inr live ↦
          let before = set queues (target fd) (delist (node i) (queues (target fd))) in
          let left = one_left node i k fd fds queues pre post others (omega (arith, le)) live h in
          rw (live, p (λ e. ground arith))
            (Returns-mono _ _ (unregister node (suc i) fds before)
              (unregister_exact node (suc i) k fds before pre post others (omega (arith, le)) ps
                (λ q. ap (λ b. b.waiting) (left q)))
              (λ queues' r q. r q ∙ ap (λ b. with_waiting b (pre q ++ post q)) (left q)))
    ]
