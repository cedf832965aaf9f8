-- ===== src/MsgQueue/FifoLaws.antt =====
-- No message is lost, made up, duplicated or reordered.
use mathlib.Core.Path.{subst}
use uoft_operating_systems.Common.{
  ℕ, ◌^◌, ◌<◌, ◌≤◌, ◌≡◌, refl, sym, ap, ◌∙◌, List, [], ◌∷◌, ◌++◌, append-nil, append_assoc, arith,
  Returns, Returns-mono, Returns-bind, Option, none, some, length,
}
use uoft_operating_systems.MsgQueue.Handle.{get_flags}
use uoft_operating_systems.MsgQueue.Sync.{
  Errno, eagain, einval, enomem, ebadf, epipe, emsgsize, Return, value, minus_one, Step, returned,
  blocked,
}
use uoft_operating_systems.MsgQueue.Backend.{Backend}
use uoft_operating_systems.MsgQueue.Receive.{read_loop, msg_queue_read}
use uoft_operating_systems.MsgQueue.Receive.Loop.{read_loop-refines}
use uoft_operating_systems.MsgQueue.Receive.Refine.{msg_queue_read-refines}
use uoft_operating_systems.MsgQueue.Send.{write_loop, msg_queue_write}
use uoft_operating_systems.MsgQueue.Send.Refine.{msg_queue_write-refines, write_loop-refines}
use uoft_operating_systems.MsgQueue.Mailbox.{Mailbox, Verdict, take_from, receive, send, resumed}
use uoft_operating_systems.MsgQueue.Carries.{Carries, Agrees}
use uoft_operating_systems.MsgQueue.Fifo.{
  Turn, reads, resumes_read, writes, resumes_write, turn, run, backend_of, taken, put, all_taken,
  all_put, handed, accepted, Sound, AllSound, AllWithin, Fits, AllFit, Balanced,
}
use uoft_operating_systems.MsgQueue.Balance.{
  Agrees-parts, handed_by, accepted_by, out_of, into, receive-balance, send-balance,
  take_from-balance,
}

-- A read, entered or gone on with.
read-Balanced :
    (box : Mailbox) (t : Turn) (step : Step Backend) (v : Verdict × Mailbox)
    → Agrees v step
    → handed_by v.0 ++ v.1.messages ≡ box.messages
    → put t step ≡ []
    → taken t step ≡ out_of step
    → Balanced box t step
read-Balanced box t step v a balance nothing out =
    let (c, o, i) = Agrees-parts v.0 v.1 step a in
    (
      v.1,
      c,
      ap (λ p. box.messages ++ p) nothing
          ∙ append-nil box.messages
          ∙ sym balance
          ∙ ap (λ p. p ++ v.1.messages) (sym (out ∙ o)),
    )

-- A write, entered or gone on with.
write-Balanced :
    (box : Mailbox) (t : Turn) (bytes : List ℕ) (step : Step Backend) (v : Verdict × Mailbox)
    → Agrees v step
    → v.1.messages ≡ box.messages ++ accepted_by bytes v.0
    → put t step ≡ into bytes step
    → taken t step ≡ []
    → Balanced box t step
write-Balanced box t bytes step v a balance inward nothing =
    let (c, o, i) = Agrees-parts v.0 v.1 step a in
    (
      v.1,
      c,
      ap (λ p. box.messages ++ p) (inward ∙ i bytes)
          ∙ sym balance
          ∙ ap (λ p. p ++ v.1.messages) (sym nothing),
    )

resume-balance :
    (flags : ℕ) (bytes : List ℕ) (box : Mailbox)
    → (resumed flags bytes box).1.messages
      ≡ box.messages ++ accepted_by bytes (resumed flags bytes box).0
unfolding resumed
resume-balance flags bytes box = ground (arith, append-nil box.messages)

turn-Balanced :
    (n : ℕ)
    → n < 2 ^ 63
    → (mq : Backend) (box : Mailbox) (t : Turn) → Carries mq box
    → Sound n t
    → Returns (Balanced box t) (turn mq t)
unfolding turn
turn-Balanced n bound mq box (reads self queue len) c (address, e, room) =
    Returns-mono _ _ (msg_queue_read self queue mq len)
      (msg_queue_read-refines self queue address len mq box e c)
      (λ step a.
        read-Balanced box (reads self queue len) step (receive (get_flags queue) len box) a
          (receive-balance (get_flags queue) len box c.filled) (no_put step) (out step))
  where
    no_put : (step : Step Backend) → put (reads self queue len) step ≡ []
    no_put (returned reply mq calls) = refl
    no_put (blocked mq calls) = refl

    out : (step : Step Backend) → taken (reads self queue len) step ≡ out_of step
    out (returned reply mq calls) = refl
    out (blocked mq calls) = refl
turn-Balanced n bound mq box (resumes_read self flags len) c s =
    Returns-mono _ _ (read_loop self flags mq len) (read_loop-refines self mq box flags len c)
      (λ step a.
        read-Balanced box (resumes_read self flags len) step (take_from flags len box box.messages)
          a (take_from-balance box.messages flags len box c.filled refl) (no_put step) (out step))
  where
    no_put : (step : Step Backend) → put (resumes_read self flags len) step ≡ []
    no_put (returned reply mq calls) = refl
    no_put (blocked mq calls) = refl

    out : (step : Step Backend) → taken (resumes_read self flags len) step ≡ out_of step
    out (returned reply mq calls) = refl
    out (blocked mq calls) = refl
turn-Balanced n bound mq box (writes self queue bytes) c (address, e, within) =
    Returns-mono _ _ (msg_queue_write self queue mq bytes)
      (msg_queue_write-refines self mq box bytes c (omega arith) queue address e)
      (λ step a.
        write-Balanced box (writes self queue bytes) bytes step (send (get_flags queue) bytes box) a
          (send-balance (get_flags queue) bytes box) (inward step) (nothing step))
  where
    inward : (step : Step Backend) → put (writes self queue bytes) step ≡ into bytes step
    inward (returned reply mq calls) = refl
    inward (blocked mq calls) = refl

    nothing : (step : Step Backend) → taken (writes self queue bytes) step ≡ []
    nothing (returned reply mq calls) = refl
    nothing (blocked mq calls) = refl
turn-Balanced n bound mq box (resumes_write self flags bytes) c (pos, within) =
    Returns-mono _ _ (write_loop self flags mq bytes)
      (write_loop-refines self mq box bytes c (omega arith) flags pos)
      (λ step a.
        write-Balanced box (resumes_write self flags bytes) bytes step (resumed flags bytes box) a
          (resume-balance flags bytes box) (inward step) (nothing step))
  where
    inward : (step : Step Backend) → put (resumes_write self flags bytes) step ≡ into bytes step
    inward (returned reply mq calls) = refl
    inward (blocked mq calls) = refl

    nothing : (step : Step Backend) → taken (resumes_write self flags bytes) step ≡ []
    nothing (returned reply mq calls) = refl
    nothing (blocked mq calls) = refl

-- Messages within a bound.
AllWithin-append :
    (n : ℕ) (a b : List (List ℕ)) → AllWithin n a → AllWithin n b → AllWithin n (a ++ b)
AllWithin-append n [] b u v = v
AllWithin-append n (m ∷ a) b (u, us) v = (u, AllWithin-append n a b us v)

AllWithin-parts :
    (n : ℕ) (a b : List (List ℕ)) → AllWithin n (a ++ b) → AllWithin n a × AllWithin n b
AllWithin-parts n [] b v = (tt, v)
AllWithin-parts n (m ∷ a) b (u, us) = let (l, r) = AllWithin-parts n a b us in ((u, l), r)

accepted-AllWithin :
    (n : ℕ) (bytes : List ℕ) (ret : Return) (e : Option Errno)
    → length bytes ≤ n
    → AllWithin n (accepted bytes ret e)
accepted-AllWithin n bytes (value k) e h = (h, tt)
accepted-AllWithin n bytes minus_one none h = tt
accepted-AllWithin n bytes minus_one (some eagain) h = (h, tt)
accepted-AllWithin n bytes minus_one (some einval) h = tt
accepted-AllWithin n bytes minus_one (some enomem) h = tt
accepted-AllWithin n bytes minus_one (some ebadf) h = tt
accepted-AllWithin n bytes minus_one (some epipe) h = tt
accepted-AllWithin n bytes minus_one (some emsgsize) h = tt

put-AllWithin : (n : ℕ) (t : Turn) (step : Step Backend) → Sound n t → AllWithin n (put t step)
put-AllWithin n (reads self queue len) (returned reply mq calls) s = tt
put-AllWithin n (reads self queue len) (blocked mq calls) s = tt
put-AllWithin n (resumes_read self flags len) (returned reply mq calls) s = tt
put-AllWithin n (resumes_read self flags len) (blocked mq calls) s = tt
put-AllWithin n (writes self queue bytes) (returned reply mq calls) (address, e, within) =
    accepted-AllWithin n bytes reply.ret reply.errno within
put-AllWithin n (writes self queue bytes) (blocked mq calls) s = tt
put-AllWithin n (resumes_write self flags bytes) (returned reply mq calls) (pos, within) =
    accepted-AllWithin n bytes reply.ret reply.errno within
put-AllWithin n (resumes_write self flags bytes) (blocked mq calls) s = tt

handed_within :
    (n len : ℕ) (stored : List ℕ) → n ≤ len → AllWithin n (handed stored) → length stored ≤ len
handed_within n len [] room u = omega arith
handed_within n len (b ∷ bs) room (u, _) = omega arith

taken-Fits :
    (n : ℕ) (t : Turn) (step : Step Backend) → Sound n t → AllWithin n (taken t step) → Fits t step
taken-Fits n (reads self queue len) (returned reply mq calls) (address, e, room) u =
    handed_within n len reply.stored room u
taken-Fits n (reads self queue len) (blocked mq calls) s u = tt
taken-Fits n (resumes_read self flags len) (returned reply mq calls) room u =
    handed_within n len reply.stored room u
taken-Fits n (resumes_read self flags len) (blocked mq calls) s u = tt
taken-Fits n (writes self queue bytes) (returned reply mq calls) s u = tt
taken-Fits n (writes self queue bytes) (blocked mq calls) s u = tt
taken-Fits n (resumes_write self flags bytes) (returned reply mq calls) s u = tt
taken-Fits n (resumes_write self flags bytes) (blocked mq calls) s u = tt

-- With a bound below 2^63 on the messages, on those that a backend carries and on those that are written,
-- and room for so many bytes at every read: reads and writes, by any threads in any order, with
-- wakeups at any time, each come to their return or their wait with no failed assertion and no
-- access out of bounds, each read stores within the buffer of its caller, and the messages that
-- were there and those put in since are, in order, those handed over and those that are left.
pub run-fifo :
    (n : ℕ) (turns : List Turn) (mq : Backend) (box : Mailbox)
    → n < 2 ^ 63
    → Carries mq box
    → AllWithin n box.messages
    → AllSound n turns
    → Returns
        (λ (steps, mq').
          (box' : Mailbox) × Carries mq' box'
          × AllFit turns steps
          × (box.messages ++ all_put turns steps ≡ all_taken turns steps ++ box'.messages))
        (run mq turns)
unfolding run
run-fifo n [] mq box small c w s = (box, c, tt, append-nil box.messages)
run-fifo n (t ∷ ts) mq box small c w (s, ss) =
    Returns-bind (Balanced box t) _ (turn mq t) _ (turn-Balanced n small mq box t c s)
      (λ step (box₁, c₁, e₁).
        let (out, kept) = AllWithin-parts n (taken t step) box₁.messages (
          subst (AllWithin n) e₁
            (AllWithin-append n box.messages (put t step) w (put-AllWithin n t step s))) in
        Returns-bind _ _ (run (backend_of step) ts) _
          (run-fifo n ts (backend_of step) box₁ small c₁ kept ss)
          (λ (steps, mq') (box₂, c₂, fit, e₂). (
            box₂,
            c₂,
            (taken-Fits n t step s out, fit),
            sym (append_assoc box.messages (put t step) (all_put ts steps))
                ∙ ap (λ p. p ++ all_put ts steps) e₁
                ∙ append_assoc (taken t step) box₁.messages (all_put ts steps)
                ∙ ap (λ p. taken t step ++ p) e₂
                ∙ sym (append_assoc (taken t step) (all_taken ts steps) box₂.messages),
          )))
