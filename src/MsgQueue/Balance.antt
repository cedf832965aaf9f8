-- ===== src/MsgQueue/Balance.antt =====
-- What each call puts into a mailbox and takes out of it.
use uoft_operating_systems.Common.{
  ℕ, ◌<◌, ◌≡◌, refl, ap, ◌∙◌, Bool, true, false, List, [], ◌∷◌, ◌++◌, append-nil, arith, length,
  Bool-cases, inl, inr,
}
use uoft_operating_systems.MsgQueue.Handle.{has, reader_flag, nonblock_flag}
use uoft_operating_systems.MsgQueue.Sync.{Step, returned, blocked}
use uoft_operating_systems.MsgQueue.Backend.{Backend}
use uoft_operating_systems.MsgQueue.Mailbox.{
  Mailbox, Verdict, gives, waits, take_from, on_empty, receive, send,
}
use uoft_operating_systems.MsgQueue.Carries.{Carries, AllFilled, Agrees}
use uoft_operating_systems.MsgQueue.Fifo.{handed, accepted, backend_of}

abbrev pub handed_by : Verdict → List (List ℕ)
handed_by (gives reply) = handed reply.stored
handed_by waits = []

abbrev pub accepted_by : List ℕ → Verdict → List (List ℕ)
accepted_by bytes (gives reply) = accepted bytes reply.ret reply.errno
accepted_by bytes waits = []

abbrev pub out_of : Step Backend → List (List ℕ)
out_of (returned reply mq calls) = handed reply.stored
out_of (blocked mq calls) = []

abbrev pub into : List ℕ → Step Backend → List (List ℕ)
into bytes (returned reply mq calls) = accepted bytes reply.ret reply.errno
into bytes (blocked mq calls) = []

-- A step that agrees with a verdict hands over and puts in what the verdict says.
pub Agrees-parts :
    (verdict : Verdict) (box : Mailbox) (step : Step Backend)
    → Agrees (verdict, box) step
    → Carries (backend_of step) box
      × (out_of step ≡ handed_by verdict)
      × ((bytes : List ℕ) → into bytes step ≡ accepted_by bytes verdict)
Agrees-parts (gives reply) box (returned reply' mq calls) (e, c) =
    (c, ap (λ r. handed r.stored) e, λ bytes. ap (λ r. accepted bytes r.ret r.errno) e)
Agrees-parts (gives reply) box (blocked mq calls) a = absurd a
Agrees-parts waits box (returned reply mq calls) a = absurd a
Agrees-parts waits box (blocked mq calls) c = (c, refl, λ bytes. refl)

handed_filled : (m : List ℕ) → 0 < length m → handed m ≡ m ∷ []
handed_filled [] h = absurd (omega arith)
handed_filled (b ∷ bs) h = refl

on_empty-balance :
    (flags : ℕ) (box : Mailbox) (gone : Bool)
    → handed_by (on_empty flags box gone).0 ++ (on_empty flags box gone).1.messages ≡ box.messages
unfolding on_empty
on_empty-balance flags box true = refl
on_empty-balance flags box false = elim (Bool-cases (has flags nonblock_flag)) [
  | inl non ↦ rw non
  | inr block ↦ rw block
]

pub take_from-balance :
    (msgs : List (List ℕ)) (flags len : ℕ) (box : Mailbox)
    → AllFilled msgs
    → box.messages ≡ msgs
    → handed_by (take_from flags len box msgs).0 ++ (take_from flags len box msgs).1.messages ≡ msgs
unfolding take_from
take_from-balance [] flags len box h e = on_empty-balance flags box box.writers_gone ∙ e
take_from-balance (m ∷ ms) flags len box h e = ap (λ t. t ++ ms) (handed_filled m h.0)

pub receive-balance :
    (flags len : ℕ) (box : Mailbox)
    → AllFilled box.messages
    → handed_by (receive flags len box).0 ++ (receive flags len box).1.messages ≡ box.messages
unfolding receive
receive-balance flags len box h = elim (Bool-cases (has flags reader_flag)) [
  | inl yes' ↦ rw yes' (take_from-balance box.messages flags len box h refl)
  | inr no' ↦ rw no'
]

pub send-balance :
    (flags : ℕ) (bytes : List ℕ) (box : Mailbox)
    → (send flags bytes box).1.messages ≡ box.messages ++ accepted_by bytes (send flags bytes box).0
unfolding send
send-balance flags bytes box = ground (arith, append-nil box.messages)
