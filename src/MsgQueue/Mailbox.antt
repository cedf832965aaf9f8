-- ===== src/MsgQueue/Mailbox.antt =====
-- What a message queue of msg_queue.c holds, with the bytes and the ring forgotten: whole messages,
-- oldest first, within a capacity in bytes.
use uoft_operating_systems.Common.{
  ℕ, ◌+◌, Bool, true, false, not, none, some, List, [], ◌∷◌, ◌++◌, ltb, leb, ◌==◌, if◌then◌else◌,
  length,
}
use uoft_operating_systems.MsgQueue.Handle.{reader_flag, writer_flag, nonblock_flag, has}
use uoft_operating_systems.MsgQueue.Sync.{
  Errno, einval, ebadf, eagain, epipe, emsgsize, value, minus_one, Reply,
}

pub record Mailbox : Type 0 where
  pub capacity : ℕ
  pub messages : List (List ℕ)
  pub readers_gone : Bool
  pub writers_gone : Bool

-- Every message takes its body and eight bytes.
unfoldable pub weight : List (List ℕ) → ℕ
weight [] = 0
weight (message ∷ messages) = 8 + length message + weight messages

pub data Verdict : Type 0 where
  gives : Reply → Verdict
  waits : Verdict

abbrev pub refuses : Errno → Verdict
refuses e = gives (record { ret = minus_one; errno = some e; stored = [] })

-- With no message there is the end of file, or none yet: `gone` is the side of the writers.
unfoldable pub on_empty : ℕ → Mailbox → Bool → Verdict × Mailbox
on_empty flags box true = (gives (record { ret = value 0; errno = none; stored = [] }), box)
on_empty flags box false = if has flags nonblock_flag then (refuses eagain, box) else (waits, box)

-- The oldest message, whatever room the caller has for it.
unfoldable pub take_from : ℕ → ℕ → Mailbox → List (List ℕ) → Verdict × Mailbox
unfolding on_empty
take_from flags len box [] = on_empty flags box box.writers_gone
take_from flags len box (message ∷ messages) = (
  gives (record {
    ret = value (length message);
    errno = if ltb len (length message) then some emsgsize else none;
    stored = message;
  }),
  record box { messages = messages },
)

unfoldable pub receive : ℕ → ℕ → Mailbox → Verdict × Mailbox
unfolding take_from
receive flags len box =
    if not (has flags reader_flag)
    then (refuses ebadf, box)
    else take_from flags len box box.messages

-- A message goes in whole, behind the others, or not at all.
unfoldable pub send : ℕ → List ℕ → Mailbox → Verdict × Mailbox
send flags message box =
    if not (has flags writer_flag)
    then (refuses ebadf, box)
    else if length message == 0
    then (refuses einval, box)
    else if box.readers_gone
    then (refuses epipe, box)
    else if leb box.capacity (length message + 8)
    then (refuses emsgsize, box)
    else if leb (weight box.messages + (length message + 8)) box.capacity
    then (
      if has flags nonblock_flag
          then refuses eagain
          else gives (record { ret = value 0; errno = none; stored = [] }),
      record box { messages = box.messages ++ message ∷ [] },
    )
    else (waits, box)

-- A send that was waiting and is woken: it only looks for room.
unfoldable pub resumed : ℕ → List ℕ → Mailbox → Verdict × Mailbox
resumed flags message box =
    if leb (weight box.messages + (length message + 8)) box.capacity
    then (
      if has flags nonblock_flag
          then refuses eagain
          else gives (record { ret = value 0; errno = none; stored = [] }),
      record box { messages = box.messages ++ message ∷ [] },
    )
    else (waits, box)
