-- ===== src/MsgQueue/Sync.antt =====
-- What a call of msg_queue.h shows to the other threads and to its caller.
use uoft_operating_systems.Common.{ℕ, Option, List, ◌++◌, Run, ok}

-- The calls of sync.h on the queue, in the order in which they are made. `notify` is the lock,
-- signal and unlock of one waiting node in `helper_wakeup`.
pub data Sync : Type 0 where
  lock unlock : Sync
  signal_space_full signal_space_empty : Sync
  broadcast_space_full broadcast_space_empty : Sync
  wait_space_full wait_space_empty : Sync
  notify : ℕ → Sync

pub data Errno : Type 0 where
  einval ebadf eagain epipe emsgsize enomem : Errno

pub data Return : Type 0 where
  value : ℕ → Return
  minus_one : Return

-- A return with what `errno` was set to, if it was.
pub record Reply : Type 0 where
  pub ret : Return
  pub errno : Option Errno
  pub stored : List ℕ

-- How far a call comes in one go: to its return, or to a `cond_wait`, which gives the mutex up.
pub data Step (B : Type 0) : Type 0 where
  returned : Reply → B → List Sync → Step B
  blocked : B → List Sync → Step B

-- What a function does whose first calls are `calls`, and which goes on as `step`.
abbrev pub after : {B : Type 0} → List Sync → Step B → Run (Step B)
after calls (returned reply mq more) = ok (returned reply mq (calls ++ more))
after calls (blocked mq more) = ok (blocked mq (calls ++ more))
