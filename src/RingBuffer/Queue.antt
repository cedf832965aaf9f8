-- ===== src/RingBuffer/Queue.antt =====
-- The contract of ring_buffer.h: a FIFO of at most `size` bytes, read and written in blocks.
use uoft_operating_systems.Common.{
  ℕ, ◌+◌, ◌-◌, ◌<◌, Bool, true, false, List, [], ◌∷◌, ◌++◌, leb, if◌then◌else◌, length, take, drop,
}

abbrev pub Queue : Type 0
Queue = List ℕ

-- A write is whole or is refused.
unfoldable pub write : ℕ → Queue → List ℕ → Bool × Queue
write size q bytes = if leb (length q + length bytes) size then (true, q ++ bytes) else (false, q)

-- So is a read.
unfoldable pub read : Queue → ℕ → Bool × List ℕ × Queue
read q n = if leb n (length q) then (true, take n q, drop n q) else (false, [], q)

unfoldable pub peek : Queue → ℕ → Bool × List ℕ × Queue
peek q n = if leb n (length q) then (true, take n q, q) else (false, [], q)

-- What a client can ask of a ring buffer, and what it sees of each call.
pub data Call : Type 0 where
  put : List ℕ → Call
  get look : ℕ → Call
  count room : Call

pub data Reply : Type 0 where
  wrote : Bool → Reply
  copied : Bool → List ℕ → Reply
  counted : ℕ → Reply

module _ (size : ℕ) where
  unfoldable pub answer : Queue → Call → Reply × Queue
  unfolding write read peek
  answer q (put bytes) = let (done, q') = write size q bytes in (wrote done, q')
  answer q (get n) = let (done, bytes, q') = read q n in (copied done bytes, q')
  answer q (look n) = let (done, bytes, q') = peek q n in (copied done bytes, q')
  answer q count = (counted (length q), q)
  answer q room = (counted (size - length q), q)

  unfoldable pub run : Queue → List Call → List Reply
  run q [] = []
  run q (c ∷ calls) = let (reply, q') = answer q c in reply ∷ run q' calls

-- The calls that pass `assert(length != 0)`.
abbrev pub Proper : Call → Type 0
Proper (put bytes) = 0 < length bytes
Proper (get n) = 0 < n
Proper (look n) = 0 < n
Proper count = Unit
Proper room = Unit
