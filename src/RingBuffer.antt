-- ===== src/RingBuffer.antt =====
-- a2_message_queue/ring_buffer.c, in the debug build: freed bytes are poisoned and checked.
-- `malloc` enters as the block that it returns, `none` when it fails. An operation that updates
-- `*rb` returns the new record, and one that fills the caller's buffer returns the bytes that it
-- stores from the buffer's start on. `self` is the calling thread.
pub mod Queue
pub mod Holds
pub mod Access
pub mod Remove
pub mod Peek
pub mod Read
pub mod Insert
pub mod Write
pub mod Refine
pub mod Exact
pub mod Client
mod Tests
use uoft_operating_systems.Common.{
  ℕ, ◌+◌, ◌≡◌, Bool, true, false, not, Option, none, some, List, [], ◌∷◌, ◌++◌, ltb, leb, ◌==◌,
  if◌then◌else◌, add_size, sub_size, length, take, drop, replicate, Run, ok, ◌>>=◌, ◌>>◌, assert,
  load_range, store_range,
}
use uoft_operating_systems.Validator.{
  Validator, validator_init, validator_destroy, validator_enter, validator_exit,
}

pub record RingBuffer : Type 0 where
  pub buffer : List ℕ
  pub size : ℕ
  pub head : ℕ
  pub tail : ℕ
  pub full : Bool
  pub validator : Validator

abbrev pub poison : ℕ
poison = 0xDD

-- `memset(start, poison, length)`, at the index `start`.
unfoldable pub mark_free : List ℕ → ℕ → ℕ → Run (List ℕ)
mark_free buffer start len = store_range buffer start (replicate len poison)

unfoldable pub assert_poison : List ℕ → Run (Unit {0})
assert_poison [] = ok tt
assert_poison (x ∷ xs) = assert (x == poison) >> assert_poison xs

unfoldable pub check_free : List ℕ → ℕ → ℕ → Run (Unit {0})
check_free buffer start len = load_range buffer start len >>= assert_poison

-- `none` is the return value -1.
unfoldable pub ring_buffer_init : Option (List ℕ) → ℕ → Run (Option RingBuffer)
unfolding mark_free
ring_buffer_init none size = ok none
ring_buffer_init (some block) size = do
  buffer ← mark_free block 0 size
  ok (
      some (record {
        buffer = buffer;
        size = size;
        head = 0;
        tail = 0;
        full = false;
        validator = validator_init;
      }))

unfoldable pub ring_buffer_destroy : RingBuffer → Run (Unit {0})
ring_buffer_destroy rb = validator_destroy rb.validator

-- `__ring_buffer_used` and `__ring_buffer_free`.
unfoldable pub used_space : RingBuffer → ℕ
used_space rb =
    if rb.full
    then rb.size
    else if leb rb.head rb.tail
    then sub_size rb.tail rb.head
    else sub_size (add_size rb.size rb.tail) rb.head

unfoldable pub free_space : RingBuffer → ℕ
free_space rb = sub_size rb.size (used_space rb)

abbrev pub enter : ℕ → RingBuffer → RingBuffer
enter self rb = record rb { validator = validator_enter self rb.validator }

abbrev pub exit : ℕ → RingBuffer → RingBuffer
exit self rb = record rb { validator = validator_exit self rb.validator }

unfoldable pub ring_buffer_used : ℕ → RingBuffer → ℕ × RingBuffer
ring_buffer_used self rb = let rb' = enter self rb in (used_space rb', exit self rb')

unfoldable pub ring_buffer_free : ℕ → RingBuffer → ℕ × RingBuffer
ring_buffer_free self rb = let rb' = enter self rb in (free_space rb', exit self rb')

-- The three results of a read: the value returned, the bytes stored, and `*rb`.
abbrev pub ReadResult : Type 0
ReadResult = Bool × List ℕ × RingBuffer

-- The case of one copy.
unfoldable pub read_straight : RingBuffer → ℕ → Bool → Run ReadResult
read_straight rb len remove = do
  bytes ← load_range rb.buffer rb.head len
  if remove
      then (do
        buffer ← mark_free rb.buffer rb.head len
        let head = add_size rb.head len
        ok (
          true,
          bytes,
          record rb { buffer = buffer; head = if head == rb.size then 0 else head; full = false },
        ))
      else ok (true, bytes, rb)

-- The copy split into two parts.
unfoldable pub read_split : RingBuffer → ℕ → Bool → Run ReadResult
read_split rb len remove = do
  let copy_len = sub_size rb.size rb.head
  bytes ← load_range rb.buffer rb.head copy_len
  let next_copy_len = sub_size len copy_len
  if remove
      then (do
        buffer ← mark_free rb.buffer rb.head copy_len
        next_bytes ← load_range buffer 0 next_copy_len
        buffer' ← mark_free buffer 0 next_copy_len
        ok (
          true,
          bytes ++ next_bytes,
          record rb { buffer = buffer'; head = next_copy_len; full = false },
        ))
      else (do
        next_bytes ← load_range rb.buffer 0 next_copy_len
        ok (true, bytes ++ next_bytes, rb))

unfoldable pub ring_buffer_read_common : RingBuffer → ℕ → Bool → Run ReadResult
ring_buffer_read_common rb len remove = do
  assert (not (len == 0))
  if ltb (used_space rb) len
      then ok (false, [], rb)
      else if leb (add_size rb.head len) rb.size
      then read_straight rb len remove
      else read_split rb len remove

abbrev pub leave : ℕ → ReadResult → Run ReadResult
leave self (result, bytes, rb) = ok (result, bytes, exit self rb)

unfoldable pub ring_buffer_read : ℕ → RingBuffer → ℕ → Run ReadResult
ring_buffer_read self rb len = ring_buffer_read_common (enter self rb) len true >>= leave self

unfoldable pub ring_buffer_peek : ℕ → RingBuffer → ℕ → Run ReadResult
ring_buffer_peek self rb len = ring_buffer_read_common (enter self rb) len false >>= leave self

-- The case of one copy into the buffer.
unfoldable pub write_straight : RingBuffer → List ℕ → Run RingBuffer
write_straight rb bytes = do
  check_free rb.buffer rb.tail (length bytes)
  buffer ← store_range rb.buffer rb.tail bytes
  let tail = add_size rb.tail (length bytes)
  ok (record rb { buffer = buffer; tail = if tail == rb.size then 0 else tail })

-- The copy split into two parts.
unfoldable pub write_split : RingBuffer → List ℕ → Run RingBuffer
write_split rb bytes = do
  let copy_len = sub_size rb.size rb.tail
  check_free rb.buffer rb.tail copy_len
  buffer ← store_range rb.buffer rb.tail (take copy_len bytes)
  let next_copy_len = sub_size (length bytes) copy_len
  check_free buffer 0 next_copy_len
  buffer' ← store_range buffer 0 (take next_copy_len (drop copy_len bytes))
  ok (record rb { buffer = buffer'; tail = next_copy_len })

-- Something was inserted: if head == tail, the buffer is full.
unfoldable pub mark_full : RingBuffer → RingBuffer
mark_full rb = if rb.head == rb.tail then record rb { full = true } else rb

-- `bytes` is the caller's buffer, `length` bytes long.
unfoldable pub ring_buffer_write : ℕ → RingBuffer → List ℕ → Run (Bool × RingBuffer)
ring_buffer_write self rb₀ bytes = do
  let rb = enter self rb₀
  assert (not (length bytes == 0))
  if ltb (free_space rb) (length bytes) then ok (false, exit self rb) else (do
    rb' ←
        if leb (add_size rb.tail (length bytes)) rb.size
        then write_straight rb bytes
        else write_split rb bytes
    ok (true, exit self (mark_full rb')))
