-- ===== src/MsgQueue/Handle.antt =====
-- Handles of msg_queue.c: a pointer to the backend, a multiple of 8, with three flag bits in it.
-- An `int` is its 32-bit pattern and a `uintptr_t` its 64-bit one; `~` is written out.
pub mod Laws
use Prim.Native.Nat.{bit_and, bit_or}
use uoft_operating_systems.Common.{ℕ, ◌-◌, ◌^◌, Bool, not, Run, ok, ◌>>=◌, ◌>>◌, assert, ◌==◌}

abbrev pub reader_flag : ℕ
reader_flag = 0x01

abbrev pub writer_flag : ℕ
writer_flag = 0x02

abbrev pub nonblock_flag : ℕ
nonblock_flag = 0x04

-- ALL_FLAGS
abbrev pub all_flags : ℕ
all_flags = 7

abbrev pub null_handle : ℕ
null_handle = 0

-- `if (word & mask)`.
unfoldable pub has : ℕ → ℕ → Bool
has word mask = not (bit_and word mask == 0)

unfoldable pub get_backend : ℕ → Run ℕ
get_backend queue = do let mq = bit_and queue (2 ^ 64 - 8); assert (not (mq == 0)); ok mq

unfoldable pub get_flags : ℕ → ℕ
get_flags queue = bit_and queue all_flags

-- The pattern of `flags & ~ALL_FLAGS`, on an `int`.
unfoldable pub invalid_flags : ℕ → ℕ
invalid_flags flags = bit_and flags (2 ^ 32 - 8)

unfoldable pub make_handle : ℕ → ℕ → Run ℕ
make_handle mq flags = do
  assert (bit_and mq all_flags == 0)
  assert (invalid_flags flags == 0)
  ok (bit_or mq flags)
