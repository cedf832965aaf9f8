-- ===== src/MsgQueue/Handle/Laws.antt =====
-- A handle gives back the pointer and the flags that it was made of.
use Prim.Native.Nat.{bit_and}
use uoft_operating_systems.Common.{ℕ, ◌*◌, ◌+◌, ◌-◌, ◌^◌, ◌<◌, ◌≡◌, refl, arith, ok, eq→==, ne→==}
use uoft_operating_systems.Common.Bits.{bit_and_seven, clear_seven, clear_seven_wide, bit_or_low}
use uoft_operating_systems.MsgQueue.Handle.{make_handle, get_backend, get_flags, invalid_flags}

module _ (slot flags : ℕ) (aligned : slot * 8 < 2 ^ 64) (valid : flags < 8) where
  make_handle_exact : make_handle (slot * 8) flags ≡ ok (slot * 8 + flags)
  unfolding make_handle invalid_flags
  make_handle_exact = rw (
    eq→== (bit_and (slot * 8) 7) 0 (omega (arith, bit_and_seven (slot * 8))),
    eq→== (bit_and flags (2 ^ 32 - 8)) 0 (omega (arith, clear_seven flags (omega arith))),
    bit_or_low slot flags valid,
  )

  -- With a pointer other than NULL that is a multiple of 8 below 2^64, and three flag bits, `make_handle` passes its
  -- assertions, and the handle gives back the pointer and the flags.
  pub make_handle-round_trip :
      0 < slot
      → (handle : ℕ) × (make_handle (slot * 8) flags ≡ ok handle)
        × (get_backend handle ≡ ok (slot * 8))
        × (get_flags handle ≡ flags)
  unfolding get_backend get_flags
  make_handle-round_trip pos = (
    slot * 8 + flags,
    make_handle_exact,
    rw (pointer, ne→== (slot * 8) 0 (λ e. omega arith)) refl,
    omega (arith, bit_and_seven (slot * 8 + flags)),
  )
    where
      pointer : bit_and (slot * 8 + flags) (2 ^ 64 - 8) ≡ slot * 8
      pointer = omega (arith, clear_seven_wide (slot * 8 + flags) (omega arith))
