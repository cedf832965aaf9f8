-- ===== src/MsgQueue/Frame.antt =====
-- A message in the ring buffer: its `size_t` length, low byte first, and its body.
use uoft_operating_systems.Common.{
  ℕ, zero, suc, ◌+◌, ◌*◌, ◌/◌, ◌%◌, ◌^◌, ◌<◌, ◌≡◌, refl, List, [], ◌∷◌, ◌++◌, arith, length,
}
use native.Mathlib.Nat.{pow-suc}

-- The object representation of an unsigned number of `k` bytes.
unfoldable pub bytes_of : ℕ → ℕ → List ℕ
bytes_of zero n = []
bytes_of (suc k) n = (n % 256) ∷ bytes_of k (n / 256)

unfoldable pub of_bytes : List ℕ → ℕ
of_bytes [] = 0
of_bytes (b ∷ bs) = b + 256 * of_bytes bs

pub length-bytes_of : (k n : ℕ) → length (bytes_of k n) ≡ k
unfolding bytes_of
length-bytes_of zero n = refl
length-bytes_of (suc k) n = omega (arith, length-bytes_of k (n / 256))

pub of_bytes-bytes_of : (k n : ℕ) → n < 256 ^ k → of_bytes (bytes_of k n) ≡ n
unfolding bytes_of of_bytes
of_bytes-bytes_of zero n h = omega arith
of_bytes-bytes_of (suc k) n h =
    omega (arith, of_bytes-bytes_of k (n / 256) (omega (arith, pow-suc 256 k)))

-- The bytes that stand for one message, and for a queue of messages, oldest first.
unfoldable pub frame : List ℕ → List ℕ
frame message = bytes_of 8 (length message) ++ message

unfoldable pub frames : List (List ℕ) → List ℕ
frames [] = []
frames (message ∷ messages) = frame message ++ frames messages
