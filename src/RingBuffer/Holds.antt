-- ===== src/RingBuffer/Holds.antt =====
-- What a ring buffer of ring_buffer.c stands for: the bytes written and not yet read, oldest first.
-- `tail` has either not yet come round to the start (`Straight`), or it has (`Wrapped`); every byte
-- outside the contents is poison.
use uoft_operating_systems.Common.{
  ℕ, ◌+◌, ◌-◌, ◌^◌, ◌≤◌, ◌<◌, ◌≡◌, false, List, ◌++◌, arith, ◌==◌, length, replicate, length-append,
}
use uoft_operating_systems.RingBuffer.{RingBuffer, poison, used_space, free_space}
use uoft_operating_systems.Validator.{Validator}

pub record Straight (rb : RingBuffer) (q : List ℕ) (h f : ℕ) : Type 0 where
  pub bytes : rb.buffer ≡ replicate h poison ++ (q ++ replicate f poison)
  pub size : rb.size ≡ h + length q + f
  pub room : 0 < f
  pub head : rb.head ≡ h
  pub tail : rb.tail ≡ h + length q
  pub full : rb.full ≡ false

pub record Wrapped (rb : RingBuffer) (front back : List ℕ) (f : ℕ) : Type 0 where
  pub bytes : rb.buffer ≡ back ++ (replicate f poison ++ front)
  pub size : rb.size ≡ length back + f + length front
  pub filled : 0 < length front
  pub head : rb.head ≡ length back + f
  pub tail : rb.tail ≡ length back
  pub full : rb.full ≡ (f == 0)

pub data Holds (rb : RingBuffer) (q : List ℕ) : Type 0 where
  straight : (h f : ℕ) → Straight rb q h f → Holds rb q
  wrapped : (front back : List ℕ) (f : ℕ) → q ≡ front ++ back → Wrapped rb front back f → Holds rb q

-- A ring buffer between two calls: no object that `malloc` returns has 2^63 bytes.
pub record Represents (rb : RingBuffer) (q : List ℕ) : Type 0 where
  pub shape : Holds rb q
  pub small : rb.size < 2 ^ 63
  pub idle : rb.validator.owner ≡ 0

pub Holds-validator :
    {rb : RingBuffer} {q : List ℕ} (v : Validator)
    → Holds rb q
    → Holds (record rb { validator = v }) q
Holds-validator v (straight h f s) = straight h f (record {
  bytes = s.bytes;
  size = s.size;
  room = s.room;
  head = s.head;
  tail = s.tail;
  full = s.full;
})
Holds-validator v (wrapped a b f e s) = wrapped a b f e (record {
  bytes = s.bytes;
  size = s.size;
  filled = s.filled;
  head = s.head;
  tail = s.tail;
  full = s.full;
})

-- The indices and the flag together count the bytes, and no subtraction wraps.
pub used_space-Holds :
    (rb : RingBuffer) (q : List ℕ) → Holds rb q → rb.size < 2 ^ 63 → used_space rb ≡ length q
unfolding used_space
used_space-Holds rb q (straight h f s) lt = ground (arith, s.full, s.tail, s.head, s.size)
used_space-Holds rb q (wrapped a b f e s) lt =
    ground (arith, s.full, s.tail, s.head, s.size, s.filled, length-append a b, e)

pub length-le-size : (rb : RingBuffer) (q : List ℕ) → Holds rb q → length q ≤ rb.size
length-le-size rb q (straight h f s) = omega arith
length-le-size rb q (wrapped a b f e s) = ground (arith, s.size, length-append a b, e)

pub free_space-Holds :
    (rb : RingBuffer) (q : List ℕ)
    → Holds rb q
    → rb.size < 2 ^ 63
    → free_space rb ≡ rb.size - length q
unfolding free_space
free_space-Holds rb q s lt = omega (arith, used_space-Holds rb q s lt, length-le-size rb q s)
