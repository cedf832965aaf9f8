-- ===== src/RingBuffer/Write.antt =====
-- Writes of ring_buffer.c as operations on the bytes held.
use uoft_operating_systems.Common.{
  ℕ, ◌+◌, ◌^◌, ◌≤◌, ◌<◌, ◌≡◌, true, List, ◌++◌, inl, inr, arith, length, length-append, Run,
  Returns, add_size, leb, if◌then◌else◌, Bool-cases, le→leb,
}
use uoft_operating_systems.RingBuffer.{RingBuffer, write_straight, write_split}
use uoft_operating_systems.RingBuffer.Holds.{Holds, straight, wrapped}
use uoft_operating_systems.RingBuffer.Insert.{
  WritesTo, write_straight-Straight, write_straight-Wrapped,
}
use uoft_operating_systems.RingBuffer.Insert.Split.{write_split-Straight}

module _ (rb : RingBuffer) (small : rb.size < 2 ^ 63) (w : List ℕ) (pos : 0 < length w) where
  abbrev copies : Run RingBuffer
  copies =
      if leb (add_size rb.tail (length w)) rb.size then write_straight rb w else write_split rb w

  -- Which copies are made, on each shape.
  pub copies-Holds :
      (q : List ℕ)
      → length q + length w ≤ rb.size
      → Holds rb q
      → Returns (WritesTo rb (q ++ w)) copies
  copies-Holds q fits (straight h f s) =
      elim (Bool-cases (leb (add_size rb.tail (length w)) rb.size)) [
        | inl within ↦
            rw within
              (write_straight-Straight rb small w pos q h f (ground (arith, s.tail, s.size)) s)
        | inr past ↦ rw past (
            write_split-Straight rb small w pos q h f (ground (arith, s.tail, s.size))
              (omega (arith, s.size)) s)
      ]
  copies-Holds q fits (wrapped front back f e s) =
      rw within (write_straight-Wrapped rb small w pos q front back f e room s)
    where
      room : length w ≤ f
      room = ground (arith, s.size, e, length-append front back)

      within : leb (add_size rb.tail (length w)) rb.size ≡ true
      within =
          le→leb (add_size rb.tail (length w)) rb.size (omega (arith, s.tail, s.size, room, small))
