-- ===== src/RingBuffer/Read.antt =====
-- Reads and peeks of ring_buffer.c as operations on the bytes held.
use uoft_operating_systems.Common.{
  ℕ, ◌^◌, ◌≤◌, ◌<◌, ◌≡◌, ap, sym, ◌∙◌, inl, inr, true, false, List, ◌++◌, append_assoc, arith,
  length, drop, replicate, length-append, length-replicate, append-cut, Returns, add_size, ◌==◌,
  ltb, leb, le→ltb, le→leb, Bool-cases,
}
use mathlib.Core.Path.{subst}
use uoft_operating_systems.RingBuffer.{
  RingBuffer, poison, used_space, read_straight, read_split, ring_buffer_read_common,
}
use uoft_operating_systems.RingBuffer.Holds.{
  Straight, Wrapped, Holds, straight, wrapped, used_space-Holds,
}
use uoft_operating_systems.RingBuffer.Remove.{
  ReadsTo, read_straight-Straight, read_straight-Wrapped, read_split-Wrapped,
}
use uoft_operating_systems.RingBuffer.Peek.{PeeksAt, peek_straight_lem, peek_split_lem}

-- Which copies are made: `ring_buffer_read_common` on each shape.
module _ (rb : RingBuffer) (small : rb.size < 2 ^ 63) (m r : List ℕ) (pos : 0 < length m) where
  enough : Holds rb (m ++ r) → ltb (used_space rb) (length m) ≡ false
  enough s =
      le→ltb (used_space rb) (length m)
        (omega (arith, used_space-Holds rb (m ++ r) s small, length-append m r))

  not_empty : (length m == 0) ≡ false
  not_empty = ground arith

  read_common-Wrapped :
      (front back : List ℕ) (f : ℕ)
      → m ++ r ≡ front ++ back
      → Wrapped rb front back f
      → Returns (ReadsTo rb m r) (ring_buffer_read_common rb (length m) true)
        × Returns (PeeksAt rb m) (ring_buffer_read_common rb (length m) false)
  unfolding ring_buffer_read_common
  read_common-Wrapped front back f e s =
      rw (not_empty, enough (wrapped front back f e s))
        (elim (Bool-cases (leb (add_size rb.head (length m)) rb.size)) [
          | inl within ↦ rw within (one within)
          | inr past ↦ rw past (two past)
        ])
    where
      one :
          leb (add_size rb.head (length m)) rb.size ≡ true
          → Returns (ReadsTo rb m r) (read_straight rb (length m) true)
            × Returns (PeeksAt rb m) (read_straight rb (length m) false)
      one within =
          let le : length m ≤ length front =
            ground
              (arith, s.size, s.head, ap length e, length-append m r, length-append front back) in
          let cut = append-cut m r front back e le in
          (
            read_straight-Wrapped rb small m r (drop (length m) front) back f cut.1 pos
                (subst (λ t. Wrapped rb t back f) cut.0 s),
            peek_straight_lem rb m (back ++ replicate f poison) (drop (length m) front)
                (s.bytes ∙ ap (λ t. back ++ (replicate f poison ++ t)) cut.0 ∙ simp append_assoc)
                (omega (
                  arith,
                  s.head,
                  length-append back (replicate f poison),
                  length-replicate f poison,
                )),
          )

      two :
          leb (add_size rb.head (length m)) rb.size ≡ false
          → Returns (ReadsTo rb m r) (read_split rb (length m) true)
            × Returns (PeeksAt rb m) (read_split rb (length m) false)
      two past =
          let le : length front ≤ length m =
            ground
              (arith, s.size, s.head, ap length e, length-append m r, length-append front back) in
          let cut = append-cut front back m r (sym e) le in
          (
            read_split-Wrapped rb small m r front (drop (length front) m) back f cut.0 cut.1 s,
            peek_split_lem rb m front (drop (length front) m) r back f small cut.0 cut.1 s,
          )

  read_common-Straight :
      (h f : ℕ)
      → Straight rb (m ++ r) h f
      → Returns (ReadsTo rb m r) (ring_buffer_read_common rb (length m) true)
        × Returns (PeeksAt rb m) (ring_buffer_read_common rb (length m) false)
  unfolding ring_buffer_read_common
  read_common-Straight h f s =
      rw (not_empty, enough (straight h f s), within)
        (
          read_straight-Straight rb small m r h f s,
          peek_straight_lem rb m (replicate h poison) (r ++ replicate f poison)
              (s.bytes ∙ simp append_assoc) (omega (arith, s.head, length-replicate h poison)),
        )
    where
      within : leb (add_size rb.head (length m)) rb.size ≡ true
      within =
          le→leb (add_size rb.head (length m)) rb.size
            (omega (arith, s.head, s.size, length-append m r, small))

  -- Reading as many bytes as `m` has takes `m` off the front, and peeking returns it.
  pub read_common-Holds :
      Holds rb (m ++ r)
      → Returns (ReadsTo rb m r) (ring_buffer_read_common rb (length m) true)
        × Returns (PeeksAt rb m) (ring_buffer_read_common rb (length m) false)
  read_common-Holds (straight h f s) = read_common-Straight h f s
  read_common-Holds (wrapped front back f e s) = read_common-Wrapped front back f e s
