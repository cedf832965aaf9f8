-- ===== src/RingBuffer/Peek.antt =====
-- The copies of ring_buffer.c that leave the bytes in the buffer.
use uoft_operating_systems.Common.{
  ℕ, ◌^◌, ◌<◌, ◌≡◌, refl, ap, sym, ◌∙◌, true, false, List, [], ◌++◌, append-nil, append_assoc,
  arith, length, replicate, length-append, length-replicate, Returns, ok, load_range, sub_size,
}
use uoft_operating_systems.RingBuffer.{RingBuffer, poison, ReadResult, read_straight, read_split}
use uoft_operating_systems.RingBuffer.Holds.{Wrapped}
use uoft_operating_systems.RingBuffer.Access.{load_at}

-- The bytes `m` are stored, and the buffer is as it was.
abbrev pub PeeksAt : RingBuffer → List ℕ → ReadResult → Type 0
PeeksAt rb m (result, bytes, rb') = (result ≡ true) × (bytes ≡ m) × (rb' ≡ rb)

module _ (rb : RingBuffer) (m : List ℕ) where
  pub peek_straight_lem :
      (a c : List ℕ)
      → rb.buffer ≡ a ++ (m ++ c)
      → rb.head ≡ length a
      → Returns (PeeksAt rb m) (read_straight rb (length m) false)
  unfolding read_straight
  peek_straight_lem a c parts at =
      rw (load_at rb.buffer a m c rb.head parts at (length m) refl) (refl, refl, refl)

  pub peek_split_lem :
      (front m₂ r back : List ℕ) (f : ℕ)
      → rb.size < 2 ^ 63
      → m ≡ front ++ m₂
      → back ≡ m₂ ++ r
      → Wrapped rb front back f
      → Returns (PeeksAt rb m) (read_split rb (length m) false)
  unfolding read_split
  peek_split_lem front m₂ r back f small em eb s =
      rw (first, second, load₁, load₂) (refl, sym em, refl)
    where
      gap : List ℕ
      gap = back ++ replicate f poison

      first : sub_size rb.size rb.head ≡ length front
      first = omega (arith, s.size, s.head, small)

      second : sub_size (length m) (length front) ≡ length m₂
      second = omega (
        arith,
        ap length em,
        length-append front m₂,
        ap length eb,
        length-append m₂ r,
        s.size,
        small,
      )

      load₁ : load_range rb.buffer rb.head (length front) ≡ ok front
      load₁ =
          load_at rb.buffer gap front [] rb.head (s.bytes ∙ simp (append_assoc, append-nil))
            (omega
              (arith, s.head, length-append back (replicate f poison), length-replicate f poison))
            (length front) refl

      load₂ : load_range rb.buffer 0 (length m₂) ≡ ok m₂
      load₂ =
          load_at rb.buffer [] m₂ (r ++ (replicate f poison ++ front)) 0
            (s.bytes ∙ rw eb (simp append_assoc)) refl (length m₂) refl
