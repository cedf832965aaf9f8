-- ===== src/RingBuffer/Remove.antt =====
-- The copies of ring_buffer.c that take bytes out of the buffer, on each shape of the array.
use uoft_operating_systems.Common.{
  ℕ, ◌+◌, ◌^◌, ◌<◌, ◌≡◌, refl, ap, sym, ◌∙◌, true, false, List, [], ◌∷◌, ◌++◌, append-nil,
  append_assoc, arith, length, replicate, length-append, length-replicate, replicate-add, Returns,
  ok, load_range, add_size, sub_size, ◌==◌, if◌then◌else◌,
}
use uoft_operating_systems.RingBuffer.{
  RingBuffer, poison, mark_free, ReadResult, read_straight, read_split,
}
use uoft_operating_systems.RingBuffer.Holds.{Straight, Wrapped, Holds, straight, wrapped}
use uoft_operating_systems.RingBuffer.Access.{load_at, mark_at}

-- What a read of the bytes `m` leaves: they are stored, and `r` stays in the buffer.
abbrev pub ReadsTo : RingBuffer → List ℕ → List ℕ → ReadResult → Type 0
ReadsTo rb m r (result, bytes, rb') =
    (result ≡ true)
    × (bytes ≡ m)
    × Holds rb' r
    × (rb'.size ≡ rb.size)
    × (rb'.validator ≡ rb.validator)

module _ (rb : RingBuffer) (small : rb.size < 2 ^ 63) (m r : List ℕ) where
  pub read_straight-Straight :
      (h f : ℕ)
      → Straight rb (m ++ r) h f
      → Returns (ReadsTo rb m r) (read_straight rb (length m) true)
  unfolding read_straight
  read_straight-Straight h f s =
      rw (load, mark)
        (
          refl,
          refl,
          straight (h + length m) f (record {
            bytes = simp (replicate-add, append_assoc);
            size = omega (arith, s.size, length-append m r);
            room = s.room;
            head = ground (arith, s.head, s.size, s.room, length-append m r);
            tail = omega (arith, s.tail, length-append m r);
            full = refl;
          }),
          refl,
          refl,
        )
    where
      parts : rb.buffer ≡ replicate h poison ++ (m ++ (r ++ replicate f poison))
      parts = s.bytes ∙ simp append_assoc

      at : rb.head ≡ length (replicate h poison)
      at = s.head ∙ sym (length-replicate h poison)

      load : load_range rb.buffer rb.head (length m) ≡ ok m
      load = load_at rb.buffer _ m _ rb.head parts at (length m) refl

      mark :
          mark_free rb.buffer rb.head (length m)
          ≡ ok (replicate h poison ++ (replicate (length m) poison ++ (r ++ replicate f poison)))
      mark = mark_at rb.buffer _ m _ rb.head parts at (length m) refl

  -- The bytes read stand before the end of the array, or right up to it.
  pub read_straight-Wrapped :
      (rest back : List ℕ) (f : ℕ)
      → r ≡ rest ++ back
      → 0 < length m
      → Wrapped rb (m ++ rest) back f
      → Returns (ReadsTo rb m r) (read_straight rb (length m) true)
  unfolding read_straight
  read_straight-Wrapped rest back f e pos s =
      rw (load, mark) (refl, refl, shape rest e s.size, refl, refl)
    where
      gap : List ℕ
      gap = back ++ replicate f poison

      parts : rb.buffer ≡ gap ++ (m ++ rest)
      parts = s.bytes ∙ simp append_assoc

      at : rb.head ≡ length gap
      at = omega (arith, s.head, length-append back (replicate f poison), length-replicate f poison)

      load : load_range rb.buffer rb.head (length m) ≡ ok m
      load = load_at rb.buffer gap m rest rb.head parts at (length m) refl

      mark :
          mark_free rb.buffer rb.head (length m) ≡ ok (gap ++ (replicate (length m) poison ++ rest))
      mark = mark_at rb.buffer gap m rest rb.head parts at (length m) refl

      after : List ℕ → RingBuffer
      after rest = record rb {
        buffer = gap ++ (replicate (length m) poison ++ rest);
        head = if add_size rb.head (length m) == rb.size then 0 else add_size rb.head (length m);
        full = false;
      }

      shape :
          (rest : List ℕ)
          → r ≡ rest ++ back
          → rb.size ≡ length back + f + length (m ++ rest)
          → Holds (after rest) r
      shape [] e sz = straight 0 (f + length m) (record {
        bytes = simp (e, replicate-add, append_assoc, append-nil);
        size = omega (arith, sz, ap length e, length-append m []);
        room = omega arith;
        head = ground (arith, s.head, sz, length-append m []);
        tail = omega (arith, s.tail, ap length e);
        full = refl;
      })
      shape (x ∷ rest) e sz = wrapped (x ∷ rest) back (f + length m) e (record {
        bytes = simp (replicate-add, append_assoc);
        size = omega (arith, sz, length-append m (x ∷ rest));
        filled = omega arith;
        head = ground (arith, s.head, sz, length-append m (x ∷ rest));
        tail = s.tail;
        full = ground arith;
      })

  -- The bytes read end past the end of the array: two copies.
  pub read_split-Wrapped :
      (front m₂ back : List ℕ) (f : ℕ)
      → m ≡ front ++ m₂
      → back ≡ m₂ ++ r
      → Wrapped rb front back f
      → Returns (ReadsTo rb m r) (read_split rb (length m) true)
  unfolding read_split
  read_split-Wrapped front m₂ back f em eb s =
      rw (first, second, load₁, mark₁, load₂, mark₂)
        (
          refl,
          sym em,
          straight (length m₂) (f + length front) (record {
            bytes = simp replicate-add;
            size = omega (arith, s.size, ap length eb, length-append m₂ r);
            room = omega (arith, s.filled);
            head = refl;
            tail = omega (arith, s.tail, ap length eb, length-append m₂ r);
            full = refl;
          }),
          refl,
          refl,
        )
    where
      gap : List ℕ
      gap = back ++ replicate f poison

      tail_part : List ℕ
      tail_part = r ++ (replicate f poison ++ replicate (length front) poison)

      parts : rb.buffer ≡ gap ++ (front ++ [])
      parts = s.bytes ∙ simp (append_assoc, append-nil)

      at : rb.head ≡ length gap
      at = omega (arith, s.head, length-append back (replicate f poison), length-replicate f poison)

      first : sub_size rb.size rb.head ≡ length front
      first = omega (arith, s.size, s.head, small)

      second : sub_size (length m) (length front) ≡ length m₂
      second = omega (
        arith,
        ap length em,
        length-append front m₂,
        ap length eb,
        length-append m₂ r,
        s.size,
        small,
      )

      load₁ : load_range rb.buffer rb.head (length front) ≡ ok front
      load₁ = load_at rb.buffer gap front [] rb.head parts at (length front) refl

      mark₁ :
          mark_free rb.buffer rb.head (length front)
          ≡ ok (gap ++ (replicate (length front) poison ++ []))
      mark₁ = mark_at rb.buffer gap front [] rb.head parts at (length front) refl

      parts₂ : gap ++ (replicate (length front) poison ++ []) ≡ [] ++ (m₂ ++ tail_part)
      parts₂ = rw eb (simp (append_assoc, append-nil))

      load₂ : load_range (gap ++ (replicate (length front) poison ++ [])) 0 (length m₂) ≡ ok m₂
      load₂ = load_at _ [] m₂ tail_part 0 parts₂ refl (length m₂) refl

      mark₂ :
          mark_free (gap ++ (replicate (length front) poison ++ [])) 0 (length m₂)
          ≡ ok ([] ++ (replicate (length m₂) poison ++ tail_part))
      mark₂ = mark_at _ [] m₂ tail_part 0 parts₂ refl (length m₂) refl
