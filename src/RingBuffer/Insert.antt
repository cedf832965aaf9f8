-- ===== src/RingBuffer/Insert.antt =====
-- The copies of ring_buffer.c that put bytes into the buffer, on each shape of the array.
pub mod Split
use uoft_operating_systems.Common.{
  ℕ, zero, suc, ◌+◌, ◌-◌, ◌^◌, ◌≤◌, ◌<◌, ◌≡◌, refl, ap, sym, ◌∙◌, Bool, true, false, List, [], ◌++◌,
  inl, inr, append-nil, append_assoc, arith, length, take, drop, replicate, length-append,
  length-replicate, length-take, length-drop, take-append-drop, take-append_at, replicate-add,
  Returns, ok, store_range, add_size, sub_size, ◌==◌, if◌then◌else◌, Bool-cases,
}
use uoft_operating_systems.RingBuffer.{
  RingBuffer, poison, check_free, mark_full, write_straight, write_split,
}
use uoft_operating_systems.RingBuffer.Holds.{Straight, Wrapped, Holds, straight, wrapped}
use uoft_operating_systems.RingBuffer.Access.{store_at, check_at}

-- What the copies of a write leave, once the flag is set.
abbrev pub WritesTo : RingBuffer → List ℕ → RingBuffer → Type 0
WritesTo rb q rb' = Holds (mark_full rb') q × (rb'.size ≡ rb.size) × (rb'.validator ≡ rb.validator)

replicate-split :
    (n k f : ℕ) → n + k ≡ f → replicate f poison ≡ replicate n poison ++ replicate k poison
replicate-split n k f e = ap (λ m. replicate m poison) (sym e) ∙ replicate-add n k poison

module _ (rb : RingBuffer) (small : rb.size < 2 ^ 63) (w : List ℕ) (pos : 0 < length w) where
  pub write_straight-Wrapped :
      (q front back : List ℕ) (f : ℕ)
      → q ≡ front ++ back
      → length w ≤ f
      → Wrapped rb front back f
      → Returns (WritesTo rb (q ++ w)) (write_straight rb w)
  unfolding write_straight mark_full
  write_straight-Wrapped q front back f e fits s =
      rw (check, store, tail_ne)
        (elim (Bool-cases (rb.head == add_size rb.tail (length w))) [
          | inl eq ↦ rw eq (shape true (ground (arith, s.head, s.tail, s.size)), refl, refl)
          | inr ne ↦
              rw ne (
                shape rb.full (ground (arith, s.head, s.tail, s.size, s.full, s.filled)),
                refl,
                refl,
              )
        ])
    where
      k : ℕ
      k = f - length w

      parts : rb.buffer ≡ back ++ (replicate (length w) poison ++ (replicate k poison ++ front))
      parts =
          s.bytes
          ∙ ap (λ t. back ++ (t ++ front)) (replicate-split (length w) k f (omega arith))
          ∙ simp append_assoc

      check : check_free rb.buffer rb.tail (length w) ≡ ok tt
      check = check_at rb.buffer back _ rb.tail (length w) parts s.tail

      store : store_range rb.buffer rb.tail w ≡ ok (back ++ (w ++ (replicate k poison ++ front)))
      store =
          store_at rb.buffer back _ _ rb.tail parts s.tail w
            (sym (length-replicate (length w) poison))

      tail_ne : (add_size rb.tail (length w) == rb.size) ≡ false
      tail_ne = ground (arith, s.tail, s.size, s.filled)

      shape :
          (full : Bool)
          → full ≡ (k == 0)
          → Holds
              (record rb {
                buffer = back ++ (w ++ (replicate k poison ++ front));
                tail = add_size rb.tail (length w);
                full = full;
              })
              (q ++ w)
      shape full d = wrapped front (back ++ w) k (rw e (append_assoc front back w)) (record {
        bytes = simp append_assoc;
        size = omega (arith, s.size, length-append back w);
        filled = s.filled;
        head = omega (arith, s.head, length-append back w);
        tail = omega (arith, s.tail, s.size, length-append back w);
        full = d;
      })

  -- In front of the end of the array, or right up to it.
  pub write_straight-Straight :
      (q : List ℕ) (h f : ℕ)
      → length w ≤ f
      → Straight rb q h f
      → Returns (WritesTo rb (q ++ w)) (write_straight rb w)
  unfolding write_straight mark_full
  write_straight-Straight q h f fits s = rw (check, store) (shape k refl)
    where
      k : ℕ
      k = f - length w

      front : List ℕ
      front = replicate h poison ++ q

      parts : rb.buffer ≡ front ++ (replicate (length w) poison ++ replicate k poison)
      parts =
          s.bytes
          ∙ ap (λ t. replicate h poison ++ (q ++ t)) (replicate-split (length w) k f (omega arith))
          ∙ simp append_assoc

      at : rb.tail ≡ length front
      at = omega (arith, s.tail, length-append (replicate h poison) q, length-replicate h poison)

      check : check_free rb.buffer rb.tail (length w) ≡ ok tt
      check = check_at rb.buffer front _ rb.tail (length w) parts at

      store : store_range rb.buffer rb.tail w ≡ ok (front ++ (w ++ replicate k poison))
      store =
          store_at rb.buffer front _ _ rb.tail parts at w (sym (length-replicate (length w) poison))

      after : ℕ → ℕ → Bool → RingBuffer
      after j tail full = record rb {
        buffer = front ++ (w ++ replicate j poison);
        tail = tail;
        full = full;
      }

      shape :
          (k' : ℕ)
          → k' ≡ k
          → WritesTo rb (q ++ w) (
              after k'
                (if add_size rb.tail (length w) == rb.size then 0 else add_size rb.tail (length w))
                rb.full)
      shape zero e = rw last (elim (Bool-cases (rb.head == 0)) [
        | inl eq ↦ rw eq (filled true (ground (arith, s.head)), refl, refl)
        | inr ne ↦ rw ne (filled rb.full (ground (arith, s.head, s.full)), refl, refl)
      ])
        where
          last : (add_size rb.tail (length w) == rb.size) ≡ true
          last = ground (arith, s.tail, s.size, small)

          filled : (full : Bool) → full ≡ (h == 0) → Holds (after 0 0 full) (q ++ w)
          filled full d = wrapped (q ++ w) [] h (sym (append-nil (q ++ w))) (record {
            bytes = simp (append_assoc, append-nil);
            size = omega (arith, s.size, length-append q w);
            filled = omega (arith, length-append q w);
            head = omega (arith, s.head);
            tail = refl;
            full = d;
          })
      shape (suc j) e =
          rw (before, apart)
            (
              straight h (suc j) (record {
                bytes = simp append_assoc;
                size = omega (arith, s.size, length-append q w);
                room = omega arith;
                head = s.head;
                tail = omega (arith, s.tail, s.size, length-append q w, small);
                full = s.full;
              }),
              refl,
              refl,
            )
        where
          before : (add_size rb.tail (length w) == rb.size) ≡ false
          before = ground (arith, s.tail, s.size, small)

          apart : (rb.head == add_size rb.tail (length w)) ≡ false
          apart = ground (arith, s.tail, s.head, s.size, small)
