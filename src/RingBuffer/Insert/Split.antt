-- ===== src/RingBuffer/Insert/Split.antt =====
-- The copy of ring_buffer.c that puts bytes in at the end and goes on at the start of the buffer.
use uoft_operating_systems.Common.{
  ℕ, ◌+◌, ◌-◌, ◌^◌, ◌≤◌, ◌<◌, ◌≡◌, refl, ap, sym, ◌∙◌, Bool, true, List, [], ◌++◌, inl, inr,
  append-nil, append_assoc, arith, length, take, drop, replicate, length-append, length-replicate,
  length-take, length-drop, take-append-drop, take-append_at, Returns, ok, store_range, sub_size,
  ◌==◌, Bool-cases,
}
use uoft_operating_systems.RingBuffer.{RingBuffer, poison, check_free, mark_full, write_split}
use uoft_operating_systems.RingBuffer.Holds.{Straight, Holds, wrapped}
use uoft_operating_systems.RingBuffer.Access.{store_at, check_at}
use uoft_operating_systems.RingBuffer.Insert.{WritesTo, replicate-split}

module _ (rb : RingBuffer) (small : rb.size < 2 ^ 63) (w : List ℕ) (pos : 0 < length w) where
  -- Past the end of the array: two copies.
  pub write_split-Straight :
      (q : List ℕ) (h f : ℕ)
      → f < length w
      → length w ≤ h + f
      → Straight rb q h f
      → Returns (WritesTo rb (q ++ w)) (write_split rb w)
  unfolding write_split mark_full
  write_split-Straight q h f past fits s =
      rw (first, check₁, store₁, second, check₂, store₂)
        (elim (Bool-cases (rb.head == length w₂)) [
          | inl eq ↦ rw eq (shape true (ground (arith, s.head, len₂)), refl, refl)
          | inr ne ↦ rw ne (shape rb.full (ground (arith, s.head, s.full, len₂)), refl, refl)
        ])
    where
      w₁ : List ℕ
      w₁ = take f w

      w₂ : List ℕ
      w₂ = drop f w

      len₂ : length w₂ ≡ length w - f
      len₂ = length-drop f w

      k : ℕ
      k = h - length w₂

      front : List ℕ
      front = replicate h poison ++ q

      first : sub_size rb.size rb.tail ≡ f
      first = omega (arith, s.size, s.tail, small)

      second : sub_size (length w) f ≡ length w₂
      second = omega (arith, len₂, s.size, small)

      parts : rb.buffer ≡ front ++ (replicate f poison ++ [])
      parts = s.bytes ∙ simp (append_assoc, append-nil)

      at : rb.tail ≡ length front
      at = omega (arith, s.tail, length-append (replicate h poison) q, length-replicate h poison)

      check₁ : check_free rb.buffer rb.tail f ≡ ok tt
      check₁ = check_at rb.buffer front [] rb.tail f parts at

      store₁ : store_range rb.buffer rb.tail w₁ ≡ ok (front ++ (w₁ ++ []))
      store₁ =
          store_at rb.buffer front _ [] rb.tail parts at w₁
            (omega (arith, length-take f w, length-replicate f poison))

      parts₂ :
          front ++ (w₁ ++ [])
          ≡ [] ++ (replicate (length w₂) poison ++ (replicate k poison ++ (q ++ w₁)))
      parts₂ =
          ap (λ t. (t ++ q) ++ (w₁ ++ [])) (replicate-split (length w₂) k h (omega (arith, len₂)))
          ∙ simp (append_assoc, append-nil)

      check₂ : check_free (front ++ (w₁ ++ [])) 0 (length w₂) ≡ ok tt
      check₂ = check_at _ [] _ 0 (length w₂) parts₂ refl

      store₂ :
          store_range (front ++ (w₁ ++ [])) 0 (take (length w₂) w₂)
          ≡ ok ([] ++ (w₂ ++ (replicate k poison ++ (q ++ w₁))))
      store₂ =
          ap (store_range (front ++ (w₁ ++ [])) 0) whole
          ∙ store_at _ [] _ _ 0 parts₂ refl w₂ (sym (length-replicate (length w₂) poison))
        where
          whole : take (length w₂) w₂ ≡ w₂
          whole =
              sym (ap (take (length w₂)) (append-nil w₂)) ∙ take-append_at (length w₂) w₂ [] refl

      shape :
          (full : Bool)
          → full ≡ (k == 0)
          → Holds
              (record rb {
                buffer = w₂ ++ (replicate k poison ++ (q ++ w₁));
                tail = length w₂;
                full = full;
              })
              (q ++ w)
      shape full d = wrapped (q ++ w₁) w₂ k joined (record {
        bytes = refl;
        size = omega (arith, s.size, len₂, length-append q w₁, length-take f w);
        filled = omega (arith, s.room, length-append q w₁, length-take f w);
        head = omega (arith, s.head, len₂);
        tail = refl;
        full = d;
      })
        where
          joined : q ++ w ≡ (q ++ w₁) ++ w₂
          joined = ap (λ t. q ++ t) (sym (take-append-drop f w)) ∙ sym (append_assoc q w₁ w₂)
