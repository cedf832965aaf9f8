-- ===== src/RingBuffer/Access.antt =====
-- The copies that ring_buffer.c makes, at an array that is known in three parts.
use uoft_operating_systems.Common.{
  ℕ, zero, suc, ◌≡◌, refl, ap, sym, ◌∙◌, List, ◌++◌, length, replicate, length-replicate, ok,
  load_range, store_range, load_range-mid, store_range-mid,
}
use uoft_operating_systems.RingBuffer.{poison, mark_free, assert_poison, check_free}

module _ (mem a b c : List ℕ) (off : ℕ) (parts : mem ≡ a ++ (b ++ c)) (at : off ≡ length a) where
  pub load_at : (n : ℕ) → n ≡ length b → load_range mem off n ≡ ok b
  load_at n e = ap (λ m. load_range m off n) parts ∙ load_range-mid a b c off n at e

  pub store_at : (xs : List ℕ) → length xs ≡ length b → store_range mem off xs ≡ ok (a ++ (xs ++ c))
  store_at xs e = ap (λ m. store_range m off xs) parts ∙ store_range-mid a b xs c off at e

  pub mark_at : (n : ℕ) → n ≡ length b → mark_free mem off n ≡ ok (a ++ (replicate n poison ++ c))
  unfolding mark_free
  mark_at n e = store_at (replicate n poison) (length-replicate n poison ∙ e)

assert_poison-replicate : (n : ℕ) → assert_poison (replicate n poison) ≡ ok tt
unfolding assert_poison
assert_poison-replicate zero = refl
assert_poison-replicate (suc n) = assert_poison-replicate n

pub check_at :
    (mem a c : List ℕ) (off n : ℕ)
    → mem ≡ a ++ (replicate n poison ++ c)
    → off ≡ length a
    → check_free mem off n ≡ ok tt
unfolding check_free
check_at mem a c off n parts at =
    rw (load_at mem a (replicate n poison) c off parts at n (sym (length-replicate n poison)))
      (assert_poison-replicate n)
