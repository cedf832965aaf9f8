-- ===== src/RingBuffer/Exact.antt =====
-- The calls of ring_buffer.h at a known content, as equations that a client rewrites by.
use uoft_operating_systems.Common.{
  ℕ, ◌+◌, ◌-◌, ◌≤◌, ◌<◌, ◌≡◌, refl, sym, ap, ◌∙◌, Bool, true, false, List, ◌++◌, arith, length,
  length-append, take-append_at, drop-append_at, ok, Returns-value, le→leb,
}
use mathlib.Core.Path.{subst}
use uoft_operating_systems.Validator.{
  Validator, validator_enter, validator_exit, enter-idle, exit-enter,
}
use uoft_operating_systems.RingBuffer.{
  RingBuffer, enter, exit, ring_buffer_write, ring_buffer_read, ring_buffer_peek,
  ring_buffer_read_common, ring_buffer_used, ring_buffer_free,
}
use uoft_operating_systems.RingBuffer.Holds.{Represents, Holds-validator}
use uoft_operating_systems.RingBuffer.Read.{read_common-Holds}
use uoft_operating_systems.RingBuffer.Queue
use uoft_operating_systems.RingBuffer.Queue.{Queue}
use uoft_operating_systems.RingBuffer.Peek.{PeeksAt}
use uoft_operating_systems.RingBuffer.Refine.{
  Becomes, ring_buffer_write-refines, ring_buffer_read-refines, ring_buffer_used-refines,
  ring_buffer_free-refines,
}

set_owner : (v : Validator) → v.owner ≡ 0 → record v { owner = 0 } ≡ v
set_owner v idle = λ i. record v { owner = sym idle i }

-- Entering and leaving an idle buffer leaves it as it was.
exit-enter-idle :
    (self : ℕ) (rb : RingBuffer) → rb.validator.owner ≡ 0 → exit self (enter self rb) ≡ rb
exit-enter-idle self rb idle = λ i. record rb { validator = same i }
  where
    same : validator_exit self (validator_enter self rb.validator) ≡ rb.validator
    same =
        ap (validator_exit self) (enter-idle self rb.validator idle)
        ∙ exit-enter self (record (rb.validator) { owner = self }) refl
        ∙ set_owner rb.validator idle

module _ (self : ℕ) (rb : RingBuffer) (q : List ℕ) (r : Represents rb q) where
  pub used_exact : ring_buffer_used self rb ≡ (length q, rb)
  unfolding ring_buffer_used
  used_exact = λ i. ((ring_buffer_used-refines self rb q r).0 i, exit-enter-idle self rb r.idle i)

  pub free_exact : ring_buffer_free self rb ≡ (rb.size - length q, rb)
  unfolding ring_buffer_free
  free_exact = λ i. ((ring_buffer_free-refines self rb q r).0 i, exit-enter-idle self rb r.idle i)

  pub write_exact :
      (w : List ℕ)
      → 0 < length w
      → length q + length w ≤ rb.size
      → (rb' : RingBuffer) × (ring_buffer_write self rb w ≡ ok (true, rb'))
        × Becomes rb (q ++ w) rb'
  unfolding Queue.write
  write_exact w pos fits =
      let ((done, rb'), e, (d, b)) =
        Returns-value _ (ring_buffer_write self rb w)
          (ring_buffer_write-refines self rb q r w pos) in
      let whole : Queue.write rb.size q w ≡ (true, q ++ w) =
        rw (le→leb (length q + length w) rb.size fits) in
      (
        rb',
        e ∙ (λ i. ok ((d ∙ ap (λ t. t.0) whole) i, rb')),
        subst (λ (t : Bool × Queue). Becomes rb t.1 rb') whole b,
      )

-- The first bytes of the content, removed or left.
module _ (self : ℕ) (rb : RingBuffer) (m q : List ℕ) (r : Represents rb (m ++ q))
    (pos : 0 < length m) where
  pub read_exact :
      (rb' : RingBuffer) × (ring_buffer_read self rb (length m) ≡ ok (true, m, rb'))
      × Becomes rb q rb'
  unfolding Queue.read
  read_exact =
      let ((done, bytes, rb'), e, (d, f, b)) =
        Returns-value _ (ring_buffer_read self rb (length m))
          (ring_buffer_read-refines self rb (m ++ q) r (length m) pos) in
      let whole : Queue.read (m ++ q) (length m) ≡ (true, m, q) = rw (
        le→leb (length m) (length (m ++ q)) (omega (arith, length-append m q)),
        take-append_at (length m) m q refl,
        drop-append_at (length m) m q refl,
      ) in
      (
        rb',
        e ∙ (λ i. ok ((d ∙ ap (λ t. t.0) whole) i, (f ∙ ap (λ t. t.1) whole) i, rb')),
        subst (λ (t : Bool × List ℕ × Queue). Becomes rb t.2 rb') whole b,
      )

  pub peek_exact : ring_buffer_peek self rb (length m) ≡ ok (true, m, rb)
  unfolding ring_buffer_peek
  peek_exact =
      let ((done, bytes, rb'), e, (d, f, same)) =
        Returns-value (PeeksAt (enter self rb) m)
          (ring_buffer_read_common (enter self rb) (length m) false)
          (read_common-Holds (enter self rb) r.small m q pos
            (Holds-validator (validator_enter self rb.validator) r.shape)).1 in
      rw e (λ i. ok (d i, f i, (ap (exit self) same ∙ exit-enter-idle self rb r.idle) i))
