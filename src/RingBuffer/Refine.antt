-- ===== src/RingBuffer/Refine.antt =====
-- The calls of ring_buffer.h refine the queue of blocks.
use uoft_operating_systems.Common.{
  ℕ, ◌+◌, ◌-◌, ◌<◌, ◌≡◌, refl, sym, ap, ◌∙◌, Bool, true, false, List, [], ◌++◌, inl, inr, arith,
  length, take, drop, length-take, take-append-drop, ok, Returns, Returns-bind, ◌==◌, ltb, leb,
  Bool-cases, ne→==,
}
use mathlib.Core.Path.{subst}
use uoft_operating_systems.Validator.{validator_exit, validator_enter, enter-idle, exit-enter}
use uoft_operating_systems.RingBuffer.{
  RingBuffer, free_space, used_space, mark_full, enter, exit, ring_buffer_write, ring_buffer_read,
  ring_buffer_peek, ring_buffer_read_common, ring_buffer_used, ring_buffer_free,
}
use uoft_operating_systems.RingBuffer.Holds.{
  Holds, Represents, Holds-validator, free_space-Holds, used_space-Holds, length-le-size,
}
use uoft_operating_systems.RingBuffer.Queue
use uoft_operating_systems.RingBuffer.Remove.{ReadsTo}
use uoft_operating_systems.RingBuffer.Peek.{PeeksAt}
use uoft_operating_systems.RingBuffer.Read.{read_common-Holds}
use uoft_operating_systems.RingBuffer.Insert.{WritesTo}
use uoft_operating_systems.RingBuffer.Write.{copies-Holds}

mark_full_keeps :
    (rb : RingBuffer) → ((mark_full rb).size ≡ rb.size) × ((mark_full rb).validator ≡ rb.validator)
unfolding mark_full
mark_full_keeps rb = elim (Bool-cases (rb.head == rb.tail)) [
  | inl eq ↦ rw eq (refl, refl)
  | inr ne ↦ rw ne (refl, refl)
]

-- The buffer stands for `q`, with the capacity and the reports that it had.
pub record Becomes (rb : RingBuffer) (q : List ℕ) (rb' : RingBuffer) : Type 0 where
  pub represents : Represents rb' q
  pub size : rb'.size ≡ rb.size
  pub reports : rb'.validator.reports ≡ rb.validator.reports

module _ (self : ℕ) (rb : RingBuffer) (q : List ℕ) (r : Represents rb q) where
  inside : validator_enter self rb.validator ≡ record (rb.validator) { owner = self }
  inside = enter-idle self rb.validator r.idle

  entered : Holds (enter self rb) q
  entered = Holds-validator (validator_enter self rb.validator) r.shape

  -- Leaving a buffer whose validator was not touched since it was entered.
  left :
      (rb' : RingBuffer) (q' : List ℕ)
      → Holds rb' q'
      → rb'.size ≡ rb.size
      → rb'.validator ≡ validator_enter self rb.validator
      → Becomes rb q' (exit self rb')
  left rb' q' shape size same = record {
    represents = record {
      shape = Holds-validator (validator_exit self rb'.validator) shape;
      small = omega (arith, size, r.small);
      idle = ap (λ v. v.owner) out;
    };
    size = size;
    reports = ap (λ v. v.reports) out;
  }
    where
      own : rb'.validator ≡ record (rb.validator) { owner = self }
      own = same ∙ inside

      out : validator_exit self rb'.validator ≡ record (rb.validator) { owner = 0 }
      out =
          ap (validator_exit self) own
          ∙ exit-enter self (record (rb.validator) { owner = self }) refl

  -- `n` bytes can be cut off the front.
  cut : {n : ℕ} → leb n (length q) ≡ true → length (take n q) ≡ n
  cut {n} fits = ground (arith, length-take n q)

  -- Too long a read changes nothing and stores nothing.
  refused :
      (n : ℕ)
      → 0 < n
      → leb n (length q) ≡ false
      → (remove : Bool)
      → ring_buffer_read_common (enter self rb) n remove ≡ ok (false, [], enter self rb)
  unfolding ring_buffer_read_common
  refused n pos over remove = rw (ne→== n 0 (λ e. omega arith), more)
    where
      more : ltb (used_space (enter self rb)) n ≡ true
      more = ground (arith, used_space-Holds (enter self rb) q entered r.small)

  -- On a buffer that stands for `q`, the write of a block other than the empty one fails no assertion
  -- and no access is out of bounds, it answers as `Queue.write` does, and the buffer then stands for
  -- the queue that is left, with the same capacity and no new report of its validator.
  pub ring_buffer_write-refines :
      (w : List ℕ)
      → 0 < length w
      → Returns
          (λ (done, rb').
            (done ≡ (Queue.write rb.size q w).0) × Becomes rb (Queue.write rb.size q w).1 rb')
          (ring_buffer_write self rb w)
  unfolding ring_buffer_write Queue.write
  ring_buffer_write-refines w pos =
      rw nonzero (elim (Bool-cases (leb (length q + length w) rb.size)) [
        | inl fits ↦
            rw (fits, accepts fits)
              (Returns-bind (WritesTo (enter self rb) (q ++ w)) _ _ _
                (copies-Holds (enter self rb) r.small w pos q (ground arith) entered)
                (λ rb' (shape, size, same). (
                  refl,
                  left (mark_full rb') (q ++ w) shape ((mark_full_keeps rb').0 ∙ size)
                      ((mark_full_keeps rb').1 ∙ same),
                )))
        | inr over ↦ rw (over, refuses over) (refl, left (enter self rb) q entered refl refl)
      ])
    where
      nonzero : (length w == 0) ≡ false
      nonzero = ground arith

      accepts :
          leb (length q + length w) rb.size ≡ true
          → ltb (free_space (enter self rb)) (length w) ≡ false
      accepts fits = ground (arith, free_space-Holds (enter self rb) q entered r.small)

      refuses :
          leb (length q + length w) rb.size ≡ false
          → ltb (free_space (enter self rb)) (length w) ≡ true
      refuses over =
          ground
            (arith, free_space-Holds (enter self rb) q entered r.small, length-le-size rb q r.shape)

  -- On a buffer that stands for `q`, a read of `n` bytes, `n` not 0, fails no assertion and no access
  -- is out of bounds, it answers and stores what `Queue.read` does, and the buffer then stands for the
  -- queue that is left, with the same capacity and no new report of its validator.
  pub ring_buffer_read-refines :
      (n : ℕ)
      → 0 < n
      → Returns
          (λ (done, bytes, rb').
            (done ≡ (Queue.read q n).0)
            × (bytes ≡ (Queue.read q n).1)
            × Becomes rb (Queue.read q n).2 rb')
          (ring_buffer_read self rb n)
  unfolding ring_buffer_read Queue.read
  ring_buffer_read-refines n pos = elim (Bool-cases (leb n (length q))) [
    | inl fits ↦ rw fits (
        Returns-bind (ReadsTo (enter self rb) (take n q) (drop n q)) _ _ _
          (subst
            (λ k.
              Returns (ReadsTo (enter self rb) (take n q) (drop n q))
                (ring_buffer_read_common (enter self rb) k true))
            (cut fits)
            (read_common-Holds (enter self rb) r.small (take n q) (drop n q)
              (ground (arith, cut fits))
              (subst (Holds (enter self rb)) (sym (take-append-drop n q)) entered)).0)
          (λ (done, bytes, rb') (d, b, shape, size, same).
            (d, b, left rb' (drop n q) shape size same)))
    | inr over ↦
        rw (over, refused n pos over true) (refl, refl, left (enter self rb) q entered refl refl)
  ]

  -- On a buffer that stands for `q`, a peek at `n` bytes, `n` not 0, fails no assertion and no access
  -- is out of bounds, it answers and stores what `Queue.peek` does, and the buffer still stands for
  -- `q`, with the same capacity and no new report of its validator.
  pub ring_buffer_peek-refines :
      (n : ℕ)
      → 0 < n
      → Returns
          (λ (done, bytes, rb').
            (done ≡ (Queue.peek q n).0)
            × (bytes ≡ (Queue.peek q n).1)
            × Becomes rb (Queue.peek q n).2 rb')
          (ring_buffer_peek self rb n)
  unfolding ring_buffer_peek Queue.peek
  ring_buffer_peek-refines n pos = elim (Bool-cases (leb n (length q))) [
    | inl fits ↦ rw fits (
        Returns-bind (PeeksAt (enter self rb) (take n q)) _ _ _
          (subst
            (λ k.
              Returns (PeeksAt (enter self rb) (take n q))
                (ring_buffer_read_common (enter self rb) k false))
            (cut fits)
            (read_common-Holds (enter self rb) r.small (take n q) (drop n q)
              (ground (arith, cut fits))
              (subst (Holds (enter self rb)) (sym (take-append-drop n q)) entered)).1)
          (λ (done, bytes, rb') (d, b, same). (
            d,
            b,
            left rb' q (subst (λ t. Holds t q) (sym same) entered) (ap (λ t. t.size) same)
                (ap (λ t. t.validator) same),
          )))
    | inr over ↦
        rw (over, refused n pos over false) (refl, refl, left (enter self rb) q entered refl refl)
  ]

  -- On a buffer that stands for `q`, `ring_buffer_used` is the length of `q`, and the buffer still
  -- stands for `q`, with the same capacity and no new report of its validator.
  pub ring_buffer_used-refines :
      ((ring_buffer_used self rb).0 ≡ length q) × Becomes rb q (ring_buffer_used self rb).1
  unfolding ring_buffer_used
  ring_buffer_used-refines =
      (used_space-Holds (enter self rb) q entered r.small, left (enter self rb) q entered refl refl)

  -- On a buffer that stands for `q`, `ring_buffer_free` is what the capacity leaves beside `q`, and
  -- the buffer still stands for `q`, with the same capacity and no new report of its validator.
  pub ring_buffer_free-refines :
      ((ring_buffer_free self rb).0 ≡ rb.size - length q)
      × Becomes rb q (ring_buffer_free self rb).1
  unfolding ring_buffer_free
  ring_buffer_free-refines =
      (free_space-Holds (enter self rb) q entered r.small, left (enter self rb) q entered refl refl)
