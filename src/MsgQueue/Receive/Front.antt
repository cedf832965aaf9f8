-- ===== src/MsgQueue/Receive/Front.antt =====
-- `msg_queue_read` where the ring buffer holds a message.
use uoft_operating_systems.Common.{
  ℕ, ◌-◌, ◌^◌, ◌<◌, ◌≡◌, refl, ◌∙◌, true, not, ◌&&◌, List, ◌∷◌, ◌++◌, inl, inr, append_assoc, arith,
  length, length-append, ◌==◌, Bool-cases, ok, Returns,
}
use mathlib.Core.Path.{subst}
use uoft_operating_systems.RingBuffer.{RingBuffer, ring_buffer_peek, ring_buffer_read}
use uoft_operating_systems.RingBuffer.Holds.{Represents, length-le-size}
use uoft_operating_systems.RingBuffer.Exact.{peek_exact, read_exact}
use uoft_operating_systems.MsgQueue.Frame.{
  bytes_of, of_bytes, frame, frames, length-bytes_of, of_bytes-bytes_of,
}
use uoft_operating_systems.MsgQueue.Backend.{Backend, writable_event}
use uoft_operating_systems.MsgQueue.Receive.{settle_readable, read_message}
use uoft_operating_systems.MsgQueue.Mailbox.{Mailbox, weight, take_from}
use uoft_operating_systems.MsgQueue.Carries.{
  Carries, Agrees, test_empty-Carries, Carries-raise, Carries-lower,
}

settle_readable-Carries :
    (self : ℕ) (mq : Backend) (box : Mailbox)
    → Carries mq box
    → Carries (settle_readable self mq) box
unfolding settle_readable
settle_readable-Carries self mq box c =
    rw (test_empty-Carries self mq box c)
      (elim (Bool-cases ((weight box.messages == 0) && not mq.no_writers)) [
        | inl yes' ↦ rw yes' (Carries-lower (2 ^ 32 - 2) mq box c)
        | inr no' ↦ rw no' c
      ])

-- The three accesses to the ring buffer, at a queue with a first message.
module _ (self : ℕ) (rb : RingBuffer) (m : List ℕ) (ms : List (List ℕ))
    (r : Represents rb (frames (m ∷ ms))) where
  header : List ℕ
  header = bytes_of 8 (length m)

  whole : Represents rb (header ++ (m ++ frames ms))
  unfolding frames frame header
  whole = subst (Represents rb) (append_assoc (bytes_of 8 (length m)) m (frames ms)) r

  len8 : length header ≡ 8
  unfolding header
  len8 = length-bytes_of 8 (length m)

  peek_header : ring_buffer_peek self rb 8 ≡ ok (true, header, rb)
  peek_header =
      subst (λ k. ring_buffer_peek self rb k ≡ ok (true, header, rb)) len8
        (peek_exact self rb header (m ++ frames ms) whole (omega (arith, len8)))

  decoded : of_bytes header ≡ length m
  unfolding header
  decoded = of_bytes-bytes_of 8 (length m) (
      omega (
        arith,
        whole.small,
        length-le-size rb (header ++ (m ++ frames ms)) whole.shape,
        length-append header (m ++ frames ms),
        length-append m (frames ms),
      ))

  -- The header and then the body are taken out.
  taken :
      0 < length m
      → (rb₁ rb₂ : RingBuffer) × (ring_buffer_read self rb 8 ≡ ok (true, header, rb₁))
        × (ring_buffer_read self rb₁ (length m) ≡ ok (true, m, rb₂))
        × Represents rb₂ (frames ms)
        × (rb₂.size ≡ rb.size)
  taken pos =
      let (rb₁, e₁, b₁) = read_exact self rb header (m ++ frames ms) whole (omega (arith, len8)) in
      let (rb₂, e₂, b₂) = read_exact self rb₁ m (frames ms) b₁.represents pos in
      (
        rb₁,
        rb₂,
        subst (λ k. ring_buffer_read self rb k ≡ ok (true, header, rb₁)) len8 e₁,
        e₂,
        b₂.represents,
        b₂.size ∙ b₁.size,
      )

module _ (self : ℕ) (mq : Backend) (box : Mailbox) where
  -- A queue with a first message gives it.
  pub read_message-front :
      (m : List ℕ) (ms : List (List ℕ)) (len : ℕ)
      → Carries mq (record box { messages = m ∷ ms })
      → (flags : ℕ) → Returns (Agrees (take_from flags len box (m ∷ ms))) (read_message self mq len)
  unfolding read_message take_from
  read_message-front m ms len c flags =
      let (rb₁, rb₂, e₁, e₂, r, size) = taken self mq.buffer m ms c.bytes c.filled.0 in
      rw (peek_header self mq.buffer m ms c.bytes, e₁, decoded self mq.buffer m ms c.bytes, e₂)
        (
          refl,
          Carries-raise writable_event _ _ (
              settle_readable-Carries self (record mq { buffer = rb₂ })
                (record box { messages = ms })
                (record {
                  bytes = r;
                  filled = c.filled.1;
                  list_idle = c.list_idle;
                  capacity = size ∙ c.capacity;
                  readers_gone = c.readers_gone;
                  writers_gone = c.writers_gone;
                })),
        )
