-- ===== src/MsgQueue/Send/Refine.antt =====
-- `msg_queue_write` refines `Mailbox.send`.
use uoft_operating_systems.Common.{
  ℕ, ◌+◌, ◌-◌, ◌^◌, ◌≤◌, ◌<◌, ◌≡◌, refl, sym, ap, ◌∙◌, true, false, not, ◌&&◌, none, List, [], ◌∷◌,
  ◌++◌, inl, inr, append-nil, append_assoc, arith, length, length-append, ltb, leb, ◌==◌,
  if◌then◌else◌, add_size, Bool-cases, ok, Returns, Returns-bind,
}
use mathlib.Core.Path.{subst}
use uoft_operating_systems.RingBuffer.{RingBuffer, ring_buffer_write}
use uoft_operating_systems.RingBuffer.Holds.{Represents}
use uoft_operating_systems.RingBuffer.Exact.{write_exact, free_exact}
use uoft_operating_systems.MsgQueue.Frame.{bytes_of, frame, frames, length-bytes_of}
use uoft_operating_systems.MsgQueue.Handle.{writer_flag, nonblock_flag, has, get_backend, get_flags}
use uoft_operating_systems.MsgQueue.Sync.{
  lock, unlock, returned, value, eagain, einval, ebadf, emsgsize, after,
}
use uoft_operating_systems.MsgQueue.Backend.{Backend, readable_event}
use uoft_operating_systems.MsgQueue.Send.{
  failed, settle_writable, write_message, write_loop, write_locked, msg_queue_write,
}
use uoft_operating_systems.MsgQueue.Mailbox.{Mailbox, weight, gives, waits, refuses, send, resumed}
use uoft_operating_systems.MsgQueue.Carries.{
  Carries, Agrees, test_full-Carries, Carries-raise, Carries-lower, length-frames, frames-append,
  AllFilled-append, weight-le-size, view, view-Carries, agree_if, after-Agrees,
}

settle_writable-Carries :
    (self : ℕ) (mq : Backend) (box : Mailbox)
    → Carries mq box
    → Carries (settle_writable self mq) box
unfolding settle_writable
settle_writable-Carries self mq box c =
    rw (test_full-Carries self mq box c)
      (elim (Bool-cases ((mq.buffer.size - weight box.messages == 0) && not mq.no_readers)) [
        | inl yes' ↦ rw yes' (Carries-lower (2 ^ 32 - 3) mq box c)
        | inr no' ↦ rw no' c
      ])

module _ (self : ℕ) (mq : Backend) (msgs : List (List ℕ)) (w : List ℕ) (pos : 0 < length w)
    (c : Carries mq (view mq msgs)) where
  -- The header and then the body go in.
  put_in :
      weight msgs + (length w + 8) ≤ mq.buffer.size
      → (rb₁ rb₂ : RingBuffer) × (ring_buffer_write self mq.buffer (bytes_of 8 (length w))
          ≡ ok (true, rb₁))
        × (ring_buffer_write self rb₁ w ≡ ok (true, rb₂))
        × Represents rb₂ (frames (msgs ++ w ∷ []))
        × (rb₂.size ≡ mq.buffer.size)
  unfolding frames frame
  put_in room =
      let (rb₁, e₁, b₁) =
        write_exact self mq.buffer (frames msgs) c.bytes (bytes_of 8 (length w))
          (omega (arith, length-bytes_of 8 (length w)))
          (omega (arith, length-bytes_of 8 (length w), length-frames msgs, room)) in
      let (rb₂, e₂, b₂) =
        write_exact self rb₁ (frames msgs ++ bytes_of 8 (length w)) b₁.represents w pos (
          omega (
            arith,
            length-append (frames msgs) (bytes_of 8 (length w)),
            length-bytes_of 8 (length w),
            length-frames msgs,
            room,
            b₁.size,
          )) in
      (rb₁, rb₂, e₁, e₂, subst (Represents rb₂) joined b₂.represents, b₂.size ∙ b₁.size)
    where
      joined : (frames msgs ++ bytes_of 8 (length w)) ++ w ≡ frames (msgs ++ w ∷ [])
      joined =
          append_assoc (frames msgs) (bytes_of 8 (length w)) w
          ∙ ap (λ t. frames msgs ++ t) (sym (append-nil (frame w)))
          ∙ sym (frames-append msgs (w ∷ []))

  write_message-refines :
      (flags : ℕ)
      → weight msgs + (length w + 8) ≤ mq.buffer.size
      → Returns
          (Agrees (
            if has flags nonblock_flag
                then refuses eagain
                else gives (record { ret = value 0; errno = none; stored = [] }),
            view mq (msgs ++ w ∷ []),
          ))
          (write_message self flags mq w)
  unfolding write_message
  write_message-refines flags room =
      let (rb₁, rb₂, e₁, e₂, r, size) = put_in room in
      let now : Carries (record mq { buffer = rb₂ }) (view mq (msgs ++ w ∷ [])) = record {
        bytes = r;
        filled = AllFilled-append msgs w c.filled pos;
        list_idle = c.list_idle;
        capacity = size;
        readers_gone = refl;
        writers_gone = refl;
      } in
      rw (e₁, e₂)
        (elim (Bool-cases (has flags nonblock_flag)) [
          | inl non ↦ rw non (refl, now)
          | inr block ↦ rw block (
            refl,
            Carries-raise readable_event _ _
                (settle_writable-Carries self (record mq { buffer = rb₂ }) _ now),
          )
        ])

  write_loop-view :
      (flags : ℕ)
      → length w < 2 ^ 63
      → Returns
          (Agrees (
            if leb (weight msgs + (length w + 8)) mq.buffer.size
            then (
              if has flags nonblock_flag
                  then refuses eagain
                  else gives (record { ret = value 0; errno = none; stored = [] }),
              view mq (msgs ++ w ∷ []),
            )
            else (waits, view mq msgs)))
          (write_loop self flags mq w)
  unfolding write_loop
  write_loop-view flags small =
      rw (free_exact self mq.buffer (frames msgs) c.bytes, length-frames msgs)
        (elim (Bool-cases (leb (weight msgs + (length w + 8)) mq.buffer.size)) [
          | inl fits ↦ rw (fits, room fits) (write_message-refines flags (ground arith))
          | inr over ↦ rw (over, none_left over) c
        ])
    where
      room :
          leb (weight msgs + (length w + 8)) mq.buffer.size ≡ true
          → ltb (mq.buffer.size - weight msgs) (add_size (length w) 8) ≡ false
      room fits = ground arith

      none_left :
          leb (weight msgs + (length w + 8)) mq.buffer.size ≡ false
          → ltb (mq.buffer.size - weight msgs) (add_size (length w) 8) ≡ true
      none_left over = ground (arith, weight-le-size self mq (view mq msgs) c)

  write_locked-view :
      (flags : ℕ)
      → has flags writer_flag ≡ true
      → length w < 2 ^ 63
      → Returns (Agrees (send flags w (view mq msgs))) (write_locked self flags mq w)
  unfolding write_locked send
  write_locked-view flags writer small =
      rw (writer, filled)
        (agree_if mq.no_readers _ _ _ _ (λ gone. (refl, c))
          (λ there.
            subst
              (λ n.
                Returns
                  (Agrees (
                    if leb mq.buffer.size (length w + 8)
                    then (refuses emsgsize, view mq msgs)
                    else if leb (weight msgs + (length w + 8)) mq.buffer.size
                    then (
                      if has flags nonblock_flag
                          then refuses eagain
                          else gives (record { ret = value 0; errno = none; stored = [] }),
                      view mq (msgs ++ w ∷ []),
                    )
                    else (waits, view mq msgs)))
                  (if leb mq.buffer.size n
                    then ok (returned (failed emsgsize) mq (unlock ∷ []))
                    else write_loop self flags mq w))
              sum
              (agree_if (leb mq.buffer.size (length w + 8)) _ _ _ _ (λ big. (refl, c))
                (λ fits. write_loop-view flags small))))
    where
      filled : (length w == 0) ≡ false
      filled = ground arith

      sum : length w + 8 ≡ add_size (length w) 8
      sum = omega arith

send-no_writer :
    (flags : ℕ) (w : List ℕ) (box : Mailbox)
    → has flags writer_flag ≡ false
    → send flags w box ≡ (refuses ebadf, box)
unfolding send
send-no_writer flags w box no' = rw no'

send-no_message :
    (flags : ℕ) (w : List ℕ) (box : Mailbox)
    → has flags writer_flag ≡ true
    → (length w == 0) ≡ true
    → send flags w box ≡ (refuses einval, box)
unfolding send
send-no_message flags w box yes' none' = rw (yes', none')

module _ (self : ℕ) (mq : Backend) (box : Mailbox) (w : List ℕ) (c : Carries mq box)
    (small : length w < 2 ^ 63) where
  canonical : Carries mq (view mq box.messages)
  canonical = subst (Carries mq) (sym (view-Carries mq box c)) c

  -- `msg_queue_write`, on a handle to a backend that carries the mailbox `box`, comes to its return
  -- or to its `cond_wait` with no failed assertion and no access out of bounds, answers what `send`
  -- does, whatever the handle's flags and the message of less than 2^63 bytes, and leaves the mailbox
  -- that it leaves.
  pub msg_queue_write-refines :
      (queue address : ℕ)
      → get_backend queue ≡ ok address
      → Returns (Agrees (send (get_flags queue) w box)) (msg_queue_write self queue mq w)
  unfolding msg_queue_write
  msg_queue_write-refines queue address e = elim (Bool-cases (has (get_flags queue) writer_flag)) [
    | inr no' ↦ rw (no', send-no_writer (get_flags queue) w box no') (refl, c)
    | inl yes' ↦ elim (Bool-cases (length w == 0)) [
      | inl none' ↦ rw (yes', none', send-no_message (get_flags queue) w box yes' none') (refl, c)
      | inr some' ↦
          rw (yes', some', e)
            (Returns-bind (Agrees (send (get_flags queue) w box)) _
              (write_locked self (get_flags queue) mq w) (after (lock ∷ []))
              (locked yes' (ground arith))
              (after-Agrees (send (get_flags queue) w box) (lock ∷ [])))
    ]
  ]
    where
      locked :
          has (get_flags queue) writer_flag ≡ true
          → 0 < length w
          → Returns
              (Agrees (send (get_flags queue) w box))
              (write_locked self (get_flags queue) mq w)
      locked writer pos =
          subst
            (λ b.
              Returns (Agrees (send (get_flags queue) w b))
                (write_locked self (get_flags queue) mq w))
            (view-Carries mq box c)
            (write_locked-view self mq box.messages w pos canonical (get_flags queue) writer small)

  -- The loop of `msg_queue_write`, entered or gone on with after a wakeup, with a message of 1 to
  -- 2^63 - 1 bytes, on a backend that carries `box`: it fails no assertion and no access is out of
  -- bounds, and it puts the message in if there is room by now, and waits again if not, also when no
  -- reader is left.
  pub write_loop-refines :
      (flags : ℕ)
      → 0 < length w
      → Returns (Agrees (resumed flags w box)) (write_loop self flags mq w)
  unfolding resumed
  write_loop-refines flags pos =
      subst (λ (b : Mailbox). Returns (Agrees (resumed flags w b)) (write_loop self flags mq w))
        (view-Carries mq box c) (write_loop-view self mq box.messages w pos canonical flags small)
