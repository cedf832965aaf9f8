-- ===== src/MsgQueue/Backend/Tracks.antt =====
-- The counters of a backend and the handles that are open.
use uoft_operating_systems.Common.{
  ℕ, ◌+◌, ◌^◌, ◌≤◌, ◌<◌, ◌≡◌, refl, ap, Bool, true, false, ◌&&◌, ◌||◌, List, [], ◌∷◌, ◌++◌, inl,
  inr, arith, length, length-append, ◌==◌, leb, if◌then◌else◌, Bool-cases, ok, Returns, sub_size,
}
use uoft_operating_systems.MsgQueue.Handle.{reader_flag, writer_flag, has, make_handle}
use uoft_operating_systems.MsgQueue.Backend.{
  Backend, contents, mq_open, close_reader, close_writer, mq_close,
}

-- How many of the handles carry a flag.
unfoldable pub holders : ℕ → List ℕ → ℕ
holders flag [] = 0
holders flag (flags ∷ rest) = (if has flags flag then 1 else 0) + holders flag rest

-- `handles` are the flags of the open handles; `had_readers` and `had_writers` say whether there
-- has been a handle of that side.
pub record Tracks (mq : Backend) (handles : List ℕ) (had_readers had_writers : Bool) : Type 0 where
  pub refs : mq.refs ≡ length handles
  pub readers : mq.readers ≡ holders reader_flag handles
  pub writers : mq.writers ≡ holders writer_flag handles
  pub no_readers : mq.no_readers ≡ (had_readers && (holders reader_flag handles == 0))
  pub no_writers : mq.no_writers ≡ (had_writers && (holders writer_flag handles == 0))
  pub seen_readers : 0 < holders reader_flag handles → had_readers ≡ true
  pub seen_writers : 0 < holders writer_flag handles → had_writers ≡ true

pub holders-le-length : (flag : ℕ) (handles : List ℕ) → holders flag handles ≤ length handles
unfolding holders
holders-le-length flag [] = omega arith
holders-le-length flag (h ∷ hs) = ground (arith, holders-le-length flag hs)

pub holders-append :
    (flag : ℕ) (xs ys : List ℕ) → holders flag (xs ++ ys) ≡ holders flag xs + holders flag ys
unfolding holders
holders-append flag [] ys = omega arith
holders-append flag (x ∷ xs) ys = omega (arith, holders-append flag xs ys)

-- When `make_handle` gives a handle, and short of 2^64 of them, `mq_open` returns that handle and the
-- counters track the open handles and the new one.
pub mq_open-Tracks :
    (address flags handle : ℕ) (mq : Backend) (handles : List ℕ) (had_r had_w : Bool)
    → make_handle address flags ≡ ok handle
    → length handles + 1 < 2 ^ 64
    → Tracks mq handles had_r had_w
    → Returns
        (λ (result, mq').
          (result ≡ handle)
          × Tracks mq'
              (flags ∷ handles)
              (had_r || has flags reader_flag)
              (had_w || has flags writer_flag))
        (mq_open address mq flags)
unfolding mq_open holders
mq_open-Tracks address flags handle mq handles had_r had_w e room t = rw e (
  refl,
  record {
    refs = ground (arith, t.refs);
    readers = ground (arith, t.readers, holders-le-length reader_flag handles);
    writers = ground (arith, t.writers, holders-le-length writer_flag handles);
    no_readers = ground (arith, t.no_readers, t.seen_readers);
    no_writers = ground (arith, t.no_writers, t.seen_writers);
    seen_readers = ground (arith, t.seen_readers);
    seen_writers = ground (arith, t.seen_writers);
  },
)

-- Closing any of the open handles: `left` are the others.
module _ (flags : ℕ) (mq : Backend) (before behind : List ℕ) (had_r had_w : Bool)
    (room : length (before ++ flags ∷ behind) < 2 ^ 64)
    (t : Tracks mq (before ++ flags ∷ behind) had_r had_w) where
  left : List ℕ
  left = before ++ behind

  closed : Backend
  closed = close_writer flags (close_reader flags mq)

  one_less : length (before ++ flags ∷ behind) ≡ length left + 1
  unfolding left
  one_less = omega (arith, length-append before (flags ∷ behind), length-append before behind)

  closed_refs : closed.refs ≡ length left + 1
  unfolding closed close_reader close_writer
  closed_refs = ground (arith, t.refs, one_less)

  held :
      (flag : ℕ)
      → holders flag (before ++ flags ∷ behind)
        ≡ holders flag left + (if has flags flag then 1 else 0)
  unfolding left holders
  held flag =
      omega (arith, holders-append flag before (flags ∷ behind), holders-append flag before behind)

  closed_readers :
      (closed.readers ≡ holders reader_flag left)
      × (closed.no_readers ≡ (had_r && (holders reader_flag left == 0)))
  unfolding closed close_reader close_writer
  closed_readers = (
    ground (arith, t.readers, held reader_flag, holders-le-length reader_flag left, one_less),
    ground (
      arith,
      t.readers,
      t.no_readers,
      t.seen_readers,
      held reader_flag,
      holders-le-length reader_flag left,
      one_less,
    ),
  )

  closed_writers :
      (closed.writers ≡ holders writer_flag left)
      × (closed.no_writers ≡ (had_w && (holders writer_flag left == 0)))
  unfolding closed close_reader close_writer
  closed_writers = (
    ground (arith, t.writers, held writer_flag, holders-le-length writer_flag left, one_less),
    ground (
      arith,
      t.writers,
      t.no_writers,
      t.seen_writers,
      held writer_flag,
      holders-le-length writer_flag left,
      one_less,
    ),
  )

  closed-Tracks : Tracks (record closed { refs = sub_size closed.refs 1 }) left had_r had_w
  closed-Tracks = record {
    refs = omega (arith, closed_refs, one_less);
    readers = closed_readers.0;
    writers = closed_writers.0;
    no_readers = closed_readers.1;
    no_writers = closed_writers.1;
    seen_readers = λ h. t.seen_readers (omega (arith, held reader_flag));
    seen_writers = λ h. t.seen_writers (omega (arith, held writer_flag));
  }

  closed-contents : contents closed ≡ contents mq
  unfolding closed close_reader close_writer
  closed-contents = elim (Bool-cases (has flags reader_flag)) [
    | inl r ↦ elim (Bool-cases (has flags writer_flag)) [
      | inl w ↦ rw (r, w) refl
      | inr w ↦ rw (r, w) refl
    ]
    | inr r ↦ elim (Bool-cases (has flags writer_flag)) [
      | inl w ↦ rw (r, w) refl
      | inr w ↦ rw (r, w) refl
    ]
  ]

  -- When a handle with flags `flags` among the open handles that `mq` tracks is closed, the
  -- assertions hold, `mq_close` says whether this was the last handle, the counters are those of the
  -- handles that are left, and the ring buffer and the list's
  -- validator are not touched. There are less than 2^64 handles.
  pub mq_close-Tracks :
      Returns
        (λ (last, mq').
          (last ≡ (length (before ++ behind) == 0))
          × Tracks mq' (before ++ behind) had_r had_w
          × (contents mq' ≡ contents mq))
        (mq_close mq flags)
  unfolding mq_close left closed
  mq_close-Tracks =
      rw (held_some, readers_in, writers_in, test)
        (elim (Bool-cases (length left == 0)) [
          | inl last ↦
              rw (last, no_readers last, no_writers last) (refl, closed-Tracks, closed-contents)
          | inr more ↦ rw more (refl, closed-Tracks, closed-contents)
        ])
    where
      held_some : (mq.refs == 0) ≡ false
      held_some = ground (arith, t.refs, one_less)

      readers_in : leb mq.readers mq.refs ≡ true
      readers_in =
          ground
            (arith, t.refs, t.readers, holders-le-length reader_flag (before ++ flags ∷ behind))

      writers_in : leb mq.writers mq.refs ≡ true
      writers_in =
          ground
            (arith, t.refs, t.writers, holders-le-length writer_flag (before ++ flags ∷ behind))

      test : (sub_size closed.refs 1 == 0) ≡ (length left == 0)
      test = ap (λ n. n == 0) (omega (arith, closed_refs, one_less))

      no_readers : (length left == 0) ≡ true → (closed.readers == 0) ≡ true
      no_readers last = ground (arith, closed_readers.0, holders-le-length reader_flag left)

      no_writers : (length left == 0) ≡ true → (closed.writers == 0) ≡ true
      no_writers last = ground (arith, closed_writers.0, holders-le-length writer_flag left)
