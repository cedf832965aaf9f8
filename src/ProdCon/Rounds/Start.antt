-- ===== src/ProdCon/Rounds/Start.antt =====
-- `main` of prodcon.c from its start to the end of both threads.
use mathlib.Core.Path.{subst}
use uoft_operating_systems.Common.{
  ℕ, ◌+◌, ◌*◌, ◌^◌, ◌≤◌, ◌<◌, ◌≡◌, ◌≢◌, refl, sym, ap, ◌∙◌, arith, true, false, Option, none, some,
  List, [], ◌∷◌, length, ne→==, le→ltb, Run, ok, stop, Returns, Returns-bind, ◌>>=◌,
}
use uoft_operating_systems.MsgQueue.Handle.{
  reader_flag, writer_flag, has, make_handle, get_backend, get_flags, invalid_flags,
}
use uoft_operating_systems.MsgQueue.Handle.Laws.{make_handle-round_trip}
use uoft_operating_systems.MsgQueue.Backend.{Backend, contents, mq_open}
use uoft_operating_systems.MsgQueue.Backend.Tracks.{Tracks, holders, mq_open-Tracks}
use uoft_operating_systems.Validator.{Validator}
use uoft_operating_systems.RingBuffer.{RingBuffer}
use uoft_operating_systems.RingBuffer.Holds.{Represents}
use uoft_operating_systems.MsgQueue.Frame.{frames}
use uoft_operating_systems.MsgQueue.Carries.{Carries}
use uoft_operating_systems.MsgQueue.Lifecycle.{msg_queue_create, msg_queue_open}
use uoft_operating_systems.MsgQueue.Lifecycle.Create.{
  fresh_box, mq_open-contents, msg_queue_create-Created,
}
use uoft_operating_systems.ProdCon.{Side, Event, World, ready}
use uoft_operating_systems.ProdCon.Steps.{main_begin, main_run, run_threads}
use uoft_operating_systems.ProdCon.Plan.{
  Handles, Good, slice, at_announcing, at_awaiting, through, closed, QueueAt-as, Ended,
}
use uoft_operating_systems.ProdCon.Rounds.{AllFair, in_order, run_threads-rounds}
use uoft_operating_systems.ProdCon.Rounds.Ends.{Good-Ended}

-- A handle with a backend is not NULL.
get_backend-some : (queue address : ℕ) → get_backend queue ≡ ok address → queue ≢ 0
unfolding get_backend
get_backend-some queue address e z =
    let null : get_backend 0 ≡ ok address = sym (ap get_backend z) ∙ e in cc null

Returns-both :
    {A : Type 0} (P Q : A → Type 0) (r : Run A)
    → Returns P r
    → Returns Q r
    → Returns (λ a. P a × Q a) r
Returns-both P Q (ok a) p q = (p, q)
Returns-both P Q (stop e) p q = absurd p

-- The second handle of the queue.
module _ (capacity slot : ℕ) (reader : ℕ) (mq : Backend) (pos : 0 < slot)
    (valid : slot * 8 < 2 ^ 64) (there : get_backend reader ≡ ok (slot * 8))
    (carries : Carries mq (fresh_box capacity)) (t : Tracks mq (reader_flag ∷ []) true false) where
  opened-Tracks :
      (handle : ℕ)
      → make_handle (slot * 8) writer_flag ≡ ok handle
      → Returns
          (λ (result, mq').
            (result ≡ handle) × Tracks mq' (writer_flag ∷ reader_flag ∷ []) true true)
          (mq_open (slot * 8) mq writer_flag)
  unfolding has
  opened-Tracks handle made =
      mq_open-Tracks (slot * 8) writer_flag handle mq (reader_flag ∷ []) true false made
        (omega arith) t

  carried :
      (mq' : Backend)
      → contents mq' ≡ contents mq
      → Tracks mq' (writer_flag ∷ reader_flag ∷ []) true true
      → Carries mq' (fresh_box capacity)
  unfolding holders has
  carried mq' same t' = record {
    bytes =
        subst (λ b. Represents b (frames [])) (sym (ap (λ (p : RingBuffer × Validator). p.0) same))
          carries.bytes;
    filled = tt;
    list_idle = ap (λ (p : RingBuffer × Validator). p.1.owner) same ∙ carries.list_idle;
    capacity = ap (λ (p : RingBuffer × Validator). p.0.size) same ∙ carries.capacity;
    readers_gone = t'.no_readers;
    writers_gone = t'.no_writers;
  }

  opened :
      Returns
        (λ (writer, mq', _, _).
          (get_backend writer ≡ ok (slot * 8))
          × (get_flags writer ≡ writer_flag)
          × Carries mq' (fresh_box capacity)
          × Tracks mq' (writer_flag ∷ reader_flag ∷ []) true true)
        (msg_queue_open reader mq writer_flag)
  unfolding msg_queue_open invalid_flags
  opened =
      let (handle, made, p, f) = make_handle-round_trip slot writer_flag valid (omega arith) pos in
      rw (ne→== reader 0 (get_backend-some reader (slot * 8) there), there)
        (Returns-bind
          (λ (result, mq').
            ((result ≡ handle) × Tracks mq' (writer_flag ∷ reader_flag ∷ []) true true)
            × (contents mq' ≡ contents mq))
          _ (mq_open (slot * 8) mq writer_flag) _
          (Returns-both _ _ (mq_open (slot * 8) mq writer_flag) (opened-Tracks handle made)
            (mq_open-contents (slot * 8) writer_flag handle mq made))
          (λ (result, mq') ((same, t'), buffer').
            (ap get_backend same ∙ p, ap get_flags same ∙ f, carried mq' buffer' t', t')))

module _ (self : Side → ℕ) (slot event capacity count : ℕ) (block : List ℕ) (rand : ℕ → ℕ) where
  -- The threads before their first turns.
  abbrev pub Ready : Option World → Type 0
  Ready none = ⊥
  Ready (some w) =
      (writer reader : ℕ) × Handles writer reader (slot * 8)
      × Good capacity count rand writer reader 0 0 w
      × (w.producer_wait ≡ ready)

  pub main_begin-Ready :
      0 < slot
      → slot * 8 < 2 ^ 64
      → 9 ≤ capacity
      → capacity < 2 ^ 63
      → length block ≡ capacity
      → Returns Ready (main_begin (some (slot * 8, event)) (some block) capacity)
  unfolding main_begin slice has
  main_begin-Ready pos valid big small len =
      Returns-bind _ Ready
        (msg_queue_create (some (slot * 8, event)) (some block) capacity reader_flag) _
        (msg_queue_create-Created slot event capacity reader_flag block pos valid (omega arith) big
          small len)
        (λ (reader, made, errno) (_, there, flags, (mq, is_mq, carries, t)).
          rw (ne→== reader 0 (get_backend-some reader (slot * 8) there), is_mq)
            (Returns-bind _ Ready (msg_queue_open reader mq writer_flag) _
              (opened capacity slot reader mq pos valid there carries t)
              (λ (writer, mq', _, _) (there', flags', carries', t'). (
                writer,
                reader,
                record {
                  writer_some = omega (arith, get_backend-some writer (slot * 8) there');
                  reader_some = omega (arith, get_backend-some reader (slot * 8) there);
                  writer_backend = there';
                  reader_backend = there;
                  writer_flags = flags';
                  reader_flags = flags;
                },
                record {
                  produces = at_announcing refl;
                  consumes = at_awaiting refl;
                  queue_holds =
                      QueueAt-as capacity count rand 0 0 (through count 0) (through count 0) false
                        false (closed count 0) (closed count 0) (some mq') (omega arith)
                        (omega arith) (sym (le→ltb (count + 1) 0 (omega arith)))
                        (sym (le→ltb (count + 1) 0 (omega arith))) (refl, carries', t');
                  ahead = omega arith;
                  joined_last = λ e. absurd (omega (arith, e));
                  producer_sleeps = λ e. absurd (ground (arith, e));
                  consumer_sleeps = λ e. absurd (ground (arith, e));
                  writer_open = λ _. refl;
                  reader_open = λ _. refl;
                },
                refl,
              ))))

  -- Both threads are done with the sum of the numbers, and the queue is freed.
  abbrev pub Finished : Option World → Type 0
  Finished none = ⊥
  Finished (some w) = Ended count rand w

  -- For a capacity of 13 to 2^63 - 1 bytes, fewer than 2^31 / 64 numbers, and memory from `malloc`
  -- for the backend (a multiple of 8 other than 0) and for the buffer, and whatever `rand` gives, `main`
  -- and `producer` come to their ends within 2 * count + 5 rounds, in each of which both have a turn, in
  -- any order, any number of them, and with any wakeups without a signal: no assertion fails, no access is out of bounds, no int
  -- overflows, both sums are that of the numbers, and the queue is freed.
  pub main_run-Finished :
      (rounds : List (List Event))
      → 0 < slot
      → slot * 8 < 2 ^ 64
      → 12 < capacity
      → capacity < 2 ^ 63
      → 64 * count < 2 ^ 31
      → length block ≡ capacity
      → AllFair rounds
      → 2 * count + 5 ≤ length rounds
      → Returns Finished (
          main_run self rand (some (slot * 8, event)) (some block) capacity count (in_order rounds))
  unfolding main_run
  main_run-Finished rounds pos valid big small few len fair enough =
      Returns-bind Ready Finished (main_begin (some (slot * 8, event)) (some block) capacity) _
        (main_begin-Ready pos valid (omega (arith, big)) small len) onward
    where
      onward :
          (begun : Option World)
          → Ready begun
          → Returns Finished (elim begun [
            | none ↦ ok none
            | some w ↦ (do w' ← run_threads self count rand (in_order rounds) w; ok (some w'))
          ])
      onward none ready' = absurd ready'
      onward (some w) (writer, reader, h, good, _) =
          Returns-bind (Good capacity count rand writer reader (count + 2) (count + 3)) Finished
            (run_threads self count rand (in_order rounds) w) _
            (run_threads-rounds self capacity count rand big few writer reader (slot * 8) h rounds 0
              0 w good fair (omega (arith, enough)))
            (λ w' done. Good-Ended capacity count rand writer reader w' done)
