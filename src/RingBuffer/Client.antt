-- ===== src/RingBuffer/Client.antt =====
-- Whole runs of a ring buffer: `ring_buffer_init` and then any calls, by threads that take turns.
use uoft_operating_systems.Common.{
  ℕ, ◌^◌, ◌<◌, ◌≡◌, refl, sym, ap, ◌∙◌, false, none, some, List, [], ◌∷◌, append-nil, arith, length,
  replicate, Run, ok, Returns, Returns-bind, Returns-value, ◌>>=◌,
}
use mathlib.Core.Path.{subst}
use uoft_operating_systems.Validator.{validator_init, init-idle}
use uoft_operating_systems.RingBuffer.{
  RingBuffer, poison, ring_buffer_init, ring_buffer_write, ring_buffer_read, ring_buffer_peek,
  ring_buffer_used, ring_buffer_free, mark_free,
}
use uoft_operating_systems.RingBuffer.Holds.{Represents, straight}
use uoft_operating_systems.RingBuffer.Access.{mark_at}
use uoft_operating_systems.RingBuffer.Queue
use uoft_operating_systems.RingBuffer.Queue.{
  Call, put, get, look, count, room, Reply, wrote, copied, counted, Proper,
}
use uoft_operating_systems.RingBuffer.Refine.{
  Becomes, ring_buffer_write-refines, ring_buffer_read-refines, ring_buffer_peek-refines,
  ring_buffer_used-refines, ring_buffer_free-refines,
}

-- One call by the thread `self`.
unfoldable pub perform : ℕ → RingBuffer → Call → Run (Reply × RingBuffer)
perform self rb (put bytes) = do (done, rb') ← ring_buffer_write self rb bytes; ok (wrote done, rb')
perform self rb (get n) = do
  (done, bytes, rb') ← ring_buffer_read self rb n
  ok (copied done bytes, rb')
perform self rb (look n) = do
  (done, bytes, rb') ← ring_buffer_peek self rb n
  ok (copied done bytes, rb')
perform self rb count = let (n, rb') = ring_buffer_used self rb in ok (counted n, rb')
perform self rb room = let (n, rb') = ring_buffer_free self rb in ok (counted n, rb')

-- Calls in order, each by its thread.
unfoldable pub run : RingBuffer → List (ℕ × Call) → Run (List Reply)
run rb [] = ok []
run rb ((self, c) ∷ calls) = do
  (reply, rb') ← perform self rb c
  replies ← run rb' calls
  ok (reply ∷ replies)

abbrev pub AllProper : List (ℕ × Call) → Type 0
AllProper [] = Unit
AllProper ((_, c) ∷ calls) = Proper c × AllProper calls

abbrev pub calls_of : List (ℕ × Call) → List Call
calls_of [] = []
calls_of ((_, c) ∷ calls) = c ∷ calls_of calls

perform-refines :
    (self : ℕ) (rb : RingBuffer) (q : List ℕ) (c : Call)
    → Represents rb q
    → Proper c
    → Returns
        (λ (reply, rb').
          (reply ≡ (Queue.answer rb.size q c).0) × Becomes rb (Queue.answer rb.size q c).1 rb')
        (perform self rb c)
unfolding perform Queue.answer
perform-refines self rb q (put bytes) r p =
    Returns-bind _ _ (ring_buffer_write self rb bytes) _
      (ring_buffer_write-refines self rb q r bytes p) (λ (done, rb') (d, b). (ap wrote d, b))
perform-refines self rb q (get n) r p =
    Returns-bind _ _ (ring_buffer_read self rb n) _ (ring_buffer_read-refines self rb q r n p)
      (λ (done, bytes, rb') (d, e, b). (cc, b))
perform-refines self rb q (look n) r p =
    Returns-bind _ _ (ring_buffer_peek self rb n) _ (ring_buffer_peek-refines self rb q r n p)
      (λ (done, bytes, rb') (d, e, b). (cc, b))
perform-refines self rb q count r p =
    let (e, b) = ring_buffer_used-refines self rb q r in (ap counted e, b)
perform-refines self rb q room r p =
    let (e, b) = ring_buffer_free-refines self rb q r in (ap counted e, b)

-- From a buffer that stands for `q`, every sequence of calls whose lengths are not 0 goes through
-- with no failed assertion and no access out of bounds, and is answered as the queue of blocks
-- answers it.
pub run-refines :
    (calls : List (ℕ × Call)) (rb : RingBuffer) (q : List ℕ)
    → Represents rb q
    → AllProper calls
    → run rb calls ≡ ok (Queue.run rb.size q (calls_of calls))
unfolding run Queue.run
run-refines [] rb q r p = refl
run-refines ((self, c) ∷ calls) rb q r (p, ps) =
    let ((reply, rb'), e, (answered, b)) =
      Returns-value _ (perform self rb c) (perform-refines self rb q c r p) in
    rw (e, run-refines calls rb' (Queue.answer rb.size q c).1 b.represents ps, b.size, answered)

-- `ring_buffer_init` on a block of `size` bytes, whatever they are.
pub ring_buffer_init-Represents :
    (block : List ℕ) (size : ℕ)
    → length block ≡ size
    → 0 < size
    → size < 2 ^ 63
    → (rb : RingBuffer) × (ring_buffer_init (some block) size ≡ ok (some rb))
      × Represents rb []
      × (rb.size ≡ size)
unfolding ring_buffer_init
ring_buffer_init-Represents block size e pos small = (
  record {
    buffer = replicate size poison;
    size = size;
    head = 0;
    tail = 0;
    full = false;
    validator = validator_init;
  },
  rw marked refl,
  record {
    shape = straight 0 size (record {
      bytes = refl;
      size = omega arith;
      room = pos;
      head = refl;
      tail = refl;
      full = refl;
    });
    small = small;
    idle = init-idle;
  },
  refl,
)
  where
    marked : mark_free block 0 size ≡ ok (replicate size poison)
    marked =
        mark_at block [] block [] 0 (sym (append-nil block)) refl size (sym e)
        ∙ ap ok (append-nil (replicate size poison))

-- `ring_buffer_init` on any block of `size` bytes, 0 < size < 2^63, and then any calls by any
-- threads with lengths other than 0: every call returns, with no failed assertion and no access out
-- of bounds, and the answers are those of the empty queue of that capacity. When `malloc` fails,
-- `ring_buffer_init` returns -1.
pub init-run-refines :
    (block : List ℕ) (size : ℕ) (calls : List (ℕ × Call))
    → length block ≡ size
    → 0 < size
    → size < 2 ^ 63
    → AllProper calls
    → ((rb : RingBuffer) × (ring_buffer_init (some block) size ≡ ok (some rb))
        × (run rb calls ≡ ok (Queue.run size [] (calls_of calls))))
      × (ring_buffer_init none size ≡ ok none)
unfolding ring_buffer_init
init-run-refines block size calls e pos small p =
    let (rb, made, r, sz) = ring_buffer_init-Represents block size e pos small in
    (
      (
        rb,
        made,
        subst (λ n. run rb calls ≡ ok (Queue.run n [] (calls_of calls))) sz
            (run-refines calls rb [] r p),
      ),
      refl,
    )
