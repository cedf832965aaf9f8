-- ===== src/ProdCon/Plan.antt =====
-- Where the two threads of prodcon.c stand when the producer is done with `p` of its calls and the
-- consumer with `c`, and what the queue then holds.
use mathlib.Core.Path.{subst}
use uoft_operating_systems.Common.{
  lt→ltb, Returns, ℕ, zero, suc, ◌+◌, ◌-◌, ◌*◌, ◌%◌, ◌^◌, ◌≤◌, ◌<◌, ◌≡◌, refl, ap, ◌∙◌, arith, min,
  Bool, true, false, ◌&&◌, Option, none, some, List, [], ◌∷◌, ◌++◌, ltb, ok,
}
use uoft_operating_systems.MsgQueue.Handle.{reader_flag, writer_flag, get_backend, get_flags}
use uoft_operating_systems.MsgQueue.Frame.{bytes_of, length-bytes_of}
use uoft_operating_systems.MsgQueue.Backend.{Backend}
use uoft_operating_systems.MsgQueue.Backend.Tracks.{Tracks}
use uoft_operating_systems.MsgQueue.Mailbox.{Mailbox, weight}
use uoft_operating_systems.MsgQueue.Carries.{Carries}
use uoft_operating_systems.ProdCon.{
  Producer, announcing, sending, leaving, gone, Consumer, awaiting, receiving, departing, joining,
  finished, Wait, ready, asleep, woken, woken_if, World, add_int, live,
}

-- Two handles of one backend, neither of them with MSG_QUEUE_NONBLOCK.
pub record Handles (writer reader address : ℕ) : Type 0 where
  pub writer_some : 0 < writer
  pub reader_some : 0 < reader
  pub writer_backend : get_backend writer ≡ ok address
  pub reader_backend : get_backend reader ≡ ok address
  pub writer_flags : get_flags writer ≡ writer_flag
  pub reader_flags : get_flags reader ≡ reader_flag

-- The flags of the handles that are not closed.
abbrev pub handles : Bool → Bool → List ℕ
handles true true = []
handles true false = reader_flag ∷ []
handles false true = writer_flag ∷ []
handles false false = writer_flag ∷ reader_flag ∷ []

module _ (rand : ℕ → ℕ) where
  -- The sum of the first `i` numbers.
  unfoldable pub total : ℕ → ℕ
  total zero = 0
  total (suc i) = total i + rand i % 64

  pub total-le : (i : ℕ) → total i ≤ 63 * i
  unfolding total
  total-le zero = omega arith
  total-le (suc i) = omega (arith, total-le i)

module _ (count : ℕ) where
  -- How many messages are through after so many calls, and whether the close is among these.
  abbrev pub through : ℕ → ℕ
  through p = min p (count + 1)

  abbrev pub closed : ℕ → Bool
  closed p = ltb (count + 1) p

module _ (count : ℕ) (rand : ℕ → ℕ) where
  -- What the `k`th write sends.
  abbrev pub payload : ℕ → ℕ
  payload zero = count
  payload (suc i) = rand i % 64

  unfoldable pub slice : ℕ → ℕ → List (List ℕ)
  slice r zero = []
  slice r (suc n) = bytes_of 4 (payload r) ∷ slice (suc r) n

  pub slice-snoc : (r n : ℕ) → slice r (suc n) ≡ slice r n ++ bytes_of 4 (payload (r + n)) ∷ []
  unfolding slice
  slice-snoc r zero = ap (λ k. bytes_of 4 (payload k) ∷ []) (omega arith)
  slice-snoc r (suc n) =
      ap (λ l. bytes_of 4 (payload r) ∷ l)
        (slice-snoc (suc r) n
          ∙ ap (λ k. slice (suc r) n ++ bytes_of 4 (payload k) ∷ []) (omega arith))

  pub weight-slice : (r n : ℕ) → weight (slice r n) ≡ 12 * n
  unfolding slice weight
  weight-slice r zero = refl
  weight-slice r (suc n) = omega (arith, weight-slice (suc r) n, length-bytes_of 4 (payload r))

  pub data ProducerAt : ℕ → Producer → Type 0 where
    at_announcing : {p : ℕ} → p ≡ 0 → ProducerAt p announcing
    at_sending :
        {i : ℕ} {p : ℕ}
        → p ≡ i + 1
        → i < count
        → ProducerAt p (sending i (total rand i) (rand i % 64))
    at_leaving : {p : ℕ} → p ≡ count + 1 → ProducerAt p (leaving (total rand count))
    at_gone : {p : ℕ} → p ≡ count + 2 → ProducerAt p (gone (total rand count))

  pub data ConsumerAt : ℕ → Consumer → Type 0 where
    at_awaiting : {c : ℕ} → c ≡ 0 → ConsumerAt c awaiting
    at_receiving :
        {i : ℕ} {c : ℕ} → c ≡ i + 1 → i < count → ConsumerAt c (receiving count i (total rand i))
    at_departing : {c : ℕ} → c ≡ count + 1 → ConsumerAt c (departing (total rand count))
    at_joining : {c : ℕ} → c ≡ count + 2 → ConsumerAt c (joining (total rand count))
    at_finished : {c : ℕ} → c ≡ count + 3 → ConsumerAt c (finished (total rand count))

  -- Both threads are done, each with the sum of the numbers, and the queue is freed.
  abbrev pub Ended : World → Type 0
  Ended w =
      (w.consumer ≡ finished (total rand count))
      × (w.producer ≡ gone (total rand count))
      × (w.queue ≡ none)

module _ (capacity count : ℕ) where
  -- A call of the producer, or of the consumer, gets through.
  abbrev pub ProducerAble : ℕ → ℕ → Type 0
  ProducerAble p c = (p ≤ count + 1) × (p ≤ count → 12 * (p - c) + 12 ≤ capacity)

  abbrev pub ConsumerAble : ℕ → ℕ → Type 0
  ConsumerAble p c = (c ≤ count + 2) × ((c ≤ count → c < p) × (c ≡ count + 2 → p ≡ count + 2))

module _ (capacity count : ℕ) (rand : ℕ → ℕ) where
  -- The messages from `r` up to `s`.
  abbrev pub box : ℕ → ℕ → Bool → Bool → Mailbox
  box s r writer_gone reader_gone = record {
    capacity = capacity;
    messages = slice count rand r (s - r);
    readers_gone = reader_gone;
    writers_gone = writer_gone;
  }

  -- The backend is freed once both handles are closed.
  abbrev pub QueueAt : ℕ → ℕ → Bool → Bool → Option Backend → Type 0
  QueueAt s r writer_gone reader_gone none = (writer_gone && reader_gone) ≡ true
  QueueAt s r writer_gone reader_gone (some mq) =
      ((writer_gone && reader_gone) ≡ false)
      × Carries mq (box s r writer_gone reader_gone)
      × Tracks mq (handles writer_gone reader_gone) true true

  module _ (writer reader : ℕ) where
    pub record Good (p c : ℕ) (w : World) : Type 0 where
      pub produces : ProducerAt count rand p w.producer
      pub consumes : ConsumerAt count rand c w.consumer
      pub queue_holds :
          QueueAt (through count p) (through count c) (closed count p) (closed count c) w.queue
      pub ahead : through count c ≤ through count p
      pub joined_last : c ≡ count + 3 → p ≡ count + 2
      pub producer_sleeps : w.producer_wait ≡ asleep → p ≤ count → capacity < 12 * (p - c) + 12
      pub consumer_sleeps : w.consumer_wait ≡ asleep → c ≤ count → p ≤ c
      pub writer_open : p ≤ count + 1 → w.writer ≡ writer
      pub reader_open : c ≤ count + 1 → w.reader ≡ reader

    -- The world after a turn of a thread: it got further if it could.
    abbrev pub ProducerNext : ℕ → ℕ → World → Type 0
    ProducerNext p c w =
        (p' : ℕ) × Good p' c w × (p ≤ p') × (ProducerAble capacity count p c → p < p')

    abbrev pub ConsumerNext : ℕ → ℕ → World → Type 0
    ConsumerNext p c w =
        (c' : ℕ) × Good p c' w × (c ≤ c') × (ConsumerAble capacity count p c → c < c')

-- A thread that is signalled does not sleep.
pub woken_if-awake : (wait : Wait) → woken_if true wait ≡ asleep → ⊥
woken_if-awake ready e = cc
woken_if-awake asleep e = cc
woken_if-awake woken e = cc

-- Addition of ints that stays below 2^31.
pub add_int_value : (a b : ℕ) → a + b < 2 ^ 31 → add_int a b ≡ ok (a + b)
unfolding add_int
add_int_value a b small =
    let c : (a + b) % 2 ^ 32 ≡ a + b = omega (arith, small) in
    rw
      (
        c,
        lt→ltb a (2 ^ 31) (omega (arith, small)),
        lt→ltb b (2 ^ 31) (omega (arith, small)),
        lt→ltb (a + b) (2 ^ 31) small,
      )
      refl

-- The same counts.
pub QueueAt-as :
    (capacity count : ℕ) (rand : ℕ → ℕ) (s r s' r' : ℕ) (a b a' b' : Bool) (queue : Option Backend)
    → s ≡ s'
    → r ≡ r'
    → a ≡ a'
    → b ≡ b'
    → QueueAt capacity count rand s r a b queue
    → QueueAt capacity count rand s' r' a' b' queue
QueueAt-as capacity count rand s r s' r' a b a' b' queue es er ea eb q =
    subst (λ ((t, u, x, y) : ℕ × ℕ × Bool × Bool). QueueAt capacity count rand t u x y queue)
      (λ i. (es i, er i, ea i, eb i)) q

-- The backend while a handle is open.
pub QueueAt-live :
    (capacity count : ℕ) (rand : ℕ → ℕ) (s r : ℕ) (a b : Bool) (queue : Option Backend)
    → (a && b) ≡ false
    → QueueAt capacity count rand s r a b queue
    → Returns
        (λ mq. Carries mq (box capacity count rand s r a b) × Tracks mq (handles a b) true true)
        (live queue)
QueueAt-live capacity count rand s r a b none open_ gone' = absurd (ground (arith, gone', open_))
QueueAt-live capacity count rand s r a b (some mq) open_ (_, c, t) = (c, t)
