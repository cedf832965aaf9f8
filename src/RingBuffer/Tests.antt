-- ===== src/RingBuffer/Tests.antt =====
-- Runs of ring_buffer.c on a buffer of three bytes.
use uoft_operating_systems.Common.{
  ℕ, ◌≡◌, refl, false, none, some, List, [], ◌∷◌, ok, arith, Returns,
}
use uoft_operating_systems.RingBuffer.{
  RingBuffer, ring_buffer_init, ring_buffer_write, ring_buffer_read,
}
use uoft_operating_systems.RingBuffer.Holds.{Represents, straight}
use uoft_operating_systems.RingBuffer.Queue
use uoft_operating_systems.RingBuffer.Queue.{Call, put, get, look, count, room}
use uoft_operating_systems.RingBuffer.Refine.{
  Becomes, ring_buffer_write-refines, ring_buffer_read-refines,
}
use uoft_operating_systems.RingBuffer.Client.{
  AllProper, run, calls_of, run-refines, init-run-refines,
}

-- One byte, 7, in the middle.
abbrev one_byte : RingBuffer
one_byte = record {
  buffer = 0xDD ∷ 7 ∷ 0xDD ∷ [];
  size = 3;
  head = 1;
  tail = 2;
  full = false;
  validator = record { owner = 0; reports = 0 };
}

one_byte-Represents : Represents one_byte (7 ∷ [])
one_byte-Represents = record {
  shape = straight 1 1 (record {
    bytes = refl;
    size = refl;
    room = omega arith;
    head = refl;
    tail = refl;
    full = refl;
  });
  small = omega arith;
  idle = refl;
}

-- A write that wraps and fills the buffer, one that is refused, and reads and peeks that split.
abbrev calls : List (ℕ × Call)
calls =
    (1, put (8 ∷ 9 ∷ []))
    ∷ (2, put (1 ∷ []))
    ∷ (2, count)
    ∷ (1, look 3)
    ∷ (1, get 2)
    ∷ (3, room)
    ∷ (1, get 2)
    ∷ []

calls-AllProper : AllProper calls
calls-AllProper =
    (omega arith, (omega arith, (tt, (omega arith, (omega arith, (tt, (omega arith, tt)))))))

abbrev garbage : List ℕ
garbage = 4 ∷ 5 ∷ 6 ∷ []

run_answers : run one_byte calls ≡ ok (Queue.run 3 (7 ∷ []) (calls_of calls))
run_answers = run-refines calls one_byte (7 ∷ []) one_byte-Represents calls-AllProper

init-run-refines_example :
    ((rb : RingBuffer) × (ring_buffer_init (some garbage) 3 ≡ ok (some rb))
      × (run rb calls ≡ ok (Queue.run 3 [] (calls_of calls))))
    × (ring_buffer_init none 3 ≡ ok none)
init-run-refines_example =
    init-run-refines garbage 3 calls refl (omega arith) (omega arith) calls-AllProper

ring_buffer_write-refines_example :
    Returns
      (λ (done, rb').
        (done ≡ (Queue.write 3 (7 ∷ []) (8 ∷ 9 ∷ [])).0)
        × Becomes one_byte (Queue.write 3 (7 ∷ []) (8 ∷ 9 ∷ [])).1 rb')
      (ring_buffer_write 1 one_byte (8 ∷ 9 ∷ []))
ring_buffer_write-refines_example =
    ring_buffer_write-refines 1 one_byte (7 ∷ []) one_byte-Represents (8 ∷ 9 ∷ []) (omega arith)

ring_buffer_read-refines_example :
    Returns
      (λ (done, bytes, rb').
        (done ≡ (Queue.read (7 ∷ []) 1).0)
        × (bytes ≡ (Queue.read (7 ∷ []) 1).1)
        × Becomes one_byte (Queue.read (7 ∷ []) 1).2 rb')
      (ring_buffer_read 1 one_byte 1)
ring_buffer_read-refines_example =
    ring_buffer_read-refines 1 one_byte (7 ∷ []) one_byte-Represents 1 (omega arith)
