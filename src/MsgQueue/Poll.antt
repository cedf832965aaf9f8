-- ===== src/MsgQueue/Poll.antt =====
-- The first part of `msg_queue_poll` of msg_queue.c: its tests of the entries.
mod Tests
pub mod Wait
pub mod Nodes
pub mod Leave
pub mod Returns
pub mod Wakes
use uoft_operating_systems.Common.{
  ℕ, ◌+◌, ◌<◌, ◌≤◌, ◌^◌, ◌%◌, ◌≡◌, refl, sym, ap, ◌∙◌, arith, Bool, true, false, not, ◌&&◌, ◌||◌,
  Option, none, some, List, [], ◌∷◌, length, ◌==◌, if◌then◌else◌, Bool-cases, inl, inr,
}
use uoft_operating_systems.MsgQueue.Handle.{reader_flag, writer_flag, has, get_flags}
use uoft_operating_systems.MsgQueue.Sync.{Errno, einval}
use uoft_operating_systems.MsgQueue.Backend.{readable_event, writable_event}

-- `msg_queue_pollfd`.
pub record Pollfd : Type 0 where
  pub queue : ℕ
  pub events : ℕ
  pub revents : ℕ

abbrev pub zeroed : Pollfd → Pollfd
zeroed fd = record fd { revents = 0 }

-- The loop over the entries, with `num_null` so far, a 32-bit word: the entries as it leaves them,
-- and `num_null`, `none` when it ends with EINVAL.
unfoldable pub check_from : ℕ → List Pollfd → Option ℕ × List Pollfd
check_from num_null [] = (some num_null, [])
check_from num_null (fd ∷ fds) =
    let null = check_from ((num_null + 1) % 2 ^ 32) fds in
    let live = check_from num_null fds in
    if fd.queue == 0
    then (null.0, zeroed fd ∷ null.1)
    else if fd.events == 0
    then (none, zeroed fd ∷ fds)
    else if has fd.events readable_event && not (has (get_flags fd.queue) reader_flag)
    then (none, zeroed fd ∷ fds)
    else if has fd.events writable_event && not (has (get_flags fd.queue) writer_flag)
    then (none, zeroed fd ∷ fds)
    else (live.0, zeroed fd ∷ live.1)

-- With the test that follows: `errno` if -1 is returned.
unfoldable pub poll_checks : List Pollfd → Option Errno × List Pollfd
poll_checks fds =
    let (num_null, fds') = check_from 0 fds in
    (
      elim num_null [
        | none ↦ some einval
        | some k ↦ if (k == length fds) || (length fds == 0) then some einval else none
      ],
      fds',
    )

-- An entry that is skipped, or requests some event, and asks to read or to write only of a handle for
-- that. msg_queue.h also asks that `events` is made up of MQPOLL_* constants: that is not tested.
unfoldable pub acceptable : Pollfd → Bool
acceptable fd =
    (fd.queue == 0)
    || (not (fd.events == 0)
        && ((not (has fd.events readable_event) || has (get_flags fd.queue) reader_flag)
            && (not (has fd.events writable_event) || has (get_flags fd.queue) writer_flag)))

unfoldable pub all_acceptable : List Pollfd → Bool
all_acceptable [] = true
all_acceptable (fd ∷ fds) = acceptable fd && all_acceptable fds

unfoldable pub skipped : List Pollfd → ℕ
skipped [] = 0
skipped (fd ∷ fds) = (if fd.queue == 0 then 1 else 0) + skipped fds

-- The entries up to the first that is not acceptable.
unfoldable pub cleared : List Pollfd → List Pollfd
cleared [] = []
cleared (fd ∷ fds) = zeroed fd ∷ (if acceptable fd then cleared fds else fds)

skipped-le : (fds : List Pollfd) → skipped fds ≤ length fds
unfolding skipped
skipped-le [] = omega arith
skipped-le (fd ∷ fds) = ground (arith, skipped-le fds)

-- One entry.
entry :
    (null readable reader writable writer no_events : Bool) (x y z : Option ℕ × List Pollfd)
    → (if null
        then x
        else if no_events
        then z
        else if readable && not reader
        then z
        else if writable && not writer
        then z
        else y)
      ≡ (if null || (not no_events && ((not readable || reader) && (not writable || writer)))
          then (if null then x else y)
          else z)
entry true a b c d e x y z = refl
entry false a b c d true x y z = refl
entry false true true true true false x y z = refl
entry false true true true false false x y z = refl
entry false true true false d false x y z = refl
entry false true false c d false x y z = refl
entry false false b true true false x y z = refl
entry false false b true false false x y z = refl
entry false false b false d false x y z = refl

-- The count, once the entries behind are known.
counted :
    (acc null all : Bool) (k' k s : ℕ) (rest : List Pollfd) (fd : Pollfd) (fds : List Pollfd)
    → k' ≡ k + 1
    → ◌≡◌ {A = Option ℕ × List Pollfd}
        (if acc
          then (if null
              then (if all then some (k' + s) else none, zeroed fd ∷ rest)
              else (if all then some (k + s) else none, zeroed fd ∷ rest))
          else (none, zeroed fd ∷ fds))
        (
          if acc && all then some (k + ((if null then 1 else 0) + s)) else none,
          zeroed fd ∷ (if acc then rest else fds),
        )
counted false null all k' k s rest fd fds e = refl
counted true true false k' k s rest fd fds e = refl
counted true true true k' k s rest fd fds e =
    ap (λ n. (some n, zeroed fd ∷ rest)) (omega (arith, e))
counted true false false k' k s rest fd fds e = refl
counted true false true k' k s rest fd fds e = ap (λ n. (some n, zeroed fd ∷ rest)) (omega arith)

check_from_exact :
    (k : ℕ) (fds : List Pollfd)
    → k + length fds < 2 ^ 32
    → check_from k fds ≡ (if all_acceptable fds then some (k + skipped fds) else none, cleared fds)
unfolding check_from all_acceptable skipped cleared acceptable
check_from_exact k [] h = ap (λ n. (some n, [])) (omega arith)
check_from_exact k (fd ∷ fds) h =
    let null = check_from ((k + 1) % 2 ^ 32) fds in
    let live = check_from k fds in
    let null_exact = check_from_exact ((k + 1) % 2 ^ 32) fds (omega arith) in
    let live_exact = check_from_exact k fds (omega arith) in
    entry (fd.queue == 0) (has fd.events readable_event) (has (get_flags fd.queue) reader_flag)
      (has fd.events writable_event) (has (get_flags fd.queue) writer_flag) (fd.events == 0)
      (null.0, zeroed fd ∷ null.1) (live.0, zeroed fd ∷ live.1) (none, zeroed fd ∷ fds)
    ∙ (λ i.
        if acceptable fd
        then (if fd.queue == 0
            then ((null_exact i).0, zeroed fd ∷ (null_exact i).1)
            else ((live_exact i).0, zeroed fd ∷ (live_exact i).1))
        else (none, zeroed fd ∷ fds))
    ∙ counted (acceptable fd) (fd.queue == 0) (all_acceptable fds) ((k + 1) % 2 ^ 32) k
        (skipped fds) (cleared fds) fd fds (omega arith)

swapped :
    (b : Bool)
    → ◌≡◌ {A = Option Errno} (if b then some einval else none) (if not b then none else some einval)
swapped true = refl
swapped false = refl

-- With less than 2^32 entries, the tests let a call through just if every entry is acceptable and
-- one of them at least is not skipped, and give EINVAL otherwise. They set `revents` to 0 in every
-- entry up to the first that is not acceptable, with it, and change nothing else. Digits of
-- `events` that are no MQPOLL_* constant are not refused.
pub poll_checks_exact :
    (fds : List Pollfd)
    → length fds < 2 ^ 32
    → poll_checks fds ≡ (
      if all_acceptable fds && not (skipped fds == length fds) then none else some einval,
      cleared fds,
    )
unfolding poll_checks
poll_checks_exact fds small =
    ap (λ r. (verdict r.0, r.1)) (check_from_exact 0 fds (omega arith))
    ∙ ap (λ o. (o, cleared fds)) same
  where
    verdict : Option ℕ → Option Errno
    verdict num_null = elim num_null [
      | none ↦ some einval
      | some k ↦ if (k == length fds) || (length fds == 0) then some einval else none
    ]

    tests : ((0 + skipped fds == length fds) || (length fds == 0)) ≡ (skipped fds == length fds)
    tests = ground (arith, skipped-le fds)

    same :
        verdict (if all_acceptable fds then some (0 + skipped fds) else none)
        ≡ (if all_acceptable fds && not (skipped fds == length fds) then none else some einval)
    same = elim (Bool-cases (all_acceptable fds)) [
      | inr bad ↦ rw bad refl
      | inl good ↦ rw (good, tests) (swapped (skipped fds == length fds))
    ]
