-- ===== src/FileSystem/Make/Claim.antt =====
-- The bit that `a1fs_mkdir` and `a1fs_create` claim.
use native.Mathlib.Decide.{dec_le}
use uoft_operating_systems.Common.{
  ◌≤◌, Bool, Run, ℕ, zero, suc, ◌+◌, ◌*◌, ◌%◌, ◌<◌, ◌≡◌, refl, sym, ap, ◌∙◌, arith, true, false,
  Option, some, none, List, length, ok, Returns, Returns-bind, ◌>>=◌,
}
use uoft_operating_systems.Bitmap.{load, scan_byte, modify}
use uoft_operating_systems.Bitmap.Laws.{is_set, bit_at, bit_at-load, load_exact, modify-bit_at}
use uoft_operating_systems.Bitmap.Find.{Scanned, all_set, clear, scan_byte-Scanned, bits_below}
use uoft_operating_systems.FileSystem.Make.{claim_from, claim}

data Searched (map : List ℕ) : Option ℕ → ℕ → Type 0 where
  nowhere :
      (ind : ℕ)
      → ind ≡ 8 * length map
      → ((k : ℕ) → k < 8 * length map → bit_at map k ≡ ok true)
      → Searched map none ind
  there :
      (j ind : ℕ)
      → j ≡ ind % 8
      → ind < 8 * length map
      → bit_at map ind ≡ ok false
      → ((k : ℕ) → k < ind → bit_at map k ≡ ok true)
      → Searched map (some j) ind

abbrev Result : List ℕ → Option ℕ × ℕ → Type 0
Result map (free, ind) = Searched map free ind

claim_from-Searched :
    (map : List ℕ) (n b ind : ℕ)
    → n + b ≡ length map
    → ind ≡ 8 * b
    → ((k : ℕ) → k < 8 * b → bit_at map k ≡ ok true)
    → Returns (Result map) (claim_from n b map ind)
unfolding claim_from
claim_from-Searched map zero b ind e at set = nowhere ind (omega arith) (λ k h. set k (omega arith))
claim_from-Searched map (suc n) b ind e at set =
    let (x, l) = load_exact map b (omega arith) in
    rw l (
      scanned (claim_from-Searched map n (suc b) (ind + 8) (omega arith) (omega arith)) x l
        (scan_byte 8 0 x) (scan_byte-Scanned 8 0 x refl (λ i h. absurd (omega arith))))
  where
    scanned :
        (((k : ℕ) → k < 8 * suc b → bit_at map k ≡ ok true)
          → Returns (Result map) (claim_from n (suc b) map (ind + 8)))
        → (x : ℕ) → load map b ≡ ok x
        → (r : Option ℕ) → Scanned x r
        → Returns
            (Result map)
            (elim r [ some j ↦ ok (some j, ind + j) | none ↦ claim_from n (suc b) map (ind + 8) ])
    scanned rest x l none (all_set all) =
        rest (λ k h. bits_below map b x 8 l set all (omega arith) k (omega arith))
    scanned rest x l (some j) (clear _ small off before) =
        there j (ind + j) (omega arith) (omega arith)
          (bit_at-load map (ind + j) b x (omega arith) l
            ∙ ap ok (ap (is_set x) (omega arith) ∙ off))
          (λ k h. bits_below map b x j l set before (omega arith) k (omega arith))

-- The first clear bit of the map, or the number of bits when all are set; in the map the bit is
-- marked that has the place of that one, but in the first byte.
pub data Claimed (map : List ℕ) : ℕ → List ℕ → Type 0 where
  none_clear :
      (ind : ℕ)
      → ind ≡ 8 * 4096
      → ((k : ℕ) → k < 8 * 4096 → bit_at map k ≡ ok true)
      → Claimed map ind map
  first_clear :
      (ind : ℕ) (map' : List ℕ)
      → ind < 8 * 4096
      → bit_at map ind ≡ ok false
      → ((k : ℕ) → k < ind → bit_at map k ≡ ok true)
      → modify map (ind % 8) 1 ≡ ok map'
      → Claimed map ind map'

set_and_clear : (r : Run Bool) → r ≡ ok true → r ≡ ok false → ⊥
set_and_clear r on off = omega (arith, ap value (sym on ∙ off))
  where
    value : Run Bool → ℕ
    value (ok true) = 1
    value _ = 0

-- No clear bit stands before the index.
pub Claimed-below :
    (map : List ℕ) (ind c : ℕ) (map' : List ℕ)
    → Claimed map ind map'
    → c < 8 * 4096
    → bit_at map c ≡ ok false
    → ind ≤ c
Claimed-below map _ c _ (none_clear ind end set) small off =
    absurd (set_and_clear (bit_at map c) (set c small) off)
Claimed-below map _ c _ (first_clear ind map' _ _ before _) small off = elim (dec_le ind c) [
  | yes le ↦ le
  | no gt ↦ absurd (set_and_clear (bit_at map c) (before c (omega arith)) off)
]

-- On a map of 4096 bytes, the search of `a1fs_mkdir` and `a1fs_create` ends within its bounds: it goes on
-- with the index of the first clear bit of the map, and sets the bit whose index is the remainder of that
-- one by 8; when no bit is clear it goes on with 32768 and changes nothing.
pub claim-Claimed :
    (map : List ℕ) → length map ≡ 4096 → Returns (λ (ind, map'). Claimed map ind map') (claim map)
unfolding claim
claim-Claimed map len =
    Returns-bind (Result map) (λ (ind, map'). Claimed map ind map') (claim_from 4096 0 map 0) _
      (claim_from-Searched map 4096 0 0 (omega arith) (omega arith) (λ k h. absurd (omega arith)))
      mark
  where
    mark :
        (r : Option ℕ × ℕ)
        → Result map r
        → Returns {A = ℕ × List ℕ}
            (λ (ind, map'). Claimed map ind map')
            (elim r.0 [ none ↦ ok (r.1, map) | some j ↦ modify map j 1 >>= λ map'. ok (r.1, map') ])
    mark (none, ind) (nowhere _ all set) = none_clear ind (omega arith) (λ k h. set k (omega arith))
    mark (some j, ind) (there _ _ place inside off before) =
        let (map', marked, _, _) = modify-bit_at map j 1 0 (omega arith) (omega arith) in
        rw marked (
          first_clear ind map' (omega arith) off before
            (ap (λ r. modify map r 1) (sym place) ∙ marked))
