-- ===== src/Bitmap/Laws.antt =====
-- Changing one bit of a bitmap leaves all others.
use Prim.Native.Nat.{bit_and, bit_or}
use native.Mathlib.Nat.{pow-suc}
use uoft_operating_systems.Common.{
  ℕ, zero, suc, ◌-◌, ◌*◌, ◌/◌, ◌%◌, ◌^◌, ◌<◌, ◌≡◌, ◌≢◌, refl, sym, ap, ◌∙◌, arith, Bool, true,
  false, not, ◌==◌, ne→==, if◌then◌else◌, Bool-cases, inl, inr, List, [], ◌∷◌, length, Run, ok,
  ◌>>=◌,
}
use uoft_operating_systems.Bitmap.{load, store, modify}
use uoft_operating_systems.Bitmap.Bits.{
  digit, digit-bound, digit-power, bit_or-digits, bit_and-digits, bit_and-power, digit-complement,
}

-- Whether the bit of a byte, counted from the highest, is set: `x & (1 << (7 - r))`.
unfoldable pub is_set : ℕ → ℕ → Bool
is_set x r = not (bit_and x (2 ^ (7 - r)) == 0)

unfoldable pub bit_at : List ℕ → ℕ → Run Bool
bit_at map index = load map (index / 8) >>= λ x. ok (is_set x (index % 8))

power_pos : (k : ℕ) → 0 < 2 ^ k
power_pos zero = omega arith
power_pos (suc k) = omega (arith, pow-suc 2 k, power_pos k)

power-lt : (k n : ℕ) → k < n → 2 ^ k < 2 ^ n
power-lt k zero h = absurd (omega arith)
power-lt zero (suc n) h = omega (arith, pow-suc 2 n, power_pos n)
power-lt (suc k) (suc n) h = omega (arith, pow-suc 2 k, pow-suc 2 n, power-lt k n (omega arith))

is_set-digit : (x r : ℕ) → is_set x r ≡ (digit x (7 - r) == 1)
unfolding is_set
is_set-digit x r =
    let d = bit_and-power (7 - r) x in
    elim (Bool-cases (digit x (7 - r) == 0)) [
      | inl clear ↦ rw d (ground arith)
      | inr set ↦
          let one : digit x (7 - r) ≡ 1 = ground (arith, digit-bound (7 - r) x) in
          rw (d, one) (ground (arith, power_pos (7 - r)))
    ]

-- What is stored in the byte.
abbrev changed : ℕ → ℕ → ℕ → ℕ
changed x r value = if value == 1 then bit_or x (2 ^ (7 - r)) else bit_and x (255 - 2 ^ (7 - r))

changed-is_set :
    (x r s value : ℕ)
    → r < 8
    → s < 8
    → is_set (changed x r value) s ≡ (if s == r then value == 1 else is_set x s)
changed-is_set x r s value hr hs =
    is_set-digit (changed x r value) s ∙ elim (Bool-cases (value == 1)) [
      | inl one ↦ rw one (raised ∙ ap (λ b. if s == r then true else b) (sym (is_set-digit x s)))
      | inr other ↦
          rw other (lowered ∙ ap (λ b. if s == r then false else b) (sym (is_set-digit x s)))
    ]
  where
    raised :
        (digit (bit_or x (2 ^ (7 - r))) (7 - s) == 1)
        ≡ (if s == r then true else (digit x (7 - s) == 1))
    raised = ground (
      arith,
      bit_or-digits (7 - s) x (2 ^ (7 - r)),
      digit-power (7 - r) (7 - s),
      digit-bound (7 - s) x,
    )

    lowered :
        (digit (bit_and x (255 - 2 ^ (7 - r))) (7 - s) == 1)
        ≡ (if s == r then false else (digit x (7 - s) == 1))
    lowered = ground (
      arith,
      bit_and-digits (7 - s) x (255 - 2 ^ (7 - r)),
      digit-power (7 - r) (7 - s),
      digit-complement (7 - s) 8 (2 ^ (7 - r)) (omega arith) (power-lt (7 - r) 8 (omega arith)),
      digit-bound (7 - s) x,
    )

store_exact :
    (map : List ℕ) (i byte : ℕ)
    → i < length map
    → (map' : List ℕ) × (store map i byte ≡ ok map')
      × (length map' ≡ length map)
      × (load map' i ≡ ok byte)
      × ((j : ℕ) → i ≢ j → load map' j ≡ load map j)
unfolding load store
store_exact [] i byte h = absurd (omega arith)
store_exact (x ∷ xs) zero byte h = (byte ∷ xs, refl, refl, refl, others)
  where
    others : (j : ℕ) → 0 ≢ j → load (byte ∷ xs) j ≡ load (x ∷ xs) j
    others zero ne = absurd (ne refl)
    others (suc j) ne = refl
store_exact (x ∷ xs) (suc i) byte h =
    let (map', e, l, g, o) = store_exact xs i byte (omega arith) in
    (x ∷ map', ap (λ m. m >>= λ ys. ok (x ∷ ys)) e, omega (arith, l), g, others map' o)
  where
    others :
        (map' : List ℕ)
        → ((j : ℕ) → i ≢ j → load map' j ≡ load xs j)
        → (j : ℕ) → suc i ≢ j
        → load (x ∷ map') j ≡ load (x ∷ xs) j
    others map' o zero ne = refl
    others map' o (suc j) ne = o j (λ e. ne (ap suc e))

pub load_exact : (map : List ℕ) (i : ℕ) → i < length map → (x : ℕ) × (load map i ≡ ok x)
unfolding load
load_exact [] i h = absurd (omega arith)
load_exact (x ∷ xs) zero h = (x, refl)
load_exact (x ∷ xs) (suc i) h = load_exact xs i (omega arith)

pub bit_at-load :
    (map : List ℕ) (j i x : ℕ)
    → j / 8 ≡ i
    → load map i ≡ ok x
    → bit_at map j ≡ ok (is_set x (j % 8))
unfolding bit_at
bit_at-load map j i x e l =
    ap (λ q. load map q >>= λ y. ok (is_set y (j % 8))) e
    ∙ ap (λ m. m >>= λ y. ok (is_set y (j % 8))) l

-- `modify` at an index of the map is not out of bounds; the bit at this index is then set just if
-- `value` is 1, every other bit of the map is as before, and the map keeps its length.
pub modify-bit_at :
    (map : List ℕ) (index value j : ℕ)
    → index < 8 * length map
    → j < 8 * length map
    → (map' : List ℕ) × (modify map index value ≡ ok map')
      × (length map' ≡ length map)
      × (bit_at map' j ≡ (if j == index then ok (value == 1) else bit_at map j))
unfolding modify bit_at
modify-bit_at map index value j hi hj =
    let (x, lx) = load_exact map (index / 8) (omega arith) in
    let (map', st, len, here, others) =
      store_exact map (index / 8) (changed x (index % 8) value) (omega arith) in
    (
      map',
      rw lx st,
      len,
      elim (Bool-cases (j / 8 == index / 8)) [
        | inl same ↦
            bit_at-load map' j (index / 8) (changed x (index % 8) value) (ground arith) here
            ∙ ap ok (changed-is_set x (index % 8) (j % 8) value (omega arith) (omega arith))
            ∙ in_byte (is_set x (j % 8)) (ground arith)
            ∙ ap (λ r. if j == index then ok (value == 1) else r)
                (sym (bit_at-load map j (index / 8) x (ground arith) lx))
        | inr other ↦
            ap (λ m. m >>= λ y. ok (is_set y (j % 8))) (others (j / 8) (λ e. (ground arith)))
            ∙ ap (λ b. if b then ok (value == 1) else bit_at map j) (sym (apart (ground arith)))
      ],
    )
  where
    in_byte :
        (b : Bool)
        → (j % 8 == index % 8) ≡ (j == index)
        → ok (if j % 8 == index % 8 then value == 1 else b)
          ≡ (if j == index then ok (value == 1) else ok b)
    in_byte b e = elim (Bool-cases (j == index)) [
      | inl same ↦ rw (e, same) refl
      | inr other ↦ rw (e, other) refl
    ]

    apart : (j / 8 ≡ index / 8 → ⊥) → (j == index) ≡ false
    apart ne = ne→== j index (λ e. ne (ap (λ n. n / 8) e))
