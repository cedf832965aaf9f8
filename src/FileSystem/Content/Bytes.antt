-- ===== src/FileSystem/Content/Bytes.antt =====
-- Bytes stored into memory and loaded.
use uoft_operating_systems.Common.{
  ℕ, zero, suc, ◌+◌, ◌<◌, ◌≡◌, refl, ◌∙◌, arith, List, [], ◌∷◌, length,
}
use uoft_operating_systems.Common.Update.{set, set-at, set-else}
use uoft_operating_systems.FileSystem.Content.{store_bytes, load_bytes}

-- Bytes in memory.
pub store_bytes-before :
    (mem : ℕ → ℕ) (at : ℕ) (xs : List ℕ) (p : ℕ) → p < at → store_bytes mem at xs p ≡ mem p
unfolding store_bytes
store_bytes-before mem at [] p h = refl
store_bytes-before mem at (x ∷ xs) p h =
    store_bytes-before (set mem at x) (suc at) xs p (omega arith)
    ∙ set-else mem at x p (λ e. omega arith)

pub load_bytes-ext :
    (f g : ℕ → ℕ) (at n : ℕ)
    → ((p : ℕ) → p < at + n → f p ≡ g p)
    → load_bytes f at n ≡ load_bytes g at n
unfolding load_bytes
load_bytes-ext f g at zero same = refl
load_bytes-ext f g at (suc n) same =
    let here = same at (omega arith) in
    let rest = load_bytes-ext f g (suc at) n (λ p h. same p (omega arith)) in λ i. here i ∷ rest i

pub load_bytes-store :
    (mem : ℕ → ℕ) (at n : ℕ) (xs : List ℕ)
    → length xs ≡ n
    → load_bytes (store_bytes mem at xs) at n ≡ xs
unfolding load_bytes store_bytes
load_bytes-store mem at zero [] e = refl
load_bytes-store mem at zero (x ∷ xs) e = absurd (omega arith)
load_bytes-store mem at (suc n) [] e = absurd (omega arith)
load_bytes-store mem at (suc n) (x ∷ xs) e =
    let here = store_bytes-before (set mem at x) (suc at) xs at (omega arith) ∙ set-at mem at x in
    let rest = load_bytes-store (set mem at x) (suc at) n xs (omega arith) in λ i. here i ∷ rest i
