-- ===== src/FileSystem/Directory.antt =====
-- Directories of one block, the only ones that a1_filesystem makes: `mkfs` and `a1fs_mkdir` give a
-- directory one block, and nothing gives it another.
use uoft_operating_systems.Common.{
  ℕ, zero, suc, ◌+◌, ◌*◌, ◌/◌, ◌≤◌, ◌<◌, ◌≡◌, refl, ap, ◌∙◌, arith, some, List, [], ◌∷◌, ◌++◌,
  append-nil, take, length,
}
use uoft_operating_systems.FileSystem.Disk.{Disk, Dentry}
use uoft_operating_systems.FileSystem.Text.{same_text_self}
use uoft_operating_systems.FileSystem.Lookup.Listing.{
  slots_from, blocks_from, extents_from, listing, find_last, Fits,
}

-- The directory `p`, with `k` entries in the block `block`.
pub record Directory (d : Disk) (p block k : ℕ) : Type 0 where
  pub number : (d.inodes p).ino_number ≡ p
  pub one_extent : (d.inodes p).extent_count ≡ 1
  pub extent : d.extents p 0 ≡ record { start = block; count = 1 }
  pub size_is : (d.inodes p).size ≡ 256 * k
  pub within : k ≤ 16

-- Slots.
pub length-slots_from : (d : Disk) (n x : ℕ) → length (slots_from d n x) ≡ n
unfolding slots_from
length-slots_from d zero x = refl
length-slots_from d (suc n) x = ap suc (length-slots_from d n (suc x))

take-slots_from : (d : Disk) (k n x : ℕ) → k ≤ n → take k (slots_from d n x) ≡ slots_from d k x
unfolding slots_from
take-slots_from d zero n x h = refl
take-slots_from d (suc k) zero x h = absurd (omega arith)
take-slots_from d (suc k) (suc n) x h =
    ap (λ t. d.entries x ∷ t) (take-slots_from d k n (suc x) (omega arith))

pub slots_from-last :
    (d : Disk) (k x : ℕ) → slots_from d (suc k) x ≡ slots_from d k x ++ d.entries (x + k) ∷ []
unfolding slots_from
slots_from-last d zero x = ap (λ y. d.entries y ∷ []) (omega arith)
slots_from-last d (suc k) x =
    ap (λ t. d.entries x ∷ t)
      (slots_from-last d k (suc x)
        ∙ ap (λ y. slots_from d k (suc x) ++ d.entries y ∷ []) (omega arith))

pub slots_from-ext :
    (d d' : Disk) (k x : ℕ)
    → ((y : ℕ) → x ≤ y → y < x + k → d.entries y ≡ d'.entries y)
    → slots_from d k x ≡ slots_from d' k x
unfolding slots_from
slots_from-ext d d' zero x same = refl
slots_from-ext d d' (suc k) x same =
    let here = same x (omega arith) (omega arith) in
    let rest = slots_from-ext d d' k (suc x) (λ y l h. same y (omega arith) (omega arith)) in
    λ i. here i ∷ rest i

take-block :
    (d : Disk) (k block : ℕ)
    → k ≤ 16
    → take k (blocks_from d 1 block ++ []) ≡ slots_from d k (block * 16)
unfolding blocks_from
take-block d k block h =
    ap (take k)
      (append-nil (slots_from d 16 (block * 16) ++ []) ∙ append-nil (slots_from d 16 (block * 16)))
    ∙ take-slots_from d k 16 (block * 16) h

-- The listing of a directory of one block.
pub listing-Directory :
    (d : Disk) (p block k : ℕ)
    → Directory d p block k
    → listing d (d.inodes p) ≡ slots_from d k (block * 16)
unfolding listing extents_from
listing-Directory d p block k dir =
    rw (dir.number, dir.one_extent)
      (ap (λ e. take ((d.inodes p).size / 256) (blocks_from d e.count e.start ++ [])) dir.extent
        ∙ ap (λ n. take n (blocks_from d 1 block ++ [])) (omega (arith, dir.size_is))
        ∙ take-block d k block dir.within)

-- It fits.
pub Directory-Fits : (d : Disk) (p block k : ℕ) → Directory d p block k → Fits (d.inodes p)
Directory-Fits d p block k dir = record {
  few_entries = omega (arith, dir.size_is, dir.within);
  few_extents = omega (arith, dir.one_extent);
}

-- The last entry of a listing is found by its name.
pub find_last-last :
    (name : List ℕ) (es : List Dentry) (ino : ℕ)
    → find_last name (es ++ record { ino = ino; name = name } ∷ []) ≡ some ino
unfolding find_last
find_last-last name [] ino = rw (same_text_self name) refl
find_last-last name (e ∷ es) ino = rw (find_last-last name es ino) refl
