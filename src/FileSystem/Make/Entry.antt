-- ===== src/FileSystem/Make/Entry.antt =====
-- The entry that `a1fs_create` makes.
use uoft_operating_systems.Common.{
  ℕ, suc, ◌+◌, ◌*◌, ◌%◌, ◌<◌, ◌≤◌, ◌^◌, ◌≡◌, ◌≢◌, refl, sym, ap, ◌∙◌, arith, Bool, true, false,
  some, List, [], ◌∷◌, ◌++◌, Run, ok, Returns-value, if-false, ne→==, length,
}
use uoft_operating_systems.Common.Update.{set, set-at, set-else}
use uoft_operating_systems.Bitmap.Laws.{bit_at}
use uoft_operating_systems.FileSystem.Disk.{Disk, Inode, Dentry, done, last_extent, extent_at}
use uoft_operating_systems.FileSystem.Lookup.{helper}
use uoft_operating_systems.FileSystem.Lookup.Listing.{
  slots_from, listing, find_last, helper-find_last,
}
use uoft_operating_systems.FileSystem.Directory.{
  Directory, slots_from-last, slots_from-ext, listing-Directory, Directory-Fits, find_last-last,
}
use uoft_operating_systems.FileSystem.Parent.{split, new_parent, append_slot, grow}
use uoft_operating_systems.FileSystem.Make.{claim, create_file}
use uoft_operating_systems.FileSystem.Make.Claim.{Claimed, none_clear, first_clear, claim-Claimed}
use uoft_operating_systems.FileSystem.Parent.Same.{new_parent-same}

pub append_slot_exact :
    (block k size : ℕ)
    → k < 16
    → size ≡ 256 * k
    → block < 2 ^ 31
    → append_slot (record { start = block; count = 1 }) size ≡ ok (block * 16 + k)
unfolding append_slot
append_slot_exact block k size room is below =
    if-false _ _ _ (ne→== ((block + 1) % 2 ^ 32) 0 (λ e. omega arith)) ∙ ap ok (omega (arith, is))

-- The inode of a directory of one more entry.
pub grow-size : (i : Inode) (k : ℕ) → i.size ≡ 256 * k → k < 16 → (grow i).size ≡ 256 * (k + 1)
grow-size i k is room = omega (arith, is)

-- An entry is put into the first free slot of a directory of one block.
pub append-listing :
    (d d' : Disk) (p block k : ℕ) (e : Dentry)
    → Directory d p block k
    → Directory d' p block (suc k)
    → d'.entries (block * 16 + k) ≡ e
    → ((y : ℕ) → block * 16 ≤ y → y < block * 16 + k → d.entries y ≡ d'.entries y)
    → listing d' (d'.inodes p) ≡ listing d (d.inodes p) ++ e ∷ []
append-listing d d' p block k e dir dir' new same =
    listing-Directory d' p block (suc k) dir'
    ∙ slots_from-last d' k (block * 16)
    ∙ ap (λ t. slots_from d' k (block * 16) ++ t ∷ []) new
    ∙ ap (λ t. t ++ e ∷ [])
        (sym (slots_from-ext d d' k (block * 16) same) ∙ sym (listing-Directory d p block k dir))

-- The index that is claimed on a map with a clear bit is not one whose bit is set.
pub claim-fresh :
    (map : List ℕ) (c own : ℕ)
    → length map ≡ 4096
    → c < 8 * 4096
    → bit_at map c ≡ ok false
    → bit_at map own ≡ ok true
    → (new : ℕ) × (map' : List ℕ) × (claim map ≡ ok (new, map')) × Claimed map new map' × new ≢ own
claim-fresh map c own len small off on =
    let ((new, map'), e, f) = Returns-value _ (claim map) (claim-Claimed map len) in
    (new, map', e, f, apart new map' f)
  where
    value : Run Bool → ℕ
    value (ok true) = 1
    value _ = 0

    apart : (new : ℕ) (map' : List ℕ) → Claimed map new map' → new ≢ own
    apart new _ (none_clear _ _ all) same = absurd (omega (arith, ap value (sym off ∙ all c small)))
    apart new _ (first_clear _ _ _ clear _ _) same =
        absurd (omega (arith, ap value (sym clear ∙ ap (bit_at map) same ∙ on)))

-- The file system after `a1fs_create`.
abbrev made : Disk → ℕ → ℕ → List ℕ → ℕ → ℕ → List ℕ → Disk
made d p slot name mode new map' = record d {
  inode_map = map';
  inodes =
      set (set d.inodes p (grow (d.inodes p))) new
        (record (set d.inodes p (grow (d.inodes p)) new) {
          mode = mode;
          links = 1;
          size = 0;
          ino_number = new;
          extent_count = 0;
        });
  entries = set d.entries slot (record { ino = new; name = name });
}

module _ (d : Disk) (p block k : ℕ) (dir : Directory d p block k) (room : k < 16)
    (below : block < 2 ^ 31) where
  module _ (name : List ℕ) (mode new : ℕ) (map' : List ℕ) (fresh : new ≢ p) where
    abbrev after : Disk
    after = made d p (block * 16 + k) name mode new map'

    parent_grown : after.inodes p ≡ grow (d.inodes p)
    parent_grown =
        set-else (set d.inodes p (grow (d.inodes p))) new _ p (λ e. fresh (sym e))
        ∙ set-at d.inodes p (grow (d.inodes p))

    made-Directory : Directory after p block (suc k)
    made-Directory = record {
      number = ap (λ i. i.ino_number) parent_grown ∙ dir.number;
      one_extent = ap (λ i. i.extent_count) parent_grown ∙ dir.one_extent;
      extent = dir.extent;
      size_is = ap (λ i. i.size) parent_grown ∙ omega (arith, dir.size_is);
      within = omega arith;
    }

    made-listing :
        listing after (after.inodes p)
        ≡ listing d (d.inodes p) ++ record { ino = new; name = name } ∷ []
    made-listing =
        append-listing d after p block k (record { ino = new; name = name }) dir made-Directory
          (set-at d.entries (block * 16 + k) _)
          (λ y l h. sym (set-else d.entries (block * 16 + k) _ y (λ e. omega arith)))

    made-helper : helper after (after.inodes p) name ≡ ok (some new)
    made-helper =
        helper-find_last after (after.inodes p) name
          (Directory-Fits after p block (suc k) made-Directory)
        ∙ ap (λ es. ok (find_last name es)) made-listing
        ∙ ap ok (find_last-last name (listing d (d.inodes p)) new)

    create_file_exact :
        (path : List ℕ) (n : ℕ) (stack : List ℕ)
        → claim d.inode_map ≡ ok (new, map')
        → split path ≡ ok (n, name)
        → new_parent d path n stack ≡ ok p
        → create_file d path mode stack ≡ ok (after, done tt)
    unfolding create_file last_extent extent_at
    create_file_exact path n stack claimed cut found =
        rw
          (
            claimed,
            cut,
            new_parent-same d d.sb map' d.data_map path n stack ∙ found,
            dir.one_extent,
            dir.extent,
            append_slot_exact block k (d.inodes p).size room dir.size_is below,
          )
          refl

  -- When the parent of the path is a directory of one block with less than 16 entries, whose own bit is set
  -- in the inode bitmap, and some bit of that map is clear, the part of `a1fs_create` behind its tests
  -- succeeds: it takes the number of the first clear bit for the new inode, the listing of the parent has
  -- the new entry behind the ones before, and `helper` finds the new inode under the name, in a directory with one
  -- entry more; the inode has the given
  -- mode, one link, no byte and no block, and the
  -- superblock is as before.
  pub create_file-listing :
      (path name stack : List ℕ) (mode n c : ℕ)
      → split path ≡ ok (n, name)
      → new_parent d path n stack ≡ ok p
      → length d.inode_map ≡ 4096
      → bit_at d.inode_map p ≡ ok true
      → c < 8 * 4096
      → bit_at d.inode_map c ≡ ok false
      → (d' : Disk) × (new : ℕ) × (create_file d path mode stack ≡ ok (d', done tt))
        × Claimed d.inode_map new d'.inode_map
        × (listing d' (d'.inodes p)
            ≡ listing d (d.inodes p) ++ record { ino = new; name = name } ∷ [])
        × (helper d' (d'.inodes p) name ≡ ok (some new))
        × ((d'.inodes new).mode ≡ mode)
        × ((d'.inodes new).links ≡ 1)
        × ((d'.inodes new).size ≡ 0)
        × ((d'.inodes new).extent_count ≡ 0)
        × Directory d' p block (suc k)
        × (d'.sb ≡ d.sb)
  create_file-listing path name stack mode n c cut found len own small off =
      let (new, map', claimed, first, fresh) = claim-fresh d.inode_map c p len small off own in
      let there = set-at (set d.inodes p (grow (d.inodes p))) new _ in
      (
        after name mode new map' fresh,
        new,
        create_file_exact name mode new map' fresh path n stack claimed cut found,
        first,
        made-listing name mode new map' fresh,
        made-helper name mode new map' fresh,
        ap (λ i. i.mode) there,
        ap (λ i. i.links) there,
        ap (λ i. i.size) there,
        ap (λ i. i.extent_count) there,
        made-Directory name mode new map' fresh,
        refl,
      )
