-- ===== src/FileSystem/Remove/Taken.antt =====
-- The listing of a directory of one block from which `a1fs_rmdir` or `a1fs_unlink` takes an entry.
use uoft_operating_systems.Common.{
  ℕ, zero, suc, ◌-◌, ◌*◌, ◌/◌, ◌%◌, ◌<◌, ◌^◌, ◌≡◌, refl, sym, ap, ◌∙◌, arith, some, List, ok,
}
use uoft_operating_systems.FileSystem.Disk.{Disk, Superblock, Inode, Dentry}
use uoft_operating_systems.FileSystem.Lookup.Listing.{slots_from, listing, find_last}
use uoft_operating_systems.FileSystem.Directory.{Directory, slots_from-ext, listing-Directory}
use uoft_operating_systems.FileSystem.Remove.{remove_extents, shrink_size}
use uoft_operating_systems.FileSystem.Remove.Entry.{remove_extents-take_out}
use uoft_operating_systems.FileSystem.Remove.TakeOut.{take_out, impossible}

-- The inode of a directory of one block, which lost an entry.
pub record Shrunk (before after : Inode) : Type 0 where
  pub same_number : after.ino_number ≡ before.ino_number
  pub same_extents : after.extent_count ≡ before.extent_count
  pub smaller : after.size ≡ shrink_size before.size

module _ (d : Disk) (p block k ino : ℕ) (name : List ℕ) (dir : Directory d p block k)
    (room : k < 16) (below : block < 2 ^ 31)
    (named : find_last name (listing d (d.inodes p)) ≡ some ino) where
  named_slots : find_last name (slots_from d k (block * 16)) ≡ some ino
  named_slots = ap (find_last name) (sym (listing-Directory d p block k dir)) ∙ named

  some_entry : 0 < k
  unfolding find_last slots_from
  some_entry = positive k named_slots
    where
      positive : (n : ℕ) → find_last name (slots_from d n (block * 16)) ≡ some ino → 0 < n
      positive zero e = absurd (impossible e)
      positive (suc n) e = omega arith

  module _ (sb' : Superblock) (inode_map' data_map' : List ℕ) (inodes' : ℕ → Inode) where
    abbrev pub changed : Disk
    changed = record d { sb = sb'; inode_map = inode_map'; data_map = data_map'; inodes = inodes' }

    -- With the bitmaps, the superblock and the inodes changed, the scan finds the entry; with the entries
    -- that it leaves and a smaller directory, the listing has lost the entry.
    pub remove_extents-listing :
        (parent : Inode)
        → parent.extent_count ≡ 1
        → parent.size ≡ 256 * k
        → (entries' : ℕ → Dentry) × (remove_extents changed parent p
              (parent.size / 256 % 16)
              name
              parent.extent_count
              0
            ≡ ok (some entries'))
          × ((inodes'' : ℕ → Inode)
              → Shrunk (d.inodes p) (inodes'' p)
              → listing (record changed { entries = entries'; inodes = inodes'' }) (inodes'' p)
                ≡ take_out name (listing d (d.inodes p)))
    remove_extents-listing parent one size =
        let (entries', found, taken) =
          remove_extents-take_out changed parent p block k name one dir.extent some_entry room below
            ino
            (ap (find_last name) (slots_from-ext changed d k (block * 16) (λ y l h. refl))
              ∙ named_slots) in
        let places : parent.size / 256 % 16 ≡ k = omega (arith, size) in
        (
          entries',
          ap (λ n. remove_extents changed parent p n name parent.extent_count 0) places ∙ found,
          λ inodes'' s.
              let after : Disk = record changed { entries = entries'; inodes = inodes'' } in
              listing-Directory after p block (k - 1) (record {
                number = s.same_number ∙ dir.number;
                one_extent = s.same_extents ∙ dir.one_extent;
                extent = dir.extent;
                size_is = s.smaller ∙ omega (arith, dir.size_is, some_entry);
                within = omega arith;
              })
              ∙ slots_from-ext after (record changed { entries = entries' }) (k - 1) (block * 16)
                  (λ y l h. refl)
              ∙ taken
              ∙ ap (take_out name) (
                  slots_from-ext changed d k (block * 16) (λ y l h. refl)
                  ∙ sym (listing-Directory d p block k dir)),
        )
