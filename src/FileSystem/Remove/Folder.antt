-- ===== src/FileSystem/Remove/Folder.antt =====
-- What `a1fs_rmdir` removes.
use uoft_operating_systems.Common.{
  ℕ, ◌*◌, ◌<◌, ◌^◌, ◌≡◌, refl, ap, ◌∙◌, false, some, List, [], ◌∷◌, ok, ◌==◌, if-false, length,
}
use uoft_operating_systems.Common.Update.{set, set-at}
use uoft_operating_systems.FileSystem.Disk.{Disk, Superblock, Inode, done, add_uint, sub_uint}
use uoft_operating_systems.FileSystem.Text.{slash, same_text}
use uoft_operating_systems.FileSystem.Lookup.{file_inode}
use uoft_operating_systems.FileSystem.Lookup.Listing.{listing, find_last}
use uoft_operating_systems.FileSystem.Directory.{Directory}
use uoft_operating_systems.FileSystem.Parent.{split, old_parent}
use uoft_operating_systems.FileSystem.Parent.Same.{old_parent-same}
use uoft_operating_systems.FileSystem.Remove.{shrink_size, free_directory, remove_directory, rmdir}
use uoft_operating_systems.FileSystem.Remove.TakeOut.{take_out}
use uoft_operating_systems.FileSystem.Remove.Taken.{remove_extents-listing}
use uoft_operating_systems.FileSystem.Remove.Free.{
  owned, Inside, Cleared, modify-Cleared, clear_extents-Cleared,
}

-- In a directory of one block with less than 16 entries, one of which has the last part of the path as its
-- name, `a1fs_rmdir` of a path other than "/" that leads to an inode with two links succeeds: in the listing
-- the last entry takes the place of the first with the name, the bit of the inode is cleared in the
-- inode bitmap, and the bits of its blocks in the block bitmap; all other bits are as before.
pub rmdir-listing :
    (d : Disk) (path name stack : List ℕ) (n dr p block k ino : ℕ)
    → same_text path (slash ∷ []) ≡ false
    → file_inode d path ≡ ok dr
    → (d.inodes dr).links ≡ 2
    → dr < 8 * length d.inode_map
    → Inside (d.extents dr) (d.inodes dr).extent_count 0 (8 * length d.data_map)
    → split path ≡ ok (n, name)
    → old_parent d path n stack ≡ ok p
    → Directory d p block k
    → k < 16
    → block < 2 ^ 31
    → find_last name (listing d (d.inodes p)) ≡ some ino
    → (d' : Disk) × (rmdir d path stack ≡ ok (d', done tt))
      × (listing d' (d'.inodes p) ≡ take_out name (listing d (d.inodes p)))
      × Cleared d.inode_map (λ j. j == dr) d'.inode_map
      × Cleared d.data_map (owned (d.extents dr) (d.inodes dr).extent_count 0) d'.data_map
unfolding rmdir remove_directory free_directory
rmdir-listing d path name stack n dr p block k ino other leads two low ends cut found dir room below
      named =
    let (inode_map', marked, cleared) = modify-Cleared d.inode_map dr low in
    let counted : Superblock = record (d.sb) {
      free_inodes_count = add_uint d.sb.free_inodes_count 1;
    } in
    let (data_map', freed, released) =
      clear_extents-Cleared (d.inodes dr).extent_count 0 dr
        (record d { sb = counted; inode_map = inode_map' }) ends in
    let (entries', removed, taken) =
      remove_extents-listing d p block k ino name dir room below named counted inode_map' data_map'
        d.inodes (d.inodes p) dir.one_extent dir.size_is in
    let parent' : Inode = record (d.inodes p) {
      size = shrink_size (d.inodes p).size;
      links = sub_uint (d.inodes p).links 1;
    } in
    let there = set-at d.inodes p parent' in
    (
      record d {
        sb = counted;
        inode_map = inode_map';
        data_map = data_map';
        entries = entries';
        inodes = set d.inodes p parent';
      },
      if-false _ _ _ other
          ∙ rw
              (
                leads,
                two,
                marked,
                freed,
                cut,
                old_parent-same d counted inode_map' data_map' path n stack ∙ found,
                removed,
              )
              refl,
      taken (set d.inodes p parent') (record {
        same_number = ap (λ i. i.ino_number) there;
        same_extents = ap (λ i. i.extent_count) there;
        smaller = ap (λ i. i.size) there;
      }),
      cleared,
      released,
    )
