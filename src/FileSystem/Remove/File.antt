-- ===== src/FileSystem/Remove/File.antt =====
-- What `a1fs_unlink` removes from the root.
use uoft_operating_systems.Common.{
  ℕ, ◌-◌, ◌*◌, ◌<◌, ◌^◌, ◌≡◌, refl, ap, ◌∙◌, arith, some, List, ok, ◌==◌, lt→ltb, length,
}
use uoft_operating_systems.Common.Update.{set, set-at}
use uoft_operating_systems.FileSystem.Disk.{Disk, Superblock, Inode, done, add_uint, sub_uint}
use uoft_operating_systems.FileSystem.Lookup.{file_inode}
use uoft_operating_systems.FileSystem.Lookup.Listing.{listing, find_last}
use uoft_operating_systems.FileSystem.Directory.{Directory}
use uoft_operating_systems.FileSystem.Parent.{split, old_parent}
use uoft_operating_systems.FileSystem.Parent.Same.{old_parent-same}
use uoft_operating_systems.FileSystem.Remove.{shrink_size, free_file, block_inode, unlink}
use uoft_operating_systems.FileSystem.Remove.TakeOut.{take_out}
use uoft_operating_systems.FileSystem.Remove.Taken.{remove_extents-listing}
use uoft_operating_systems.FileSystem.Remove.Free.{
  owned, Inside, Cleared, modify-Cleared, release_extents-Cleared,
}

-- In a root of one block with less than 16 entries, one of which has the last part of the path as its name,
-- `a1fs_unlink` of a path whose parent is the root succeeds: in the listing the last entry takes the place
-- of the first with the name, the bit of the inode that the path leads to is cleared in the inode bitmap,
-- and the bits of its blocks in the block bitmap; all other bits are as before.
pub unlink-listing :
    (d : Disk) (path name stack : List ℕ) (n file block k ino : ℕ)
    → d.sb.start_inode < d.sb.start_extent
    → file_inode d path ≡ ok file
    → file < 8 * length d.inode_map
    → Inside (d.extents file) (d.inodes file).extent_count 0 (8 * length d.data_map)
    → split path ≡ ok (n, name)
    → old_parent d path n stack ≡ ok 0
    → Directory d 0 block k
    → k < 16
    → block < 2 ^ 31
    → find_last name (listing d (d.inodes 0)) ≡ some ino
    → (d' : Disk) × (unlink d path stack ≡ ok (d', done tt))
      × (listing d' (d'.inodes 0) ≡ take_out name (listing d (d.inodes 0)))
      × Cleared d.inode_map (λ j. j == file) d'.inode_map
      × Cleared d.data_map (owned (d.extents file) (d.inodes file).extent_count 0) d'.data_map
unfolding unlink free_file block_inode
unlink-listing d path name stack n file block k ino table leads low ends cut found dir room below
      named =
    let (inode_map', marked, cleared) = modify-Cleared d.inode_map file low in
    let counted : Superblock = record (d.sb) {
      free_inodes_count = add_uint d.sb.free_inodes_count 1;
    } in
    let (data_map', sb', freed, released, same_inode, same_extent) =
      release_extents-Cleared (d.inodes file).extent_count 0 file
        (record d { sb = counted; inode_map = inode_map' }) ends in
    let inodes' = set d.inodes 0 (record (d.inodes 0) { links = sub_uint (d.inodes 0).links 1 }) in
    let (entries', removed, taken) =
      remove_extents-listing d 0 block k ino name dir room below named sb' inode_map' data_map'
        inodes' (d.inodes 0) dir.one_extent dir.size_is in
    let root' : Inode = record (inodes' 0) { size = shrink_size (d.inodes 0).size } in
    let there = set-at inodes' 0 root' in
    let root = set-at d.inodes 0 _ in
    (
      record d {
        sb = sb';
        inode_map = inode_map';
        data_map = data_map';
        entries = entries';
        inodes = set inodes' 0 root';
      },
      rw
          (
            leads,
            marked,
            freed,
            cut,
            old_parent-same d sb' inode_map' data_map' path n stack ∙ found,
            lt→ltb 0 (sb'.start_extent - sb'.start_inode) (omega (arith, same_inode, same_extent)),
            removed,
          )
          refl,
      taken (set inodes' 0 root') (record {
        same_number = ap (λ i. i.ino_number) there ∙ ap (λ i. i.ino_number) root;
        same_extents = ap (λ i. i.extent_count) there ∙ ap (λ i. i.extent_count) root;
        smaller = ap (λ i. i.size) there;
      }),
      cleared,
      released,
    )
