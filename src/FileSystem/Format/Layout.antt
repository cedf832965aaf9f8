-- ===== src/FileSystem/Format/Layout.antt =====
-- The image that `mkfs` makes.
use uoft_operating_systems.Common.{
  ℕ, ◌+◌, ◌-◌, ◌*◌, ◌/◌, ◌^◌, ◌≤◌, ◌<◌, ◌≡◌, ap, arith, true, length, ok, ◌>>=◌, Returns-value,
}
use uoft_operating_systems.FileSystem.Disk.{Disk, Superblock}
use uoft_operating_systems.FileSystem.Format.{new_superblock, formatted, mkfs}
use uoft_operating_systems.FileSystem.Format.Root.{Rooted, formatted-Rooted}

-- The parts of an image, one behind another, have room for what they are to hold, the data bitmap with
-- the two blocks that `mkfs` clears for it.
pub record Layout (sb : Superblock) : Type 0 where
  pub superblock_first : 1 ≤ sb.start_inode_map
  pub inode_bits : sb.inodes_count ≤ (sb.start_data_map - sb.start_inode_map) * (4096 * 8)
  pub inode_map_before : sb.start_inode_map < sb.start_data_map
  pub data_map_before : sb.start_data_map + 2 ≤ sb.start_inode
  pub inode_room : sb.inodes_count * 64 ≤ (sb.start_extent - sb.start_inode) * 4096
  pub inodes_before : sb.start_inode < sb.start_extent
  pub extent_room : sb.start_extent + sb.inodes_count ≤ sb.start_data
  pub data_room : (sb.start_data + sb.blocks_count) * 4096 ≤ sb.size

-- When the image has room for three blocks behind the extent blocks, at fewer than 2^30 inodes and 2^32 blocks,
-- the parts of an image that `mkfs` lays out, with two blocks for the data bitmap, do not overlap, have
-- room for the inodes, and end within the image with the data blocks.
pub mkfs-Layout :
    (size n_inodes : ℕ)
    → n_inodes < 2 ^ 30
    → size < 2 ^ 44
    → (new_superblock size n_inodes).start_data + 3 ≤ size / 4096
    → Layout (new_superblock size n_inodes)
unfolding new_superblock
mkfs-Layout size n_inodes few small room = record {
  superblock_first = omega arith;
  inode_bits = omega arith;
  inode_map_before = omega arith;
  data_map_before = omega arith;
  inode_room = omega arith;
  inodes_before = omega arith;
  extent_room = omega arith;
  data_room = omega arith;
}

-- When the byte offset of the data region is an int, the image has room for the entries of the root
-- behind it, and its inode bitmap is a block, `mkfs` succeeds, whatever the image held, with no int
-- overflow and no access past the image: the root is a directory of one block, the block 0, with the
-- entries "." and ".." for itself, both bitmaps have one block, with the first bit set, that of the
-- root or its block, and the second clear, and the superblock is the one that was laid out.
pub mkfs-root :
    (d : Disk) (size n_inodes : ℕ)
    → (new_superblock size n_inodes).start_data * 4096 < 2 ^ 31
    → (new_superblock size n_inodes).start_data * 4096 + 512 ≤ size
    → length d.inode_map ≡ 4096
    → (d' : Disk) × (mkfs d size n_inodes ≡ ok (d', true))
      × Rooted (new_superblock size n_inodes) d'
unfolding mkfs
mkfs-root d size n_inodes small room len =
    let (d', made, rooted) =
      Returns-value _ (formatted d size n_inodes)
        (formatted-Rooted d size n_inodes small room len) in
    (d', ap (λ r. r >>= λ x. ok (x, true)) made, rooted)
