-- ===== src/FileSystem/Tests.antt =====
-- A small file system, and the operations on it.
mod Lookups
mod Changes
mod Formats
use uoft_operating_systems.Common.{ℕ, zero, suc, ◌-◌, ltb, if◌then◌else◌, List, [], ◌∷◌, replicate}
use uoft_operating_systems.FileSystem.Disk.{Disk, Superblock, Inode, Extent, Dentry}

-- Three bits are set.
abbrev pub three : List ℕ
three = 0xE0 ∷ replicate 4095 0

abbrev pub folder : ℕ → ℕ → ℕ → Inode
folder ino links k = record {
  mode = 0x41FF;
  links = links;
  size = k;
  mtime = 0;
  ino_number = ino;
  extent_count = 1;
}

-- The root, the file "/a" of five bytes, the directory "/d", and an empty file.
abbrev pub small_inodes : ℕ → Inode
small_inodes zero = folder 0 4 1024
small_inodes (suc zero) = record {
  mode = 0x81A4;
  links = 1;
  size = 5;
  mtime = 0;
  ino_number = 1;
  extent_count = 1;
}
small_inodes (suc (suc zero)) = folder 2 2 512
small_inodes (suc (suc (suc n))) = record {
  mode = 0x81A4;
  links = 1;
  size = 0;
  mtime = 0;
  ino_number = suc (suc (suc n));
  extent_count = 0;
}

abbrev pub small_extents : ℕ → ℕ → Extent
small_extents zero i = record { start = 0; count = 1 }
small_extents (suc zero) i = record { start = 1; count = 1 }
small_extents (suc (suc n)) i = record { start = 2; count = 1 }

-- The entries in the first slots of a block.
abbrev place : List Dentry → ℕ → Dentry
place [] n = record { ino = 7; name = b'x' ∷ [] }
place (e ∷ es) zero = e
place (e ∷ es) (suc n) = place es n

abbrev pub small_entries : ℕ → Dentry
small_entries slot =
    if ltb slot 32
    then place
        (record { ino = 0; name = b'.' ∷ [] }
          ∷ record { ino = 0; name = b'.' ∷ b'.' ∷ [] }
          ∷ record { ino = 1; name = b'a' ∷ [] }
          ∷ record { ino = 2; name = b'd' ∷ [] }
          ∷ [])
        slot
    else place
        (record { ino = 2; name = b'.' ∷ [] } ∷ record { ino = 0; name = b'.' ∷ b'.' ∷ [] } ∷ [])
        (slot - 32)

abbrev pub small : Disk
small = record {
  size = 409600;
  sb = record {
    magic = 0xC5C369A1C5C369A1;
    size = 409600;
    start_inode_map = 1;
    start_data_map = 2;
    start_inode = 4;
    start_extent = 5;
    start_data = 21;
    inodes_count = 16;
    blocks_count = 76;
    free_blocks_count = 73;
    free_inodes_count = 13;
  };
  inode_map = three;
  data_map = three;
  inodes = small_inodes;
  extents = small_extents;
  entries = small_entries;
  bytes = λ at. at;
}
