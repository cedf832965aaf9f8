-- ===== src/FileSystem/Disk.antt =====
-- The image of a1_filesystem/a1fs.h, as the structures that it consists of: the superblock, the two
-- bitmaps, the inode table, the extent blocks (one for each inode) and the data region. The data
-- region is read in slots of 256 bytes as directory entries, and as bytes; no block serves as both.
-- An inode number past the table and a block past the region are not told apart from others, but for
-- the extent block of a new directory (`FileSystem.Make`).
use uoft_operating_systems.Common.{
  ℕ, ◌+◌, ◌-◌, ◌^◌, ◌%◌, Bool, List, Run, ok, stop, out_of_bounds, ltb, ◌==◌, if◌then◌else◌,
}
use uoft_operating_systems.Common.Update.{set}
use Prim.Native.Nat.{bit_or}

pub record Superblock : Type 0 where
  pub magic : ℕ
  pub size : ℕ
  pub start_inode_map : ℕ
  pub start_data_map : ℕ
  pub start_inode : ℕ
  pub start_extent : ℕ
  pub start_data : ℕ
  pub inodes_count : ℕ
  pub blocks_count : ℕ
  pub free_blocks_count : ℕ
  pub free_inodes_count : ℕ

pub record Extent : Type 0 where
  pub start : ℕ
  pub count : ℕ

pub record Inode : Type 0 where
  pub mode : ℕ
  pub links : ℕ
  pub size : ℕ
  pub mtime : ℕ
  pub ino_number : ℕ
  pub extent_count : ℕ

-- `name` are the bytes before the NUL.
pub record Dentry : Type 0 where
  pub ino : ℕ
  pub name : List ℕ

-- With the size of the image from `fs_ctx`. `entries` are the slots of the data region, sixteen a
-- block, and `bytes` its bytes.
pub record Disk : Type 0 where
  pub size : ℕ
  pub sb : Superblock
  pub inode_map : List ℕ
  pub data_map : List ℕ
  pub inodes : ℕ → Inode
  pub extents : ℕ → ℕ → Extent
  pub entries : ℕ → Dentry
  pub bytes : ℕ → ℕ

abbrev pub name_max : ℕ
name_max = 252

-- PATH_MAX
abbrev pub path_max : ℕ
path_max = 4096

-- S_IFDIR
abbrev pub ifdir : ℕ
ifdir = 0x4000

-- `(mode|0777) == (S_IFDIR|0777)`.
unfoldable pub is_directory : Inode → Bool
is_directory inode = bit_or inode.mode 511 == bit_or ifdir 511

-- `extent_array[i]` of the extent block of an inode: an array of 512.
unfoldable pub extent_at : Disk → ℕ → ℕ → Run Extent
extent_at d ino i = if ltb i 512 then ok (d.extents ino i) else stop out_of_bounds

-- `extent_array[count - 1]`: there is no index -1.
unfoldable pub last_extent : Disk → ℕ → ℕ → Run Extent
unfolding extent_at
last_extent d ino count = if count == 0 then stop out_of_bounds else extent_at d ino (count - 1)

-- The counters of the superblock are unsigned ints.
abbrev pub add_uint : ℕ → ℕ → ℕ
add_uint a b = (a + b) % 2 ^ 32

abbrev pub sub_uint : ℕ → ℕ → ℕ
sub_uint a b = (a + 2 ^ 32 - b) % 2 ^ 32

-- What an operation answers: its result, or an error number. `failed` is a plain -1.
pub data Reply (A : Type 0) : Type 0 where
  done : A → Reply A
  enametoolong enoent enotdir enosys enomem enospc enotempty failed : Reply A

-- A field of an inode is written.
abbrev pub set_inode : Disk → ℕ → Inode → Disk
set_inode d ino i = record d { inodes = set d.inodes ino i }
