-- ===== src/FileSystem/Stat.antt =====
-- The operations of a1_filesystem/a1fs.c that report on the file system: `a1fs_statfs`,
-- `a1fs_getattr` and `a1fs_readdir`, and `a1fs_utimens`, which sets a time.
pub mod Answers
pub mod Names
use uoft_operating_systems.Common.{
  ℕ, zero, suc, ◌+◌, ◌*◌, ◌/◌, ◌^◌, Bool, true, false, Option, none, some, List, [], ◌∷◌, ◌++◌, Run,
  ok, stop, out_of_bounds, int_overflow, ◌>>=◌, ltb, leb, ◌==◌, if◌then◌else◌, length,
}
use uoft_operating_systems.Bitmap.{block_size}
use uoft_operating_systems.FileSystem.Disk.{
  Disk, Inode, Extent, Dentry, Reply, done, enametoolong, enoent, enotdir, enosys, failed, name_max,
  path_max, extent_at, add_uint, set_inode,
}
use uoft_operating_systems.FileSystem.Lookup.{
  PathResult, inode, not_found, not_directory, not_absolute, path_inode, scan_slots,
}

-- The fields of struct statvfs that are filled in.
pub record Statvfs : Type 0 where
  pub bsize : ℕ
  pub frsize : ℕ
  pub blocks : ℕ
  pub bfree : ℕ
  pub bavail : ℕ
  pub files : ℕ
  pub ffree : ℕ
  pub favail : ℕ
  pub namemax : ℕ

unfoldable statfs : Disk → Statvfs
statfs d = record {
  bsize = block_size;
  frsize = block_size;
  blocks = d.size / block_size;
  bfree = d.sb.free_blocks_count;
  bavail = d.sb.free_blocks_count;
  files = d.sb.inodes_count;
  ffree = d.sb.free_inodes_count;
  favail = d.sb.free_inodes_count;
  namemax = name_max;
}

-- The fields of struct stat that are filled in.
pub record Stat : Type 0 where
  pub ino : ℕ
  pub mode : ℕ
  pub nlink : ℕ
  pub size : ℕ
  pub blocks : ℕ
  pub mtim : ℕ

-- The loop that adds up the blocks of `n` extents from the extent `i` on.
unfoldable pub count_blocks : Disk → ℕ → ℕ → ℕ → ℕ → Run ℕ
count_blocks d ino zero i block_count = ok block_count
count_blocks d ino (suc n) i block_count = do
  e ← extent_at d ino i
  count_blocks d ino n (suc i) (add_uint block_count e.count)

-- `block_count * A1FS_BLOCK_SIZE / 512` on ints.
unfoldable pub sectors : ℕ → Run ℕ
sectors block_count =
    if ltb (block_count * block_size) (2 ^ 31)
    then ok (block_count * block_size / 512)
    else stop int_overflow

-- What is answered once the path is followed.
unfoldable pub respond : Disk → PathResult → Run (Reply Stat)
unfolding count_blocks sectors
respond d not_found = ok enoent
respond d not_directory = ok enotdir
respond d not_absolute = ok enosys
respond d (inode n) = do
  block_count ← count_blocks d n (d.inodes n).extent_count 0 0
  blocks ← sectors block_count
  ok (
      done (record {
        ino = n;
        mode = (d.inodes n).mode;
        nlink = (d.inodes n).links;
        size = (d.inodes n).size;
        blocks = blocks;
        mtim = 0;
      }))

unfoldable pub getattr : Disk → List ℕ → Run (Reply Stat)
unfolding respond
getattr d path =
    if leb path_max (length path) then ok enametoolong else (path_inode d path >>= respond d)

-- The loops of `a1fs_readdir` over the blocks of an extent and over the extents, with the entries
-- so far.
unfoldable pub read_blocks : Disk → ℕ → ℕ → ℕ → List Dentry → Run (List Dentry)
read_blocks d entry_num zero j found = ok found
read_blocks d entry_num (suc n) j found =
    let rest = scan_slots d entry_num 16 (j * 16) found >>= read_blocks d entry_num n (suc j) in
    if ltb (length found) entry_num then rest else ok found

unfoldable pub read_extents : Disk → ℕ → ℕ → ℕ → ℕ → List Dentry → Run (List Dentry)
unfolding read_blocks
read_extents d entry_num ino zero i found = ok found
read_extents d entry_num ino (suc n) i found = do
  e ← extent_at d ino i
  found' ← read_blocks d entry_num e.count e.start found
  read_extents d entry_num ino n (suc i) found'

unfoldable pub names : List Dentry → List (List ℕ)
names [] = []
names (e ∷ es) = e.name ∷ names es

-- The names that are passed to `filler`, in order; there is no inode -ENOENT or -ENOTDIR.
unfoldable pub readdir : Disk → List ℕ → Run (Reply (List (List ℕ)))
unfolding read_extents names
readdir d path = do
  r ← path_inode d path
  elim r [
    | not_absolute ↦ ok failed
    | not_found ↦ stop out_of_bounds
    | not_directory ↦ stop out_of_bounds
    | inode n ↦ do
      found ← read_extents d ((d.inodes n).size / 256) n (d.inodes n).extent_count 0 []
      ok (done (names found))
  ]

-- `times[1]`, or none for NULL: the clock is then read and dropped.
unfoldable pub utimens : Disk → List ℕ → Option ℕ → Run Disk
utimens d path times = do
  r ← path_inode d path
  elim times [
    | none ↦ ok d
    | some time ↦ elim r [
      | inode n ↦ ok (set_inode d n (record (d.inodes n) { mtime = time }))
      | not_absolute ↦ stop out_of_bounds
      | not_found ↦ stop out_of_bounds
      | not_directory ↦ stop out_of_bounds
    ]
  ]
