-- ===== src/FileSystem/Content.antt =====
-- The bytes of a file in a1_filesystem/a1fs.c: `a1fs_write`, `a1fs_read`, `a1fs_truncate` and
-- `update_extent`. Sizes and offsets are below 2 GB, so that an int holds them.
pub mod Resize
pub mod Bytes
pub mod Written
pub mod Rounds
use uoft_operating_systems.Common.{
  ℕ, zero, suc, ◌+◌, ◌-◌, ◌*◌, ◌/◌, ◌%◌, Bool, true, false, not, Option, none, some, List, [], ◌∷◌,
  ◌++◌, Run, ok, stop, out_of_bounds, uninitialized_read, ◌>>=◌, ltb, leb, ◌==◌, if◌then◌else◌,
  length, replicate,
}
use uoft_operating_systems.Common.Update.{set}
use uoft_operating_systems.Bitmap.{block_size, modify, find_next_bit}
use uoft_operating_systems.FileSystem.Disk.{
  Disk, Superblock, Inode, Extent, Reply, done, enospc, extent_at, last_extent, add_uint, sub_uint,
  set_inode,
}
use uoft_operating_systems.FileSystem.Lookup.{file_inode}

-- memcpy into the data region, and out of it.
unfoldable pub store_bytes : (ℕ → ℕ) → ℕ → List ℕ → ℕ → ℕ
store_bytes mem at [] = mem
store_bytes mem at (b ∷ bs) = store_bytes (set mem at b) (suc at) bs

unfoldable pub load_bytes : (ℕ → ℕ) → ℕ → ℕ → List ℕ
load_bytes mem at zero = []
load_bytes mem at (suc n) = mem at ∷ load_bytes mem (suc at) n

-- `extent_array[i] = e` for the inode `ino`.
unfoldable pub set_extent : Disk → ℕ → ℕ → Extent → Run Disk
set_extent d ino i e =
    if ltb i 512
    then ok (record d { extents = set d.extents ino (set (d.extents ino) i e) })
    else stop out_of_bounds

-- The inode gets the block `write_to` as its extent.
unfoldable pub with_block : Disk → ℕ → ℕ → List ℕ → Disk
with_block d ino write_to data_map' = record d {
  data_map = data_map';
  extents = set d.extents ino (set (d.extents ino) 0 (record { start = write_to; count = 1 }));
  inodes = set d.inodes ino (record (d.inodes ino) { extent_count = 1 });
  sb = record (d.sb) { free_blocks_count = sub_uint d.sb.free_blocks_count 1 };
}

-- Where `a1fs_write` writes to: a block is taken for an inode without extents.
unfoldable pub choose_block : Disk → ℕ → Run (Disk × Option ℕ)
unfolding with_block
choose_block d ino =
    if (d.inodes ino).extent_count == 0
    then (do
      free ← find_next_bit d.data_map
      elim free [
        | none ↦ ok (d, none)
        | some write_to ↦ do
          data_map' ← modify d.data_map write_to 1
          ok (with_block d ino write_to data_map', some write_to)
      ])
    else (do
      e ← last_extent d ino (d.inodes ino).extent_count
      ok (d, some (add_uint e.start e.count)))

-- The new size of the file and its bytes, `buf` written at the block `write_to`.
unfoldable pub put_bytes : Disk → ℕ → ℕ → List ℕ → ℕ → Disk
unfolding store_bytes
put_bytes d ino write_to buf offset =
    let ori_size = (d.inodes ino).size in
    let at = write_to * block_size in
    if ltb ori_size offset
    then set_inode
        (record d {
          bytes =
              store_bytes (store_bytes d.bytes (at + ori_size) (replicate (offset - ori_size) 0))
                (at + offset) buf;
        })
        ino (record (d.inodes ino) { size = ori_size + length buf + offset })
    else (let stored = record d { bytes = store_bytes d.bytes (at + offset) buf } in
        if ltb ori_size (offset + length buf)
        then set_inode stored ino (record (d.inodes ino) { size = offset + length buf })
        else stored)

-- `a1fs_write` on the inode of the path.
unfoldable pub write_inode : Disk → ℕ → List ℕ → ℕ → Run (Disk × Reply ℕ)
unfolding choose_block put_bytes
write_inode d ino buf offset = do
  (d', chosen) ← choose_block d ino
  elim chosen [
    | none ↦ ok (d', enospc)
    | some write_to ↦ ok (put_bytes d' ino write_to buf offset, done (length buf))
  ]

unfoldable pub write : Disk → List ℕ → List ℕ → ℕ → Run (Disk × Reply ℕ)
unfolding file_inode write_inode
write d path buf offset = file_inode d path >>= λ ino. write_inode d ino buf offset

-- The loop of `a1fs_read` over `n` extents from the extent `i` on: `start` when it ends.
unfoldable pub locate : Disk → ℕ → ℕ → ℕ → ℕ → ℕ → Option ℕ → Run (Option ℕ)
locate d ino block_front zero i blocks start = ok start
locate d ino block_front (suc n) i blocks start = do
  e ← extent_at d ino i
  let onward = locate d ino block_front n (suc i) (add_uint blocks e.count) (some e.start)
  if ltb block_front (add_uint blocks e.count) then ok (some e.start) else onward

-- The bytes that `a1fs_read` copies; it returns their number.
unfoldable pub read_inode : Disk → ℕ → ℕ → ℕ → Run (List ℕ)
unfolding locate load_bytes
read_inode d ino size offset = if ltb (d.inodes ino).size offset then ok [] else (do
  start ← locate d ino (offset / block_size) (d.inodes ino).extent_count 0 0 none
  elim start [
    | none ↦ stop uninitialized_read
    | some s ↦ ok (load_bytes d.bytes (s * block_size + offset % block_size) size)
  ])

unfoldable pub read : Disk → List ℕ → ℕ → ℕ → Run (List ℕ)
unfolding file_inode read_inode
read d path size offset = file_inode d path >>= λ ino. read_inode d ino size offset
