-- ===== src/FileSystem/Content/Resize.antt =====
-- `update_extent` and `a1fs_truncate` of a1_filesystem/a1fs.c. -1 from `find_next_bit` is the block
-- before the data region.
use uoft_operating_systems.Common.{
  ℕ, zero, suc, ◌+◌, ◌-◌, ◌*◌, ◌/◌, ◌%◌, not, Option, none, some, List, Run, ok, stop,
  out_of_bounds, ◌>>=◌, ltb, leb, ◌==◌, if◌then◌else◌, replicate,
}
use uoft_operating_systems.Bitmap.{block_size, modify, find_next_bit}
use uoft_operating_systems.FileSystem.Disk.{
  Disk, extent_at, last_extent, add_uint, sub_uint, set_inode,
}
use uoft_operating_systems.FileSystem.Content.{store_bytes, set_extent}
use uoft_operating_systems.FileSystem.Lookup.{file_inode}

-- The loop of `update_extent` over `n` extents of the extent block `block` from the extent `i` on:
-- the first that ends at `index` gets longer.
unfoldable pub extend_from : Disk → ℕ → ℕ → ℕ → ℕ → Run (Option Disk)
unfolding set_extent
extend_from d block index zero i = ok none
extend_from d block index (suc n) i = do
  e ← extent_at d block i
  let onward = extend_from d block index n (suc i)
  let longer = set_extent d block i (record e { count = add_uint e.count 1 })
  if add_uint e.start e.count == index then (longer >>= λ d'. ok (some d')) else onward

unfoldable pub update_extent : Disk → ℕ → ℕ → Run Disk
unfolding extend_from set_extent
update_extent d ino index = do
  extended ← extend_from d (d.inodes ino).ino_number index (d.inodes ino).extent_count 0
  elim extended [
    | some d' ↦ ok d'
    | none ↦ do
      d' ←
          set_extent d (d.inodes ino).ino_number (d.inodes ino).extent_count
            (record { start = index; count = 1 })
      ok (set_inode d' ino (record (d'.inodes ino) { extent_count = 1 }))
  ]

-- A bit is taken in the inode bitmap, and its index is the block that the file gets.
unfoldable pub take_block : Disk → ℕ → Run (Disk × ℕ)
unfolding update_extent
take_block d ino = do
  free ← find_next_bit d.inode_map
  elim free [
    | none ↦ stop out_of_bounds
    | some index ↦ do
      inode_map' ← modify d.inode_map index 1
      d' ← update_extent (record d { inode_map = inode_map' }) ino index
      ok (d', index)
  ]

-- memset of `n` bytes to 0.
unfoldable pub clear_bytes : Disk → ℕ → ℕ → Disk
unfolding store_bytes
clear_bytes d at n = record d { bytes = store_bytes d.bytes at (replicate n 0) }

-- The loop that adds `n` blocks of zeros.
unfoldable pub add_blocks : Disk → ℕ → ℕ → Run Disk
unfolding take_block clear_bytes
add_blocks d ino zero = ok d
add_blocks d ino (suc n) = do
  (d', index) ← take_block d ino
  add_blocks (clear_bytes d' (index * block_size) block_size) ino n

pub record Shrink : Type 0 where
  pub disk : Disk
  pub w : ℕ
  pub result1 : ℕ
  pub result2 : ℕ

-- The loop over `n` blocks of the extent `i` from the block `j` on.
unfoldable pub shrink_blocks : ℕ → ℕ → ℕ → ℕ → ℕ → ℕ → Shrink → Run Shrink
unfolding set_extent
shrink_blocks ino i total_data_block start zero j s = ok s
shrink_blocks ino i total_data_block start (suc n) j s = do
  e ← extent_at s.disk ino i
  d₁ ←
      (if s.w == total_data_block
        then set_extent s.disk ino i (record e { count = j - start + 1 })
        else ok s.disk)
  data_map' ← (if ltb total_data_block s.w then modify d₁.data_map j 0 else ok d₁.data_map)
  shrink_blocks ino i total_data_block start n (suc j) (record {
    disk = record d₁ { data_map = data_map' };
    w = suc s.w;
    result1 = if s.w == total_data_block then i else s.result1;
    result2 = if s.w == total_data_block then j - start + 1 else s.result2;
  })

-- One round of the loop over the extents, at the extent `i`.
unfoldable pub shrink_extent : ℕ → ℕ → ℕ → Shrink → Run Shrink
unfolding shrink_blocks set_extent
shrink_extent ino total_data_block i s = do
  e ← extent_at s.disk ino i
  s' ← shrink_blocks ino i total_data_block e.start e.count e.start s
  let d₁ = set_inode s'.disk ino (record (s'.disk.inodes ino) { extent_count = s'.result1 })
  e' ← extent_at d₁ ino i
  d₂ ← set_extent d₁ ino i (record e' { count = s'.result2 })
  ok (record s' { disk = d₂ })

-- The loop over the extents, `n` rounds at most from the extent `i` on.
unfoldable pub shrink_extents : ℕ → ℕ → ℕ → ℕ → Shrink → Run Shrink
unfolding shrink_extent
shrink_extents ino total_data_block zero i s = ok s
shrink_extents ino total_data_block (suc n) i s =
    let onward =
      shrink_extent ino total_data_block i s >>= shrink_extents ino total_data_block n (suc i) in
    if leb (s.disk.inodes ino).extent_count i then ok s else onward

-- `a1fs_truncate` on the inode of the path. `size - inode->size` is unsigned, so it is above 0 just if
-- the sizes differ. `new_size` may be above -4096 and negative: then the quotient is 0 as well.
unfoldable pub truncate_inode : Disk → ℕ → ℕ → Run Disk
unfolding take_block clear_bytes add_blocks shrink_extents
truncate_inode d ino size = do
  let old_size = (d.inodes ino).size
  let byte_more = old_size % block_size
  let block_count = (size - byte_more) / block_size
  let d₁ : Disk = record d {
    sb = record (d.sb) { free_blocks_count = sub_uint d.sb.free_blocks_count (block_count + 1) };
  }
  (d₂, last) ←
      (if (d.inodes ino).extent_count == 0 then take_block d₁ ino else (do
        e ← last_extent d₁ ino (d.inodes ino).extent_count
        ok (d₁, add_uint e.start e.count)))
  d₃ ←
      (if not (size == old_size)
        then add_blocks (clear_bytes d₂ (last * block_size + byte_more) (block_size - byte_more))
            ino block_count
        else (do
          first ← extent_at d₂ ino 0
          s ← shrink_extents ino (size / block_size) (d₂.inodes ino).extent_count 0 (record {
            disk = d₂;
            w = 0;
            result1 = (d₂.inodes ino).extent_count;
            result2 = first.count;
          })
          ok s.disk))
  ok (set_inode d₃ ino (record (d₃.inodes ino) { size = size }))

unfoldable truncate : Disk → List ℕ → ℕ → Run Disk
unfolding file_inode truncate_inode
truncate d path size = file_inode d path >>= λ ino. truncate_inode d ino size
