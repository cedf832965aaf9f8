-- ===== src/FileSystem/Remove.antt =====
-- `a1fs_unlink` and `a1fs_rmdir` of a1_filesystem/a1fs.c. An inode that `a1fs_unlink` would look for
-- behind the inode table is out of bounds.
pub mod TakeOut
pub mod Entry
pub mod Free
pub mod Taken
pub mod Folder
pub mod File
pub mod Undo
use uoft_operating_systems.Common.{
  ℕ, zero, suc, ◌+◌, ◌-◌, ◌*◌, ◌/◌, ◌%◌, ◌^◌, Bool, true, false, not, Option, none, some, List, [],
  ◌∷◌, Run, ok, stop, out_of_bounds, assertion_failed, ◌>>=◌, ltb, ◌==◌, if◌then◌else◌,
}
use uoft_operating_systems.Common.Update.{set}
use uoft_operating_systems.Bitmap.{modify}
use uoft_operating_systems.FileSystem.Disk.{
  Disk, Superblock, Inode, Extent, Dentry, Reply, done, enotempty, extent_at, last_extent, add_uint,
  sub_uint, set_inode,
}
use uoft_operating_systems.FileSystem.Text.{slash, same_text}
use uoft_operating_systems.FileSystem.Lookup.{file_inode}
use uoft_operating_systems.FileSystem.Parent.{split, old_parent}

-- The loop that clears the bits of `n` blocks from the block `m` on.
unfoldable pub clear_range : ℕ → ℕ → List ℕ → Run (List ℕ)
clear_range zero m data_map = ok data_map
clear_range (suc n) m data_map = do data_map' ← modify data_map m 0; clear_range n (suc m) data_map'

-- The loop of `a1fs_rmdir` over `n` extents of an inode from the extent `i` on.
unfoldable pub clear_extents : Disk → ℕ → ℕ → ℕ → Run Disk
unfolding clear_range
clear_extents d ino zero i = ok d
clear_extents d ino (suc n) i = do
  e ← extent_at d ino i
  data_map' ← clear_range e.count e.start d.data_map
  clear_extents (record d { data_map = data_map' }) ino n (suc i)

-- That of `a1fs_unlink`, which counts the blocks.
unfoldable pub release_extents : Disk → ℕ → ℕ → ℕ → Run Disk
unfolding clear_range
release_extents d ino zero i = ok d
release_extents d ino (suc n) i = do
  e ← extent_at d ino i
  data_map' ← clear_range e.count e.start d.data_map
  release_extents
      (record d {
        data_map = data_map';
        sb = record (d.sb) { free_blocks_count = add_uint d.sb.free_blocks_count e.count };
      })
      ino n (suc i)

-- The slot of the entry `lastdr`; the place before the first slot is no slot.
unfoldable pub last_entry : Disk → Inode → ℕ → ℕ → Run ℕ
last_entry d parent parent_ino num_last_entry = do
  e ← last_extent d parent_ino parent.extent_count
  let behind = add_uint e.start e.count * 16 + num_last_entry
  if ltb behind 17 then stop out_of_bounds else ok (behind - 17)

-- The loop over the slots of the block `j`, `n` rounds from the place `x` on: the entries when the name
-- was found.
unfoldable pub remove_slots : Disk → Inode → ℕ → ℕ → List ℕ → ℕ → ℕ → ℕ → Run (Option (ℕ → Dentry))
unfolding last_entry
remove_slots d parent parent_ino num_last_entry new_dr j zero x = ok none
remove_slots d parent parent_ino num_last_entry new_dr j (suc n) x =
    let onward = remove_slots d parent parent_ino num_last_entry new_dr j n (suc x) in
    let moved = last_entry d parent parent_ino num_last_entry >>= λ lastdr.
    ok (some (set d.entries (j * 16 + x) (d.entries lastdr))) in
    if same_text (d.entries (j * 16 + x)).name new_dr
    then (if suc x == num_last_entry then ok (some d.entries) else moved)
    else onward

-- The loop over `n` blocks from the block `j` on.
unfoldable pub remove_blocks : Disk → Inode → ℕ → ℕ → List ℕ → ℕ → ℕ → Run (Option (ℕ → Dentry))
unfolding remove_slots
remove_blocks d parent parent_ino num_last_entry new_dr zero j = ok none
remove_blocks d parent parent_ino num_last_entry new_dr (suc n) j = do
  removed ← remove_slots d parent parent_ino num_last_entry new_dr j 16 0
  elim removed [
    | some entries' ↦ ok (some entries')
    | none ↦ remove_blocks d parent parent_ino num_last_entry new_dr n (suc j)
  ]

-- The loop over `n` extents from the extent `i` on.
unfoldable pub remove_extents : Disk → Inode → ℕ → ℕ → List ℕ → ℕ → ℕ → Run (Option (ℕ → Dentry))
unfolding remove_blocks
remove_extents d parent parent_ino num_last_entry new_dr zero i = ok none
remove_extents d parent parent_ino num_last_entry new_dr (suc n) i = do
  e ← extent_at d parent_ino i
  removed ← remove_blocks d parent parent_ino num_last_entry new_dr e.count e.start
  elim removed [
    | some entries' ↦ ok (some entries')
    | none ↦ remove_extents d parent parent_ino num_last_entry new_dr n (suc i)
  ]

abbrev pub shrink_size : ℕ → ℕ
shrink_size size = (size + 2 ^ 64 - 256) % 2 ^ 64

-- The inode and the blocks of a directory are given back.
unfoldable pub free_directory : Disk → ℕ → Run Disk
unfolding clear_extents
free_directory d dr_ino = do
  inode_map' ← modify d.inode_map dr_ino 0
  clear_extents
      (record d {
        inode_map = inode_map';
        sb = record (d.sb) { free_inodes_count = add_uint d.sb.free_inodes_count 1 };
      })
      dr_ino (d.inodes dr_ino).extent_count 0

-- `a1fs_rmdir` after its assertion.
unfoldable pub remove_directory : Disk → List ℕ → List ℕ → Run (Disk × Reply (Unit {0}))
unfolding free_directory remove_extents
remove_directory d path stack = do
  dr_ino ← file_inode d path
  if not ((d.inodes dr_ino).links == 2) then ok (d, enotempty) else (do
    d₁ ← free_directory d dr_ino
    (n, new_dr) ← split path
    parent_ino ← old_parent d₁ path n stack
    let parent = d₁.inodes parent_ino
    found ←
        remove_extents d₁ parent parent_ino (parent.size / 256 % 16) new_dr parent.extent_count 0
    elim found [
      | none ↦ ok (d₁, done tt)
      | some entries' ↦ ok (
        set_inode (record d₁ { entries = entries' }) parent_ino
            (record parent { size = shrink_size parent.size; links = sub_uint parent.links 1 }),
        done tt,
      )
    ])

unfoldable pub rmdir : Disk → List ℕ → List ℕ → Run (Disk × Reply (Unit {0}))
unfolding remove_directory
rmdir d path stack =
    let removed = remove_directory d path stack in
    if same_text path (slash ∷ []) then stop assertion_failed else removed

-- The inode and the blocks of a file are given back.
unfoldable pub free_file : Disk → ℕ → Run Disk
unfolding release_extents
free_file d file_ino = do
  inode_map' ← modify d.inode_map file_ino 0
  release_extents
      (record d {
        inode_map = inode_map';
        sb = record (d.sb) { free_inodes_count = add_uint d.sb.free_inodes_count 1 };
      })
      file_ino (d.inodes file_ino).extent_count 0

-- `(start_inode + parent_ino) * A1FS_BLOCK_SIZE`: a block holds 64 inodes.
unfoldable pub block_inode : Disk → ℕ → Run ℕ
block_inode d parent_ino =
    if ltb parent_ino (d.sb.start_extent - d.sb.start_inode)
    then ok (parent_ino * 64)
    else stop out_of_bounds

unfoldable pub unlink : Disk → List ℕ → List ℕ → Run (Disk × Reply (Unit {0}))
unfolding free_file remove_extents block_inode
unlink d path stack = do
  file_ino ← file_inode d path
  d₁ ← free_file d file_ino
  (n, new_dr) ← split path
  parent_ino ← old_parent d₁ path n stack
  index ← block_inode d₁ parent_ino
  let parent = d₁.inodes index
  let d₂ = set_inode d₁ index (record parent { links = sub_uint parent.links 1 })
  found ← remove_extents d₂ parent parent_ino (parent.size / 256 % 16) new_dr parent.extent_count 0
  elim found [
    | none ↦ ok (d₂, done tt)
    | some entries' ↦ ok (
      set_inode (record d₂ { entries = entries' }) index
          (record (d₂.inodes index) { size = shrink_size parent.size }),
      done tt,
    )
  ]
