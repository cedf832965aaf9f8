-- ===== src/FileSystem/Lookup.antt =====
-- `helper` and `path_inode` of a1_filesystem/a1fs.c: an entry of a directory, and a path.
pub mod Listing
pub mod Resolve
use uoft_operating_systems.Common.{
  ℕ, zero, suc, ◌+◌, ◌*◌, ◌/◌, Bool, true, false, not, ◌&&◌, Option, none, some, List, [], ◌∷◌,
  ◌++◌, Run, ok, stop, out_of_bounds, ◌>>=◌, ◌>>◌, ltb, leb, ◌==◌, if◌then◌else◌, length,
}
use uoft_operating_systems.FileSystem.Disk.{
  Disk, Inode, Extent, Dentry, path_max, is_directory, extent_at,
}
use uoft_operating_systems.FileSystem.Text.{slash, same_text, tokens}

-- The loop over the slots of a block, `n` rounds from the slot `slot` on: the entries up to
-- `entry_count` of them, added to those found so far, in arrays of 512.
unfoldable pub scan_slots : Disk → ℕ → ℕ → ℕ → List Dentry → Run (List Dentry)
scan_slots d entry_count zero slot found = ok found
scan_slots d entry_count (suc n) slot found =
    let rest = scan_slots d entry_count n (suc slot) (found ++ d.entries slot ∷ []) in
    if ltb (length found) entry_count
    then (if ltb (length found) 512 then rest else stop out_of_bounds)
    else ok found

-- The loop over the `n` blocks of an extent from the block `j` on.
unfoldable pub scan_blocks : Disk → ℕ → ℕ → ℕ → List Dentry → Run (List Dentry)
unfolding scan_slots
scan_blocks d entry_count zero j found = ok found
scan_blocks d entry_count (suc n) j found = do
  found' ← scan_slots d entry_count 16 (j * 16) found
  scan_blocks d entry_count n (suc j) found'

-- The loop over `n` extents of the inode `ino` from the extent `i` on.
unfoldable pub scan_extents : Disk → ℕ → ℕ → ℕ → ℕ → List Dentry → Run (List Dentry)
unfolding scan_blocks
scan_extents d entry_count ino zero i found = ok found
scan_extents d entry_count ino (suc n) i found = do
  e ← extent_at d ino i
  found' ← scan_blocks d entry_count e.count e.start found
  scan_extents d entry_count ino n (suc i) found'

-- The loop over the arrays: `result` is the inode of the last entry so far that has the name.
unfoldable pub search : List Dentry → List ℕ → Option ℕ → Option ℕ
search [] name result = result
search (e ∷ es) name result = search es name (if same_text e.name name then some e.ino else result)

-- `none` is -ENOENT.
unfoldable pub helper : Disk → Inode → List ℕ → Run (Option ℕ)
unfolding scan_extents search
helper d root current_name = do
  found ← scan_extents d (root.size / 256) root.ino_number root.extent_count 0 []
  ok (search found current_name none)

-- An inode number, -ENOENT, -ENOTDIR, and -1 for a path that does not start with a slash.
pub data PathResult : Type 0 where
  inode : ℕ → PathResult
  not_found not_directory not_absolute : PathResult

-- The loop over the tokens, at the inode `root`.
unfoldable pub walk : Disk → ℕ → Inode → List (List ℕ) → Run PathResult
walk d result root [] = ok (inode result)
walk d result root (token ∷ rest) = do
  next ← helper d root token
  elim next [
    | none ↦ ok not_found
    | some ino ↦ elim rest [
      | [] ↦ ok (inode ino)
      | t ∷ ts ↦
          let onward = walk d ino (d.inodes ino) rest in
          if is_directory (d.inodes ino) then onward else ok not_directory
    ]
  ]

unfoldable pub is_absolute : List ℕ → Bool
is_absolute [] = false
is_absolute (c ∷ cs) = c == slash

unfoldable pub path_inode : Disk → List ℕ → Run PathResult
unfolding walk is_absolute
path_inode d path =
    if not (is_absolute path)
    then ok not_absolute
    else if same_text path (slash ∷ [])
    then ok (inode 0)
    else if leb path_max (length path)
    then stop out_of_bounds
    else walk d (d.inodes 0).extent_count (d.inodes 0) (tokens path)

-- The index of the inode that a path leads to: those who use it have no test for the error numbers, and
-- no inode stands at a negative index.
unfoldable pub file_inode : Disk → List ℕ → Run ℕ
unfolding path_inode
file_inode d path = do r ← path_inode d path; elim r [ inode n ↦ ok n | _ ↦ stop out_of_bounds ]
