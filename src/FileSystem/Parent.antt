-- ===== src/FileSystem/Parent.antt =====
-- How `a1fs_mkdir`, `a1fs_create`, `a1fs_rmdir` and `a1fs_unlink` of a1_filesystem/a1fs.c take a path
-- apart. `parent_path` is an array that is not initialised: `stack` are the bytes that it holds.
pub mod Same
pub mod OneName
use uoft_operating_systems.Common.{
  ℕ, zero, suc, ◌+◌, ◌-◌, ◌*◌, ◌/◌, ◌%◌, ◌^◌, Option, none, some, List, [], ◌∷◌, ◌++◌, Run, ok,
  stop, out_of_bounds, null_dereference, ◌>>=◌, leb, ◌==◌, if◌then◌else◌, length, take, drop,
}
use uoft_operating_systems.FileSystem.Disk.{Disk, Extent, Inode, name_max, add_uint}
use uoft_operating_systems.FileSystem.Text.{last_slash}
use uoft_operating_systems.FileSystem.Lookup.{file_inode}

-- `path_cp`, of 100 bytes, and the last slash in it: the bytes before the slash, and the name behind it.
unfoldable pub split : List ℕ → Run (ℕ × List ℕ)
split path = if leb 100 (length path) then stop out_of_bounds else elim (last_slash path) [
  | none ↦ stop null_dereference
  | some n ↦ ok (n, drop (suc n) path)
]

-- The string in an array.
unfoldable pub up_to_nul : List ℕ → Run (List ℕ)
up_to_nul [] = stop out_of_bounds
up_to_nul (c ∷ cs) = let rest = up_to_nul cs in if c == 0 then ok [] else (rest >>= λ t. ok (c ∷ t))

-- `strncpy(parent_path, path_cp, n)` copies no NUL.
unfoldable pub parent_path : List ℕ → ℕ → List ℕ → Run (List ℕ)
unfolding up_to_nul
parent_path path n stack = up_to_nul (take n path ++ drop n stack)

-- The parent of what `a1fs_mkdir` and `a1fs_create` make, with the copy to `parent_name`.
unfoldable pub new_parent : Disk → List ℕ → ℕ → List ℕ → Run ℕ
unfolding parent_path
new_parent d path n stack = do
  parent ← parent_path path n stack
  elim (last_slash parent) [
    | none ↦ ok 0
    | some k ↦
        let found = file_inode d parent in
        if leb name_max (length (drop (suc k) parent)) then stop out_of_bounds else found
  ]

-- The parent of what `a1fs_rmdir` and `a1fs_unlink` remove.
unfoldable pub old_parent : Disk → List ℕ → ℕ → List ℕ → Run ℕ
unfolding parent_path
old_parent d path n stack =
    if n == 0 then ok 0 else (parent_path path n stack >>= λ parent. file_inode d parent)

-- The slot behind the last entry of a directory, whose last extent is `e`; -1 is no block.
unfoldable pub append_slot : Extent → ℕ → Run ℕ
append_slot e size =
    if add_uint e.start e.count == 0
    then stop out_of_bounds
    else ok ((add_uint e.start e.count - 1) * 16 + size % 4096 / 256)

-- A directory has one entry more.
abbrev pub grow : Inode → Inode
grow parent = record parent { links = add_uint parent.links 1; size = (parent.size + 256) % 2 ^ 64 }
