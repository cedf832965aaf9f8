-- ===== src/FileSystem/Parent/Same.antt =====
-- Paths on file systems that differ in their bitmaps and superblock alone.
use uoft_operating_systems.Common.{
  ℕ, zero, suc, ◌*◌, ◌/◌, ◌≡◌, refl, ap, ◌∙◌, not, none, some, List, [], ◌∷◌, ◌++◌, Run, ok, stop,
  out_of_bounds, ◌>>=◌, ltb, leb, ◌==◌, if◌then◌else◌, length, drop,
}
use uoft_operating_systems.FileSystem.Disk.{
  Disk, name_max, path_max, Superblock, Inode, Dentry, extent_at, is_directory,
}
use uoft_operating_systems.FileSystem.Text.{slash, same_text, tokens, last_slash}
use uoft_operating_systems.FileSystem.Lookup.{
  scan_slots, scan_blocks, scan_extents, search, helper, inode, not_found, not_absolute,
  not_directory, is_absolute, walk, path_inode, file_inode,
}
use uoft_operating_systems.FileSystem.Parent.{parent_path, new_parent, old_parent}

pub bind_ext :
    {A B : Type 0} {f g : A → Run B} → ((a : A) → f a ≡ g a) → (m : Run A) → (m >>= f) ≡ (m >>= g)
bind_ext same (ok a) = same a
bind_ext same (stop e) = refl

module _ (d : Disk) (sb' : Superblock) (inode_map' data_map' : List ℕ) where
  abbrev pub d' : Disk
  d' = record d { sb = sb'; inode_map = inode_map'; data_map = data_map' }

  scan_slots-same :
      (entry_count n slot : ℕ) (found : List Dentry)
      → scan_slots d' entry_count n slot found ≡ scan_slots d entry_count n slot found
  unfolding scan_slots
  scan_slots-same entry_count zero slot found = refl
  scan_slots-same entry_count (suc n) slot found =
      ap
        (λ r.
          if ltb (length found) entry_count
          then (if ltb (length found) 512 then r else stop out_of_bounds)
          else ok found)
        (scan_slots-same entry_count n (suc slot) (found ++ d.entries slot ∷ []))

  scan_blocks-same :
      (entry_count n j : ℕ) (found : List Dentry)
      → scan_blocks d' entry_count n j found ≡ scan_blocks d entry_count n j found
  unfolding scan_blocks
  scan_blocks-same entry_count zero j found = refl
  scan_blocks-same entry_count (suc n) j found =
      ap (λ m. m >>= scan_blocks d' entry_count n (suc j))
        (scan_slots-same entry_count 16 (j * 16) found)
      ∙ bind_ext (scan_blocks-same entry_count n (suc j))
          (scan_slots d entry_count 16 (j * 16) found)

  scan_extents-same :
      (entry_count ino n i : ℕ) (found : List Dentry)
      → scan_extents d' entry_count ino n i found ≡ scan_extents d entry_count ino n i found
  unfolding scan_extents extent_at
  scan_extents-same entry_count ino zero i found = refl
  scan_extents-same entry_count ino (suc n) i found =
      bind_ext
        (λ e.
          ap (λ m. m >>= scan_extents d' entry_count ino n (suc i))
            (scan_blocks-same entry_count e.count e.start found)
          ∙ bind_ext (scan_extents-same entry_count ino n (suc i))
              (scan_blocks d entry_count e.count e.start found))
        (if ltb i 512 then ok (d.extents ino i) else stop out_of_bounds)

  helper-same : (root : Inode) (name : List ℕ) → helper d' root name ≡ helper d root name
  unfolding helper
  helper-same root name =
      ap (λ m. m >>= λ found. ok (search found name none))
        (scan_extents-same (root.size / 256) root.ino_number root.extent_count 0 [])

  walk-same :
      (result : ℕ) (root : Inode) (names : List (List ℕ))
      → walk d' result root names ≡ walk d result root names
  unfolding walk
  walk-same result root [] = refl
  walk-same result root (token ∷ []) =
      rw (helper-same root token)
        (bind_ext (λ next. elim next [ none ↦ refl | some ino ↦ refl ]) (helper d root token))
  walk-same result root (token ∷ next ∷ rest) = rw (helper-same root token) (λ i.
      helper d root token >>= λ r. elim r [
        | none ↦ ok not_found
        | some ino ↦
            if is_directory (d.inodes ino)
            then walk-same ino (d.inodes ino) (next ∷ rest) i
            else ok not_directory
      ])

  file_inode-same : (path : List ℕ) → file_inode d' path ≡ file_inode d path
  unfolding file_inode path_inode
  file_inode-same path =
      ap
        (λ w.
          (if not (is_absolute path)
            then ok not_absolute
            else if same_text path (slash ∷ [])
            then ok (inode 0)
            else if leb path_max (length path)
            then stop out_of_bounds
            else w)
          >>= λ r. elim r [ inode n ↦ ok n | _ ↦ stop out_of_bounds ])
        (walk-same (d.inodes 0).extent_count (d.inodes 0) (tokens path))

  pub new_parent-same :
      (path : List ℕ) (n : ℕ) (stack : List ℕ)
      → new_parent d' path n stack ≡ new_parent d path n stack
  unfolding new_parent
  new_parent-same path n stack = λ i. parent_path path n stack >>= λ parent.
      elim (last_slash parent) [
        | none ↦ ok 0
        | some k ↦
            if leb name_max (length (drop (suc k) parent))
            then stop out_of_bounds
            else file_inode-same parent i
      ]

  pub old_parent-same :
      (path : List ℕ) (n : ℕ) (stack : List ℕ)
      → old_parent d' path n stack ≡ old_parent d path n stack
  unfolding old_parent
  old_parent-same path n stack = λ i.
      if n == 0 then ok 0 else (parent_path path n stack >>= λ parent. file_inode-same parent i)
