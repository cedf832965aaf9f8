-- ===== src/FileSystem/Stat/Names.antt =====
-- The names that `a1fs_readdir` passes on.
use uoft_operating_systems.Common.{
  ℕ, zero, suc, ◌*◌, ◌/◌, ◌≡◌, refl, sym, ap, ◌∙◌, false, List, [], Run, ok, stop, ◌>>=◌, ltb,
  length, Bool-cases, if-true, if-false, inl, inr,
}
use uoft_operating_systems.FileSystem.Disk.{Disk, Dentry, done, extent_at}
use uoft_operating_systems.FileSystem.Lookup.{
  inode, path_inode, scan_slots, scan_blocks, scan_extents,
}
use uoft_operating_systems.FileSystem.Lookup.Listing.{listing, Fits, scan-listing}
use uoft_operating_systems.FileSystem.Stat.{read_blocks, read_extents, names, readdir}

bind_ext :
    {A B : Type 0} {f g : A → Run B} → ((a : A) → f a ≡ g a) → (m : Run A) → (m >>= f) ≡ (m >>= g)
bind_ext same (ok a) = same a
bind_ext same (stop e) = refl

scan_slots-full :
    (d : Disk) (entry_num n slot : ℕ) (found : List Dentry)
    → ltb (length found) entry_num ≡ false
    → scan_slots d entry_num n slot found ≡ ok found
unfolding scan_slots
scan_slots-full d entry_num zero slot found full = refl
scan_slots-full d entry_num (suc n) slot found full = rw full refl

scan_blocks-full :
    (d : Disk) (entry_num n j : ℕ) (found : List Dentry)
    → ltb (length found) entry_num ≡ false
    → scan_blocks d entry_num n j found ≡ ok found
unfolding scan_blocks
scan_blocks-full d entry_num zero j found full = refl
scan_blocks-full d entry_num (suc n) j found full =
    rw (scan_slots-full d entry_num 16 (j * 16) found full)
      (scan_blocks-full d entry_num n (suc j) found full)

-- `a1fs_readdir` tests in each block whether it has enough entries, which changes nothing.
read_blocks-scan :
    (d : Disk) (entry_num n j : ℕ) (found : List Dentry)
    → read_blocks d entry_num n j found ≡ scan_blocks d entry_num n j found
unfolding read_blocks scan_blocks
read_blocks-scan d entry_num zero j found = refl
read_blocks-scan d entry_num (suc n) j found = elim (Bool-cases (ltb (length found) entry_num)) [
  | inl more ↦
      if-true _ _ (ltb (length found) entry_num) more
      ∙ bind_ext (read_blocks-scan d entry_num n (suc j)) (scan_slots d entry_num 16 (j * 16) found)
  | inr full ↦
      if-false _ _ (ltb (length found) entry_num) full
      ∙ (sym (scan_blocks-full d entry_num (suc n) j found full))
]

read_extents-scan :
    (d : Disk) (entry_num ino n i : ℕ) (found : List Dentry)
    → read_extents d entry_num ino n i found ≡ scan_extents d entry_num ino n i found
unfolding read_extents scan_extents
read_extents-scan d entry_num ino zero i found = refl
read_extents-scan d entry_num ino (suc n) i found =
    bind_ext
      (λ e.
        ap (λ m. m >>= read_extents d entry_num ino n (suc i))
          (read_blocks-scan d entry_num e.count e.start found)
        ∙ bind_ext (read_extents-scan d entry_num ino n (suc i))
            (scan_blocks d entry_num e.count e.start found))
      (extent_at d ino i)

-- When a path leads to an inode that carries its number, with at most 512 entries and 512 extents,
-- `a1fs_readdir` passes on the names of its listing, in order.
pub readdir-listing :
    (d : Disk) (path : List ℕ) (n : ℕ)
    → path_inode d path ≡ ok (inode n)
    → (d.inodes n).ino_number ≡ n
    → Fits (d.inodes n)
    → readdir d path ≡ ok (done (names (listing d (d.inodes n))))
unfolding readdir
readdir-listing d path n leads number f = rw leads (
    ap (λ m. m >>= λ found. ok (done (names found)))
      (read_extents-scan d ((d.inodes n).size / 256) n (d.inodes n).extent_count 0 []
        ∙ ap (λ k. scan_extents d ((d.inodes n).size / 256) k (d.inodes n).extent_count 0 [])
            (sym number)
        ∙ scan-listing d (d.inodes n) f))
