-- ===== src/FileSystem/Format/First.antt =====
-- A new image and its first file: `mkfs`, `a1fs_create`, `a1fs_getattr` and `a1fs_readdir` together.
use uoft_operating_systems.Common.{
  ℕ, ◌+◌, ◌-◌, ◌*◌, ◌/◌, ◌%◌, ◌^◌, ◌<◌, ◌≡◌, refl, sym, ap, ◌∙◌, arith, true, false, not, ◌||◌,
  List, [], ◌∷◌, ◌++◌, ok, ◌==◌, if-false, length, length-replicate, lt→leb, ne→==,
}
use uoft_operating_systems.FileSystem.Disk.{Disk, Superblock, done, sub_uint}
use uoft_operating_systems.FileSystem.Text.{slash, same_text}
use uoft_operating_systems.FileSystem.Lookup.{inode, is_absolute, path_inode}
use uoft_operating_systems.FileSystem.Lookup.Listing.{listing}
use uoft_operating_systems.FileSystem.Directory.{
  Directory, Directory-Fits, listing-Directory, slots_from-ext,
}
use uoft_operating_systems.FileSystem.Parent.OneName.{
  plain, top-split, top-path_inode, top-new_parent,
}
use uoft_operating_systems.FileSystem.Stat.{
  Stat, count_blocks, sectors, respond, getattr, names, readdir,
}
use uoft_operating_systems.FileSystem.Stat.Names.{readdir-listing}
use uoft_operating_systems.FileSystem.Make.{is_regular, create}
use uoft_operating_systems.FileSystem.Make.Entry.{create_file-listing}
use uoft_operating_systems.FileSystem.Format.{new_superblock, zeroed, MkfsOpts, format}
use uoft_operating_systems.FileSystem.Format.Layout.{mkfs-root}

-- What `a1fs_getattr` reports on a new file.
abbrev pub new_stat : ℕ → ℕ → Stat
new_stat ino mode = record { ino = ino; mode = mode; nlink = 1; size = 0; blocks = 0; mtim = 0 }

top-getattr :
    (d : Disk) (c : ℕ) (cs : List ℕ) (ino mode : ℕ)
    → length (c ∷ cs) < 99
    → path_inode d (slash ∷ c ∷ cs) ≡ ok (inode ino)
    → (d.inodes ino).mode ≡ mode
    → (d.inodes ino).links ≡ 1
    → (d.inodes ino).size ≡ 0
    → (d.inodes ino).extent_count ≡ 0
    → getattr d (slash ∷ c ∷ cs) ≡ ok (done (new_stat ino mode))
unfolding getattr respond count_blocks sectors
top-getattr d c cs ino mode short leads is_mode one_link empty none_there =
    if-false _ _ _ (lt→leb 4096 (length (slash ∷ c ∷ cs)) (omega arith))
    ∙ rw (leads, none_there, is_mode, one_link, empty) refl

root-path_inode : (d : Disk) → path_inode d (slash ∷ []) ≡ ok (inode 0)
unfolding path_inode is_absolute same_text
root-path_inode d = refl

-- The superblock has no part in a directory.
counted-Directory :
    (d : Disk) (sb' : Superblock) (p block k : ℕ)
    → Directory d p block k
    → Directory (record d { sb = sb' }) p block k
counted-Directory d sb' p block k dir = record {
  number = dir.number;
  one_extent = dir.one_extent;
  extent = dir.extent;
  size_is = dir.size_is;
  within = dir.within;
}

counted-listing :
    (d : Disk) (sb' : Superblock) (p block k : ℕ)
    → Directory d p block k
    → listing (record d { sb = sb' }) (d.inodes p) ≡ listing d (d.inodes p)
counted-listing d sb' p block k dir =
    listing-Directory (record d { sb = sb' }) p block k (counted-Directory d sb' p block k dir)
    ∙ slots_from-ext (record d { sb = sb' }) d k (block * 16) (λ y l h. refl)
    ∙ sym (listing-Directory d p block k dir)

-- The counters of a new image let a file be made.
counters :
    (size n_inodes : ℕ)
    → 1 < n_inodes
    → n_inodes < 2 ^ 30
    → size < 2 ^ 44
    → (new_superblock size n_inodes).start_data + 3 < size / 4096
    → ((sub_uint (new_superblock size n_inodes).free_inodes_count 1 == 0)
        || ((new_superblock size n_inodes).free_blocks_count == 0))
      ≡ false
unfolding new_superblock
counters size n_inodes two few small room =
    rw
      (
        ne→== ((n_inodes + 2 ^ 32 - 1) % 2 ^ 32) 0 (λ e. omega arith),
        ne→==
            ((size / 4096
                + 2 ^ 64
                - (n_inodes / (4096 * 8) + 1 + 3 + (n_inodes / 64 + 1) + n_inodes + 3))
              % 2 ^ 32)
            0 (λ e. omega arith),
      )
      refl

few_inodes :
    (size n_inodes : ℕ)
    → (new_superblock size n_inodes).start_data * 4096 < 2 ^ 31
    → n_inodes < 2 ^ 30
unfolding new_superblock
few_inodes size n_inodes low = omega arith

-- On a file for the image of less than 2^44 bytes with room for four blocks behind the parts that are laid out,
-- where the byte offset of the data region is an int, `mkfs` with -z and -f for 2 inodes or more, and then `a1fs_create` for a path of one name, of 1 to 98 bytes,
-- with the mode of a regular file, succeed, when the array for the path of the parent happens to start
-- with a NUL. Then `a1fs_getattr` of the path reports an inode of this mode, with one link and no byte, and
-- `a1fs_readdir` of "/" passes on ".", ".." and the name.
pub format-create :
    (d : Disk) (size : ℕ) (opts : MkfsOpts) (c : ℕ) (cs stack : List ℕ) (mode : ℕ)
    → opts.force ≡ true
    → opts.zero ≡ true
    → 1 < opts.n_inodes
    → size < 2 ^ 44
    → (new_superblock size opts.n_inodes).start_data * 4096 < 2 ^ 31
    → (new_superblock size opts.n_inodes).start_data + 3 < size / 4096
    → plain (c ∷ cs) ≡ true
    → length (c ∷ cs) < 99
    → is_regular mode ≡ true
    → (d₁ d₂ : Disk) × (ino : ℕ) × (format d size opts ≡ ok (d₁, 0))
      × (create d₁ (slash ∷ c ∷ cs) mode (0 ∷ stack) ≡ ok (d₂, done tt))
      × (getattr d₂ (slash ∷ c ∷ cs) ≡ ok (done (new_stat ino mode)))
      × (readdir d₂ (slash ∷ []) ≡ ok (done ((b'.' ∷ []) ∷ (b'.' ∷ b'.' ∷ []) ∷ (c ∷ cs) ∷ [])))
unfolding format create names
format-create d size opts c cs stack mode force zeroing two small low room one short regular =
    let n = opts.n_inodes in
    let (d₁, made, (dir, _, listed, len, bit₀, bit₁, _, _, _, sb)) =
      mkfs-root zeroed size n low (omega arith) (length-replicate {A = ℕ} 4096 0) in
    let sb' : Superblock = record (d₁.sb) {
      free_inodes_count = sub_uint d₁.sb.free_inodes_count 1;
    } in
    let counted : Disk = record d₁ { sb = sb' } in
    let (d₂, ino, created, _, listed', found, is_mode, links, empty, none_there, dir', _) =
      create_file-listing counted 0 0 2 (counted-Directory d₁ sb' 0 0 2 dir) (omega arith)
        (omega arith) (slash ∷ c ∷ cs) (c ∷ cs) (0 ∷ stack) mode 0 1 (top-split c cs one short)
        (top-new_parent c cs one counted stack) len bit₀ (omega arith) bit₁ in
    (
      d₁,
      d₂,
      ino,
      rw (force, zeroing, made) refl,
      if-false _ _ _ (ap not regular)
          ∙ if-false _ _ _ (
              ap (λ s. (sub_uint s.free_inodes_count 1 == 0) || (s.free_blocks_count == 0)) sb
              ∙ counters size n two (few_inodes size n low) small room)
          ∙ created,
      top-getattr d₂ c cs ino mode short (top-path_inode c cs one d₂ ino short found) is_mode links
          empty none_there,
      readdir-listing d₂ (slash ∷ []) 0 (root-path_inode d₂) dir'.number
            (Directory-Fits d₂ 0 0 3 dir')
          ∙ ap (λ es. ok (done (names es)))
              (listed'
                ∙ ap (λ es. es ++ record { ino = ino; name = c ∷ cs } ∷ [])
                    (counted-listing d₁ sb' 0 0 2 dir ∙ listed)),
    )
