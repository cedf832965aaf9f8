-- ===== src/FileSystem/Make/Folder.antt =====
-- The directory that `a1fs_mkdir` makes.
use uoft_operating_systems.Common.{ℕ, ◌+◌, ◌*◌, ◌<◌, ◌^◌, ◌≢◌, List, [], ◌∷◌}
use uoft_operating_systems.Common.Update.{set}
use uoft_operating_systems.FileSystem.Disk.{Disk, Dentry, sub_uint}
use uoft_operating_systems.FileSystem.Directory.{Directory}
use uoft_operating_systems.FileSystem.Parent.{grow}

-- The entries of a new directory.
abbrev pub self : ℕ → Dentry
self new = record { ino = new; name = b'.' ∷ [] }

abbrev pub up : ℕ → Dentry
up p = record { ino = p; name = b'.' ∷ b'.' ∷ [] }

-- The file system after `a1fs_mkdir`.
abbrev made : Disk → ℕ → ℕ → List ℕ → ℕ → ℕ → List ℕ → ℕ → List ℕ → Disk
made d p slot name mode new inode_map' w data_map' = record d {
  inode_map = inode_map';
  data_map = data_map';
  sb = record (d.sb) {
    free_blocks_count = sub_uint d.sb.free_blocks_count 1;
    free_inodes_count = sub_uint d.sb.free_inodes_count 1;
  };
  inodes =
      set (set d.inodes p (grow (d.inodes p))) new
        (record (set d.inodes p (grow (d.inodes p)) new) {
          mode = mode;
          links = 2;
          size = 512;
          ino_number = new;
          extent_count = 1;
        });
  extents = set d.extents new (set (d.extents new) 0 (record { start = w; count = 1 }));
  entries =
      set (set (set d.entries (w * 16) (self new)) (w * 16 + 1) (up p)) slot
        (record { ino = new; name = name });
}

module _ (d : Disk) (p block k : ℕ) (dir : Directory d p block k) (room : k < 16)
    (below : block < 2 ^ 31) where
  module _ (name : List ℕ) (mode new w : ℕ) (inode_map' data_map' : List ℕ) (fresh : new ≢ p)
      (empty : w ≢ block) where
    abbrev after : Disk
    after = made d p (block * 16 + k) name mode new inode_map' w data_map'
