-- ===== src/FileSystem/Content/Written.antt =====
-- Writes into files without extents, and reads of them.
use uoft_operating_systems.Common.{ℕ, ◌+◌, ◌*◌, ◌≡◌, List, length, replicate}
use uoft_operating_systems.FileSystem.Disk.{Disk}
use uoft_operating_systems.FileSystem.Content.{load_bytes, with_block}

module _ (d : Disk) (ino : ℕ) (fresh : (d.inodes ino).extent_count ≡ 0) where
  -- The file in that block.
  module _ (w : ℕ) (map' : List ℕ) where
    abbrev d' : Disk
    d' = with_block d ino w map'

-- A file of one block `w`.
record OneBlock (d : Disk) (ino w size : ℕ) : Type 0 where
  extents_1 : (d.inodes ino).extent_count ≡ 1
  size_is : (d.inodes ino).size ≡ size
  first : d.extents ino 0 ≡ record { start = w; count = 1 }

module _ (d : Disk) (ino w : ℕ) where
  module _ (buf : List ℕ) (offset : ℕ) (b : OneBlock d ino w 0) where
    -- The file after the write, and its bytes.
    record Stored (d' : Disk) : Type 0 where
      block : OneBlock d' ino w (offset + length buf)
      buffer : load_bytes d'.bytes (w * 4096 + offset) (length buf) ≡ buf
      hole : load_bytes d'.bytes (w * 4096 + 0) offset ≡ replicate offset 0
