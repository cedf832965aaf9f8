-- ===== src/FileSystem/Format.antt =====
-- `mkfs` and `a1fs_is_present` of a1_filesystem/mkfs.c, with fewer than 2^30 inodes, so that the block
-- numbers are ints; their products with the size of a block are tested. What the image holds before is
-- read by the parts of the new superblock, whatever it is.
pub mod Layout
pub mod First
pub mod Root
use uoft_operating_systems.Common.{
  ℕ, zero, suc, ◌+◌, ◌-◌, ◌*◌, ◌/◌, ◌%◌, ◌^◌, Bool, true, false, not, ◌&&◌, List, [], ◌∷◌, ◌++◌,
  Run, ok, stop, ◌>>=◌, out_of_bounds, int_overflow, ltb, leb, ◌==◌, if◌then◌else◌, replicate, drop,
}
use Prim.Native.Nat.{bit_or}
use uoft_operating_systems.Common.Update.{set}
use uoft_operating_systems.Bitmap.{block_size}
use uoft_operating_systems.FileSystem.Disk.{Disk, Superblock, Inode, Extent, Dentry, ifdir}

-- A1FS_MAGIC
abbrev pub magic_number : ℕ
magic_number = 0xC5C369A1C5C369A1

unfoldable pub is_present : Disk → Bool
is_present d = d.sb.magic == magic_number

-- The superblock that is copied into the image.
unfoldable pub new_superblock : ℕ → ℕ → Superblock
new_superblock size n_inodes =
    let inode_bit_size = n_inodes / (4096 * 8) + 1 in
    let inode_size = n_inodes / 64 + 1 in
    let start_inode = inode_bit_size + 3 in
    let start_extent = start_inode + inode_size in
    let left = (size / block_size + 2 ^ 64 - (start_extent + n_inodes + 3)) % 2 ^ 32 in
    record {
      magic = magic_number;
      size = size;
      start_inode_map = 1;
      start_data_map = 1 + inode_bit_size;
      start_inode = start_inode;
      start_extent = start_extent;
      start_data = start_extent + n_inodes;
      inodes_count = n_inodes;
      blocks_count = left;
      free_blocks_count = left;
      free_inodes_count = n_inodes;
    }

-- An unsigned int `1 << 7` at the start of a bitmap.
unfoldable pub mark_first : List ℕ → List ℕ
mark_first map = 0x80 ∷ 0 ∷ 0 ∷ 0 ∷ drop 4 map

-- memset of the whole image to 0.
abbrev pub zeroed : Disk
zeroed = record {
  size = 0;
  sb = record {
    magic = 0;
    size = 0;
    start_inode_map = 0;
    start_data_map = 0;
    start_inode = 0;
    start_extent = 0;
    start_data = 0;
    inodes_count = 0;
    blocks_count = 0;
    free_blocks_count = 0;
    free_inodes_count = 0;
  };
  inode_map = replicate 4096 0;
  data_map = replicate 4096 0;
  inodes =
      λ ino. record { mode = 0; links = 0; size = 0; mtime = 0; ino_number = 0; extent_count = 0 };
  extents = λ ino i. record { start = 0; count = 0 };
  entries = λ slot. record { ino = 0; name = [] };
  bytes = λ at. 0;
}

-- memcpy into the image up to the byte `end` of a block, as the effect `f` on the image: the product of
-- the number of the block and A1FS_BLOCK_SIZE is an int.
unfoldable pub write_at : ℕ → ℕ → ℕ → (Disk → Disk) → Disk → Run Disk
write_at size block end f d =
    if ltb (block * block_size) (2 ^ 31)
    then (if leb (block * block_size + end) size then ok (f d) else stop out_of_bounds)
    else stop int_overflow

-- A block of the image is set to 0, whatever the superblock has there.
unfoldable pub clear_block : Superblock → ℕ → Disk → Disk
clear_block sb block d = record d {
  sb = if block == 0 then zeroed.sb else d.sb;
  inode_map = if block == sb.start_inode_map then zeroed.inode_map else d.inode_map;
  data_map = if block == sb.start_data_map then zeroed.data_map else d.data_map;
  inodes = λ ino. if block == sb.start_inode + ino / 64 then zeroed.inodes ino else d.inodes ino;
  extents =
      λ ino i. if block == sb.start_extent + ino then zeroed.extents ino i else d.extents ino i;
  entries =
      λ slot. if block == sb.start_data + slot / 16 then zeroed.entries slot else d.entries slot;
  bytes = λ at. if block == sb.start_data + at / block_size then zeroed.bytes at else d.bytes at;
}

-- The loop that should clear the inode bitmap, from the round `i` on: it writes the blocks 0, 1, ... up to the
-- number of its blocks, so the first block of the bitmap is cleared only if there are two.
unfoldable pub clear_loop : ℕ → ℕ → Superblock → ℕ → Disk → Run Disk
unfolding write_at clear_block
clear_loop zero i sb size d = ok d
clear_loop (suc n) i sb size d = do
  let block = sb.start_inode_map * i
  d' ← write_at size block block_size (clear_block sb block) d
  clear_loop n (suc i) sb size d'

abbrev pub root_inode : Inode
root_inode = record {
  mode = bit_or ifdir 511;
  links = 2;
  size = 512;
  mtime = 0;
  ino_number = 0;
  extent_count = 1;
}

-- Such a write, and several of them in order.
pub record ImageWrite : Type 0 where
  pub block : ℕ
  pub end : ℕ
  pub effect : Disk → Disk

unfoldable pub write_all : ℕ → List ImageWrite → Disk → Run Disk
unfolding write_at
write_all size [] d = ok d
write_all size (w ∷ ws) d = write_at size w.block w.end w.effect d >>= write_all size ws

-- The superblock has 56 bytes, an inode 64, an extent 8, and an entry 256.
abbrev pub write_superblock : Superblock → ImageWrite
write_superblock sb = record { block = 0; end = 56; effect = λ d. record d { sb = sb } }

abbrev pub write_root_inode : Superblock → ImageWrite
write_root_inode sb = record {
  block = sb.start_inode;
  end = 64;
  effect = λ d. record d { inodes = set d.inodes 0 root_inode };
}

abbrev pub write_clear : Superblock → ℕ → ImageWrite
write_clear sb block = record { block = block; end = block_size; effect = clear_block sb block }

-- What follows the loop.
unfoldable pub write_rest : Superblock → List ImageWrite
unfolding mark_first
write_rest sb =
    write_clear sb sb.start_data_map
    ∷ write_clear sb (sb.start_data_map + 1)
    ∷ write_superblock sb
    ∷ record {
      block = sb.start_inode_map;
      end = 4;
      effect = λ d. record d { inode_map = mark_first d.inode_map };
    }
    ∷ record {
      block = sb.start_data_map;
      end = 4;
      effect = λ d. record d { data_map = mark_first d.data_map };
    }
    ∷ record {
      block = sb.start_data;
      end = 256;
      effect = λ d. record d { entries = set d.entries 0 (record { ino = 0; name = b'.' ∷ [] }) };
    }
    ∷ record {
      block = sb.start_data;
      end = 512;
      effect =
          λ d. record d { entries = set d.entries 1 (record { ino = 0; name = b'.' ∷ b'.' ∷ [] }) };
    }
    ∷ record {
      block = sb.start_extent;
      end = 8;
      effect = λ d. record d {
        extents = set d.extents 0 (set (d.extents 0) 0 (record { start = 0; count = 1 }));
      };
    }
    ∷ []

-- The size in the image is that of the file.
unfoldable pub formatted : Disk → ℕ → ℕ → Run Disk
unfolding new_superblock write_all clear_loop write_rest
formatted d size n_inodes = do
  let sb = new_superblock size n_inodes
  d₁ ← write_all size (write_superblock sb ∷ write_root_inode sb ∷ []) (record d { size = size })
  d₂ ← clear_loop (n_inodes / (4096 * 8) + 1) 0 sb size d₁
  write_all size (write_rest sb) d₂

unfoldable pub mkfs : Disk → ℕ → ℕ → Run (Disk × Bool)
unfolding formatted
mkfs d size n_inodes = formatted d size n_inodes >>= λ d'. ok (d', true)

-- The options that decide about the image.
pub record MkfsOpts : Type 0 where
  pub n_inodes : ℕ
  pub force : Bool
  pub zero : Bool

-- `main` once the image is mapped: the image, and the exit status.
unfoldable pub format : Disk → ℕ → MkfsOpts → Run (Disk × ℕ)
unfolding is_present mkfs
format d size opts =
    let made = mkfs (if opts.zero then zeroed else d) size opts.n_inodes in
    if not opts.force && is_present d
    then ok (d, 1)
    else (made >>= λ (d', success). ok (d', if success then 0 else 1))
