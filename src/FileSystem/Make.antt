-- ===== src/FileSystem/Make.antt =====
-- `a1fs_create` and `a1fs_mkdir` of a1_filesystem/a1fs.c. Where `a1fs_mkdir` says `sb.`, which does not
-- compile, `sb->` is meant. A name is shorter than 100 bytes and so fits into an entry.
pub mod Claim
pub mod Entry
pub mod Folder
use Prim.Native.Nat.{bit_and, bit_or}
use uoft_operating_systems.Common.{
  ℕ, zero, suc, ◌+◌, ◌-◌, ◌*◌, Bool, true, false, not, ◌||◌, Option, none, some, List, [], ◌∷◌, Run,
  ok, stop, assertion_failed, out_of_bounds, ltb, ◌>>=◌, ◌==◌, if◌then◌else◌,
}
use uoft_operating_systems.Common.Update.{set}
use uoft_operating_systems.Bitmap.{block_size, load, scan_byte, modify}
use uoft_operating_systems.FileSystem.Disk.{
  Disk, Superblock, Inode, Extent, Dentry, Reply, done, enomem, last_extent, sub_uint, set_inode,
  ifdir,
}
use uoft_operating_systems.FileSystem.Parent.{split, new_parent, append_slot, grow}

-- The loop that looks for a clear bit in the copy of a bitmap, `n` rounds from the byte `bit_byte` on:
-- the place of the bit in its byte, and the number of bits before it.
unfoldable pub claim_from : ℕ → ℕ → List ℕ → ℕ → Run (Option ℕ × ℕ)
claim_from zero bit_byte copy ind = ok (none, ind)
claim_from (suc n) bit_byte copy ind = do
  x₁ ← load copy bit_byte
  elim (scan_byte 8 0 x₁) [
    | some j ↦ ok (some j, ind + j)
    | none ↦ claim_from n (suc bit_byte) copy (ind + 8)
  ]

-- The index that the code goes on with, and the bitmap, in which it sets the bit `j`.
unfoldable pub claim : List ℕ → Run (ℕ × List ℕ)
unfolding claim_from
claim map = do
  (free, ind) ← claim_from block_size 0 map 0
  elim free [ none ↦ ok (ind, map) | some j ↦ modify map j 1 >>= λ map'. ok (ind, map') ]

-- `a1fs_create` after its tests.
unfoldable pub create_file : Disk → List ℕ → ℕ → List ℕ → Run (Disk × Reply (Unit {0}))
unfolding claim
create_file d path mode stack = do
  (ino, map') ← claim d.inode_map
  let d₁ : Disk = record d { inode_map = map' }
  (n, new_dr) ← split path
  parent_ino ← new_parent d₁ path n stack
  let parent = d₁.inodes parent_ino
  e ← last_extent d₁ parent_ino parent.extent_count
  slot ← append_slot e parent.size
  let d₂ = set_inode d₁ parent_ino (grow parent)
  let d₃ = set_inode d₂ ino (record (d₂.inodes ino) {
    mode = mode;
    links = 1;
    size = 0;
    ino_number = ino;
    extent_count = 0;
  })
  ok (record d₃ { entries = set d₃.entries slot (record { ino = ino; name = new_dr }) }, done tt)

-- S_ISREG
unfoldable pub is_regular : ℕ → Bool
is_regular mode = bit_and mode 0xF000 == 0x8000

unfoldable pub create : Disk → List ℕ → ℕ → List ℕ → Run (Disk × Reply (Unit {0}))
unfolding create_file is_regular
create d path mode stack =
    let d₁ : Disk = record d {
      sb = record (d.sb) { free_inodes_count = sub_uint d.sb.free_inodes_count 1 };
    } in
    let made = create_file d₁ path mode stack in
    if not (is_regular mode)
    then stop assertion_failed
    else if (d₁.sb.free_inodes_count == 0) || (d₁.sb.free_blocks_count == 0)
    then ok (d₁, enomem)
    else made

-- `a1fs_mkdir` after its test. The extent block of an inode number from `inodes_count` on would lie in
-- the data region, behind the extent blocks: that is the fault `out_of_bounds`.
unfoldable pub make_directory : Disk → List ℕ → ℕ → List ℕ → Run (Disk × Reply (Unit {0}))
unfolding claim
make_directory d path mode stack = do
  (ino, inode_map') ← claim d.inode_map
  (block, data_map') ← claim d.data_map
  let d₁ : Disk = record d { inode_map = inode_map'; data_map = data_map' }
  (n, new_dr) ← split path
  parent_ino ← new_parent d₁ path n stack
  let parent = d₁.inodes parent_ino
  e ← last_extent d₁ parent_ino parent.extent_count
  slot ← append_slot e parent.size
  let d₂ = set_inode d₁ parent_ino (grow parent)
  let new_extent : Extent = record { start = block; count = 1 }
  extents' ←
      if ltb ino d₂.sb.inodes_count
      then ok (set d₂.extents ino (set (d₂.extents ino) 0 new_extent))
      else stop out_of_bounds
  let d₃ : Disk = record d₂ { extents = extents' }
  let d₄ = set_inode d₃ ino (record (d₃.inodes ino) {
    mode = mode;
    links = 2;
    size = 512;
    ino_number = ino;
    extent_count = 1;
  })
  let self = set d₄.entries (block * 16) (record { ino = ino; name = b'.' ∷ [] })
  let both = set self (block * 16 + 1) (record { ino = parent_ino; name = b'.' ∷ b'.' ∷ [] })
  ok (
    record d₄ {
      entries = set both slot (record { ino = ino; name = new_dr });
      sb = record (d₄.sb) {
        free_blocks_count = sub_uint d₄.sb.free_blocks_count 1;
        free_inodes_count = sub_uint d₄.sb.free_inodes_count 1;
      };
    },
    done tt,
  )

unfoldable pub mkdir : Disk → List ℕ → ℕ → List ℕ → Run (Disk × Reply (Unit {0}))
unfolding make_directory
mkdir d path mode stack =
    let made = make_directory d path (bit_or mode ifdir) stack in
    if (d.sb.free_inodes_count == 0) || (d.sb.free_blocks_count == 0) then ok (d, enomem) else made
