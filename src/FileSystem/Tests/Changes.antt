-- ===== src/FileSystem/Tests/Changes.antt =====
-- Changing the small file system.
use uoft_operating_systems.Common.{
  ◌+◌, ℕ, ◌*◌, ◌≡◌, refl, arith, true, false, none, some, none, List, [], ◌∷◌, ◌++◌, length, ok,
  Returns, ◌==◌,
}
use uoft_operating_systems.Bitmap.{load}
use uoft_operating_systems.Bitmap.Laws.{bit_at, is_set}
use uoft_operating_systems.FileSystem.Disk.{Disk, done, extent_at}
use uoft_operating_systems.FileSystem.Text.{slash, same_text, tokens_from, tokens, last_slash}
use uoft_operating_systems.FileSystem.Lookup.{
  helper, scan_slots, scan_blocks, scan_extents, search, walk, is_absolute, path_inode, file_inode,
}
use uoft_operating_systems.FileSystem.Lookup.Listing.{
  listing, find_last, slots_from, blocks_from, extents_from,
}
use uoft_operating_systems.FileSystem.Directory.{Directory}
use uoft_operating_systems.FileSystem.Parent.{split, up_to_nul, parent_path, new_parent, old_parent}
use uoft_operating_systems.FileSystem.Content.Resize.{Shrink, shrink_extents}
use uoft_operating_systems.FileSystem.Content.Rounds.{shrink_extents-rounds}
use uoft_operating_systems.FileSystem.Make.{claim, create_file}
use uoft_operating_systems.FileSystem.Make.Claim.{Claimed, claim-Claimed}
use uoft_operating_systems.FileSystem.Make.Entry.{create_file-listing}
use uoft_operating_systems.FileSystem.Remove.{rmdir, unlink}
use uoft_operating_systems.FileSystem.Remove.TakeOut.{take_out}
use uoft_operating_systems.FileSystem.Remove.Free.{owned, Inside, Cleared}
use uoft_operating_systems.FileSystem.Remove.Folder.{rmdir-listing}
use uoft_operating_systems.FileSystem.Remove.File.{unlink-listing}
use uoft_operating_systems.FileSystem.Parent.OneName.{plain}
use uoft_operating_systems.FileSystem.Remove.Undo.{create_file-unlink}
use uoft_operating_systems.FileSystem.Tests.{small, three}

three-length : length three ≡ 4096
three-length = refl

bit_2 : bit_at three 2 ≡ ok true
unfolding bit_at is_set load
bit_2 = refl

bit_0 : bit_at three 0 ≡ ok true
unfolding bit_at is_set load
bit_0 = refl

bit_3 : bit_at three 3 ≡ ok false
unfolding bit_at is_set load
bit_3 = refl

root_Directory : Directory small 0 0 4
root_Directory = record {
  number = refl;
  one_extent = refl;
  extent = refl;
  size_is = refl;
  within = omega arith;
}

abbrev text : List ℕ
text = b'h' ∷ b'i' ∷ []

claim-Claimed_example : Returns (λ (ind, map'). Claimed three ind map') (claim three)
claim-Claimed_example = claim-Claimed three three-length

-- "/b"
b_split : split (slash ∷ b'b' ∷ []) ≡ ok (0, b'b' ∷ [])
unfolding split last_slash
b_split = refl

b_parent : new_parent small (slash ∷ b'b' ∷ []) 0 (0 ∷ []) ≡ ok 0
unfolding new_parent parent_path up_to_nul last_slash
b_parent = refl

create_file-listing_example :
    (d' : Disk) × (new : ℕ) × (create_file small (slash ∷ b'b' ∷ []) 0x81A4 (0 ∷ [])
      ≡ ok (d', done tt))
    × Claimed three new d'.inode_map
    × (listing d' (d'.inodes 0)
        ≡ listing small (small.inodes 0) ++ record { ino = new; name = b'b' ∷ [] } ∷ [])
    × (helper d' (d'.inodes 0) (b'b' ∷ []) ≡ ok (some new))
    × ((d'.inodes new).mode ≡ 0x81A4)
    × ((d'.inodes new).links ≡ 1)
    × ((d'.inodes new).size ≡ 0)
    × ((d'.inodes new).extent_count ≡ 0)
    × Directory d' 0 0 5
    × (d'.sb ≡ small.sb)
create_file-listing_example =
    create_file-listing small 0 0 4 root_Directory (omega arith) (omega arith) (slash ∷ b'b' ∷ [])
      (b'b' ∷ []) (0 ∷ []) 0x81A4 0 3 b_split b_parent three-length bit_0 (omega arith) bit_3

-- "/d" and "/a"
abbrev d_path : List ℕ
d_path = slash ∷ b'd' ∷ []

abbrev a_path : List ℕ
a_path = slash ∷ b'a' ∷ []

d_leads : file_inode small d_path ≡ ok 2
unfolding file_inode path_inode is_absolute walk helper scan_extents scan_blocks scan_slots search
    tokens tokens_from same_text extent_at
d_leads = refl

a_leads : file_inode small a_path ≡ ok 1
unfolding file_inode path_inode is_absolute walk helper scan_extents scan_blocks scan_slots search
    tokens tokens_from same_text extent_at
a_leads = refl

d_split : split d_path ≡ ok (0, b'd' ∷ [])
unfolding split last_slash
d_split = refl

a_split : split a_path ≡ ok (0, b'a' ∷ [])
unfolding split last_slash
a_split = refl

top : (path : List ℕ) → old_parent small path 0 [] ≡ ok 0
unfolding old_parent
top path = refl

other_path : same_text d_path (slash ∷ []) ≡ false
unfolding same_text
other_path = refl

named_d : find_last (b'd' ∷ []) (listing small (small.inodes 0)) ≡ some 2
unfolding find_last listing extents_from blocks_from slots_from same_text
named_d = refl

named_a : find_last (b'a' ∷ []) (listing small (small.inodes 0)) ≡ some 1
unfolding find_last listing extents_from blocks_from slots_from same_text
named_a = refl

Inside-d : Inside (small.extents 2) 1 0 (8 * length three)
Inside-d = record { few = omega arith; ends = λ x l h. omega (arith, three-length) }

Inside-a : Inside (small.extents 1) 1 0 (8 * length three)
Inside-a = record { few = omega arith; ends = λ x l h. omega (arith, three-length) }

rmdir-listing_example :
    (d' : Disk) × (rmdir small d_path [] ≡ ok (d', done tt))
    × (listing d' (d'.inodes 0) ≡ take_out (b'd' ∷ []) (listing small (small.inodes 0)))
    × Cleared three (λ j. j == 2) d'.inode_map
    × Cleared three (owned (small.extents 2) 1 0) d'.data_map
rmdir-listing_example =
    rmdir-listing small d_path (b'd' ∷ []) [] 0 2 0 0 4 2 other_path d_leads refl
      (omega (arith, three-length)) Inside-d d_split (top d_path) root_Directory (omega arith)
      (omega arith) named_d

unlink-listing_example :
    (d' : Disk) × (unlink small a_path [] ≡ ok (d', done tt))
    × (listing d' (d'.inodes 0) ≡ take_out (b'a' ∷ []) (listing small (small.inodes 0)))
    × Cleared three (λ j. j == 1) d'.inode_map
    × Cleared three (owned (small.extents 1) 1 0) d'.data_map
unlink-listing_example =
    unlink-listing small a_path (b'a' ∷ []) [] 0 1 0 4 1 (omega arith) a_leads
      (omega (arith, three-length)) Inside-a a_split (top a_path) root_Directory (omega arith)
      (omega arith) named_a

fresh_b : find_last (b'b' ∷ []) (listing small (small.inodes 0)) ≡ none
unfolding find_last listing extents_from blocks_from slots_from same_text
fresh_b = refl

create_file-unlink_example :
    (d' d'' : Disk) × (create_file small (slash ∷ b'b' ∷ []) 0x81A4 (0 ∷ []) ≡ ok (d', done tt))
    × (unlink d' (slash ∷ b'b' ∷ []) [] ≡ ok (d'', done tt))
    × (listing d'' (d''.inodes 0) ≡ listing small (small.inodes 0))
unfolding plain
create_file-unlink_example =
    create_file-unlink small 0 4 3 b'b' [] [] [] 0x81A4 (omega arith) root_Directory (omega arith)
      (omega arith) three-length bit_0 (omega arith) bit_3 refl (omega arith) fresh_b

-- The file "/a", to be shrunk.
abbrev shrinking : Shrink
shrinking = record { disk = small; w = 0; result1 = 1; result2 = 1 }

shrink_extents-rounds_example :
    shrink_extents 1 0 (1 + 5) 0 shrinking ≡ shrink_extents 1 0 1 0 shrinking
shrink_extents-rounds_example = shrink_extents-rounds 1 0 5 shrinking refl
