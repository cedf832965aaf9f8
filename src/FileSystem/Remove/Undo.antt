-- ===== src/FileSystem/Remove/Undo.antt =====
-- `a1fs_unlink` after `a1fs_create` in the root.
use uoft_operating_systems.Common.{
  ℕ, suc, ◌*◌, ◌<◌, ◌^◌, ◌%◌, ◌≡◌, sym, ap, ◌∙◌, arith, true, false, Bool, none, List, ◌∷◌, Run, ok,
  stop, length,
}
use uoft_operating_systems.Bitmap.Laws.{bit_at, modify-bit_at}
use uoft_operating_systems.FileSystem.Disk.{Disk, done}
use uoft_operating_systems.FileSystem.Text.{slash}
use uoft_operating_systems.FileSystem.Lookup.Listing.{listing, find_last}
use uoft_operating_systems.FileSystem.Directory.{Directory, find_last-last}
use uoft_operating_systems.FileSystem.Make.{create_file}
use uoft_operating_systems.FileSystem.Make.Claim.{Claimed, none_clear, first_clear}
use uoft_operating_systems.FileSystem.Make.Entry.{create_file-listing}
use uoft_operating_systems.FileSystem.Remove.{unlink}
use uoft_operating_systems.FileSystem.Remove.TakeOut.{take_out, take_out-last}
use uoft_operating_systems.FileSystem.Remove.File.{unlink-listing}
use uoft_operating_systems.FileSystem.Parent.OneName.{
  plain, top-split, top-path_inode, top-new_parent, top-file_inode, top-old_parent,
}

-- A claimed bit is one of the map.
Claimed-length :
    (map map' : List ℕ) (c new : ℕ)
    → length map ≡ 4096
    → c < 8 * 4096
    → bit_at map c ≡ ok false
    → Claimed map new map'
    → new < 8 * length map'
Claimed-length map _ c new len small off (none_clear _ _ all) =
    absurd (omega (arith, ap value (sym off ∙ all c small)))
  where
    value : Run Bool → ℕ
    value (ok true) = 1
    value _ = 0
Claimed-length map map' c new len small off (first_clear _ _ low _ _ marked) =
    let (map₂, e, same, _) = modify-bit_at map (new % 8) 1 0 (omega arith) (omega arith) in
    omega (arith, low, len, same, ap measure (sym marked ∙ e))
  where
    measure : Run (List ℕ) → ℕ
    measure (ok xs) = length xs
    measure (stop _) = 0

-- In a root of one block with less than 15 entries, none of which has the name, whose bit is set in the inode
-- bitmap, and with a clear bit there, making a file of one name of 1 to 98 bytes and then unlinking it
-- succeed, when the array for the path of the parent happens to start with a NUL, and leave the listing of
-- the root as it was.
pub create_file-unlink :
    (d : Disk) (block k i c : ℕ) (cs stack stack' : List ℕ) (mode : ℕ)
    → d.sb.start_inode < d.sb.start_extent
    → Directory d 0 block k
    → k < 15
    → block < 2 ^ 31
    → length d.inode_map ≡ 4096
    → bit_at d.inode_map 0 ≡ ok true
    → i < 8 * 4096
    → bit_at d.inode_map i ≡ ok false
    → plain (c ∷ cs) ≡ true
    → length (c ∷ cs) < 99
    → find_last (c ∷ cs) (listing d (d.inodes 0)) ≡ none
    → (d' d'' : Disk) × (create_file d (slash ∷ c ∷ cs) mode (0 ∷ stack) ≡ ok (d', done tt))
      × (unlink d' (slash ∷ c ∷ cs) stack' ≡ ok (d'', done tt))
      × (listing d'' (d''.inodes 0) ≡ listing d (d.inodes 0))
create_file-unlink d block k i c cs stack stack' mode table dir room below len bit₀ small off one
      short absent =
    let name = c ∷ cs in
    let (d', new, created, claimed, listed, found, _, _, _, none_there, dir', same_sb) =
      create_file-listing d 0 block k dir (omega arith) below (slash ∷ name) name (0 ∷ stack) mode 0
        i (top-split c cs one short) (top-new_parent c cs one d stack) len bit₀ small off in
    let (d'', unlinked, left, _, _) =
      unlink-listing d' (slash ∷ name) name stack' 0 new block (suc k) new
        (omega (arith, table, ap (λ s. s.start_inode) same_sb, ap (λ s. s.start_extent) same_sb))
        (top-file_inode c cs one d' new (top-path_inode c cs one d' new short found))
        (Claimed-length d.inode_map d'.inode_map i new len small off claimed)
        (record {
          few = omega (arith, none_there);
          ends = λ x l h. absurd (omega (arith, none_there));
        })
        (top-split c cs one short) (top-old_parent c cs one d' stack') dir' (omega arith) below
        (ap (find_last name) listed ∙ find_last-last name (listing d (d.inodes 0)) new) in
    (
      d',
      d'',
      created,
      unlinked,
      left ∙ ap (take_out name) listed ∙ take_out-last name new (listing d (d.inodes 0)) absent,
    )
