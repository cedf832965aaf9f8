-- ===== src/FileSystem/Format/Root.antt =====
-- The root directory of a new image, through the clearing of the blocks around it.
use mathlib.Core.Path.{subst}
use uoft_operating_systems.Common.{
  ℕ, zero, suc, ◌+◌, ◌*◌, ◌/◌, ◌^◌, ◌≤◌, ◌<◌, ◌≡◌, refl, sym, ap, ◌∙◌, arith, Bool, true, false,
  List, [], ◌∷◌, ok, Returns, Returns-bind, lt→ltb, le→leb, ◌==◌, eq→==, ne→==, if◌then◌else◌,
  if-false, replicate, length, length-drop, length-replicate,
}
use uoft_operating_systems.Common.Update.{set, set-at, set-else}
use uoft_operating_systems.FileSystem.Disk.{Disk, Superblock, is_directory}
use uoft_operating_systems.FileSystem.Lookup.Listing.{slots_from, listing}
use uoft_operating_systems.FileSystem.Directory.{Directory, listing-Directory}
use uoft_operating_systems.FileSystem.Make.Folder.{self, up}
use uoft_operating_systems.Bitmap.{load}
use uoft_operating_systems.Bitmap.Laws.{bit_at, is_set}
use uoft_operating_systems.FileSystem.Format.{
  new_superblock, mark_first, write_at, clear_block, clear_loop, root_inode, ImageWrite, write_all,
  write_superblock, write_root_inode, write_rest, formatted,
}

-- A bitmap whose first four bytes are marked has the bit 0 set and the bit 1 clear.
mark_first-bits :
    (map : List ℕ) → (bit_at (mark_first map) 0 ≡ ok true) × (bit_at (mark_first map) 1 ≡ ok false)
unfolding mark_first bit_at is_set load
mark_first-bits map = (refl, refl)

mark_first-length : (map : List ℕ) → length map ≡ 4096 → length (mark_first map) ≡ 4096
unfolding mark_first
mark_first-length map e = omega (arith, length-drop 4 map)

-- A memcpy within the image.
write_at-Returns :
    (Q : Disk → Type 0) (size block end : ℕ) (f : Disk → Disk) (d : Disk)
    → block * 4096 < 2 ^ 31
    → block * 4096 + end ≤ size
    → Q (f d)
    → Returns Q (write_at size block end f d)
unfolding write_at
write_at-Returns Q size block end f d small room q =
    rw (lt→ltb (block * 4096) (2 ^ 31) small, le→leb (block * 4096 + end) size room) q

-- Writes that all lie within the image, at offsets that are ints.
abbrev AllInside : ℕ → List ImageWrite → Type 0
AllInside size [] = Unit {0}
AllInside size (w ∷ ws) =
    (w.block * 4096 < 2 ^ 31) × (w.block * 4096 + w.end ≤ size) × AllInside size ws

abbrev effects : List ImageWrite → Disk → Disk
effects [] d = d
effects (w ∷ ws) d = effects ws (w.effect d)

write_all-Returns :
    (Q : Disk → Type 0) (size : ℕ) (ws : List ImageWrite) (d : Disk)
    → AllInside size ws
    → Q (effects ws d)
    → Returns Q (write_all size ws d)
unfolding write_all
write_all-Returns Q size [] d a q = q
write_all-Returns Q size (w ∷ ws) d (small, room, a) q =
    Returns-bind (λ d'. d' ≡ w.effect d) Q (write_at size w.block w.end w.effect d) _
      (write_at-Returns (λ d'. d' ≡ w.effect d) size w.block w.end w.effect d small room refl)
      (λ d' e. write_all-Returns Q size ws d' a (subst (λ x. Q (effects ws x)) (sym e) q))

-- What the clearing of blocks before the inodes leaves.
abbrev Before : Disk → Type 0
Before d = (d.inodes 0 ≡ root_inode) × (length d.inode_map ≡ 4096)

if-length :
    (b : Bool) (map : List ℕ)
    → length map ≡ 4096
    → length (if b then replicate 4096 0 else map) ≡ 4096
if-length true map e = length-replicate {A = ℕ} 4096 0
if-length false map e = e

clear_block-Before :
    (sb : Superblock) (block : ℕ) (d : Disk)
    → block < sb.start_inode
    → Before d
    → Before (clear_block sb block d)
unfolding clear_block
clear_block-Before sb block d early (root, len) = (
  if-false _ _ _ (ne→== block (sb.start_inode + 0 / 64) (λ e. omega arith)) ∙ root,
  if-length (block == sb.start_inode_map) d.inode_map len,
)

-- The data bitmap is cleared, and stays so.
clear_block-data_map :
    (sb : Superblock) (d : Disk) (block : ℕ)
    → length (clear_block sb block (clear_block sb sb.start_data_map d)).data_map ≡ 4096
unfolding clear_block
clear_block-data_map sb d block =
    if-length (block == sb.start_data_map) _
      (rw (eq→== sb.start_data_map sb.start_data_map refl) (length-replicate {A = ℕ} 4096 0))

clear_loop-Before :
    (n i : ℕ) (sb : Superblock) (size : ℕ) (d : Disk)
    → sb.start_inode_map ≡ 1
    → i + n < sb.start_inode
    → sb.start_inode * 4096 < 2 ^ 31
    → sb.start_inode * 4096 ≤ size
    → Before d
    → Returns Before (clear_loop n i sb size d)
unfolding clear_loop
clear_loop-Before zero i sb size d one early small room b = b
clear_loop-Before (suc n) i sb size d one early small room b =
    let block : sb.start_inode_map * i ≡ i = ap (λ s. s * i) one ∙ omega arith in
    Returns-bind Before Before _ _
      (write_at-Returns Before size (sb.start_inode_map * i) 4096
        (clear_block sb (sb.start_inode_map * i)) d (omega (arith, block)) (omega (arith, block))
        (clear_block-Before sb (sb.start_inode_map * i) d (omega (arith, block)) b))
      (λ d' b'. clear_loop-Before n (suc i) sb size d' one (omega arith) small room b')

root_mode : is_directory root_inode ≡ true
unfolding is_directory
root_mode = refl

-- The image when the blocks are cleared, with what is written then.
abbrev marked : Superblock → Disk → Disk
marked sb d = record d {
  sb = sb;
  inode_map = mark_first d.inode_map;
  data_map = mark_first d.data_map;
  entries = set (set d.entries 0 (self 0)) 1 (up 0);
  extents = set d.extents 0 (set (d.extents 0) 0 (record { start = 0; count = 1 }));
}

module _ (sb : Superblock) (d : Disk) (root : d.inodes 0 ≡ root_inode) where
  marked-Directory : Directory (marked sb d) 0 0 2
  marked-Directory = record {
    number = ap (λ i. i.ino_number) root;
    one_extent = ap (λ i. i.extent_count) root;
    extent = ap (λ f. f 0) (set-at d.extents 0 _) ∙ set-at (d.extents 0) 0 _;
    size_is = ap (λ i. i.size) root;
    within = omega arith;
  }

  marked-listing : listing (marked sb d) ((marked sb d).inodes 0) ≡ self 0 ∷ up 0 ∷ []
  unfolding slots_from
  marked-listing =
      listing-Directory (marked sb d) 0 0 2 marked-Directory ∙ λ i. first i ∷ second i ∷ []
    where
      first : (marked sb d).entries 0 ≡ self 0
      first = set-else _ 1 _ 0 (λ e. omega arith) ∙ set-at d.entries 0 _

      second : (marked sb d).entries 1 ≡ up 0
      second = set-at _ 1 _

-- The root of a new image, and what is clear and set in its bitmaps.
abbrev pub Rooted : Superblock → Disk → Type 0
Rooted sb d =
    Directory d 0 0 2
    × (is_directory (d.inodes 0) ≡ true)
    × (listing d (d.inodes 0) ≡ self 0 ∷ up 0 ∷ [])
    × (length d.inode_map ≡ 4096)
    × (bit_at d.inode_map 0 ≡ ok true)
    × (bit_at d.inode_map 1 ≡ ok false)
    × (length d.data_map ≡ 4096)
    × (bit_at d.data_map 0 ≡ ok true)
    × (bit_at d.data_map 1 ≡ ok false)
    × (d.sb ≡ sb)

marked-Rooted :
    (sb : Superblock) (d : Disk) → Before d → length d.data_map ≡ 4096 → Rooted sb (marked sb d)
marked-Rooted sb d (root, len) len' = (
  marked-Directory sb d root,
  ap is_directory root ∙ root_mode,
  marked-listing sb d root,
  mark_first-length d.inode_map len,
  (mark_first-bits d.inode_map).0,
  (mark_first-bits d.inode_map).1,
  mark_first-length d.data_map len',
  (mark_first-bits d.data_map).0,
  (mark_first-bits d.data_map).1,
  refl,
)

rest-Rooted :
    (sb : Superblock) (size : ℕ) (d : Disk)
    → sb.start_inode_map ≤ sb.start_data
    → sb.start_data_map + 1 < sb.start_inode
    → sb.start_inode ≤ sb.start_extent
    → sb.start_extent ≤ sb.start_data
    → sb.start_data * 4096 < 2 ^ 31
    → sb.start_data * 4096 + 512 ≤ size
    → Before d
    → Returns (Rooted sb) (write_all size (write_rest sb) d)
unfolding write_rest
rest-Rooted sb size d map_first map_before inodes_before in_order small room b =
    let d₁ = clear_block sb sb.start_data_map d in
    let d₂ = clear_block sb (sb.start_data_map + 1) d₁ in
    write_all-Returns (Rooted sb) size (write_rest sb) d inside (
      marked-Rooted sb d₂
        (clear_block-Before sb (sb.start_data_map + 1) d₁ (omega arith)
          (clear_block-Before sb sb.start_data_map d (omega arith) b))
        (clear_block-data_map sb d (sb.start_data_map + 1)))
  where
    inside : AllInside size (write_rest sb)
    inside = (
      omega arith,
      omega arith,
      (
        omega arith,
        omega arith,
        (
          omega arith,
          omega arith,
          (
            omega arith,
            omega arith,
            (
              omega arith,
              omega arith,
              (
                omega arith,
                omega arith,
                (omega arith, omega arith, (omega arith, omega arith, tt)),
              ),
            ),
          ),
        ),
      ),
    )

pub formatted-Rooted :
    (d : Disk) (size n_inodes : ℕ)
    → (new_superblock size n_inodes).start_data * 4096 < 2 ^ 31
    → (new_superblock size n_inodes).start_data * 4096 + 512 ≤ size
    → length d.inode_map ≡ 4096
    → Returns (Rooted (new_superblock size n_inodes)) (formatted d size n_inodes)
unfolding formatted new_superblock
formatted-Rooted d size n_inodes small room len =
    let sb = new_superblock size n_inodes in
    Returns-bind Before (Rooted sb) _ _
      (write_all-Returns Before size (write_superblock sb ∷ write_root_inode sb ∷ [])
        (record d { size = size }) (omega arith, omega arith, (omega arith, omega arith, tt))
        (set-at d.inodes 0 root_inode, len))
      (λ d₁ b₁.
        Returns-bind Before (Rooted sb) _ _
          (clear_loop-Before (n_inodes / (4096 * 8) + 1) 0 sb size d₁ refl (omega arith)
            (omega arith) (omega arith) b₁)
          (λ d₂ b₂.
            rest-Rooted sb size d₂ (omega arith) (omega arith) (omega arith) (omega arith) small
              room b₂))
