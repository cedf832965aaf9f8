-- ===== src/FileSystem/Tests/Formats.antt =====
-- An image of a hundred blocks, for 64 inodes.
use uoft_operating_systems.Common.{ℕ, ◌≡◌, refl, arith, true, [], ◌∷◌, ok}
use uoft_operating_systems.FileSystem.Disk.{Disk, done}
use uoft_operating_systems.FileSystem.Text.{slash}
use uoft_operating_systems.FileSystem.Make.{is_regular, create}
use uoft_operating_systems.FileSystem.Stat.{getattr, readdir}
use uoft_operating_systems.FileSystem.Format.{new_superblock, mkfs, MkfsOpts, format}
use uoft_operating_systems.FileSystem.Format.Layout.{Layout, mkfs-Layout, mkfs-root}
use uoft_operating_systems.FileSystem.Format.Root.{Rooted}
use uoft_operating_systems.FileSystem.Parent.OneName.{plain}
use uoft_operating_systems.FileSystem.Format.First.{new_stat, format-create}
use uoft_operating_systems.FileSystem.Tests.{small}

mkfs-Layout_example : Layout (new_superblock 409600 64)
unfolding new_superblock
mkfs-Layout_example = mkfs-Layout 409600 64 (omega arith) (omega arith) (omega arith)

mkfs-root_example :
    (d' : Disk) × (mkfs small 409600 64 ≡ ok (d', true)) × Rooted (new_superblock 409600 64) d'
unfolding new_superblock
mkfs-root_example = mkfs-root small 409600 64 (omega arith) (omega arith) refl

abbrev opts : MkfsOpts
opts = record { n_inodes = 64; force = true; zero = true }

format-create_example :
    (d₁ d₂ : Disk) × (ino : ℕ) × (format small 409600 opts ≡ ok (d₁, 0))
    × (create d₁ (slash ∷ b'b' ∷ []) 0x81A4 (0 ∷ []) ≡ ok (d₂, done tt))
    × (getattr d₂ (slash ∷ b'b' ∷ []) ≡ ok (done (new_stat ino 0x81A4)))
    × (readdir d₂ (slash ∷ []) ≡ ok (done ((b'.' ∷ []) ∷ (b'.' ∷ b'.' ∷ []) ∷ (b'b' ∷ []) ∷ [])))
unfolding new_superblock plain is_regular
format-create_example =
    format-create small 409600 opts b'b' [] [] 0x81A4 refl refl (omega arith) (omega arith)
      (omega arith) (omega arith) refl (omega arith) refl
