-- ===== src/FileSystem/Tests/Lookups.antt =====
-- Looking things up in the small file system.
use uoft_operating_systems.Common.{ℕ, zero, suc, ◌≡◌, refl, arith, List, [], ◌∷◌, ok, Returns}
use uoft_operating_systems.FileSystem.Disk.{done, is_directory, extent_at}
use uoft_operating_systems.FileSystem.Text.{slash, same_text, tokens_from, tokens}
use uoft_operating_systems.FileSystem.Lookup.{
  PathResult, inode, helper, scan_slots, scan_blocks, scan_extents, search, walk, is_absolute,
  path_inode,
}
use uoft_operating_systems.FileSystem.Lookup.Listing.{Fits, listing, find_last, helper-find_last}
use uoft_operating_systems.FileSystem.Lookup.Resolve.{Leads, path_inode-Leads}
use uoft_operating_systems.FileSystem.Stat.{getattr, names, readdir}
use uoft_operating_systems.FileSystem.Stat.Answers.{Sized, blocks_of, Answers, getattr-Answers}
use uoft_operating_systems.FileSystem.Stat.Names.{readdir-listing}
use uoft_operating_systems.FileSystem.Tests.{small}

all-Fits : (ino : ℕ) → Fits (small.inodes ino)
all-Fits zero = record { few_entries = omega arith; few_extents = omega arith }
all-Fits (suc zero) = record { few_entries = omega arith; few_extents = omega arith }
all-Fits (suc (suc zero)) = record { few_entries = omega arith; few_extents = omega arith }
all-Fits (suc (suc (suc n))) = record { few_entries = omega arith; few_extents = omega arith }

all-Sized : (ino : ℕ) → Sized small ino
unfolding blocks_of
all-Sized zero = record { few_extents = omega arith; few_blocks = omega arith }
all-Sized (suc zero) = record { few_extents = omega arith; few_blocks = omega arith }
all-Sized (suc (suc zero)) = record { few_extents = omega arith; few_blocks = omega arith }
all-Sized (suc (suc (suc n))) = record { few_extents = omega arith; few_blocks = omega arith }

helper-find_last_example :
    helper small (small.inodes 0) (b'd' ∷ [])
    ≡ ok (find_last (b'd' ∷ []) (listing small (small.inodes 0)))
helper-find_last_example = helper-find_last small (small.inodes 0) (b'd' ∷ []) (all-Fits 0)

-- "/d/.."
abbrev up_again : List ℕ
up_again = slash ∷ b'd' ∷ slash ∷ b'.' ∷ b'.' ∷ []

path_inode-Leads_example :
    Returns
      (Leads small (small.inodes 0) ((b'd' ∷ []) ∷ (b'.' ∷ b'.' ∷ []) ∷ []))
      (path_inode small up_again)
unfolding is_absolute tokens tokens_from is_directory
path_inode-Leads_example =
    path_inode-Leads small (λ ino d. all-Fits ino) up_again (b'd' ∷ []) ((b'.' ∷ b'.' ∷ []) ∷ [])
      refl refl refl (omega arith)

getattr-Answers_example :
    Returns
      (λ reply.
        (r : PathResult) × Leads small (small.inodes 0) ((b'd' ∷ []) ∷ (b'.' ∷ b'.' ∷ []) ∷ []) r
        × Answers small r reply)
      (getattr small up_again)
unfolding is_absolute tokens tokens_from is_directory
getattr-Answers_example =
    getattr-Answers small (λ ino d. all-Fits ino) all-Sized up_again (b'd' ∷ [])
      ((b'.' ∷ b'.' ∷ []) ∷ []) refl refl refl (omega arith)

-- "/d" is the inode 2.
d_leads : path_inode small (slash ∷ b'd' ∷ []) ≡ ok (inode 2)
unfolding path_inode is_absolute walk helper scan_extents scan_blocks scan_slots search tokens
    tokens_from same_text extent_at
d_leads = refl

readdir-listing_example :
    readdir small (slash ∷ b'd' ∷ []) ≡ ok (done (names (listing small (small.inodes 2))))
readdir-listing_example = readdir-listing small (slash ∷ b'd' ∷ []) 2 d_leads refl (all-Fits 2)
