-- ===== src/FileSystem/Lookup/Resolve.antt =====
-- Paths, followed from directory to directory.
use uoft_operating_systems.Common.{
  ℕ, ◌<◌, ◌≡◌, refl, sym, ap, ◌∙◌, true, false, none, some, List, [], ◌∷◌, Returns, Returns-mono,
  lt→leb, length, arith, Option-cases, Bool-cases, inl, inr,
}
use uoft_operating_systems.FileSystem.Disk.{Disk, Inode, is_directory}
use uoft_operating_systems.FileSystem.Text.{slash, same_text, same_text-eq, tokens_from, tokens}
use uoft_operating_systems.FileSystem.Lookup.{
  PathResult, inode, not_found, not_directory, walk, is_absolute, path_inode,
}
use uoft_operating_systems.FileSystem.Lookup.Listing.{listing, find_last, Fits, helper-find_last}

-- What the names lead to from an inode: each is looked up in the listing of the directory that the
-- ones before lead to.
pub data Leads (d : Disk) : Inode → List (List ℕ) → PathResult → Type 0 where
  absent :
      (at : Inode) (name : List ℕ) (rest : List (List ℕ))
      → find_last name (listing d at) ≡ none
      → Leads d at (name ∷ rest) not_found
  last :
      (at : Inode) (name : List ℕ) (ino : ℕ)
      → find_last name (listing d at) ≡ some ino
      → Leads d at (name ∷ []) (inode ino)
  blocked :
      (at : Inode) (name next : List ℕ) (rest : List (List ℕ)) (ino : ℕ)
      → find_last name (listing d at) ≡ some ino
      → is_directory (d.inodes ino) ≡ false
      → Leads d at (name ∷ next ∷ rest) not_directory
  further :
      (at : Inode) (name next : List ℕ) (rest : List (List ℕ)) (ino : ℕ) (r : PathResult)
      → find_last name (listing d at) ≡ some ino
      → is_directory (d.inodes ino) ≡ true
      → Leads d (d.inodes ino) (next ∷ rest) r
      → Leads d at (name ∷ next ∷ rest) r

-- Every directory fits.
abbrev pub AllFit : Disk → Type 0
AllFit d = (ino : ℕ) → is_directory (d.inodes ino) ≡ true → Fits (d.inodes ino)

-- The path "/" has no name in it.
no_name : tokens (slash ∷ []) ≡ []
unfolding tokens tokens_from
no_name = refl

module _ (d : Disk) (fit : AllFit d) where
  walk-Leads :
      (result : ℕ) (root : Inode) (name : List ℕ) (rest : List (List ℕ))
      → Fits root
      → Returns (Leads d root (name ∷ rest)) (walk d result root (name ∷ rest))
  unfolding walk
  walk-Leads result root name [] f =
      rw (helper-find_last d root name f) (elim (Option-cases (find_last name (listing d root))) [
        | inl missing ↦ rw missing (absent root name [] missing)
        | inr (ino, found) ↦ rw found (last root name ino found)
      ])
  walk-Leads result root name (next ∷ rest) f =
      rw (helper-find_last d root name f) (elim (Option-cases (find_last name (listing d root))) [
        | inl missing ↦ rw missing (absent root name (next ∷ rest) missing)
        | inr (ino, found) ↦ rw found (elim (Bool-cases (is_directory (d.inodes ino))) [
          | inr file ↦ rw file (blocked root name next rest ino found file)
          | inl directory ↦ rw directory (
              Returns-mono _ _ (walk d ino (d.inodes ino) (next ∷ rest))
                (walk-Leads ino (d.inodes ino) next rest (fit ino directory))
                (λ r l. further root name next rest ino r found directory l))
        ])
      ])

  -- On a file system whose directories fit, with a directory as its root: a path of less than 4096
  -- bytes that starts with a slash and has a name in it is followed without a fault, and the result
  -- is where its names lead from the root, by the listings of the directories.
  pub path_inode-Leads :
      (path name : List ℕ) (rest : List (List ℕ))
      → is_directory (d.inodes 0) ≡ true
      → is_absolute path ≡ true
      → tokens path ≡ name ∷ rest
      → length path < 4096
      → Returns (Leads d (d.inodes 0) (name ∷ rest)) (path_inode d path)
  unfolding path_inode
  path_inode-Leads path name rest root absolute names short =
      rw (absolute, elsewhere, lt→leb 4096 (length path) short, names)
        (walk-Leads (d.inodes 0).extent_count (d.inodes 0) name rest (fit 0 root))
    where
      nonempty : (t : List (List ℕ)) → name ∷ rest ≡ t → t ≡ [] → ⊥
      nonempty t e e' = absurd (omega (arith, ap length (e ∙ e')))

      elsewhere : same_text path (slash ∷ []) ≡ false
      elsewhere = elim (Bool-cases (same_text path (slash ∷ []))) [
        | inr other ↦ other
        | inl same ↦ absurd (
            nonempty (tokens path) (sym names)
              (ap tokens (same_text-eq path (slash ∷ []) same) ∙ no_name))
      ]
