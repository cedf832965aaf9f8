-- ===== src/FileSystem/Parent/OneName.antt =====
-- Paths of one name.
use uoft_operating_systems.Common.{
  ℕ, ◌<◌, ◌≡◌, refl, sym, ap, ◌∙◌, arith, Bool, true, false, not, ◌&&◌, none, some, List, [], ◌∷◌,
  ◌++◌, append-nil, append_assoc, ok, ◌==◌, if-false, length, lt→leb,
}
use uoft_operating_systems.FileSystem.Disk.{Disk}
use uoft_operating_systems.FileSystem.Text.{slash, same_text, tokens_from, tokens, last_slash}
use uoft_operating_systems.FileSystem.Lookup.{
  helper, inode, walk, is_absolute, path_inode, file_inode,
}
use uoft_operating_systems.FileSystem.Parent.{split, up_to_nul, parent_path, new_parent, old_parent}

-- A name without a slash.
unfoldable pub plain : List ℕ → Bool
plain [] = true
plain (c ∷ cs) = not (c == slash) && plain cs

plain-head : (c : ℕ) (cs : List ℕ) → plain (c ∷ cs) ≡ true → (c == slash) ≡ false
unfolding plain
plain-head c cs e = ground arith

plain-tail : (c : ℕ) (cs : List ℕ) → plain (c ∷ cs) ≡ true → plain cs ≡ true
unfolding plain
plain-tail c cs e = ground arith

plain-last_slash : (name : List ℕ) → plain name ≡ true → last_slash name ≡ none
unfolding last_slash
plain-last_slash [] e = refl
plain-last_slash (c ∷ cs) e = rw (plain-last_slash cs (plain-tail c cs e), plain-head c cs e) refl

plain-tokens_from :
    (p : ℕ) (part cs : List ℕ) → plain cs ≡ true → tokens_from (p ∷ part) cs ≡ (p ∷ part ++ cs) ∷ []
unfolding tokens_from
plain-tokens_from p part [] e = ap (λ t. (p ∷ t) ∷ []) (sym (append-nil part))
plain-tokens_from p part (c ∷ cs) e =
    if-false _ _ _ (plain-head c cs e)
    ∙ plain-tokens_from p (part ++ c ∷ []) cs (plain-tail c cs e)
    ∙ ap (λ t. (p ∷ t) ∷ []) (append_assoc part (c ∷ []) cs)

-- A path of one name.
module _ (c : ℕ) (cs : List ℕ) (one : plain (c ∷ cs) ≡ true) where
  pub top-split : length (c ∷ cs) < 99 → split (slash ∷ c ∷ cs) ≡ ok (0, c ∷ cs)
  unfolding split last_slash
  top-split short =
      if-false _ _ _ (lt→leb 100 (length (slash ∷ c ∷ cs)) (omega arith))
      ∙ rw (plain-last_slash (c ∷ cs) one) refl

  top-tokens : tokens (slash ∷ c ∷ cs) ≡ (c ∷ cs) ∷ []
  unfolding tokens tokens_from
  top-tokens =
      if-false _ _ _ (plain-head c cs one) ∙ plain-tokens_from c [] cs (plain-tail c cs one)

  pub top-path_inode :
      (d : Disk) (ino : ℕ)
      → length (c ∷ cs) < 99
      → helper d (d.inodes 0) (c ∷ cs) ≡ ok (some ino)
      → path_inode d (slash ∷ c ∷ cs) ≡ ok (inode ino)
  unfolding path_inode is_absolute same_text walk
  top-path_inode d ino short found =
      if-false _ _ _ (lt→leb 4096 (length (slash ∷ c ∷ cs)) (omega arith))
      ∙ rw (top-tokens, found) refl

  -- With a NUL at the start of the array that is not initialised, the parent is the root.
  pub top-new_parent :
      (d : Disk) (stack : List ℕ) → new_parent d (slash ∷ c ∷ cs) 0 (0 ∷ stack) ≡ ok 0
  unfolding new_parent parent_path up_to_nul last_slash
  top-new_parent d stack = refl

  pub top-file_inode :
      (d : Disk) (ino : ℕ)
      → path_inode d (slash ∷ c ∷ cs) ≡ ok (inode ino)
      → file_inode d (slash ∷ c ∷ cs) ≡ ok ino
  unfolding file_inode
  top-file_inode d ino leads = rw leads refl

  pub top-old_parent : (d : Disk) (stack : List ℕ) → old_parent d (slash ∷ c ∷ cs) 0 stack ≡ ok 0
  unfolding old_parent
  top-old_parent d stack = refl
