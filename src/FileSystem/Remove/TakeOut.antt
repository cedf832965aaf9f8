-- ===== src/FileSystem/Remove/TakeOut.antt =====
-- What a removal does to the listing of a directory.
use uoft_operating_systems.Common.{
  ℕ, ◌≡◌, refl, sym, ap, ◌∙◌, arith, Option, none, some, List, [], ◌∷◌, ◌++◌, if◌then◌else◌,
  if-true, if-false, Bool-cases, inl, inr,
}
use uoft_operating_systems.FileSystem.Disk.{Dentry}
use uoft_operating_systems.FileSystem.Text.{same_text, same_text_self}
use uoft_operating_systems.FileSystem.Lookup.Listing.{or_else, find_last}

-- The last entry before the others.
unfoldable pub bring_last : List Dentry → List Dentry
bring_last [] = []
bring_last (e ∷ es) = elim (bring_last es) [ [] ↦ e ∷ [] | l ∷ ls ↦ l ∷ e ∷ ls ]

-- The entries without the first that has the name; the last one takes its place.
unfoldable pub take_out : List ℕ → List Dentry → List Dentry
unfolding bring_last
take_out name [] = []
take_out name (e ∷ es) =
    let others = e ∷ take_out name es in if same_text e.name name then bring_last es else others

pub bring_last-last : (es : List Dentry) (l : Dentry) → bring_last (es ++ l ∷ []) ≡ l ∷ es
unfolding bring_last
bring_last-last [] l = refl
bring_last-last (e ∷ es) l = rw (bring_last-last es l) refl

pub impossible : {ino : ℕ} → none ≡ some ino → ⊥
impossible e = ground arith

pub or_else-none : (o : Option ℕ) → or_else o none ≡ o
or_else-none none = refl
or_else-none (some ino) = refl

or_else-some : (o : Option ℕ) (ino : ℕ) → or_else o (some ino) ≡ none → ⊥
or_else-some none ino e = ground arith
or_else-some (some _) ino e = ground arith

or_else-left : (o p : Option ℕ) → or_else o p ≡ none → o ≡ none
or_else-left none p e = refl
or_else-left (some _) p e = absurd (ground arith)

-- What is put behind entries of other names is taken out again.
pub take_out-last :
    (name : List ℕ) (ino : ℕ) (es : List Dentry)
    → find_last name es ≡ none
    → take_out name (es ++ record { ino = ino; name = name } ∷ []) ≡ es
unfolding take_out bring_last find_last
take_out-last name ino [] e = if-true _ _ _ (same_text_self name)
take_out-last name ino (x ∷ xs) e = elim (Bool-cases (same_text x.name name)) [
  | inl same ↦ absurd (
      or_else-some (find_last name xs) x.ino
        (ap (or_else (find_last name xs)) (sym (if-true _ _ _ same)) ∙ e))
  | inr other ↦
      if-false _ _ _ other ∙ ap (λ t. x ∷ t) (take_out-last name ino xs (or_else-left _ _ e))
]
