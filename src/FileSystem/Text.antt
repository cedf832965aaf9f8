-- ===== src/FileSystem/Text.antt =====
-- The string functions that a1fs.c calls, on strings given as the bytes before the NUL.
use uoft_operating_systems.Common.{
  ℕ, suc, Bool, true, false, ◌&&◌, Option, none, some, List, [], ◌∷◌, ◌++◌, ◌==◌, eq→==, ◌≡◌, refl,
  arith, if◌then◌else◌,
}

abbrev pub slash : ℕ
slash = b'/'

-- `strcmp(a, b) == 0`.
unfoldable pub same_text : List ℕ → List ℕ → Bool
same_text [] [] = true
same_text [] (y ∷ ys) = false
same_text (x ∷ xs) [] = false
same_text (x ∷ xs) (y ∷ ys) = (x == y) && same_text xs ys

-- Texts that `strcmp` takes for the same are the same.
pub same_text-eq : (xs ys : List ℕ) → same_text xs ys ≡ true → xs ≡ ys
unfolding same_text
same_text-eq [] [] e = refl
same_text-eq [] (y ∷ ys) e = absurd (ground arith)
same_text-eq (x ∷ xs) [] e = absurd (ground arith)
same_text-eq (x ∷ xs) (y ∷ ys) e =
    let t = same_text-eq xs ys (ground arith) in let h : x ≡ y = ground arith in λ i. h i ∷ t i

pub same_text_self : (xs : List ℕ) → same_text xs xs ≡ true
unfolding same_text
same_text_self [] = refl
same_text_self (x ∷ xs) = rw (eq→== x x refl) (same_text_self xs)

-- What `strtok(path, "/")` and then `strtok(NULL, "/")` give: the parts between slashes that are
-- not empty. `part` is the part so far.
unfoldable pub tokens_from : List ℕ → List ℕ → List (List ℕ)
tokens_from [] [] = []
tokens_from (p ∷ ps) [] = (p ∷ ps) ∷ []
tokens_from part (c ∷ cs) =
    let further = tokens_from (part ++ c ∷ []) cs in
    let fresh = tokens_from [] cs in
    if c == slash then (elim part [ [] ↦ fresh | p ∷ ps ↦ (p ∷ ps) ∷ fresh ]) else further

unfoldable pub tokens : List ℕ → List (List ℕ)
unfolding tokens_from
tokens path = tokens_from [] path

-- `strrchr(text, '/')`: how many bytes stand before the last slash.
unfoldable pub last_slash : List ℕ → Option ℕ
last_slash [] = none
last_slash (c ∷ cs) = elim (last_slash cs) [
  | some n ↦ some (suc n)
  | none ↦ if c == slash then some 0 else none
]
