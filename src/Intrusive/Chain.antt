-- ===== src/Intrusive/Chain.antt =====
-- Entries that are linked one after the other, for any two functions `next` and `prev`.
use uoft_operating_systems.Common.{
  ℕ, ◌≡◌, refl, sym, ap, ◌∙◌, ◌≢◌, ◌⊎◌, inl, inr, List, [], ◌∷◌, ◌++◌,
}
use mathlib.Core.Path.{subst}

abbrev pub Occurs : ℕ → List ℕ → Type 0
Occurs a [] = ⊥
Occurs a (x ∷ xs) = (a ≡ x) ⊎ Occurs a xs

abbrev pub Distinct : List ℕ → Type 0
Distinct [] = Unit {0}
Distinct (x ∷ xs) = (Occurs x xs → ⊥) × Distinct xs

-- From `a` over the entries `xs` to `b`.
abbrev pub Chain : (ℕ → ℕ) → (ℕ → ℕ) → ℕ → List ℕ → ℕ → Type 0
Chain next prev a [] b = (next a ≡ b) × (prev b ≡ a)
Chain next prev a (x ∷ xs) b = (next a ≡ x) × (prev x ≡ a) × Chain next prev x xs b

pub Occurs-append : (a : ℕ) (xs ys : List ℕ) → Occurs a ys → Occurs a (xs ++ ys)
Occurs-append a [] ys o = o
Occurs-append a (x ∷ xs) ys o = inr (Occurs-append a xs ys o)

pub Occurs-front : (a : ℕ) (xs ys : List ℕ) → Occurs a xs → Occurs a (xs ++ ys)
Occurs-front a [] ys o = absurd o
Occurs-front a (x ∷ xs) ys (inl e) = inl e
Occurs-front a (x ∷ xs) ys (inr o) = inr (Occurs-front a xs ys o)

pub Distinct-parts : (xs ys : List ℕ) → Distinct (xs ++ ys) → Distinct xs × Distinct ys
Distinct-parts [] ys d = (tt, d)
Distinct-parts (x ∷ xs) ys (new, d) =
    let (dx, dy) = Distinct-parts xs ys d in ((λ o. new (Occurs-front x xs ys o), dx), dy)

pub Occurs-cases : (a : ℕ) (xs ys : List ℕ) → Occurs a (xs ++ ys) → Occurs a xs ⊎ Occurs a ys
Occurs-cases a [] ys o = inr o
Occurs-cases a (x ∷ xs) ys (inl e) = inl (inl e)
Occurs-cases a (x ∷ xs) ys (inr o) = elim (Occurs-cases a xs ys o) [
  | inl p ↦ inl (inr p)
  | inr p ↦ inr p
]

pub Distinct-remove :
    (xs : List ℕ) (e : ℕ) (ys : List ℕ) → Distinct (xs ++ e ∷ ys) → Distinct (xs ++ ys)
Distinct-remove [] e ys (new, d) = d
Distinct-remove (x ∷ xs) e ys (new, d) = (
  λ o. elim (Occurs-cases x xs ys o) [
    | inl p ↦ new (Occurs-front x xs (e ∷ ys) p)
    | inr p ↦ new (Occurs-append x xs (e ∷ ys) (inr p))
  ],
  Distinct-remove xs e ys d,
)

pub Distinct-snoc :
    (xs : List ℕ) (e : ℕ) → Distinct xs → (Occurs e xs → ⊥) → Distinct (xs ++ e ∷ [])
Distinct-snoc [] e d fresh = (λ o. o, tt)
Distinct-snoc (x ∷ xs) e (new, d) fresh = (
  λ o. elim (Occurs-cases x xs (e ∷ []) o) [
    | inl p ↦ new p
    | inr p ↦ elim p [ inl same ↦ fresh (inl (sym same)) | inr none' ↦ none' ]
  ],
  Distinct-snoc xs e d (λ o. fresh (inr o)),
)

pub Distinct-disjoint :
    (xs ys : List ℕ) (a : ℕ) → Distinct (xs ++ ys) → Occurs a xs → Occurs a ys → ⊥
Distinct-disjoint [] ys a d p o = p
Distinct-disjoint (x ∷ xs) ys a (new, d) (inl e) o =
    new (Occurs-append x xs ys (subst (λ y. Occurs y ys) e o))
Distinct-disjoint (x ∷ xs) ys a (new, d) (inr p) o = Distinct-disjoint xs ys a d p o

module _ (next prev : ℕ → ℕ) where
  pub Chain-append :
      (a : ℕ) (xs : List ℕ) (m : ℕ) (ys : List ℕ) (b : ℕ)
      → Chain next prev a xs m
      → Chain next prev m ys b
      → Chain next prev a (xs ++ m ∷ ys) b
  Chain-append a [] m ys b (n, p) c = (n, p, c)
  Chain-append a (x ∷ xs) m ys b (n, p, c) c' = (n, p, Chain-append x xs m ys b c c')

  pub Chain-parts :
      (a : ℕ) (xs : List ℕ) (m : ℕ) (ys : List ℕ) (b : ℕ)
      → Chain next prev a (xs ++ m ∷ ys) b
      → Chain next prev a xs m × Chain next prev m ys b
  Chain-parts a [] m ys b (n, p, c) = ((n, p), c)
  Chain-parts a (x ∷ xs) m ys b (n, p, c) =
      let (c₁, c₂) = Chain-parts x xs m ys b c in ((n, p, c₁), c₂)

  -- The last entry is the one that `b` points back to.
  pub last-Occurs :
      (a : ℕ) (xs : List ℕ) (b : ℕ) → Chain next prev a xs b → Occurs (prev b) (a ∷ xs)
  last-Occurs a [] b (n, p) = inl p
  last-Occurs a (x ∷ xs) b (n, p, c) = inr (last-Occurs x xs b c)

  module _ (next' prev' : ℕ → ℕ) where
    pub Chain-same :
        (a : ℕ) (xs : List ℕ) (b : ℕ)
        → ((x : ℕ) → Occurs x (a ∷ xs) → next' x ≡ next x)
        → ((x : ℕ) → Occurs x xs → prev' x ≡ prev x)
        → prev' b ≡ prev b
        → Chain next prev a xs b
        → Chain next' prev' a xs b
    Chain-same a [] b sn sp sb (n, p) = (sn a (inl refl) ∙ n, sb ∙ p)
    Chain-same a (x ∷ xs) b sn sp sb (n, p, c) = (
      sn a (inl refl) ∙ n,
      sp x (inl refl) ∙ p,
      Chain-same x xs b (λ y o. sn y (inr o)) (λ y o. sp y (inr o)) sb c,
    )

    -- The same entries, led on to `q` in place of `b`.
    pub Chain-retarget :
        (a : ℕ) (xs : List ℕ) (b q : ℕ)
        → Distinct (a ∷ xs)
        → ((x : ℕ) → Occurs x (a ∷ xs) → x ≢ prev b → next' x ≡ next x)
        → ((x : ℕ) → Occurs x xs → prev' x ≡ prev x)
        → next' (prev b) ≡ q
        → prev' q ≡ prev b
        → Chain next prev a xs b
        → Chain next' prev' a xs q
    Chain-retarget a [] b q d sn sp en ep (n, p) = (ap next' (sym p) ∙ en, ep ∙ p)
    Chain-retarget a (x ∷ xs) b q (new, d) sn sp en ep (n, p, c) = (
      sn a (inl refl) (λ e. new (subst (λ y. Occurs y (x ∷ xs)) (sym e) (last-Occurs x xs b c)))
          ∙ n,
      sp x (inl refl) ∙ p,
      Chain-retarget x xs b q d (λ y o. sn y (inr o)) (λ y o. sp y (inr o)) en ep c,
    )
