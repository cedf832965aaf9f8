-- ===== src/Intrusive/Client.antt =====
-- Whole runs of a list of list.h: `list_init`, and then any additions, deletions and iterations.
use uoft_operating_systems.Common.{
  ℕ, ◌+◌, ◌<◌, ◌≤◌, ◌≡◌, false, Bool-cases, length-append, ◌≢◌, refl, sym, ap, ◌∙◌, List, [], ◌∷◌,
  ◌++◌, Option, some, none, inl, inr, arith, length, Run, ok, Returns-value, ◌>>=◌, ◌==◌,
  if◌then◌else◌,
}
use mathlib.Core.Path.{subst}
use uoft_operating_systems.Intrusive.{
  Links, list_init, list_add_head, list_add_tail, list_del, list_for_each,
}
use uoft_operating_systems.Intrusive.Chain.{Occurs}
use uoft_operating_systems.Intrusive.Linked.{Linked}
use uoft_operating_systems.Intrusive.Insert.{list_add_head-Linked, list_add_tail-Linked}
use uoft_operating_systems.Intrusive.Delete.{list_del-Linked}
use uoft_operating_systems.Intrusive.Walk.{list_init-Linked, list_for_each-Linked}

-- What a client does with a list, each time in the thread `self`.
pub data Call : Type 0 where
  add_head add_tail del : (self entry : ℕ) → Call
  visit : (self : ℕ) → Call

-- The list as a sequence: `without` takes out the first occurrence.
unfoldable pub without : ℕ → List ℕ → List ℕ
without entry [] = []
without entry (x ∷ xs) = if x == entry then xs else x ∷ without entry xs

unfoldable pub effect : Call → List ℕ → List ℕ
unfolding without
effect (add_head self entry) xs = entry ∷ xs
effect (add_tail self entry) xs = xs ++ entry ∷ []
effect (del self entry) xs = without entry xs
effect (visit self) xs = xs

-- The sequences that the iterations see.
unfoldable pub seen : List Call → List ℕ → List (List ℕ)
unfolding effect
seen [] xs = []
seen (visit self ∷ calls) xs = xs ∷ seen calls xs
seen (c ∷ calls) xs = seen calls (effect c xs)

-- An entry is added only when it is in no list, and taken out only of the list that it is in.
abbrev pub Allowed : ℕ → Call → List ℕ → Type 0
Allowed list (add_head self entry) xs = Occurs entry (0 ∷ list ∷ xs) → ⊥
Allowed list (add_tail self entry) xs = Occurs entry (0 ∷ list ∷ xs) → ⊥
Allowed list (del self entry) xs = Occurs entry xs
Allowed list (visit self) xs = Unit {0}

abbrev pub AllAllowed : ℕ → List Call → List ℕ → Type 0
AllAllowed list [] xs = Unit {0}
AllAllowed list (c ∷ calls) xs = Allowed list c xs × AllAllowed list calls (effect c xs)

-- The calls on the links, with `fuel` rounds for every iteration; `none` if an iteration needs more.
unfoldable pub run : ℕ → ℕ → List Call → Links → Run (List (Option (List ℕ)))
run fuel list [] links = ok []
run fuel list (add_head self entry ∷ calls) links =
    list_add_head self list entry links >>= run fuel list calls
run fuel list (add_tail self entry ∷ calls) links =
    list_add_tail self list entry links >>= run fuel list calls
run fuel list (del self entry ∷ calls) links =
    list_del self list entry links >>= run fuel list calls
run fuel list (visit self ∷ calls) links = do
  r ← list_for_each fuel self list links
  elim r [
    | none ↦ ok (none ∷ [])
    | some (entries, links') ↦ (do rest ← run fuel list calls links'; ok (some entries ∷ rest))
  ]

split_at :
    (entry : ℕ) (xs : List ℕ)
    → Occurs entry xs
    → (ys zs : List ℕ) × (xs ≡ ys ++ entry ∷ zs) × (without entry xs ≡ ys ++ zs)
unfolding without
split_at entry [] o = absurd o
split_at entry (x ∷ xs) o = elim (Bool-cases (x == entry)) [
  | inl same ↦ ([], xs, ap (λ y. y ∷ xs) (ground (arith, same)), rw same refl)
  | inr other ↦
      let (ys, zs, e, w) = split_at entry xs (further other o) in
      (x ∷ ys, zs, ap (λ t. x ∷ t) e, rw other (ap (λ t. x ∷ t) w))
]
  where
    further : (x == entry) ≡ false → Occurs entry (x ∷ xs) → Occurs entry xs
    further other (inl e) = absurd (ground arith)
    further other (inr p) = p

without-le : (entry : ℕ) (xs : List ℕ) → length (without entry xs) ≤ length xs
unfolding without
without-le entry [] = omega arith
without-le entry (x ∷ xs) = ground (arith, without-le entry xs)

abbrev pub all_some : List (List ℕ) → List (Option (List ℕ))
all_some [] = []
all_some (xs ∷ rest) = some xs ∷ all_some rest

-- From links that stand for the sequence `xs`, allowed calls follow no NULL pointer, and with more
-- rounds than there ever are entries every iteration ends and sees the sequence of that time.
pub run-seen :
    (calls : List Call) (fuel list : ℕ) (xs : List ℕ) (links : Links)
    → Linked links list xs
    → AllAllowed list calls xs
    → length xs + length calls < fuel
    → run fuel list calls links ≡ ok (all_some (seen calls xs))
unfolding run seen effect
run-seen [] fuel list xs links l a enough = refl
run-seen (add_head self entry ∷ calls) fuel list xs links l (a, as') enough =
    let (links', e, l') =
      Returns-value _ (list_add_head self list entry links)
        (list_add_head-Linked self list entry links xs l a) in
    ap (λ m. m >>= run fuel list calls) e
    ∙ run-seen calls fuel list (entry ∷ xs) links' l' as' (omega arith)
run-seen (add_tail self entry ∷ calls) fuel list xs links l (a, as') enough =
    let (links', e, l') =
      Returns-value _ (list_add_tail self list entry links)
        (list_add_tail-Linked self list entry links xs l a) in
    ap (λ m. m >>= run fuel list calls) e
    ∙ run-seen calls fuel list (xs ++ entry ∷ []) links' l' as'
        (omega (arith, length-append xs (entry ∷ [])))
run-seen (del self entry ∷ calls) fuel list xs links l (a, as') enough =
    let (ys, zs, split, w) = split_at entry xs a in
    let (links', e, (l', _, _)) =
      Returns-value _ (list_del self list entry links)
        (list_del-Linked self list entry ys zs links (subst (Linked links list) split l)) in
    ap (λ m. m >>= run fuel list calls) e
    ∙ run-seen calls fuel list (without entry xs) links' (subst (Linked links' list) (sym w) l') as'
        (omega (arith, without-le entry xs))
run-seen (visit self ∷ calls) fuel list xs links l (a, as') enough =
    let (links', e, l') = list_for_each-Linked fuel self list xs links l (omega arith) in
    rw (e, run-seen calls fuel list xs links' l' as' (omega arith)) refl

-- `list_init` on a head other than NULL, whatever the links were, and then any calls that add only
-- new entries and take out only entries of the list: no NULL pointer is followed, and with more
-- rounds than there are calls every iteration ends and sees the sequence of that time, in order.
pub init-run-seen :
    (calls : List Call) (fuel list : ℕ) (links : Links)
    → list ≢ 0
    → AllAllowed list calls []
    → length calls < fuel
    → (list_init list links >>= run fuel list calls) ≡ ok (all_some (seen calls []))
init-run-seen calls fuel list links there allowed enough =
    let (links', e, l) =
      Returns-value _ (list_init list links) (list_init-Linked list links there) in
    ap (λ m. m >>= run fuel list calls) e
    ∙ run-seen calls fuel list [] links' l allowed (omega arith)
