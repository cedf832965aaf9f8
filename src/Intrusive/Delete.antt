-- ===== src/Intrusive/Delete.antt =====
-- `list_del`.
use uoft_operating_systems.Common.{
  ℕ, ◌≡◌, ◌≢◌, refl, sym, ap, ◌∙◌, List, [], ◌∷◌, ◌++◌, append-nil, inl, inr, ok, Returns,
}
use mathlib.Core.Path.{subst}
use uoft_operating_systems.Common.Update.{set, set-at, set-else}
use uoft_operating_systems.Intrusive.{Links, set_next, set_prev, list_del, enter, exit}
use uoft_operating_systems.Intrusive.Chain.{
  Chain, Distinct, Occurs, Chain-append, Chain-parts, Chain-same, Chain-retarget, last-Occurs,
  Distinct-remove, Distinct-disjoint, Distinct-parts, Occurs-append, Occurs-front,
}
use uoft_operating_systems.Intrusive.Linked.{Linked, through_entry, left_idle}

module _ (links : Links) (entry : ℕ) where
  abbrev next_without : ℕ → ℕ
  next_without = set (set links.next (links.prev entry) (links.next entry)) entry 0

  abbrev prev_without : ℕ → ℕ
  prev_without = set (set links.prev (links.next entry) (links.prev entry)) entry 0

  removed : ℕ → ℕ → Links
  removed self list =
      exit self list (record (enter self list links) { next = next_without; prev = prev_without })

  list_del_exact :
      (self list : ℕ)
      → entry ≢ 0
      → links.next entry ≢ 0
      → links.prev entry ≢ 0
      → links.next entry ≢ entry
      → list_del self list entry links ≡ ok (removed self list)
  unfolding list_del set_next set_prev removed
  list_del_exact self list e n p apart =
      rw
        (
          through_entry entry e,
          through_entry (links.next entry) n,
          set-else links.prev (links.next entry) (links.prev entry) entry
              (λ same. apart (sym same)),
          through_entry (links.prev entry) p,
        )
        refl

module _ (links : Links) (list entry : ℕ) (xs : List ℕ)
    (before : Chain links.next links.prev list xs entry) where
  -- The entry before, or the list.
  last_in : Occurs (links.prev entry) (list ∷ xs)
  last_in = last-Occurs links.next links.prev list xs entry before

  -- The entries before, led on to the one behind, `q`.
  cut_short :
      (q : ℕ) (ys : List ℕ)
      → links.next entry ≡ q
      → Distinct ((0 ∷ list ∷ xs) ++ entry ∷ ys)
      → q ≢ entry
      → ((x : ℕ) → Occurs x xs → x ≢ q)
      → Chain (next_without links entry) (prev_without links entry) list xs q
  cut_short q ys n d apart not_q =
      Chain-retarget links.next links.prev _ _ list xs entry q
        (Distinct-parts (list ∷ xs) (entry ∷ ys) d.1).0
        (λ x o ne.
          set-else _ entry 0 x (not_entry x o) ∙ set-else links.next (links.prev entry) _ x ne)
        (λ x o.
          set-else _ entry 0 x (not_entry x (inr o))
          ∙ set-else links.prev _ _ x (λ e. not_q x o (e ∙ n)))
        (set-else _ entry 0 (links.prev entry) (not_entry (links.prev entry) last_in)
          ∙ set-at links.next (links.prev entry) (links.next entry)
          ∙ n)
        (set-else _ entry 0 q apart
          ∙ ap (set links.prev (links.next entry) (links.prev entry)) (sym n)
          ∙ set-at links.prev (links.next entry) (links.prev entry))
        before
    where
      not_entry : (x : ℕ) → Occurs x (list ∷ xs) → x ≢ entry
      not_entry x o e = Distinct-disjoint (list ∷ xs) (entry ∷ ys) x d.1 o (inl e)

  joined :
      (ys : List ℕ)
      → Chain links.next links.prev entry ys list
      → Distinct ((0 ∷ list ∷ xs) ++ entry ∷ ys)
      → (links.next entry ≢ 0)
        × (links.next entry ≢ entry)
        × Chain (next_without links entry) (prev_without links entry) list (xs ++ ys) list
  joined [] (n, p) d = (
    λ e. d.0 (inl (sym e ∙ n)),
    λ e. Distinct-disjoint (list ∷ xs) (entry ∷ []) entry d.1 (inl (sym e ∙ n)) (inl refl),
    subst (λ zs. Chain (next_without links entry) (prev_without links entry) list zs list)
        (sym (append-nil xs))
        (cut_short list [] n d
          (λ e. Distinct-disjoint (list ∷ xs) (entry ∷ []) entry d.1 (inl (sym e)) (inl refl))
          (λ x o e.
            (Distinct-parts (list ∷ xs) (entry ∷ []) d.1).0.0 (subst (λ a. Occurs a xs) e o))),
  )
  joined (y ∷ ys) (n, p, c) d = (
    λ e. d.0 (Occurs-append 0 (list ∷ xs) (entry ∷ y ∷ ys) (inr (inl (sym e ∙ n)))),
    λ e. new_entry (inl (sym e ∙ n)),
    Chain-append _ _ list xs y ys list
        (cut_short y (y ∷ ys) n d (λ e. new_entry (inl (sym e)))
          (λ x o e. Distinct-disjoint (list ∷ xs) (entry ∷ y ∷ ys) x d.1 (inr o) (inr (inl e))))
        (Chain-same links.next links.prev _ _ y ys list
          (λ x o.
            set-else _ entry 0 x (λ e. new_entry (subst (λ a. Occurs a (y ∷ ys)) e o))
            ∙ set-else links.next _ _ x (λ e.
              Distinct-disjoint (list ∷ xs) (entry ∷ y ∷ ys) (links.prev entry) d.1 last_in
                (inr (subst (λ a. Occurs a (y ∷ ys)) e o))))
          (λ x o.
            set-else _ entry 0 x (λ e. new_entry (inr (subst (λ a. Occurs a ys) e o)))
            ∙ set-else links.prev _ _ x (λ e. behind.1.0 (subst (λ a. Occurs a ys) (e ∙ n) o)))
          (set-else _ entry 0 list
              (λ e. Distinct-disjoint (list ∷ xs) (entry ∷ y ∷ ys) list d.1 (inl refl) (inl e))
            ∙ set-else links.prev _ _ list (λ e.
              Distinct-disjoint (list ∷ xs) (entry ∷ y ∷ ys) list d.1 (inl refl)
                (inr (inl (e ∙ n)))))
          c),
  )
    where
      behind : Distinct (entry ∷ y ∷ ys)
      behind = (Distinct-parts (list ∷ xs) (entry ∷ y ∷ ys) d.1).1

      new_entry : Occurs entry (y ∷ ys) → ⊥
      new_entry = behind.0

-- `list_del` takes any entry of a list out, wherever it stands: the others keep their order, and the
-- entry is unlinked. No pointer that it follows is NULL.
pub list_del-Linked :
    (self list entry : ℕ) (xs ys : List ℕ) (links : Links)
    → Linked links list (xs ++ entry ∷ ys)
    → Returns
        (λ links'.
          Linked links' list (xs ++ ys) × (links'.next entry ≡ 0) × (links'.prev entry ≡ 0))
        (list_del self list entry links)
unfolding removed
list_del-Linked self list entry xs ys links l =
    let (before, behind) = Chain-parts links.next links.prev list xs entry ys list l.chain in
    let (n, apart, chain) = joined links list entry xs before ys behind l.distinct in
    rw
      (list_del_exact links entry self list (there (inl refl)) n
        (λ e. (l.distinct).0 (front e (last_in links list entry xs before))) apart)
      (
        record {
          chain = chain;
          distinct = Distinct-remove (0 ∷ list ∷ xs) entry ys l.distinct;
          idle =
              left_idle self list links (next_without links entry) (prev_without links entry)
                l.idle;
        },
        set-at _ entry 0,
        set-at _ entry 0,
      )
  where
    there : Occurs entry (entry ∷ ys) → entry ≢ 0
    there o e = (l.distinct).0 (
        subst (λ a. Occurs a (list ∷ (xs ++ entry ∷ ys))) e
          (Occurs-append entry (list ∷ xs) (entry ∷ ys) o))

    front :
        links.prev entry ≡ 0
        → Occurs (links.prev entry) (list ∷ xs)
        → Occurs 0 (list ∷ (xs ++ entry ∷ ys))
    front e o =
        subst (λ a. Occurs a (list ∷ (xs ++ entry ∷ ys))) e
          (Occurs-front (links.prev entry) (list ∷ xs) (entry ∷ ys) o)
