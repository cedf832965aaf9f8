-- ===== src/Intrusive/Insert.antt =====
-- `list_add_tail` and `list_add_head`.
use uoft_operating_systems.Common.{
  ℕ, ◌≡◌, ◌≢◌, refl, sym, ap, ◌∙◌, List, [], ◌∷◌, ◌++◌, inl, inr, ok, Returns,
}
use mathlib.Core.Path.{subst}
use uoft_operating_systems.Common.Update.{set, set-at, set-else}
use uoft_operating_systems.Intrusive.{
  Links, set_next, set_prev, list_insert, list_add_head, list_add_tail, enter, exit,
}
use uoft_operating_systems.Intrusive.Chain.{
  Chain, Distinct, Occurs, Chain-append, Chain-same, Chain-retarget, last-Occurs, Distinct-snoc,
}
use uoft_operating_systems.Intrusive.Linked.{Linked, through_entry, left_idle}

-- The links with `entry` put between `p` and `q`.
abbrev next_with : Links → ℕ → ℕ → ℕ → ℕ → ℕ
next_with links entry p q = set (set links.next entry q) p entry

abbrev prev_with : Links → ℕ → ℕ → ℕ → ℕ → ℕ
prev_with links entry p q = set (set links.prev q entry) entry p

inserted : ℕ → ℕ → ℕ → ℕ → ℕ → Links → Links
inserted self list entry p q links = exit self list (record (enter self list links) {
  next = next_with links entry p q;
  prev = prev_with links entry p q;
})

list_insert_exact :
    (self list entry p q : ℕ) (links : Links)
    → entry ≢ 0
    → p ≢ 0
    → q ≢ 0
    → list_insert self list entry p q links ≡ ok (inserted self list entry p q links)
unfolding list_insert set_next set_prev inserted
list_insert_exact self list entry p q links e p' q' =
    rw (through_entry q q', through_entry entry e, through_entry p p') refl

module _ (self list entry : ℕ) (links : Links) (xs : List ℕ) (l : Linked links list xs)
    (fresh : Occurs entry (0 ∷ list ∷ xs) → ⊥) where
  entry_there : entry ≢ 0
  entry_there e = fresh (inl e)

  list_there : list ≢ 0
  list_there e = (l.distinct).0 (inl (sym e))

  -- The address of the last entry, or of the list.
  last : ℕ
  last = links.prev list

  last_in : Occurs last (list ∷ xs)
  unfolding last
  last_in = last-Occurs links.next links.prev list xs list l.chain

  last_there : last ≢ 0
  last_there e = (l.distinct).0 (subst (λ a. Occurs a (list ∷ xs)) e last_in)

  entry_not_last : entry ≢ last
  entry_not_last e = fresh (inr (subst (λ a. Occurs a (list ∷ xs)) (sym e) last_in))

  not_entry : (x : ℕ) → Occurs x (list ∷ xs) → x ≢ entry
  not_entry x o e = fresh (inr (subst (λ a. Occurs a (list ∷ xs)) e o))

  not_list : (x : ℕ) → Occurs x xs → x ≢ list
  not_list x o e = (l.distinct).1.0 (subst (λ a. Occurs a xs) e o)

  tail-Chain :
      Chain
        (next_with links entry last list)
        (prev_with links entry last list)
        list
        (xs ++ entry ∷ [])
        list
  unfolding last
  tail-Chain =
      Chain-append _ _ list xs entry [] list
        (Chain-retarget links.next links.prev _ _ list xs list entry ((l.distinct).1)
          (λ x o ne. set-else _ last entry x ne ∙ set-else links.next entry list x (not_entry x o))
          (λ x o.
            set-else _ entry last x (not_entry x (inr o))
            ∙ set-else links.prev list entry x (not_list x o))
          (set-at _ last entry) (set-at _ entry last) l.chain)
        (
          set-else _ last entry entry entry_not_last ∙ set-at links.next entry list,
          set-else _ entry last list (λ e. fresh (inr (inl (sym e))))
              ∙ set-at links.prev list entry,
        )

  -- On a list of the entries `xs`, when `entry` is not NULL, not the head and none of them,
  -- `list_add_tail` puts it behind them. No pointer that it follows is NULL.
  pub list_add_tail-Linked :
      Returns
        (λ links'. Linked links' list (xs ++ entry ∷ []))
        (list_add_tail self list entry links)
  unfolding list_add_tail last inserted
  list_add_tail-Linked =
      rw
        (
          through_entry list list_there,
          list_insert_exact self list entry last list links entry_there last_there list_there,
        )
        (record {
          chain = tail-Chain;
          distinct = Distinct-snoc (0 ∷ list ∷ xs) entry l.distinct fresh;
          idle =
              left_idle self list links (next_with links entry last list)
                (prev_with links entry last list) l.idle;
        })

  head-Chain :
      (ys : List ℕ)
      → Chain links.next links.prev list ys list
      → Distinct (list ∷ ys)
      → ((x : ℕ) → Occurs x (list ∷ ys) → x ≢ entry)
      → Chain
          (next_with links entry list (links.next list))
          (prev_with links entry list (links.next list))
          list
          (entry ∷ ys)
          list
  head-Chain [] (n, p) d apart = (
    set-at _ list entry,
    set-at _ entry list,
    (
      set-else _ list entry entry (λ e. apart list (inl refl) (sym e))
          ∙ set-at links.next entry _
          ∙ n,
      set-else _ entry list list (apart list (inl refl))
          ∙ ap (set links.prev (links.next list) entry) (sym n)
          ∙ set-at links.prev (links.next list) entry,
    ),
  )
  head-Chain (y ∷ ys) (n, p, c) (new, d) apart = (
    set-at _ list entry,
    set-at _ entry list,
    (
      set-else _ list entry entry (λ e. apart list (inl refl) (sym e))
          ∙ set-at links.next entry _
          ∙ n,
      set-else _ entry list y (apart y (inr (inl refl)))
          ∙ ap (set links.prev (links.next list) entry) (sym n)
          ∙ set-at links.prev (links.next list) entry,
      Chain-same links.next links.prev _ _ y ys list
          (λ x o.
            set-else _ list entry x (λ e. new (subst (λ a. Occurs a (y ∷ ys)) e o))
            ∙ set-else links.next entry _ x (apart x (inr o)))
          (λ x o.
            set-else _ entry list x (apart x (inr (inr o)))
            ∙ set-else links.prev _ entry x (λ e. d.0 (subst (λ a. Occurs a ys) (e ∙ n) o)))
          (set-else _ entry list list (apart list (inl refl))
            ∙ set-else links.prev _ entry list (λ e. new (inl (e ∙ n))))
          c,
    ),
  )

  first_there :
      (ys : List ℕ)
      → Chain links.next links.prev list ys list
      → Distinct (0 ∷ list ∷ ys)
      → links.next list ≢ 0
  first_there [] (n, p) d e = d.0 (inl (sym e ∙ n))
  first_there (y ∷ ys) (n, p, c) d e = d.0 (inr (inl (sym e ∙ n)))

  -- On a list of the entries `xs`, when `entry` is not NULL, not the head and none of them,
  -- `list_add_head` puts it before them. No pointer that it follows is NULL.
  pub list_add_head-Linked :
      Returns (λ links'. Linked links' list (entry ∷ xs)) (list_add_head self list entry links)
  unfolding list_add_head inserted
  list_add_head-Linked =
      rw
        (
          through_entry list list_there,
          list_insert_exact self list entry list (links.next list) links entry_there list_there
              (first_there xs l.chain l.distinct),
        )
        (record {
          chain = head-Chain xs l.chain (l.distinct).1 not_entry;
          distinct = (
            λ o. elim o [
              | inl e ↦ list_there (sym e)
              | inr o' ↦ elim o' [
                | inl e ↦ entry_there (sym e)
                | inr o'' ↦ (l.distinct).0 (inr o'')
              ]
            ],
            (
              λ o. elim o [ inl e ↦ fresh (inr (inl (sym e))) | inr o' ↦ (l.distinct).1.0 o' ],
              (λ o. fresh (inr (inr o)), (l.distinct).1.1),
            ),
          );
          idle =
              left_idle self list links (next_with links entry list (links.next list))
                (prev_with links entry list (links.next list)) l.idle;
        })
