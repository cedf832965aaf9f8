-- ===== src/Intrusive/Walk.antt =====
-- `list_init`, `list_destroy` and `list_for_each`.
use uoft_operating_systems.Common.{
  ℕ, zero, suc, ◌<◌, ◌≡◌, ◌≢◌, refl, sym, ap, ◌∙◌, List, [], ◌∷◌, inl, inr, some, arith, length, ok,
  Returns, eq→==, ne→==,
}
use uoft_operating_systems.Validator.{Validator, validator_init, validator_destroy, init-idle}
use uoft_operating_systems.Common.Update.{set-at}
use uoft_operating_systems.Intrusive.{
  Links, set_next, set_prev, list_init, list_destroy, for_each_from, list_for_each, enter, exit,
}
use uoft_operating_systems.Intrusive.Chain.{Chain, Distinct}
use uoft_operating_systems.Intrusive.Linked.{Linked, through_entry, left_idle}

-- A list is empty after `list_init`, whatever the links were.
pub list_init-Linked :
    (list : ℕ) (links : Links)
    → list ≢ 0
    → Returns (λ links'. Linked links' list []) (list_init list links)
unfolding list_init set_next set_prev
list_init-Linked list links there = rw (through_entry list there) (record {
  chain = (set-at links.next list list, set-at links.prev list list);
  distinct = (λ o. elim o [ inl e ↦ there (sym e) | inr none' ↦ none' ], ((λ o. o), tt));
  idle = ap (λ (v : Validator). v.owner) (set-at links.validators list validator_init) ∙ init-idle;
})

-- A list that no thread is in can be destroyed.
pub list_destroy-Linked :
    (list : ℕ) (xs : List ℕ) (links : Links)
    → Linked links list xs
    → list_destroy list links ≡ ok tt
unfolding list_destroy validator_destroy
list_destroy-Linked list xs links l = rw (eq→== (links.validators list).owner 0 l.idle) refl

rounds :
    (fuel self list a : ℕ) (xs : List ℕ) (links : Links)
    → Chain links.next links.prev a xs list
    → Distinct (0 ∷ list ∷ xs)
    → length xs < fuel
    → for_each_from fuel self list (links.next a) links ≡ ok (some (xs, exit self list links))
unfolding for_each_from
rounds zero self list a xs links c d enough = absurd (omega arith)
rounds (suc fuel) self list a [] links (n, p) d enough = rw (eq→== (links.next a) list n) refl
rounds (suc fuel) self list a (x ∷ xs) links (n, p, c) (null, (new, (fresh, d))) enough =
    rw
      (
        n,
        ne→== x list (λ e. new (inl (sym e))),
        through_entry x (λ e. null (inr (inl (sym e)))),
        rounds fuel self list x xs links c
            (
              (λ o. elim o [ inl e ↦ null (inl e) | inr o' ↦ null (inr (inr o')) ]),
              ((λ o. new (inr o)), d),
            )
            (omega arith),
      )
      (ap (λ y. ok (some (y ∷ xs, exit self list links))) n)

-- `list_for_each` with a round more than there are entries sees them all, in order, and leaves the
-- list as it was.
pub list_for_each-Linked :
    (fuel self list : ℕ) (xs : List ℕ) (links : Links)
    → Linked links list xs
    → length xs < fuel
    → (links' : Links) × (list_for_each fuel self list links ≡ ok (some (xs, links')))
      × Linked links' list xs
unfolding list_for_each
list_for_each-Linked fuel self list xs links l enough = (
  exit self list (enter self list links),
  rw
      (
        through_entry list (λ e. (l.distinct).0 (inl (sym e))),
        rounds fuel self list list xs (enter self list links) l.chain l.distinct enough,
      )
      refl,
  record {
    chain = l.chain;
    distinct = l.distinct;
    idle = left_idle self list links links.next links.prev l.idle;
  },
)
