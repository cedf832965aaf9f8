-- ===== src/Intrusive.antt =====
-- a2_message_queue/list.h: doubly-linked lists through pointers that lie in the entries. An entry is
-- known by its address, 0 is NULL, and a list by the address of its `head`, which lies at its start.
-- `self` is the calling thread.
pub mod Chain
pub mod Linked
pub mod Insert
pub mod Delete
pub mod Walk
pub mod Client
mod Tests
use uoft_operating_systems.Common.{
  ℕ, zero, suc, Bool, not, Option, none, some, List, [], ◌∷◌, Run, ok, stop, null_dereference,
  ◌>>=◌, ◌>>◌, ◌==◌, if◌then◌else◌,
}
use uoft_operating_systems.Common.Update.{set}
use uoft_operating_systems.Validator.{
  Validator, validator_init, validator_destroy, validator_enter, validator_exit,
}

-- The fields of all entries, and the validators of the lists.
pub record Links : Type 0 where
  pub next : ℕ → ℕ
  pub prev : ℕ → ℕ
  pub validators : ℕ → Validator

-- A pointer that is used is not NULL.
unfoldable pub through : ℕ → Run (Unit {0})
through entry = if entry == 0 then stop null_dereference else ok tt

-- `entry->next = x`, and `entry->prev = x`.
unfoldable pub set_next : ℕ → ℕ → Links → Run Links
set_next entry x links = do through entry; ok (record links { next = set links.next entry x })

unfoldable pub set_prev : ℕ → ℕ → Links → Run Links
set_prev entry x links = do through entry; ok (record links { prev = set links.prev entry x })

abbrev pub enter : ℕ → ℕ → Links → Links
enter self list links = record links {
  validators = set links.validators list (validator_enter self (links.validators list));
}

abbrev pub exit : ℕ → ℕ → Links → Links
exit self list links = record links {
  validators = set links.validators list (validator_exit self (links.validators list));
}

unfoldable pub list_init : ℕ → Links → Run Links
list_init list links = do
  links₁ ← set_next list list links
  links₂ ← set_prev list list links₁
  ok (record links₂ { validators = set links₂.validators list validator_init })

unfoldable pub list_destroy : ℕ → Links → Run (Unit {0})
list_destroy list links = validator_destroy (links.validators list)

unfoldable pub list_entry_init : ℕ → Links → Run Links
unfolding set_next set_prev
list_entry_init entry links = do links₁ ← set_next entry 0 links; set_prev entry 0 links₁

unfoldable pub list_entry_is_linked : ℕ → Links → Run Bool
list_entry_is_linked entry links = do through entry; ok (not (links.next entry == 0))

-- `__list_insert`.
unfoldable pub list_insert : ℕ → ℕ → ℕ → ℕ → ℕ → Links → Run Links
list_insert self list entry prev next links = do
  links₁ ← set_prev next entry (enter self list links)
  links₂ ← set_next entry next links₁
  links₃ ← set_prev entry prev links₂
  links₄ ← set_next prev entry links₃
  ok (exit self list links₄)

unfoldable pub list_add_head : ℕ → ℕ → ℕ → Links → Run Links
list_add_head self list entry links = do
  through list
  list_insert self list entry list (links.next list) links

unfoldable pub list_add_tail : ℕ → ℕ → ℕ → Links → Run Links
list_add_tail self list entry links = do
  through list
  list_insert self list entry (links.prev list) list links

unfoldable pub list_del : ℕ → ℕ → ℕ → Links → Run Links
unfolding list_entry_init
list_del self list entry links = do
  through entry
  links₁ ← set_prev (links.next entry) (links.prev entry) (enter self list links)
  links₂ ← set_next (links₁.prev entry) (links₁.next entry) links₁
  list_entry_init entry (exit self list links₂)

-- The rounds of `list_for_each` from the entry `pos` on: the entries that its body sees, if `fuel`
-- rounds are enough, and the links afterwards.
unfoldable pub for_each_from : ℕ → ℕ → ℕ → ℕ → Links → Run (Option (List ℕ × Links))
for_each_from zero self list pos links = ok none
for_each_from (suc fuel) self list pos links =
    let rest = (do through pos; for_each_from fuel self list (links.next pos) links) in
    if pos == list then ok (some ([], exit self list links)) else (do
      seen ← rest
      ok (elim seen [ none ↦ none | some (entries, links') ↦ some (pos ∷ entries, links') ]))

unfoldable pub list_for_each : ℕ → ℕ → ℕ → Links → Run (Option (List ℕ × Links))
list_for_each fuel self list links = do
  through list
  for_each_from fuel self list (links.next list) (enter self list links)
