-- ===== src/FileSystem/Remove/Entry.antt =====
-- The scan of `a1fs_rmdir` and `a1fs_unlink` in a directory of one block.
use uoft_operating_systems.Common.{
  ℕ, zero, suc, ◌+◌, ◌-◌, ◌*◌, ◌%◌, ◌<◌, ◌^◌, ◌≡◌, refl, sym, ap, ◌∙◌, arith, true, false, none,
  some, List, ◌∷◌, ok, ◌>>=◌, if-true, if-false, eq→==, ne→==, le→ltb, Bool-cases, inl, inr,
}
use mathlib.Core.Path.{subst}
use uoft_operating_systems.Common.Update.{set, set-at, set-else}
use uoft_operating_systems.FileSystem.Disk.{Disk, Inode, Dentry, last_extent, extent_at}
use uoft_operating_systems.FileSystem.Text.{same_text}
use uoft_operating_systems.FileSystem.Lookup.Listing.{slots_from, or_else, find_last}
use uoft_operating_systems.FileSystem.Directory.{slots_from-last, slots_from-ext}
use uoft_operating_systems.FileSystem.Remove.TakeOut.{
  bring_last, take_out, bring_last-last, impossible, or_else-none,
}
use uoft_operating_systems.FileSystem.Remove.{
  last_entry, remove_slots, remove_blocks, remove_extents,
}

-- The entries with the name taken out of the `suc r` of them from the place `x` on.
record Removal (d : Disk) (name : List ℕ) (base x r : ℕ) (entries' : ℕ → Dentry) : Type 0 where
  kept : (y : ℕ) → y < base + x → entries' y ≡ d.entries y
  taken :
      slots_from (record d { entries = entries' }) r (base + x)
      ≡ take_out name (slots_from d (suc r) (base + x))

module _ (d : Disk) (parent : Inode) (p block k : ℕ) (name : List ℕ)
    (one_extent : parent.extent_count ≡ 1)
    (extent : d.extents p 0 ≡ record { start = block; count = 1 }) (some_entry : 0 < k)
    (room : k < 16) (below : block < 2 ^ 31) where
  last_entry_exact : 1 < k → last_entry d parent p k ≡ ok (block * 16 + (k - 1))
  unfolding last_entry last_extent extent_at
  last_entry_exact h =
      rw (one_extent, extent)
        (if-false _ _ _ (le→ltb ((block + 1) % 2 ^ 32 * 16 + k) 17 (omega arith))
          ∙ ap ok (omega arith))

  abbrev base : ℕ
  base = block * 16

  Outcome : ℕ → ℕ → ℕ → Type 0
  Outcome r n x =
      (entries' : ℕ → Dentry) × (remove_slots d parent p k name block n x ≡ ok (some entries'))
      × Removal d name base x r entries'

  -- The name is that of the last entry.
  here_last :
      (n x : ℕ)
      → suc x ≡ k
      → same_text (d.entries (base + x)).name name ≡ true
      → Outcome 0 (suc n) x
  unfolding Outcome remove_slots slots_from take_out bring_last
  here_last n x e same = (
    d.entries,
    if-true _ _ _ same ∙ if-true _ _ _ (eq→== (suc x) k e),
    record { kept = λ y h. refl; taken = sym (if-true _ _ _ same) },
  )

  -- The last entry comes behind it.
  here_inner :
      (r n x : ℕ)
      → suc (suc r) + x ≡ k
      → same_text (d.entries (base + x)).name name ≡ true
      → Outcome (suc r) (suc n) x
  unfolding Outcome remove_slots slots_from take_out
  here_inner r n x e same = (
    moved,
    if-true _ _ _ same
        ∙ if-false _ _ _ (ne→== (suc x) k (λ h. omega arith))
        ∙ rw (last_entry_exact (omega arith)) refl,
    record {
      kept = λ y h. set-else d.entries (base + x) _ y (λ e'. omega arith);
      taken =
          ap (λ t. t ∷ slots_from (record d { entries = moved }) r (suc (base + x)))
            (set-at d.entries (base + x) _)
          ∙ ap (λ t. d.entries (base + (k - 1)) ∷ t)
              (slots_from-ext (record d { entries = moved }) d r (suc (base + x))
                (λ y l h. set-else d.entries (base + x) _ y (λ e'. omega arith)))
          ∙ ap (λ y. d.entries y ∷ slots_from d r (suc (base + x))) place
          ∙ sym (bring_last-last (slots_from d r (suc (base + x))) (d.entries (suc (base + x) + r)))
          ∙ ap bring_last (sym (slots_from-last d r (suc (base + x))))
          ∙ sym (if-true _ _ _ same);
    },
  )
    where
      moved : ℕ → Dentry
      moved = set d.entries (base + x) (d.entries (base + (k - 1)))

      place : base + (k - 1) ≡ suc (base + x) + r
      place = omega arith

  -- An entry of another name is passed over.
  passed :
      (r n x : ℕ)
      → same_text (d.entries (base + x)).name name ≡ false
      → Outcome r n (suc x)
      → Outcome (suc r) (suc n) x
  unfolding Outcome remove_slots slots_from take_out
  passed r n x other (entries', found, removal) = (
    entries',
    if-false _ _ _ other ∙ found,
    record {
      kept = λ y h. removal.kept y (omega arith);
      taken =
          ap (λ t. t ∷ slots_from (record d { entries = entries' }) r (suc (base + x)))
            (removal.kept (base + x) (omega arith))
          ∙ ap (λ t. d.entries (base + x) ∷ t) (shift removal.taken)
          ∙ sym (if-false _ _ _ other);
    },
  )
    where
      shift :
          slots_from (record d { entries = entries' }) r (base + suc x)
            ≡ take_out name (slots_from d (suc r) (base + suc x))
          → slots_from (record d { entries = entries' }) r (suc (base + x))
            ≡ take_out name (slots_from d (suc r) (suc (base + x)))
      shift h =
          let step : base + suc x ≡ suc (base + x) = omega arith in
          subst
            (λ y.
              slots_from (record d { entries = entries' }) r y
              ≡ take_out name (slots_from d (suc r) y))
            step h

  -- The scan of the block finds the entry.
  remove_slots-Outcome :
      (r n x ino : ℕ)
      → suc r + x ≡ k
      → n + x ≡ 16
      → find_last name (slots_from d (suc r) (base + x)) ≡ some ino
      → Outcome r n x
  unfolding slots_from find_last
  remove_slots-Outcome r zero x ino e rest found = absurd (omega arith)
  remove_slots-Outcome zero (suc n) x ino e rest found =
      elim (Bool-cases (same_text (d.entries (base + x)).name name)) [
        | inl same ↦ here_last n x (omega arith) same
        | inr other ↦ absurd (impossible (sym (if-false _ _ _ other) ∙ found))
      ]
  remove_slots-Outcome (suc r) (suc n) x ino e rest found =
      elim (Bool-cases (same_text (d.entries (base + x)).name name)) [
        | inl same ↦ here_inner r n x e same
        | inr other ↦
            passed r n x other
              (remove_slots-Outcome r n (suc x) ino (omega arith) (omega arith) (later other))
      ]
    where
      later :
          same_text (d.entries (base + x)).name name ≡ false
          → find_last name (slots_from d (suc r) (base + suc x)) ≡ some ino
      later other =
          let step : base + suc x ≡ suc (base + x) = omega arith in
          ap (λ y. find_last name (slots_from d (suc r) y)) step
          ∙ sym (or_else-none (find_last name (slots_from d (suc r) (suc (base + x)))))
          ∙ ap (or_else (find_last name (slots_from d (suc r) (suc (base + x)))))
              (sym (if-false _ _ _ other))
          ∙ found

  one_block :
      (entries' : ℕ → Dentry)
      → remove_slots d parent p k name block 16 0 ≡ ok (some entries')
      → remove_extents d parent p k name 1 0 ≡ ok (some entries')
  unfolding remove_extents remove_blocks extent_at
  one_block entries' scanned =
      let in_blocks : remove_blocks d parent p k name 1 block ≡ ok (some entries') =
        ap (λ m. m >>= λ removed. elim removed [ some es ↦ ok (some es) | none ↦ ok none ])
          scanned in
      rw extent (
        ap (λ m. m >>= λ removed. elim removed [ some es ↦ ok (some es) | none ↦ ok none ])
          in_blocks)

  -- The entries after the whole scan.
  pub remove_extents-take_out :
      (ino : ℕ)
      → find_last name (slots_from d k base) ≡ some ino
      → (entries' : ℕ → Dentry) × (remove_extents d parent p k name parent.extent_count 0
          ≡ ok (some entries'))
        × (slots_from (record d { entries = entries' }) (k - 1) base
            ≡ take_out name (slots_from d k base))
  unfolding Outcome
  remove_extents-take_out ino found =
      let count : suc (k - 1) ≡ k = omega arith in
      let start : base + 0 ≡ base = omega arith in
      let (entries', scanned, removal) = remove_slots-Outcome (k - 1) 16 0 ino (omega arith) refl (
        ap (λ y. find_last name (slots_from d (suc (k - 1)) y)) start
        ∙ ap (λ n. find_last name (slots_from d n base)) count
        ∙ found) in
      (
        entries',
        ap (λ n. remove_extents d parent p k name n 0) one_extent ∙ one_block entries' scanned,
        ap (slots_from (record d { entries = entries' }) (k - 1)) (sym start)
            ∙ removal.taken
            ∙ ap (λ y. take_out name (slots_from d (suc (k - 1)) y)) start
            ∙ ap (λ n. take_out name (slots_from d n base)) count,
      )
