-- ===== src/FileSystem/Content/Rounds.antt =====
-- The rounds of the loop in `a1fs_truncate` over the extents.
use uoft_operating_systems.Common.{
  IfReturns, after_any, after_value, bind_agree, ℕ, zero, suc, ◌+◌, ◌-◌, ◌≤◌, ◌≡◌, refl, sym, ap,
  ◌∙◌, arith, ok, ◌==◌, ltb, leb, le→leb, if◌then◌else◌, if-true, if-false, Bool-cases, inl, inr,
}
use uoft_operating_systems.Common.Update.{set-at}
use uoft_operating_systems.Bitmap.{modify}
use uoft_operating_systems.FileSystem.Disk.{Disk, Extent, extent_at, set_inode}
use uoft_operating_systems.FileSystem.Content.{set_extent}
use uoft_operating_systems.FileSystem.Content.Resize.{
  Shrink, shrink_blocks, shrink_extent, shrink_extents,
}

-- What the blocks of an extent leave of the count: that before, or the number of the extent.
shrink_blocks-result1 :
    (ino i total start n j bound : ℕ) (s : Shrink)
    → i ≤ bound
    → s.result1 ≤ bound
    → IfReturns (λ s'. s'.result1 ≤ bound) (shrink_blocks ino i total start n j s)
unfolding shrink_blocks
shrink_blocks-result1 ino i total start zero j bound s low before = before
shrink_blocks-result1 ino i total start (suc n) j bound s low before =
    after_any _ (extent_at s.disk ino i) _ (λ e.
      after_any _
        (if s.w == total
          then set_extent s.disk ino i (record e { count = j - start + 1 })
          else ok s.disk)
        _
        (λ d₁.
          after_any _ (if ltb total s.w then modify d₁.data_map j 0 else ok d₁.data_map) _
            (λ map'. shrink_blocks-result1 ino i total start n (suc j) bound _ low (ground arith))))

set_extent-inodes :
    (d : Disk) (ino i : ℕ) (e : Extent)
    → IfReturns (λ d'. d'.inodes ≡ d.inodes) (set_extent d ino i e)
unfolding set_extent
set_extent-inodes d ino i e = elim (Bool-cases (ltb i 512)) [
  | inl fits ↦ rw fits refl
  | inr past ↦ rw past tt
]

-- The number of extents and the count that is to be set are at most `bound`.
pub record Bounded (ino bound : ℕ) (s : Shrink) : Type 0 where
  pub extents : (s.disk.inodes ino).extent_count ≤ bound
  pub result : s.result1 ≤ bound

shrink_extent-Bounded :
    (ino total i bound : ℕ) (s : Shrink)
    → i ≤ bound
    → Bounded ino bound s
    → IfReturns (Bounded ino bound) (shrink_extent ino total i s)
unfolding shrink_extent
shrink_extent-Bounded ino total i bound s low b = after_any _ (extent_at s.disk ino i) _ (λ e.
    after_value (λ s'. s'.result1 ≤ bound) _ (shrink_blocks ino i total e.start e.count e.start s) _
      (shrink_blocks-result1 ino i total e.start e.count e.start bound s low b.result)
      (λ s' few.
        let d₁ =
          set_inode s'.disk ino (record (s'.disk.inodes ino) { extent_count = s'.result1 }) in
        after_any _ (extent_at d₁ ino i) _ (λ e'.
          after_value (λ d₂. d₂.inodes ≡ d₁.inodes) _
            (set_extent d₁ ino i (record e' { count = s'.result2 })) _
            (set_extent-inodes d₁ ino i _)
            (λ d₂ same. record {
              extents = omega (
                arith,
                few,
                ap (λ f. (f ino).extent_count) same
                    ∙ ap (λ x. x.extent_count) (set-at s'.disk.inodes ino _),
              );
              result = few;
            }))))

more_rounds :
    (ino total n m i bound : ℕ) (s : Shrink)
    → bound ≤ n + i
    → i ≤ bound
    → Bounded ino bound s
    → shrink_extents ino total (n + m) i s ≡ shrink_extents ino total n i s
unfolding shrink_extents
more_rounds ino total zero zero i bound s enough low b = refl
more_rounds ino total zero (suc m) i bound s enough low b =
    let rounds : 0 + suc m ≡ suc m = omega arith in
    ap (λ k. shrink_extents ino total k i s) rounds
    ∙ if-true _ _ _ (le→leb (s.disk.inodes ino).extent_count i (omega (arith, b.extents)))
more_rounds ino total (suc n) m i bound s enough low b =
    let rounds : suc n + m ≡ suc (n + m) = omega arith in
    ap (λ k. shrink_extents ino total k i s) rounds
    ∙ elim (Bool-cases (leb (s.disk.inodes ino).extent_count i)) [
      | inl end ↦ if-true _ _ _ end ∙ sym (if-true _ _ _ end)
      | inr more ↦
          let inside : suc i ≤ bound = ground (arith, b.extents) in
          if-false _ _ _ more
          ∙ bind_agree (Bounded ino bound) _ _ (shrink_extent ino total i s)
              (shrink_extent-Bounded ino total i bound s low b)
              (λ s' b'. more_rounds ino total n m (suc i) bound s' (omega arith) inside b')
          ∙ sym (if-false _ _ _ more)
    ]

-- The loop of `a1fs_truncate` that shrinks a file ends within as many rounds as the inode has extents at its
-- start, though it changes this number: more rounds change nothing, when the count that it is to set is
-- at first this number too.
pub shrink_extents-rounds :
    (ino total m : ℕ) (s : Shrink)
    → s.result1 ≡ (s.disk.inodes ino).extent_count
    → shrink_extents ino total ((s.disk.inodes ino).extent_count + m) 0 s
      ≡ shrink_extents ino total (s.disk.inodes ino).extent_count 0 s
shrink_extents-rounds ino total m s same =
    more_rounds ino total (s.disk.inodes ino).extent_count m 0 (s.disk.inodes ino).extent_count s
      (omega arith) (omega arith) (record { extents = omega arith; result = omega (arith, same) })
