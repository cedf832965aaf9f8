-- ===== src/FileSystem/Remove/Free.antt =====
-- The bits of the blocks that are given back.
use uoft_operating_systems.Common.{
  ℕ, zero, suc, ◌+◌, ◌*◌, ◌<◌, ◌≤◌, ◌≡◌, refl, sym, ap, ◌∙◌, arith, Bool, true, false, ◌&&◌, ◌||◌,
  List, [], length, Run, ok, stop, ltb, leb, ◌==◌, if◌then◌else◌, lt→ltb, if-false,
}
use uoft_operating_systems.Bitmap.{modify}
use uoft_operating_systems.Bitmap.Laws.{bit_at, modify-bit_at}
use uoft_operating_systems.FileSystem.Disk.{Disk, Superblock, Extent, extent_at, add_uint}
use uoft_operating_systems.FileSystem.Remove.{clear_range, clear_extents, release_extents}

abbrev inside : ℕ → ℕ → ℕ → Bool
inside m n j = leb m j && ltb j (m + n)

-- Whether the block `j` is one of those of `n` extents from the extent `i` on.
unfoldable pub owned : (ℕ → Extent) → ℕ → ℕ → ℕ → Bool
owned extents zero i j = false
owned extents (suc n) i j =
    inside (extents i).start (extents i).count j || owned extents n (suc i) j

-- The extents lie within a map, and their array.
pub record Inside (extents : ℕ → Extent) (n i bits : ℕ) : Type 0 where
  pub few : n + i ≤ 512
  pub ends : (x : ℕ) → i ≤ x → x < n + i → (extents x).start + (extents x).count ≤ bits

-- A map in which just those bits are cleared for which the test holds.
pub record Cleared (map : List ℕ) (test : ℕ → Bool) (map' : List ℕ) : Type 0 where
  pub same_length : length map' ≡ length map
  pub bits :
      (j : ℕ) → j < 8 * length map → bit_at map' j ≡ (if test j then ok false else bit_at map j)

Cleared-nothing :
    (map : List ℕ) (test : ℕ → Bool) → ((j : ℕ) → test j ≡ false) → Cleared map test map
Cleared-nothing map test none = record {
  same_length = refl;
  bits = λ j l. sym (if-false _ _ (test j) (none j));
}

Cleared-ext :
    (map map' : List ℕ) (f g : ℕ → Bool)
    → ((j : ℕ) → f j ≡ g j)
    → Cleared map f map'
    → Cleared map g map'
Cleared-ext map map' f g same c = record {
  same_length = c.same_length;
  bits = λ j l. c.bits j l ∙ ap (λ b. if b then ok false else bit_at map j) (same j);
}

Cleared-then :
    (a b c : List ℕ) (f g : ℕ → Bool)
    → Cleared a f b
    → Cleared b g c
    → Cleared a (λ j. f j || g j) c
Cleared-then a b c f g first second = record {
  same_length = second.same_length ∙ first.same_length;
  bits = λ j l.
      second.bits j (omega (arith, first.same_length))
      ∙ ap (λ r. if g j then ok false else r) (first.bits j l)
      ∙ merge (f j) (g j) (bit_at a j);
}
  where
    merge :
        (x y : Bool) (r : Run Bool)
        → (if y then ok false else (if x then ok false else r)) ≡ (if x || y then ok false else r)
    merge true true r = refl
    merge true false r = refl
    merge false true r = refl
    merge false false r = refl

pub modify-Cleared :
    (map : List ℕ) (m : ℕ)
    → m < 8 * length map
    → (map' : List ℕ) × (modify map m 0 ≡ ok map') × Cleared map (λ j. j == m) map'
modify-Cleared map m h =
    let (map', e, len, _) = modify-bit_at map m 0 m h h in
    (
      map',
      e,
      record {
        same_length = len;
        bits = λ j l.
            let (map₂, e₂, _, bit) = modify-bit_at map m 0 j h l in
            ap (λ r. bit_at (value r) j) (sym e ∙ e₂) ∙ bit;
      },
    )
  where
    value : Run (List ℕ) → List ℕ
    value (ok xs) = xs
    value (stop _) = []

clear_range-Cleared :
    (n m : ℕ) (map : List ℕ)
    → m + n ≤ 8 * length map
    → (map' : List ℕ) × (clear_range n m map ≡ ok map') × Cleared map (inside m n) map'
unfolding clear_range
clear_range-Cleared zero m map h = (map, refl, Cleared-nothing map (inside m 0) (λ j. ground arith))
clear_range-Cleared (suc n) m map h =
    let (map₁, e, c₁) = modify-Cleared map m (omega arith) in
    let (map', e', c) = clear_range-Cleared n (suc m) map₁ (omega (arith, c₁.same_length)) in
    (
      map',
      rw e e',
      Cleared-ext map map' (λ j. (j == m) || inside (suc m) n j) (inside m (suc n))
          (λ j. ground arith) (Cleared-then map map₁ map' _ _ c₁ c),
    )

-- The bits of the blocks of an inode are cleared, and no others.
pub clear_extents-Cleared :
    (n i ino : ℕ) (d : Disk)
    → Inside (d.extents ino) n i (8 * length d.data_map)
    → (map' : List ℕ) × (clear_extents d ino n i ≡ ok (record d { data_map = map' }))
      × Cleared d.data_map (owned (d.extents ino) n i) map'
unfolding clear_extents owned extent_at
clear_extents-Cleared zero i ino d h =
    (d.data_map, refl, Cleared-nothing d.data_map (λ j. false) (λ j. refl))
clear_extents-Cleared (suc n) i ino d h =
    let here = d.extents ino i in
    let (map₁, e, c₁) =
      clear_range-Cleared here.count here.start d.data_map (h.ends i (omega arith) (omega arith)) in
    let (map', e', c) =
      clear_extents-Cleared n (suc i) ino (record d { data_map = map₁ })
        (record {
          few = omega (arith, h.few);
          ends = λ x l r. omega (arith, h.ends x (omega arith) (omega arith), c₁.same_length);
        }) in
    (
      map',
      rw (lt→ltb i 512 (omega (arith, h.few)), e) e',
      Cleared-then d.data_map map₁ map' _ _ c₁ c,
    )

pub release_extents-Cleared :
    (n i ino : ℕ) (d : Disk)
    → Inside (d.extents ino) n i (8 * length d.data_map)
    → (map' : List ℕ) × (sb' : Superblock) × (release_extents d ino n i
        ≡ ok (record d { data_map = map'; sb = sb' }))
      × Cleared d.data_map (owned (d.extents ino) n i) map'
      × (sb'.start_inode ≡ d.sb.start_inode)
      × (sb'.start_extent ≡ d.sb.start_extent)
unfolding release_extents owned extent_at
release_extents-Cleared zero i ino d h =
    (d.data_map, d.sb, refl, Cleared-nothing d.data_map (λ j. false) (λ j. refl), refl, refl)
release_extents-Cleared (suc n) i ino d h =
    let here = d.extents ino i in
    let (map₁, e, c₁) =
      clear_range-Cleared here.count here.start d.data_map (h.ends i (omega arith) (omega arith)) in
    let d₁ : Disk = record d {
      data_map = map₁;
      sb = record (d.sb) { free_blocks_count = add_uint d.sb.free_blocks_count here.count };
    } in
    let (map', sb', e', c, s₁, s₂) = release_extents-Cleared n (suc i) ino d₁ (record {
      few = omega (arith, h.few);
      ends = λ x l r. omega (arith, h.ends x (omega arith) (omega arith), c₁.same_length);
    }) in
    (
      map',
      sb',
      rw (lt→ltb i 512 (omega (arith, h.few)), e) e',
      Cleared-then d.data_map map₁ map' _ _ c₁ c,
      s₁,
      s₂,
    )
