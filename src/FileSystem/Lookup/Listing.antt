-- ===== src/FileSystem/Lookup/Listing.antt =====
-- The entries of a directory, and what `helper` finds among them.
use uoft_operating_systems.Common.{
  ℕ, zero, suc, ◌+◌, ◌*◌, ◌/◌, ◌≤◌, ◌≡◌, refl, sym, ap, ◌∙◌, Bool, true, false, Option, none, some,
  List, [], ◌∷◌, ◌++◌, append-nil, append_assoc, ok, ◌>>=◌, ltb, lt→ltb, if◌then◌else◌, length,
  take, length-append, length-take, take-append_at, arith, inl, inr, Bool-cases,
}
use uoft_operating_systems.FileSystem.Disk.{Disk, Inode, Dentry, extent_at}
use uoft_operating_systems.FileSystem.Text.{same_text}
use uoft_operating_systems.FileSystem.Lookup.{scan_slots, scan_blocks, scan_extents, search, helper}

-- The slots of a run of slots, of the blocks of an extent, and of the extents of an inode.
unfoldable pub slots_from : Disk → ℕ → ℕ → List Dentry
slots_from d zero slot = []
slots_from d (suc n) slot = d.entries slot ∷ slots_from d n (suc slot)

unfoldable pub blocks_from : Disk → ℕ → ℕ → List Dentry
unfolding slots_from
blocks_from d zero j = []
blocks_from d (suc n) j = slots_from d 16 (j * 16) ++ blocks_from d n (suc j)

unfoldable pub extents_from : Disk → ℕ → ℕ → ℕ → List Dentry
unfolding blocks_from
extents_from d ino zero i = []
extents_from d ino (suc n) i =
    blocks_from d (d.extents ino i).count (d.extents ino i).start ++ extents_from d ino n (suc i)

-- As many of them as the size of the directory says.
unfoldable pub listing : Disk → Inode → List Dentry
unfolding extents_from
listing d inode = take (inode.size / 256) (extents_from d inode.ino_number inode.extent_count 0)

-- The first of two answers.
abbrev pub or_else : Option ℕ → Option ℕ → Option ℕ
or_else none other = other
or_else (some ino) other = some ino

-- The inode of the last entry with a name.
unfoldable pub find_last : List ℕ → List Dentry → Option ℕ
find_last name [] = none
find_last name (e ∷ es) =
    or_else (find_last name es) (if same_text e.name name then some e.ino else none)

-- At most 512 entries in at most 512 extents: the arrays of the code suffice.
pub record Fits (inode : Inode) : Type 0 where
  pub few_entries : inode.size / 256 ≤ 512
  pub few_extents : inode.extent_count ≤ 512

take_all : {A : Type 0} (n : ℕ) (xs : List A) → length xs ≤ n → take n xs ≡ xs
take_all zero [] h = refl
take_all zero (x ∷ xs) h = absurd (omega arith)
take_all (suc n) [] h = refl
take_all (suc n) (x ∷ xs) h = ap (λ t. x ∷ t) (take_all n xs (omega arith))

take-take_append :
    {A : Type 0} (n : ℕ) (xs ys : List A) → take n (take n xs ++ ys) ≡ take n (xs ++ ys)
take-take_append zero xs ys = refl
take-take_append (suc n) [] ys = refl
take-take_append (suc n) (x ∷ xs) ys = ap (λ t. x ∷ t) (take-take_append n xs ys)

module _ (d : Disk) (entry_count : ℕ) (few : entry_count ≤ 512) where
  scan_slots_exact :
      (n slot : ℕ) (found : List Dentry)
      → length found ≤ entry_count
      → scan_slots d entry_count n slot found ≡ ok (take entry_count (found ++ slots_from d n slot))
  unfolding scan_slots slots_from
  scan_slots_exact zero slot found h =
      ap ok (sym (take_all entry_count found h) ∙ ap (take entry_count) (sym (append-nil found)))
  scan_slots_exact (suc n) slot found h = elim (Bool-cases (ltb (length found) entry_count)) [
    | inl more ↦
        rw (more, lt→ltb (length found) 512 (ground arith))
          (scan_slots_exact n (suc slot) (found ++ d.entries slot ∷ [])
              (ground (arith, length-append found (d.entries slot ∷ [])))
            ∙ ap (λ t. ok (take entry_count t))
                (append_assoc found (d.entries slot ∷ []) (slots_from d n (suc slot))))
    | inr full ↦ rw full (ap ok (sym (take-append_at entry_count found _ (ground arith))))
  ]

  bounded : (xs : List Dentry) → length (take entry_count xs) ≤ entry_count
  bounded xs = omega (arith, length-take entry_count xs)

  scan_blocks_exact :
      (n j : ℕ) (found : List Dentry)
      → length found ≤ entry_count
      → scan_blocks d entry_count n j found ≡ ok (take entry_count (found ++ blocks_from d n j))
  unfolding scan_blocks blocks_from
  scan_blocks_exact zero j found h =
      ap ok (sym (take_all entry_count found h) ∙ ap (take entry_count) (sym (append-nil found)))
  scan_blocks_exact (suc n) j found h =
      ap (λ m. m >>= scan_blocks d entry_count n (suc j)) (scan_slots_exact 16 (j * 16) found h)
      ∙ scan_blocks_exact n (suc j) (take entry_count (found ++ slots_from d 16 (j * 16)))
          (bounded (found ++ slots_from d 16 (j * 16)))
      ∙ ap ok (
          take-take_append entry_count (found ++ slots_from d 16 (j * 16)) (blocks_from d n (suc j))
          ∙ ap (take entry_count)
              (append_assoc found (slots_from d 16 (j * 16)) (blocks_from d n (suc j))))

  scan_extents_exact :
      (ino n i : ℕ) (found : List Dentry)
      → n + i ≤ 512
      → length found ≤ entry_count
      → scan_extents d entry_count ino n i found
        ≡ ok (take entry_count (found ++ extents_from d ino n i))
  unfolding scan_extents extents_from extent_at
  scan_extents_exact ino zero i found room h =
      ap ok (sym (take_all entry_count found h) ∙ ap (take entry_count) (sym (append-nil found)))
  scan_extents_exact ino (suc n) i found room h =
      let here = blocks_from d (d.extents ino i).count (d.extents ino i).start in
      rw (lt→ltb i 512 (omega arith)) (
        ap (λ m. m >>= scan_extents d entry_count ino n (suc i))
          (scan_blocks_exact (d.extents ino i).count (d.extents ino i).start found h)
        ∙ scan_extents_exact ino n (suc i) (take entry_count (found ++ here)) (omega arith)
            (bounded (found ++ here))
        ∙ ap ok (
            take-take_append entry_count (found ++ here) (extents_from d ino n (suc i))
            ∙ ap (take entry_count) (append_assoc found here (extents_from d ino n (suc i)))))

search_exact :
    (es : List Dentry) (name : List ℕ) (result : Option ℕ)
    → search es name result ≡ or_else (find_last name es) result
unfolding search find_last
search_exact [] name result = refl
search_exact (e ∷ es) name result =
    search_exact es name (if same_text e.name name then some e.ino else result)
    ∙ merge (find_last name es) (same_text e.name name)
  where
    merge :
        (r : Option ℕ) (same : Bool)
        → or_else r (if same then some e.ino else result)
          ≡ or_else (or_else r (if same then some e.ino else none)) result
    merge (some ino) same = refl
    merge none true = refl
    merge none false = refl

-- The scan of a directory sees its listing.
pub scan-listing :
    (d : Disk) (root : Inode)
    → Fits root
    → scan_extents d (root.size / 256) root.ino_number root.extent_count 0 [] ≡ ok (listing d root)
unfolding listing
scan-listing d root f =
    scan_extents_exact d (root.size / 256) f.few_entries root.ino_number root.extent_count 0 []
      (omega (arith, f.few_extents)) (omega arith)

-- On a directory of at most 512 entries and 512 extents, `helper` stays within its arrays, and gives
-- the inode of the last entry of the directory's listing that has the name, -ENOENT if none has.
pub helper-find_last :
    (d : Disk) (root : Inode) (name : List ℕ)
    → Fits root
    → helper d root name ≡ ok (find_last name (listing d root))
unfolding helper
helper-find_last d root name f =
    rw (scan-listing d root f)
      (ap ok (search_exact (listing d root) name none ∙ same (find_last name (listing d root))))
  where
    same : (r : Option ℕ) → or_else r none ≡ r
    same (some ino) = refl
    same none = refl
