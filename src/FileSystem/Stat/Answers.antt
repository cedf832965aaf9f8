-- ===== src/FileSystem/Stat/Answers.antt =====
-- What `a1fs_getattr` and `a1fs_readdir` answer.
use uoft_operating_systems.Common.{
  ℕ, zero, suc, ◌+◌, ◌*◌, ◌≤◌, ◌<◌, ◌^◌, ◌≡◌, ap, ◌∙◌, true, List, ◌∷◌, ok, Returns, Returns-bind,
  lt→ltb, lt→leb, length, arith,
}
use uoft_operating_systems.FileSystem.Disk.{
  Disk, Inode, Reply, done, enoent, enotdir, is_directory, extent_at,
}
use uoft_operating_systems.FileSystem.Text.{tokens}
use uoft_operating_systems.FileSystem.Lookup.{
  PathResult, inode, not_found, not_directory, not_absolute, is_absolute, path_inode,
}
use uoft_operating_systems.FileSystem.Lookup.Resolve.{Leads, further, AllFit, path_inode-Leads}
use uoft_operating_systems.FileSystem.Stat.{Stat, count_blocks, sectors, respond, getattr, names}

-- The blocks of `n` extents from the extent `i` on.
unfoldable pub blocks_of : Disk → ℕ → ℕ → ℕ → ℕ
blocks_of d ino zero i = 0
blocks_of d ino (suc n) i = (d.extents ino i).count + blocks_of d ino n (suc i)

-- At most 512 extents, and less than 2 GB of blocks.
pub record Sized (d : Disk) (ino : ℕ) : Type 0 where
  pub few_extents : (d.inodes ino).extent_count ≤ 512
  pub few_blocks : blocks_of d ino (d.inodes ino).extent_count 0 < 2 ^ 19

count_blocks_exact :
    (d : Disk) (ino n i acc : ℕ)
    → n + i ≤ 512
    → acc + blocks_of d ino n i < 2 ^ 32
    → count_blocks d ino n i acc ≡ ok (acc + blocks_of d ino n i)
unfolding count_blocks blocks_of extent_at
count_blocks_exact d ino zero i acc room small = ap ok (omega arith)
count_blocks_exact d ino (suc n) i acc room small = rw (lt→ltb i 512 (omega arith)) (
    ap (count_blocks d ino n (suc i)) (omega arith)
    ∙ count_blocks_exact d ino n (suc i) (acc + (d.extents ino i).count) (omega arith) (omega arith)
    ∙ ap ok (omega arith))

sectors_exact : (b : ℕ) → b < 2 ^ 19 → sectors b ≡ ok (8 * b)
unfolding sectors
sectors_exact b small = rw (lt→ltb (b * 4096) (2 ^ 31) (omega arith)) (ap ok (omega arith))

Leads-absolute : (d : Disk) (at : Inode) (names : List (List ℕ)) → Leads d at names not_absolute → ⊥
Leads-absolute d at names (further _ _ _ _ ino _ _ _ l) = Leads-absolute d (d.inodes ino) _ l

-- The attributes of an inode: those that it holds, eight sectors for each block, and no time.
abbrev pub attributes : Disk → ℕ → Stat
attributes d n = record {
  ino = n;
  mode = (d.inodes n).mode;
  nlink = (d.inodes n).links;
  size = (d.inodes n).size;
  blocks = 8 * blocks_of d n (d.inodes n).extent_count 0;
  mtim = 0;
}

-- The answer on a path that leads somewhere.
pub data Answers (d : Disk) : PathResult → Reply Stat → Type 0 where
  missing : Answers d not_found enoent
  blocked : Answers d not_directory enotdir
  here : (n : ℕ) → Answers d (inode n) (done (attributes d n))

-- On a file system whose directories fit, with a directory as its root, and whose inodes each have at
-- most 512 extents and less than 2^19 blocks: for a path of less than 4096 bytes that starts with a
-- slash and has a name in it, `a1fs_getattr` answers ENOENT or ENOTDIR when its names lead
-- nowhere, and else the number, mode, links, size and eight sectors for each block of the inode
-- that they lead to, with a time of 0.
pub getattr-Answers :
    (d : Disk)
    → AllFit d
    → ((n : ℕ) → Sized d n)
    → (path name : List ℕ) (rest : List (List ℕ)) → is_directory (d.inodes 0) ≡ true
    → is_absolute path ≡ true
    → tokens path ≡ name ∷ rest
    → length path < 4096
    → Returns
        (λ reply. (r : PathResult) × Leads d (d.inodes 0) (name ∷ rest) r × Answers d r reply)
        (getattr d path)
unfolding getattr respond
getattr-Answers d fit sized path name rest root absolute named short =
    rw (lt→leb 4096 (length path) short) (
      Returns-bind (Leads d (d.inodes 0) (name ∷ rest)) _ (path_inode d path) _
        (path_inode-Leads d fit path name rest root absolute named short) answer)
  where
    exact :
        (n : ℕ)
        → count_blocks d n (d.inodes n).extent_count 0 0
          ≡ ok (blocks_of d n (d.inodes n).extent_count 0)
    exact n =
        count_blocks_exact d n (d.inodes n).extent_count 0 0 (omega (arith, (sized n).few_extents))
          (omega (arith, (sized n).few_blocks))
        ∙ ap ok (omega arith)

    measured :
        (n : ℕ)
        → sectors (blocks_of d n (d.inodes n).extent_count 0)
          ≡ ok (8 * blocks_of d n (d.inodes n).extent_count 0)
    measured n = sectors_exact (blocks_of d n (d.inodes n).extent_count 0) ((sized n).few_blocks)

    answer :
        (r : PathResult)
        → Leads d (d.inodes 0) (name ∷ rest) r
        → Returns
            (λ reply. (r : PathResult) × Leads d (d.inodes 0) (name ∷ rest) r × Answers d r reply)
            (respond d r)
    answer not_found l = (not_found, l, missing)
    answer not_directory l = (not_directory, l, blocked)
    answer not_absolute l = absurd (Leads-absolute d (d.inodes 0) (name ∷ rest) l)
    answer (inode n) l = rw (exact n, measured n) (inode n, l, here n)
