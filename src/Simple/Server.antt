-- ===== src/Simple/Server.antt =====
-- simple/ops.go against an abstract server: a content for each file number. A procedure answers from
-- the contents, and a commit decides whether they change.
pub mod Reading
pub mod Writing
pub mod Sizing
use go_nfsd.Prelude.{
  ℕ, ◌+◌, ◌*◌, ◌≤◌, ◌≡◌, ◌≢◌, refl, sym, ap, ◌∙◌, Bool, true, false, inl, inr, Bool-cases, length,
  take, ltb, leb, ◌==◌, ==_iff, subst, if◌then◌else◌, Outcome, ok, arith,
}
use go_nfsd.External.World.{World, WorldLaws}
use go_nfsd.Nfstypes.{Bytes, NfsFh3, Nfsstat3, nfs3_ok, nfs3err_serverfault}
use go_nfsd.Simple.Layout.{block2addr}
use go_nfsd.Simple.Ops.{Nfs, valid_inum, with_lock}
use go_nfsd.Simple.Blocks.{data_bnum, Holds, Files}
use go_nfsd.Simple.Files.{OthersKept}

-- The contents with one file replaced.
abbrev pub update : (ℕ → Bytes) → ℕ → Bytes → ℕ → Bytes
update F i g j = if j == i then g else F j

module _ (W : World) (H : WorldLaws W) where
  -- The server's disk holds the contents `F`.
  abbrev pub Serves : Nfs W → (ℕ → Bytes) → Type 0
  Serves nfs F = Files W H (W.begin nfs.t) F

  Holds-read :
      (op op' : W.Op) {i : ℕ} {f : Bytes}
      → ((a : W.Addr) (n : ℕ) → W.read_buf op' a (n * 8) ≡ W.read_buf op a (n * 8))
      → Holds W H op i f
      → Holds W H op' i f
  Holds-read op op' {i} {f} same h = record {
    fits = h.fits;
    inode = same _ W.inodesz ∙ h.inode;
    content = ap (take (length f)) block ∙ h.content;
  }
    where
      block :
          W.read_buf op' (block2addr W (data_bnum W i)) W.nbitblock
          ≡ W.read_buf op (block2addr W (data_bnum W i)) W.nbitblock
      block = simp H.nbitblock_lem (same _ W.block_size)

  -- A commit that succeeds makes the operation's files the server's; a failed one keeps the old.
  pub commit_done-Files :
      (log : W.Log) (op : W.Op) {G : ℕ → Bytes}
      → (W.commit_wait log op true).0 ≡ true
      → Files W H op G
      → Files W H (W.begin (W.commit_wait log op true).1) G
  commit_done-Files log op done after i v =
      Holds-read op _ (λ a n. H.commit_done log op true a n done) (after i v)

  commit_failed-Files :
      (log : W.Log) (op : W.Op) {F : ℕ → Bytes}
      → (W.commit_wait log op true).0 ≡ false
      → Files W H (W.begin log) F
      → Files W H (W.begin (W.commit_wait log op true).1) F
  commit_failed-Files log op failed before i v =
      Holds-read (W.begin log) _ (λ a n. H.commit_failed log op true a n failed) (before i v)

  -- A commit of an operation that changed nothing changes nothing.
  pub commit_same-Files :
      (log : W.Log) {F : ℕ → Bytes}
      → Files W H (W.begin log) F
      → Files W H (W.begin (W.commit_wait log (W.begin log) true).1) F
  commit_same-Files log before = elim (Bool-cases (W.commit_wait log (W.begin log) true).0) [
    | inl done ↦ commit_done-Files log (W.begin log) done before
    | inr failed ↦ commit_failed-Files log (W.begin log) failed before
  ]

  commit-Files :
      (log : W.Log) (op : W.Op) {F G : ℕ → Bytes}
      → Files W H (W.begin log) F
      → Files W H op G
      → Files W H
          (W.begin (W.commit_wait log op true).1)
          (if (W.commit_wait log op true).0 then G else F)
  commit-Files log op {F} {G} before after = elim (Bool-cases (W.commit_wait log op true).0) [
    | inl done ↦ rw done (commit_done-Files log op done after)
    | inr failed ↦ rw failed (commit_failed-Files log op failed before)
  ]

  -- The call committed an operation that turns the contents `F` into `G`. It replies with the
  -- outcome of the commit as its status, and gives the lock back.
  pub record Commits {R : Type 0} (nfs : Nfs W) (F G : ℕ → Bytes) (reply : Nfsstat3 → R)
      (result : Outcome (R × Nfs W)) : Type 0 where
    pub op : W.Op
    pub ran :
        result
        ≡ ok (
          reply (if (W.commit_wait nfs.t op true).0 then nfs3_ok else nfs3err_serverfault),
          record { t = (W.commit_wait nfs.t op true).1; l = nfs.l },
        )
    pub serves :
        Serves
          (record { t = (W.commit_wait nfs.t op true).1; l = nfs.l })
          (if (W.commit_wait nfs.t op true).0 then G else F)

  -- A body that commits, under the lock of its file.
  pub with_lock-Commits :
      {R : Type 0} (nfs : Nfs W) (inum : ℕ) {F G : ℕ → Bytes} (reply : Nfsstat3 → R)
      (body : W.Log → Outcome (R × W.Log)) (op : W.Op)
      → Serves nfs F
      → Files W H op G
      → body nfs.t
        ≡ ok (
          reply (if (W.commit_wait nfs.t op true).0 then nfs3_ok else nfs3err_serverfault),
          (W.commit_wait nfs.t op true).1,
        )
      → Commits nfs F G reply (with_lock W nfs inum body)
  unfolding with_lock
  with_lock-Commits nfs inum reply body op before after run = record {
    op = op;
    ran = rw (run, H.release-acquire nfs.l inum);
    serves = commit-Files nfs.t op before after;
  }

  -- A body that leaves the log alone, under the lock of its file.
  pub with_lock_same :
      {R : Type 0} (nfs : Nfs W) (inum : ℕ) (body : W.Log → Outcome (R × W.Log)) {r : R}
      → body nfs.t ≡ ok (r, nfs.t)
      → with_lock W nfs inum body ≡ ok (r, nfs)
  unfolding with_lock
  with_lock_same nfs inum body run = rw (run, H.release-acquire nfs.l inum)

  -- After an operation on file `i`, all files hold their new content.
  pub update-Files :
      {op op' : W.Op} {F : ℕ → Bytes} (i : ℕ) (g : Bytes)
      → Files W H op F
      → Holds W H op' i g
      → OthersKept W H i op op'
      → Files W H op' (update F i g)
  update-Files {op' = op'} {F} i g before new kept j v = elim (Bool-cases (j == i)) [
    | inl same ↦ rw same (subst (λ k. Holds W H op' k g) (sym ((==_iff j i).0 same)) new)
    | inr other ↦ rw other (kept j (F j) (λ e. cc (other, (==_iff j i).1 e)) (before j v))
  ]
