-- ===== src/Fstxn/Inodes.antt =====
-- fstxn/fstxn.go: the inodes of a transaction. An inode is a pointer, and nil is `none`.
use go_nfsd.Prelude.{
  ℕ, suc, ◌*◌, [], ◌∷◌, Bool, true, false, not, ◌==◌, if◌then◌else◌, Option, none, some, ok, panic,
}
use go_nfsd.External.World.{World}
use go_nfsd.Programs.{
  returns, panics, waits, ◌>>=◌, ◌>>◌, pure, modify, crash, when, lift, if_nil, gets,
}
use go_nfsd.Nfstypes.{NfsFh3, Nfstime3}
use go_nfsd.Super.{inum2addr}
use go_nfsd.Cache.{lookup_slot, put_obj}
use go_nfsd.Fh as Fh
use go_nfsd.Alloctxn.{alloc_inum}
use go_nfsd.Inode.Layout.{Inode, nf3free, init_inode, decode, write_inode}
use go_nfsd.Inode.Sizes.{is_shrinking}
use go_nfsd.Fstxn.State.{InodeMap, find_inode, delete_inode, FsProg, set_object, on_atxn, on_inode}

module _ (W : World) where
  unfoldable pub load : ℕ → FsProg W Inode
  load p op = returns (op.fs.objects p, op)

  unfoldable pub add_inode : ℕ → FsProg W (Unit {0})
  add_inode p op =
      let inum = (op.fs.objects p).inum in
      returns (tt, record op { inodes = (inum, p) ∷ delete_inode op.inodes inum })

  unfoldable pub lookup_inode : ℕ → FsProg W (Option ℕ)
  lookup_inode inum op = returns (find_inode op.inodes inum, op)

  abbrev is_some : Option ℕ → Bool
  is_some none = false
  is_some (some _) = true

  unfoldable pub own_inum : ℕ → FsProg W Bool
  own_inum inum op = returns (is_some (find_inode op.inodes inum), op)

  unfoldable pub done_inode : ℕ → FsProg W (Unit {0})
  done_inode p op =
      returns (tt, record op { inodes = delete_inode op.inodes (op.fs.objects p).inum })

  unfoldable pub release_inode : ℕ → FsProg W (Unit {0})
  release_inode p = do
    done_inode p
    modify (λ op. record op {
      fs = record op.fs { lockmap = W.release op.fs.lockmap (op.fs.objects p).inum };
    })

  -- The loop of `releaseInodes` over the map, in some order.
  unfoldable pub release_loop : InodeMap → FsProg W (Unit {0})
  release_loop [] = pure tt
  release_loop ((_, p) ∷ m) = do release_inode p; release_loop m

  unfoldable pub release_inodes : FsProg W (Unit {0})
  release_inodes op = release_loop op.inodes op

  -- The lock of an inode that the transaction holds already is never given back to it. The slot is an
  -- entry of the cache.
  unfoldable pub lock_inode : ℕ → FsProg W ℕ
  lock_inode inum op =
      if is_some (find_inode op.inodes inum)
      then waits
      else elim (lookup_slot ℕ op.fs.icache inum) [
        | ok r ↦ returns (
          r.0,
          record op { fs = record op.fs { lockmap = W.acquire op.fs.lockmap inum; icache = r.1 } },
        )
        | panic ↦ panics
      ]

  -- `cslot.Obj = i` for a new inode
  unfoldable pub fill_slot : ℕ → Inode → FsProg W ℕ
  unfolding put_obj set_object
  fill_slot slot ip op =
      let p = op.fs.next_object in
      let op' = set_object W op p ip in
      returns (
        p,
        record op' {
          fs = record op'.fs { next_object = suc p; icache = put_obj ℕ op.fs.icache slot p };
        },
      )

  unfoldable pub read_disk_inode : ℕ → FsProg W Inode
  read_disk_inode inum = do
    buf ← gets (λ op. W.read_buf op.atxn.op (inum2addr W op.fs.super inum) (W.inodesz * 8))
    lift (decode W buf inum)

  unfoldable pub slot_object : ℕ → ℕ → FsProg W ℕ
  slot_object slot inum = do
    found ← gets (λ op. (op.fs.icache.heap slot).obj)
    if_nil found (do i ← read_disk_inode inum; fill_slot slot i) pure

  unfoldable pub get_inode_locked : ℕ → FsProg W ℕ
  get_inode_locked inum = do
    cslot ← lock_inode inum
    ip ← slot_object cslot inum
    add_inode ip
    pure ip

  unfoldable pub get_inode_inum_free : ℕ → FsProg W ℕ
  get_inode_inum_free inum = get_inode_locked inum

  unfoldable pub get_inode_inum : ℕ → FsProg W (Option ℕ)
  get_inode_inum inum = do
    p ← get_inode_inum_free inum
    ip ← load p
    if ip.kind == nf3free
        then (do release_inode p; pure none)
        else if ip.nlink == 0
        then crash
        else pure (some p)

  unfoldable pub get_inode_fh : NfsFh3 → FsProg W (Option ℕ)
  get_inode_fh fh3 = do
    fh ← lift (Fh.make_fh W fh3)
    found ← get_inode_inum fh.ino
    if_nil found (pure none) λ p. do
      ip ← load p
      if not (ip.gen == fh.gen) then (do release_inode p; pure none) else pure (some p)

  unfoldable pub get_inode_unlocked : ℕ → FsProg W ℕ
  get_inode_unlocked inum = do found ← lookup_inode inum; if_nil found crash pure

  -- The writes of `AllocInode` to its inode.
  unfoldable pub init_new : ℕ → ℕ → ℕ → Nfstime3 → FsProg W (Unit {0})
  init_new p inum kind now = do
    ip ← load p
    if not (ip.kind == nf3free)
        then crash
        else when (not (is_shrinking W ip)) (
            on_inode W p (λ i atxn. elim (write_inode W (init_inode i inum kind now) atxn) [
              | ok atxn' ↦ ok (tt, init_inode i inum kind now, atxn')
              | panic ↦ panic
            ]))

  -- nil is returned when no number is free.
  unfoldable pub alloc_inode : ℕ → Nfstime3 → FsProg W (Option ℕ)
  alloc_inode kind now = do
    inum ← on_atxn W (λ atxn. ok (alloc_inum W atxn))
    if inum == W.nullinum
        then pure none
        else (do p ← get_inode_locked inum; init_new p inum kind now; pure (some p))
