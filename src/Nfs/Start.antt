-- ===== src/Nfs/Start.antt =====
-- nfs/nfs.go and fstxn/fsstate.go: the start of the full server. The log works on the same disk, so
-- that it is taken of the disk as it is when a new file system has been written.
use go_nfsd.Prelude.{Bool, if◌then◌else◌, ok, panic}
use go_nfsd.External.World.{World}
use go_nfsd.External.Disks.{Disks}
use go_nfsd.Programs.{Result, panics, ◌>>=◌, ◌>>◌, pure, crash}
use go_nfsd.Nfstypes.{Nfstime3}
use go_nfsd.Super.{FsSuper, mk_fs_super, bitmap_block_start, bitmap_inode_start}
use go_nfsd.Fstxn.State.{FsState, FsProg, mk_fs_state, begin_again}
use go_nfsd.Fstxn.Inodes.{get_inode_inum_free}
use go_nfsd.Fstxn.Commit.{commit}
use go_nfsd.Dir.Names.{mk_root_dir}
use go_nfsd.Nfs.Session.{Session, serve, on_op}
use go_nfsd.Nfs.Mkfs.{read_bitmap, prepare}

module _ (W : World) where
  unfoldable pub make_root_dir : FsProg W (Unit {0})
  make_root_dir = do
    begin_again W
    ip ← get_inode_inum_free W W.rootinum
    mk_root_dir W ip
    done ← commit W
    if done then pure tt else crash

  unfoldable pub first_request : Bool → Session W → Result (Unit {0} × Session W)
  first_request new = if new then on_op W make_root_dir else pure tt

module _ (W : World) (D : Disks W) where
  -- `MkFsState`, with the allocators made of the bitmaps on the disk.
  unfoldable pub fs_state_on : FsSuper → D.Disk → FsState W
  fs_state_on super d =
      mk_fs_state W super (D.log_on d)
        (D.mk_alloc (read_bitmap W D d (bitmap_block_start super) super.n_block_bitmap))
        (D.mk_alloc (read_bitmap W D d (bitmap_inode_start super) super.n_inode_bitmap))

  unfoldable pub make_nfs : D.Disk → Nfstime3 → Result (Unit {0} × Session W)
  make_nfs disk now =
      let super = mk_fs_super W (D.size disk) in
      elim (prepare W D super (D.recover disk) now) [
        | ok r ↦ first_request W r.0 (serve W (fs_state_on super r.1))
        | panic ↦ panics
      ]
