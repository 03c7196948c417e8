-- ===== src/Examples/Server.antt =====
-- Requests to the full server, on a new file system.
use go_nfsd.Prelude.{
  ℕ, ◌≡◌, ◌≢◌, refl, ap, ◌∙◌, arith, name_eq, Bool, true, false, List, [], ◌∷◌, Outcome, ok, panic,
  Option, some, none,
}
use go_nfsd.Programs.{Result, returns, panics, waits, unfinished, ◌>>=◌}
use go_nfsd.Nfstypes.{Bytes, NfsFh3, zero_time}
use go_nfsd.Inode.Layout.{nf3free, mk_root_inode, encode}
use go_nfsd.Super.{inum2addr}
use go_nfsd.Fh.{Fh, make_fh, mk_root_fh3}
use go_nfsd.Fstxn.State.{FsTxn, mk_fs_state, begin}
use go_nfsd.Dir.Entries.{illegal_name}
use go_nfsd.Fstxn.Inodes.{get_inode_inum, get_inode_fh, alloc_inode}
use go_nfsd.Fstxn.Fresh.{NewOrShrinking, alloc_inode_lem}
use go_nfsd.Fstxn.Handles.{get_inode_fh_lem}
use go_nfsd.Nfs.Session.{Session, serve}
use go_nfsd.Nfs.Locks.Served.{serve-Idle}
use go_nfsd.Nfs.Locks.Twice.{lock_inodes_twice, nfsproc3_rename_twice}
use go_nfsd.Nfs.Renaming.{nfsproc3_rename}
use go_nfsd.Nfstypes.Procs.{RenameArgs}
use go_nfsd.Nfs.Locks.{Idle}
use go_nfsd.Nfs.Locking.{lock_inodes}
use go_nfsd.Nfs.Lorder.{two_inums}
use go_nfsd.Examples.World.{world, world_laws}
use go_nfsd.Examples.Disk.{Write}
use go_nfsd.Examples.Transactions.{super0, balloc0, ialloc0}

-- The root inode, on the disk.
unfoldable pub written : Outcome Bytes → List Write
written (ok d) =
    record { blkno = (inum2addr world super0 1).0; off = (inum2addr world super0 1).1; bytes = d }
    ∷ []
written panic = []

abbrev pub root_fh : Outcome NfsFh3 → NfsFh3
root_fh (ok fh) = fh
root_fh panic = record { bytes = [] }

abbrev pub does_return : {A : Type 0} → Result A → Bool
does_return (returns a) = true
does_return _ = false

pub returned : {A : Type 0} (r : Result A) → does_return r ≡ true → (a : A) × (r ≡ returns a)
returned (returns a) h = (a, refl)
returned panics h = absurd (cc h)
returned waits h = absurd (cc h)
returned unfinished h = absurd (cc h)

abbrev finds : {A : Type 0} → Result (Option ℕ × A) → Bool
finds (returns (some p, s)) = true
finds _ = false

found_in :
    {A : Type 0} (r : Result (Option ℕ × A))
    → finds r ≡ true
    → (p : ℕ) × (s : A) × (r ≡ returns (some p, s))
found_in (returns (some p, s)) h = (p, s, refl)
found_in (returns (none, s)) h = absurd (cc h)
found_in panics h = absurd (cc h)
found_in waits h = absurd (cc h)
found_in unfinished h = absurd (cc h)

unfoldable pub started : Session world
started = serve world (
    mk_fs_state world super0 (written (encode world (mk_root_inode world zero_time))) balloc0
      ialloc0)

root_found : finds (get_inode_inum world 1 started.op) ≡ true
unfolding started written go_nfsd.Fstxn.State.find_inode go_nfsd.Fstxn.State.mk_fs_state
    go_nfsd.Fstxn.State.begin go_nfsd.Fstxn.Inodes.load go_nfsd.Fstxn.Inodes.add_inode
    go_nfsd.Fstxn.Inodes.lock_inode go_nfsd.Fstxn.Inodes.fill_slot
    go_nfsd.Fstxn.Inodes.read_disk_inode go_nfsd.Fstxn.Inodes.slot_object
    go_nfsd.Fstxn.Inodes.get_inode_locked go_nfsd.Fstxn.Inodes.get_inode_inum_free
    go_nfsd.Fstxn.Inodes.get_inode_inum go_nfsd.Inode.Layout.mk_root_inode
    go_nfsd.Inode.Layout.decode go_nfsd.Cache.lookup_slot go_nfsd.Alloctxn.begin
    go_nfsd.Super.mk_fs_super go_nfsd.Dir.Scan.apply_ents go_nfsd.Nfs.Session.serve
    go_nfsd.Programs.◌>>=◌ go_nfsd.Examples.Disk.find go_nfsd.Examples.Codec.le_bytes
    go_nfsd.Examples.Codec.from_le go_nfsd.Examples.Codec.put go_nfsd.Examples.Codec.get
root_found = refl

abbrev root : Fh
root = record { ino = 1; gen = 1 }

root_decoded : make_fh world (root_fh (mk_root_fh3 world)) ≡ ok root
unfolding make_fh mk_root_fh3 go_nfsd.Fh.make_fh3 go_nfsd.Examples.Codec.le_bytes
    go_nfsd.Examples.Codec.from_le go_nfsd.Examples.Codec.put go_nfsd.Examples.Codec.get
    go_nfsd.Examples.Codec.as_ints
root_decoded = refl

root_fh_found : finds (get_inode_fh world (root_fh (mk_root_fh3 world)) started.op) ≡ true
unfolding started written go_nfsd.Fstxn.State.find_inode go_nfsd.Fstxn.State.mk_fs_state
    go_nfsd.Fstxn.State.begin go_nfsd.Fstxn.Inodes.load go_nfsd.Fstxn.Inodes.add_inode
    go_nfsd.Fstxn.Inodes.lock_inode go_nfsd.Fstxn.Inodes.fill_slot
    go_nfsd.Fstxn.Inodes.read_disk_inode go_nfsd.Fstxn.Inodes.slot_object
    go_nfsd.Fstxn.Inodes.get_inode_locked go_nfsd.Fstxn.Inodes.get_inode_inum_free
    go_nfsd.Fstxn.Inodes.get_inode_inum go_nfsd.Fstxn.Inodes.get_inode_fh
    go_nfsd.Inode.Layout.mk_root_inode go_nfsd.Inode.Layout.decode go_nfsd.Cache.lookup_slot
    go_nfsd.Alloctxn.begin go_nfsd.Super.mk_fs_super go_nfsd.Fh.make_fh go_nfsd.Fh.mk_root_fh3
    go_nfsd.Dir.Scan.apply_ents go_nfsd.Nfs.Session.serve go_nfsd.Programs.◌>>=◌
    go_nfsd.Examples.Disk.find go_nfsd.Examples.Codec.le_bytes go_nfsd.Examples.Codec.from_le
    go_nfsd.Examples.Codec.put go_nfsd.Examples.Codec.get
root_fh_found = refl

started-Idle : Idle world world_laws started
unfolding started
started-Idle =
    serve-Idle world world_laws super0 (written (encode world (mk_root_inode world zero_time)))
      balloc0 ialloc0

lock_inodes_twice_example : lock_inodes world (two_inums 1 1) started.op ≡ waits
lock_inodes_twice_example =
    lock_inodes_twice world world_laws started.op (found_in _ root_found).1 1
      (found_in _ root_found).0 started-Idle.owned (found_in _ root_found).2

-- A handle of the root directory, of a generation.
abbrev dir_handle : ℕ → NfsFh3
dir_handle gen = record {
  bytes = 1 ∷ 0 ∷ 0 ∷ 0 ∷ 0 ∷ 0 ∷ 0 ∷ 0 ∷ gen ∷ 0 ∷ 0 ∷ 0 ∷ 0 ∷ 0 ∷ 0 ∷ 0 ∷ [];
}

abbrev rename_a : RenameArgs
rename_a = record {
  source = record { dir = dir_handle 0; name = b'a' ∷ [] };
  target = record { dir = dir_handle 1; name = b'a' ∷ [] };
}

dir_handle_decoded :
    (make_fh world (dir_handle 0) ≡ ok (record { ino = 1; gen = 0 }))
    × (make_fh world (dir_handle 1) ≡ ok (record { ino = 1; gen = 1 }))
unfolding make_fh go_nfsd.Examples.Codec.from_le go_nfsd.Examples.Codec.get
dir_handle_decoded = (refl, refl)

begins_again : begin world started.op.fs ≡ started.op
unfolding started go_nfsd.Nfs.Session.serve go_nfsd.Fstxn.State.begin
begins_again = refl

legal_a : illegal_name (b'a' ∷ []) ≡ false
unfolding illegal_name name_eq
legal_a = refl

nfsproc3_rename_twice_example : nfsproc3_rename world 1 rename_a started ≡ waits
nfsproc3_rename_twice_example =
    nfsproc3_rename_twice world world_laws 0 rename_a started (record { ino = 1; gen = 0 })
      (record { ino = 1; gen = 1 }) (found_in _ root_found).0 (found_in _ root_found).1 started-Idle
      dir_handle_decoded.0 dir_handle_decoded.1 refl (omega arith) legal_a
      (ap (λ op. get_inode_inum world 1 op) begins_again ∙ (found_in _ root_found).2)

abbrev found_root :
    (p : ℕ) × (op : FsTxn world) × (get_inode_fh world (root_fh (mk_root_fh3 world)) started.op
      ≡ returns (some p, op))
found_root = found_in _ root_fh_found

get_inode_fh_lem_example :
    ((found_root.1.fs.objects found_root.0).inum ≡ 1)
    × ((found_root.1.fs.objects found_root.0).gen ≡ 1)
    × ((found_root.1.fs.objects found_root.0).kind ≢ nf3free)
    × ((found_root.1.fs.objects found_root.0).nlink ≢ 0)
    × (world_laws.holders found_root.1.fs.lockmap 1 ≡ 1)
get_inode_fh_lem_example =
    get_inode_fh_lem world world_laws started.op found_root.1 (root_fh (mk_root_fh3 world)) root
      found_root.0 started-Idle.owned root_decoded found_root.2

alloc_found : finds (alloc_inode world 1 zero_time started.op) ≡ true
unfolding started written go_nfsd.Fstxn.State.find_inode go_nfsd.Fstxn.State.mk_fs_state
    go_nfsd.Fstxn.State.begin go_nfsd.Fstxn.State.on_atxn go_nfsd.Fstxn.State.on_inode
    go_nfsd.Fstxn.Inodes.load go_nfsd.Fstxn.Inodes.add_inode go_nfsd.Fstxn.Inodes.lock_inode
    go_nfsd.Fstxn.Inodes.fill_slot go_nfsd.Fstxn.Inodes.read_disk_inode
    go_nfsd.Fstxn.Inodes.slot_object go_nfsd.Fstxn.Inodes.get_inode_locked
    go_nfsd.Fstxn.Inodes.init_new go_nfsd.Fstxn.Inodes.alloc_inode
    go_nfsd.Inode.Layout.mk_root_inode go_nfsd.Inode.Layout.decode go_nfsd.Inode.Sizes.resize
    go_nfsd.Cache.lookup_slot go_nfsd.Alloctxn.begin go_nfsd.Alloctxn.alloc_inum
    go_nfsd.Super.mk_fs_super go_nfsd.Nfs.Session.serve go_nfsd.Programs.◌>>=◌
    go_nfsd.Examples.Disk.find go_nfsd.Examples.Bitmap.alloc_num go_nfsd.Examples.Codec.le_bytes
    go_nfsd.Examples.Codec.from_le go_nfsd.Examples.Codec.put go_nfsd.Examples.Codec.get
    go_nfsd.Examples.Codec.as_ints
alloc_found = refl

abbrev new_file :
    (p : ℕ) × (op : FsTxn world) × (alloc_inode world 1 zero_time started.op ≡ returns (some p, op))
new_file = found_in _ alloc_found

alloc_inode_lem_example :
    NewOrShrinking world world_laws 1 (new_file.1.fs.objects new_file.0)
    × (world_laws.holders new_file.1.fs.lockmap (new_file.1.fs.objects new_file.0).inum ≡ 1)
alloc_inode_lem_example =
    alloc_inode_lem world world_laws started.op new_file.1 1 zero_time new_file.0 started-Idle.owned
      new_file.2
