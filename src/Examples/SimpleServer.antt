-- ===== src/Examples/SimpleServer.antt =====
-- The simple server on an empty disk: its start, one write, and the calls after it.
use go_nfsd.Prelude.{
  ℕ, ◌<◌, ◌^◌, ◌≡◌, refl, true, false, inr, List, [], ◌∷◌, take, none, some, ok, panic, ◌>>=◌,
  if◌then◌else◌, write_at, arith,
}
use go_nfsd.Nfstypes.{
  Bytes, NfsFh3, dont_change, zero_time, nfs3_ok, nfs3err_serverfault, nfs3err_nospc, unstable,
}
use go_nfsd.Nfstypes.Replies.{SetattrArgs, ReadArgs, WriteArgs, CommitArgs, LookupArgs}
use go_nfsd.Simple.{
  read_inode, encode, decode, make_fh, inum2addr, block2addr, Nfs, make_nfs, fh2ino, valid_inum,
  n_inode, nfsproc3_getattr, nfsproc3_setattr, nfsproc3_read, nfsproc3_write, nfsproc3_readdir,
}
use go_nfsd.Simple.Inode.{Inode}
use go_nfsd.Simple.Codec.{decode-encode}
use go_nfsd.Simple.Init.{make_nfs_lem}
use go_nfsd.Simple.Blocks.{data_bnum}
use go_nfsd.Simple.Names.{AllFound, readdir_found}
use go_nfsd.Simple.Server.{update, Serves, Commits}
use go_nfsd.Simple.Server.Reading
use go_nfsd.Simple.Server.Writing
use go_nfsd.Simple.Server.Sizing
use go_nfsd.Simple.Runs.{Call, run, run-Serves}
use go_nfsd.Examples.Disk.{find}
use go_nfsd.Examples.Codec.{from_le, get}
use go_nfsd.Examples.World.{world, world_laws}

zero_table :
    (i : ℕ) → i < 32 → read_inode world [] i ≡ ok (record { inum = i; size = 0; data_bnum = 0 })
unfolding read_inode decode find get from_le inum2addr
zero_table i lt = refl

make_nfs_lem_example :
    (op : world.Op) × (make_nfs world []
      ≡ ok (
          if (world.commit_wait [] op true).0
          then some (record { t = (world.commit_wait [] op true).1; l = world.mk_lock_map })
          else none))
    × ((world.commit_wait [] op true).0 ≡ true
        → Serves world world_laws
            (record { t = (world.commit_wait [] op true).1; l = world.mk_lock_map })
            (λ i.
              take 0
                (world.read_buf (world.begin []) (block2addr world (data_bnum world i)) 32768)))
make_nfs_lem_example =
    make_nfs_lem world world_laws (λ i. 0) (λ i. 0) [] (λ i. omega arith) zero_table

abbrev nfs0 : Nfs world
nfs0 = record { t = make_nfs_lem_example.0; l = [] }

abbrev empty_files : ℕ → Bytes
empty_files i = []

serves0 : Serves world world_laws nfs0 empty_files
serves0 = make_nfs_lem_example.2 refl

-- The handle of file "a".
abbrev handle_a : NfsFh3
handle_a = record { bytes = 2 ∷ 0 ∷ 0 ∷ 0 ∷ 0 ∷ 0 ∷ 0 ∷ 0 ∷ [] }

handle_a_reads : fh2ino world handle_a ≡ ok 2
unfolding fh2ino make_fh get from_le
handle_a_reads = refl

valid_a : valid_inum world 2 ≡ true
unfolding valid_inum n_inode
valid_a = refl

abbrev hi : Bytes
hi = b'h' ∷ b'i' ∷ b'!' ∷ []

abbrev write_hi : WriteArgs
write_hi = record { file = handle_a; offset = 0; count = 3; stable = unstable; bytes = hi }

nfsproc3_write_lem_example :
    Commits world world_laws nfs0 empty_files
      (update empty_files 2 (write_at [] 0 hi))
      (Writing.write_reply write_hi)
      (nfsproc3_write world nfs0 write_hi)
nfsproc3_write_lem_example =
    Writing.nfsproc3_write_lem world world_laws nfs0 serves0 2 valid_a write_hi handle_a_reads refl
      (omega arith) (omega arith)

-- The server after the write.
abbrev nfs1 : Nfs world
nfs1 = record { t = nfsproc3_write_lem_example.op; l = [] }

abbrev hi_files : ℕ → Bytes
hi_files = update empty_files 2 (write_at [] 0 hi)

serves1 : Serves world world_laws nfs1 hi_files
serves1 = nfsproc3_write_lem_example.serves

abbrev read_i : ReadArgs
read_i = record { file = handle_a; offset = 1; count = 10 }

nfsproc3_read_lem_example :
    Commits world world_laws nfs1 hi_files hi_files
      (Reading.read_reply (hi_files 2) read_i)
      (nfsproc3_read world nfs1 read_i)
nfsproc3_read_lem_example =
    Reading.nfsproc3_read_lem world world_laws nfs1 serves1 2 valid_a read_i handle_a_reads
      (omega arith)

-- The reply of that READ.
read_back :
    Reading.read_reply (hi_files 2) read_i nfs3_ok
    ≡ record { status = nfs3_ok; count = 2; eof = true; bytes = b'i' ∷ b'!' ∷ [] }
unfolding write_at
read_back = refl

nfsproc3_getattr_lem_example :
    Commits world world_laws nfs1 hi_files hi_files
      (Reading.getattr_reply 2 (hi_files 2))
      (nfsproc3_getattr world nfs1 (record { object = handle_a }))
nfsproc3_getattr_lem_example =
    Reading.nfsproc3_getattr_lem world world_laws nfs1 serves1 2 valid_a
      (record { object = handle_a }) handle_a_reads

abbrev commit_a : CommitArgs
commit_a = record { file = handle_a; offset = 0; count = 0 }

abbrev write_far : WriteArgs
write_far = record { file = handle_a; offset = 4; count = 3; stable = unstable; bytes = hi }

nfsproc3_write_refused_example :
    nfsproc3_write world nfs0 write_far
    ≡ ok (record { status = nfs3err_serverfault; count = 0; committed = unstable }, nfs0)
nfsproc3_write_refused_example =
    Writing.nfsproc3_write_refused world world_laws nfs0 serves0 2 valid_a write_far handle_a_reads
      (inr (inr (omega arith)))

abbrev to_size : ℕ → SetattrArgs
to_size n = record {
  object = handle_a;
  new_attributes = record {
    mode = record { set_it = false; value = 0 };
    uid = record { set_it = false; value = 0 };
    gid = record { set_it = false; value = 0 };
    size = record { set_it = true; value = n };
    atime = record { set_it = dont_change; time = zero_time };
    mtime = record { set_it = dont_change; time = zero_time };
  };
  guard = record { check = false; obj_ctime = zero_time };
}

nfsproc3_setattr_lem_example :
    Commits world world_laws nfs1 hi_files
      (update hi_files 2 (Sizing.resize (hi_files 2) 5))
      (λ status. record { status = status })
      (nfsproc3_setattr world nfs1 (to_size 5))
nfsproc3_setattr_lem_example =
    Sizing.nfsproc3_setattr_lem world world_laws nfs1 serves1 2 valid_a (to_size 5) handle_a_reads
      refl (omega arith) (omega arith)

nfsproc3_setattr_nospc_example :
    nfsproc3_setattr world nfs0 (to_size 5000) ≡ ok (record { status = nfs3err_nospc }, nfs0)
nfsproc3_setattr_nospc_example =
    Sizing.nfsproc3_setattr_nospc world world_laws nfs0 serves0 2 valid_a (to_size 5000)
      handle_a_reads refl (omega arith) (omega arith) (omega arith)

nfsproc3_setattr-panic_example : nfsproc3_setattr world nfs0 (to_size (2 ^ 63)) ≡ panic
nfsproc3_setattr-panic_example =
    Sizing.nfsproc3_setattr-panic world world_laws nfs0 serves0 2 valid_a (to_size (2 ^ 63))
      handle_a_reads refl (omega arith) (omega arith)

readdir_found_example : AllFound world nfsproc3_readdir.reply.entries
readdir_found_example = readdir_found world world_laws

abbrev lookup_c : LookupArgs
lookup_c = record { what = record { dir = handle_a; name = b'c' ∷ [] } }

abbrev some_inode : Inode
some_inode = record { inum = 2; size = 3; data_bnum = 516 }

decode-encode_example : (encode world some_inode >>= λ bytes. decode world bytes 2) ≡ ok some_inode
decode-encode_example = decode-encode world world_laws some_inode (omega arith) (omega arith)

abbrev calls : List Call
calls =
    Call.getattr (record { object = handle_a })
    ∷ Call.write write_far
    ∷ Call.setattr (to_size 7)
    ∷ Call.read read_i
    ∷ Call.commit commit_a
    ∷ []

run-Serves_example :
    (nfs' : Nfs world) × (F' : ℕ → Bytes) × (run world nfs1 calls ≡ ok nfs')
    × Serves world world_laws nfs' F'
run-Serves_example = run-Serves world world_laws calls nfs1 hi_files serves1 (omega arith)
