-- ===== src/Examples/Wire.antt =====
-- Calls from the network to the full server, and what the messages carry.
use go_nfsd.Prelude.{
  ℕ, ◌<◌, ◌≤◌, ◌^◌, ◌≡◌, refl, Bool, true, false, List, [], ◌∷◌, ◌++◌, none, some, arith,
}
use go_nfsd.Programs.{Result, returns, ◌>>=◌, pure}
use go_nfsd.Nfstypes.{Bytes, Nfstime3, zero_time, nfs3_ok}
use go_nfsd.Fh.{mk_root_fh3}
use go_nfsd.Nfs.Session.{Session}
use go_nfsd.Nfs.Start.{first_request}
use go_nfsd.Nfs.Requests.{Request, Reply, handle, write_file, fsinfo, info_reply, read_reply}
use go_nfsd.Nfs.Wire.{serve_call, serve_calls, write_args, send_reply, proc_number}
use go_nfsd.Nfs.Methods.{Answer, replied}
use go_nfsd.Nfs.Wire.Arrival.{serve_call_lem}
use go_nfsd.Nfs.Wire.Delivery.{FitsReply, ReadsReply, send_reply_lem}
use go_nfsd.Nfs.Wire.Locks.{serve_calls_lem}
use go_nfsd.Nfs.Results.{read_result, status_number}
use go_nfsd.Inode.Layout.{mk_root_inode, encode}
use go_nfsd.Examples.World.{world, world_laws}
use go_nfsd.Examples.Transactions.{super0, balloc0, ialloc0}
use go_nfsd.Examples.Server.{written, root_fh, started, does_return, returned}
use go_nfsd.Examples.Message.{Message, messages, messages_laws, writer, reader, be_slice}

-- A call of the null procedure, one that gets the attributes of the root directory, one whose arguments
-- are missing, and one of no procedure.
abbrev calls : List (Nfstime3 × ℕ × Message)
calls =
    (zero_time, 0, reader [])
    ∷ (zero_time, 1, reader (be_slice (root_fh (mk_root_fh3 world)).bytes))
    ∷ (zero_time, 3, reader [])
    ∷ (zero_time, 99, reader [])
    ∷ []

unfoldable served_calls : Result (List Answer × Session world)
served_calls = (first_request world true >>= λ _. serve_calls world messages 2 calls) started

calls_return : does_return served_calls ≡ true
unfolding served_calls go_nfsd.Examples.Server.started go_nfsd.Examples.Server.written
    go_nfsd.Fstxn.State.find_inode go_nfsd.Fstxn.State.delete_inode go_nfsd.Fstxn.State.mk_fs_state
    go_nfsd.Fstxn.State.begin_again go_nfsd.Fstxn.State.on_atxn go_nfsd.Fstxn.State.on_inode
    go_nfsd.Fstxn.Inodes.load go_nfsd.Fstxn.Inodes.add_inode go_nfsd.Fstxn.Inodes.done_inode
    go_nfsd.Fstxn.Inodes.release_inode go_nfsd.Fstxn.Inodes.release_loop
    go_nfsd.Fstxn.Inodes.release_inodes go_nfsd.Fstxn.Inodes.lock_inode
    go_nfsd.Fstxn.Inodes.fill_slot go_nfsd.Fstxn.Inodes.read_disk_inode
    go_nfsd.Fstxn.Inodes.slot_object go_nfsd.Fstxn.Inodes.get_inode_locked
    go_nfsd.Fstxn.Inodes.get_inode_inum_free go_nfsd.Fstxn.Inodes.get_inode_inum
    go_nfsd.Fstxn.Inodes.get_inode_fh go_nfsd.Fstxn.Commit.pre_commit
    go_nfsd.Fstxn.Commit.post_commit go_nfsd.Fstxn.Commit.commit_op go_nfsd.Fstxn.Commit.commit_wait
    go_nfsd.Fstxn.Commit.commit go_nfsd.Inode.Layout.mk_root_inode go_nfsd.Inode.Layout.decode
    go_nfsd.Cache.lookup_slot go_nfsd.Alloctxn.begin go_nfsd.Alloctxn.pre_commit
    go_nfsd.Alloctxn.post_commit go_nfsd.Super.mk_fs_super go_nfsd.Super.max_bnum
    go_nfsd.Super.data_start go_nfsd.Fh.make_fh go_nfsd.Fh.make_fh3 go_nfsd.Fh.mk_root_fh3
    go_nfsd.Dir.Apply.apply_loop go_nfsd.Dir.Apply.apply go_nfsd.Dir.Apply.set_dcache
    go_nfsd.Dir.Apply.get_dcache go_nfsd.Dir.Apply.mk_dcache go_nfsd.Dir.Apply.need_dcache
    go_nfsd.Dir.Names.lookup_name go_nfsd.Dir.Names.add_name_dir go_nfsd.Dir.Names.add_name
    go_nfsd.Dir.Names.mk_root_dir go_nfsd.Dir.Scan.add_name_dir go_nfsd.Dcache.find
    go_nfsd.Dcache.mk_dcache go_nfsd.Dcache.add go_nfsd.Dcache.lookup go_nfsd.Nfs.Session.serve
    go_nfsd.Nfs.Session.on_op go_nfsd.Nfs.Session.commit_reply go_nfsd.Nfs.Files.nfsproc3_getattr
    go_nfsd.Nfs.Requests.handle go_nfsd.Nfs.Requests.serve_requests go_nfsd.Nfs.Start.make_root_dir
    go_nfsd.Nfs.Start.first_request go_nfsd.Nfs.Creating.nfsproc3_lookup
    go_nfsd.Nfs.Listing.nfsproc3_fsinfo go_nfsd.Nfs.Locking.inode_at
    go_nfsd.Nfs.Locking.get_inodes_locked go_nfsd.Programs.◌>>=◌ go_nfsd.Programs.modify
    go_nfsd.Examples.Disk.find go_nfsd.Examples.Bitmap.alloc_num go_nfsd.Examples.Codec.le_bytes
    go_nfsd.Examples.Codec.from_le go_nfsd.Examples.Codec.put go_nfsd.Examples.Codec.get
    go_nfsd.Examples.Codec.as_ints go_nfsd.Prelude.index go_nfsd.Prelude.store
    go_nfsd.Prelude.name_eq go_nfsd.Nfs.Wire.serve_calls go_nfsd.Nfs.Wire.serve_call
    go_nfsd.Nfs.Methods.wrapped go_nfsd.Nfs.Methods.serve_read go_nfsd.Nfs.Methods.wrapper_null
    go_nfsd.Nfs.Methods.wrapper_getattr go_nfsd.Nfs.Methods.wrapper_lookup
    go_nfsd.Xdr.Args.xdr_getattr_args go_nfsd.Xdr.Args.xdr_lookup_args
    go_nfsd.Xdr.Attributes.xdr_nfs_fh3 go_nfsd.Xdr.Attributes.xdr_diropargs3
    go_nfsd.Xdr.xdr_fh_bytes go_nfsd.Xdr.xdr_filename3 go_nfsd.Xdr.call
    go_nfsd.Examples.Message.get_slice go_nfsd.Examples.Message.be_slice
    go_nfsd.Examples.Message.get32 go_nfsd.Examples.Message.be32 go_nfsd.Examples.Message.get_padded
calls_return = refl

serve_calls_example :
    world_laws.holders (returned served_calls calls_return).0.1.op.fs.lockmap 1 ≡ 0
unfolding served_calls started
serve_calls_example =
    serve_calls_lem world world_laws messages super0
      (written (encode world (mk_root_inode world zero_time))) balloc0 ialloc0 true 2 calls
      (returned served_calls calls_return).0.0 (returned served_calls calls_return).0.1
      (returned served_calls calls_return).1 1

abbrev a_write : Request
a_write = write_file (record {
  file = record { bytes = 1 ∷ 2 ∷ 3 ∷ [] };
  offset = 4096;
  count = 5;
  stable = 2;
  bytes = 104 ∷ 101 ∷ 108 ∷ 108 ∷ 111 ∷ [];
})

serve_call_example :
    (b : Bytes) × (write_args messages a_write (messages_laws.writer [])
      ≡ returns (tt, messages_laws.writer b))
    × ((s : Session world)
        → serve_call world messages 2 zero_time (proc_number a_write) (messages_laws.reader b) s
          ≡ (handle world 2 zero_time a_write >>= λ out. pure (replied out)) s)
serve_call_example = serve_call_lem world messages messages_laws 2 zero_time a_write (record {
  file = record { bytes = omega arith };
  offset = omega arith;
  count = omega arith;
  stable = omega arith;
  bytes = omega arith;
})

abbrev a_reply : Reply
a_reply = read_reply (record { status = nfs3_ok; count = 2; eof = true; bytes = 104 ∷ 105 ∷ [] })

a_reply-FitsReply : FitsReply 2 a_reply
unfolding read_result status_number
a_reply-FitsReply = record {
  status = omega arith;
  resok = (
    λ _. record {
      file_attributes = record { attributes = (λ h. absurd (cc h), λ _. refl) };
      count = omega arith;
      bytes = omega arith;
    },
    λ h. absurd (cc h),
  );
  resfail = (λ h. absurd (cc h), λ _. refl);
}

send_reply_example :
    (b : Bytes) × (send_reply messages 2 a_reply (messages_laws.writer [])
      ≡ returns (tt, messages_laws.writer b))
    × ReadsReply messages messages_laws 2 b a_reply
send_reply_example = send_reply_lem messages messages_laws 2 a_reply a_reply-FitsReply
