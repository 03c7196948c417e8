-- ===== src/Inode/Layout.antt =====
-- inode/inode.go: the inode, its code on the disk, and the methods that keep its blocks.
use go_nfsd.Prelude.{
  ℕ, zero, suc, ◌+◌, ◌-◌, ◌*◌, ◌/◌, ◌%◌, ◌^◌, Option, none, List, [], replicate, Bool, leb, ◌==◌,
  if◌then◌else◌, add64, mul64, Outcome, ok, panic, ◌>>=◌,
}
use go_nfsd.External.World.{World}
use go_nfsd.Nfstypes.{Bytes, Nfstime3, Fattr3, nf3dir, zero_time}
use go_nfsd.Super.{n_inode, inum2addr}
use go_nfsd.Dcache.{Dcache}
use go_nfsd.Alloctxn.{AllocTxn, free_inum}

abbrev pub nf3free : ℕ
nf3free = 0

abbrev pub nblkino : ℕ
nblkino = 10

abbrev pub ndirect : ℕ
ndirect = nblkino - 2

abbrev pub indirect : ℕ
indirect = nblkino - 2

abbrev pub dindirect : ℕ
dindirect = nblkino - 1

abbrev pub nindlevel : ℕ
nindlevel = 2

pub record Inode : Type 0 where
  pub inum : ℕ
  pub dcache : Option Dcache
  pub kind : ℕ
  pub nlink : ℕ
  pub gen : ℕ
  pub size : ℕ
  pub shrink_size : ℕ
  pub atime : Nfstime3
  pub mtime : Nfstime3
  pub blks : List ℕ

-- `new(Inode)`
abbrev pub new_inode : Inode
new_inode = record {
  inum = 0;
  dcache = none;
  kind = 0;
  nlink = 0;
  gen = 0;
  size = 0;
  shrink_size = 0;
  atime = zero_time;
  mtime = zero_time;
  blks = [];
}

-- `now` is what `NfstimeNow` reads from the clock, here once for both times.
unfoldable pub init_inode : Inode → ℕ → ℕ → Nfstime3 → Inode
init_inode ip inum kind now = record ip {
  inum = inum;
  kind = kind;
  nlink = 1;
  gen = add64 ip.gen 1;
  atime = now;
  mtime = now;
}

unfoldable pub mk_fattr : Inode → Fattr3
mk_fattr ip = record {
  ftype = ip.kind;
  mode = 0o777;
  nlink = 1;
  uid = 0;
  gid = 0;
  size = ip.size;
  used = ip.size;
  rdev = record { specdata1 = 0; specdata2 = 0 };
  fsid = 0;
  fileid = ip.inum;
  atime = ip.atime;
  mtime = ip.mtime;
  ctime = zero_time;
}

module _ (W : World) where
  unfoldable pub mk_root_inode : Nfstime3 → Inode
  unfolding init_inode
  mk_root_inode now =
      init_inode (record new_inode { blks = replicate nblkino W.nullbnum }) W.rootinum nf3dir now

  unfoldable pub encode : Inode → Outcome Bytes
  encode ip = do
    enc ← W.put_int32 (W.new_enc W.inodesz) ip.kind
    enc ← W.put_int32 enc ip.nlink
    enc ← W.put_int enc ip.gen
    enc ← W.put_int enc ip.size
    enc ← W.put_int enc ip.shrink_size
    enc ← W.put_int32 enc ip.atime.seconds
    enc ← W.put_int32 enc ip.atime.nseconds
    enc ← W.put_int32 enc ip.mtime.seconds
    enc ← W.put_int32 enc ip.mtime.nseconds
    enc ← W.put_ints enc ip.blks
    ok (W.finish enc)

  -- The bytes of the buffer, and the number of the inode.
  unfoldable pub decode : Bytes → ℕ → Outcome Inode
  decode buf inum = do
    (kind, dec) ← W.get_int32 (W.new_dec buf)
    (nlink, dec) ← W.get_int32 dec
    (gen, dec) ← W.get_int dec
    (size, dec) ← W.get_int dec
    (shrink_size, dec) ← W.get_int dec
    (asec, dec) ← W.get_int32 dec
    (ansec, dec) ← W.get_int32 dec
    (msec, dec) ← W.get_int32 dec
    (mnsec, dec) ← W.get_int32 dec
    (blks, _) ← W.get_ints dec nblkino
    ok (record {
      inum = inum;
      dcache = none;
      kind = kind;
      nlink = nlink;
      gen = gen;
      size = size;
      shrink_size = shrink_size;
      atime = record { seconds = asec; nseconds = ansec };
      mtime = record { seconds = msec; nseconds = mnsec };
      blks = blks;
    })

  -- # blkno per block
  unfoldable pub nblkblk : ℕ
  nblkblk = W.block_size / 8

  -- The loop of `pow`: `i` squarings.
  unfoldable pub pow_loop : ℕ → ℕ → ℕ
  pow_loop zero p = p
  pow_loop (suc i) p = pow_loop i (mul64 p p)

  unfoldable pub pow : ℕ → ℕ
  unfolding pow_loop nblkblk
  pow zero = 1
  pow (suc level) = pow_loop level nblkblk

  unfoldable pub max_file_size : ℕ
  unfolding pow
  max_file_size = let maxblks = pow nindlevel in mul64 (add64 ndirect maxblks) W.block_size

  unfoldable pub write_inode : Inode → AllocTxn W → Outcome (AllocTxn W)
  unfolding encode n_inode inum2addr
  write_inode ip atxn = if leb (n_inode W atxn.super) ip.inum then panic else (do
    d ← encode ip
    ok (record atxn {
      op = W.over_write atxn.op (inum2addr W atxn.super ip.inum) (W.inodesz * 8) d;
    }))

  unfoldable pub free_inode : Inode → AllocTxn W → Outcome (Inode × AllocTxn W)
  unfolding write_inode free_inum
  free_inode ip atxn = do
    let ip' : Inode = record ip { kind = nf3free; gen = add64 ip.gen 1 }
    atxn' ← write_inode ip' atxn
    ok (ip', free_inum W atxn' ip'.inum)

  -- A link count of 0 wraps to 2 ^ 32 - 1.
  unfoldable pub dec_link : Inode → AllocTxn W → Outcome (Bool × Inode × AllocTxn W)
  unfolding write_inode
  dec_link ip atxn = do
    let ip' : Inode = record ip { nlink = (ip.nlink + 2 ^ 32 - 1) % 2 ^ 32 }
    atxn' ← write_inode ip' atxn
    ok (ip'.nlink == 0, ip', atxn')
