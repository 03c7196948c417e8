-- ===== src/Simple/Inode.antt =====
-- simple/inode.go: the inode of a file of one block.
use go_nfsd.Prelude.{
  ℕ, zero, suc, ◌+◌, ◌*◌, [], ◌∷◌, ◌++◌, Bool, true, false, length, ltb, leb, ◌==◌, if◌then◌else◌,
  not, Outcome, ok, ◌>>=◌, index, store, add64, sub64,
}
use go_nfsd.External.World.{World}
use go_nfsd.Nfstypes.{Bytes, Fattr3, nf3reg, zero_time, zero_specdata}
use go_nfsd.Simple.Layout.{block2addr, n_inode, inum2addr}

pub record Inode : Type 0 where
  pub inum : ℕ
  pub size : ℕ
  pub data_bnum : ℕ

-- `for b := 0; b < n; b++ { data = append(data, buf.Data[offset+b]) }`
unfoldable pub read_loop : Bytes → ℕ → ℕ → ℕ → Bytes → Outcome Bytes
read_loop buf offset zero b acc = ok acc
read_loop buf offset (suc n) b acc = do
  x ← index buf (add64 offset b)
  read_loop buf offset n (suc b) (acc ++ (x ∷ []))

-- `for b := 0; b < n; b++ { buffer.Data[offset+b] = dataBuf[b] }`
unfoldable pub write_loop : Bytes → ℕ → Bytes → ℕ → ℕ → Outcome Bytes
write_loop buf offset data_buf zero b = ok buf
write_loop buf offset data_buf (suc n) b = do
  x ← index data_buf b
  buf' ← store buf (add64 offset b) x
  write_loop buf' offset data_buf n (suc b)

unfoldable pub mk_fattr : Inode → Fattr3
mk_fattr ip = record {
  ftype = nf3reg;
  mode = 0o777;
  nlink = 1;
  uid = 0;
  gid = 0;
  size = ip.size;
  used = ip.size;
  rdev = zero_specdata;
  fsid = 0;
  fileid = ip.inum;
  atime = zero_time;
  mtime = zero_time;
  ctime = zero_time;
}

module _ (W : World) where
  unfoldable pub encode : Inode → Outcome Bytes
  encode ip = do
    enc ← W.put_int (W.new_enc W.inodesz) ip.size
    enc' ← W.put_int enc ip.data_bnum
    ok (W.finish enc')

  unfoldable pub decode : Bytes → ℕ → Outcome Inode
  decode buf inum = do
    (size, dec) ← W.get_int (W.new_dec buf)
    (data_bnum, _) ← W.get_int dec
    ok (record { inum = inum; size = size; data_bnum = data_bnum })

  -- The bytes read, and whether they reach the end of the file. A nil slice is an empty list.
  unfoldable pub read : Inode → W.Op → ℕ → ℕ → Outcome (Bytes × Bool)
  read ip op offset bytes_to_read =
      if leb ip.size offset
      then ok ([], true)
      else let left = sub64 ip.size offset in
        let count = if ltb left bytes_to_read then left else bytes_to_read in
        let buf = W.read_buf op (block2addr W ip.data_bnum) W.nbitblock in
        (do bytes ← read_loop buf offset count 0 []; ok (bytes, leb ip.size (add64 offset count)))

  unfoldable pub write_inode : Inode → W.Op → Outcome W.Op
  write_inode ip op = do d ← encode ip; ok (W.over_write op (inum2addr W ip.inum) (W.inodesz * 8) d)

  -- The end of `Write`: the size grows if the write went beyond it.
  unfoldable pub grow : Inode → W.Op → ℕ → Outcome (Inode × W.Op)
  grow ip op end =
      let ip' = record ip { size = end } in
      if ltb ip.size end then (do op' ← write_inode ip' op; ok (ip', op')) else ok (ip, op)

  -- The inode and the operation after the write, the count and whether it succeeded.
  unfoldable pub write : Inode → W.Op → ℕ → ℕ → Bytes → Outcome (Inode × W.Op × ℕ × Bool)
  write ip op offset count data_buf =
      if not (count == length data_buf)
      then ok (ip, op, 0, false)
      else if W.sum_overflows offset count
      then ok (ip, op, 0, false)
      else if ltb W.block_size (add64 offset count)
      then ok (ip, op, 0, false)
      else if ltb ip.size offset
      then ok (ip, op, 0, false)
      else do
        let a = block2addr W ip.data_bnum
        buffer ← write_loop (W.read_buf op a W.nbitblock) offset data_buf count 0
        (ip', op') ← grow ip (W.set_dirty op a W.nbitblock buffer) (add64 offset count)
        ok (ip', op', count, true)

  unfoldable pub read_inode : W.Op → ℕ → Outcome Inode
  read_inode op inum = decode (W.read_buf op (inum2addr W inum) (W.inodesz * 8)) inum

  -- The loop of `inodeInit`, from inode `i` on, `n` rounds.
  unfoldable pub inode_init_loop : W.Op → ℕ → ℕ → Outcome W.Op
  inode_init_loop op zero i = ok op
  inode_init_loop op (suc n) i = do
    ip ← read_inode op i
    op' ← write_inode (record ip { data_bnum = W.logsize + 1 + i }) op
    inode_init_loop op' n (suc i)

  unfoldable pub inode_init : W.Op → Outcome W.Op
  inode_init op = inode_init_loop op (n_inode W) 0
