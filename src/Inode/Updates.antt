-- ===== src/Inode/Updates.antt =====
-- inode/inode.go: a read after a write.
use go_nfsd.Prelude.{
  ℕ, suc, ◌+◌, ◌*◌, ◌/◌, ◌≤◌, ◌<◌, ◌^◌, ◌≡◌, ◌≢◌, refl, sym, ap, ◌∙◌, subst, List, [], ◌∷◌, inl,
  inr, true, false, length, length-take, take, drop, get_elem?, some, ok, ltb, leb, lt→ltb, le→ltb,
  ltb→lt, ltb→le, Bool-cases, splice, write_at, if◌then◌else◌, add64, IsU64, arith,
}
use go_nfsd.Prelude.SliceLaws.{
  length-splice, take-splice, write_at-take, length-write_at, length-write_at_grow,
}
use go_nfsd.External.World.{World, WorldLaws}
use go_nfsd.Nfstypes.{Bytes}
use go_nfsd.Super.{FsSuper, mk_fs_super, n_inode, inum2addr, data_start}
use go_nfsd.Super.Regions.{inodes_lem}
use go_nfsd.Alloctxn.{AllocTxn}
use go_nfsd.Alloctxn.Calls.{InData}
use go_nfsd.Inode.Layout.{Inode, ndirect, write_inode, max_file_size}
use go_nfsd.Inode.Codec.{Encodable, bytes, length-bytes, encode_lem}
use go_nfsd.Inode.Data.{Writing, read, write, write_loop, write_end}
use go_nfsd.Inode.Contents.{concat}
use go_nfsd.Inode.Reading.{read_slice}
use go_nfsd.Inode.Rounds.{Same}
use go_nfsd.Inode.Filled.{Fills, Fills-Stores, Fills-Same, Distinct}
use go_nfsd.Inode.Whole.{write_file_loop}

lt→leb : (a b : ℕ) → b < a → leb a b ≡ false
lt→leb a b h = ground arith

module _ (W : World) (H : WorldLaws W) where
  below_data :
      (sz : ℕ) (super : FsSuper) (inum : ℕ)
      → IsU64 sz
      → super ≡ mk_fs_super W sz
      → inum < n_inode W super
      → W.blkno (inum2addr W super inum) < data_start super
  below_data sz super inum small is lt =
      let there = (inodes_lem W H sz small inum (subst (λ s. inum < n_inode W s) is lt)).1 in
      subst (λ s. W.blkno (inum2addr W s inum) < data_start s) (sym is) there

  -- Writing an inode changes no block of the data region.
  pub write_inode_lem :
      (sz : ℕ) (ip : Inode) (atxn : AllocTxn W)
      → IsU64 sz
      → atxn.super ≡ mk_fs_super W sz
      → ip.inum < n_inode W atxn.super
      → Encodable ip
      → (op' : W.Op) × (write_inode W ip atxn ≡ ok (record atxn { op = op' }))
        × ((b : ℕ) → InData W atxn.super b → Same W H atxn.op op' b)
  unfolding write_inode
  write_inode_lem sz ip atxn small is lt fields =
      let d = bytes W H ip in
      let addr = inum2addr W atxn.super ip.inum in
      let below = below_data sz atxn.super ip.inum small is lt in
      (
        W.over_write atxn.op addr (W.inodesz * 8) d,
        rw (lt→leb (n_inode W atxn.super) ip.inum lt, encode_lem W H ip fields) refl,
        λ b in_data a m at pos.
            H.over_write_apart atxn.op addr W.inodesz d a m
              (length-bytes W H ip fields ∙ sym H.inodesz_lem) (omega (arith, H.inodesz_lem)) pos
              (inl (λ e. omega (arith, below, in_data, at, e))),
      )

  -- The blocks of an inode with other fields.
  pub Fills-blks :
      (ip ip' : Inode) (atxn : AllocTxn W) (boff : ℕ) (bs : List Bytes)
      → ip'.blks ≡ ip.blks
      → Fills W H ip atxn boff bs
      → Fills W H ip' atxn boff bs
  Fills-blks ip ip' atxn boff [] same fills = tt
  Fills-blks ip ip' atxn boff (b ∷ bs) same fills =
      let d = fills.0 in
      (
        record {
          direct = d.direct;
          blkno = d.blkno;
          at = ap (λ l. get_elem? l boff) same ∙ d.at;
          there = d.there;
          in_data = d.in_data;
          content = d.content;
        },
        Fills-blks ip ip' atxn (suc boff) bs same fills.1,
      )

  Encodable-size :
      (ip : Inode) (size : ℕ) → Encodable ip → IsU64 size → Encodable (record ip { size = size })
  Encodable-size ip size h small = record {
    kind = h.kind;
    nlink = h.nlink;
    gen = h.gen;
    size = small;
    shrink_size = h.shrink_size;
    asec = h.asec;
    ansec = h.ansec;
    msec = h.msec;
    mnsec = h.mnsec;
    length-blks = h.length-blks;
    blks = h.blks;
  }

  -- The size after a write, and the part of the blocks in use.
  record NewSize (ip : Inode) (offset : ℕ) (d c : Bytes) : Type 0 where
    pub size : ℕ
    pub resized :
        (if ltb ip.size (add64 offset (length d))
          then record ip { size = add64 offset (length d) }
          else ip)
        ≡ record ip { size = size }
    pub used : take size (splice c offset d) ≡ write_at (take ip.size c) offset d
    pub inside : size ≤ length c
    pub size_lem : length (write_at (take ip.size c) offset d) ≡ size
    pub small : IsU64 size

  new_size :
      (ip : Inode) (offset : ℕ) (d c : Bytes)
      → offset ≤ ip.size
      → ip.size ≤ length c
      → offset + length d ≤ length c
      → offset + length d < 2 ^ 64
      → IsU64 ip.size
      → NewSize ip offset d c
  new_size ip offset d c start fits room small small_size =
      let f = take ip.size c in
      let len : length f ≡ ip.size = omega (arith, length-take ip.size c, fits) in
      let sum : add64 offset (length d) ≡ offset + length d = omega (arith, small) in
      elim (Bool-cases (ltb ip.size (offset + length d))) [
        | inl grows ↦
            let lt = ltb→lt ip.size (offset + length d) grows in
            record {
              size = offset + length d;
              resized = rw (sum, grows) refl;
              used =
                  take-splice c offset d (offset + length d) (omega arith) room
                  ∙ write_at-take c offset d (offset + length d) ip.size start (omega (arith, lt))
                      (omega arith);
              inside = room;
              size_lem =
                  length-write_at_grow f offset d (omega (arith, len, start))
                    (omega (arith, len, lt));
              small = omega (arith, small);
            }
        | inr stays ↦
            let le = ltb→le ip.size (offset + length d) stays in
            record {
              size = ip.size;
              resized = rw (sum, stays) refl;
              used = take-splice c offset d ip.size le fits;
              inside = fits;
              size_lem = length-write_at f offset d (omega (arith, len, le)) ∙ len;
              small = small_size;
            }
      ]

  write_end_lem :
      (w : Writing W) (offset size : ℕ) (atxn' : AllocTxn W)
      → w.alloc ≡ false
      → 0 < w.cnt
      → (if ltb w.ip.size (add64 offset w.cnt)
          then record w.ip { size = add64 offset w.cnt }
          else w.ip)
        ≡ record w.ip { size = size }
      → write_inode W (record w.ip { size = size }) w.atxn ≡ ok atxn'
      → write_end W w offset ≡ ok (w.cnt, true, record w.ip { size = size }, atxn')
  unfolding write_end
  write_end_lem w offset size atxn' none pos is run = rw (none, lt→ltb 0 w.cnt pos, is, run) refl

  -- The blocks after the write, read under the new size.
  reads_back :
      (ip : Inode) (atxn : AllocTxn W) (offset o n : ℕ) (d c : Bytes) (blocks : List Bytes)
      (ns : NewSize ip offset d c)
      → Fills W H (record ip { size = ns.size }) atxn 0 blocks
      → concat blocks ≡ splice c offset d
      → o + n < 2 ^ 64
      → read W (record ip { size = ns.size }) atxn o n
        ≡ ok (
          take n (drop o (write_at (take ip.size c) offset d)),
          leb (length (write_at (take ip.size c) offset d)) o,
          record ip { size = ns.size },
          atxn,
        )
  reads_back ip atxn offset o n d c blocks ns fills content small =
      let ip' : Inode = record ip { size = ns.size } in
      let len : length (concat blocks) ≡ length c = ap length content ∙ length-splice c offset d in
      let used : take ns.size (concat blocks) ≡ write_at (take ip.size c) offset d =
        ap (λ x. take ns.size x) content ∙ ns.used in
      read_slice W H ip' atxn o n blocks (Fills-Stores W H ip' atxn 0 blocks fills)
        (omega (arith, ns.inside, len)) small
      ∙ ap (λ f. ok (take n (drop o f), leb ns.size o, ip', atxn)) used
      ∙ ap (λ k. ok (take n (drop o (write_at (take ip.size c) offset d)), leb k o, ip', atxn))
          (sym ns.size_lem)

  -- A file has its blocks among the direct ones, each of them once, and they hold at least as many bytes
  -- as its size is; the disk has the layout of MkFsSuper. A write of one byte or more, from an offset that is not
  -- beyond the end of the file, into the blocks that are there, over as many of them as it takes, and no further
  -- than the largest file, writes everything and does not panic. Afterwards any read, whose end is below 2^64, returns
  -- the bytes of the file with the written ones in place, which may lie beyond the old end, and says end of file
  -- where it starts beyond the new end; and no block of the data region changes that is not one of the file's.
  pub read_after_write :
      (sz : ℕ) (ip : Inode) (atxn : AllocTxn W) (offset : ℕ) (d : Bytes) (bs : List Bytes)
      → IsU64 sz
      → atxn.super ≡ mk_fs_super W sz
      → ip.inum < n_inode W atxn.super
      → Encodable ip
      → Distinct W H ip
      → Fills W H ip atxn 0 bs
      → 0 < length d
      → offset ≤ ip.size
      → ip.size ≤ length (concat bs)
      → offset + length d ≤ length (concat bs)
      → offset + length d < 2 ^ 64
      → offset + length d ≤ max_file_size W
      → (ip' : Inode) × (atxn' : AllocTxn W) × (write W ip atxn offset (length d) d
          ≡ ok (length d, true, ip', atxn'))
        × ((o n : ℕ)
            → o + n < 2 ^ 64
            → read W ip' atxn' o n
              ≡ ok (
                take n (drop o (write_at (take ip.size (concat bs)) offset d)),
                leb (length (write_at (take ip.size (concat bs)) offset d)) o,
                ip',
                atxn',
              ))
        × ((b : ℕ)
            → InData W atxn.super b
            → ((i : ℕ) → i < ndirect → get_elem? ip.blks i ≢ some b)
            → Same W H atxn.op atxn'.op b)
  unfolding write
  read_after_write sz ip atxn offset d bs small_sz is lt fields once fills pos start fits room small
        in_max =
      let w0 : Writing W = record {
        ip = ip;
        atxn = atxn;
        cnt = 0;
        no_room = false;
        alloc = false;
      } in
      let loop = write_file_loop W H w0 offset d bs once fills room small in
      let ns = new_size ip offset d (concat bs) start fits room small fields.size in
      let ip' : Inode = record ip { size = ns.size } in
      let atxn1 : AllocTxn W = record atxn { op = loop.op } in
      let (op2, wrote, same) =
        write_inode_lem sz ip' atxn1 small_sz is lt (Encodable-size ip ns.size fields ns.small) in
      let atxn2 : AllocTxn W = record atxn { op = op2 } in
      let w1 : Writing W = record w0 { atxn = atxn1; cnt = length d } in
      let cnt : loop.cnt ≡ length d = omega (arith, loop.count) in
      let runs : write_loop W (length d) w0 (offset / W.block_size) offset (length d) d ≡ ok w1 =
        loop.runs ∙ ap (λ c. ok (record w0 { atxn = atxn1; cnt = c })) cnt in
      let sum : add64 offset (length d) ≡ offset + length d = omega (arith, small) in
      let ended = write_end_lem w1 offset ns.size atxn2 refl pos ns.resized wrote in
      let fills2 =
        Fills-Same W H ip' atxn1 op2 0 loop.blocks
          (λ i b le up direct ne at in_data. same b in_data)
          (Fills-blks ip ip' atxn1 0 loop.blocks refl loop.fills) in
      (
        ip',
        atxn2,
        rw (sum, le→ltb (max_file_size W) (offset + length d) in_max, runs) ended,
        λ o n h. reads_back ip atxn2 offset o n d (concat bs) loop.blocks ns fills2 loop.content h,
        λ b in_data h a m at more.
            same b in_data a m at more ∙ loop.others b (λ i le. h i) a m at more,
      )
