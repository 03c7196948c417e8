-- ===== src/Simple/Codec.antt =====
-- simple/inode.go `Encode` and `Decode`, simple/fh.go: what is encoded decodes to itself.
use go_nfsd.Prelude.{ℕ, ◌≡◌, ok, ◌>>=◌, IsU64, arith}
use go_nfsd.External.World.{World, WorldLaws}
use go_nfsd.External.Marshal.Runs.{two_ints, encode_two, decode_two, encode_one, decode_one}
use go_nfsd.Nfstypes.{Bytes}
use go_nfsd.Simple.Layout.{Fh, make_fh, make_fh3}
use go_nfsd.Simple.Inode.{Inode, encode, decode}

module _ (W : World) (H : WorldLaws W) where
  -- An inode's size and block, padded to the size of an inode.
  abbrev pub inode_bytes : ℕ → ℕ → Bytes
  inode_bytes size data_bnum = two_ints H.marshal W.inodesz size data_bnum

  pub encode_lem : (ip : Inode) → encode W ip ≡ ok (inode_bytes ip.size ip.data_bnum)
  unfolding encode
  encode_lem ip = encode_two H.marshal W.inodesz ip.size ip.data_bnum (omega (arith, H.inodesz_lem))

  pub decode_lem :
      (size data_bnum inum : ℕ)
      → IsU64 size
      → IsU64 data_bnum
      → decode W (inode_bytes size data_bnum) inum
        ≡ ok (record { inum = inum; size = size; data_bnum = data_bnum })
  unfolding decode
  decode_lem size data_bnum inum hs hd =
      let (d, d', run, run') = decode_two H.marshal W.inodesz size data_bnum hs hd in rw (run, run')

  -- An inode whose size and block number are 64-bit words is encoded without a panic, and decoding
  -- the bytes under the same inode number gives the inode back.
  pub decode-encode :
      (ip : Inode)
      → IsU64 ip.size
      → IsU64 ip.data_bnum
      → (encode W ip >>= λ bytes. decode W bytes ip.inum) ≡ ok ip
  decode-encode ip hs hd = rw (encode_lem ip) (decode_lem ip.size ip.data_bnum ip.inum hs hd)

  -- A file handle that the server makes for a 64-bit inode number is read back as that number.
  pub make_fh-make_fh3 : (fh : Fh) → IsU64 fh.ino → (make_fh3 W fh >>= λ fh3. make_fh W fh3) ≡ ok fh
  unfolding make_fh make_fh3
  make_fh-make_fh3 fh h =
      let (e, run, done) = encode_one H.marshal 16 fh.ino (omega arith) in
      let (d, run') = decode_one H.marshal 16 fh.ino h in rw (run, done, run')
