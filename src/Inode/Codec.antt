-- ===== src/Inode/Codec.antt =====
-- inode/inode.go `Encode` and `Decode`: what is written to the disk is read back.
use go_nfsd.Prelude.{
  ℕ, ◌-◌, ◌*◌, ◌+◌, ◌≤◌, ◌<◌, ◌^◌, ◌≡◌, refl, sym, ap, ◌∙◌, subst, none, List, [], ◌∷◌, ◌++◌,
  length, length-append, replicate, ok, ◌>>=◌, IsU64, arith,
}
use go_nfsd.External.World.{World, WorldLaws}
use go_nfsd.External.Marshal.{ints_bytes, AllU64}
use go_nfsd.External.Marshal.Chunks.{
  flat, length-ints_bytes, Wrote, Wrote-new_enc, put_int_chunk, put_int32_chunk, put_ints_chunk,
  finish_chunks, Reads-new_dec, get_int_chunk, get_int32_chunk, get_ints_chunk,
}
use go_nfsd.Nfstypes.{Bytes}
use go_nfsd.Inode.Layout.{Inode, nblkino, encode, decode}

-- The fields fit their words, and there are ten blocks.
pub record Encodable (ip : Inode) : Type 0 where
  pub kind : ip.kind < 2 ^ 32
  pub nlink : ip.nlink < 2 ^ 32
  pub gen : IsU64 ip.gen
  pub size : IsU64 ip.size
  pub shrink_size : IsU64 ip.shrink_size
  pub asec : ip.atime.seconds < 2 ^ 32
  pub ansec : ip.atime.nseconds < 2 ^ 32
  pub msec : ip.mtime.seconds < 2 ^ 32
  pub mnsec : ip.mtime.nseconds < 2 ^ 32
  pub length-blks : length ip.blks ≡ nblkino
  pub blks : AllU64 ip.blks

module _ (W : World) (H : WorldLaws W) (ip : Inode) where
  chunks : List Bytes
  chunks =
      H.int32_bytes ip.kind
      ∷ H.int32_bytes ip.nlink
      ∷ H.int_bytes ip.gen
      ∷ H.int_bytes ip.size
      ∷ H.int_bytes ip.shrink_size
      ∷ H.int32_bytes ip.atime.seconds
      ∷ H.int32_bytes ip.atime.nseconds
      ∷ H.int32_bytes ip.mtime.seconds
      ∷ H.int32_bytes ip.mtime.nseconds
      ∷ ints_bytes H.int_bytes ip.blks
      ∷ []

  pub bytes : Bytes
  bytes = flat chunks ++ replicate (128 - (48 + 8 * length ip.blks)) 0

  long : (x : ℕ) (t : Bytes) (k : ℕ) → length t ≡ k → length (H.int_bytes x ++ t) ≡ 8 + k
  long x t k h = omega (arith, length-append (H.int_bytes x) t, H.length-int_bytes x, h)

  short : (x : ℕ) (t : Bytes) (k : ℕ) → length t ≡ k → length (H.int32_bytes x ++ t) ≡ 4 + k
  short x t k h = omega (arith, length-append (H.int32_bytes x) t, H.length-int32_bytes x, h)

  length-chunks : length ip.blks ≡ nblkino → length (flat chunks) ≡ 128
  unfolding chunks
  length-chunks ten =
      let blocks : length (ints_bytes H.int_bytes ip.blks ++ []) ≡ 80 = omega (
        arith,
        length-append (ints_bytes H.int_bytes ip.blks) [],
        length-ints_bytes H.marshal ip.blks,
        ten,
      ) in
      short ip.kind _ _ (
        short ip.nlink _ _ (
          long ip.gen _ _ (
            long ip.size _ _ (
              long ip.shrink_size _ _ (
                short ip.atime.seconds _ _ (
                  short ip.atime.nseconds _ _
                    (short ip.mtime.seconds _ _ (short ip.mtime.nseconds _ _ blocks))))))))

  pub length-bytes : Encodable ip → length bytes ≡ 128
  unfolding bytes
  length-bytes h =
      let none : 128 - (48 + 8 * length ip.blks) ≡ 0 = omega (arith, h.length-blks) in
      ap (λ n. length (flat chunks ++ replicate n 0)) none
      ∙ length-append (flat chunks) []
      ∙ (let all : length (flat chunks) ≡ 128 = length-chunks h.length-blks in omega (arith, all))

  pub encode_lem : Encodable ip → encode W ip ≡ ok bytes
  unfolding encode chunks bytes
  encode_lem h =
      let M = H.marshal in
      let blks_fit : 48 + 8 * length ip.blks ≤ 128 = omega (arith, h.length-blks) in
      let (e1, run1, w1) = put_int32_chunk M ip.kind start (omega arith) in
      let (e2, run2, w2) = put_int32_chunk M ip.nlink w1 (omega arith) in
      let (e3, run3, w3) = put_int_chunk M ip.gen w2 (omega arith) in
      let (e4, run4, w4) = put_int_chunk M ip.size w3 (omega arith) in
      let (e5, run5, w5) = put_int_chunk M ip.shrink_size w4 (omega arith) in
      let (e6, run6, w6) = put_int32_chunk M ip.atime.seconds w5 (omega arith) in
      let (e7, run7, w7) = put_int32_chunk M ip.atime.nseconds w6 (omega arith) in
      let (e8, run8, w8) = put_int32_chunk M ip.mtime.seconds w7 (omega arith) in
      let (e9, run9, w9) = put_int32_chunk M ip.mtime.nseconds w8 (omega arith) in
      let (e10, run10, w10) = put_ints_chunk M ip.blks w9 blks_fit in
      rw (run1, run2, run3, run4, run5, run6, run7, run8, run9, run10)
        (ap ok (finish_chunks M w10 blks_fit))
    where
      start : Wrote H.marshal (W.new_enc W.inodesz) [] 0 128
      start =
          subst (λ n. Wrote H.marshal (W.new_enc W.inodesz) [] 0 n) H.inodesz_lem
            (Wrote-new_enc H.marshal W.inodesz)

  decode_lem : Encodable ip → decode W bytes ip.inum ≡ ok (record ip { dcache = none })
  unfolding decode chunks bytes
  decode_lem h =
      let M = H.marshal in
      let pad : Bytes = replicate (128 - (48 + 8 * length ip.blks)) 0 in
      let (d1, got1, r1) = get_int32_chunk M ip.kind h.kind (Reads-new_dec M chunks pad) in
      let (d2, got2, r2) = get_int32_chunk M ip.nlink h.nlink r1 in
      let (d3, got3, r3) = get_int_chunk M ip.gen h.gen r2 in
      let (d4, got4, r4) = get_int_chunk M ip.size h.size r3 in
      let (d5, got5, r5) = get_int_chunk M ip.shrink_size h.shrink_size r4 in
      let (d6, got6, r6) = get_int32_chunk M ip.atime.seconds h.asec r5 in
      let (d7, got7, r7) = get_int32_chunk M ip.atime.nseconds h.ansec r6 in
      let (d8, got8, r8) = get_int32_chunk M ip.mtime.seconds h.msec r7 in
      let (d9, got9, r9) = get_int32_chunk M ip.mtime.nseconds h.mnsec r8 in
      let (d10, got10, _) = get_ints_chunk M ip.blks h.blks r9 in
      let all : W.get_ints d9 nblkino ≡ ok (ip.blks, d10) =
        ap (W.get_ints d9) (sym h.length-blks) ∙ got10 in
      rw (got1, got2, got3, got4, got5, got6, got7, got8, got9, all) refl

  -- An inode with ten blocks, whose fields fit their words, is encoded without a panic, and decoding the
  -- bytes under the same number gives the inode back, without its name cache.
  pub decode-encode_inode :
      Encodable ip
      → (encode W ip >>= λ buf. decode W buf ip.inum) ≡ ok (record ip { dcache = none })
  decode-encode_inode h = rw (encode_lem h) (decode_lem h)
