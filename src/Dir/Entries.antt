-- ===== src/Dir/Entries.antt =====
-- dir/dir.go: the code of a directory entry.
use go_nfsd.Prelude.{
  ℕ, ◌+◌, ◌-◌, ◌≤◌, ◌≡◌, refl, Bool, ◌||◌, [], ◌∷◌, length, name_eq, Outcome, ok, ◌>>=◌, IsU64,
  replicate, ◌++◌, arith,
}
use go_nfsd.External.World.{World, WorldLaws}
use go_nfsd.External.Marshal.Chunks.{
  Wrote-new_enc, put_int_chunk, put_bytes_chunk, finish_chunks, flat, Reads-new_dec, get_int_chunk,
  get_bytes_chunk,
}
use go_nfsd.Nfstypes.{Bytes}

abbrev pub direntsz : ℕ
direntsz = 128

abbrev pub maxnamelen : ℕ
maxnamelen = direntsz - 16

pub record DirEnt : Type 0 where
  pub inum : ℕ
  pub name : Bytes

-- "." and ".."
unfoldable pub illegal_name : Bytes → Bool
illegal_name n = name_eq n (46 ∷ []) || name_eq n (46 ∷ 46 ∷ [])

module _ (W : World) where
  unfoldable pub encode_dir_ent : DirEnt → Outcome Bytes
  encode_dir_ent de = do
    enc ← W.put_int (W.new_enc direntsz) de.inum
    enc ← W.put_int enc (length de.name)
    enc ← W.put_bytes enc de.name
    ok (W.finish enc)

  unfoldable pub decode_dir_ent : Bytes → Outcome DirEnt
  decode_dir_ent d = do
    (inum, dec) ← W.get_int (W.new_dec d)
    (l, dec) ← W.get_int dec
    (name, _) ← W.get_bytes dec l
    ok (record { inum = inum; name = name })

module _ (W : World) (H : WorldLaws W) where
  -- An entry with a 64-bit inode number and a name of 112 bytes or less, which is the bound that the
  -- source states, is encoded without a panic, and decoding the bytes gives the entry back.
  pub decode_dir_ent-encode_dir_ent :
      (de : DirEnt)
      → IsU64 de.inum
      → length de.name ≤ maxnamelen
      → (encode_dir_ent W de >>= λ bytes. decode_dir_ent W bytes) ≡ ok de
  unfolding encode_dir_ent decode_dir_ent
  decode_dir_ent-encode_dir_ent de hi hn =
      let M = H.marshal in
      let k = length de.name in
      let (e1, run1, w1) = put_int_chunk M de.inum (Wrote-new_enc M 128) (omega arith) in
      let (e2, run2, w2) = put_int_chunk M k w1 (omega arith) in
      let (e3, run3, w3) = put_bytes_chunk M de.name w2 (omega arith) in
      let cs = M.int_bytes de.inum ∷ M.int_bytes k ∷ de.name ∷ [] in
      let pad : Bytes = replicate (128 - (16 + k)) 0 in
      let done : W.finish e3 ≡ flat cs ++ pad = finish_chunks M w3 (omega arith) in
      let (d1, got1, r1) = get_int_chunk M de.inum hi (Reads-new_dec M cs pad) in
      let (d2, got2, r2) = get_int_chunk M k (omega arith) r1 in
      let (d3, got3, _) = get_bytes_chunk M de.name r2 in
      rw (run1, run2, run3, done, got1, got2, got3) refl
