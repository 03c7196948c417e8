-- ===== src/Xdr/Sends.antt =====
-- nfstypes/nfs_xdr.go: what a message that was written carries to the one that reads it.
use go_nfsd.Prelude.{
  ℕ, ◌<◌, ◌^◌, ◌≡◌, refl, ap, Bool, true, false, [], ◌++◌, length, none, some, ◌≤◌, arith,
}
use mathlib.Core.List.{append-nil, append_assoc}
use go_nfsd.External.Xdr.{Xdr, XdrLaws, Within}
use go_nfsd.Programs.{returns, pure, ◌>>=◌}
use go_nfsd.Nfstypes.{Bytes}
use go_nfsd.Xdr.{
  XdrProg, call, xdr_uint32, xdr_uint64, xdr_boolean, xdr_filename3, xdr_opaque, xdr_verf,
  xdr_fh_bytes, xdr_case,
}

-- The part of one case of a `switch`: in the other cases it is zero.
abbrev pub Arm : Bool → Type 0 → Type 0 → Type 0
Arm b P E = (b ≡ true → P) × (b ≡ false → E)

module _ (X : Xdr) (L : XdrLaws X) where
  -- `p` writes some bytes and `q` reads them back, from before any others: both end with `a`.
  pub record Sends {A : Type 0} (p q : XdrProg X A) (a : A) : Type 0 where
    pub bytes : Bytes
    pub writes : (b : Bytes) → p (L.writer b) ≡ returns (a, L.writer (b ++ bytes))
    pub reads : (b : Bytes) → q (L.reader (bytes ++ b)) ≡ returns (a, L.reader b)

  -- A value that is written arrives, whatever was in its place.
  abbrev pub Travels : {A : Type 0} (f : A → XdrProg X A) (z v : A) → Type 0
  Travels f z v = Sends (f v) (f z) v

  pub Sends-pure : {A : Type 0} (a : A) → Sends (pure a) (pure a) a
  unfolding pure
  Sends-pure a = record { bytes = []; writes = λ b. rw (append-nil b); reads = λ b. refl }

  pub Sends-bind :
      {A B : Type 0} {p q : XdrProg X A} (f g : A → XdrProg X B) {a : A} {c : B}
      → Sends p q a
      → Sends (f a) (g a) c
      → Sends (p >>= f) (q >>= g) c
  unfolding ◌>>=◌
  Sends-bind f g s t = record {
    bytes = s.bytes ++ t.bytes;
    writes = λ b. rw (s.writes b, t.writes (b ++ s.bytes), append_assoc b s.bytes t.bytes);
    reads = λ b. rw (append_assoc s.bytes t.bytes b, s.reads (t.bytes ++ b), t.reads b);
  }

  pub Sends-call :
      {A : Type 0} (f g : X.XdrState → A × X.XdrState) {a : A} (bytes : Bytes)
      → ((b : Bytes) → f (L.writer b) ≡ (a, L.writer (b ++ bytes)))
      → ((b : Bytes) → g (L.reader (bytes ++ b)) ≡ (a, L.reader b))
      → Sends (call X f) (call X g) a
  unfolding call
  Sends-call f g bytes w r = record {
    bytes = bytes;
    writes = λ b. ap returns (w b);
    reads = λ b. ap returns (r b);
  }

  pub uint32-Travels : (z v : ℕ) → v < 2 ^ 32 → Travels (xdr_uint32 X) z v
  unfolding xdr_uint32
  uint32-Travels z v h = Sends-call _ _ (L.u32_bytes v) (L.write_u32 v) (λ b. L.read_u32 z v b h)

  pub uint64-Travels : (z v : ℕ) → v < 2 ^ 64 → Travels (xdr_uint64 X) z v
  unfolding xdr_uint64
  uint64-Travels z v h = Sends-call _ _ (L.u64_bytes v) (L.write_u64 v) (λ b. L.read_u64 z v b h)

  pub boolean-Travels : (z v : Bool) → Travels (xdr_boolean X) z v
  unfolding xdr_boolean
  boolean-Travels z v = Sends-call _ _ (L.bool_bytes v) (L.write_bool v) (L.read_bool z v)

  pub filename3-Travels : (z v : Bytes) → length v < 2 ^ 32 → Travels (xdr_filename3 X) z v
  unfolding xdr_filename3
  filename3-Travels z v h =
      Sends-call _ _ (L.slice_bytes v) (λ b. L.write_string none v b h)
        (λ b. L.read_string none z v b h)

  pub opaque-Travels : (z v : Bytes) → length v < 2 ^ 32 → Travels (xdr_opaque X) z v
  unfolding xdr_opaque
  opaque-Travels z v h =
      Sends-call _ _ (L.slice_bytes v) (λ b. L.write_var_array none v b h)
        (λ b. L.read_var_array none z v b h)

  pub fh_bytes-Travels : (z v : Bytes) → length v ≤ 64 → Travels (xdr_fh_bytes X) z v
  unfolding xdr_fh_bytes
  fh_bytes-Travels z v h =
      let fits : Within (some 64) (length v) = (h, omega (arith, h)) in
      Sends-call _ _ (L.slice_bytes v) (λ b. L.write_var_array (some 64) v b fits)
        (λ b. L.read_var_array (some 64) z v b fits)

  pub verf-Travels : (z v : Bytes) → length z ≡ length v → Travels (xdr_verf X) z v
  unfolding xdr_verf
  verf-Travels z v h =
      Sends-call _ _ (L.array_bytes v) (L.write_array v) (λ b. L.read_array z v b h)

  pub case-Travels :
      {A : Type 0} (b : Bool) (f : A → XdrProg X A) (z v : A)
      → (b ≡ true → Travels f z v)
      → (b ≡ false → v ≡ z)
      → Travels (xdr_case X b f) z v
  unfolding xdr_case
  case-Travels true f z v here else_same = here refl
  case-Travels false f z v here else_same = rw (else_same refl) (Sends-pure z)
