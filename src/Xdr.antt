-- ===== src/Xdr.antt =====
-- nfstypes/nfs_xdr.go: the methods `Xdr`. Each is a program over the state of a message, from the value
-- that is there to the value after it; `var in` is a zero value. A number of a named type is written by
-- the method of its kind: `Size3` and `Offset3` by that of `Uint64`, `Mode3` and `Count3` by that of
-- `Uint32`, and so on.
pub mod Attributes
pub mod Args
pub mod Replies
pub mod Lists
pub mod Results
pub mod Sends
pub mod Travels
use go_nfsd.Prelude.{ℕ, Bool, if◌then◌else◌, List, none, some}
use go_nfsd.External.Xdr.{Xdr}
use go_nfsd.Programs.{returns, Prog, pure}
use go_nfsd.Nfstypes.{Bytes}

abbrev pub nfs3_fhsize : ℕ
nfs3_fhsize = 64

module _ (X : Xdr) where
  abbrev pub XdrProg : Type 0 → Type 0
  XdrProg A = Prog X.XdrState A

  -- A call of a function of the library.
  unfoldable pub call : {A : Type 0} → (X.XdrState → A × X.XdrState) → XdrProg A
  call f s = returns (f s)

  unfoldable pub xdr_uint32 : ℕ → XdrProg ℕ
  unfolding call
  xdr_uint32 v = call (X.xdr_u32 v)

  unfoldable pub xdr_uint64 : ℕ → XdrProg ℕ
  unfolding call
  xdr_uint64 v = call (X.xdr_u64 v)

  unfoldable pub xdr_boolean : Bool → XdrProg Bool
  unfolding call
  xdr_boolean v = call (X.xdr_bool v)

  -- `Filename3` and `Nfspath3`.
  unfoldable pub xdr_filename3 : Bytes → XdrProg Bytes
  unfolding call
  xdr_filename3 v = call (X.xdr_string none v)

  unfoldable pub xdr_opaque : Bytes → XdrProg Bytes
  unfolding call
  xdr_opaque v = call (X.xdr_var_array none v)

  -- The bytes of a file handle.
  unfoldable pub xdr_fh_bytes : Bytes → XdrProg Bytes
  unfolding call
  xdr_fh_bytes v = call (X.xdr_var_array (some nfs3_fhsize) v)

  -- `Cookieverf3`, `Createverf3` and `Writeverf3`.
  unfoldable pub xdr_verf : Bytes → XdrProg Bytes
  unfolding call
  xdr_verf v = call (X.xdr_array v)

  -- A case of a `switch`: the part of another case stays as it is.
  unfoldable pub xdr_case : {A : Type 0} → Bool → (A → XdrProg A) → A → XdrProg A
  xdr_case b f v = if b then f v else pure v
