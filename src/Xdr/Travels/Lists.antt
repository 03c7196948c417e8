-- ===== src/Xdr/Travels/Lists.antt =====
-- nfstypes/nfs_xdr.go: lists of entries arrive.
use go_nfsd.Prelude.{ℕ, zero, suc, ◌<◌, ◌^◌, ◌≡◌, refl, true, false, List, [], ◌∷◌, length}
use native.Mathlib.Omega.{arith}
use mathlib.Core.List.{◌++◌}
use go_nfsd.Programs.{◌>>=◌}
use go_nfsd.External.Xdr.{Xdr, XdrLaws}
use go_nfsd.Programs.{pure, gets}
use go_nfsd.Nfstypes.Replies.{Entry3, Dirlist3}
use go_nfsd.Nfstypes.Procs.{Entryplus3, Dirlistplus3, zero_dirlistplus}
use go_nfsd.Nfstypes.Results.{ReaddirResok, ReaddirplusResok}
use go_nfsd.Nfstypes.Zeros.{
  zero_dirlist, zero_entry3, zero_entryplus3, zero_readdir_resok, zero_readdirplus_resok,
}
use go_nfsd.Xdr.{XdrProg}
use go_nfsd.Xdr.Sends.{
  Sends, Travels, Sends-pure, Sends-bind, uint64-Travels, boolean-Travels, filename3-Travels,
  verf-Travels,
}
use go_nfsd.Xdr.Travels.Attributes.{
  FitsPostOpAttr, post_op_attr-Travels, FitsPostOpFh3, post_op_fh3-Travels,
}
use go_nfsd.Xdr.Lists.{
  xdr_entry3, xdr_entryplus3, xdr_readdir_resok, xdr_readdirplus_resok, xdr_dirlist3,
  xdr_dirlistplus3, xdr_list, write_list, read_list,
}

pub record FitsEntry3 (v : Entry3) : Type 0 where
  pub fileid : v.fileid < 2 ^ 64
  pub name : length v.name < 2 ^ 32
  pub cookie : v.cookie < 2 ^ 64

pub record FitsEntryplus3 (v : Entryplus3) : Type 0 where
  pub fileid : v.fileid < 2 ^ 64
  pub name : length v.name < 2 ^ 32
  pub cookie : v.cookie < 2 ^ 64
  pub name_attributes : FitsPostOpAttr v.name_attributes
  pub name_handle : FitsPostOpFh3 v.name_handle

abbrev pub AllFit : {E : Type 0} → (E → Type 0) → List E → Type 0
AllFit P [] = Unit
AllFit P (e ∷ es) = P e × AllFit P es

pub record FitsDirlist3 (rounds : ℕ) (v : Dirlist3) : Type 0 where
  pub entries : AllFit FitsEntry3 v.entries
  pub few : length v.entries < rounds

pub record FitsDirlistplus3 (rounds : ℕ) (v : Dirlistplus3) : Type 0 where
  pub entries : AllFit FitsEntryplus3 v.entries
  pub few : length v.entries < rounds

pub record FitsReaddirResok (rounds : ℕ) (v : ReaddirResok) : Type 0 where
  pub dir_attributes : FitsPostOpAttr v.dir_attributes
  pub cookieverf : 8 ≡ length v.cookieverf
  pub reply : FitsDirlist3 rounds v.reply

pub record FitsReaddirplusResok (rounds : ℕ) (v : ReaddirplusResok) : Type 0 where
  pub dir_attributes : FitsPostOpAttr v.dir_attributes
  pub cookieverf : 8 ≡ length v.cookieverf
  pub reply : FitsDirlistplus3 rounds v.reply

module _ (X : Xdr) (L : XdrLaws X) where
  module _ {E : Type 0} (P : E → Type 0) (f : E → XdrProg X E) (z : E)
      (arrives : (e : E) → P e → Travels X L f z e) where
    list-Sends :
        (rounds : ℕ) (es : List E)
        → AllFit P es
        → length es < rounds
        → Sends X L (write_list X f es) (read_list X f z rounds []) es
    unfolding write_list read_list
    list-Sends zero es fit few = absurd (omega (arith, few))
    list-Sends (suc n) [] fit few =
        Sends-bind X L _ _ (boolean-Travels X L false false) (Sends-pure X L [])
    list-Sends (suc n) (e ∷ es) fit few = Sends-bind X L _ _ (boolean-Travels X L false true) (
        Sends-bind X L _ _ (arrives e fit.0) (
          Sends-bind X L _ _ (list-Sends n es fit.1 (omega (arith, few)))
            (Sends-pure X L (e ∷ es))))

    list-Travels :
        (rounds : ℕ) (es : List E)
        → AllFit P es
        → length es < rounds
        → Travels X L (xdr_list X f z rounds) [] es
    unfolding xdr_list ◌>>=◌ gets pure
    list-Travels rounds es fit few =
        let s = list-Sends rounds es fit few in
        record {
          bytes = s.bytes;
          writes = λ b. rw (L.encoding_writer b, s.writes b, L.decoding_writer (b ++ s.bytes)) refl;
          reads = λ b.
              rw (L.encoding_reader (s.bytes ++ b), L.decoding_reader (s.bytes ++ b), s.reads b)
                refl;
        }

  pub entry3-Travels : (v : Entry3) → FitsEntry3 v → Travels X L (xdr_entry3 X) zero_entry3 v
  unfolding xdr_entry3
  entry3-Travels v fits = Sends-bind X L _ _ (uint64-Travels X L _ _ fits.fileid) (
      Sends-bind X L _ _ (filename3-Travels X L _ _ fits.name)
        (Sends-bind X L _ _ (uint64-Travels X L _ _ fits.cookie) (Sends-pure X L _)))

  pub entryplus3-Travels :
      (v : Entryplus3) → FitsEntryplus3 v → Travels X L (xdr_entryplus3 X) zero_entryplus3 v
  unfolding xdr_entryplus3
  entryplus3-Travels v fits = Sends-bind X L _ _ (uint64-Travels X L _ _ fits.fileid) (
      Sends-bind X L _ _ (filename3-Travels X L _ _ fits.name) (
        Sends-bind X L _ _ (uint64-Travels X L _ _ fits.cookie) (
          Sends-bind X L _ _ (post_op_attr-Travels X L _ fits.name_attributes)
            (Sends-bind X L _ _ (post_op_fh3-Travels X L _ fits.name_handle) (Sends-pure X L _)))))

  dirlist3-Travels :
      (rounds : ℕ) (v : Dirlist3)
      → FitsDirlist3 rounds v
      → Travels X L (xdr_dirlist3 X rounds) zero_dirlist v
  unfolding xdr_dirlist3
  dirlist3-Travels rounds v fits =
      Sends-bind X L _ _
        (list-Travels FitsEntry3 (xdr_entry3 X) zero_entry3 entry3-Travels rounds v.entries
          fits.entries fits.few)
        (Sends-bind X L _ _ (boolean-Travels X L _ _) (Sends-pure X L _))

  dirlistplus3-Travels :
      (rounds : ℕ) (v : Dirlistplus3)
      → FitsDirlistplus3 rounds v
      → Travels X L (xdr_dirlistplus3 X rounds) zero_dirlistplus v
  unfolding xdr_dirlistplus3
  dirlistplus3-Travels rounds v fits =
      Sends-bind X L _ _
        (list-Travels FitsEntryplus3 (xdr_entryplus3 X) zero_entryplus3 entryplus3-Travels rounds
          v.entries fits.entries fits.few)
        (Sends-bind X L _ _ (boolean-Travels X L _ _) (Sends-pure X L _))

  pub readdir_resok-Travels :
      (rounds : ℕ) (v : ReaddirResok)
      → FitsReaddirResok rounds v
      → Travels X L (xdr_readdir_resok X rounds) zero_readdir_resok v
  unfolding xdr_readdir_resok
  readdir_resok-Travels rounds v fits =
      Sends-bind X L _ _ (post_op_attr-Travels X L _ fits.dir_attributes) (
        Sends-bind X L _ _ (verf-Travels X L _ _ fits.cookieverf)
          (Sends-bind X L _ _ (dirlist3-Travels rounds _ fits.reply) (Sends-pure X L _)))

  pub readdirplus_resok-Travels :
      (rounds : ℕ) (v : ReaddirplusResok)
      → FitsReaddirplusResok rounds v
      → Travels X L (xdr_readdirplus_resok X rounds) zero_readdirplus_resok v
  unfolding xdr_readdirplus_resok
  readdirplus_resok-Travels rounds v fits =
      Sends-bind X L _ _ (post_op_attr-Travels X L _ fits.dir_attributes) (
        Sends-bind X L _ _ (verf-Travels X L _ _ fits.cookieverf)
          (Sends-bind X L _ _ (dirlistplus3-Travels rounds _ fits.reply) (Sends-pure X L _)))
