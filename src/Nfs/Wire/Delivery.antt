-- ===== src/Nfs/Wire/Delivery.antt =====
-- nfstypes/nfs_xdr.go: a reply that fits in a message is read by the client as it was written.
use mathlib.Core.List.{append-nil}
use go_nfsd.Prelude.{ℕ, ◌≡◌, refl, [], subst}
use go_nfsd.External.Xdr.{Xdr, XdrLaws}
use go_nfsd.Programs.{◌>>=◌, pure, returns}
use go_nfsd.Nfstypes.{Bytes, zero_fattr}
use go_nfsd.Nfstypes.Procs.{zero_post_op_attr}
use go_nfsd.Nfstypes.Results.{ResOf}
use go_nfsd.Nfstypes.Zeros.{
  zero_wcc_data, zero_lookup_resok, zero_access_resok, zero_readlink_resok, zero_read_resok,
  zero_write_resok, zero_create_resok, zero_rename_wcc, zero_link_wcc, zero_fsstat_resok,
  zero_fsinfo_resok, zero_pathconf_resok, zero_commit_resok, zero_readdir_resok,
  zero_readdirplus_resok,
}
use go_nfsd.Xdr.{XdrProg}
use go_nfsd.Xdr.Sends.{Travels}
use go_nfsd.Xdr.Attributes.{xdr_fattr3, xdr_post_op_attr, xdr_wcc_data}
use go_nfsd.Xdr.Travels.Attributes.{
  FitsFattr3, fattr3-Travels, FitsPostOpAttr, post_op_attr-Travels, FitsWccData, wcc_data-Travels,
}
use go_nfsd.Xdr.Replies.{
  xdr_lookup_resok, xdr_access_resok, xdr_readlink_resok, xdr_read_resok, xdr_write_resok,
  xdr_create_resok, xdr_rename_wcc, xdr_link_wcc, xdr_fsstat_resok, xdr_fsinfo_resok,
  xdr_pathconf_resok, xdr_commit_resok, xdr_res, xdr_nothing,
}
use go_nfsd.Xdr.Travels.Replies.{
  FitsLookupResok, lookup_resok-Travels, FitsAccessResok, access_resok-Travels, FitsReadlinkResok,
  readlink_resok-Travels, FitsReadResok, read_resok-Travels, FitsWriteResok, write_resok-Travels,
  FitsCreateResok, create_resok-Travels, FitsRenameWcc, rename_wcc-Travels, FitsLinkWcc,
  link_wcc-Travels, FitsFsstatResok, fsstat_resok-Travels, FitsFsinfoResok, fsinfo_resok-Travels,
  FitsPathconfResok, pathconf_resok-Travels, FitsCommitResok, commit_resok-Travels, FitsRes,
  res-Travels, nothing-Travels,
}
use go_nfsd.Xdr.Lists.{xdr_readdir_resok, xdr_readdirplus_resok}
use go_nfsd.Xdr.Travels.Lists.{
  FitsReaddirResok, readdir_resok-Travels, FitsReaddirplusResok, readdirplus_resok-Travels,
}
use go_nfsd.Nfs.Requests.{
  Reply, void, attr_reply, setattr_reply, lookup_reply, access_reply, link_reply, read_reply,
  write_reply, new_reply, mknod_reply, removed_reply, renamed_reply, linked_reply, fsstat_reply,
  committed_reply, list_reply, list_plus_reply, info_reply, conf_reply,
}
use go_nfsd.Nfs.Results.{
  getattr_result, setattr_result, lookup_result, access_result, readlink_result, read_result,
  write_result, create_result, mknod_result, remove_result, rename_result, link_result,
  fsstat_result, commit_result, readdir_result, readdirplus_result, fsinfo_result, pathconf_result,
}
use go_nfsd.Xdr.Results.{
  xdr_getattr_res, xdr_setattr_res, xdr_lookup_res, xdr_access_res, xdr_readlink_res, xdr_read_res,
  xdr_write_res, xdr_create_res, xdr_mknod_res, xdr_remove_res, xdr_rename_res, xdr_link_res,
  xdr_fsstat_res, xdr_commit_res, xdr_readdir_res, xdr_readdirplus_res, xdr_fsinfo_res,
  xdr_pathconf_res,
}
use go_nfsd.Nfs.Wire.{send_reply}

abbrev zero_res : {Ok Fail : Type 0} → Ok → Fail → ResOf Ok Fail
zero_res ok fail = record { status = 0; resok = ok; resfail = fail }

-- The reply fits in a message, its lists in `rounds` rounds.
abbrev pub FitsReply : ℕ → Reply → Type 0
FitsReply rounds void = Unit
FitsReply rounds (attr_reply r) = FitsRes FitsFattr3 (λ _. Unit) zero_fattr tt (getattr_result r)
FitsReply rounds (setattr_reply r) =
    FitsRes FitsWccData FitsWccData zero_wcc_data zero_wcc_data (setattr_result r)
FitsReply rounds (lookup_reply r) =
    FitsRes FitsLookupResok FitsPostOpAttr zero_lookup_resok zero_post_op_attr (lookup_result r)
FitsReply rounds (access_reply r) =
    FitsRes FitsAccessResok FitsPostOpAttr zero_access_resok zero_post_op_attr (access_result r)
FitsReply rounds (link_reply r) =
    FitsRes FitsReadlinkResok FitsPostOpAttr zero_readlink_resok zero_post_op_attr
      (readlink_result r)
FitsReply rounds (read_reply r) =
    FitsRes FitsReadResok FitsPostOpAttr zero_read_resok zero_post_op_attr (read_result r)
FitsReply rounds (write_reply r) =
    FitsRes FitsWriteResok FitsWccData zero_write_resok zero_wcc_data (write_result r)
FitsReply rounds (new_reply r) =
    FitsRes FitsCreateResok FitsWccData zero_create_resok zero_wcc_data (create_result r)
FitsReply rounds (mknod_reply r) =
    FitsRes FitsCreateResok FitsWccData zero_create_resok zero_wcc_data (mknod_result r)
FitsReply rounds (removed_reply r) =
    FitsRes FitsWccData FitsWccData zero_wcc_data zero_wcc_data (remove_result r)
FitsReply rounds (renamed_reply r) =
    FitsRes FitsRenameWcc FitsRenameWcc zero_rename_wcc zero_rename_wcc (rename_result r)
FitsReply rounds (linked_reply r) =
    FitsRes FitsLinkWcc FitsLinkWcc zero_link_wcc zero_link_wcc (link_result r)
FitsReply rounds (fsstat_reply r) =
    FitsRes FitsFsstatResok FitsPostOpAttr zero_fsstat_resok zero_post_op_attr (fsstat_result r)
FitsReply rounds (committed_reply r) =
    FitsRes FitsCommitResok FitsWccData zero_commit_resok zero_wcc_data (commit_result r)
FitsReply rounds (list_reply r) =
    FitsRes (FitsReaddirResok rounds) FitsPostOpAttr zero_readdir_resok zero_post_op_attr
      (readdir_result r)
FitsReply rounds (list_plus_reply r) =
    FitsRes (FitsReaddirplusResok rounds) FitsPostOpAttr zero_readdirplus_resok zero_post_op_attr
      (readdirplus_result r)
FitsReply rounds (info_reply r) =
    FitsRes FitsFsinfoResok FitsPostOpAttr zero_fsinfo_resok zero_post_op_attr (fsinfo_result r)
FitsReply rounds (conf_reply r) =
    FitsRes FitsPathconfResok FitsPostOpAttr zero_pathconf_resok zero_post_op_attr
      (pathconf_result r)

module _ (X : Xdr) (L : XdrLaws X) where
  -- The method that reads a result finds `v` in the message `b`, and nothing after it.
  abbrev Reads : {A : Type 0} → (A → XdrProg X A) → A → Bytes → A → Type 0
  Reads f z b v = f z (L.reader b) ≡ returns (v, L.reader [])

  -- A client that reads the result of the procedure finds the reply in the message `b`.
  abbrev pub ReadsReply : ℕ → Bytes → Reply → Type 0
  ReadsReply rounds b void = b ≡ []
  ReadsReply rounds b (attr_reply r) =
      Reads (xdr_getattr_res X) (zero_res zero_fattr tt) b (getattr_result r)
  ReadsReply rounds b (setattr_reply r) =
      Reads (xdr_setattr_res X) (zero_res zero_wcc_data zero_wcc_data) b (setattr_result r)
  ReadsReply rounds b (lookup_reply r) =
      Reads (xdr_lookup_res X) (zero_res zero_lookup_resok zero_post_op_attr) b (lookup_result r)
  ReadsReply rounds b (access_reply r) =
      Reads (xdr_access_res X) (zero_res zero_access_resok zero_post_op_attr) b (access_result r)
  ReadsReply rounds b (link_reply r) =
      Reads (xdr_readlink_res X) (zero_res zero_readlink_resok zero_post_op_attr) b
        (readlink_result r)
  ReadsReply rounds b (read_reply r) =
      Reads (xdr_read_res X) (zero_res zero_read_resok zero_post_op_attr) b (read_result r)
  ReadsReply rounds b (write_reply r) =
      Reads (xdr_write_res X) (zero_res zero_write_resok zero_wcc_data) b (write_result r)
  ReadsReply rounds b (new_reply r) =
      Reads (xdr_create_res X) (zero_res zero_create_resok zero_wcc_data) b (create_result r)
  ReadsReply rounds b (mknod_reply r) =
      Reads (xdr_mknod_res X) (zero_res zero_create_resok zero_wcc_data) b (mknod_result r)
  ReadsReply rounds b (removed_reply r) =
      Reads (xdr_remove_res X) (zero_res zero_wcc_data zero_wcc_data) b (remove_result r)
  ReadsReply rounds b (renamed_reply r) =
      Reads (xdr_rename_res X) (zero_res zero_rename_wcc zero_rename_wcc) b (rename_result r)
  ReadsReply rounds b (linked_reply r) =
      Reads (xdr_link_res X) (zero_res zero_link_wcc zero_link_wcc) b (link_result r)
  ReadsReply rounds b (fsstat_reply r) =
      Reads (xdr_fsstat_res X) (zero_res zero_fsstat_resok zero_post_op_attr) b (fsstat_result r)
  ReadsReply rounds b (committed_reply r) =
      Reads (xdr_commit_res X) (zero_res zero_commit_resok zero_wcc_data) b (commit_result r)
  ReadsReply rounds b (list_reply r) =
      Reads (xdr_readdir_res X rounds) (zero_res zero_readdir_resok zero_post_op_attr) b
        (readdir_result r)
  ReadsReply rounds b (list_plus_reply r) =
      Reads (xdr_readdirplus_res X rounds) (zero_res zero_readdirplus_resok zero_post_op_attr) b
        (readdirplus_result r)
  ReadsReply rounds b (info_reply r) =
      Reads (xdr_fsinfo_res X) (zero_res zero_fsinfo_resok zero_post_op_attr) b (fsinfo_result r)
  ReadsReply rounds b (conf_reply r) =
      Reads (xdr_pathconf_res X) (zero_res zero_pathconf_resok zero_post_op_attr) b
        (pathconf_result r)

  module _ {Ok Fail : Type 0} (FitsOk : Ok → Type 0) (FitsFail : Fail → Type 0) (ok : Ok)
      (fail : Fail) where
    sent_res :
        (f : Ok → XdrProg X Ok) (g : Fail → XdrProg X Fail)
        → ((a : Ok) → FitsOk a → Travels X L f ok a)
        → ((a : Fail) → FitsFail a → Travels X L g fail a)
        → (v : ResOf Ok Fail) → FitsRes FitsOk FitsFail ok fail v
        → (b : Bytes) × ((xdr_res X f g v >>= λ _. pure tt) (L.writer [])
            ≡ returns (tt, L.writer b))
          × Reads (xdr_res X f g) (zero_res ok fail) b v
    unfolding ◌>>=◌ pure
    sent_res f g tf tg v fits =
        let t = res-Travels X L FitsOk FitsFail f g ok fail tf tg v fits in
        let read =
          subst (λ b. xdr_res X f g (zero_res ok fail) (L.reader b) ≡ returns (v, L.reader []))
            (append-nil t.bytes) (t.reads []) in
        (t.bytes, rw (t.writes []), read)

  -- A reply of any procedure fits in a message: its numbers and lengths are in range, a part that its
  -- status or a flag leaves out is zero, and a list has fewer than `rounds` entries. Then writing it gives
  -- a message, and a client that reads the result of the procedure, from a zero value, finds the whole
  -- result there and reads the message to its end.
  pub send_reply_lem :
      (rounds : ℕ) (r : Reply)
      → FitsReply rounds r
      → (b : Bytes) × (send_reply X rounds r (L.writer []) ≡ returns (tt, L.writer b))
        × ReadsReply rounds b r
  unfolding send_reply pure xdr_getattr_res xdr_setattr_res xdr_lookup_res xdr_access_res
      xdr_readlink_res xdr_read_res xdr_write_res xdr_create_res xdr_mknod_res xdr_remove_res
      xdr_rename_res xdr_link_res xdr_fsstat_res xdr_commit_res xdr_readdir_res xdr_readdirplus_res
      xdr_fsinfo_res xdr_pathconf_res
  send_reply_lem rounds void fits = ([], refl, refl)
  send_reply_lem rounds (attr_reply r) fits =
      sent_res FitsFattr3 (λ _. Unit) zero_fattr tt (xdr_fattr3 X) (xdr_nothing X)
        (fattr3-Travels X L) ((λ v _. nothing-Travels X L v)) _ fits
  send_reply_lem rounds (setattr_reply r) fits =
      sent_res FitsWccData FitsWccData zero_wcc_data zero_wcc_data (xdr_wcc_data X) (xdr_wcc_data X)
        (wcc_data-Travels X L) (wcc_data-Travels X L) _ fits
  send_reply_lem rounds (lookup_reply r) fits =
      sent_res FitsLookupResok FitsPostOpAttr zero_lookup_resok zero_post_op_attr
        (xdr_lookup_resok X) (xdr_post_op_attr X) (lookup_resok-Travels X L)
        (post_op_attr-Travels X L) _ fits
  send_reply_lem rounds (access_reply r) fits =
      sent_res FitsAccessResok FitsPostOpAttr zero_access_resok zero_post_op_attr
        (xdr_access_resok X) (xdr_post_op_attr X) (access_resok-Travels X L)
        (post_op_attr-Travels X L) _ fits
  send_reply_lem rounds (link_reply r) fits =
      sent_res FitsReadlinkResok FitsPostOpAttr zero_readlink_resok zero_post_op_attr
        (xdr_readlink_resok X) (xdr_post_op_attr X) (readlink_resok-Travels X L)
        (post_op_attr-Travels X L) _ fits
  send_reply_lem rounds (read_reply r) fits =
      sent_res FitsReadResok FitsPostOpAttr zero_read_resok zero_post_op_attr (xdr_read_resok X)
        (xdr_post_op_attr X) (read_resok-Travels X L) (post_op_attr-Travels X L) _ fits
  send_reply_lem rounds (write_reply r) fits =
      sent_res FitsWriteResok FitsWccData zero_write_resok zero_wcc_data (xdr_write_resok X)
        (xdr_wcc_data X) (write_resok-Travels X L) (wcc_data-Travels X L) _ fits
  send_reply_lem rounds (new_reply r) fits =
      sent_res FitsCreateResok FitsWccData zero_create_resok zero_wcc_data (xdr_create_resok X)
        (xdr_wcc_data X) (create_resok-Travels X L) (wcc_data-Travels X L) _ fits
  send_reply_lem rounds (mknod_reply r) fits =
      sent_res FitsCreateResok FitsWccData zero_create_resok zero_wcc_data (xdr_create_resok X)
        (xdr_wcc_data X) (create_resok-Travels X L) (wcc_data-Travels X L) _ fits
  send_reply_lem rounds (removed_reply r) fits =
      sent_res FitsWccData FitsWccData zero_wcc_data zero_wcc_data (xdr_wcc_data X) (xdr_wcc_data X)
        (wcc_data-Travels X L) (wcc_data-Travels X L) _ fits
  send_reply_lem rounds (renamed_reply r) fits =
      sent_res FitsRenameWcc FitsRenameWcc zero_rename_wcc zero_rename_wcc (xdr_rename_wcc X)
        (xdr_rename_wcc X) (rename_wcc-Travels X L) (rename_wcc-Travels X L) _ fits
  send_reply_lem rounds (linked_reply r) fits =
      sent_res FitsLinkWcc FitsLinkWcc zero_link_wcc zero_link_wcc (xdr_link_wcc X) (xdr_link_wcc X)
        (link_wcc-Travels X L) (link_wcc-Travels X L) _ fits
  send_reply_lem rounds (fsstat_reply r) fits =
      sent_res FitsFsstatResok FitsPostOpAttr zero_fsstat_resok zero_post_op_attr
        (xdr_fsstat_resok X) (xdr_post_op_attr X) (fsstat_resok-Travels X L)
        (post_op_attr-Travels X L) _ fits
  send_reply_lem rounds (committed_reply r) fits =
      sent_res FitsCommitResok FitsWccData zero_commit_resok zero_wcc_data (xdr_commit_resok X)
        (xdr_wcc_data X) (commit_resok-Travels X L) (wcc_data-Travels X L) _ fits
  send_reply_lem rounds (list_reply r) fits =
      sent_res (FitsReaddirResok rounds) FitsPostOpAttr zero_readdir_resok zero_post_op_attr
        (xdr_readdir_resok X rounds) (xdr_post_op_attr X) ((readdir_resok-Travels X L rounds))
        (post_op_attr-Travels X L) _ fits
  send_reply_lem rounds (list_plus_reply r) fits =
      sent_res (FitsReaddirplusResok rounds) FitsPostOpAttr zero_readdirplus_resok zero_post_op_attr
        (xdr_readdirplus_resok X rounds) (xdr_post_op_attr X)
        ((readdirplus_resok-Travels X L rounds)) (post_op_attr-Travels X L) _ fits
  send_reply_lem rounds (info_reply r) fits =
      sent_res FitsFsinfoResok FitsPostOpAttr zero_fsinfo_resok zero_post_op_attr
        (xdr_fsinfo_resok X) (xdr_post_op_attr X) (fsinfo_resok-Travels X L)
        (post_op_attr-Travels X L) _ fits
  send_reply_lem rounds (conf_reply r) fits =
      sent_res FitsPathconfResok FitsPostOpAttr zero_pathconf_resok zero_post_op_attr
        (xdr_pathconf_resok X) (xdr_post_op_attr X) (pathconf_resok-Travels X L)
        (post_op_attr-Travels X L) _ fits
