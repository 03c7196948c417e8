-- ===== src/Fh.antt =====
-- fh/nfs_fh.go: the file handles of the full server.
pub mod Codec
use go_nfsd.Prelude.{ℕ, Bool, Outcome, ok, ◌>>=◌}
use go_nfsd.External.World.{World}
use go_nfsd.Nfstypes.{NfsFh3}

pub record Fh : Type 0 where
  pub ino : ℕ
  pub gen : ℕ

module _ (W : World) where
  unfoldable pub make_fh : NfsFh3 → Outcome Fh
  make_fh fh3 = do
    (i, dec) ← W.get_int (W.new_dec fh3.bytes)
    (g, _) ← W.get_int dec
    ok (record { ino = i; gen = g })

  unfoldable pub make_fh3 : Fh → Outcome NfsFh3
  make_fh3 fh = do
    enc ← W.put_int (W.new_enc 16) fh.ino
    enc ← W.put_int enc fh.gen
    ok (record { bytes = W.finish enc })

  unfoldable pub mk_root_fh3 : Outcome NfsFh3
  mk_root_fh3 = do
    enc ← W.put_int (W.new_enc 16) W.rootinum
    enc ← W.put_int enc 1
    ok (record { bytes = W.finish enc })

  unfoldable pub equal : NfsFh3 → NfsFh3 → Bool
  equal h1 h2 = W.bytes_equal h1.bytes h2.bytes
