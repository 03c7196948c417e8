-- ===== src/Dir/Apply.antt =====
-- dir/dir.go: `Apply`, which locks the inode of every entry, and dir/dcache.go: the name cache that
-- it fills. A directory is a pointer to its inode.
use go_nfsd.Prelude.{
  ℕ, zero, suc, ◌+◌, ◌*◌, length, Bool, true, false, not, ltb, leb, ◌||◌, ◌==◌, if◌then◌else◌,
  add64, some, Outcome, ok, panic,
}
use go_nfsd.External.World.{World}
use go_nfsd.Programs.{◌>>=◌, ◌>>◌, pure, crash, out_of_rounds, when, lift, if_nil}
use go_nfsd.Nfstypes.{Bytes}
use go_nfsd.Dcache as Dcache
use go_nfsd.Inode.Data.{read}
use go_nfsd.Fstxn.State.{FsProg, on_inode}
use go_nfsd.Fstxn.Inodes.{load, own_inum, get_inode_unlocked, get_inode_inum, release_inode}
use go_nfsd.Dir.Entries.{direntsz, DirEnt, decode_dir_ent}
use go_nfsd.Dir.Scan.{rounds}

abbrev pub fattr3_xdr_size : ℕ
fattr3_xdr_size = 4 + 4 + 4 + 4 + 4 + 8 + 8 + 8 + 8 + 8 + 3 * 8

abbrev pub entryplus3_baggage : ℕ
entryplus3_baggage = 8 + 4 + 8 + 4 + fattr3_xdr_size + 16 + 8

-- A result with the inode and the transaction last.
abbrev pub first_two : {A B C D : Type 0} → Outcome (A × B × C × D) → Outcome ((A × B) × C × D)
first_two (ok (a, b, c, d)) = ok ((a, b), c, d)
first_two panic = panic

module _ (W : World) where
  -- The function that `Apply` calls, with what it has gathered so far.
  abbrev pub Visit : Type 0 → Type 0
  Visit R = R → ℕ → Bytes → ℕ → ℕ → FsProg W R

  -- The inode of an entry: whether the transaction had it already, and the inode. Nil is
  -- dereferenced when it is released.
  unfoldable pub entry_inode : ℕ → FsProg W (Bool × ℕ)
  entry_inode inum = do
    own ← own_inum W inum
    if own
        then (do p ← get_inode_unlocked W inum; pure (true, p))
        else (do found ← get_inode_inum W inum; if_nil found crash λ p. pure (false, p))

  unfoldable pub visit_entry : {R : Type 0} → Visit R → R → DirEnt → ℕ → FsProg W R
  visit_entry f r de off = do
    (own, p) ← entry_inode de.inum
    r' ← f r p de.name de.inum off
    when (not own) (release_inode W p)
    pure r'

  unfoldable pub read_entry : ℕ → ℕ → FsProg W DirEnt
  read_entry dip off = do
    (bytes, _) ← on_inode W dip (λ i atxn. first_two (read W i atxn off direntsz))
    lift (decode_dir_ent W bytes)

  unfoldable pub apply_loop :
      {R : Type 0} → ℕ → ℕ → ℕ → ℕ → Visit R → ℕ → ℕ → ℕ → R → FsProg W (R × Bool)
  apply_loop zero dip dircount maxcount f off n dirbytes r = out_of_rounds
  apply_loop (suc fuel) dip dircount maxcount f off n dirbytes r = do
    i ← load W dip
    if not (ltb off i.size) then pure (r, true) else (do
      de ← read_entry dip off
      if de.inum == W.nullinum
          then apply_loop fuel dip dircount maxcount f (add64 off direntsz) n dirbytes r
          else (do
            r' ← visit_entry f r de off
            let dirbytes' = add64 dirbytes (8 + length de.name)
            let n' = add64 n (entryplus3_baggage + length de.name)
            if leb dircount dirbytes' || leb maxcount n'
                then pure (r', false)
                else apply_loop fuel dip dircount maxcount f (add64 off direntsz) n' dirbytes' r'))

  -- What `f` has gathered, and `eof`.
  unfoldable pub apply : {R : Type 0} → ℕ → ℕ → ℕ → ℕ → Visit R → R → FsProg W (R × Bool)
  apply dip start dircount maxcount f r = do
    i ← load W dip
    let begin = if not (start == 0) then add64 start direntsz else start
    apply_loop (rounds i) dip dircount maxcount f begin 64 0 r

  unfoldable pub set_dcache : ℕ → Dcache.Dcache → FsProg W (Unit {0})
  set_dcache dip dc = on_inode W dip (λ i atxn. ok (tt, record i { dcache = some dc }, atxn))

  -- `dip.Dcache`, dereferenced
  unfoldable pub get_dcache : ℕ → FsProg W Dcache.Dcache
  get_dcache dip = do i ← load W dip; if_nil i.dcache crash λ dc. pure dc

  unfoldable pub cache_entry : ℕ → Visit (Unit {0})
  cache_entry dip _ _ name inum off = do
    dc ← get_dcache dip
    set_dcache dip (Dcache.add dc name inum off)

  unfoldable pub mk_dcache : ℕ → FsProg W (Unit {0})
  mk_dcache dip = do
    set_dcache dip Dcache.mk_dcache
    i ← load W dip
    apply dip 0 i.size 100000000 (cache_entry dip) tt
    pure tt

  -- The name cache, made when the directory has none.
  unfoldable pub need_dcache : ℕ → FsProg W Dcache.Dcache
  need_dcache dip = do i ← load W dip; if_nil i.dcache (mk_dcache dip) λ _. pure tt; get_dcache dip
