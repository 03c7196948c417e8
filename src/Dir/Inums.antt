-- ===== src/Dir/Inums.antt =====
-- dir/dir.go: the loops over a directory keep its number.
use go_nfsd.Prelude.{
  ℕ, zero, suc, ◌+◌, ◌*◌, ◌≡◌, length, true, false, not, ltb, leb, ◌==◌, if◌then◌else◌, add64,
  Gives, Gives-ok, Gives-bind, Gives-then, Gives-if, gives_rules, [], ◌∷◌,
}
use go_nfsd.External.World.{World}
use go_nfsd.Nfstypes.{Bytes}
use go_nfsd.Alloctxn.{AllocTxn}
use go_nfsd.Inode.Layout.{Inode}
use go_nfsd.Inode.Inums.{read-inum, write-inum}
use go_nfsd.Dir.Entries.{direntsz}
use go_nfsd.Dir.Scan.{
  rounds, free_loop, add_name_dir, empty_loop, is_dir_empty, ents_loop, apply_ents,
}

module _ (W : World) where
  free_loop-inum :
      (i fuel : ℕ) (dip : Inode) (atxn : AllocTxn W) (off : ℕ)
      → dip.inum ≡ i
      → Gives (λ r. r.1.inum ≡ i) (free_loop W fuel dip atxn off)
  unfolding free_loop
  free_loop-inum i zero dip atxn off e = Gives-ok _ e
  free_loop-inum i (suc fuel) dip atxn off e =
      let rest = free_loop-inum i fuel in
      Gives-if (not (ltb off dip.size)) _ _ (Gives-ok (0, dip, atxn) e) (
        Gives-then _ _ (read-inum W i dip atxn off direntsz e)
          λ r e'. search (gives_rules, rest) depth 10)

  pub add_name_dir-inum :
      (i : ℕ) (dip : Inode) (atxn : AllocTxn W) (inum : ℕ) (name : Bytes) (lastoff : ℕ)
      → dip.inum ≡ i
      → Gives (λ r. r.2.inum ≡ i) (add_name_dir W dip atxn inum name lastoff)
  unfolding add_name_dir
  add_name_dir-inum i dip atxn inum name lastoff e =
      Gives-then _ _ (free_loop-inum i (rounds dip) dip atxn lastoff e) λ r e'.
        Gives-bind _ _ λ ent.
          Gives-then _ _
            (write-inum W i r.1 r.2 (if r.0 == 0 then r.1.size else r.0) direntsz ent e')
            λ w e''. search gives_rules

  empty_loop-inum :
      (i fuel : ℕ) (dip : Inode) (atxn : AllocTxn W) (off : ℕ)
      → dip.inum ≡ i
      → Gives (λ r. r.1.inum ≡ i) (empty_loop W fuel dip atxn off)
  unfolding empty_loop
  empty_loop-inum i zero dip atxn off e = Gives-ok _ e
  empty_loop-inum i (suc fuel) dip atxn off e =
      let rest = empty_loop-inum i fuel in
      Gives-if (not (ltb off dip.size)) _ _ (Gives-ok (true, dip, atxn) e) (
        Gives-then _ _ (read-inum W i dip atxn off direntsz e)
          λ r e'. search (gives_rules, rest) depth 10)

  pub is_dir_empty-inum :
      (i : ℕ) (dip : Inode) (atxn : AllocTxn W)
      → dip.inum ≡ i
      → Gives (λ r. r.1.inum ≡ i) (is_dir_empty W dip atxn)
  unfolding is_dir_empty
  is_dir_empty-inum i dip atxn e = empty_loop-inum i (rounds dip) dip atxn (2 * direntsz) e

  ents_loop-inum :
      (i fuel : ℕ) (dip : Inode) (atxn : AllocTxn W) (off n count : ℕ)
      → dip.inum ≡ i
      → Gives (λ r. r.2.inum ≡ i) (ents_loop W fuel dip atxn off n count)
  unfolding ents_loop
  ents_loop-inum i zero dip atxn off n count e = Gives-ok _ e
  ents_loop-inum i (suc fuel) dip atxn off n count e =
      Gives-if (not (ltb off dip.size)) _ _ (Gives-ok ([], true, dip, atxn) e) (
        Gives-then _ _ (read-inum W i dip atxn off direntsz e) λ r e'. Gives-bind _ _ λ de.
          Gives-if (de.inum == W.nullinum) _ _
            (ents_loop-inum i fuel r.2 r.3 (add64 off direntsz) n count e')
            (Gives-if (leb count (add64 n (16 + length de.name + 8 + 8))) _ _
              (Gives-ok ((de, off) ∷ [], false, r.2, r.3) e')
              (Gives-then _ _
                (ents_loop-inum i fuel r.2 r.3 (add64 off direntsz)
                  (add64 n (16 + length de.name + 8 + 8)) count e')
                λ q e''. search gives_rules)))

  pub apply_ents-inum :
      (i : ℕ) (dip : Inode) (atxn : AllocTxn W) (start count : ℕ)
      → dip.inum ≡ i
      → Gives (λ r. r.2.inum ≡ i) (apply_ents W dip atxn start count)
  unfolding apply_ents
  apply_ents-inum i dip atxn start count e = ents_loop-inum i (rounds dip) dip atxn _ 64 count e
