-- ===== src/Dir/Scan.antt =====
-- dir/dir.go: the loops over the entries of a directory. Each runs on fuel: a round goes one entry
-- further, and an offset that does not wrap reaches the size in so many rounds.
use go_nfsd.Prelude.{
  ℕ, zero, suc, ◌+◌, ◌*◌, ◌/◌, List, [], ◌∷◌, length, name_eq, Bool, true, false, not, ltb, leb,
  ◌==◌, if◌then◌else◌, add64, Outcome, ok, ◌>>=◌,
}
use go_nfsd.External.World.{World}
use go_nfsd.Nfstypes.{Bytes, nf3dir}
use go_nfsd.Alloctxn.{AllocTxn}
use go_nfsd.Inode.Layout.{Inode}
use go_nfsd.Inode.Data.{read, write}
use go_nfsd.Dir.Entries.{direntsz, DirEnt, encode_dir_ent, decode_dir_ent}

-- The rounds of a loop over all entries.
unfoldable pub rounds : Inode → ℕ
rounds dip = suc (dip.size / direntsz)

module _ (W : World) where
  unfoldable pub scan_loop :
      ℕ → Inode → AllocTxn W → Bytes → ℕ → Outcome (ℕ × ℕ × Inode × AllocTxn W)
  unfolding read decode_dir_ent
  scan_loop zero dip atxn name off = ok (W.nullinum, 0, dip, atxn)
  scan_loop (suc fuel) dip atxn name off =
      if not (ltb off dip.size) then ok (W.nullinum, 0, dip, atxn) else (do
        (bytes, _, dip, atxn) ← read W dip atxn off direntsz
        if not (length bytes == direntsz) then ok (W.nullinum, 0, dip, atxn) else (do
          de ← decode_dir_ent W bytes
          if de.inum == W.nullinum
              then scan_loop fuel dip atxn name (add64 off direntsz)
              else if name_eq de.name name
              then ok (de.inum, off, dip, atxn)
              else scan_loop fuel dip atxn name (add64 off direntsz)))

  -- The inode number and the offset, both 0 for a name that is not there; `op` is its `Atxn`.
  unfoldable pub scan_name : Inode → AllocTxn W → Bytes → Outcome (ℕ × ℕ × Inode × AllocTxn W)
  unfolding scan_loop rounds
  scan_name dip atxn name =
      if not (dip.kind == nf3dir)
      then ok (W.nullinum, 0, dip, atxn)
      else scan_loop (rounds dip) dip atxn name 0

  -- The loop of `AddNameDir`: the offset of the first free entry from `off` on, or 0.
  unfoldable pub free_loop : ℕ → Inode → AllocTxn W → ℕ → Outcome (ℕ × Inode × AllocTxn W)
  unfolding read decode_dir_ent
  free_loop zero dip atxn off = ok (0, dip, atxn)
  free_loop (suc fuel) dip atxn off = if not (ltb off dip.size) then ok (0, dip, atxn) else (do
    (bytes, _, dip, atxn) ← read W dip atxn off direntsz
    de ← decode_dir_ent W bytes
    if de.inum == W.nullinum
        then ok (off, dip, atxn)
        else free_loop fuel dip atxn (add64 off direntsz))

  -- The offset, success, the directory and the transaction.
  unfoldable pub add_name_dir :
      Inode → AllocTxn W → ℕ → Bytes → ℕ → Outcome (ℕ × Bool × Inode × AllocTxn W)
  unfolding free_loop rounds encode_dir_ent write
  add_name_dir dip atxn inum name lastoff = do
    (off, dip, atxn) ← free_loop (rounds dip) dip atxn lastoff
    let final_off = if off == 0 then dip.size else off
    ent ← encode_dir_ent W (record { inum = inum; name = name })
    (n, _, dip, atxn) ← write W dip atxn final_off direntsz ent
    ok (final_off, n == direntsz, dip, atxn)

  unfoldable pub empty_loop : ℕ → Inode → AllocTxn W → ℕ → Outcome (Bool × Inode × AllocTxn W)
  unfolding read decode_dir_ent
  empty_loop zero dip atxn off = ok (true, dip, atxn)
  empty_loop (suc fuel) dip atxn off = if not (ltb off dip.size) then ok (true, dip, atxn) else (do
    (bytes, _, dip, atxn) ← read W dip atxn off direntsz
    de ← decode_dir_ent W bytes
    if de.inum == W.nullinum
        then empty_loop fuel dip atxn (add64 off direntsz)
        else ok (false, dip, atxn))

  -- All entries after "." and ".." are free.
  unfoldable pub is_dir_empty : Inode → AllocTxn W → Outcome (Bool × Inode × AllocTxn W)
  unfolding empty_loop rounds
  is_dir_empty dip atxn = empty_loop (rounds dip) dip atxn (2 * direntsz)

  -- The entries for which `ApplyEnts` calls `f`, in order, and `eof`; `n` estimates the reply's size.
  unfoldable pub ents_loop :
      ℕ → Inode → AllocTxn W → ℕ → ℕ → ℕ → Outcome (List (DirEnt × ℕ) × Bool × Inode × AllocTxn W)
  unfolding read decode_dir_ent
  ents_loop zero dip atxn off n count = ok ([], true, dip, atxn)
  ents_loop (suc fuel) dip atxn off n count =
      if not (ltb off dip.size) then ok ([], true, dip, atxn) else (do
        (bytes, _, dip, atxn) ← read W dip atxn off direntsz
        de ← decode_dir_ent W bytes
        if de.inum == W.nullinum
            then ents_loop fuel dip atxn (add64 off direntsz) n count
            else (let n' = add64 n (16 + length de.name + 8 + 8) in
                if leb count n' then ok ((de, off) ∷ [], false, dip, atxn) else (do
                  (ents, eof, dip, atxn) ← ents_loop fuel dip atxn (add64 off direntsz) n' count
                  ok ((de, off) ∷ ents, eof, dip, atxn))))

  unfoldable pub apply_ents :
      Inode → AllocTxn W → ℕ → ℕ → Outcome (List (DirEnt × ℕ) × Bool × Inode × AllocTxn W)
  unfolding ents_loop rounds
  apply_ents dip atxn start count =
      let begin = if not (start == 0) then add64 start direntsz else start in
      ents_loop (rounds dip) dip atxn begin 64 count
