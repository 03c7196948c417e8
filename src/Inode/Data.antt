-- ===== src/Inode/Data.antt =====
-- inode/inode.go `Read` and `Write`. The loops over blocks run on fuel: each round takes at least one
-- byte, so the count is enough.
use go_nfsd.Prelude.{
  ℕ, zero, suc, ◌+◌, ◌-◌, ◌/◌, ◌%◌, [], ◌∷◌, ◌++◌, length, take, drop, Bool, true, false, not, ◌&&◌,
  ◌||◌, ltb, leb, ◌==◌, if◌then◌else◌, add64, Outcome, ok, panic, ◌>>=◌, index, store,
}
use go_nfsd.External.World.{World}
use go_nfsd.Nfstypes.{Bytes}
use go_nfsd.Super.{block2addr}
use go_nfsd.Alloctxn.{AllocTxn, read_block}
use go_nfsd.Inode.Layout.{Inode, max_file_size, write_inode}
use go_nfsd.Inode.Blocks.{bmap}

-- The copy loop of `Read`, for the bytes from `i` on, `n` of them.
unfoldable pub read_bytes : Bytes → ℕ → ℕ → Bytes → Outcome Bytes
read_bytes buf i zero bytes = ok bytes
read_bytes buf i (suc n) bytes = do x ← index buf i; read_bytes buf (suc i) n (bytes ++ (x ∷ []))

-- The copy loop of `Write`: `data[b]` goes to `buf[byteoff + b]`, for `n` values of `b`.
unfoldable pub write_bytes : Bytes → ℕ → Bytes → ℕ → ℕ → Outcome Bytes
write_bytes buf byteoff bytes b zero = ok buf
write_bytes buf byteoff bytes b (suc n) = do
  x ← index bytes b
  buf' ← store buf (byteoff + b) x
  write_bytes buf' byteoff bytes (suc b) n

-- `d[0:n]` and `d[n:]`, for a slice without room beyond its length.
unfoldable pub slice_to : Bytes → ℕ → Outcome Bytes
slice_to d n = if leb n (length d) then ok (take n d) else panic

unfoldable pub slice_from : Bytes → ℕ → Outcome Bytes
slice_from d n = if leb n (length d) then ok (drop n d) else panic

module _ (W : World) where
  unfoldable pub read_loop :
      ℕ → Inode → AllocTxn W → ℕ → ℕ → ℕ → ℕ → Bytes → Outcome (Bytes × Inode × AllocTxn W)
  unfolding bmap write_inode read_block read_bytes
  read_loop zero ip atxn boff off n count bytes = ok (bytes, ip, atxn)
  read_loop (suc fuel) ip atxn boff off n count bytes =
      if not (ltb n count) then ok (bytes, ip, atxn) else (do
        let byteoff = off % W.block_size
        let nbytes = W.min (W.block_size - byteoff) (count - n)
        (blkno, alloc, ip, atxn) ← bmap W ip atxn boff
        if blkno == W.nullbnum then ok (bytes, ip, atxn) else (do
          atxn ← (if alloc then write_inode W ip atxn else ok atxn)
          buf ← read_block W atxn blkno
          bytes ← read_bytes buf byteoff nbytes bytes
          read_loop fuel ip atxn (suc boff) (add64 off nbytes) (n + nbytes) count bytes))

  -- The bytes, `eof`, the inode and the transaction.
  unfoldable pub read : Inode → AllocTxn W → ℕ → ℕ → Outcome (Bytes × Bool × Inode × AllocTxn W)
  unfolding read_loop
  read ip atxn offset bytes_to_read = if leb ip.size offset then ok ([], true, ip, atxn) else (do
    let count = if leb ip.size (add64 offset bytes_to_read) then ip.size - offset else bytes_to_read
    (bytes, ip, atxn) ← read_loop count ip atxn (offset / W.block_size) offset 0 count []
    ok (bytes, false, ip, atxn))

  -- What the loop of `Write` changes.
  pub record Writing : Type 0 where
    pub ip : Inode
    pub atxn : AllocTxn W
    pub cnt : ℕ
    pub no_room : Bool
    pub alloc : Bool

  -- The write of `nbytes` bytes into block `blkno`, of a whole block without a read.
  unfoldable pub write_block : AllocTxn W → ℕ → ℕ → ℕ → Bytes → Outcome (AllocTxn W)
  unfolding block2addr read_block write_bytes slice_to
  write_block atxn blkno byteoff nbytes bytes =
      let a = block2addr W atxn.super blkno in
      if byteoff == 0 && nbytes == W.block_size
      then (do
        part ← slice_to bytes nbytes
        ok (record atxn { op = W.over_write atxn.op a W.nbitblock part }))
      else (do
        buf ← read_block W atxn blkno
        buf' ← write_bytes buf byteoff bytes 0 nbytes
        ok (record atxn { op = W.set_dirty atxn.op a W.nbitblock buf' }))

  unfoldable pub write_loop : ℕ → Writing → ℕ → ℕ → ℕ → Bytes → Outcome Writing
  unfolding bmap write_block slice_from
  write_loop zero w boff off n bytes = ok w
  write_loop (suc fuel) w boff off n bytes = if not (ltb 0 n) then ok w else (do
    (blkno, new, ip, atxn) ← bmap W w.ip w.atxn boff
    if blkno == W.nullbnum then ok (record w { ip = ip; atxn = atxn; no_room = true }) else (do
      let byteoff = off % W.block_size
      let room = W.block_size - byteoff
      let nbytes = if ltb n room then n else room
      atxn ← write_block atxn blkno byteoff nbytes bytes
      rest ← slice_from bytes nbytes
      write_loop fuel
          (record w {
            ip = ip;
            atxn = atxn;
            cnt = w.cnt + nbytes;
            alloc = if new then true else w.alloc;
          })
          (suc boff) (add64 off nbytes) (n - nbytes) rest))

  -- The end of `Write`: a larger size, and the inode written when it has changed.
  unfoldable pub write_end : Writing → ℕ → Outcome (ℕ × Bool × Inode × AllocTxn W)
  unfolding write_inode
  write_end w offset =
      if w.alloc || ltb 0 w.cnt
      then (do
        let ip' : Inode =
            if ltb w.ip.size (add64 offset w.cnt)
            then record w.ip { size = add64 offset w.cnt }
            else w.ip
        atxn ← write_inode W ip' w.atxn
        ok (w.cnt, true, ip', atxn))
      else ok (w.cnt, not w.no_room, w.ip, w.atxn)

  -- The count, success, the inode and the transaction.
  unfoldable pub write :
      Inode → AllocTxn W → ℕ → ℕ → Bytes → Outcome (ℕ × Bool × Inode × AllocTxn W)
  unfolding write_loop write_end max_file_size
  write ip atxn offset count bytes =
      if ltb (max_file_size W) (add64 offset count) then ok (0, false, ip, atxn) else (do
        let w0 : Writing = record { ip = ip; atxn = atxn; cnt = 0; no_room = false; alloc = false }
        w ← write_loop count w0 (offset / W.block_size) offset count bytes
        write_end w offset)
