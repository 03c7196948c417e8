-- ===== src/Examples/Files.antt =====
-- Reads and writes of a file of two blocks.
use go_nfsd.Prelude.{
  ℕ, zero, suc, ◌+◌, ◌<◌, ◌≤◌, ◌^◌, ◌≡◌, ◌≢◌, refl, List, [], ◌∷◌, ◌++◌, length, length-append,
  take, drop, get_elem?, some, replicate, write_at, true, false, ◌>>=◌, leb, ok, arith,
}
use go_nfsd.Nfstypes.{Bytes, nf3reg}
use go_nfsd.Super.{mk_fs_super, n_inode, block2addr, data_start, max_bnum}
use go_nfsd.Alloctxn.{AllocTxn, begin}
use go_nfsd.Alloctxn.Calls.{InData}
use go_nfsd.Inode.Layout.{Inode, new_inode, ndirect, max_file_size}
use go_nfsd.Inode.Codec.{Encodable}
use go_nfsd.Inode.Data.{read, write}
use go_nfsd.Inode.Contents.{concat, length-block}
use go_nfsd.Inode.Reading.{read_slice}
use go_nfsd.Inode.Rounds.{Same}
use go_nfsd.Inode.Filled.{Fills, Fills-Stores, Distinct}
use go_nfsd.Inode.Sizes.{resize}
use go_nfsd.Inode.Resizing.{resize_back}
use go_nfsd.Inode.Updates.{read_after_write}
use go_nfsd.Examples.World.{world, world_laws}
use go_nfsd.Examples.Transactions.{super0, balloc0, ialloc0}

abbrev file : Inode
file = record new_inode {
  inum = 7;
  kind = nf3reg;
  nlink = 1;
  size = 5000;
  blks = 5000 ∷ 5001 ∷ 0 ∷ 0 ∷ 0 ∷ 0 ∷ 0 ∷ 0 ∷ 0 ∷ 0 ∷ [];
}

abbrev atxn0 : AllocTxn world
atxn0 = begin world super0 [] balloc0 ialloc0

abbrev block_at : ℕ → Bytes
block_at blkno = world.read_buf atxn0.op (block2addr world super0 blkno) world.nbitblock

abbrev two_blocks : List Bytes
two_blocks = block_at 5000 ∷ block_at 5001 ∷ []

in_data : (n : ℕ) → 4000 ≤ n → n < 100000 → InData world super0 n
unfolding data_start max_bnum mk_fs_super
in_data n low high = (omega arith, omega arith)

two_blocks-Fills : Fills world world_laws file atxn0 0 two_blocks
unfolding begin mk_fs_super
two_blocks-Fills = (
  record {
    direct = omega arith;
    blkno = 5000;
    at = refl;
    there = λ e. omega (arith, e);
    in_data = in_data 5000 (omega arith) (omega arith);
    content = refl;
  },
  (
    record {
      direct = omega arith;
      blkno = 5001;
      at = refl;
      there = λ e. omega (arith, e);
      in_data = in_data 5001 (omega arith) (omega arith);
      content = refl;
    },
    tt,
  ),
)

length-two_blocks : length (concat two_blocks) ≡ 8192
length-two_blocks = omega (
  arith,
  length-append (block_at 5000) (block_at 5001 ++ []),
  length-append (block_at 5001) [],
  length-block world world_laws atxn0.op (block2addr world super0 5000),
  length-block world world_laws atxn0.op (block2addr world super0 5001),
)

read_slice_example :
    read world file atxn0 4000 2000
    ≡ ok (take 2000 (drop 4000 (take 5000 (concat two_blocks))), false, file, atxn0)
read_slice_example =
    read_slice world world_laws file atxn0 4000 2000 two_blocks
      (Fills-Stores world world_laws file atxn0 0 two_blocks two_blocks-Fills)
      (omega (arith, length-two_blocks)) (omega arith)

zeros : (n i b : ℕ) → get_elem? (replicate n 0) i ≡ some b → b ≡ 0
zeros zero i b h = absurd (cc h)
zeros (suc n) zero b h = cc h
zeros (suc n) (suc i) b h = zeros n i b h

-- The numbers in the inode that are not 0.
place : (i b : ℕ) → get_elem? file.blks i ≡ some b → b ≢ 0 → b ≡ 5000 + i
place zero b h ne = cc h
place (suc zero) b h ne = cc h
place (suc (suc i)) b h ne = absurd (ne (zeros 8 i b h))

file-Distinct : Distinct world world_laws file
file-Distinct = record {
  once = λ i j b small small' ne at at'. omega (arith, place i b at ne, place j b at' ne);
}

file-Encodable : Encodable file
file-Encodable = record {
  kind = omega arith;
  nlink = omega arith;
  gen = omega arith;
  size = omega arith;
  shrink_size = omega arith;
  asec = omega arith;
  ansec = omega arith;
  msec = omega arith;
  mnsec = omega arith;
  length-blks = refl;
  blks = (
    omega arith,
    (
      omega arith,
      (
        omega arith,
        (
          omega arith,
          (
            omega arith,
            (omega arith, (omega arith, (omega arith, (omega arith, (omega arith, tt))))),
          ),
        ),
      ),
    ),
  );
}

abbrev hello : Bytes
hello = 104 ∷ 101 ∷ 108 ∷ 108 ∷ 111 ∷ []

inside : 7 < n_inode world super0
unfolding n_inode mk_fs_super
inside = omega arith

in_max : 4093 + 5 ≤ max_file_size world
unfolding max_file_size
in_max = omega arith

-- Five bytes over the boundary of the two blocks.
read_after_write_example :
    (ip' : Inode) × (atxn' : AllocTxn world) × (write world file atxn0 4093 5 hello
      ≡ ok (5, true, ip', atxn'))
    × ((o n : ℕ)
        → o + n < 2 ^ 64
        → read world ip' atxn' o n
          ≡ ok (
            take n (drop o (write_at (take 5000 (concat two_blocks)) 4093 hello)),
            leb (length (write_at (take 5000 (concat two_blocks)) 4093 hello)) o,
            ip',
            atxn',
          ))
    × ((b : ℕ)
        → InData world super0 b
        → ((i : ℕ) → i < ndirect → get_elem? file.blks i ≢ some b)
        → Same world world_laws atxn0.op atxn'.op b)
unfolding begin mk_fs_super
read_after_write_example =
    read_after_write world world_laws 100000 file atxn0 4093 hello two_blocks (omega arith) refl
      inside file-Encodable file-Distinct two_blocks-Fills (omega arith) (omega arith)
      (omega (arith, length-two_blocks)) (omega (arith, length-two_blocks)) (omega arith) in_max

-- From 5000 bytes to 4100, and back.
resize_back_example :
    (ip' : Inode) × (atxn' : AllocTxn world) × ((resize world file atxn0 4100 >>= λ r.
    resize world r.1 r.2 5000)
      ≡ ok (false, ip', atxn'))
    × (ip'.size ≡ 5000)
    × ((o n : ℕ)
        → o + n < 2 ^ 64
        → read world ip' atxn' o n
          ≡ ok (take n (drop o (take 5000 (concat two_blocks))), leb 5000 o, ip', atxn'))
unfolding begin mk_fs_super
resize_back_example =
    resize_back world world_laws 100000 (omega arith) file atxn0 4100 two_blocks refl inside
      file-Encodable two_blocks-Fills (omega (arith, length-two_blocks)) (omega arith) (omega arith)
      refl
