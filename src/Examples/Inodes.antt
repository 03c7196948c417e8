-- ===== src/Examples/Inodes.antt =====
-- Inodes, directory entries and lock orders at concrete inputs.
use go_nfsd.Prelude.{◌≡◌, refl, false, none, some, [], ◌∷◌, ltb, ok, ◌>>=◌, arith}
use go_nfsd.Nfstypes.{zero_time}
use go_nfsd.Dcache.{mk_dcache}
use go_nfsd.Inode.Layout.{Inode, encode, decode}
use go_nfsd.Inode.Codec.{Encodable, decode-encode_inode}
use go_nfsd.Super.{mk_fs_super}
use go_nfsd.Alloctxn.{AllocTxn, begin}
use go_nfsd.Inode.Data.{Writing, write_loop}
use go_nfsd.Inode.Sizes.{shrink_loop}
use go_nfsd.Inode.Fuel.{write_loop_fuel}
use go_nfsd.Inode.Shrinking.{shrink_loop_fuel}
use go_nfsd.Dir.Entries.{DirEnt, encode_dir_ent, decode_dir_ent, decode_dir_ent-encode_dir_ent}
use go_nfsd.Nfs.Lorder.{lock_order, lock_order_three}
use go_nfsd.Examples.World.{world, world_laws}

abbrev pub ip0 : Inode
ip0 = record {
  inum = 7;
  dcache = some mk_dcache;
  kind = 2;
  nlink = 1;
  gen = 3;
  size = 256;
  shrink_size = 0;
  atime = zero_time;
  mtime = record { seconds = 1700000000; nseconds = 5 };
  blks = 6000 ∷ 0 ∷ 0 ∷ 0 ∷ 0 ∷ 0 ∷ 0 ∷ 0 ∷ 6001 ∷ 0 ∷ [];
}

ip0-Encodable : Encodable ip0
ip0-Encodable = record {
  kind = omega arith;
  nlink = omega arith;
  gen = omega arith;
  size = omega arith;
  shrink_size = omega arith;
  asec = omega arith;
  ansec = omega arith;
  msec = omega arith;
  mnsec = omega arith;
  length-blks = refl;
  blks = (
    omega arith,
    (
      omega arith,
      (
        omega arith,
        (
          omega arith,
          (
            omega arith,
            (omega arith, (omega arith, (omega arith, (omega arith, (omega arith, tt))))),
          ),
        ),
      ),
    ),
  );
}

decode-encode_inode_example :
    (encode world ip0 >>= λ buf. decode world buf 7) ≡ ok (record ip0 { dcache = none })
decode-encode_inode_example = decode-encode_inode world world_laws ip0 ip0-Encodable

abbrev de0 : DirEnt
de0 = record { inum = 9; name = 104 ∷ 105 ∷ [] }

decode_dir_ent-encode_dir_ent_example :
    (encode_dir_ent world de0 >>= λ bytes. decode_dir_ent world bytes) ≡ ok de0
decode_dir_ent-encode_dir_ent_example =
    decode_dir_ent-encode_dir_ent world world_laws de0 (omega arith) (omega arith)

lock_order_three_example : lock_order (5 ∷ 8 ∷ 2 ∷ []) ≡ 5 ∷ 2 ∷ 8 ∷ []
lock_order_three_example = lock_order_three 2 5 8 (omega arith) (omega arith)

abbrev atxn0 : AllocTxn world
atxn0 = begin world (mk_fs_super world 100000) [] ((λ n. ltb n 5000), 5000) ((λ n. ltb n 20), 20)

abbrev writing0 : Writing world
writing0 = record { ip = ip0; atxn = atxn0; cnt = 0; no_room = false; alloc = false }

write_loop_fuel_example :
    write_loop world 2 writing0 0 256 2 (7 ∷ 8 ∷ [])
    ≡ write_loop world 50 writing0 0 256 2 (7 ∷ 8 ∷ [])
write_loop_fuel_example =
    write_loop_fuel world world_laws 2 50 writing0 0 256 2 (7 ∷ 8 ∷ []) (omega arith) (omega arith)

-- The inode of a file that is cut from three blocks.
abbrev ip1 : Inode
ip1 = record ip0 { size = 0; shrink_size = 3 }

shrink_loop_fuel_example : shrink_loop world 3 ip1 atxn0 ≡ shrink_loop world 9 ip1 atxn0
shrink_loop_fuel_example =
    shrink_loop_fuel world 3 9 ip1 atxn0 (omega arith) (omega arith) (omega arith)
