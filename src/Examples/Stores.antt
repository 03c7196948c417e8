-- ===== src/Examples/Stores.antt =====
-- The key-value store, the name cache and the layout of the disk at concrete inputs.
use go_nfsd.Prelude.{
  ℕ, ◌+◌, ◌*◌, ◌/◌, ◌≤◌, ◌<◌, ◌≡◌, ◌≢◌, ◌↔◌, refl, Bool, true, false, List, [], ◌∷◌,
  length-replicate, replicate, ok, panic, ◌>>=◌, if◌then◌else◌, name_eq, arith,
}
use go_nfsd.External.Journal.{Apart}
use go_nfsd.Nfstypes.{Bytes, NfsFh3}
use go_nfsd.Kvs.{KvPair, Kvs, multi_put, get}
use go_nfsd.Kvs.Puts.{puts, value, multi_put_lem, get_lem, bounds_differ}
use go_nfsd.Super.{
  FsSuper, mk_fs_super, bitmap_block_start, bitmap_inode_start, inode_start, data_start, n_inode,
  inum2addr, max_bnum,
}
use go_nfsd.Super.Regions.{bits_lem, inodes_lem}
use go_nfsd.Fh.{Fh, make_fh, make_fh3, mk_root_fh3, equal}
use go_nfsd.Fh.Codec.{make_fh-make_fh3_gen, equal_iff}
use go_nfsd.Dcache.{mk_dcache, add, lookup, del}
use go_nfsd.Dcache.Laws.{lookup-add, del_lem}
use go_nfsd.Examples.Codec.{le_bytes, put}
use go_nfsd.Examples.World.{world, world_laws}

abbrev kvs0 : Kvs world
kvs0 = record { sz = 1000; log = [] }

abbrev block7 : Bytes
block7 = replicate 4096 7

abbrev pairs0 : List KvPair
pairs0 = record { key = 600; val = block7 } ∷ record { key = 513; val = block7 } ∷ []

multi_put_lem_example :
    (op : world.Op) × (multi_put world kvs0 pairs0
      ≡ ok (
        (world.commit_wait [] op true).0,
        record kvs0 { log = (world.commit_wait [] op true).1 },
      ))
    × ((k : ℕ)
        → value world world_laws (record kvs0 { log = (world.commit_wait [] op true).1 }) k ≡ (
            if (world.commit_wait [] op true).0
            then puts (value world world_laws kvs0) pairs0 k
            else value world world_laws kvs0 k))
multi_put_lem_example = multi_put_lem world world_laws kvs0 pairs0 (
  (omega arith, omega arith, length-replicate {A = ℕ} 4096 7),
  ((omega arith, omega arith, length-replicate {A = ℕ} 4096 7), tt),
)

get_lem_example :
    (kvs' : Kvs world) × (done : Bool) × (get world kvs0 700
      ≡ ok (record { key = 700; val = value world world_laws kvs0 700 }, done, kvs'))
    × ((j : ℕ) → value world world_laws kvs' j ≡ value world world_laws kvs0 j)
get_lem_example = get_lem world world_laws kvs0 700 (omega arith) (omega arith)

bounds_differ_example :
    (multi_put world kvs0 (record { key = 1000; val = block7 } ∷ []) ≡ panic)
    × (get world kvs0 1000 ≢ panic)
bounds_differ_example = bounds_differ world world_laws kvs0 block7 [] (omega arith)

abbrev super0 : FsSuper
super0 = mk_fs_super world 100000

bits_lem_example :
    ((n : ℕ)
      → n < max_bnum super0
      → (513 ≤ bitmap_block_start super0 + n / 32768)
        × (bitmap_block_start super0 + n / 32768 < bitmap_inode_start super0))
    × ((i : ℕ)
        → i < n_inode world super0
        → (bitmap_inode_start super0 + i / 32768 < inode_start super0)
          × (inode_start super0 ≤ data_start super0))
bits_lem_example = bits_lem world world_laws 100000 (omega arith)

inode_in_range : 37 < n_inode world super0
unfolding n_inode mk_fs_super
inode_in_range = omega arith

inodes_lem_example :
    (inode_start super0 ≤ world.blkno (inum2addr world super0 37))
    × (world.blkno (inum2addr world super0 37) < data_start super0)
    × (world.off (inum2addr world super0 37) + 128 * 8 ≤ 32768)
    × ((j : ℕ)
        → j < n_inode world super0
        → 37 ≢ j
        → Apart world.journal
            (inum2addr world super0 37)
            (128 * 8)
            (inum2addr world super0 j)
            (128 * 8))
inodes_lem_example = inodes_lem world world_laws 100000 (omega arith) 37 inode_in_range

abbrev fh0 : Fh
fh0 = record { ino = 258; gen = 3 }

make_fh-make_fh3_gen_example :
    ((make_fh3 world fh0 >>= λ fh3. make_fh world fh3) ≡ ok fh0)
    × ((mk_root_fh3 world >>= λ fh3. make_fh world fh3) ≡ ok (record { ino = 1; gen = 1 }))
make_fh-make_fh3_gen_example = make_fh-make_fh3_gen world world_laws fh0 (omega arith) (omega arith)

abbrev fh3_0 : NfsFh3
fh3_0 = record { bytes = 2 ∷ 1 ∷ 0 ∷ 0 ∷ 0 ∷ 0 ∷ 0 ∷ 0 ∷ 3 ∷ 0 ∷ 0 ∷ 0 ∷ 0 ∷ 0 ∷ 0 ∷ 0 ∷ [] }

made0 : make_fh3 world fh0 ≡ ok fh3_0
unfolding make_fh3 put le_bytes
made0 = refl

equal_iff_example : (equal world fh3_0 fh3_0 ≡ true) ↔ (fh0 ≡ fh0)
equal_iff_example =
    equal_iff world world_laws fh0 fh0 fh3_0 fh3_0 (omega arith) (omega arith) (omega arith)
      (omega arith) made0 made0

abbrev name0 : Bytes
name0 = 104 ∷ 105 ∷ []

lookup-add_example : lookup (add mk_dcache name0 7 256) name0 ≡ (
    if name_eq name0 name0 then (record { inum = 7; off = 256 }, true) else lookup mk_dcache name0)
lookup-add_example = lookup-add mk_dcache name0 7 256 name0

del_lem_example :
    ((del (add mk_dcache name0 7 256) name0).0 ≡ (lookup (add mk_dcache name0 7 256) name0).1)
    × (lookup (del (add mk_dcache name0 7 256) name0).1 name0 ≡ (
        if name_eq name0 name0
        then (record { inum = 0; off = 0 }, false)
        else lookup (add mk_dcache name0 7 256) name0))
    × ((del (add mk_dcache name0 7 256) name0).1.lastoff ≡ (add mk_dcache name0 7 256).lastoff)
del_lem_example = del_lem (add mk_dcache name0 7 256) name0 name0
