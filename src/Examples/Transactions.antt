-- ===== src/Examples/Transactions.antt =====
-- A transaction that allocates and frees on a disk of 100000 blocks.
use go_nfsd.Prelude.{
  ℕ, ◌≤◌, ◌<◌, ◌≡◌, ◌≢◌, inl, inr, refl, sym, ◌∙◌, Bool, true, false, List, length, get_elem?, some,
  [], ◌∷◌, ltb, leb, ◌||◌, if◌then◌else◌, ok, ◌>>=◌, arith,
}
use go_nfsd.Super.{FsSuper, mk_fs_super, data_start, max_bnum}
use go_nfsd.Alloctxn.{AllocTxn, begin, post_commit, post_abort}
use go_nfsd.Alloctxn.Reserved.{has}
use go_nfsd.Alloctxn.Calls.{
  Runs, Call, call_alloc_inum, call_free_inum, call_alloc_block, call_free_block, run, InData,
  ValidCalls,
}
use go_nfsd.Alloctxn.Numbers.{freed_inums, freed_bnums, taken_inums, taken_bnums}
use go_nfsd.Alloctxn.Ends.{start, abort_lem, commit_lem}
use go_nfsd.Inode.Layout.{Inode}
use go_nfsd.Inode.Blocks.{bmap}
use go_nfsd.Inode.Direct.{bmap_direct}
use go_nfsd.Examples.Inodes.{ip0}
use go_nfsd.Examples.Bitmap.{Bits}
use go_nfsd.Examples.World.{world, world_laws, used_lem}

abbrev pub super0 : FsSuper
super0 = mk_fs_super world 100000

-- All data blocks are free but those below 5000.
abbrev pub balloc0 : Bits
balloc0 = ((λ n. ltb n 5000 || leb 100000 n), 5000)

abbrev pub ialloc0 : Bits
ialloc0 = ((λ n. ltb n 20), 20)

abbrev calls0 : List Call
calls0 =
    call_alloc_inum
    ∷ call_alloc_block
    ∷ call_alloc_block
    ∷ call_free_inum 4
    ∷ call_free_block 4999
    ∷ call_free_block 0
    ∷ []

in_data : (n : ℕ) → 4000 ≤ n → n < 100000 → InData world super0 n
unfolding data_start max_bnum mk_fs_super
in_data n low high = (omega arith, omega arith)

room0 : (n : ℕ) → n ≢ 0 → world_laws.used balloc0 n ≡ false → InData world super0 n
room0 n ne free = in_data n (bounds known).0 (bounds known).1
  where
    known : (ltb n 5000 || leb 100000 n) ≡ false
    known = sym (used_lem balloc0 n) ∙ free

    bounds : (ltb n 5000 || leb 100000 n) ≡ false → (4000 ≤ n) × (n < 100000)
    bounds h = ground arith

valid0 : ValidCalls world super0 calls0
valid0 = (omega arith, (inr (in_data 4999 (omega arith) (omega arith)), (inl refl, tt)))

abort_lem_example :
    (atxn' : AllocTxn world) × ((run world (begin world super0 [] balloc0 ialloc0) calls0
        >>= λ atxn. post_abort world atxn)
      ≡ ok atxn')
    × ((n : ℕ) → world_laws.used atxn'.balloc n ≡ world_laws.used balloc0 n)
    × ((n : ℕ) → world_laws.used atxn'.ialloc n ≡ world_laws.used ialloc0 n)
abort_lem_example = abort_lem world world_laws super0 [] balloc0 ialloc0 calls0 room0 valid0

commit_lem_example :
    (atxn' : AllocTxn world) × ((run world (begin world super0 [] balloc0 ialloc0) calls0
        >>= λ atxn. post_commit world atxn)
      ≡ ok atxn')
    × ((n : ℕ)
        → world_laws.used atxn'.balloc n ≡ (
            if has (freed_bnums calls0) n
            then false
            else if has (taken_bnums world calls0 balloc0) n
            then true
            else world_laws.used balloc0 n))
    × ((n : ℕ)
        → world_laws.used atxn'.ialloc n ≡ (
            if has (freed_inums calls0) n
            then false
            else if has (taken_inums world calls0 ialloc0) n
            then true
            else world_laws.used ialloc0 n))
commit_lem_example = commit_lem world world_laws super0 [] balloc0 ialloc0 calls0 room0 valid0

-- The second block of a directory that has none there yet.
bmap_direct_example :
    (blkno : ℕ) × (alloc : Bool) × (ip' : Inode) × (atxn' : AllocTxn world) × (bmap world ip0
        (begin world super0 [] balloc0 ialloc0)
        1
      ≡ ok (blkno, alloc, ip', atxn'))
    × Runs world world_laws super0
        (λ n. world_laws.used ialloc0 n)
        (λ n. world_laws.used balloc0 n)
        atxn'
    × (length ip'.blks ≡ 10)
    × ((b : ℕ)
        → get_elem? ip0.blks 1 ≡ some b
        → b ≢ 0
        → (blkno ≡ b) × (alloc ≡ false) × (atxn' ≡ begin world super0 [] balloc0 ialloc0))
    × ((i : ℕ) → i ≢ 1 → get_elem? ip'.blks i ≡ get_elem? ip0.blks i)
    × (blkno ≢ 0
        → (atxn2 : AllocTxn world) → bmap world ip' atxn2 1 ≡ ok (blkno, false, ip', atxn2))
bmap_direct_example =
    bmap_direct world world_laws super0 (λ n. world_laws.used ialloc0 n)
      (λ n. world_laws.used balloc0 n) ip0 (begin world super0 [] balloc0 ialloc0) 1 room0
      (start world world_laws super0 [] balloc0 ialloc0) refl (omega arith)
