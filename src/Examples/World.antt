-- ===== src/Examples/World.antt =====
-- The parameters with the values that the real packages have, over the list of writes.
use go_nfsd.Prelude.{
  ℕ, ◌+◌, ◌-◌, ◌/◌, ◌^◌, ◌≤◌, ◌≡◌, ◌↔◌, refl, true, leb, arith, min, name_eq, name_eq_iff,
}
use go_nfsd.External.Common.{Common, CommonLaws, Util}
use go_nfsd.External.World.{World, WorldLaws}
use go_nfsd.Examples.Locks.{locks, locks_laws}
use go_nfsd.Examples.Disk.{disk, disk_laws}
use go_nfsd.Examples.Codec.{codec, codec_laws}
use go_nfsd.Examples.Bitmap
use go_nfsd.Examples.Bitmap.{Bits, bitmap, bitmap_laws}

abbrev pub constants : Common
constants = record {
  block_size = 4096;
  inodesz = 128;
  inodeblk = 32;
  nbitblock = 32768;
  ninodebitmap = 1;
  logsize = 513;
  rootinum = 1;
  nullinum = 0;
  nullbnum = 0;
}

abbrev pub functions : Util
functions = record {
  sum_overflows = λ a b. leb (2 ^ 64) (a + b);
  min = λ a b. min a b;
  round_up = λ n sz. (n + sz - 1) / sz;
  clone_byte_slice = λ d. d;
  bytes_equal = name_eq;
}

sum_overflows_iff : (a b : ℕ) → (leb (2 ^ 64) (a + b) ≡ true) ↔ (2 ^ 64 ≤ a + b)
sum_overflows_iff a b = ground arith

min_lem : (a b : ℕ) → (min a b ≤ a) × (min a b ≤ b) × (a ≤ b → min a b ≡ a) × (b ≤ a → min a b ≡ b)
min_lem a b = (omega arith, omega arith, λ h. omega arith, λ h. omega arith)

abbrev pub world : World
world = record {
  common = constants;
  util = functions;
  journal = disk;
  marshal = codec;
  lockmap = locks;
  allocator = bitmap;
}

constants_laws : CommonLaws constants
constants_laws = record {
  nullinum_zero = refl;
  nullbnum_zero = refl;
  rootinum_one = refl;
  nbitblock_lem = refl;
  inodeblk_lem = refl;
  inodeblk_large = omega arith;
  inodesz_lem = refl;
  block_size_small = omega arith;
  ninodebitmap_small = omega arith;
  logsize_small = omega arith;
}

pub world_laws : WorldLaws world
world_laws = record {
  common = constants_laws;
  util = record {
    sum_overflows_iff = sum_overflows_iff;
    clone_byte_slice_lem = λ d. refl;
    bytes_equal_iff = name_eq_iff;
    min_lem = min_lem;
  };
  journal = disk_laws;
  marshal = codec_laws;
  lockmap = locks_laws;
  allocator = bitmap_laws;
}

pub used_lem : (a : Bits) (n : ℕ) → world_laws.used a n ≡ a.0 n
unfolding world_laws
used_lem a n = Bitmap.used_lem a n
