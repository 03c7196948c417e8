-- ===== src/Examples/Disk.antt =====
-- A journal over a list of writes, newest first: a read finds the last write of its object.
use go_nfsd.Prelude.{
  ℕ, ◌+◌, ◌*◌, ◌/◌, ◌%◌, ◌≤◌, ◌<◌, ◌≡◌, ◌≢◌, ◌⊎◌, refl, ◌∙◌, Bool, true, ◌&&◌, List, [], ◌∷◌,
  length, length-replicate, replicate, ◌==◌, take, drop, splice, leb, ok, panic, if◌then◌else◌,
  arith,
}
use go_nfsd.External.Journal.{Journal, JournalLaws}
use go_nfsd.Examples.Codec.{le_bytes, from_le}

pub record Write : Type 0 where
  pub blkno : ℕ
  pub off : ℕ
  pub bytes : List ℕ

unfoldable pub matches : Write → ℕ → ℕ → ℕ → Bool
matches w b o n = w.blkno == b && w.off == o && length w.bytes * 8 == n

unfoldable pub find : List Write → ℕ → ℕ → ℕ → List ℕ
unfolding matches
find [] b o n = replicate (n / 8) 0
find (w ∷ op) b o n = if matches w b o n then w.bytes else find op b o n

abbrev pub disk : Journal
disk = record {
  Addr = ℕ × ℕ;
  mk_addr = λ b o. (b, o);
  mk_bit_addr = λ b n. (b + n / 32768, n % 32768);
  blkno = λ a. a.0;
  off = λ a. a.1;
  Log = List Write;
  Op = List Write;
  begin = λ log. log;
  read_buf = λ op a n. find op a.0 a.1 n;
  over_write = λ op a n d. record { blkno = a.0; off = a.1; bytes = d } ∷ op;
  set_dirty = λ op a n d. record { blkno = a.0; off = a.1; bytes = d } ∷ op;
  n_dirty = λ op. length op;
  bnum_get = λ b o. if leb (o + 8) (length b) then ok (from_le (take 8 (drop o b))) else panic;
  bnum_put = λ b o v. if leb (o + 8) (length b) then ok (splice b o (le_bytes 8 v)) else panic;
  commit_wait = λ log op wait. (true, op);
  flush = λ log. (true, log);
  log_blocks = 511;
  log_bytes = 511 * 4096;
}

length-find : (op : List Write) (b o n : ℕ) → length (find op b o (n * 8)) ≡ n
unfolding find
length-find [] b o n = length-replicate {A = ℕ} (n * 8 / 8) 0 ∙ omega arith
length-find (w ∷ op) b o n = ground (arith, length-find op b o n)

find_self :
    (op : List Write) (b o n : ℕ) (d : List ℕ)
    → length d ≡ n
    → find (record { blkno = b; off = o; bytes = d } ∷ op) b o (n * 8) ≡ d
unfolding find
find_self op b o n d h = ground arith

find_apart :
    (op : List Write) (b o n : ℕ) (d : List ℕ) (b' o' m : ℕ)
    → length d ≡ n
    → 0 < n
    → (b ≢ b') ⊎ (o + n * 8 ≤ o') ⊎ (o' + m * 8 ≤ o)
    → find (record { blkno = b; off = o; bytes = d } ∷ op) b' o' (m * 8) ≡ find op b' o' (m * 8)
unfolding find
find_apart op b o n d b' o' m len pos apart = ground arith

pub disk_laws : JournalLaws disk
disk_laws = record {
  blkno-mk_addr = λ b o. refl;
  off-mk_addr = λ b o. refl;
  length_read = λ op a n. length-find op a.0 a.1 n;
  over_write_self = λ op a n d h. find_self op a.0 a.1 n d h;
  over_write_apart = λ op a n d b m h p q r. find_apart op a.0 a.1 n d b.0 b.1 m h p r;
  set_dirty_self = λ op a n d h. find_self op a.0 a.1 n d h;
  set_dirty_apart = λ op a n d b m h p q r. find_apart op a.0 a.1 n d b.0 b.1 m h p r;
  commit_done = λ log op wait a n h. refl;
  commit_failed = λ log op wait a n h. cc;
}
