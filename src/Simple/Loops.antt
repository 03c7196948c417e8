-- ===== src/Simple/Loops.antt =====
-- The copying loops of simple/inode.go: in range they do not panic, and copy a slice.
use mathlib.Core.List.{append_assoc, append-nil}
use go_nfsd.Prelude.{
  ℕ, zero, suc, ◌+◌, ◌≤◌, ◌<◌, ◌^◌, ◌≡◌, sym, ap, ◌∙◌, [], ◌∷◌, ◌++◌, length, take, drop, get_elem?,
  get_elem?-some, set, length-set, ok, index, store, splice, lt→ltb, add64, arith, some,
}
use go_nfsd.Prelude.SliceLaws.{drop-eq-cons, splice-set, splice-nil, drop-length}
use go_nfsd.Nfstypes.{Bytes}
use go_nfsd.Simple.Inode.{read_loop, write_loop}

index-some : (d : Bytes) (i x : ℕ) → get_elem? d i ≡ some x → index d i ≡ ok x
unfolding index
index-some d i x h = rw (h, index)

store_fits : (d : Bytes) (i x : ℕ) → i < length d → store d i x ≡ ok (set d i x)
unfolding store
store_fits d i x h = rw (lt→ltb i (length d) h)

pub read_loop_lem :
    (buf : Bytes) (offset n b : ℕ) (acc : Bytes)
    → offset + b + n ≤ length buf
    → length buf < 2 ^ 64
    → read_loop buf offset n b acc ≡ ok (acc ++ take n (drop (offset + b) buf))
unfolding read_loop
read_loop_lem buf offset zero b acc h k = rw append-nil
read_loop_lem buf offset (suc n) b acc h k =
    let at : add64 offset b ≡ offset + b = omega arith in
    let (x, here) = get_elem?-some buf (offset + b) (omega arith) in
    let next : offset + suc b ≡ suc (offset + b) = omega arith in
    let rest = read_loop_lem buf offset n (suc b) (acc ++ (x ∷ [])) (omega arith) k in
    rw (at, index-some buf (offset + b) x here, rest, next, append_assoc, drop-eq-cons buf _ x here)

write_loop_step :
    (buf : Bytes) (offset : ℕ) (data_buf : Bytes) (n b x : ℕ)
    → get_elem? data_buf b ≡ some x
    → offset + b < length buf
    → length buf < 2 ^ 64
    → write_loop buf offset data_buf (suc n) b
      ≡ write_loop (set buf (offset + b) x) offset data_buf n (suc b)
unfolding write_loop
write_loop_step buf offset data_buf n b x here inside k =
    let at : add64 offset b ≡ offset + b = omega arith in
    rw (index-some data_buf b x here, at, store_fits buf (offset + b) x inside)

pub write_loop_lem :
    (buf : Bytes) (offset : ℕ) (data_buf : Bytes) (n b : ℕ)
    → b + n ≡ length data_buf
    → offset + length data_buf ≤ length buf
    → length buf < 2 ^ 64
    → write_loop buf offset data_buf n b ≡ ok (splice buf (offset + b) (drop b data_buf))
unfolding write_loop
write_loop_lem buf offset data_buf zero b e h k =
    rw (drop-length data_buf b (omega arith), splice-nil buf (offset + b))
write_loop_lem buf offset data_buf (suc n) b e h k =
    let (x, here) = get_elem?-some data_buf b (omega arith) in
    let buf' = set buf (offset + b) x in
    let len : length buf' ≡ length buf = length-set buf (offset + b) x in
    let next : offset + suc b ≡ suc (offset + b) = omega arith in
    let rest =
      write_loop_lem buf' offset data_buf n (suc b) (omega arith) (omega arith) (omega arith) in
    write_loop_step buf offset data_buf n b x here (omega arith) k
    ∙ rest
    ∙ ap (λ i. ok (splice buf' i (drop (suc b) data_buf))) next
    ∙ ap ok (splice-set buf (offset + b) x (drop (suc b) data_buf) (omega arith))
    ∙ ap (λ d. ok (splice buf (offset + b) d)) (sym (drop-eq-cons data_buf b x here))
