-- ===== src/Fh/Codec.antt =====
-- fh/nfs_fh.go: handles are read back as made, and `Equal` compares what they stand for.
use go_nfsd.Prelude.{◌≡◌, ◌↔◌, refl, sym, ap, ◌∙◌, true, ok, ◌>>=◌, IsU64, arith}
use go_nfsd.External.World.{World, WorldLaws}
use go_nfsd.External.Marshal.Runs.{two_ints, encode_two_steps, decode_two}
use go_nfsd.Nfstypes.{NfsFh3}
use go_nfsd.Fh.{Fh, make_fh, make_fh3, mk_root_fh3, equal}

module _ (W : World) (H : WorldLaws W) where
  ok_same {ℓ} : {A : Type ℓ} {x y : A} → ok x ≡ ok y → x ≡ y
  ok_same e = cc e

  handle_of : Fh → NfsFh3
  handle_of fh = record { bytes = two_ints H.marshal 16 fh.ino fh.gen }

  made : (fh : Fh) → make_fh3 W fh ≡ ok (handle_of fh)
  unfolding make_fh3 handle_of
  made fh =
      let (e, e', run, run', done) = encode_two_steps H.marshal 16 fh.ino fh.gen (omega arith) in
      rw (run, run', done) refl

  read_back : (fh : Fh) → IsU64 fh.ino → IsU64 fh.gen → make_fh W (handle_of fh) ≡ ok fh
  unfolding make_fh handle_of
  read_back fh hi hg =
      let (d, d', run, run') = decode_two H.marshal 16 fh.ino fh.gen hi hg in rw (run, run') refl

  -- The handle that the server makes for a 64-bit inode number and generation is read back as both.
  -- So the root's handle is read as inode 1 of generation 1.
  pub make_fh-make_fh3_gen :
      (fh : Fh)
      → IsU64 fh.ino
      → IsU64 fh.gen
      → ((make_fh3 W fh >>= λ fh3. make_fh W fh3) ≡ ok fh)
        × ((mk_root_fh3 W >>= λ fh3. make_fh W fh3) ≡ ok (record { ino = 1; gen = 1 }))
  unfolding mk_root_fh3 handle_of
  make_fh-make_fh3_gen fh hi hg = (
    rw (made fh) (read_back fh hi hg),
    (let (e, e', run, run', done) = encode_two_steps H.marshal 16 W.rootinum 1 (omega arith) in
        rw (run, run', done) root_read),
  )
    where
      root_read :
          make_fh W (record { bytes = two_ints H.marshal 16 W.rootinum 1 })
          ≡ ok (record { ino = 1; gen = 1 })
      root_read =
          read_back (record { ino = W.rootinum; gen = 1 }) (omega (arith, H.rootinum_one))
            (omega arith)
          ∙ ap (λ i. ok (record { ino = i; gen = 1 })) H.rootinum_one

  -- Two handles that the server made are `Equal` just when they stand for the same inode and
  -- generation.
  pub equal_iff :
      (a b : Fh) (fh3_a fh3_b : NfsFh3)
      → IsU64 a.ino
      → IsU64 a.gen
      → IsU64 b.ino
      → IsU64 b.gen
      → make_fh3 W a ≡ ok fh3_a
      → make_fh3 W b ≡ ok fh3_b
      → (equal W fh3_a fh3_b ≡ true) ↔ (a ≡ b)
  unfolding equal
  equal_iff a b fh3_a fh3_b ai ag bi bg run_a run_b = (
    λ same. ok_same (
        sym (back a fh3_a ai ag run_a)
        ∙ ap (λ d. make_fh W (record { bytes = d }))
            ((H.bytes_equal_iff fh3_a.bytes fh3_b.bytes).0 same)
        ∙ back b fh3_b bi bg run_b),
    λ same.
        (H.bytes_equal_iff fh3_a.bytes fh3_b.bytes).1
          (ap (λ h. h.bytes) (ok_same (sym run_a ∙ ap (make_fh3 W) same ∙ run_b))),
  )
    where
      back :
          (fh : Fh) (fh3 : NfsFh3)
          → IsU64 fh.ino
          → IsU64 fh.gen
          → make_fh3 W fh ≡ ok fh3
          → make_fh W fh3 ≡ ok fh
      back fh fh3 hi hg run = ap (make_fh W) (ok_same (sym run ∙ made fh)) ∙ read_back fh hi hg
