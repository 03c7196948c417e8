-- ===== src/Simple/Runs.antt =====
-- simple/ops.go as a whole: any sequence of calls, valid or not, leaves a server that holds some
-- contents, and none of them panics, with the exceptions that `IsSafe` names.
use go_nfsd.Prelude.{
  ℕ, ◌+◌, ◌^◌, ◌≤◌, ◌≡◌, inl, inr, refl, true, Bool-cases, List, [], ◌∷◌, length, ap, ◌==◌,
  if◌then◌else◌, Outcome, ok, ◌>>=◌, IsU64, arith,
}
use native.Mathlib.Decide.{ℕ_discrete, dec_le}
use go_nfsd.External.World.{World, WorldLaws}
use go_nfsd.Nfstypes.{Bytes, NfsFh3, Nfsstat3}
use go_nfsd.Nfstypes.Replies.{GetattrArgs, SetattrArgs, ReadArgs, WriteArgs, CommitArgs}
use go_nfsd.Simple.Layout.{make_fh}
use go_nfsd.Simple.Ops.{
  Nfs, fh2ino, valid_inum, nfsproc3_getattr, nfsproc3_setattr, nfsproc3_read, nfsproc3_write,
  nfsproc3_commit,
}
use go_nfsd.Simple.Server.{Serves, Commits}
use go_nfsd.Simple.Server.Reading.{nfsproc3_read_lem, nfsproc3_getattr_lem, nfsproc3_commit_lem}
use go_nfsd.Simple.Server.Writing.{nfsproc3_write_lem, nfsproc3_write_refused}
use go_nfsd.Simple.Server.Sizing.{
  nfsproc3_setattr_unset, nfsproc3_setattr_lem, nfsproc3_setattr_nospc,
}

pub data Call : Type 0 where
  getattr : GetattrArgs → Call
  setattr : SetattrArgs → Call
  read : ReadArgs → Call
  write : WriteArgs → Call
  commit : CommitArgs → Call

-- The server after a call; the reply goes to the client.
abbrev server {ℓ} : {R : Type ℓ} {S : Type 0} → Outcome (R × S) → Outcome S
server r = do (_, s) ← r; ok s

unfoldable pub step : (W : World) → Nfs W → Call → Outcome (Nfs W)
step W nfs (getattr args) = server (nfsproc3_getattr W nfs args)
step W nfs (setattr args) = server (nfsproc3_setattr W nfs args)
step W nfs (read args) = server (nfsproc3_read W nfs args)
step W nfs (write args) = server (nfsproc3_write W nfs args)
step W nfs (commit args) = server (nfsproc3_commit W nfs args)

unfoldable pub run : (W : World) → Nfs W → List Call → Outcome (Nfs W)
run W nfs [] = ok nfs
run W nfs (c ∷ cs) = do nfs' ← step W nfs c; run W nfs' cs

-- A handle of 8 bytes or more, offsets that are 64-bit words, and no size above 2^48.
abbrev pub IsSafe : Call → Type 0
IsSafe (getattr args) = 8 ≤ length args.object.bytes
IsSafe (setattr args) = (8 ≤ length args.object.bytes) × (args.new_attributes.size.value ≤ 2 ^ 48)
IsSafe (read args) = (8 ≤ length args.file.bytes) × IsU64 args.offset
IsSafe (write args) = 8 ≤ length args.file.bytes
IsSafe (commit args) = 8 ≤ length args.file.bytes

abbrev pub AllSafe : List Call → Type 0
AllSafe [] = Unit
AllSafe (c ∷ cs) = IsSafe c × AllSafe cs

module _ (W : World) (H : WorldLaws W) where
  -- The call ends, and the server holds some contents after it.
  abbrev Lives : Outcome (Nfs W) → Type 0
  Lives r = (nfs' : Nfs W) × (F' : ℕ → Bytes) × (r ≡ ok nfs') × Serves W H nfs' F'

  fh2ino_total : (fh3 : NfsFh3) → 8 ≤ length fh3.bytes → (inum : ℕ) × (fh2ino W fh3 ≡ ok inum)
  unfolding fh2ino make_fh
  fh2ino_total fh3 h =
      let (x, d, run, _, _) =
        H.get_int_total (W.new_dec fh3.bytes)
          (omega (arith, ap length (H.rest-new_dec fh3.bytes))) in
      (x, rw run)

  Commits-Lives :
      {R : Type 0} {nfs : Nfs W} {F G : ℕ → Bytes} {reply : Nfsstat3 → R}
      {result : Outcome (R × Nfs W)}
      → Commits W H nfs F G reply result
      → Lives (server result)
  Commits-Lives {nfs = nfs} {F = F} {G = G} c = (
    record { t = (W.commit_wait nfs.t c.op true).1; l = nfs.l },
    (if (W.commit_wait nfs.t c.op true).0 then G else F),
    rw c.ran,
    c.serves,
  )

  module _ (nfs : Nfs W) (F : ℕ → Bytes) (s : Serves W H nfs F) where
    getattr-Lives :
        (args : GetattrArgs) (inum : ℕ)
        → fh2ino W args.object ≡ ok inum
        → Lives (server (nfsproc3_getattr W nfs args))
    unfolding nfsproc3_getattr
    getattr-Lives args inum fh = elim (Bool-cases (valid_inum W inum)) [
      | inl v ↦ Commits-Lives (nfsproc3_getattr_lem W H nfs s inum v args fh)
      | inr bad ↦ elim (Bool-cases (inum == W.rootinum)) [
        | inl root ↦ (nfs, F, rw (fh, root), s)
        | inr other ↦ (nfs, F, rw (fh, other, bad), s)
      ]
    ]

    read-Lives :
        (args : ReadArgs) (inum : ℕ)
        → fh2ino W args.file ≡ ok inum
        → IsU64 args.offset
        → Lives (server (nfsproc3_read W nfs args))
    unfolding nfsproc3_read
    read-Lives args inum fh small = elim (Bool-cases (valid_inum W inum)) [
      | inl v ↦ Commits-Lives (nfsproc3_read_lem W H nfs s inum v args fh small)
      | inr bad ↦ (nfs, F, rw (fh, bad), s)
    ]

    -- What a refused call leaves.
    same-Lives :
        {R : Type 0} {r : R} {result : Outcome (R × Nfs W)}
        → result ≡ ok (r, nfs)
        → Lives (server result)
    same-Lives e = (nfs, F, rw e, s)

    write-Lives :
        (args : WriteArgs) (inum : ℕ)
        → fh2ino W args.file ≡ ok inum
        → Lives (server (nfsproc3_write W nfs args))
    unfolding nfsproc3_write
    write-Lives args inum fh = elim (Bool-cases (valid_inum W inum)) [
      | inr bad ↦ (nfs, F, rw (fh, bad), s)
      | inl v ↦
          let refused = nfsproc3_write_refused W H nfs s inum v args fh in
          elim (ℕ_discrete args.count (length args.bytes)) [
            | no uncounted ↦ same-Lives (refused (inl uncounted))
            | yes counted ↦ elim (dec_le (args.offset + args.count) W.block_size) [
              | no over ↦ same-Lives (refused (inr (inl (omega arith))))
              | yes room ↦ elim (dec_le args.offset (length (F inum))) [
                | no beyond ↦ same-Lives (refused (inr (inr (omega arith))))
                | yes start ↦
                    Commits-Lives
                      (nfsproc3_write_lem W H nfs s inum v args fh counted start (omega arith))
              ]
            ]
          ]
    ]

    commit-Lives :
        (args : CommitArgs) (inum : ℕ)
        → fh2ino W args.file ≡ ok inum
        → Lives (server (nfsproc3_commit W nfs args))
    unfolding nfsproc3_commit
    commit-Lives args inum fh = elim (Bool-cases (valid_inum W inum)) [
      | inr bad ↦ (nfs, F, rw (fh, bad), s)
      | inl v ↦
          let (ran, kept) = nfsproc3_commit_lem W H nfs s inum v args fh in
          let log' = (W.commit_wait nfs.t (W.begin nfs.t) true).1 in
          (record { t = log'; l = nfs.l }, F, rw ran, kept)
    ]

    setattr-Lives :
        (args : SetattrArgs) (inum : ℕ)
        → fh2ino W args.object ≡ ok inum
        → args.new_attributes.size.value ≤ 2 ^ 48
        → Lives (server (nfsproc3_setattr W nfs args))
    unfolding nfsproc3_setattr
    setattr-Lives args inum fh small = elim (Bool-cases (valid_inum W inum)) [
      | inr bad ↦ (nfs, F, rw (fh, bad), s)
      | inl v ↦ elim (Bool-cases args.new_attributes.size.set_it) [
        | inr unset ↦ Commits-Lives (nfsproc3_setattr_unset W H nfs s inum v args fh unset)
        | inl wanted ↦ elim (dec_le args.new_attributes.size.value W.block_size) [
          | yes room ↦
              Commits-Lives
                (nfsproc3_setattr_lem W H nfs s inum v args fh wanted (omega arith) room)
          | no over ↦ same-Lives (
              nfsproc3_setattr_nospc W H nfs s inum v args fh wanted (omega arith) (omega arith)
                (omega arith))
        ]
      ]
    ]

  step-Lives :
      (nfs : Nfs W) (F : ℕ → Bytes) (c : Call) → Serves W H nfs F → IsSafe c → Lives (step W nfs c)
  unfolding step
  step-Lives nfs F (getattr args) s h =
      let (inum, fh) = fh2ino_total args.object h in getattr-Lives nfs F s args inum fh
  step-Lives nfs F (setattr args) s h =
      let (inum, fh) = fh2ino_total args.object h.0 in setattr-Lives nfs F s args inum fh h.1
  step-Lives nfs F (read args) s h =
      let (inum, fh) = fh2ino_total args.file h.0 in read-Lives nfs F s args inum fh h.1
  step-Lives nfs F (write args) s h =
      let (inum, fh) = fh2ino_total args.file h in write-Lives nfs F s args inum fh
  step-Lives nfs F (commit args) s h =
      let (inum, fh) = fh2ino_total args.file h in commit-Lives nfs F s args inum fh

  -- Whatever sequence of safe calls of GETATTR, SETATTR, READ, WRITE and COMMIT a server answers that
  -- holds some contents, valid or not, no call panics, and the server holds some contents at the end.
  -- A call is safe that has a handle of 8 bytes or more and, for READ, an offset that is a 64-bit
  -- word, and for SETATTR, a size of 2^48 at most.
  pub run-Serves :
      (calls : List Call) (nfs : Nfs W) (F : ℕ → Bytes)
      → Serves W H nfs F
      → AllSafe calls
      → (nfs' : Nfs W) × (F' : ℕ → Bytes) × (run W nfs calls ≡ ok nfs') × Serves W H nfs' F'
  unfolding run
  run-Serves [] nfs F s h = (nfs, F, refl, s)
  run-Serves (c ∷ cs) nfs F s h =
      let (nfs', F', ran, s') = step-Lives nfs F c s h.0 in
      let (nfs'', F'', ran', s'') = run-Serves cs nfs' F' s' h.1 in (nfs'', F'', rw ran ran', s'')
