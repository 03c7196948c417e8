-- ===== src/External/Marshal/Runs.antt =====
-- Runs of an encoder and of a decoder, with the bytes so far as an equation.
use mathlib.Core.List.{append_assoc}
use go_nfsd.Prelude.{
  ℕ, ◌+◌, ◌-◌, ◌≤◌, ◌≡◌, ap, ◌∙◌, List, [], ◌++◌, length, length-append, length-replicate,
  replicate, ok, ◌>>=◌, IsU64, arith,
}
use go_nfsd.External.Marshal.{Marshal, MarshalLaws}

module _ {M : Marshal} (H : MarshalLaws M) where
  -- The encoder holds the bytes `s` and has room for `n` in all.
  pub record Holds (e : M.Encoder) (s : List ℕ) (n : ℕ) : Type 0 where
    pub bytes : H.written e ≡ s
    pub room : H.cap e ≡ n

  pub Holds-new_enc : (n : ℕ) → Holds (M.new_enc n) [] n
  Holds-new_enc n = record { bytes = H.written-new_enc n; room = H.cap-new_enc n }

  pub put_int_step :
      {e : M.Encoder} {s : List ℕ} {n : ℕ} (x : ℕ)
      → Holds e s n
      → length s + 8 ≤ n
      → (e' : M.Encoder) × (M.put_int e x ≡ ok e') × Holds e' (s ++ H.int_bytes x) n
  put_int_step {e} x h fits =
      let (e', run, bytes, room) = H.put_int_fits e x (omega (arith, ap length h.bytes, h.room)) in
      (
        e',
        run,
        record { bytes = bytes ∙ ap (λ t. t ++ H.int_bytes x) h.bytes; room = room ∙ h.room },
      )

  pub put_int32_step :
      {e : M.Encoder} {s : List ℕ} {n : ℕ} (x : ℕ)
      → Holds e s n
      → length s + 4 ≤ n
      → (e' : M.Encoder) × (M.put_int32 e x ≡ ok e') × Holds e' (s ++ H.int32_bytes x) n
  put_int32_step {e} x h fits =
      let (e', run, bytes, room) =
        H.put_int32_fits e x (omega (arith, ap length h.bytes, h.room)) in
      (
        e',
        run,
        record { bytes = bytes ∙ ap (λ t. t ++ H.int32_bytes x) h.bytes; room = room ∙ h.room },
      )

  pub finish_lem :
      {e : M.Encoder} {s : List ℕ} {n : ℕ}
      → Holds e s n
      → length s ≤ n
      → M.finish e ≡ s ++ replicate (n - length s) 0
  finish_lem {e} {s} {n} h fits =
      H.finish_pads e (omega (arith, ap length h.bytes, h.room))
      ∙ ap (λ t. t ++ replicate (H.cap e - length t) 0) h.bytes
      ∙ ap (λ c. s ++ replicate (c - length s) 0) h.room

  -- Two integers in a buffer of `n` bytes.
  pub two_ints : ℕ → ℕ → ℕ → List ℕ
  two_ints n x y = (H.int_bytes x ++ H.int_bytes y) ++ replicate (n - 16) 0

  pub encode_two_steps :
      (n x y : ℕ)
      → 16 ≤ n
      → (e e' : M.Encoder) × (M.put_int (M.new_enc n) x ≡ ok e)
        × (M.put_int e y ≡ ok e')
        × (M.finish e' ≡ two_ints n x y)
  unfolding two_ints
  encode_two_steps n x y fits =
      let (e, run, held) = put_int_step x (Holds-new_enc n) (omega arith) in
      let (e', run', held') = put_int_step y held (omega (arith, H.length-int_bytes x)) in
      (e, e', run, run', finish_lem held' (omega (arith, len)) ∙ ap pad len)
    where
      pad : ℕ → List ℕ
      pad k = (H.int_bytes x ++ H.int_bytes y) ++ replicate (n - k) 0

      len : length (H.int_bytes x ++ H.int_bytes y) ≡ 16
      len = omega (
        arith,
        length-append (H.int_bytes x) (H.int_bytes y),
        H.length-int_bytes x,
        H.length-int_bytes y,
      )

  pub encode_two :
      (n x y : ℕ)
      → 16 ≤ n
      → (M.put_int (M.new_enc n) x >>= λ e. M.put_int e y >>= λ e'. ok (M.finish e'))
        ≡ ok (two_ints n x y)
  encode_two n x y fits =
      let (e, e', run, run', done) = encode_two_steps n x y fits in rw (run, run') (ap ok done)

  pub length-two_ints : (n x y : ℕ) → 16 ≤ n → length (two_ints n x y) ≡ n
  unfolding two_ints
  length-two_ints n x y fits = omega (
    arith,
    length-append (H.int_bytes x ++ H.int_bytes y) (replicate (n - 16) 0),
    length-append (H.int_bytes x) (H.int_bytes y),
    H.length-int_bytes x,
    H.length-int_bytes y,
    length-replicate {A = ℕ} (n - 16) 0,
  )

  -- Decoding two integers gives them back.
  pub decode_two :
      (n x y : ℕ)
      → IsU64 x
      → IsU64 y
      → (d d' : M.Decoder) × (M.get_int (M.new_dec (two_ints n x y)) ≡ ok (x, d))
        × (M.get_int d ≡ ok (y, d'))
  unfolding two_ints
  decode_two n x y hx hy =
      let pad : List ℕ = replicate (n - 16) 0 in
      let front =
        H.rest-new_dec (two_ints n x y) ∙ append_assoc (H.int_bytes x) (H.int_bytes y) pad in
      let (d, run, left) = H.get_int_reads (M.new_dec (two_ints n x y)) x _ hx front in
      let (d', run', _) = H.get_int_reads d y pad hy left in (d, d', run, run')

  -- One integer in a buffer of `n` bytes.
  pub one_int : ℕ → ℕ → List ℕ
  one_int n x = H.int_bytes x ++ replicate (n - 8) 0

  pub encode_one :
      (n x : ℕ)
      → 8 ≤ n
      → (e : M.Encoder) × (M.put_int (M.new_enc n) x ≡ ok e) × (M.finish e ≡ one_int n x)
  unfolding one_int
  encode_one n x fits =
      let (e, run, held) = put_int_step x (Holds-new_enc n) (omega arith) in
      let done = finish_lem held (omega (arith, H.length-int_bytes x)) in
      (e, run, done ∙ ap (λ k. H.int_bytes x ++ replicate (n - k) 0) (H.length-int_bytes x))

  pub decode_one :
      (n x : ℕ) → IsU64 x → (d : M.Decoder) × (M.get_int (M.new_dec (one_int n x)) ≡ ok (x, d))
  unfolding one_int
  decode_one n x hx =
      let pad : List ℕ = replicate (n - 8) 0 in
      let (d, run, _) = H.get_int_reads (M.new_dec (one_int n x)) x pad hx (H.rest-new_dec _) in
      (d, run)
