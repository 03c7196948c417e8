-- ===== src/External/Marshal/Chunks.antt =====
-- Runs of an encoder and of a decoder over a list of chunks, each the code of one value.
use mathlib.Core.List.{append_assoc, append-nil}
use go_nfsd.Prelude.{
  ℕ, ◌+◌, ◌-◌, ◌*◌, ◌≤◌, ◌<◌, ◌^◌, ◌≡◌, refl, sym, ap, ◌∙◌, List, [], ◌∷◌, ◌++◌, length,
  length-append, replicate, ok, IsU64, arith,
}
use go_nfsd.External.Marshal.{Marshal, MarshalLaws, ints_bytes, AllU64}

abbrev pub flat : List (List ℕ) → List ℕ
flat [] = []
flat (c ∷ cs) = c ++ flat cs

flat-append : (cs : List (List ℕ)) (c : List ℕ) → flat (cs ++ (c ∷ [])) ≡ flat cs ++ c
flat-append [] c = append-nil c
flat-append (b ∷ cs) c = ap (λ t. b ++ t) (flat-append cs c) ∙ sym (append_assoc b (flat cs) c)

module _ {M : Marshal} (H : MarshalLaws M) where
  -- The encoder holds the chunks, `k` bytes, and has room for `n` in all.
  pub record Wrote (e : M.Encoder) (cs : List (List ℕ)) (k n : ℕ) : Type 0 where
    pub bytes : H.written e ≡ flat cs
    pub size : length (flat cs) ≡ k
    pub room : H.cap e ≡ n

  pub Wrote-new_enc : (n : ℕ) → Wrote (M.new_enc n) [] 0 n
  Wrote-new_enc n = record { bytes = H.written-new_enc n; size = refl; room = H.cap-new_enc n }

  Wrote-one :
      {e e' : M.Encoder} {cs : List (List ℕ)} {k n : ℕ} (c : List ℕ) (m : ℕ)
      → Wrote e cs k n
      → length c ≡ m
      → H.written e' ≡ H.written e ++ c
      → H.cap e' ≡ H.cap e
      → Wrote e' (cs ++ (c ∷ [])) (k + m) n
  Wrote-one {cs = cs} c m w len bytes room = record {
    bytes = bytes ∙ ap (λ t. t ++ c) w.bytes ∙ sym (flat-append cs c);
    size = ap length (flat-append cs c) ∙ length-append (flat cs) c ∙ omega (arith, len, w.size);
    room = room ∙ w.room;
  }

  fits :
      {e : M.Encoder} {cs : List (List ℕ)} {k n : ℕ} (m : ℕ)
      → Wrote e cs k n
      → k + m ≤ n
      → length (H.written e) + m ≤ H.cap e
  fits m w h = omega (arith, ap length w.bytes, w.size, w.room)

  pub put_int_chunk :
      {e : M.Encoder} {cs : List (List ℕ)} {k n : ℕ} (x : ℕ)
      → Wrote e cs k n
      → k + 8 ≤ n
      → (e' : M.Encoder) × (M.put_int e x ≡ ok e') × Wrote e' (cs ++ (H.int_bytes x ∷ [])) (k + 8) n
  put_int_chunk {e} x w h =
      let (e', run, bytes, room) = H.put_int_fits e x (fits 8 w h) in
      (e', run, Wrote-one (H.int_bytes x) 8 w (H.length-int_bytes x) bytes room)

  pub put_int32_chunk :
      {e : M.Encoder} {cs : List (List ℕ)} {k n : ℕ} (x : ℕ)
      → Wrote e cs k n
      → k + 4 ≤ n
      → (e' : M.Encoder) × (M.put_int32 e x ≡ ok e')
        × Wrote e' (cs ++ (H.int32_bytes x ∷ [])) (k + 4) n
  put_int32_chunk {e} x w h =
      let (e', run, bytes, room) = H.put_int32_fits e x (fits 4 w h) in
      (e', run, Wrote-one (H.int32_bytes x) 4 w (H.length-int32_bytes x) bytes room)

  pub length-ints_bytes : (xs : List ℕ) → length (ints_bytes H.int_bytes xs) ≡ 8 * length xs
  length-ints_bytes [] = omega arith
  length-ints_bytes (x ∷ xs) = omega (
    arith,
    length-append (H.int_bytes x) (ints_bytes H.int_bytes xs),
    H.length-int_bytes x,
    length-ints_bytes xs,
  )

  pub put_ints_chunk :
      {e : M.Encoder} {cs : List (List ℕ)} {k n : ℕ} (xs : List ℕ)
      → Wrote e cs k n
      → k + 8 * length xs ≤ n
      → (e' : M.Encoder) × (M.put_ints e xs ≡ ok e')
        × Wrote e' (cs ++ (ints_bytes H.int_bytes xs ∷ [])) (k + 8 * length xs) n
  put_ints_chunk {e} xs w h =
      let (e', run, bytes, room) = H.put_ints_fits e xs (fits (8 * length xs) w h) in
      (
        e',
        run,
        Wrote-one (ints_bytes H.int_bytes xs) (8 * length xs) w (length-ints_bytes xs) bytes room,
      )

  pub put_bytes_chunk :
      {e : M.Encoder} {cs : List (List ℕ)} {k n : ℕ} (b : List ℕ)
      → Wrote e cs k n
      → k + length b ≤ n
      → (e' : M.Encoder) × (M.put_bytes e b ≡ ok e') × Wrote e' (cs ++ (b ∷ [])) (k + length b) n
  put_bytes_chunk {e} b w h =
      let (e', run, bytes, room) = H.put_bytes_fits e b (fits (length b) w h) in
      (e', run, Wrote-one b (length b) w refl bytes room)

  pub finish_chunks :
      {e : M.Encoder} {cs : List (List ℕ)} {k n : ℕ}
      → Wrote e cs k n
      → k ≤ n
      → M.finish e ≡ flat cs ++ replicate (n - k) 0
  finish_chunks {e} {cs} {k} {n} w h =
      H.finish_pads e (omega (arith, ap length w.bytes, w.size, w.room))
      ∙ ap (λ t. t ++ replicate (H.cap e - length t) 0) w.bytes
      ∙ ap (λ c. flat cs ++ replicate (c - length (flat cs)) 0) w.room
      ∙ ap (λ j. flat cs ++ replicate (n - j) 0) w.size

  -- The decoder stands before the chunks and `r`.
  pub record Reads (d : M.Decoder) (cs : List (List ℕ)) (r : List ℕ) : Type 0 where
    pub rest : H.rest d ≡ flat cs ++ r

  pub Reads-new_dec : (cs : List (List ℕ)) (r : List ℕ) → Reads (M.new_dec (flat cs ++ r)) cs r
  Reads-new_dec cs r = record { rest = H.rest-new_dec (flat cs ++ r) }

  first :
      {d : M.Decoder} {c : List ℕ} {cs : List (List ℕ)} {r : List ℕ}
      → Reads d (c ∷ cs) r
      → H.rest d ≡ c ++ (flat cs ++ r)
  first {c = c} {cs} {r} h = h.rest ∙ append_assoc c (flat cs) r

  pub get_int_chunk :
      {d : M.Decoder} {cs : List (List ℕ)} {r : List ℕ} (x : ℕ)
      → IsU64 x
      → Reads d (H.int_bytes x ∷ cs) r
      → (d' : M.Decoder) × (M.get_int d ≡ ok (x, d')) × Reads d' cs r
  get_int_chunk {d} {cs} {r} x small h =
      let (d', run, left) = H.get_int_reads d x (flat cs ++ r) small (first h) in
      (d', run, record { rest = left })

  pub get_int32_chunk :
      {d : M.Decoder} {cs : List (List ℕ)} {r : List ℕ} (x : ℕ)
      → x < 2 ^ 32
      → Reads d (H.int32_bytes x ∷ cs) r
      → (d' : M.Decoder) × (M.get_int32 d ≡ ok (x, d')) × Reads d' cs r
  get_int32_chunk {d} {cs} {r} x small h =
      let (d', run, left) = H.get_int32_reads d x (flat cs ++ r) small (first h) in
      (d', run, record { rest = left })

  pub get_ints_chunk :
      {d : M.Decoder} {cs : List (List ℕ)} {r : List ℕ} (xs : List ℕ)
      → AllU64 xs
      → Reads d (ints_bytes H.int_bytes xs ∷ cs) r
      → (d' : M.Decoder) × (M.get_ints d (length xs) ≡ ok (xs, d')) × Reads d' cs r
  get_ints_chunk {d} {cs} {r} xs small h =
      let (d', run, left) = H.get_ints_reads d xs (flat cs ++ r) small (first h) in
      (d', run, record { rest = left })

  pub get_bytes_chunk :
      {d : M.Decoder} {cs : List (List ℕ)} {r : List ℕ} (b : List ℕ)
      → Reads d (b ∷ cs) r
      → (d' : M.Decoder) × (M.get_bytes d (length b) ≡ ok (b, d')) × Reads d' cs r
  get_bytes_chunk {d} {cs} {r} b h =
      let (d', run, left) = H.get_bytes_reads d b (flat cs ++ r) (first h) in
      (d', run, record { rest = left })
