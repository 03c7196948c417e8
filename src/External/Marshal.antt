-- ===== src/External/Marshal.antt =====
-- github.com/tchajed/marshal: an encoder over a buffer of fixed size and a decoder. A call that does
-- not fit the buffer panics.
pub mod Runs
pub mod Chunks
use go_nfsd.Prelude.{
  ℕ, ◌+◌, ◌-◌, ◌*◌, ◌≤◌, ◌<◌, ◌^◌, ◌≡◌, List, [], ◌∷◌, ◌++◌, length, replicate, drop, Outcome, ok,
  IsU64,
}

pub record Marshal : Type 1 where
  pub Encoder : Type 0
  pub Decoder : Type 0
  pub new_enc : ℕ → Encoder
  pub put_int : Encoder → ℕ → Outcome Encoder
  pub put_int32 : Encoder → ℕ → Outcome Encoder
  pub put_ints : Encoder → List ℕ → Outcome Encoder
  pub put_bytes : Encoder → List ℕ → Outcome Encoder
  pub finish : Encoder → List ℕ
  pub new_dec : List ℕ → Decoder
  pub get_int : Decoder → Outcome (ℕ × Decoder)
  pub get_int32 : Decoder → Outcome (ℕ × Decoder)
  pub get_ints : Decoder → ℕ → Outcome (List ℕ × Decoder)
  pub get_bytes : Decoder → ℕ → Outcome (List ℕ × Decoder)

-- `Bytes.ints` is the encoding of one integer after the other.
abbrev pub ints_bytes : (ℕ → List ℕ) → List ℕ → List ℕ
ints_bytes f [] = []
ints_bytes f (x ∷ xs) = f x ++ ints_bytes f xs

abbrev pub AllU64 : List ℕ → Type 0
AllU64 [] = Unit
AllU64 (x ∷ xs) = IsU64 x × AllU64 xs

-- The encoder appends to what is written while it fits, and the decoder takes from the front. The
-- codes of integers are 8 and 4 bytes long, and a decoder that stands before one reads it.
pub record MarshalLaws (M : Marshal) : Type 0 where
  pub written : M.Encoder → List ℕ
  pub cap : M.Encoder → ℕ
  pub rest : M.Decoder → List ℕ
  pub int_bytes : ℕ → List ℕ
  pub int32_bytes : ℕ → List ℕ
  pub length-int_bytes : (x : ℕ) → length (int_bytes x) ≡ 8
  pub length-int32_bytes : (x : ℕ) → length (int32_bytes x) ≡ 4
  pub written-new_enc : (n : ℕ) → written (M.new_enc n) ≡ []
  pub cap-new_enc : (n : ℕ) → cap (M.new_enc n) ≡ n
  pub put_int_fits :
      (e : M.Encoder) (x : ℕ)
      → length (written e) + 8 ≤ cap e
      → (e' : M.Encoder) × (M.put_int e x ≡ ok e')
        × (written e' ≡ written e ++ int_bytes x)
        × (cap e' ≡ cap e)
  pub put_int32_fits :
      (e : M.Encoder) (x : ℕ)
      → length (written e) + 4 ≤ cap e
      → (e' : M.Encoder) × (M.put_int32 e x ≡ ok e')
        × (written e' ≡ written e ++ int32_bytes x)
        × (cap e' ≡ cap e)
  pub put_ints_fits :
      (e : M.Encoder) (xs : List ℕ)
      → length (written e) + 8 * length xs ≤ cap e
      → (e' : M.Encoder) × (M.put_ints e xs ≡ ok e')
        × (written e' ≡ written e ++ ints_bytes int_bytes xs)
        × (cap e' ≡ cap e)
  pub put_bytes_fits :
      (e : M.Encoder) (b : List ℕ)
      → length (written e) + length b ≤ cap e
      → (e' : M.Encoder) × (M.put_bytes e b ≡ ok e')
        × (written e' ≡ written e ++ b)
        × (cap e' ≡ cap e)
  pub finish_pads :
      (e : M.Encoder)
      → length (written e) ≤ cap e
      → M.finish e ≡ written e ++ replicate (cap e - length (written e)) 0
  pub rest-new_dec : (b : List ℕ) → rest (M.new_dec b) ≡ b
  pub get_int_reads :
      (d : M.Decoder) (x : ℕ) (r : List ℕ)
      → IsU64 x
      → rest d ≡ int_bytes x ++ r
      → (d' : M.Decoder) × (M.get_int d ≡ ok (x, d')) × (rest d' ≡ r)
  pub get_int32_reads :
      (d : M.Decoder) (x : ℕ) (r : List ℕ)
      → x < 2 ^ 32
      → rest d ≡ int32_bytes x ++ r
      → (d' : M.Decoder) × (M.get_int32 d ≡ ok (x, d')) × (rest d' ≡ r)
  pub get_ints_reads :
      (d : M.Decoder) (xs r : List ℕ)
      → AllU64 xs
      → rest d ≡ ints_bytes int_bytes xs ++ r
      → (d' : M.Decoder) × (M.get_ints d (length xs) ≡ ok (xs, d')) × (rest d' ≡ r)
  pub get_bytes_reads :
      (d : M.Decoder) (b r : List ℕ)
      → rest d ≡ b ++ r
      → (d' : M.Decoder) × (M.get_bytes d (length b) ≡ ok (b, d')) × (rest d' ≡ r)
  pub get_int_total :
      (d : M.Decoder)
      → 8 ≤ length (rest d)
      → (x : ℕ) × (d' : M.Decoder) × (M.get_int d ≡ ok (x, d'))
        × IsU64 x
        × (rest d' ≡ drop 8 (rest d))
