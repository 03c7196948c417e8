-- ===== src/External/Xdr.antt =====
-- github.com/zeldovich/go-rpcgen/xdr: the state of a message that is written or read, and the functions
-- that write or read one value. Each takes the value that is there and gives the value after it: the same
-- one in a message that is written, the one that was read otherwise.
use go_nfsd.Prelude.{
  ℕ, ◌<◌, ◌≤◌, ◌^◌, ◌≡◌, Bool, true, false, List, ◌++◌, length, Option, none, some,
}

-- A limit on a length, where `int(-1)` is none.
abbrev pub Limit : Type 0
Limit = Option ℕ

abbrev pub Within : Limit → ℕ → Type 0
Within none n = n < 2 ^ 32
Within (some l) n = (n ≤ l) × (n < 2 ^ 32)

pub record Xdr : Type 1 where
  pub XdrState : Type 0
  pub encoding : XdrState → Bool
  pub decoding : XdrState → Bool
  pub failed : XdrState → Bool
  pub xdr_u32 : ℕ → XdrState → ℕ × XdrState
  pub xdr_u64 : ℕ → XdrState → ℕ × XdrState
  pub xdr_bool : Bool → XdrState → Bool × XdrState
  pub xdr_string : Limit → List ℕ → XdrState → List ℕ × XdrState
  pub xdr_var_array : Limit → List ℕ → XdrState → List ℕ × XdrState
  pub xdr_array : List ℕ → XdrState → List ℕ × XdrState

-- `writer b` has written the bytes `b`, and `reader b` has them before it.
pub record XdrLaws (X : Xdr) : Type 0 where
  pub writer : List ℕ → X.XdrState
  pub reader : List ℕ → X.XdrState
  pub encoding_writer : (b : List ℕ) → X.encoding (writer b) ≡ true
  pub decoding_writer : (b : List ℕ) → X.decoding (writer b) ≡ false
  pub encoding_reader : (b : List ℕ) → X.encoding (reader b) ≡ false
  pub decoding_reader : (b : List ℕ) → X.decoding (reader b) ≡ true
  pub failed_reader : (b : List ℕ) → X.failed (reader b) ≡ false
  pub u32_bytes : ℕ → List ℕ
  pub u64_bytes : ℕ → List ℕ
  pub bool_bytes : Bool → List ℕ
  pub slice_bytes : List ℕ → List ℕ
  pub array_bytes : List ℕ → List ℕ
  pub write_u32 : (n : ℕ) (b : List ℕ) → X.xdr_u32 n (writer b) ≡ (n, writer (b ++ u32_bytes n))
  pub read_u32 :
      (z n : ℕ) (b : List ℕ) → n < 2 ^ 32 → X.xdr_u32 z (reader (u32_bytes n ++ b)) ≡ (n, reader b)
  pub write_u64 : (n : ℕ) (b : List ℕ) → X.xdr_u64 n (writer b) ≡ (n, writer (b ++ u64_bytes n))
  pub read_u64 :
      (z n : ℕ) (b : List ℕ) → n < 2 ^ 64 → X.xdr_u64 z (reader (u64_bytes n ++ b)) ≡ (n, reader b)
  pub write_bool :
      (v : Bool) (b : List ℕ) → X.xdr_bool v (writer b) ≡ (v, writer (b ++ bool_bytes v))
  pub read_bool :
      (z v : Bool) (b : List ℕ) → X.xdr_bool z (reader (bool_bytes v ++ b)) ≡ (v, reader b)
  pub write_string :
      (l : Limit) (v b : List ℕ)
      → Within l (length v)
      → X.xdr_string l v (writer b) ≡ (v, writer (b ++ slice_bytes v))
  pub read_string :
      (l : Limit) (z v b : List ℕ)
      → Within l (length v)
      → X.xdr_string l z (reader (slice_bytes v ++ b)) ≡ (v, reader b)
  pub write_var_array :
      (l : Limit) (v b : List ℕ)
      → Within l (length v)
      → X.xdr_var_array l v (writer b) ≡ (v, writer (b ++ slice_bytes v))
  pub read_var_array :
      (l : Limit) (z v b : List ℕ)
      → Within l (length v)
      → X.xdr_var_array l z (reader (slice_bytes v ++ b)) ≡ (v, reader b)
  pub write_array : (v b : List ℕ) → X.xdr_array v (writer b) ≡ (v, writer (b ++ array_bytes v))
  pub read_array :
      (z v b : List ℕ)
      → length z ≡ length v
      → X.xdr_array z (reader (array_bytes v ++ b)) ≡ (v, reader b)
