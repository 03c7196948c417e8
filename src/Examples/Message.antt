-- ===== src/Examples/Message.antt =====
-- A concrete message: big-endian numbers, and bytes that are padded to a multiple of four.
use go_nfsd.Prelude.{
  ℕ, zero, suc, ◌+◌, ◌-◌, ◌*◌, ◌/◌, ◌%◌, ◌≤◌, ◌<◌, ◌^◌, ◌==◌, ◌≡◌, refl, ap, Bool, true, false, not,
  List, [], ◌∷◌, ◌++◌, length, length-append, replicate, take, drop, leb, le→leb, if◌then◌else◌,
  Option, none, some, arith,
}
use mathlib.Core.List.{append_assoc}
use go_nfsd.External.Xdr.{Xdr, XdrLaws, Limit, Within}
use go_nfsd.Examples.Codec.{take-append, drop-append}

pub record Message : Type 0 where
  pub writing : Bool
  pub bytes : List ℕ
  pub broken : Bool

unfoldable pub be32 : ℕ → List ℕ
be32 x = (x / 16777216 % 256) ∷ (x / 65536 % 256) ∷ (x / 256 % 256) ∷ (x % 256) ∷ []

unfoldable pub get32 : List ℕ → Option (ℕ × List ℕ)
get32 (a ∷ b ∷ c ∷ d ∷ r) = some (16777216 * a + 65536 * b + 256 * c + d, r)
get32 _ = none

get32-be32 : (x : ℕ) (r : List ℕ) → x < 2 ^ 32 → get32 (be32 x ++ r) ≡ some (x, r)
unfolding get32 be32
get32-be32 x r h = ap (λ y. some (y, r)) (omega (arith, h))

abbrev pad : ℕ → ℕ
pad n = (4 - n % 4) % 4

abbrev padded : List ℕ → List ℕ
padded v = v ++ replicate (pad (length v)) 0

-- Takes `n` bytes and what pads them.
unfoldable pub get_padded : ℕ → List ℕ → Option (List ℕ × List ℕ)
get_padded n b =
    if leb (n + pad n) (length b) then some (take n b, drop (pad n) (drop n b)) else none

length-replicate : (n : ℕ) → length {A = ℕ} (replicate n 0) ≡ n
length-replicate zero = refl
length-replicate (suc n) = ap suc (length-replicate n)

room : (v zeros r : List ℕ) (n : ℕ) → length zeros ≡ n → length v + n ≤ length (v ++ (zeros ++ r))
room v zeros r n h = omega (arith, h, length-append v (zeros ++ r), length-append zeros r)

get_padded-padded : (v r : List ℕ) → get_padded (length v) (padded v ++ r) ≡ some (v, r)
unfolding get_padded
get_padded-padded v r =
    let n = pad (length v) in
    let zeros = replicate {A = ℕ} n 0 in
    let zeros_n = length-replicate n in
    rw
      (
        append_assoc v zeros r,
        le→leb _ _ (room v zeros r n zeros_n),
        take-append (length v) v (zeros ++ r) refl,
        drop-append (length v) v (zeros ++ r) refl,
        drop-append n zeros r zeros_n,
      )
      refl

abbrev and_also : {A B : Type 0} → Option A → (A → Option B) → Option B
and_also none f = none
and_also (some a) f = f a

unfoldable pub get64 : List ℕ → Option (ℕ × List ℕ)
get64 b = and_also (get32 b) λ (hi, r). and_also (get32 r) λ (lo, r). some (4294967296 * hi + lo, r)

unfoldable pub be64 : ℕ → List ℕ
be64 x = be32 (x / 4294967296) ++ be32 (x % 4294967296)

get64-be64 : (x : ℕ) (r : List ℕ) → x < 2 ^ 64 → get64 (be64 x ++ r) ≡ some (x, r)
unfolding get64 be64
get64-be64 x r h =
    rw
      (
        append_assoc (be32 (x / 4294967296)) (be32 (x % 4294967296)) r,
        get32-be32 (x / 4294967296) (be32 (x % 4294967296) ++ r) (omega (arith, h)),
        get32-be32 (x % 4294967296) r (omega arith),
      )
      (ap (λ y. some (y, r)) (omega arith))

unfoldable pub be_bool : Bool → List ℕ
be_bool v = be32 (if v then 1 else 0)

unfoldable pub get_bool : List ℕ → Option (Bool × List ℕ)
get_bool b = and_also (get32 b) λ (n, r). some (not (n == 0), r)

get_bool-be_bool : (v : Bool) (r : List ℕ) → get_bool (be_bool v ++ r) ≡ some (v, r)
unfolding get_bool be_bool
get_bool-be_bool true r = rw (get32-be32 1 r (omega arith)) refl
get_bool-be_bool false r = rw (get32-be32 0 r (omega arith)) refl

-- A slice is within its limit, and starts with its length.
abbrev within : Limit → ℕ → Bool
within none n = true
within (some l) n = leb n l

unfoldable pub be_slice : List ℕ → List ℕ
be_slice v = be32 (length v) ++ padded v

unfoldable pub put_slice : Limit → List ℕ → Option (List ℕ)
put_slice l v = if within l (length v) then some (be_slice v) else none

unfoldable pub get_slice : Limit → List ℕ → Option (List ℕ × List ℕ)
get_slice l b = and_also (get32 b) λ (n, r). if within l n then get_padded n r else none

within-Within : (l : Limit) (n : ℕ) → Within l n → within l n ≡ true
within-Within none n h = refl
within-Within (some l) n h = le→leb n l h.0

Within-lt : (l : Limit) (n : ℕ) → Within l n → n < 2 ^ 32
Within-lt none n h = h
Within-lt (some l) n h = h.1

put_slice-Within :
    (l : Limit) (v : List ℕ) → Within l (length v) → put_slice l v ≡ some (be_slice v)
unfolding put_slice
put_slice-Within l v h = rw (within-Within l (length v) h) refl

get_slice-be_slice :
    (l : Limit) (v r : List ℕ) → Within l (length v) → get_slice l (be_slice v ++ r) ≡ some (v, r)
unfolding get_slice be_slice
get_slice-be_slice l v r h =
    rw
      (
        append_assoc (be32 (length v)) (padded v) r,
        get32-be32 (length v) (padded v ++ r) (Within-lt l (length v) h),
        within-Within l (length v) h,
      )
      (get_padded-padded v r)

abbrev broken : Message → Message
broken m = record m { broken = true }

abbrev sent : {A : Type 0} → Option (List ℕ) → A → Message → A × Message
sent none v m = (v, broken m)
sent (some b) v m = (v, record m { bytes = m.bytes ++ b })

abbrev got : {A : Type 0} → Option (A × List ℕ) → A → Message → A × Message
got none v m = (v, broken m)
got (some (a, r)) v m = (a, record m { bytes = r })

-- A broken message is left alone.
abbrev exchange :
    {A : Type 0}
    → (A → Option (List ℕ))
    → (A → List ℕ → Option (A × List ℕ))
    → A
    → Message
    → A × Message
exchange put get v m =
    if m.broken then (v, m) else if m.writing then sent (put v) v m else got (get v m.bytes) v m

abbrev pub messages : Xdr
messages = record {
  XdrState = Message;
  encoding = λ m. m.writing;
  decoding = λ m. not m.writing;
  failed = λ m. m.broken;
  xdr_u32 = exchange (λ n. some (be32 n)) (λ _. get32);
  xdr_u64 = exchange (λ n. some (be64 n)) (λ _. get64);
  xdr_bool = exchange (λ v. some (be_bool v)) (λ _. get_bool);
  xdr_string = λ l. exchange (put_slice l) (λ _. get_slice l);
  xdr_var_array = λ l. exchange (put_slice l) (λ _. get_slice l);
  xdr_array = exchange (λ v. some (padded v)) (λ v. get_padded (length v));
}

abbrev pub writer : List ℕ → Message
writer b = record { writing = true; bytes = b; broken = false }

abbrev pub reader : List ℕ → Message
reader b = record { writing = false; bytes = b; broken = false }

got_lem :
    {A : Type 0} (o : Option (A × List ℕ)) (v a : A) (b r : List ℕ)
    → o ≡ some (a, r)
    → got o v (reader b) ≡ (a, reader r)
got_lem o v a b r h = rw h refl

pub messages_laws : XdrLaws messages
messages_laws = record {
  writer = writer;
  reader = reader;
  encoding_writer = λ b. refl;
  decoding_writer = λ b. refl;
  encoding_reader = λ b. refl;
  decoding_reader = λ b. refl;
  failed_reader = λ b. refl;
  u32_bytes = be32;
  u64_bytes = be64;
  bool_bytes = be_bool;
  slice_bytes = be_slice;
  array_bytes = padded;
  write_u32 = λ n b. refl;
  read_u32 = λ z n b h. got_lem _ z n _ b (get32-be32 n b h);
  write_u64 = λ n b. refl;
  read_u64 = λ z n b h. got_lem _ z n _ b (get64-be64 n b h);
  write_bool = λ v b. refl;
  read_bool = λ z v b. got_lem _ z v _ b (get_bool-be_bool v b);
  write_string = λ l v b h. rw (put_slice-Within l v h) refl;
  read_string = λ l z v b h. got_lem _ z v _ b (get_slice-be_slice l v b h);
  write_var_array = λ l v b h. rw (put_slice-Within l v h) refl;
  read_var_array = λ l z v b h. got_lem _ z v _ b (get_slice-be_slice l v b h);
  write_array = λ v b. refl;
  read_array = λ z v b h.
      got_lem (get_padded (length z) (padded v ++ b)) z v _ b (rw h (get_padded-padded v b));
}
