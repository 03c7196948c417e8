-- ===== src/Examples/Codec.antt =====
-- The little-endian coding of integers, as a concrete encoder and decoder.
use go_nfsd.Prelude.{
  ℕ, zero, suc, ◌+◌, ◌-◌, ◌*◌, ◌/◌, ◌%◌, ◌≤◌, ◌<◌, ◌≡◌, refl, ap, ◌∙◌, List, [], ◌∷◌, ◌++◌, length,
  length-append, length-take, replicate, take, drop, leb, le→leb, if◌then◌else◌, Outcome, ok, panic,
  IsU64, arith,
}
use go_nfsd.External.Marshal.{Marshal, MarshalLaws, ints_bytes, AllU64}

-- The `k` lowest bytes of `x`, and the number that bytes stand for.
unfoldable pub le_bytes : ℕ → ℕ → List ℕ
le_bytes zero x = []
le_bytes (suc k) x = (x % 256) ∷ le_bytes k (x / 256)

unfoldable pub from_le : List ℕ → ℕ
from_le [] = 0
from_le (b ∷ r) = b % 256 + 256 * from_le r

abbrev bound : ℕ → ℕ
bound zero = 1
bound (suc k) = 256 * bound k

from_le-le_bytes : (k x : ℕ) → x < bound k → from_le (le_bytes k x) ≡ x
unfolding le_bytes from_le
from_le-le_bytes zero x h = omega arith
from_le-le_bytes (suc k) x h = omega (arith, from_le-le_bytes k (x / 256) (omega arith))

length-le_bytes : (k x : ℕ) → length (le_bytes k x) ≡ k
unfolding le_bytes
length-le_bytes zero x = refl
length-le_bytes (suc k) x = ap suc (length-le_bytes k (x / 256))

from_le-lt : (b : List ℕ) → from_le b < bound (length b)
unfolding from_le
from_le-lt [] = omega arith
from_le-lt (x ∷ b) = omega (arith, from_le-lt b)

pub take-append : (n : ℕ) (a r : List ℕ) → length a ≡ n → take n (a ++ r) ≡ a
take-append zero [] r h = refl
take-append zero (x ∷ a) r h = absurd (omega arith)
take-append (suc n) [] r h = absurd (omega arith)
take-append (suc n) (x ∷ a) r h = ap (◌∷◌ x) (take-append n a r (omega arith))

pub drop-append : (n : ℕ) (a r : List ℕ) → length a ≡ n → drop n (a ++ r) ≡ r
drop-append zero [] r h = refl
drop-append zero (x ∷ a) r h = absurd (omega arith)
drop-append (suc n) [] r h = absurd (omega arith)
drop-append (suc n) (x ∷ a) r h = drop-append n a r (omega arith)

-- Appends `b` to what is written, if there is room.
unfoldable pub put : ℕ × List ℕ → List ℕ → Outcome (ℕ × List ℕ)
put e b = if leb (length e.1 + length b) e.0 then ok (e.0, e.1 ++ b) else panic

-- Takes `n` bytes from the front.
unfoldable pub get : List ℕ → ℕ → Outcome (List ℕ × List ℕ)
get d n = if leb n (length d) then ok (take n d, drop n d) else panic

unfoldable pub as_ints : ℕ → List ℕ → List ℕ
as_ints zero d = []
as_ints (suc n) d = from_le (take 8 d) ∷ as_ints n (drop 8 d)

abbrev pub on_bytes {ℓ} :
    {A : Type ℓ} → (List ℕ → A) → Outcome (List ℕ × List ℕ) → Outcome (A × List ℕ)
on_bytes f (ok (b, r)) = ok (f b, r)
on_bytes f panic = panic

abbrev pub codec : Marshal
codec = record {
  Encoder = ℕ × List ℕ;
  Decoder = List ℕ;
  new_enc = λ n. (n, []);
  put_int = λ e x. put e (le_bytes 8 x);
  put_int32 = λ e x. put e (le_bytes 4 x);
  put_ints = λ e xs. put e (ints_bytes (le_bytes 8) xs);
  put_bytes = λ e b. put e b;
  finish = λ e. e.1 ++ replicate (e.0 - length e.1) 0;
  new_dec = λ b. b;
  get_int = λ d. on_bytes from_le (get d 8);
  get_int32 = λ d. on_bytes from_le (get d 4);
  get_ints = λ d n. on_bytes (as_ints n) (get d (8 * n));
  get_bytes = λ d n. on_bytes (λ b. b) (get d n);
}

put_fits :
    (e : ℕ × List ℕ) (b : List ℕ) (n : ℕ)
    → length b ≡ n
    → length e.1 + n ≤ e.0
    → (e' : ℕ × List ℕ) × (put e b ≡ ok e') × (e'.1 ≡ e.1 ++ b) × (e'.0 ≡ e.0)
unfolding put
put_fits e b n len fits =
    ((e.0, e.1 ++ b), rw (le→leb (length e.1 + length b) e.0 (omega arith)), refl, refl)

get_reads : (d : List ℕ) (n : ℕ) (b r : List ℕ) → length b ≡ n → d ≡ b ++ r → get d n ≡ ok (b, r)
unfolding get
get_reads d n b r len e = rw (
  e,
  le→leb n (length (b ++ r)) (omega (arith, length-append b r)),
  take-append n b r len,
  drop-append n b r len,
)

length-ints_bytes : (xs : List ℕ) → length (ints_bytes (le_bytes 8) xs) ≡ 8 * length xs
length-ints_bytes [] = omega arith
length-ints_bytes (x ∷ xs) = omega (
  arith,
  length-append (le_bytes 8 x) (ints_bytes (le_bytes 8) xs),
  length-le_bytes 8 x,
  length-ints_bytes xs,
)

as_ints-ints_bytes :
    (xs : List ℕ) → AllU64 xs → as_ints (length xs) (ints_bytes (le_bytes 8) xs) ≡ xs
unfolding as_ints
as_ints-ints_bytes [] h = refl
as_ints-ints_bytes (x ∷ xs) h =
    let front = take-append 8 (le_bytes 8 x) (ints_bytes (le_bytes 8) xs) (length-le_bytes 8 x) in
    let back = drop-append 8 (le_bytes 8 x) (ints_bytes (le_bytes 8) xs) (length-le_bytes 8 x) in
    rw (front, back, from_le-le_bytes 8 x h.0, as_ints-ints_bytes xs h.1)

get_total :
    (d : List ℕ) → 8 ≤ length d → on_bytes from_le (get d 8) ≡ ok (from_le (take 8 d), drop 8 d)
unfolding get
get_total d h = rw (le→leb 8 (length d) h)

bound_pos : (k : ℕ) → 1 ≤ bound k
bound_pos zero = omega arith
bound_pos (suc k) = omega (arith, bound_pos k)

bound_mono : (k m : ℕ) → k ≤ m → bound k ≤ bound m
bound_mono zero m h = bound_pos m
bound_mono (suc k) zero h = absurd (omega arith)
bound_mono (suc k) (suc m) h = omega (arith, bound_mono k m (omega arith))

from_le-IsU64 : (b : List ℕ) → length b ≤ 8 → IsU64 (from_le b)
from_le-IsU64 b h = omega (arith, from_le-lt b, bound_mono (length b) 8 h)

pub codec_laws : MarshalLaws codec
codec_laws = record {
  written = λ e. e.1;
  cap = λ e. e.0;
  rest = λ d. d;
  int_bytes = le_bytes 8;
  int32_bytes = le_bytes 4;
  length-int_bytes = λ x. length-le_bytes 8 x;
  length-int32_bytes = λ x. length-le_bytes 4 x;
  written-new_enc = λ n. refl;
  cap-new_enc = λ n. refl;
  put_int_fits = λ e x h. put_fits e (le_bytes 8 x) 8 (length-le_bytes 8 x) h;
  put_int32_fits = λ e x h. put_fits e (le_bytes 4 x) 4 (length-le_bytes 4 x) h;
  put_ints_fits =
      λ e xs h. put_fits e (ints_bytes (le_bytes 8) xs) (8 * length xs) (length-ints_bytes xs) h;
  put_bytes_fits = λ e b h. put_fits e b (length b) refl h;
  finish_pads = λ e h. refl;
  rest-new_dec = λ b. refl;
  get_int_reads = λ d x r h e. (
    r,
    ap (on_bytes from_le) (get_reads d 8 (le_bytes 8 x) r (length-le_bytes 8 x) e)
        ∙ ap (λ n. ok (n, r)) (from_le-le_bytes 8 x h),
    refl,
  );
  get_int32_reads = λ d x r h e. (
    r,
    ap (on_bytes from_le) (get_reads d 4 (le_bytes 4 x) r (length-le_bytes 4 x) e)
        ∙ ap (λ n. ok (n, r)) (from_le-le_bytes 4 x h),
    refl,
  );
  get_ints_reads = λ d xs r h e. (
    r,
    ap (on_bytes (as_ints (length xs)))
          (get_reads d (8 * length xs) (ints_bytes (le_bytes 8) xs) r (length-ints_bytes xs) e)
        ∙ ap (λ l. ok (l, r)) (as_ints-ints_bytes xs h),
    refl,
  );
  get_bytes_reads =
      λ d b r e. (r, ap (on_bytes (λ c. c)) (get_reads d (length b) b r refl e), refl);
  get_int_total = λ d h. (
    from_le (take 8 d),
    drop 8 d,
    get_total d h,
    from_le-IsU64 (take 8 d) (omega (arith, length-take 8 d)),
    refl,
  );
}
