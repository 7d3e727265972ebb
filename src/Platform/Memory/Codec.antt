-- ===== src/Platform/Memory/Codec.antt =====
-- Big-endian numbers, byte arrays and strings, for the platform in memory.
use native.Mathlib.Decide.{dec_le}
use mathlib.Core.List.{append_assoc}
use native.Mathlib.Nat.{div-add-mod, mod-lt, pow-suc}
use nuts_archive.Prelude.{
  ℕ, zero, suc, ◌+◌, ◌-◌, ◌*◌, ◌/◌, ◌%◌, ◌^◌, ◌≤◌, ◌<◌, ◌≡◌, ◌≢◌, refl, ap, List, [], ◌∷◌, ◌++◌,
  arith, length, take, drop, length-append, length-take, take-append_le, leb, le→leb, lt→leb,
  if◌then◌else◌,
}
use nuts_archive.Outcome.{Outcome, ok, err, panic}
use nuts_archive.Bytes.{Parser, pure, continue, ◌>>=◌}
use nuts_archive.Error.{BytesError, eof}
use nuts_archive.Platform.{Codec}
use nuts_archive.Platform.Laws.{Decodes}

unfoldable pub big_endian : ℕ → ℕ → List ℕ
big_endian zero n = []
big_endian (suc k) n = (n / 256 ^ k) ∷ big_endian k (n % 256 ^ k)

unfoldable pub from_big_endian : ℕ → Parser ℕ
from_big_endian zero bytes = ok (0, bytes)
from_big_endian (suc k) [] = err eof
from_big_endian (suc k) (b ∷ bytes) =
    (◌>>=◌ (from_big_endian k) (λ low. pure (256 ^ k * b + low))) bytes

length-big_endian : (k n : ℕ) → length (big_endian k n) ≡ k
unfolding big_endian
length-big_endian zero n = refl
length-big_endian (suc k) n = ap suc (length-big_endian k (n % 256 ^ k))

pow_pos : (k : ℕ) → 0 < 256 ^ k
pow_pos zero = omega arith
pow_pos (suc k) = rw (pow-suc 256 k) (omega (arith, pow_pos k))

from_big_endian_lem :
    (k n : ℕ) (rest : List ℕ)
    → n < 256 ^ k
    → from_big_endian k (big_endian k n ++ rest) ≡ ok (n, rest)
unfolding big_endian from_big_endian
from_big_endian_lem zero n rest h = ap (λ m. ok (m, rest)) (omega arith)
from_big_endian_lem (suc k) n rest h =
    rw (from_big_endian_lem k (n % 256 ^ k) rest (mod-lt n (pow_pos k)))
      (ap (λ m. ok (m, rest)) (div-add-mod n (256 ^ k)))

from_big_endian_short : (k n m : ℕ) → m < k → from_big_endian k (take m (big_endian k n)) ≡ err eof
unfolding big_endian from_big_endian
from_big_endian_short zero n m h = elim h [ ]
from_big_endian_short (suc k) n zero h = refl
from_big_endian_short (suc k) n (suc m) h =
    rw (from_big_endian_short k (n % 256 ^ k) m (omega arith))

-- The next `n` bytes.
unfoldable pub take_bytes : ℕ → Parser (List ℕ)
take_bytes n bytes = if leb n (length bytes) then ok (take n bytes, drop n bytes) else err eof

from_big_endian_total : (k : ℕ) (bytes : List ℕ) → from_big_endian k bytes ≢ panic
unfolding from_big_endian
from_big_endian_total zero bytes = λ e. cc
from_big_endian_total (suc k) [] = λ e. cc
from_big_endian_total (suc k) (b ∷ bytes) = λ e. ground (arith, from_big_endian_total k bytes)

take_bytes_total : (n : ℕ) (bytes : List ℕ) → take_bytes n bytes ≢ panic
unfolding take_bytes
take_bytes_total n bytes = λ e. ground arith

text_total : (bytes : List ℕ) → (from_big_endian 8 >>= take_bytes) bytes ≢ panic
text_total bytes = split (from_big_endian 8 bytes) (from_big_endian_total 8 bytes)
  where
    split : (r : Outcome BytesError (ℕ × List ℕ)) → r ≢ panic → continue r take_bytes ≢ panic
    split (ok (n, rest)) h = take_bytes_total n rest
    split (err e) h = λ e. cc
    split panic h = absurd (h refl)

abbrev pub number : ℕ → Codec ℕ
number k = record { to_bytes = big_endian k; from_bytes = from_big_endian k }

pub number-Decodes : (k : ℕ) → Decodes (number k) (λ n. n < 256 ^ k) (λ _. k)
number-Decodes k = record {
  length_bytes = λ n h. length-big_endian k n;
  round_trip = λ n rest h. from_big_endian_lem k n rest h;
  too_short = λ n m h lt. from_big_endian_short k n m lt;
  no_panic = from_big_endian_total k;
}

module _ {A : Type 0} where
  take-append_self : (xs ys : List A) → take (length xs) (xs ++ ys) ≡ xs
  take-append_self [] ys = refl
  take-append_self (x ∷ xs) ys = ap (λ r. x ∷ r) (take-append_self xs ys)

  drop-append_self' : (xs ys : List A) → drop (length xs) (xs ++ ys) ≡ ys
  drop-append_self' [] ys = refl
  drop-append_self' (x ∷ xs) ys = drop-append_self' xs ys

  take-append_ge :
      (n : ℕ) (xs ys : List A) → length xs ≤ n → take n (xs ++ ys) ≡ xs ++ take (n - length xs) ys
  take-append_ge n [] ys h = ap (λ m. take m ys) (omega arith)
  take-append_ge zero (x ∷ xs) ys h = absurd (omega arith)
  take-append_ge (suc n) (x ∷ xs) ys h =
      ap (λ r. x ∷ r) (rw (sub_suc n (length xs)) (take-append_ge n xs ys (omega arith)))
    where
      sub_suc : (a b : ℕ) → suc a - suc b ≡ a - b
      sub_suc a b = omega arith

take_bytes_lem : (s rest : List ℕ) → take_bytes (length s) (s ++ rest) ≡ ok (s, rest)
unfolding take_bytes
take_bytes_lem s rest = rw (
  le→leb (length s) (length (s ++ rest)) (omega (arith, length-append s rest)),
  take-append_self s rest,
  drop-append_self' s rest,
)

take_bytes_short : (n : ℕ) (s : List ℕ) → length s < n → take_bytes n s ≡ err eof
unfolding take_bytes
take_bytes_short n s h = rw (lt→leb n (length s) h)

abbrev pub magic12 : Codec (List ℕ)
magic12 = record { to_bytes = λ m. m; from_bytes = take_bytes 12 }

pub magic12-Decodes : Decodes magic12 (λ m. length m ≡ 12) (λ _. 12)
magic12-Decodes = record {
  length_bytes = λ m h. h;
  round_trip = λ m rest h. subst_len m rest h;
  too_short = λ m n h lt. take_bytes_short 12 (take n m) (omega (arith, length-take n m));
  no_panic = take_bytes_total 12;
}
  where
    subst_len : (m rest : List ℕ) → length m ≡ 12 → take_bytes 12 (m ++ rest) ≡ ok (m, rest)
    subst_len m rest h = rw (← h) (take_bytes_lem m rest)

abbrev pub text : Codec (List ℕ)
text = record {
  to_bytes = λ s. big_endian 8 (length s) ++ s;
  from_bytes = from_big_endian 8 >>= take_bytes;
}

text_short :
    (s : List ℕ) (n : ℕ)
    → length s < 256 ^ 8
    → n < 8 + length s
    → text.from_bytes (take n (text.to_bytes s)) ≡ err eof
text_short s n h lt = elim (dec_le 8 n) [
  | yes long ↦
      let le : length (big_endian 8 (length s)) ≤ n =
        omega (arith, length-big_endian 8 (length s)) in
      rw
        (
          take-append_ge n (big_endian 8 (length s)) s le,
          from_big_endian_lem 8 (length s) (take (n - length (big_endian 8 (length s))) s) h,
        )
        (take_bytes_short (length s) (take (n - length (big_endian 8 (length s))) s) (
          omega (
            arith,
            length-big_endian 8 (length s),
            length-take (n - length (big_endian 8 (length s))) s,
          )))
  | no short ↦
      let le : n ≤ length (big_endian 8 (length s)) =
        omega (arith, length-big_endian 8 (length s)) in
      rw (
        take-append_le n (big_endian 8 (length s)) s le,
        from_big_endian_short 8 (length s) n (omega arith),
      )
]

pub text-Decodes : Decodes text (λ s. length s < 256 ^ 8) (λ s. 8 + length s)
text-Decodes = record {
  length_bytes = λ s h.
      omega (arith, length-append (big_endian 8 (length s)) s, length-big_endian 8 (length s));
  round_trip = λ s rest h.
      rw (append_assoc, from_big_endian_lem 8 (length s) (s ++ rest) h) (take_bytes_lem s rest);
  too_short = text_short;
  no_panic = text_total;
}
