-- ===== src/Prelude/Bits.antt =====
-- The binary digits of `bit_and` and `bit_or`.
use Prim.Native.Nat.{
  ℕ, zero, suc, ◌+◌, ◌*◌, ◌/◌, ◌%◌, ◌≤◌, ◌-◌, min, max, bit_and, bit_or, digits, bit_and-bitwise,
  bit_or-bitwise,
}
use mathlib.Core.Path.{◌≡◌, refl, sym, ap, ◌∙◌}
use native.Mathlib.Omega.{arith}

-- The digit of weight 2 ^ k.
unfoldable pub bit : ℕ → ℕ → ℕ
bit m zero = m % 2
bit m (suc k) = bit (m / 2) k

module _ (rest : ℕ → ℕ) (on_digits : ℕ → ℕ → ℕ) where
  no_digits : (rounds y : ℕ) → digits rest on_digits rounds 0 y ≡ rest y
  no_digits zero y = refl
  no_digits (suc rounds) y = refl

  -- More rounds than the first number has digits give the same result.
  spare_rounds :
      (spare rounds x y : ℕ)
      → x ≤ rounds
      → digits rest on_digits (spare + rounds) x y ≡ digits rest on_digits rounds x y
  spare_rounds spare rounds zero y h = no_digits (spare + rounds) y ∙ sym (no_digits rounds y)
  spare_rounds spare zero (suc x) y h = absurd (omega arith)
  spare_rounds spare (suc rounds) (suc x) y h =
      let one_more : spare + suc rounds ≡ suc (spare + rounds) = omega arith in
      ap (λ n. digits rest on_digits n (suc x) y) one_more
      ∙ ap (λ r. r * 2 + on_digits (suc x % 2) (y % 2))
          (spare_rounds spare rounds (suc x / 2) (y / 2) (omega arith))

  -- The lowest digit, and the operation on the halves.
  lowest_digit :
      (x y : ℕ)
      → digits rest on_digits (suc x) (suc x) y
        ≡ digits rest on_digits (suc x / 2) (suc x / 2) (y / 2) * 2 + on_digits (suc x % 2) (y % 2)
  lowest_digit x y =
      let whole : x - suc x / 2 + suc x / 2 ≡ x = omega arith in
      ap (λ r. r * 2 + on_digits (suc x % 2) (y % 2))
        (ap (λ n. digits rest on_digits n (suc x / 2) (y / 2)) (sym whole)
          ∙ spare_rounds (x - suc x / 2) (suc x / 2) (suc x / 2) (y / 2) (omega arith))

pub bit_and_step : (x y : ℕ) → bit_and x y ≡ bit_and (x / 2) (y / 2) * 2 + min (x % 2) (y % 2)
bit_and_step zero y = rw (bit_and-bitwise, bit_and-bitwise) (omega arith)
bit_and_step (suc x) y = rw (bit_and-bitwise, bit_and-bitwise) (lowest_digit (λ y. zero) min x y)

bit_or_step : (x y : ℕ) → bit_or x y ≡ bit_or (x / 2) (y / 2) * 2 + max (x % 2) (y % 2)
bit_or_step zero y = rw (bit_or-bitwise, bit_or-bitwise) (omega arith)
bit_or_step (suc x) y = rw (bit_or-bitwise, bit_or-bitwise) (lowest_digit (λ y. y) max x y)

half_and : (a b : ℕ) → bit_and a b / 2 ≡ bit_and (a / 2) (b / 2)
half_and a b = omega (arith, bit_and_step a b)

half_or : (a b : ℕ) → bit_or a b / 2 ≡ bit_or (a / 2) (b / 2)
half_or a b = omega (arith, bit_or_step a b)

pub bit-le-one : (m k : ℕ) → bit m k ≤ 1
unfolding bit
bit-le-one m zero = omega arith
bit-le-one m (suc k) = bit-le-one (m / 2) k

pub bit-bit_and : (a b k : ℕ) → bit (bit_and a b) k ≡ min (bit a k) (bit b k)
unfolding bit
bit-bit_and a b zero = omega (arith, bit_and_step a b)
bit-bit_and a b (suc k) = rw (half_and a b) (bit-bit_and (a / 2) (b / 2) k)

pub bit-bit_or : (a b k : ℕ) → bit (bit_or a b) k ≡ max (bit a k) (bit b k)
unfolding bit
bit-bit_or a b zero = omega (arith, bit_or_step a b)
bit-bit_or a b (suc k) = rw (half_or a b) (bit-bit_or (a / 2) (b / 2) k)
