-- ===== src/Tree/Routes/Digits.antt =====
-- An index behind the direct blocks, taken apart into the places in two or three nodes.
use native.Mathlib.Nat.{
  div-add-mod', mod-eq_of_lt, div-lt_iff_lt-mul, div-div-eq-div-mul, mul-add-div_right,
  mul-add-mod_self_right, div-eq_of_lt, suc-mul, mul-le-mul_right,
}
use nuts_archive.Prelude.{ℕ, suc, arith, ◌+◌, ◌*◌, ◌/◌, ◌%◌, ◌<◌, ◌≤◌, ◌≡◌, sym, ap, ◌∙◌}

module _ (n x : ℕ) (pos : 0 < n) where
  pub digits_two : x < n * n → x / n % n * n + x % n ≡ x
  digits_two h =
      ap (λ y. y * n + x % n) (mod-eq_of_lt ((div-lt_iff_lt-mul pos).1 h)) ∙ div-add-mod' x n

module _ (n x : ℕ) (pos : 0 < n) where
  pub digits_three : x < n * n * n → (x / (n * n) % n * n + x / n % n) * n + x % n ≡ x
  digits_three h =
      ap (λ y. (y % n * n + x / n % n) * n + x % n) (sym (div-div-eq-div-mul x n n))
      ∙ ap (λ y. y * n + x % n) (digits_two n (x / n) pos ((div-lt_iff_lt-mul pos).1 h))
      ∙ div-add-mod' x n

-- The digits of a number that is put together of them.
module _ (n : ℕ) (pos : 0 < n) where
  pub low_digit : (i j : ℕ) → j < n → (i * n + j) % n ≡ j
  low_digit i j h = mul-add-mod_self_right i n j ∙ mod-eq_of_lt h

  pub high_digits : (i j : ℕ) → j < n → (i * n + j) / n ≡ i
  high_digits i j h = mul-add-div_right pos i j ∙ omega (arith, div-eq_of_lt h)

  pub highest_digit : (i j k : ℕ) → j < n → k < n → ((i * n + j) * n + k) / (n * n) ≡ i
  highest_digit i j k hj hk =
      sym (div-div-eq-div-mul ((i * n + j) * n + k) n n)
      ∙ ap (λ x. x / n) (high_digits (i * n + j) k hk)
      ∙ high_digits i j hj

  pub two_digits-lt : (m i j : ℕ) → i < m → j < n → i * n + j < m * n
  two_digits-lt m i j hi hj =
      let below : suc i * n ≤ m * n = mul-le-mul_right n hi in omega (arith, below, suc-mul i n, hj)
