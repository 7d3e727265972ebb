-- ===== src/Entry/Immut/Pieces.antt =====
-- Pieces of the bytes of some blocks, one block at a time (entry/immut.rs).
use native.Mathlib.Nat.{suc-mul}
use nuts_archive.Prelude.{
  ℕ, zero, suc, ◌+◌, ◌-◌, ◌*◌, ◌≤◌, ◌≡◌, refl, sym, ap, ◌∙◌, some, List, [], ◌∷◌, ◌++◌, length,
  take, drop, min, get_elem?, length-drop, take_all, take-append_le, take-append-drop, arith,
}
use nuts_archive.Pager.Blocks.{contents, drop-append_add}
use nuts_archive.Platform.{Platform}
use nuts_archive.Platform.Laws.{Laws}
use nuts_archive.Entry.Mut.Blocks.{bytes}

module _ {A : Type 0} where
  pub take-min : (m : ℕ) (xs : List A) → take (min (length xs) m) xs ≡ take m xs
  take-min zero xs = let none : min (length xs) 0 ≡ 0 = omega arith in ap (λ n. take n xs) none
  take-min (suc m) [] = let none : min 0 (suc m) ≡ 0 = omega arith in ap (λ n. take n []) none
  take-min (suc m) (x ∷ xs) =
      ap (λ n. take n (x ∷ xs)) (step (length xs) m) ∙ ap (λ r. x ∷ r) (take-min m xs)
    where
      step : (a b : ℕ) → min (suc a) (suc b) ≡ suc (min a b)
      step a b = omega arith

  pub take-take : (n m : ℕ) (xs : List A) → n ≤ m → take n (take m xs) ≡ take n xs
  take-take zero m xs h = refl
  take-take (suc n) zero xs h = absurd (omega arith)
  take-take (suc n) (suc m) [] h = refl
  take-take (suc n) (suc m) (x ∷ xs) h = ap (λ r. x ∷ r) (take-take n m xs (omega arith))

  pub drop-append_le :
      (n : ℕ) (xs ys : List A) → n ≤ length xs → drop n (xs ++ ys) ≡ drop n xs ++ ys
  drop-append_le zero xs ys h = refl
  drop-append_le (suc n) [] ys h = absurd (omega arith)
  drop-append_le (suc n) (x ∷ xs) ys h = drop-append_le n xs ys (omega arith)

  drop-nil : (n : ℕ) → drop {A = A} n [] ≡ []
  drop-nil zero = refl
  drop-nil (suc n) = refl

  pub drop-drop : (n m : ℕ) (xs : List A) → drop n (drop m xs) ≡ drop (m + n) xs
  drop-drop n zero xs = ap (λ k. drop k xs) (omega arith)
  drop-drop n (suc m) [] = drop-nil n ∙ sym (drop-nil (suc m + n))
  drop-drop n (suc m) (x ∷ xs) = drop-drop n m xs ∙ ap (λ k. drop k (x ∷ xs)) (step m n)
    where
      step : (a b : ℕ) → suc (a + b) ≡ suc a + b
      step a b = omega arith

  pub drop_all : (n : ℕ) (xs : List A) → length xs ≤ n → drop n xs ≡ []
  drop_all zero [] h = refl
  drop_all zero (x ∷ xs) h = absurd (omega arith)
  drop_all (suc n) [] h = refl
  drop_all (suc n) (x ∷ xs) h = drop_all n xs (omega arith)

  -- A piece of at most `m` elements, and what follows it.
  pub take-min-drop :
      (m k : ℕ) (xs : List A)
      → take (min (length xs - k) m) (drop k xs) ++ drop (k + m) xs ≡ drop k xs
  take-min-drop m k xs =
      ap (λ n. take (min n m) (drop k xs) ++ drop (k + m) xs) (sym (length-drop k xs))
      ∙ ap (λ r. r ++ drop (k + m) xs) (take-min m (drop k xs))
      ∙ ap (λ r. take m (drop k xs) ++ r) (sym (drop-drop m k xs))
      ∙ take-append-drop m (drop k xs)

module _ ⦃p : Platform⦄ (l : Laws p) where
  open p use {BlockId, Container, block_size}

  block_bytes :
      (c : Container) (bs : List BlockId) (k : ℕ) (b : BlockId)
      → get_elem? bs k ≡ some b
      → contents l c b ≡ take (block_size c) (drop (k * block_size c) (bytes l c bs))
  block_bytes c [] k b at = absurd cc
  block_bytes c (x ∷ bs) zero b at =
      let same : x ≡ b = cc in
      let long = l.length_contents c x in
      let start : 0 ≡ 0 * block_size c = omega arith in
      ap (contents l c) (sym same)
      ∙ sym (take_all (block_size c) (contents l c x) (omega (arith, long)))
      ∙ sym (take-append_le (block_size c) (contents l c x) (bytes l c bs) (omega (arith, long)))
      ∙ ap (λ n. take (block_size c) (drop n (bytes l c (x ∷ bs)))) start
  block_bytes c (x ∷ bs) (suc k) b at =
      let next : length (contents l c x) + k * block_size c ≡ suc k * block_size c =
        omega (arith, l.length_contents c x, suc-mul k (block_size c)) in
      block_bytes c bs k b at
      ∙ ap (take (block_size c)) (
          sym (drop-append_add (contents l c x) (bytes l c bs) (k * block_size c))
          ∙ ap (λ n. drop n (bytes l c (x ∷ bs))) next)

  -- The bytes of the data in one block.
  pub piece :
      (c : Container) (bs : List BlockId) (d pad : List ℕ) (k : ℕ) (b : BlockId)
      → bytes l c bs ≡ d ++ pad
      → get_elem? bs k ≡ some b
      → k * block_size c ≤ length d
      → take (min (length d - k * block_size c) (block_size c)) (contents l c b)
        ≡ take (min (length d - k * block_size c) (block_size c)) (drop (k * block_size c) d)
  piece c bs d pad k b whole at le =
      let size = block_size c in
      let n = min (length d - k * size) size in
      ap (take n) (block_bytes c bs k b at)
      ∙ take-take n size (drop (k * size) (bytes l c bs)) (omega arith)
      ∙ ap (λ v. take n (drop (k * size) v)) whole
      ∙ ap (take n) (drop-append_le (k * size) d pad le)
      ∙ take-append_le n (drop (k * size) d) pad (omega (arith, length-drop (k * size) d))
