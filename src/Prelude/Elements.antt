-- ===== src/Prelude/Elements.antt =====
-- A property of all elements of a list, and the elements by their places.
use mathlib.Core.Path.{◌≡◌, refl, ap, subst, ◌∙◌}
use native.Mathlib.Omega.{arith}
use mathlib.Core.Option.{some}
use mathlib.Core.List.{List, [], ◌∷◌, ◌++◌}
use Prim.Native.Nat.{ℕ, zero, suc, ◌+◌}
use nuts_archive.Prelude.Lists.{length, get_elem?, set, take, replicate}

module _ {A : Type 0} (P : A → Type 0) where
  abbrev pub All : List A → Type 0
  All [] = Unit {0}
  All (x ∷ xs) = P x × All xs

  pub All-append : (xs ys : List A) → All xs → All ys → All (xs ++ ys)
  All-append [] ys a b = b
  All-append (x ∷ xs) ys (h, a) b = (h, All-append xs ys a b)

  pub All-take : (n : ℕ) (xs : List A) → All xs → All (take n xs)
  All-take zero xs a = tt
  All-take (suc n) [] a = tt
  All-take (suc n) (x ∷ xs) (h, a) = (h, All-take n xs a)

  pub All-replicate : (n : ℕ) (x : A) → P x → All (replicate n x)
  All-replicate zero x h = tt
  All-replicate (suc n) x h = (h, All-replicate n x h)

  pub All-set : (xs : List A) (i : ℕ) (x : A) → All xs → P x → All (set xs i x)
  All-set [] i x a h = tt
  All-set (y ∷ xs) zero x (g, a) h = (h, a)
  All-set (y ∷ xs) (suc i) x (g, a) h = (g, All-set xs i x a h)

  pub All-get_elem? : (xs : List A) (i : ℕ) (x : A) → All xs → get_elem? xs i ≡ some x → P x
  All-get_elem? [] i x a e = absurd cc
  All-get_elem? (y ∷ xs) zero x (h, a) e = let same : y ≡ x = cc in subst P same h
  All-get_elem? (y ∷ xs) (suc i) x (h, a) e = All-get_elem? xs i x a e

module _ {A : Type 0} where
  -- The elements of two lists, one behind the other.
  pub get_elem?-behind :
      (xs ys : List A) (k : ℕ) → get_elem? (xs ++ ys) (length xs + k) ≡ get_elem? ys k
  get_elem?-behind [] ys zero = refl
  get_elem?-behind [] ys (suc k) = ap (λ n. get_elem? ys n) (omega arith)
  get_elem?-behind (x ∷ xs) ys k =
      ap (λ n. get_elem? (x ∷ (xs ++ ys)) n) (step (length xs) k) ∙ get_elem?-behind xs ys k
    where
      step : (n k : ℕ) → suc n + k ≡ suc (n + k)
      step n k = omega arith
