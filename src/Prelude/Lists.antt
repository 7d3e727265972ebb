-- ===== src/Prelude/Lists.antt =====
-- Lists measured and indexed by native numbers, under the library's names, and lists of bytes.
use Prim.Native.Nat.{ℕ, zero, suc, ◌+◌, ◌-◌, ◌≤◌, ◌<◌, min}
use mathlib.Core.Path.{◌≡◌, refl, sym, ap, ◌∙◌}
use mathlib.Core.Logic.{◌≢◌, ◌↔◌, ◌⊎◌, inl, inr}
use mathlib.Core.Bool.{Bool, true, false, ◌&&◌}
use mathlib.Core.List.{List, [], ◌∷◌, ◌++◌}
use mathlib.Core.Option.{Option, none, some}
use native.Mathlib.Omega.{arith}
use nuts_archive.Prelude.Tests.{◌==◌}

module _ {ℓ} {A : Type ℓ} where
  abbrev pub length : List A → ℕ
  length [] = 0
  length (x ∷ xs) = suc (length xs)

  abbrev pub get_elem? : List A → ℕ → Option A
  get_elem? [] i = none
  get_elem? (x ∷ xs) zero = some x
  get_elem? (x ∷ xs) (suc i) = get_elem? xs i

  -- A write out of bounds changes nothing: callers that can panic test the index first.
  abbrev pub set : List A → ℕ → A → List A
  set [] i v = []
  set (x ∷ xs) zero v = v ∷ xs
  set (x ∷ xs) (suc i) v = x ∷ set xs i v

  abbrev pub take : ℕ → List A → List A
  take zero xs = []
  take (suc n) [] = []
  take (suc n) (x ∷ xs) = x ∷ take n xs

  abbrev pub drop : ℕ → List A → List A
  drop zero xs = xs
  drop (suc n) [] = []
  drop (suc n) (x ∷ xs) = drop n xs

  abbrev pub replicate : ℕ → A → List A
  replicate zero a = []
  replicate (suc n) a = a ∷ replicate n a

  abbrev pub is_empty : List A → Bool
  is_empty [] = true
  is_empty (x ∷ xs) = false

module _ {ℓ} {A : Type ℓ} where
  pub length-append : (xs ys : List A) → length (xs ++ ys) ≡ length xs + length ys
  length-append [] ys = omega arith
  length-append (x ∷ xs) ys = omega (arith, length-append xs ys)

  pub length-set : (xs : List A) (i : ℕ) (v : A) → length (set xs i v) ≡ length xs
  length-set [] i v = refl
  length-set (x ∷ xs) zero v = refl
  length-set (x ∷ xs) (suc i) v = ap suc (length-set xs i v)

  pub get_elem?-set_self :
      (xs : List A) (i : ℕ) (v : A) → i < length xs → get_elem? (set xs i v) i ≡ some v
  get_elem?-set_self [] i v h = elim h [ ]
  get_elem?-set_self (x ∷ xs) zero v h = refl
  get_elem?-set_self (x ∷ xs) (suc i) v h = get_elem?-set_self xs i v (omega arith)

  pub get_elem?-set_ne :
      (xs : List A) (i j : ℕ) (v : A) → i ≢ j → get_elem? (set xs i v) j ≡ get_elem? xs j
  get_elem?-set_ne [] i j v h = refl
  get_elem?-set_ne (x ∷ xs) zero zero v h = absurd (h refl)
  get_elem?-set_ne (x ∷ xs) zero (suc j) v h = refl
  get_elem?-set_ne (x ∷ xs) (suc i) zero v h = refl
  get_elem?-set_ne (x ∷ xs) (suc i) (suc j) v h = get_elem?-set_ne xs i j v (λ e. h (ap suc e))

  pub get_elem?-some : (xs : List A) (i : ℕ) → i < length xs → (x : A) × (get_elem? xs i ≡ some x)
  get_elem?-some [] i h = elim h [ ]
  get_elem?-some (x ∷ xs) zero h = (x, refl)
  get_elem?-some (x ∷ xs) (suc i) h = get_elem?-some xs i (omega arith)

  pub get_elem?-none : (xs : List A) (i : ℕ) → length xs ≤ i → get_elem? xs i ≡ none
  get_elem?-none [] i h = refl
  get_elem?-none (x ∷ xs) zero h = absurd (omega arith)
  get_elem?-none (x ∷ xs) (suc i) h = get_elem?-none xs i (omega arith)

  pub take-append-drop : (n : ℕ) (xs : List A) → take n xs ++ drop n xs ≡ xs
  take-append-drop zero xs = refl
  take-append-drop (suc n) [] = refl
  take-append-drop (suc n) (x ∷ xs) = rw (take-append-drop n xs)

  pub length-take : (n : ℕ) (xs : List A) → length (take n xs) ≡ min n (length xs)
  length-take zero xs = omega arith
  length-take (suc n) [] = omega arith
  length-take (suc n) (x ∷ xs) = omega (arith, length-take n xs)

  pub length-drop : (n : ℕ) (xs : List A) → length (drop n xs) ≡ length xs - n
  length-drop zero xs = omega arith
  length-drop (suc n) [] = omega arith
  length-drop (suc n) (x ∷ xs) = omega (arith, length-drop n xs)

  pub length-replicate : (n : ℕ) (a : A) → length (replicate n a) ≡ n
  length-replicate zero a = refl
  length-replicate (suc n) a = ap suc (length-replicate n a)

  pub take_all : (n : ℕ) (xs : List A) → length xs ≤ n → take n xs ≡ xs
  take_all zero [] h = refl
  take_all zero (x ∷ xs) h = absurd (omega arith)
  take_all (suc n) [] h = refl
  take_all (suc n) (x ∷ xs) h = ap (λ r. x ∷ r) (take_all n xs (omega arith))

  pub take-append_le : (n : ℕ) (xs ys : List A) → n ≤ length xs → take n (xs ++ ys) ≡ take n xs
  take-append_le zero xs ys h = refl
  take-append_le (suc n) [] ys h = absurd (omega arith)
  take-append_le (suc n) (x ∷ xs) ys h = ap (λ r. x ∷ r) (take-append_le n xs ys (omega arith))

  pub drop-append_self : (xs ys : List A) → drop (length xs) (xs ++ ys) ≡ ys
  drop-append_self [] ys = refl
  drop-append_self (x ∷ xs) ys = drop-append_self xs ys

pub is_empty_of_length : {A : Type 0} (xs : List A) → 0 < length xs → is_empty xs ≡ false
is_empty_of_length [] h = absurd (omega arith)
is_empty_of_length (x ∷ xs) h = refl

abbrev pub zeros : ℕ → List ℕ
zeros n = replicate n 0

pub zeros_eq : (n m : ℕ) → n ≡ m → zeros n ≡ zeros m
zeros_eq n m e = ap zeros e

pub length-zeros : (n : ℕ) → length (zeros n) ≡ n
length-zeros n = length-replicate n 0

pub drop-zeros : (n m : ℕ) → drop n (zeros m) ≡ zeros (m - n)
drop-zeros zero m = zeros_eq m (m - 0) (omega arith)
drop-zeros (suc n) zero = zeros_eq 0 (0 - suc n) (omega arith)
drop-zeros (suc n) (suc m) = drop-zeros n m ∙ zeros_eq (m - n) (suc m - suc n) (omega arith)

-- Equality of byte strings.
infix 50 ◌===◌
unfoldable pub ◌===◌ : List ℕ → List ℕ → Bool
[] === [] = true
[] === (y ∷ ys) = false
(x ∷ xs) === [] = false
(x ∷ xs) === (y ∷ ys) = (x == y) && (xs === ys)

pub ===_iff : (xs ys : List ℕ) → ((xs === ys) ≡ true) ↔ (xs ≡ ys)
unfolding ◌===◌
===_iff [] [] = (λ _. refl, λ _. refl)
===_iff [] (y ∷ ys) = (λ e. cc, λ e. cc)
===_iff (x ∷ xs) [] = (λ e. cc, λ e. cc)
===_iff (x ∷ xs) (y ∷ ys) =
    (λ e. ground (arith, (===_iff xs ys).0), λ e. ground (arith, (===_iff xs ys).1))

pub ===_refl : (xs : List ℕ) → (xs === xs) ≡ true
===_refl xs = (===_iff xs xs).1 refl

module _ {A : Type 0} where
  pub get_elem?-snoc :
      (xs : List A) (y : A) (k : ℕ) (x : A)
      → get_elem? (xs ++ y ∷ []) k ≡ some x
      → (get_elem? xs k ≡ some x) ⊎ ((k ≡ length xs) × (y ≡ x))
  get_elem?-snoc [] y zero x h = inr (refl, cc)
  get_elem?-snoc [] y (suc k) x h = absurd cc
  get_elem?-snoc (z ∷ xs) y zero x h = inl h
  get_elem?-snoc (z ∷ xs) y (suc k) x h = elim (get_elem?-snoc xs y k x h) [
    | inl e ↦ inl e
    | inr (e, e') ↦ inr (ap suc e, e')
  ]

  pub get_elem?-append :
      (xs ys : List A) (k : ℕ) (x : A) → get_elem? xs k ≡ some x → get_elem? (xs ++ ys) k ≡ some x
  get_elem?-append [] ys k x h = absurd cc
  get_elem?-append (z ∷ xs) ys zero x h = h
  get_elem?-append (z ∷ xs) ys (suc k) x h = get_elem?-append xs ys k x h

  pub get_elem?-lt : (xs : List A) (k : ℕ) (x : A) → get_elem? xs k ≡ some x → k < length xs
  get_elem?-lt [] k x h = absurd cc
  get_elem?-lt (z ∷ xs) zero x h = omega arith
  get_elem?-lt (z ∷ xs) (suc k) x h = omega (arith, get_elem?-lt xs k x h)

  pub get_elem?-replicate :
      (n : ℕ) (y : A) (k : ℕ) (x : A) → get_elem? (replicate n y) k ≡ some x → x ≡ y
  get_elem?-replicate zero y k x h = absurd cc
  get_elem?-replicate (suc n) y zero x h = cc
  get_elem?-replicate (suc n) y (suc k) x h = get_elem?-replicate n y k x h

  pub get_elem?-last : (xs : List A) (y : A) → get_elem? (xs ++ y ∷ []) (length xs) ≡ some y
  get_elem?-last [] y = refl
  get_elem?-last (x ∷ xs) y = get_elem?-last xs y

  pub set_same : (xs : List A) (i : ℕ) (x : A) → get_elem? xs i ≡ some x → set xs i x ≡ xs
  set_same [] i x h = refl
  set_same (y ∷ xs) zero x h = let same : y ≡ x = cc in ap (λ z. z ∷ xs) (sym same)
  set_same (y ∷ xs) (suc i) x h = ap (λ r. y ∷ r) (set_same xs i x h)

  -- The list is cut off or filled up with `y`.
  pub get_elem?-resized :
      (n : ℕ) (xs : List A) (m : ℕ) (y : A) (i : ℕ) (x : A)
      → get_elem? (take n xs ++ replicate m y) i ≡ some x
      → (get_elem? xs i ≡ some x) ⊎ (x ≡ y)
  get_elem?-resized zero xs m y i x h = inr (get_elem?-replicate m y i x h)
  get_elem?-resized (suc n) [] m y i x h = inr (get_elem?-replicate m y i x h)
  get_elem?-resized (suc n) (z ∷ xs) m y zero x h = inl h
  get_elem?-resized (suc n) (z ∷ xs) m y (suc i) x h = get_elem?-resized n xs m y i x h
