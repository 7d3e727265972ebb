-- ===== src/Outcome.antt =====
-- Results of the operations, and operations on a state that can fail. What was written before a
-- failure stays written, so the state comes back beside a failure too.
pub mod Ensures
use nuts_archive.Prelude.{◌≡◌, refl, ◌⊎◌, inl, inr}

-- `panic` is a failed assertion or an index out of bounds, which the program does not handle.
pub data Outcome {ℓ} (X A : Type ℓ) : Type ℓ where
  ok : A → Outcome X A
  err : X → Outcome X A
  panic : Outcome X A

abbrev pub Exec : Type 0 → Type 0 → Type 0 → Type 0
Exec S X A = S → Outcome X A × S

module _ {S X A : Type 0} where
  abbrev pub pure : A → Exec S X A
  pure a s = (ok a, s)

  abbrev pub raise : X → Exec S X A
  raise e s = (err e, s)

  abbrev pub abort : Exec S X A
  abort s = (panic, s)

  abbrev pub gets : (S → A) → Exec S X A
  gets f s = (ok (f s), s)

module _ {S X : Type 0} where
  abbrev pub modify : (S → S) → Exec S X (Unit {0})
  modify f s = (ok tt, f s)

module _ {S X A B : Type 0} where
  abbrev pub and_then : Outcome X A × S → (A → Exec S X B) → Outcome X B × S
  and_then (ok a, s) f = f a s
  and_then (err e, s) f = (err e, s)
  and_then (panic, s) f = (panic, s)

  infixl 5 ◌>>=◌ ◌>>◌
  abbrev pub ◌>>=◌ : Exec S X A → (A → Exec S X B) → Exec S X B
  m >>= f = λ s. and_then (m s) f

  abbrev pub ◌>>◌ : Exec S X A → Exec S X B → Exec S X B
  m >> n = m >>= λ _. n

-- An operation on a part of the state; `f` translates its errors, as `?` does by `From`.
abbrev pub lift_outcome : {X Y A : Type 0} → (X → Y) → Outcome X A → Outcome Y A
lift_outcome f (ok a) = ok a
lift_outcome f (err e) = err (f e)
lift_outcome f panic = panic

module _ {S T X Y A : Type 0} where
  abbrev pub zoom : (S → T) → (S → T → S) → (X → Y) → Exec T X A → Exec S Y A
  zoom get put f m s = let (r, t) = m (get s) in (lift_outcome f r, put s t)

-- To split on a computed outcome and keep the equation.
pub Outcome-cases :
    {X A : Type 0} (r : Outcome X A)
    → ((a : A) × (r ≡ ok a)) ⊎ (((e : X) × (r ≡ err e)) ⊎ (r ≡ panic))
Outcome-cases (ok a) = inl (a, refl)
Outcome-cases (err e) = inr (inl (e, refl))
Outcome-cases panic = inr (inr refl)
