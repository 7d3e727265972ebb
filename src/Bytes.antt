-- ===== src/Bytes.antt =====
-- Reading values from a byte string, one after the other, as the derived `FromBytes` of
-- nuts_bytes does for the fields of a struct in the order of their declaration.
pub mod Arrays
use nuts_archive.Prelude.{ℕ, zero, suc, List, [], ◌∷◌, ◌++◌}
use nuts_archive.Outcome.{Outcome, ok, err, panic}
use nuts_archive.Error.{BytesError}

-- The value, and the bytes that are left to read.
abbrev pub Parser : Type 0 → Type 0
Parser A = List ℕ → Outcome BytesError (A × List ℕ)

module _ {A : Type 0} where
  abbrev pub pure : A → Parser A
  pure a bytes = ok (a, bytes)

  -- A conversion that may fail, `map_from_bytes`: its error becomes a custom error.
  abbrev pub check : {E : Type 0} → (E → BytesError) → Outcome E A → Parser A
  check custom (ok a) bytes = ok (a, bytes)
  check custom (err e) bytes = err (custom e)
  check custom panic bytes = panic

module _ {A B : Type 0} where
  abbrev pub continue :
      Outcome BytesError (A × List ℕ) → (A → Parser B) → Outcome BytesError (B × List ℕ)
  continue (ok (a, rest)) f = f a rest
  continue (err e) f = err e
  continue panic f = panic

  infixl 5 ◌>>=◌
  abbrev pub ◌>>=◌ : Parser A → (A → Parser B) → Parser B
  m >>= f = λ bytes. continue (m bytes) f

-- An array `[A; n]`: its elements one after the other, with no length.
module _ {A : Type 0} where
  unfoldable pub array_from_bytes : Parser A → ℕ → Parser (List A)
  array_from_bytes item zero = pure []
  array_from_bytes item (suc n) = do a ← item; rest ← array_from_bytes item n; pure (a ∷ rest)

  unfoldable pub array_to_bytes : (A → List ℕ) → List A → List ℕ
  array_to_bytes item [] = []
  array_to_bytes item (a ∷ rest) = item a ++ array_to_bytes item rest
