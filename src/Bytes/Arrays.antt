-- ===== src/Bytes/Arrays.antt =====
-- Arrays and their encoding.
use nuts_archive.Prelude.{
  ℕ, zero, suc, inl, inr, ◌*◌, ◌≡◌, refl, sym, ap, ◌∙◌, List, [], ◌∷◌, ◌++◌, arith, length,
  length-append, append_assoc,
}
use nuts_archive.Outcome.{Outcome, ok, err, panic, Outcome-cases}
use nuts_archive.Error.{BytesError}
use nuts_archive.Platform.{Codec}
use nuts_archive.Platform.Laws.{Decodes, Any}
use nuts_archive.Bytes.{Parser, array_from_bytes, array_to_bytes}

module _ {A : Type 0} (c : Codec A) {size : ℕ} (d : Decodes c Any (λ _. size)) where
  pub length-array_to_bytes :
      (xs : List A) → length (array_to_bytes (λ a. c.to_bytes a) xs) ≡ length xs * size
  unfolding array_to_bytes
  length-array_to_bytes [] = omega arith
  length-array_to_bytes (x ∷ xs) =
      length-append (c.to_bytes x) (array_to_bytes (λ a. c.to_bytes a) xs)
      ∙ omega (arith, d.length_bytes x tt, length-array_to_bytes xs)

  pub array_from_bytes-array_to_bytes :
      (xs : List A) (rest : List ℕ)
      → array_from_bytes c.from_bytes (length xs) (array_to_bytes (λ a. c.to_bytes a) xs ++ rest)
        ≡ ok (xs, rest)
  unfolding array_to_bytes array_from_bytes
  array_from_bytes-array_to_bytes [] rest = refl
  array_from_bytes-array_to_bytes (x ∷ xs) rest =
      rw (append_assoc, d.round_trip x _ tt, array_from_bytes-array_to_bytes xs rest)

module _ {A : Type 0} (item : Parser A) where
  abbrev Read : Type 0
  Read = List A × List ℕ

  -- What is read as an array of `n` elements has `n` elements.
  pub length-array_from_bytes :
      (n : ℕ) (bytes rest : List ℕ) (xs : List A)
      → array_from_bytes item n bytes ≡ ok (xs, rest)
      → length xs ≡ n
  unfolding array_from_bytes
  length-array_from_bytes zero bytes rest [] h = refl
  length-array_from_bytes zero bytes rest (x ∷ xs) h = absurd cc
  length-array_from_bytes (suc n) bytes rest xs h = elim (Outcome-cases (item bytes)) [
    | inr (inl (e, g)) ↦ absurd (fails (rw g at h))
    | inr (inr g) ↦ absurd (panics (rw g at h))
    | inl ((a, left), g) ↦ elim (Outcome-cases (array_from_bytes item n left)) [
      | inr (inl (e, g')) ↦ absurd (fails (rw (g, array_from_bytes, g') at h))
      | inr (inr g') ↦ absurd (panics (rw (g, array_from_bytes, g') at h))
      | inl ((ys, left'), g') ↦
          longer a ys left' (rw (g, array_from_bytes, g') at h)
            (length-array_from_bytes n left left' ys g')
    ]
  ]
    where
      fails : {e : BytesError} {r : Read} → ◌≡◌ {A = Outcome BytesError Read} (err e) (ok r) → ⊥
      fails h = cc

      panics : {r : Read} → ◌≡◌ {A = Outcome BytesError Read} panic (ok r) → ⊥
      panics h = cc

      longer :
          (a : A) (ys : List A) (left : List ℕ)
          → ◌≡◌ {A = Outcome BytesError Read} (ok (a ∷ ys, left)) (ok (xs, rest))
          → length ys ≡ n
          → length xs ≡ suc n
      longer a ys left h e = let same : a ∷ ys ≡ xs = cc in ap length (sym same) ∙ ap suc e
