-- ===== src/Magic.antt =====
-- magic.rs
use nuts_archive.Prelude.{
  ℕ, ◌≡◌, ◌≢◌, inl, inr, List, [], ◌∷◌, ◌===◌, ===_iff, Bool-cases, if◌then◌else◌,
}
use nuts_archive.Outcome.{Outcome, ok, err}

abbrev pub magic : List ℕ
magic = b'n' ∷ b'u' ∷ b't' ∷ b's' ∷ b'-' ∷ b'a' ∷ b'r' ∷ b'c' ∷ b'h' ∷ b'i' ∷ b'v' ∷ b'e' ∷ []

abbrev pub magic_size : ℕ
magic_size = 12

-- The argument is what the error type's `MagicErrorFactory::create` returns.
unfoldable pub validate_magic : {E : Type 0} → E → List ℕ → Outcome E (List ℕ)
validate_magic error found = if found === magic then ok found else err error

pub validate_magic_ok :
    {E : Type 0} (error : E) (found : List ℕ)
    → found ≡ magic
    → validate_magic error found ≡ ok found
unfolding validate_magic
validate_magic_ok error found e = rw ((===_iff found magic).1 e)

pub validate_magic_err :
    {E : Type 0} (error : E) (found : List ℕ)
    → found ≢ magic
    → validate_magic error found ≡ err error
unfolding validate_magic
validate_magic_err error found ne = elim (Bool-cases (found === magic)) [
  | inl e ↦ absurd (ne ((===_iff found magic).0 e))
  | inr e ↦ rw e
]
