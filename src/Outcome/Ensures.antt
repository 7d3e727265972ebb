-- ===== src/Outcome/Ensures.antt =====
-- What a run ensures: it does not panic, `P` of its value and state if it succeeds, and `Q` of
-- its error and state if it fails.
use nuts_archive.Prelude.{◌≡◌, subst}
use nuts_archive.Outcome.{panic, Outcome, ok, err, Exec, and_then, lift_outcome}

pub data Ensures {X A S : Type 0} (P : A → S → Type 0) (Q : X → S → Type 0)
    : Outcome X A × S → Type 0 where
  done : {a : A} {s : S} → P a s → Ensures P Q (ok a, s)
  failed : {e : X} {s : S} → Q e s → Ensures P Q (err e, s)

module _ {X A S : Type 0} {P : A → S → Type 0} {Q : X → S → Type 0} where
  pub bind :
      {B : Type 0} {P' : B → S → Type 0} {Q' : X → S → Type 0} {r : Outcome X A × S}
      {f : A → Exec S X B}
      → Ensures P Q r
      → ((a : A) (s : S) → P a s → Ensures P' Q' (f a s))
      → ((e : X) (s : S) → Q e s → Q' e s)
      → Ensures P' Q' (and_then r f)
  bind (done p) next fail = next _ _ p
  bind (failed q) next fail = failed (fail _ _ q)

  pub mono :
      {P' : A → S → Type 0} {Q' : X → S → Type 0} {r : Outcome X A × S}
      → Ensures P Q r
      → ((a : A) (s : S) → P a s → P' a s)
      → ((e : X) (s : S) → Q e s → Q' e s)
      → Ensures P' Q' r
  mono (done p) f g = done (f _ _ p)
  mono (failed q) f g = failed (g _ _ q)

-- A step on a part of the state.
module _ {S T X Y A : Type 0} {P : A → S → Type 0} {Q : Y → S → Type 0} where
  pub zoomed :
      (put : T → S) (f : X → Y) {r : Outcome X A × T}
      → Ensures (λ a t. P a (put t)) (λ e t. Q (f e) (put t)) r
      → Ensures P Q (let (o, t) = r in (lift_outcome f o, put t))
  zoomed put f (done p) = done p
  zoomed put f (failed q) = failed q

-- A run of which a part of the state goes on.
module _ {S T X A : Type 0} {P : A → S → Type 0} {Q : X → S → Type 0} where
  pub dropped :
      (get : T → S) {r : Outcome X A × T}
      → Ensures (λ a t. P a (get t)) (λ e t. Q e (get t)) r
      → Ensures P Q (r.0, get r.1)
  dropped get (done p) = done p
  dropped get (failed q) = failed q

-- A run that succeeded, seen from its result.
abbrev OfOk : {X A S : Type 0} → (A → S → Type 0) → Outcome X A × S → Type 0
OfOk P (ok a, s) = P a s
OfOk P (err e, s) = Unit
OfOk P (panic, s) = Unit

pub of_ok :
    {X A S : Type 0} {P : A → S → Type 0} {Q : X → S → Type 0} {r : Outcome X A × S} {a : A} {s : S}
    → Ensures P Q r
    → r ≡ (ok a, s)
    → P a s
of_ok {P} (done p) e = subst (OfOk P) e p
of_ok (failed q) e = cc
