-- ===== src/Base/Results.antt =====
-- Go's `(value, error)` pairs: a value or an error.
use mathlib.Core.Path.{◌≡◌, refl}
use mathlib.Core.Logic.{◌⊎◌, inl, inr}

pub data Result {ℓ κ} (E : Type ℓ) (A : Type κ) : Type (ℓ ⊔ κ) where
  ok : A → Result E A
  err : E → Result E A

module _ {ℓ κ} {E : Type ℓ} {A : Type κ} where
  pub Result-cases : (r : Result E A) → ((a : A) × (r ≡ ok a)) ⊎ ((e : E) × (r ≡ err e))
  Result-cases (err e) = inr (e, refl)
  Result-cases (ok a) = inl (a, refl)

  module _ {μ} {B : Type μ} where
    infixl 5 ◌>>=◌ ◌>>◌
    -- `if err != nil { return err }` between two calls.
    abbrev pub ◌>>=◌ : Result E A → (A → Result E B) → Result E B
    err why >>= more = err why
    ok value >>= more = more value

    abbrev pub ◌>>◌ : Result E A → Result E B → Result E B
    r >> after = r >>= λ ignored. after

    -- What is returned with no error comes from two calls that have none.
    pub >>=-eq-ok :
        (r : Result E A) (more : A → Result E B) {b : B}
        → (r >>= more) ≡ ok b
        → (value : A) × (r ≡ ok value) × (more value ≡ ok b)
    >>=-eq-ok (err why) more returned = cc
    >>=-eq-ok (ok value) more returned = (value, refl, returned)
