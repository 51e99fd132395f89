-- ===== src/Prelude/Results.antt =====
-- Results of fallible functions.
use mathlib.Core.Path.{◌≡◌, refl}
use mathlib.Core.Logic.{◌⊎◌, inl, inr}

-- What a fallible function of the program gives: a value, an error, or a panic (a failed `assert!`,
-- `expect` or `unwrap`).
pub data Outcome {ℓ} (E : Type 0) (A : Type ℓ) : Type ℓ where
  ok : A → Outcome E A
  err : E → Outcome E A
  panic : Outcome E A

infixl 5 ◌>>=◌
abbrev pub ◌>>=◌ {ℓ κ} :
    {E : Type 0} {A : Type ℓ} {B : Type κ} → Outcome E A → (A → Outcome E B) → Outcome E B
ok a >>= f = f a
err e >>= f = err e
panic >>= f = panic

-- `Result::map_err` with `From::from`, as `?` applies it.
abbrev pub map_err {ℓ} : {E F : Type 0} {A : Type ℓ} → (E → F) → Outcome E A → Outcome F A
map_err f (ok a) = ok a
map_err f (err e) = err (f e)
map_err f panic = panic

-- What an outcome may be, with the equation.
pub Outcome-cases {ℓ} :
    {E : Type 0} {A : Type ℓ} (x : Outcome E A)
    → ((a : A) × (x ≡ ok a)) ⊎ (((e : E) × (x ≡ err e)) ⊎ (x ≡ panic))
Outcome-cases (ok a) = inl (a, refl)
Outcome-cases (err e) = inr (inl (e, refl))
Outcome-cases panic = inr (inr refl)
