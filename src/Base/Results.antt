-- ===== src/Base/Results.antt =====
-- Rust's `Result`: a value or an error, with `?` as the bind of a `do` block.
use mathlib.Core.Path.{◌≡◌, refl}
use mathlib.Core.Logic.{◌⊎◌, inl, inr}

pub data Result {ℓ κ} (E : Type ℓ) (A : Type κ) : Type (ℓ ⊔ κ) where
  err : (e : E) → Result E A
  ok : (a : A) → Result E A

module _ {ℓ κ} {E : Type ℓ} {A : Type κ} where
  -- Rust's `map_err`.
  abbrev pub map_err {μ} : {F : Type μ} → (E → F) → Result E A → Result F A
  map_err f (err e) = err (f e)
  map_err f (ok a) = ok a

  infixl 5 ◌>>=◌
  abbrev pub ◌>>=◌ {μ} : {B : Type μ} → Result E A → (A → Result E B) → Result E B
  err e >>= f = err e
  ok a >>= f = f a

  -- A chain that succeeded went through a value.
  pub >>=-eq-ok {μ} :
      {B : Type μ} {b : B} (m : Result E A) (f : A → Result E B)
      → (m >>= f) ≡ ok b
      → (a : A) × (m ≡ ok a) × (f a ≡ ok b)
  >>=-eq-ok (err e) f h = cc
  >>=-eq-ok (ok a) f h = (a, refl, h)

  -- A chain that failed did so at first, or after a value.
  pub >>=-eq-err {μ} :
      {B : Type μ} {e : E} (m : Result E A) (f : A → Result E B)
      → (m >>= f) ≡ err e
      → (m ≡ err e) ⊎ ((a : A) × (m ≡ ok a) × (f a ≡ err e))
  >>=-eq-err (err e) f h = inl cc
  >>=-eq-err (ok a) f h = inr (a, refl, h)

  infixl 5 ◌>>◌
  abbrev pub ◌>>◌ {μ} : {B : Type μ} → Result E A → Result E B → Result E B
  m >> next = m >>= λ _. next
