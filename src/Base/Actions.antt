-- ===== src/Base/Actions.antt =====
-- Fallible code that changes what is outside: it takes a state and gives a result and the next state.
use mathlib.Core.Path.{◌≡◌, refl}
use betterhook.Base.Results.{Result, ok, err}

abbrev pub Action : Type 0 → Type 0 → Type 0 → Type 0
Action S E A = S → Result E A × S

module _ {S E A : Type 0} where
  abbrev pub pure : A → Action S E A
  pure a s = (ok a, s)

  abbrev pub fail : E → Action S E A
  fail e s = (err e, s)

  abbrev pub and_then : {B : Type 0} → Result E A × S → (A → Action S E B) → Result E B × S
  and_then (err e, s) f = (err e, s)
  and_then (ok a, s) f = f a s

  infixl 5 ◌>>=◌
  abbrev pub ◌>>=◌ : {B : Type 0} → Action S E A → (A → Action S E B) → Action S E B
  (m >>= f) s = and_then (m s) f

  infixl 5 ◌>>◌
  abbrev pub ◌>>◌ : {B : Type 0} → Action S E A → Action S E B → Action S E B
  (m >> next) s = and_then (m s) (λ _. next)

  -- A chain that succeeded went through a value and a state.
  pub and_then-eq-ok :
      {B : Type 0} (m : Result E A × S) (f : A → Action S E B) (b : B) (s : S)
      → and_then m f ≡ (ok b, s)
      → (a : A) × (t : S) × (m ≡ (ok a, t)) × (f a t ≡ (ok b, s))
  and_then-eq-ok (err e, t) f b s h = cc h
  and_then-eq-ok (ok a, t) f b s h = (a, t, refl, h)

  pub pure-eq-ok : (a b : A) (s t : S) → pure a s ≡ (ok b, t) → (a ≡ b) × (s ≡ t)
  pure-eq-ok a b s t h = (cc h, cc h)

  -- A chain keeps what both its parts keep of the state.
  pub and_then_keeps :
      {B : Type 0} (P : S → Type 0) (m : Result E A × S) (f : A → Action S E B)
      → P m.1
      → ((a : A) (t : S) → P t → P (f a t).1)
      → P (and_then m f).1
  and_then_keeps P (err e, s) f h k = h
  and_then_keeps P (ok a, s) f h k = k a s h
