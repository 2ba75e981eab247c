-- ===== src/Prelude/Fallible.antt =====
-- Functions that raise and change nothing: a chain of results.
use mathlib.Core.Bool.{Bool, true, false}
use mathlib.Core.Option.{Option, none, some}
use mathlib.Core.Path.{◌≡◌, refl, subst}
use cr_agent.Prelude.Exec.{Result, ok, err}
use cr_agent.Prelude.Tests.{if◌then◌else◌}

infixl 5 ◌>>=◌ ◌>>◌
abbrev pub ◌>>=◌ : {E A B : Type 0} → Result E A → (A → Result E B) → Result E B
ok a >>= f = f a
err e >>= f = err e

abbrev pub ◌>>◌ : {E B : Type 0} → Result E Unit → Result E B → Result E B
m >> k = m >>= λ _. k

-- `if c: raise e`
abbrev pub refuse : {E : Type 0} → Bool → E → Result E Unit
refuse true e = err e
refuse false e = ok tt

-- A value, or the exception for `None`.
abbrev pub present : {E A : Type 0} → Option A → E → Result E A
present none e = err e
present (some a) e = ok a

module _ {E A B : Type 0} where
  -- Both parts of a chain that returned.
  pub bind-eq-ok :
      (m : Result E A) (f : A → Result E B) {b : B}
      → (m >>= f) ≡ ok b
      → (a : A) × (m ≡ ok a) × (f a ≡ ok b)
  bind-eq-ok (ok a) f h = (a, refl, h)
  bind-eq-ok (err e) f h = cc

module _ {E : Type 0} where
  pub refuse-eq-ok : (c : Bool) (e : E) {u : Unit} → refuse c e ≡ ok u → c ≡ false
  refuse-eq-ok true e h = cc
  refuse-eq-ok false e h = refl

-- Whatever is returned has the property.
abbrev pub Ensures : {E A : Type 0} → (A → Type 0) → Result E A → Type 0
Ensures P r = (a : _) → r ≡ ok a → P a

module _ {E A B : Type 0} where
  pub bind-Ensures :
      (P : B → Type 0) (m : Result E A) (f : A → Result E B)
      → ((a : A) → m ≡ ok a → Ensures P (f a))
      → Ensures P (m >>= f)
  bind-Ensures P m f k b h = let (a, e, g) = bind-eq-ok m f h in k a e b g

module _ {E A : Type 0} where
  pub if-Ensures :
      (P : A → Type 0) (c : Bool) (r s : Result E A)
      → Ensures P r
      → Ensures P s
      → Ensures P (if c then r else s)
  if-Ensures P true r s h g = h
  if-Ensures P false r s h g = g

  pub ok-Ensures : (P : A → Type 0) (a : A) → P a → Ensures {E = E} P (ok a)
  ok-Ensures P a p b h = let same : a ≡ b = cc h in subst P same p

  pub err-Ensures : (P : A → Type 0) (e : E) → Ensures P (err e)
  err-Ensures P e a h = cc

-- It returns something.
abbrev pub Returns : {E A : Type 0} → Result E A → Type 0
Returns {A = A} r = (a : A) × (r ≡ ok a)

module _ {E A B : Type 0} where
  pub bind-Returns :
      (m : Result E A) (f : A → Result E B)
      → Returns m
      → ((a : A) → Returns (f a))
      → Returns (m >>= f)
  bind-Returns (ok a) f h k = k a
  bind-Returns (err e) f h k = let broken = h.1 in cc broken
