-- ===== src/Prelude/Hoare.antt =====
-- What holds after a method, whether it returned or raised.
use mathlib.Core.Bool.{Bool, true, false}
use mathlib.Core.Option.{Option, none, some}
use mathlib.Core.Path.{◌≡◌, refl}
use cr_agent.Prelude.Exec.{Result, ok, err, continue, raise_if, or_raise}
use cr_agent.Prelude.Tests.{if◌then◌else◌}

-- `Q` of what it returned and the state, or `P` of the state if it raised.
unfoldable pub When : {S E A : Type 0} → (S → Type 0) → (A → S → Type 0) → Result E A × S → Type 0
When P Q (ok a, s) = Q a s
When P Q (err e, s) = P s

pub returned :
    (E : Type 0) {S A : Type 0} (P : S → Type 0) (Q : A → S → Type 0) (a : A) (s : S)
    → Q a s
    → When {E = E} P Q (ok a, s)
unfolding When
returned E P Q a s h = h

module _ {S E : Type 0} (P : S → Type 0) where
  -- `P`, either way.
  abbrev pub Either : {A : Type 0} → Result E A × S → Type 0
  Either = When P (λ a. P)

  module _ {A B : Type 0} (Q : A → S → Type 0) (R : B → S → Type 0) where
    pub bind-When :
        (p : Result E A × S) (k : A → S → Result E B × S)
        → When P Q p
        → ((a : A) (s' : S) → Q a s' → When P R (k a s'))
        → When P R (continue p.0 k p.1)
    unfolding When
    bind-When (ok a, s) k h g = g a s h
    bind-When (err e, s) k h g = h

  module _ {B : Type 0} (R : B → S → Type 0) where
    pub raise_if-When :
        (c : Bool) (e : E) (s : S) (k : Unit → S → Result E B × S)
        → P s
        → (c ≡ false → When P R (k tt s))
        → When P R (continue (raise_if c e s).0 k (raise_if c e s).1)
    unfolding When
    raise_if-When true e s k h g = h
    raise_if-When false e s k h g = g refl

    pub or_raise-When :
        {A : Type 0} (o : Option A) (e : E) (s : S) (k : A → S → Result E B × S)
        → P s
        → ((a : A) → o ≡ some a → When P R (k a s))
        → When P R (continue (or_raise o e s).0 k (or_raise o e s).1)
    unfolding When
    or_raise-When none e s k h g = h
    or_raise-When (some a) e s k h g = g a refl

    pub if-When :
        (c : Bool) (m n : S → Result E B × S) (s : S)
        → (c ≡ true → When P R (m s))
        → (c ≡ false → When P R (n s))
        → When P R ((if c then m else n) s)
    if-When true m n s h g = h refl
    if-When false m n s h g = g refl

  pub Either-state : {A : Type 0} (p : Result E A × S) → Either p → P p.1
  unfolding When
  Either-state (ok a, s) h = h
  Either-state (err e, s) h = h
