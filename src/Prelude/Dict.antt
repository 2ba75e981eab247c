-- ===== src/Prelude/Dict.antt =====
-- Python's `dict` with text keys: an association list in insertion order. `d[k] = v` replaces in
-- place or adds at the end. The operations stay shut behind their laws.
use Prim.Native.Nat.{ℕ, ◌+◌}
use Prim.Native.String.{String}
use mathlib.Core.Path.{◌≡◌, refl, ap}
use mathlib.Core.Logic.{◌≢◌, inl, inr}
use mathlib.Core.Bool.{Bool}
use mathlib.Core.Option.{Option, none, some}
use mathlib.Core.List.{List, [], ◌∷◌}
use native.Mathlib.Omega.{arith}
use text.Mathlib.Text.{◌==◌ as str_eq}
use text.Mathlib.TextEquality.{eq_iff}
use text.Mathlib.TextPositions.{eq_refl}
use cr_agent.Prelude.Tests.{if◌then◌else◌, is_some, Bool-cases}
use cr_agent.Prelude.Lists.{sum_of}

abbrev pub Dict {ℓ} : Type ℓ → Type ℓ
Dict V = List (String × V)

module _ {ℓ} {V : Type ℓ} where
  unfoldable pub get : Dict V → String → Option V
  get [] k = none
  get ((j, v) ∷ d) k = if str_eq j k then some v else get d k

  unfoldable pub put : Dict V → String → V → Dict V
  put [] k v = (k, v) ∷ []
  put ((j, w) ∷ d) k v = if str_eq j k then (j, v) ∷ d else (j, w) ∷ put d k v

  unfoldable pub values : Dict V → List V
  values [] = []
  values ((j, v) ∷ d) = v ∷ values d

  -- `k in d`
  abbrev pub contains : Dict V → String → Bool
  contains d k = is_some (get d k)

  pub get-put :
      (d : Dict V) (k j : String) (v : V)
      → get (put d k v) j ≡ (if str_eq k j then some v else get d j)
  unfolding get put
  get-put [] k j v = refl
  get-put ((i, w) ∷ d) k j v = ground (arith, eq_iff k j, eq_iff i k, eq_iff i j, get-put d k j v)

  pub get-put_self : (d : Dict V) (k : String) (v : V) → get (put d k v) k ≡ some v
  get-put_self d k v = simp (get-put, eq_refl)

  pub get-put_ne : (d : Dict V) (k j : String) (v : V) → k ≢ j → get (put d k v) j ≡ get d j
  get-put_ne d k j v h = ground (arith, get-put d k j v, eq_iff k j)

  pub get-empty : (k : String) → get [] k ≡ none
  unfolding get
  get-empty k = refl

  -- A value that is replaced gives up its weight; a new one adds its own.
  pub sum-put_old :
      (w : V → ℕ) (d : Dict V) (k : String) {u : V} (v : V)
      → get d k ≡ some u
      → sum_of w (values (put d k v)) + w u ≡ sum_of w (values d) + w v
  unfolding get put values
  sum-put_old w [] k v h = cc
  sum-put_old w ((j, x) ∷ d) k {u = u} v h = elim (Bool-cases (str_eq j k)) [
    | inl e ↦
        let hu : some x ≡ some u = (rw e at h) in
        let same : x ≡ u = cc hu in rw e (omega (arith, ap w same))
    | inr e ↦
        let hu : get d k ≡ some u = (rw e at h) in rw e (omega (arith, sum-put_old w d k v hu))
  ]

  pub sum-put_new :
      (w : V → ℕ) (d : Dict V) (k : String) (v : V)
      → get d k ≡ none
      → sum_of w (values (put d k v)) ≡ sum_of w (values d) + w v
  unfolding get put values
  sum-put_new w [] k v h = omega arith
  sum-put_new w ((j, x) ∷ d) k v h = ground (arith, sum-put_new w d k v)

pub ruleset dict_laws = (get-empty, get-put_self, get-put)

-- A second write to a key hides the first.
pub put-put {ℓ} : {V : Type ℓ} (d : Dict V) (k : String) (v w : V) → put (put d k v) k w ≡ put d k w
unfolding put
put-put [] k v w = simp eq_refl
put-put ((i, x) ∷ d) k v w = elim (Bool-cases (str_eq i k)) [
  | inl e ↦ rw e (rw e)
  | inr e ↦ rw e (rw e (ap (◌∷◌ (i, x)) (put-put d k v w)))
]
