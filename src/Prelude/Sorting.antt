-- ===== src/Prelude/Sorting.antt =====
-- `sorted(..., key=...)` by keys that are tuples of texts.
use mathlib.Core.List.{Perm}
use mathlib.Core.List.Perm
use mathlib.Core.Bool.{Bool, true, false, ◌&&◌, ◌||◌}
use mathlib.Core.List.{List, [], ◌∷◌}
use mathlib.Core.Path.{◌≡◌, refl, ◌∙◌}
use mathlib.Core.Logic.{inl, inr}
use native.Mathlib.Omega.{arith}
use cr_agent.Prelude.Tests.{ltb, ◌==◌, Bool-cases, if◌then◌else◌}
use cr_agent.Prelude.Text.{Text, text_eq, text_eq_sym}

-- `a <= b` of texts, by their code points.
abbrev pub text_leb : Text → Text → Bool
text_leb [] b = true
text_leb (x ∷ a) [] = false
text_leb (x ∷ a) (y ∷ b) = ltb x y || x == y && text_leb a b

-- `a <= b` of keys.
abbrev pub key_leb : List Text → List Text → Bool
key_leb [] b = true
key_leb (x ∷ a) [] = false
key_leb (x ∷ a) (y ∷ b) = if text_eq x y then key_leb a b else text_leb x y

text_leb-total : (a b : Text) → text_leb a b ≡ false → text_leb b a ≡ true
text_leb-total [] b h = cc
text_leb-total (x ∷ a) [] h = refl
text_leb-total (x ∷ a) (y ∷ b) h = ground (arith, text_leb-total a b)

key_leb-total : (a b : List Text) → key_leb a b ≡ false → key_leb b a ≡ true
key_leb-total [] b h = cc
key_leb-total (x ∷ a) [] h = refl
key_leb-total (x ∷ a) (y ∷ b) h = elim (Bool-cases (text_eq x y)) [
  | inl e ↦ rw (text_eq_sym y x ∙ e) (key_leb-total a b (rw e at h))
  | inr e ↦ rw (text_eq_sym y x ∙ e) (text_leb-total x y (rw e at h))
]

module _ {A : Type 0} (key : A → List Text) where
  abbrev pub insert : A → List A → List A
  insert f [] = f ∷ []
  insert f (g ∷ gs) =
      let rest = insert f gs in if key_leb (key f) (key g) then f ∷ g ∷ gs else g ∷ rest

  -- Equal keys keep their order.
  unfoldable pub sorted : List A → List A
  sorted [] = []
  sorted (f ∷ fs) = insert f (sorted fs)

  -- Each key is at most the next.
  abbrev pub Ascending : List A → Type 0
  Ascending [] = Unit
  Ascending (f ∷ []) = Unit
  Ascending (f ∷ g ∷ fs) = (key_leb (key f) (key g) ≡ true) × Ascending (g ∷ fs)

  insert-Perm : (f : A) (fs : List A) → Perm (insert f fs) (f ∷ fs)
  insert-Perm f [] = Perm.refl (f ∷ [])
  insert-Perm f (g ∷ gs) = elim (Bool-cases (key_leb (key f) (key g))) [
    | inl e ↦ rw e (Perm.refl (f ∷ g ∷ gs))
    | inr e ↦ rw e (Perm.trans (Perm.cons g (insert-Perm f gs)) (Perm.swap f g gs))
  ]

  pub sorted-Perm : (fs : List A) → Perm (sorted fs) fs
  unfolding sorted
  sorted-Perm [] = Perm.refl []
  sorted-Perm (f ∷ fs) = Perm.trans (insert-Perm f (sorted fs)) (Perm.cons f (sorted-Perm fs))

  first_below :
      (g f : A) (fs : List A)
      → key_leb (key g) (key f) ≡ true
      → Ascending (g ∷ fs)
      → Ascending (insert f fs)
      → Ascending (g ∷ insert f fs)
  first_below g f [] h a b = (h, tt)
  first_below g f (k ∷ fs) h a b = elim (Bool-cases (key_leb (key f) (key k))) [
    | inl e ↦ rw e (h, rw e at b)
    | inr e ↦ rw e (a.0, rw e at b)
  ]

  behind_first : (g : A) (fs : List A) → Ascending (g ∷ fs) → Ascending fs
  behind_first g [] h = tt
  behind_first g (k ∷ fs) h = h.1

  insert-Ascending : (f : A) (fs : List A) → Ascending fs → Ascending (insert f fs)
  insert-Ascending f [] h = tt
  insert-Ascending f (g ∷ fs) h = elim (Bool-cases (key_leb (key f) (key g))) [
    | inl e ↦ rw e (e, h)
    | inr e ↦ rw e (
        first_below g f fs (key_leb-total (key f) (key g) e) h
          (insert-Ascending f fs (behind_first g fs h)))
  ]

  pub sorted-Ascending : (fs : List A) → Ascending (sorted fs)
  unfolding sorted
  sorted-Ascending [] = tt
  sorted-Ascending (f ∷ fs) = insert-Ascending f (sorted fs) (sorted-Ascending fs)
