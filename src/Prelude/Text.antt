-- ===== src/Prelude/Text.antt =====
-- Python's `str` where the program walks it: the list of its code points. Offsets count these.
use Prim.Native.Char.{code}
use Prim.Native.String.{String}
use Prim.Native.Nat.{ℕ, zero, suc, ◌+◌}
use mathlib.Core.Path.{◌≡◌, refl, ap₂}
use mathlib.Core.Bool.{Bool, true, false, ◌&&◌, ◌||◌}
use mathlib.Core.Option.{Option, none, some}
use mathlib.Core.List.{List, [], ◌∷◌, ◌++◌}
use mathlib.Core.Logic.{inl, inr}
use native.Mathlib.Omega.{arith}
use cr_agent.Prelude.Tests.{◌==◌, if◌then◌else◌, Bool-cases, is_some}

abbrev pub Text : Type 0
Text = List ℕ

abbrev pub codes : String → Text
codes String.[] = []
codes (String.◌∷◌ c s) = code c ∷ codes s

abbrev pub text_eq : Text → Text → Bool
text_eq [] [] = true
text_eq (x ∷ xs) (y ∷ ys) = x == y && text_eq xs ys
text_eq _ _ = false

pub eqb→eq : (m n : ℕ) → (m == n) ≡ true → m ≡ n
eqb→eq m n h = ground arith

pub eqb_refl : (n : ℕ) → (n == n) ≡ true
eqb_refl n = ground arith

pub text_eq→eq : (xs ys : Text) → text_eq xs ys ≡ true → xs ≡ ys
text_eq→eq [] [] h = refl
text_eq→eq [] (y ∷ ys) h = cc
text_eq→eq (x ∷ xs) [] h = cc
text_eq→eq (x ∷ xs) (y ∷ ys) h = elim (Bool-cases (x == y)) [
  | inl e ↦ ap₂ (◌∷◌) (eqb→eq x y e) (text_eq→eq xs ys (rw e at h))
  | inr e ↦ let broken : false ≡ true = (rw e at h) in cc broken
]

pub text_eq_refl : (xs : Text) → text_eq xs xs ≡ true
text_eq_refl [] = refl
text_eq_refl (x ∷ xs) = rw (eqb_refl x) (text_eq_refl xs)

-- What follows the prefix, if the text has it.
abbrev pub strip_prefix : Text → Text → Option Text
strip_prefix [] s = some s
strip_prefix (p ∷ ps) [] = none
strip_prefix (p ∷ ps) (c ∷ s) = let rest = strip_prefix ps s in if p == c then rest else none

-- `s.startswith(p)`, the prefix first.
abbrev pub starts_with : Text → Text → Bool
starts_with p s = is_some (strip_prefix p s)

-- `s.removeprefix(p)`
abbrev pub remove_prefix : Text → Text → Text
remove_prefix p s = elim (strip_prefix p s) [ none ↦ s | some rest ↦ rest ]

-- `c in s`
abbrev pub has_char : ℕ → Text → Bool
has_char x [] = false
has_char x (c ∷ s) = c == x || has_char x s

-- `s.split(c)`
abbrev pub glue : ℕ → List Text → List Text
glue c [] = (c ∷ []) ∷ []
glue c (w ∷ ws) = (c ∷ w) ∷ ws

unfoldable pub split : ℕ → Text → List Text
split x [] = [] ∷ []
split x (c ∷ s) = let rest = split x s in if c == x then [] ∷ rest else glue c rest

-- The text before the first such character, and what follows that character, if it is there.
unfoldable pub cut : ℕ → Text → Text × Option Text
cut x [] = ([], none)
cut x (c ∷ s) =
    let (before, after) = cut x s in if c == x then ([], some s) else (c ∷ before, after)

-- `s[:n]`, `s[n:]`
abbrev pub take : Text → ℕ → Text
take [] n = []
take (c ∷ s) zero = []
take (c ∷ s) (suc n) = c ∷ take s n

abbrev pub drop : Text → ℕ → Text
drop [] n = []
drop (c ∷ s) zero = c ∷ s
drop (c ∷ s) (suc n) = drop s n

-- Where the pattern stands, counting from `offset`.
unfoldable pub occurrences : Text → ℕ → Text → List ℕ
occurrences p offset [] = []
occurrences p offset (c ∷ s) =
    let rest = occurrences p (offset + 1) s in if starts_with p (c ∷ s) then offset ∷ rest else rest

-- The text before the suffix, if the text has it.
abbrev pub strip_suffix : Text → Text → Option Text
strip_suffix p [] = if text_eq p [] then some [] else none
strip_suffix p (c ∷ s) =
    let rest = strip_suffix p s in
    if text_eq p (c ∷ s) then some [] else elim rest [ none ↦ none | some t ↦ some (c ∷ t) ]

-- `s.removesuffix(p)`
abbrev pub remove_suffix : Text → Text → Text
remove_suffix p s = elim (strip_suffix p s) [ none ↦ s | some t ↦ t ]

-- `c.join(words)`
abbrev pub join : ℕ → List Text → Text
join c [] = []
join c (w ∷ []) = w
join c (w ∷ v ∷ ws) = w ++ (c ∷ join c (v ∷ ws))

-- Texts that differ do so both ways round.
pub text_eq-false : (xs ys : Text) → text_eq xs ys ≡ false → text_eq ys xs ≡ false
text_eq-false [] [] h = h
text_eq-false [] (y ∷ ys) h = refl
text_eq-false (x ∷ xs) [] h = refl
text_eq-false (x ∷ xs) (y ∷ ys) h = ground (arith, text_eq-false xs ys)

pub text_eq_sym : (xs ys : Text) → text_eq xs ys ≡ text_eq ys xs
text_eq_sym [] [] = refl
text_eq_sym [] (y ∷ ys) = refl
text_eq_sym (x ∷ xs) [] = refl
text_eq_sym (x ∷ xs) (y ∷ ys) = ground (arith, text_eq_sym xs ys)
