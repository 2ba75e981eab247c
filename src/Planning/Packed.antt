-- ===== src/Planning/Packed.antt =====
-- The groups of hunks and the blocks of lines keep every line and fit the capacity.
use mathlib.Core.Path.{subst}
use cr_agent.Prelude.{
  ℕ, zero, suc, ◌≤◌, true, not, ◌&&◌, ◌≡◌, refl, sym, ◌∙◌, ap, some, List, [], ◌∷◌, ◌++◌,
  append_assoc, length, all, All, ltb, Bool-cases, All-append, inl, inr, arith,
}
use cr_agent.Input.Models.{Line, Hunk, no_hunks}
use cr_agent.Planning.Models.{ModelCapacitySummary}
use cr_agent.Planning.Capacity.{
  estimate_hunks, estimate_lines, fits, box_step, box_from, take, drop, blocks_from, blocks,
  blocks_within, first_size, line_blocks,
}

abbrev pub flat : {A : Type 0} → List (List A) → List A
flat [] = []
flat (xs ∷ xss) = xs ++ flat xss

module _ {A : Type 0} where
  pub flat-append : (xss yss : List (List A)) → flat (xss ++ yss) ≡ flat xss ++ flat yss
  flat-append [] yss = refl
  flat-append (xs ∷ xss) yss =
      ap (λ r. xs ++ r) (flat-append xss yss) ∙ sym (append_assoc xs (flat xss) (flat yss))

  take-drop : (n : ℕ) (xs : List A) → take n xs ++ drop n xs ≡ xs
  take-drop zero xs = refl
  take-drop (suc n) [] = refl
  take-drop (suc n) (x ∷ xs) = ap (λ r. x ∷ r) (take-drop n xs)

  length-drop : (n : ℕ) (xs : List A) → length (drop n xs) ≤ length xs
  length-drop zero xs = omega arith
  length-drop (suc n) [] = omega arith
  length-drop (suc n) (x ∷ xs) = omega (arith, length-drop n xs)

blocks_from-flat :
    (fuel size : ℕ) (ls : List Line) → length ls ≤ fuel → flat (blocks_from fuel (suc size) ls) ≡ ls
unfolding blocks_from
blocks_from-flat fuel size [] h = refl
blocks_from-flat zero size (l ∷ ls) h = absurd (omega arith)
blocks_from-flat (suc fuel) size (l ∷ ls) h =
    ap (λ r. l ∷ (take size ls ++ r))
      (blocks_from-flat fuel size (drop size ls) (omega (arith, length-drop size ls)))
    ∙ ap (λ r. l ∷ r) (take-drop size ls)

-- Blocks that hold all the lines, each within the capacity.
pub record IsSplit (c : ModelCapacitySummary) (lines : List Line) (bs : List (List Line))
    : Type 0 where
  pub whole : flat bs ≡ lines
  pub fit : all (λ b. fits (estimate_lines (length b)) c) bs ≡ true

blocks_within-IsSplit :
    (c : ModelCapacitySummary) (lines : List Line) (size : ℕ) (bs : List (List Line))
    → blocks_within c lines size ≡ some bs
    → IsSplit c lines bs
unfolding blocks_within
blocks_within-IsSplit c lines zero bs h = cc
blocks_within-IsSplit c lines (suc size) bs h =
    elim (Bool-cases (all (λ b. fits (estimate_lines (length b)) c) (blocks (suc size) lines))) [
      | inl e ↦
          let same : blocks (suc size) lines ≡ bs = cc (rw e at h) in
          subst (IsSplit c lines) same
            (record { whole = blocks_from-flat (length lines) size lines (omega arith); fit = e })
      | inr e ↦ blocks_within-IsSplit c lines size bs (rw e at h)
    ]

pub line_blocks-IsSplit :
    (c : ModelCapacitySummary) (h : Hunk) (bs : List (List Line))
    → line_blocks c h ≡ some bs
    → IsSplit c h.lines bs
unfolding line_blocks
line_blocks-IsSplit c h bs e = split h.lines e
  where
    split : (ls : List Line) → line_blocks c (record h { lines = ls }) ≡ some bs → IsSplit c ls bs
    split [] e = cc
    split (l ∷ ls) e = blocks_within-IsSplit c (l ∷ ls) (first_size c (l ∷ ls)) bs e

-- A group of several hunks is within the capacity.
abbrev pub Fitting : ModelCapacitySummary → List Hunk → Type 0
Fitting c g = ltb 1 (length g) ≡ true → fits (estimate_hunks g) c ≡ true

module _ (c : ModelCapacitySummary) where
  one-Fitting : (h : Hunk) → Fitting c (h ∷ [])
  one-Fitting h e = cc

  pub none-Fitting : Fitting c []
  none-Fitting e = cc

  box_step-flat :
      (current : List Hunk) (h : Hunk)
      → flat (box_step c current h).0 ++ (box_step c current h).1 ≡ current ++ (h ∷ [])
  box_step-flat current h =
      elim (Bool-cases
        (not (no_hunks current) && not (fits (estimate_hunks (current ++ (h ∷ []))) c))) [
          | inl e ↦ rw e (append_assoc current [] (h ∷ []))
          | inr e ↦ rw e refl
        ]

  box_step-Fitting :
      (current : List Hunk) (h : Hunk)
      → Fitting c current
      → All (Fitting c) (box_step c current h).0 × Fitting c (box_step c current h).1
  box_step-Fitting [] h f = (tt, one-Fitting h)
  box_step-Fitting (g ∷ current) h f =
      elim (Bool-cases (fits (estimate_hunks (g ∷ current ++ (h ∷ []))) c)) [
        | inl e ↦ rw e (tt, λ m. e)
        | inr e ↦ rw e ((f, tt), one-Fitting h)
      ]

  pub box_from-flat : (current hs : List Hunk) → flat (box_from c current hs) ≡ current ++ hs
  unfolding box_from
  box_from-flat [] [] = refl
  box_from-flat (g ∷ current) [] = refl
  box_from-flat [] (h ∷ hs) = box_from-flat (h ∷ []) hs
  box_from-flat (g ∷ current) (h ∷ hs) =
      let (closed, next) = box_step c (g ∷ current) h in
      flat-append closed (box_from c next hs)
      ∙ (ap (λ r. flat closed ++ r) (box_from-flat next hs)
          ∙ (sym (append_assoc (flat closed) next hs)
              ∙ (ap (λ r. r ++ hs) (box_step-flat (g ∷ current) h)
                  ∙ append_assoc (g ∷ current) (h ∷ []) hs)))

  pub box_from-Fitting :
      (current hs : List Hunk) → Fitting c current → All (Fitting c) (box_from c current hs)
  unfolding box_from
  box_from-Fitting [] [] f = tt
  box_from-Fitting (g ∷ current) [] f = (f, tt)
  box_from-Fitting [] (h ∷ hs) f = box_from-Fitting (h ∷ []) hs (one-Fitting h)
  box_from-Fitting (g ∷ current) (h ∷ hs) f =
      let (closed, next) = box_step-Fitting (g ∷ current) h f in
      All-append (Fitting c) (box_step c (g ∷ current) h).0
        (box_from c (box_step c (g ∷ current) h).1 hs) closed
        (box_from-Fitting (box_step c (g ∷ current) h).1 hs next)
