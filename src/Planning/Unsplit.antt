-- ===== src/Planning/Unsplit.antt =====
-- The hunks that the planner leaves out: no division of their lines into blocks is within the
-- capacity, whatever the sizes.
use mathlib.Core.Path.{subst}
use cr_agent.Prelude.{
  ◌-◌, ℕ, zero, suc, ◌≤◌, Bool, true, false, ◌≡◌, refl, none, List, [], ◌∷◌, length, all,
  Bool-cases, inl, inr, arith,
}
use cr_agent.Input.Models.{Line, Hunk}
use cr_agent.Prelude.Exec.{ok}
use cr_agent.Planning.Models.{ModelCapacitySummary, LineRange, range_valid}
use cr_agent.Planning.Planner.{line_range}
use cr_agent.Planning.Capacity.{
  estimate_lines, fits, blocks_from, blocks, blocks_within, first_size, line_blocks,
}
use cr_agent.Planning.Packed.{flat}

-- However the lines are divided into blocks, the estimate of some block is above the capacity.
abbrev pub Unsplittable : ModelCapacitySummary → List Line → Type 0
Unsplittable c lines =
    (bs : List (List Line))
    → flat bs ≡ lines
    → all (λ b. fits (estimate_lines (length b)) c) bs ≡ false

at_least_one : (n : ℕ) → 1 ≤ n → n ≡ suc (n - 1)
at_least_one n h = omega arith

module _ (c : ModelCapacitySummary) where
  abbrev within_all : List (List Line) → Bool
  within_all bs = all (λ b. fits (estimate_lines (length b)) c) bs

  one_line_within :
      (fuel : ℕ) (ls : List Line)
      → fits (estimate_lines 1) c ≡ true
      → within_all (blocks_from fuel 1 ls) ≡ true
  unfolding blocks_from
  one_line_within fuel [] h = refl
  one_line_within zero (l ∷ ls) h = refl
  one_line_within (suc fuel) (l ∷ ls) h = rw h (one_line_within fuel ls h)

  -- If no size was found, not even one line fits.
  not_one_line :
      (lines : List Line) (size : ℕ)
      → blocks_within c lines (suc size) ≡ none
      → fits (estimate_lines 1) c ≡ false
  unfolding blocks_within
  not_one_line lines zero h = elim (Bool-cases (fits (estimate_lines 1) c)) [
    | inr e ↦ e
    | inl e ↦
        let all_in = one_line_within (length lines) lines e in
        let broken = (rw all_in at h) in cc broken
  ]
  not_one_line lines (suc size) h = elim (Bool-cases (within_all (blocks (suc (suc size)) lines))) [
    | inl e ↦ let broken = (rw e at h) in cc broken
    | inr e ↦ not_one_line lines size (rw e at h)
  ]

  longer : (n : ℕ) → fits (estimate_lines 1) c ≡ false → fits (estimate_lines (suc n)) c ≡ false
  unfolding estimate_lines
  longer n h = ground arith

  -- The first size is not 0.
  sized :
      (l : Line) (ls : List Line)
      → blocks_within c (l ∷ ls) (first_size c (l ∷ ls)) ≡ none
      → blocks_within c (l ∷ ls) (suc (first_size c (l ∷ ls) - 1)) ≡ none
  sized l ls e =
      subst (λ n. blocks_within c (l ∷ ls) n ≡ none)
        (at_least_one (first_size c (l ∷ ls)) (omega arith)) e

  none_within :
      (l : Line) (ls : List Line) → fits (estimate_lines 1) c ≡ false → Unsplittable c (l ∷ ls)
  none_within l ls h [] e = cc e
  none_within l ls h ([] ∷ bs) e = elim (Bool-cases (fits (estimate_lines 0) c)) [
    | inl f ↦ rw f (none_within l ls h bs e)
    | inr f ↦ rw f refl
  ]
  none_within l ls h ((b ∷ more) ∷ bs) e = rw (longer (length more) h) refl

-- A hunk with a range has a line.
pub line_blocks-Unsplittable :
    (c : ModelCapacitySummary) (h : Hunk) {range : LineRange}
    → line_range h.lines ≡ ok range
    → line_blocks c h ≡ none
    → Unsplittable c h.lines
unfolding line_blocks line_range range_valid
line_blocks-Unsplittable c h ranged e = by_lines h.lines ranged e
  where
    by_lines :
        (ls : List Line) {range : LineRange}
        → line_range ls ≡ ok range
        → line_blocks c (record h { lines = ls }) ≡ none
        → Unsplittable c ls
    by_lines [] ranged e = cc ranged
    by_lines (l ∷ ls) ranged e =
        none_within c l ls (not_one_line c (l ∷ ls) (first_size c (l ∷ ls) - 1) (sized c l ls e))
