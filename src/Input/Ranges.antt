-- ===== src/Input/Ranges.antt =====
-- `_HUNK_HEADER` (domain/input/service.py): the ranges that a hunk header gives. `digit` says which
-- characters Python's `\d` and `int` read as a decimal digit, and their value.
use cr_agent.Prelude.{ℕ, ◌+◌, ◌*◌, Bool, true, Option, none, some, [], ◌∷◌, ◌==◌, if◌then◌else◌}
use cr_agent.Prelude.Text.{Text, codes, strip_prefix}
use cr_agent.Input.Models.{Ranges}

infixl 5 ◌>>=◌
abbrev pub ◌>>=◌ : {A B : Type 0} → Option A → (A → Option B) → Option B
none >>= f = none
some a >>= f = f a

module _ (digit : ℕ → Option ℕ) where
  -- `\d*` and its value behind n.
  unfoldable pub digits_from : ℕ → Text → ℕ × Text
  digits_from n [] = (n, [])
  digits_from n (c ∷ s) = elim (digit c) [ none ↦ (n, c ∷ s) | some d ↦ digits_from (n * 10 + d) s ]

  -- `(\d+)`
  unfoldable pub number : Text → Option (ℕ × Text)
  number [] = none
  number (c ∷ s) = elim (digit c) [ none ↦ none | some d ↦ some (digits_from d s) ]

  -- `(?:,(\d+))?`, where 1 stands for a missing count.
  unfoldable pub count : Text → Option (ℕ × Text)
  count [] = some (1, [])
  count (c ∷ s) = if c == b',' then number s else some (1, c ∷ s)

  -- What follows the second range.
  unfoldable pub header_end : Text → Bool
  header_end [] = true
  header_end (c ∷ s) = c == b' '

  unfoldable pub hunk_header : Text → Option Ranges
  hunk_header body = do
    first ← strip_prefix (codes "@@ -") body
    (old_start, after_start) ← number first
    (old_count, after_old) ← count after_start
    second ← strip_prefix (codes " +") after_old
    (new_start, after_new_start) ← number second
    (new_count, after_new) ← count after_new_start
    rest ← strip_prefix (codes " @@") after_new
    if header_end rest
        then some (record {
          old_start = old_start;
          old_count = old_count;
          new_start = new_start;
          new_count = new_count;
        })
        else none
