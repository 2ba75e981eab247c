-- ===== src/Input/Lines.antt =====
-- `_physical_lines` (domain/input/service.py): the lines of the diff with their offsets.
use cr_agent.Prelude.{
  ℕ, suc, zero, ◌+◌, Option, none, some, List, [], ◌∷◌, length, leb, if◌then◌else◌,
}
use cr_agent.Prelude.Exec.{Result, ok, err}
use cr_agent.Prelude.Fallible.{◌>>=◌}
use cr_agent.Prelude.Text.{Text, cut}
use cr_agent.Input.Models.{DiffError, too_large, exhausted}

pub record PhysicalLine : Type 0 where
  pub body : Text
  pub start : ℕ

abbrev pub after_cut : Option Text → Text
after_cut none = []
after_cut (some rest) = rest

abbrev pub cut_size : Option Text → ℕ
cut_size none = 0
cut_size (some rest) = 1

-- The loop, with the number of lines so far; the fuel is the length of what is left.
unfoldable pub lines_from : ℕ → ℕ → ℕ → ℕ → Text → Result DiffError (List PhysicalLine)
lines_from fuel max_lines count offset [] = ok []
lines_from zero max_lines count offset (c ∷ cs) = err exhausted
lines_from (suc fuel) max_lines count offset (c ∷ cs) =
    let (body, after) = cut b'\n' (c ∷ cs) in
    let rest =
      (lines_from fuel max_lines (count + 1) (offset + length body + cut_size after)
          (after_cut after)
        >>= λ ls. ok (record { body = body; start = offset } ∷ ls)) in
    if leb max_lines count then err (too_large "physical_lines" max_lines) else rest

unfoldable pub physical_lines : Text → ℕ → Result DiffError (List PhysicalLine)
physical_lines content max_lines = lines_from (length content) max_lines 0 0 content
