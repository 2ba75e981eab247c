-- ===== src/Input/Ends/Whole.antt =====
-- `parse` never runs out of fuel (domain/input/service.py).
use mathlib.Core.Path.{subst}
use cr_agent.Prelude.{
  ℕ, ◌+◌, ◌-◌, true, false, ◌≡◌, ◌≢◌, refl, sym, Option, List, [], ◌∷◌, ◌++◌, length, All, ltb, inl,
  inr,
}
use cr_agent.Prelude.Exec.{err}
use cr_agent.Prelude.Text.{Text}
use cr_agent.Input.Models.{too_large, exhausted, InputLimits, ChangeType, ChangedFile}
use cr_agent.Input.Lines.{PhysicalLine, physical_lines}
use cr_agent.Input.Offsets.{Lies, physical_lines_lem}
use cr_agent.Input.Checks.{Paths}
use cr_agent.Input.Files.{parse_file}
use cr_agent.Input.Ends.{
  Ends, ok-Ends, err-Ends, malformed-Ends, if-Ends, bind-Ends, refuse-Ends, check-Ends,
}
use cr_agent.Input.Ends.Files.{parse_file-Ends}
use cr_agent.Input.Whole.{SectionLies, sections-Lies, physical_lines-Lies}
use cr_agent.Input.Diff.{Section, is_header, sections, seen, parse_sections, parse_lines, parse}

sections-Ends : (ls : List PhysicalLine) → Ends (sections ls)
unfolding sections
sections-Ends [] = malformed-Ends
sections-Ends (l ∷ ls) = if-Ends (is_header l) _ _ (ok-Ends _) malformed-Ends

physical_lines-Ends : (content : Text) (max_lines : ℕ) → Ends (physical_lines content max_lines)
physical_lines-Ends content max_lines = elim (physical_lines_lem content max_lines) [
  | inl (ls, e, bounded, clean, lie, joins) ↦ subst Ends (sym e) (ok-Ends ls)
  | inr e ↦ subst Ends (sym e) (err-Ends (too_large "physical_lines" max_lines) refl)
]

module _ (digit : ℕ → Option ℕ) (file_id : ChangeType → Paths → Text) (limits : InputLimits)
    (content : Text) where
  parse_sections-Ends :
      (ss : List Section) (changed : ℕ) (files : List ChangedFile)
      → All (SectionLies content) ss
      → Ends (parse_sections digit file_id limits ss changed files)
  unfolding parse_sections
  parse_sections-Ends [] changed files lie = ok-Ends files
  parse_sections-Ends (s ∷ ss) changed files lie =
      let remaining = limits.max_changed_lines - changed in
      bind-Ends (parse_file digit file_id limits.max_changed_lines remaining s.header.body s.lines)
        _
        (parse_file-Ends content digit file_id limits.max_changed_lines remaining s.header.body
          s.lines lie.0)
        (λ f e.
          let total = changed + (f.additions + f.deletions) in
          refuse-Ends (ltb limits.max_changed_lines total)
            (too_large "changed_lines" limits.max_changed_lines) _ refl
            (check-Ends (seen f.file_id files) _
              (parse_sections-Ends ss total (files ++ (f ∷ [])) lie.1)))

  parse_lines-Ends :
      (ls : List PhysicalLine) → All (Lies content) ls → Ends (parse_lines digit file_id limits ls)
  unfolding parse_lines
  parse_lines-Ends ls lie = bind-Ends (sections ls) _ (sections-Ends ls) (λ ss cut.
      refuse-Ends (ltb limits.max_files (length ss)) (too_large "files" limits.max_files) _ refl
        (parse_sections-Ends ss 0 [] (sections-Lies content ls lie ss cut)))

parse-Ends :
    (digit : ℕ → Option ℕ) (file_id : ChangeType → Paths → Text) (limits : InputLimits)
    (content : Text)
    → Ends (parse digit file_id limits content)
unfolding parse
parse-Ends digit file_id limits [] = ok-Ends []
parse-Ends digit file_id limits (c ∷ s) =
    bind-Ends (physical_lines (c ∷ s) limits.max_physical_lines) _
      (physical_lines-Ends (c ∷ s) limits.max_physical_lines)
      (λ ls read.
        parse_lines-Ends digit file_id limits (c ∷ s) ls
          (physical_lines-Lies (c ∷ s) limits.max_physical_lines ls read))

-- `parse` never stops for want of fuel, whatever the content, the limits and the functions that
-- stand for the digits and the file ids: it returns files or raises an error of the source.
pub parse_lem :
    (digit : ℕ → Option ℕ) (file_id : ChangeType → Paths → Text) (limits : InputLimits)
    (content : Text)
    → parse digit file_id limits content ≢ err exhausted
parse_lem digit file_id limits content h =
    let broken : false ≡ true = parse-Ends digit file_id limits content exhausted h in cc broken
