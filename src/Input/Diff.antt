-- ===== src/Input/Diff.antt =====
-- `_UnifiedDiffParser.parse` (domain/input/service.py): the sections of a diff, one for each file.
use cr_agent.Prelude.{
  ℕ, ◌+◌, ◌-◌, Bool, Option, List, [], ◌∷◌, ◌++◌, length, any, ltb, if◌then◌else◌,
}
use cr_agent.Prelude.Exec.{Result, ok, err}
use cr_agent.Prelude.Fallible.{◌>>=◌, ◌>>◌, refuse}
use cr_agent.Prelude.Text.{Text, codes, text_eq, starts_with}
use cr_agent.Input.Models.{DiffError, malformed, too_large, InputLimits, ChangeType, ChangedFile}
use cr_agent.Input.Lines.{PhysicalLine, physical_lines}
use cr_agent.Input.Checks.{Paths}
use cr_agent.Input.Files.{parse_file}

-- A header line and the lines up to the next.
pub record Section : Type 0 where
  pub header : PhysicalLine
  pub lines : List PhysicalLine

abbrev pub is_header : PhysicalLine → Bool
is_header l = starts_with (codes "diff --git ") l.body

-- The lines behind the header at hand, and the sections that follow.
unfoldable pub sections_from : List PhysicalLine → List PhysicalLine × List Section
sections_from [] = ([], [])
sections_from (l ∷ ls) =
    let (own, later) = sections_from ls in
    if is_header l then ([], record { header = l; lines = own } ∷ later) else (l ∷ own, later)

-- The first line must be a header.
unfoldable pub sections : List PhysicalLine → Result DiffError (List Section)
sections [] = err malformed
sections (l ∷ ls) =
    let (own, later) = sections_from ls in
    if is_header l then ok (record { header = l; lines = own } ∷ later) else err malformed

abbrev pub seen : Text → List ChangedFile → Bool
seen file_id files = any (λ f. text_eq f.file_id file_id) files

module _ (digit : ℕ → Option ℕ) (file_id : ChangeType → Paths → Text) (limits : InputLimits) where
  -- The loop over the sections, with the changed lines and the files so far.
  unfoldable pub parse_sections :
      List Section → ℕ → List ChangedFile → Result DiffError (List ChangedFile)
  parse_sections [] changed files = ok files
  parse_sections (s ∷ ss) changed files = do
    f ←
        parse_file digit file_id limits.max_changed_lines (limits.max_changed_lines - changed)
          s.header.body s.lines
    let total = changed + (f.additions + f.deletions)
    refuse (ltb limits.max_changed_lines total) (too_large "changed_lines" limits.max_changed_lines)
    refuse (seen f.file_id files) malformed
    parse_sections ss total (files ++ (f ∷ []))

  unfoldable pub parse_lines : List PhysicalLine → Result DiffError (List ChangedFile)
  parse_lines lines = do
    ss ← sections lines
    refuse (ltb limits.max_files (length ss)) (too_large "files" limits.max_files)
    parse_sections ss 0 []

  unfoldable pub parse : Text → Result DiffError (List ChangedFile)
  parse [] = ok []
  parse (c ∷ s) = do lines ← physical_lines (c ∷ s) limits.max_physical_lines; parse_lines lines
