-- ===== src/Input/Hunks.antt =====
-- `_parse_hunk` (domain/input/service.py). The rest of the lines stands for the index into them.
use cr_agent.Prelude.{
  ℕ, ◌+◌, Bool, true, false, ◌&&◌, ◌||◌, Option, none, some, List, [], ◌∷◌, ◌++◌, length, ltb, leb,
  ◌==◌, if◌then◌else◌,
}
use cr_agent.Prelude.Exec.{Result, ok, err}
use cr_agent.Prelude.Fallible.{◌>>=◌, ◌>>◌, refuse, present}
use cr_agent.Prelude.Text.{Text, codes, text_eq}
use cr_agent.Input.Models.{
  DiffError, malformed, incomplete, too_large, LineType, Line, Ranges, Hunk, no_start, on_old,
  on_new,
}
use cr_agent.Input.Lines.{PhysicalLine}
use cr_agent.Input.Ranges.{hunk_header}

-- The variables of the loop.
pub record HunkState : Type 0 where
  pub old_seen : ℕ
  pub new_seen : ℕ
  pub old_line : ℕ
  pub new_line : ℕ
  pub sequence : ℕ
  pub changed_lines : ℕ
  pub drafts : List Line

abbrev pub initial : Ranges → HunkState
initial r = record {
  old_seen = 0;
  new_seen = 0;
  old_line = r.old_start;
  new_line = r.new_start;
  sequence = 0;
  changed_lines = 0;
  drafts = [];
}

abbrev pub no_newline_marker : Text
no_newline_marker = codes "\\ No newline at end of file"

abbrev pub no_lines : List Line → Bool
no_lines [] = true
no_lines _ = false

-- The prefix of a line.
abbrev pub line_type_of : ℕ → Option LineType
line_type_of c =
    if c == b' '
    then some LineType.context
    else if c == b'-'
    then some LineType.deletion
    else if c == b'+'
    then some LineType.addition
    else none

abbrev pub changes : LineType → Bool
changes LineType.context = false
changes _ = true

abbrev pub draft : LineType → ℕ → ℕ → HunkState → Line
draft t start size st = record {
  line_type = t;
  old_line_number = if on_old t then some st.old_line else none;
  new_line_number = if on_new t then some st.new_line else none;
  sequence = st.sequence + 1;
  content_start = start + 1;
  content_end = start + 1 + size;
}

abbrev pub counted : LineType → ℕ → ℕ → HunkState → HunkState
counted t start size st = record {
  old_seen = if on_old t then st.old_seen + 1 else st.old_seen;
  new_seen = if on_new t then st.new_seen + 1 else st.new_seen;
  old_line = if on_old t then st.old_line + 1 else st.old_line;
  new_line = if on_new t then st.new_line + 1 else st.new_line;
  sequence = st.sequence + 1;
  changed_lines = if changes t then st.changed_lines + 1 else st.changed_lines;
  drafts = st.drafts ++ (draft t start size st ∷ []);
}

-- The condition of the loop.
abbrev pub more : Ranges → HunkState → Bool
more r st = ltb st.old_seen r.old_count || ltb st.new_seen r.new_count

-- `max_changed` is the limit that the error names, `remaining` what is left of it.
module _ (max_changed remaining : ℕ) (r : Ranges) where
  -- The branch of a prefix: the limit is tested before the ranges.
  unfoldable pub take_line : LineType → ℕ → ℕ → HunkState → Result DiffError HunkState
  take_line t start size st = do
    refuse (changes t && leb remaining st.changed_lines) (too_large "changed_lines" max_changed)
    refuse (on_old t && leb r.old_count st.old_seen || on_new t && leb r.new_count st.new_seen)
        malformed
    ok (counted t start size st)

  abbrev pub take_body : Text → ℕ → HunkState → Result DiffError HunkState
  take_body [] start st = err malformed
  take_body (c ∷ content) start st = do
    t ← present (line_type_of c) malformed
    take_line t start (length content) st

  -- One round of the loop.
  unfoldable pub hunk_step : PhysicalLine → HunkState → Result DiffError HunkState
  hunk_step l st =
      if text_eq l.body no_newline_marker
      then (if no_lines st.drafts then err malformed else ok st)
      else take_body l.body l.start st

  unfoldable pub hunk_loop :
      HunkState → List PhysicalLine → Result DiffError (HunkState × List PhysicalLine)
  hunk_loop st [] = if more r st then err incomplete else ok (st, [])
  hunk_loop st (l ∷ ls) =
      let next = (hunk_step l st >>= λ st'. hunk_loop st' ls) in
      if more r st then next else ok (st, l ∷ ls)

-- A marker behind the last line.
abbrev pub skip_marker : List PhysicalLine → List PhysicalLine
skip_marker [] = []
skip_marker (l ∷ ls) = if text_eq l.body no_newline_marker then ls else l ∷ ls

-- What `_parse_hunk` returns.
pub record ParsedHunk : Type 0 where
  pub hunk : Hunk
  pub rest : List PhysicalLine
  pub changed_lines : ℕ

abbrev pub parsed_hunk : Ranges → HunkState × List PhysicalLine → ParsedHunk
parsed_hunk r out = record {
  hunk = record { ranges = r; lines = out.0.drafts };
  rest = skip_marker out.1;
  changed_lines = out.0.changed_lines;
}

module _ (digit : ℕ → Option ℕ) where
  -- The header is that of the first line; the others follow.
  unfoldable pub parse_hunk : ℕ → ℕ → Text → List PhysicalLine → Result DiffError ParsedHunk
  parse_hunk max_changed remaining header lines = do
    r ← present (hunk_header digit header) malformed
    refuse (no_start r) malformed
    out ← hunk_loop max_changed remaining r (initial r) lines
    ok (parsed_hunk r out)
