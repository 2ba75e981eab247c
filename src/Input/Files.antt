-- ===== src/Input/Files.antt =====
-- `_parse_file` (domain/input/service.py): the section of one file. The rest of the lines stands for
-- the index; the fuel of the loop is their number.
use cr_agent.Prelude.{
  ℕ, zero, suc, ◌+◌, ◌-◌, true, false, not, Option, none, some, List, [], ◌∷◌, ◌++◌, length, all,
  sum_of, if◌then◌else◌,
}
use cr_agent.Prelude.Exec.{Result, ok, err}
use cr_agent.Prelude.Fallible.{◌>>=◌, ◌>>◌, refuse, present}
use cr_agent.Prelude.Text.{Text, codes, text_eq, starts_with, drop}
use cr_agent.Input.Models.{
  DiffError, malformed, value_error, exhausted, ChangeType, Hunk, ChangedFile, is_addition,
  is_deletion, count_lines, line_valid, hunk_valid, file_valid,
}
use cr_agent.Input.Lines.{PhysicalLine}
use cr_agent.Input.Hunks.{ParsedHunk, parse_hunk}
use cr_agent.Input.Paths.{parse_marker_path, parse_diff_header, a_prefix, b_prefix}
use cr_agent.Input.Facts.{FileState, fact_step}
use cr_agent.Input.Headers.{header_path_hints, plus_line}
use cr_agent.Input.Checks.{Paths, check_file, change_type_of}

abbrev pub initial_state : Text → Text → FileState
initial_state old new = record {
  marker_old = some old;
  marker_new = some new;
  has_markers = false;
  binary = false;
  binary_paths = none;
  renamed = not (text_eq old new);
  new_file = false;
  deleted_file = false;
  recognized_fact = false;
  rename_old = none;
  rename_new = none;
  similarity = none;
  old_mode = none;
  new_mode = none;
  index_metadata = none;
  hunks = [];
  parsed_changed_lines = 0;
}

abbrev pub tail : List PhysicalLine → List PhysicalLine
tail [] = []
tail (l ∷ ls) = ls

abbrev pub Turn : Type 0
Turn = Result DiffError (FileState × List PhysicalLine)

-- The marker lines `--- ` and `+++ `.
unfoldable pub marker_step : Text → List PhysicalLine → FileState → Turn
marker_step body ls st = do
  refuse st.has_markers malformed
  next_body ← present (plus_line ls) malformed
  old ← parse_marker_path (drop body 4) a_prefix
  new ← parse_marker_path (drop next_body 4) b_prefix
  ok (
    record st { marker_old = old; marker_new = new; has_markers = true; recognized_fact = true },
    tail ls,
  )

abbrev pub add_hunk : FileState → ParsedHunk → FileState
add_hunk st p = record st {
  hunks = st.hunks ++ (p.hunk ∷ []);
  parsed_changed_lines = st.parsed_changed_lines + p.changed_lines;
  recognized_fact = true;
}

-- `_materialize_hunk`: the checks of the lines and of the hunk.
unfoldable pub materialize_hunk : Hunk → Result DiffError Hunk
materialize_hunk h = do
  refuse (not (all line_valid h.lines)) value_error
  refuse (not (hunk_valid h)) value_error
  ok h

unfoldable pub materialize : List Hunk → Result DiffError (List Hunk)
materialize [] = ok []
materialize (h ∷ hs) = do x ← materialize_hunk h; xs ← materialize hs; ok (x ∷ xs)

module _ (digit : ℕ → Option ℕ) (file_id : ChangeType → Paths → Text) (max_changed : ℕ) where
  unfoldable pub hunk_turn : ℕ → Text → List PhysicalLine → FileState → Turn
  hunk_turn remaining body ls st = do
    p ← parse_hunk digit max_changed (remaining - st.parsed_changed_lines) body ls
    ok (add_hunk st p, p.rest)

  -- One turn of the loop.
  unfoldable pub file_turn : ℕ → Text → Text → Text → List PhysicalLine → FileState → Turn
  file_turn remaining header_old header_new body ls st =
      if starts_with (codes "@@") body
      then hunk_turn remaining body ls st
      else if starts_with (codes "--- ") body
      then marker_step body ls st
      else (fact_step header_old header_new body st >>= λ st'. ok (st', ls))

  unfoldable pub file_loop :
      ℕ → ℕ → Text → Text → List PhysicalLine → FileState → Result DiffError FileState
  file_loop fuel remaining header_old header_new [] st = ok st
  file_loop zero remaining header_old header_new (l ∷ ls) st = err exhausted
  file_loop (suc fuel) remaining header_old header_new (l ∷ ls) st =
      file_turn remaining header_old header_new l.body ls st >>= λ next.
      file_loop fuel remaining header_old header_new next.1 next.0

  abbrev pub changed_file : FileState → Paths → List Hunk → ChangedFile
  changed_file st paths hunks =
      let change_type = change_type_of st paths in
      record {
        file_id = file_id change_type paths;
        old_path = paths.0;
        new_path = paths.1;
        change_type = change_type;
        is_binary = st.binary;
        hunks = hunks;
        additions = sum_of (λ h. count_lines is_addition h.lines) hunks;
        deletions = sum_of (λ h. count_lines is_deletion h.lines) hunks;
      }

  unfoldable pub parse_file : ℕ → Text → List PhysicalLine → Result DiffError ChangedFile
  parse_file remaining header lines = do
    hints ← header_path_hints lines none none
    headers ← parse_diff_header header hints
    st ←
        file_loop (length lines) remaining headers.0 headers.1 lines
          (initial_state headers.0 headers.1)
    paths ← check_file st headers.0 headers.1
    hunks ← materialize st.hunks
    refuse (not (file_valid (changed_file st paths hunks))) value_error
    ok (changed_file st paths hunks)
