-- ===== src/Input/Tests.antt =====
-- Runs of the diff parser, and the theorems at concrete inputs.
use cr_agent.Prelude.{
  ℕ, ◌-◌, ◌≤◌, Bool, true, false, ◌≡◌, ◌≢◌, refl, Option, none, some, List, [], ◌∷◌, ◌++◌, length,
  All, map, inl, inr, ◌⊎◌, if◌then◌else◌, arith,
}
use cr_agent.Prelude.Exec.{ok, err}
use cr_agent.Prelude.Text.{Text, codes, has_char}
use cr_agent.Input.Models.{
  DiffError, malformed, too_large, exhausted, InputLimits, ChangeType, ChangedFile, Hunk, Line,
  LineType, Ranges,
}
use cr_agent.Input.Lines.{PhysicalLine, physical_lines}
use cr_agent.Input.Offsets.{Lies, Joins, physical_lines_lem}
use cr_agent.Input.Utf8.{encode}
use cr_agent.Input.Quoted.{decode_git_path_field, consume_c_style_path}
use cr_agent.Input.Quoting.{encode_all}
use cr_agent.Input.RoundTrip.{quoted, decode_git_path_field-quoted}
use cr_agent.Input.Facts.{is_digit}
use cr_agent.Input.Checks.{Paths}
use cr_agent.Input.Diff.{parse}
use cr_agent.Input.Whole.{IsDiff, parse-IsDiff}
use cr_agent.Input.Ends.Whole.{parse_lem}

abbrev ascii_digit : ℕ → Option ℕ
ascii_digit c = if is_digit c then some (c - b'0') else none

abbrev path_id : ChangeType → Paths → Text
path_id t (old, none) = []
path_id t (old, some new) = new

abbrev small_limits : InputLimits
small_limits = record { max_files = 2; max_changed_lines = 3; max_physical_lines = 20 }

-- One hunk: a line of context, a deletion and an addition.
abbrev one_file : Text
one_file = codes "diff --git a/x b/x\n--- a/x\n+++ b/x\n@@ -1,2 +1,2 @@\n c\n-d\n+ee\n"

abbrev one_result : List ChangedFile
one_result =
    record {
      file_id = codes "x";
      old_path = some (codes "x");
      new_path = some (codes "x");
      change_type = ChangeType.modified;
      is_binary = false;
      hunks =
          record {
            ranges = record { old_start = 1; old_count = 2; new_start = 1; new_count = 2 };
            lines =
                record {
                  line_type = LineType.context;
                  old_line_number = some 1;
                  new_line_number = some 1;
                  sequence = 1;
                  content_start = 52;
                  content_end = 53;
                }
                ∷ record {
                  line_type = LineType.deletion;
                  old_line_number = some 2;
                  new_line_number = none;
                  sequence = 2;
                  content_start = 55;
                  content_end = 56;
                }
                ∷ record {
                  line_type = LineType.addition;
                  old_line_number = none;
                  new_line_number = some 2;
                  sequence = 3;
                  content_start = 58;
                  content_end = 60;
                }
                ∷ [];
          }
          ∷ [];
      additions = 1;
      deletions = 1;
    }
    ∷ []

parse-one_file : parse ascii_digit path_id small_limits one_file ≡ ok one_result
unfolding cr_agent.Input.Checks.check_facts cr_agent.Input.Checks.check_binary
    cr_agent.Input.Checks.check_lifecycle cr_agent.Input.Checks.check_paths
    cr_agent.Input.Checks.check_content cr_agent.Input.Checks.check_file
    cr_agent.Input.Checks.change_type_of cr_agent.Input.Diff.sections_from
    cr_agent.Input.Diff.sections cr_agent.Input.Diff.parse_sections cr_agent.Input.Diff.parse_lines
    cr_agent.Input.Diff.parse cr_agent.Input.Facts.index_line cr_agent.Input.Facts.rename_from
    cr_agent.Input.Facts.rename_to cr_agent.Input.Facts.similarity_line
    cr_agent.Input.Facts.new_file_mode cr_agent.Input.Facts.deleted_file_mode
    cr_agent.Input.Facts.old_mode_line cr_agent.Input.Facts.new_mode_line
    cr_agent.Input.Facts.index_fact cr_agent.Input.Facts.binary_fact cr_agent.Input.Facts.fact_step
    cr_agent.Input.Files.marker_step cr_agent.Input.Files.materialize_hunk
    cr_agent.Input.Files.materialize cr_agent.Input.Files.hunk_turn cr_agent.Input.Files.file_turn
    cr_agent.Input.Files.file_loop cr_agent.Input.Files.parse_file cr_agent.Input.Headers.hint_line
    cr_agent.Input.Headers.header_path_hints cr_agent.Input.Hunks.take_line
    cr_agent.Input.Hunks.hunk_step cr_agent.Input.Hunks.hunk_loop cr_agent.Input.Hunks.parse_hunk
    cr_agent.Input.Lines.lines_from cr_agent.Input.Lines.physical_lines
    cr_agent.Input.Models.line_valid cr_agent.Input.Models.locations_valid
    cr_agent.Input.Models.hunk_valid cr_agent.Input.Models.ordered cr_agent.Input.Models.file_valid
    cr_agent.Input.Paths.relative_path cr_agent.Input.Paths.normalize_path
    cr_agent.Input.Paths.quoted_token cr_agent.Input.Paths.marker_token
    cr_agent.Input.Paths.parse_marker_path cr_agent.Input.Paths.symmetric_header
    cr_agent.Input.Paths.unquoted_header cr_agent.Input.Paths.quoted_header
    cr_agent.Input.Paths.parse_diff_header cr_agent.Input.Paths.quoted_pair
    cr_agent.Input.Paths.parse_binary_paths cr_agent.Input.Quoted.path_step
    cr_agent.Input.Quoted.consume cr_agent.Input.Quoted.consume_c_style_path
    cr_agent.Input.Quoted.decode_git_path_field cr_agent.Input.Ranges.digits_from
    cr_agent.Input.Ranges.number cr_agent.Input.Ranges.count cr_agent.Input.Ranges.header_end
    cr_agent.Input.Ranges.hunk_header cr_agent.Input.Utf8.encode cr_agent.Input.Utf8.decode_from
    cr_agent.Prelude.Text.split cr_agent.Prelude.Text.cut cr_agent.Prelude.Text.occurrences
parse-one_file = refl

-- Over the limit of changed lines.
parse-too_large :
    parse ascii_digit path_id (record small_limits { max_changed_lines = 1 }) one_file
    ≡ err (too_large "changed_lines" 1)
unfolding cr_agent.Input.Checks.check_facts cr_agent.Input.Checks.check_binary
    cr_agent.Input.Checks.check_lifecycle cr_agent.Input.Checks.check_paths
    cr_agent.Input.Checks.check_content cr_agent.Input.Checks.check_file
    cr_agent.Input.Checks.change_type_of cr_agent.Input.Diff.sections_from
    cr_agent.Input.Diff.sections cr_agent.Input.Diff.parse_sections cr_agent.Input.Diff.parse_lines
    cr_agent.Input.Diff.parse cr_agent.Input.Facts.index_line cr_agent.Input.Facts.rename_from
    cr_agent.Input.Facts.rename_to cr_agent.Input.Facts.similarity_line
    cr_agent.Input.Facts.new_file_mode cr_agent.Input.Facts.deleted_file_mode
    cr_agent.Input.Facts.old_mode_line cr_agent.Input.Facts.new_mode_line
    cr_agent.Input.Facts.index_fact cr_agent.Input.Facts.binary_fact cr_agent.Input.Facts.fact_step
    cr_agent.Input.Files.marker_step cr_agent.Input.Files.materialize_hunk
    cr_agent.Input.Files.materialize cr_agent.Input.Files.hunk_turn cr_agent.Input.Files.file_turn
    cr_agent.Input.Files.file_loop cr_agent.Input.Files.parse_file cr_agent.Input.Headers.hint_line
    cr_agent.Input.Headers.header_path_hints cr_agent.Input.Hunks.take_line
    cr_agent.Input.Hunks.hunk_step cr_agent.Input.Hunks.hunk_loop cr_agent.Input.Hunks.parse_hunk
    cr_agent.Input.Lines.lines_from cr_agent.Input.Lines.physical_lines
    cr_agent.Input.Models.line_valid cr_agent.Input.Models.locations_valid
    cr_agent.Input.Models.hunk_valid cr_agent.Input.Models.ordered cr_agent.Input.Models.file_valid
    cr_agent.Input.Paths.relative_path cr_agent.Input.Paths.normalize_path
    cr_agent.Input.Paths.quoted_token cr_agent.Input.Paths.marker_token
    cr_agent.Input.Paths.parse_marker_path cr_agent.Input.Paths.symmetric_header
    cr_agent.Input.Paths.unquoted_header cr_agent.Input.Paths.quoted_header
    cr_agent.Input.Paths.parse_diff_header cr_agent.Input.Paths.quoted_pair
    cr_agent.Input.Paths.parse_binary_paths cr_agent.Input.Quoted.path_step
    cr_agent.Input.Quoted.consume cr_agent.Input.Quoted.consume_c_style_path
    cr_agent.Input.Quoted.decode_git_path_field cr_agent.Input.Ranges.digits_from
    cr_agent.Input.Ranges.number cr_agent.Input.Ranges.count cr_agent.Input.Ranges.header_end
    cr_agent.Input.Ranges.hunk_header cr_agent.Input.Utf8.encode cr_agent.Input.Utf8.decode_from
    cr_agent.Prelude.Text.split cr_agent.Prelude.Text.cut cr_agent.Prelude.Text.occurrences
parse-too_large = refl

-- A hunk with no lines is accepted.
parse-empty_hunk :
    parse ascii_digit path_id small_limits
      (codes "diff --git a/x b/x\n--- a/x\n+++ b/x\n@@ -0,0 +0,0 @@\n")
    ≡ ok (
        record {
          file_id = codes "x";
          old_path = some (codes "x");
          new_path = some (codes "x");
          change_type = ChangeType.modified;
          is_binary = false;
          hunks =
              record {
                ranges = record { old_start = 0; old_count = 0; new_start = 0; new_count = 0 };
                lines = [];
              }
              ∷ [];
          additions = 0;
          deletions = 0;
        }
        ∷ [])
unfolding cr_agent.Input.Checks.check_facts cr_agent.Input.Checks.check_binary
    cr_agent.Input.Checks.check_lifecycle cr_agent.Input.Checks.check_paths
    cr_agent.Input.Checks.check_content cr_agent.Input.Checks.check_file
    cr_agent.Input.Checks.change_type_of cr_agent.Input.Diff.sections_from
    cr_agent.Input.Diff.sections cr_agent.Input.Diff.parse_sections cr_agent.Input.Diff.parse_lines
    cr_agent.Input.Diff.parse cr_agent.Input.Facts.index_line cr_agent.Input.Facts.rename_from
    cr_agent.Input.Facts.rename_to cr_agent.Input.Facts.similarity_line
    cr_agent.Input.Facts.new_file_mode cr_agent.Input.Facts.deleted_file_mode
    cr_agent.Input.Facts.old_mode_line cr_agent.Input.Facts.new_mode_line
    cr_agent.Input.Facts.index_fact cr_agent.Input.Facts.binary_fact cr_agent.Input.Facts.fact_step
    cr_agent.Input.Files.marker_step cr_agent.Input.Files.materialize_hunk
    cr_agent.Input.Files.materialize cr_agent.Input.Files.hunk_turn cr_agent.Input.Files.file_turn
    cr_agent.Input.Files.file_loop cr_agent.Input.Files.parse_file cr_agent.Input.Headers.hint_line
    cr_agent.Input.Headers.header_path_hints cr_agent.Input.Hunks.take_line
    cr_agent.Input.Hunks.hunk_step cr_agent.Input.Hunks.hunk_loop cr_agent.Input.Hunks.parse_hunk
    cr_agent.Input.Lines.lines_from cr_agent.Input.Lines.physical_lines
    cr_agent.Input.Models.line_valid cr_agent.Input.Models.locations_valid
    cr_agent.Input.Models.hunk_valid cr_agent.Input.Models.ordered cr_agent.Input.Models.file_valid
    cr_agent.Input.Paths.relative_path cr_agent.Input.Paths.normalize_path
    cr_agent.Input.Paths.quoted_token cr_agent.Input.Paths.marker_token
    cr_agent.Input.Paths.parse_marker_path cr_agent.Input.Paths.symmetric_header
    cr_agent.Input.Paths.unquoted_header cr_agent.Input.Paths.quoted_header
    cr_agent.Input.Paths.parse_diff_header cr_agent.Input.Paths.quoted_pair
    cr_agent.Input.Paths.parse_binary_paths cr_agent.Input.Quoted.path_step
    cr_agent.Input.Quoted.consume cr_agent.Input.Quoted.consume_c_style_path
    cr_agent.Input.Quoted.decode_git_path_field cr_agent.Input.Ranges.digits_from
    cr_agent.Input.Ranges.number cr_agent.Input.Ranges.count cr_agent.Input.Ranges.header_end
    cr_agent.Input.Ranges.hunk_header cr_agent.Input.Utf8.encode cr_agent.Input.Utf8.decode_from
    cr_agent.Prelude.Text.split cr_agent.Prelude.Text.cut cr_agent.Prelude.Text.occurrences
parse-empty_hunk = refl

parse-IsDiff_example : IsDiff one_file small_limits one_result
parse-IsDiff_example =
    parse-IsDiff ascii_digit path_id small_limits one_file one_result parse-one_file

parse_lem_example : parse ascii_digit path_id small_limits one_file ≢ err exhausted
parse_lem_example = parse_lem ascii_digit path_id small_limits one_file

physical_lines_lem_example :
    ((ls : List PhysicalLine) × (physical_lines (codes "a\n\nb\n") 3 ≡ ok ls)
      × (length ls ≤ 3)
      × All (λ l. has_char b'\n' l.body ≡ false) ls
      × All (Lies (codes "a\n\nb\n")) ls
      × Joins (codes "a\n\nb\n") ls)
    ⊎ (physical_lines (codes "a\n\nb\n") 3 ≡ err (too_large "physical_lines" 3))
physical_lines_lem_example = physical_lines_lem (codes "a\n\nb\n") 3

encoded : encode_all (b'a' ∷ 233 ∷ b'\n' ∷ []) ≡ some (b'a' ∷ 195 ∷ 169 ∷ b'\n' ∷ [])
unfolding encode_all encode
encoded = refl

-- A name with an accent and a newline.
decode_git_path_field-quoted_example :
    (decode_git_path_field (quoted (b'a' ∷ 195 ∷ 169 ∷ b'\n' ∷ [])) ≡ ok (b'a' ∷ 233 ∷ b'\n' ∷ []))
    × (consume_c_style_path (quoted (b'a' ∷ 195 ∷ 169 ∷ b'\n' ∷ []) ++ codes " b")
        ≡ ok (b'a' ∷ 233 ∷ b'\n' ∷ [], length (quoted (b'a' ∷ 195 ∷ 169 ∷ b'\n' ∷ []))))
decode_git_path_field-quoted_example =
    decode_git_path_field-quoted (b'a' ∷ 233 ∷ b'\n' ∷ []) (b'a' ∷ 195 ∷ 169 ∷ b'\n' ∷ [])
      (codes " b") (omega arith, (omega arith, (omega arith, tt))) encoded
