-- ===== src/Input/Checks.antt =====
-- The checks behind the loop of `_parse_file` (domain/input/service.py), and the type of the change.
use cr_agent.Prelude.{
  Bool, true, false, not, ◌&&◌, ◌||◌, Option, none, some, [], ◌∷◌, all, ◌==◌, is_some,
  if◌then◌else◌,
}
use cr_agent.Prelude.Exec.{Result, ok}
use cr_agent.Prelude.Fallible.{◌>>=◌, ◌>>◌, refuse}
use cr_agent.Prelude.Text.{Text, text_eq}
use cr_agent.Input.Models.{DiffError, malformed, ChangeType, same_flag}
use cr_agent.Input.Facts.{FileState, IndexLine, Similarity, empty_hunks}

abbrev pub Paths : Type 0
Paths = Option Text × Option Text

-- `a == b` on paths that may be None; `a is not None and a != b`.
abbrev pub same_path : Option Text → Option Text → Bool
same_path none none = true
same_path (some a) (some b) = text_eq a b
same_path _ _ = false

abbrev pub differs : Option Text → Text → Bool
differs none b = false
differs (some a) b = not (text_eq a b)

abbrev pub xor : Bool → Bool → Bool
xor a b = not (same_flag a b)

-- `set(text) == {"0"}`
abbrev pub all_zero : Text → Bool
all_zero [] = false
all_zero (c ∷ s) = all (λ x. x == b'0') (c ∷ s)

abbrev pub has_mode : Option IndexLine → Bool
has_mode none = false
has_mode (some i) = is_some i.mode

-- The zero hashes are those of a file that is not there.
abbrev pub bad_zero : FileState → Option IndexLine → Bool
bad_zero st none = false
bad_zero st (some i) =
    xor (all_zero i.old_hash) st.new_file || xor (all_zero i.new_hash) st.deleted_file

abbrev pub is_similar : Bool → Option Similarity → Bool
is_similar b none = false
is_similar b (some s) = same_flag b s.similar

-- The facts that contradict one another.
unfoldable pub check_facts : FileState → Result DiffError Unit
check_facts st = do
  refuse (not st.recognized_fact) malformed
  refuse (st.new_file && st.deleted_file) malformed
  refuse ((st.new_file || st.deleted_file) && st.renamed) malformed
  refuse (xor (is_some st.old_mode) (is_some st.new_mode)) malformed
  refuse
      (is_some st.old_mode && (same_path st.old_mode st.new_mode || st.new_file || st.deleted_file))
      malformed
  refuse (has_mode st.index_metadata && (is_some st.old_mode || st.new_file || st.deleted_file))
      malformed
  refuse (bad_zero st st.index_metadata) malformed
  refuse
      (is_similar true st.similarity
        && (not (is_some st.rename_old) || not (is_some st.rename_new)))
      malformed
  refuse (is_similar false st.similarity && (is_some st.rename_old || is_some st.rename_new))
      malformed

-- The paths of a binary line against the markers and the header.
abbrev pub bad_binary : FileState → Text → Text → Paths → Bool
bad_binary st header_old header_new (old, new) =
    st.has_markers && (not (same_path st.marker_old old) || not (same_path st.marker_new new))
    || differs old header_old
    || differs new header_new
    || (st.new_file && is_some old || st.deleted_file && is_some new)
    || (st.new_file && not (is_some new) || st.deleted_file && not (is_some old))
    || (not (is_some old) && not st.new_file || not (is_some new) && not st.deleted_file)

unfoldable pub check_binary : FileState → Text → Text → Option Paths → Result DiffError Paths
check_binary st header_old header_new none = ok (st.marker_old, st.marker_new)
check_binary st header_old header_new (some paths) = do
  refuse (bad_binary st header_old header_new paths) malformed
  ok paths

-- A new file has no old path, a deleted one no new path.
unfoldable pub check_lifecycle : FileState → Paths → Result DiffError Paths
check_lifecycle st (old, new) = do
  refuse (st.new_file && st.has_markers && is_some old) malformed
  refuse (st.deleted_file && st.has_markers && is_some new) malformed
  ok (if st.new_file then none else old, if st.deleted_file then none else new)

unfoldable pub check_paths : FileState → Text → Text → Paths → Result DiffError Unit
check_paths st header_old header_new (old, new) = do
  refuse (differs st.rename_old header_old) malformed
  refuse (differs st.rename_new header_new) malformed
  refuse (st.renamed && xor (is_some st.rename_old) (is_some st.rename_new)) malformed
  refuse (st.has_markers && (differs old header_old || differs new header_new)) malformed

abbrev pub is_hundred : Option Similarity → Bool
is_hundred none = false
is_hundred (some s) = s.percent == 100

abbrev pub bad_index : FileState → Bool → Option IndexLine → Bool
bad_index st has_content none = false
bad_index st has_content (some i) =
    let lifecycle_only = (st.new_file || st.deleted_file) && not has_content in
    not has_content && not lifecycle_only || text_eq i.old_hash i.new_hash && has_content

unfoldable pub check_content : FileState → Result DiffError Unit
check_content st = do
  let has_hunks = not (empty_hunks st.hunks)
  let has_content = has_hunks || st.binary
  refuse (has_hunks && not st.has_markers) malformed
  refuse (st.binary && has_hunks) malformed
  refuse (is_similar false st.similarity && not has_content) malformed
  refuse
      (is_similar true st.similarity
        && (is_hundred st.similarity && has_content
            || not (is_hundred st.similarity) && not has_content))
      malformed
  refuse (bad_index st has_content st.index_metadata) malformed

-- All of them; the paths of the change come back.
unfoldable pub check_file : FileState → Text → Text → Result DiffError Paths
check_file st header_old header_new = do
  check_facts st
  binary_paths ← check_binary st header_old header_new st.binary_paths
  paths ← check_lifecycle st binary_paths
  check_paths st header_old header_new paths
  check_content st
  ok paths

unfoldable pub change_type_of : FileState → Paths → ChangeType
change_type_of st (old, new) =
    if st.binary
    then ChangeType.binary
    else if not (is_some old)
    then ChangeType.added
    else if not (is_some new)
    then ChangeType.deleted
    else if st.renamed
    then ChangeType.renamed
    else ChangeType.modified
