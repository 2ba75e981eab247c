-- ===== src/Input/Facts.antt =====
-- The variables of `_parse_file` (domain/input/service.py) and what its loop does at each kind of
-- extended header line.
use cr_agent.Prelude.{
  ℕ, ◌+◌, ◌-◌, ◌*◌, Bool, true, false, not, ◌&&◌, ◌||◌, Option, none, some, List, [], ◌∷◌, length,
  ◌==◌, is_some, if◌then◌else◌,
}
use cr_agent.Prelude.Exec.{Result, ok, err}
use cr_agent.Prelude.Fallible.{◌>>=◌, ◌>>◌, refuse, present}
use cr_agent.Prelude.Text.{
  Text, codes, text_eq, strip_prefix, starts_with, remove_prefix, strip_suffix,
}
use cr_agent.Input.Models.{DiffError, malformed, Hunk}
use cr_agent.Input.Utf8.{between}
use cr_agent.Input.Quoted.{decode_git_path_field}
use cr_agent.Input.Paths.{normalize_path, parse_binary_paths}
use cr_agent.Input.Hunks.{no_newline_marker}

pub record IndexLine : Type 0 where
  pub old_hash : Text
  pub new_hash : Text
  pub mode : Option Text

-- `similar` is whether the line says similarity, not dissimilarity.
pub record Similarity : Type 0 where
  pub similar : Bool
  pub percent : ℕ

pub record FileState : Type 0 where
  pub marker_old : Option Text
  pub marker_new : Option Text
  pub has_markers : Bool
  pub binary : Bool
  pub binary_paths : Option (Option Text × Option Text)
  pub renamed : Bool
  pub new_file : Bool
  pub deleted_file : Bool
  pub recognized_fact : Bool
  pub rename_old : Option Text
  pub rename_new : Option Text
  pub similarity : Option Similarity
  pub old_mode : Option Text
  pub new_mode : Option Text
  pub index_metadata : Option IndexLine
  pub hunks : List Hunk
  pub parsed_changed_lines : ℕ

-- `_GIT_FILE_MODE`
abbrev pub is_mode : Text → Bool
is_mode m =
    text_eq m (codes "100644")
    || text_eq m (codes "100755")
    || text_eq m (codes "120000")
    || text_eq m (codes "160000")

abbrev pub is_digit : ℕ → Bool
is_digit = between b'0' b'9'

-- The percentage of `_SIMILARITY`, with its sign.
abbrev pub percent : Text → Option ℕ
percent (c ∷ d ∷ []) = if is_digit c && d == b'%' then some (c - b'0') else none
percent (c ∷ d ∷ e ∷ []) =
    if between b'1' b'9' c && is_digit d && e == b'%'
    then some ((c - b'0') * 10 + (d - b'0'))
    else none
percent s = if text_eq s (codes "100%") then some 100 else none

abbrev pub is_hex : ℕ → Bool
is_hex c = is_digit c || between b'a' b'f' c

-- The hexadecimal digits at the front, and what follows them.
abbrev pub hex_span : Text → Text × Text
hex_span [] = ([], [])
hex_span (c ∷ s) =
    let (digits, rest) = hex_span s in if is_hex c then (c ∷ digits, rest) else ([], c ∷ s)

abbrev pub is_hash : Text → Bool
is_hash h = between 4 64 (length h)

-- The end of an index line: nothing, or a mode.
abbrev pub index_mode : Text → Option (Option Text)
index_mode [] = some none
index_mode (c ∷ m) = if c == b' ' && is_mode m then some (some m) else none

abbrev pub index_tail : Text → Option Text → Option IndexLine
index_tail old none = none
index_tail old (some s) =
    let (new, rest) = hex_span s in
    elim (index_mode rest) [
      | none ↦ none
      | some mode ↦
          if is_hash old && is_hash new
          then some (record { old_hash = old; new_hash = new; mode = mode })
          else none
    ]

-- `_INDEX`, behind the word.
unfoldable pub index_line : Text → Option IndexLine
index_line s = let (old, rest) = hex_span s in index_tail old (strip_prefix (codes "..") rest)

abbrev pub Update : Type 0
Update = FileState → Result DiffError FileState

abbrev pub rename_path : Text → Result DiffError Text
rename_path value = decode_git_path_field value >>= λ path. normalize_path path none

unfoldable pub rename_from : Text → Update
rename_from value st = do
  refuse (is_some st.rename_old) malformed
  path ← rename_path value
  ok (record st { rename_old = some path; renamed = true; recognized_fact = true })

unfoldable pub rename_to : Text → Update
rename_to value st = do
  refuse (is_some st.rename_new) malformed
  path ← rename_path value
  ok (record st { rename_new = some path; renamed = true; recognized_fact = true })

unfoldable pub similarity_line : Bool → Text → Update
similarity_line similar value st = do
  p ← present (percent value) malformed
  refuse (is_some st.similarity) malformed
  ok (record st {
    similarity = some (record { similar = similar; percent = p });
    recognized_fact = true;
  })

unfoldable pub new_file_mode : Text → Update
new_file_mode value st = do
  refuse (st.new_file || not (is_mode value)) malformed
  ok (record st { new_file = true; recognized_fact = true })

unfoldable pub deleted_file_mode : Text → Update
deleted_file_mode value st = do
  refuse (st.deleted_file || not (is_mode value)) malformed
  ok (record st { deleted_file = true; recognized_fact = true })

unfoldable pub old_mode_line : Text → Update
old_mode_line value st = do
  refuse (is_some st.old_mode || not (is_mode value)) malformed
  ok (record st { old_mode = some value; recognized_fact = true })

unfoldable pub new_mode_line : Text → Update
new_mode_line value st = do
  refuse (is_some st.new_mode || not (is_mode value)) malformed
  ok (record st { new_mode = some value; recognized_fact = true })

unfoldable pub index_fact : Text → Update
index_fact value st = do
  i ← present (index_line value) malformed
  refuse (is_some st.index_metadata) malformed
  ok (record st { index_metadata = some i; recognized_fact = true })

unfoldable pub binary_fact : Text → Text → Text → Update
binary_fact body old new st = do
  refuse (is_some st.binary_paths) malformed
  paths ← parse_binary_paths body old new
  ok (record st { binary_paths = some paths; binary = true; recognized_fact = true })

abbrev pub empty_hunks : List Hunk → Bool
empty_hunks [] = true
empty_hunks _ = false

-- The chain of `elif`s, for a line that starts neither a hunk nor the markers.
unfoldable pub fact_step : Text → Text → Text → Update
fact_step header_old header_new body st =
    if starts_with (codes "rename from ") body
    then rename_from (remove_prefix (codes "rename from ") body) st
    else if starts_with (codes "rename to ") body
    then rename_to (remove_prefix (codes "rename to ") body) st
    else if starts_with (codes "similarity index ") body
    then similarity_line true (remove_prefix (codes "similarity index ") body) st
    else if starts_with (codes "dissimilarity index ") body
    then similarity_line false (remove_prefix (codes "dissimilarity index ") body) st
    else if starts_with (codes "new file mode ") body
    then new_file_mode (remove_prefix (codes "new file mode ") body) st
    else if starts_with (codes "deleted file mode ") body
    then deleted_file_mode (remove_prefix (codes "deleted file mode ") body) st
    else if starts_with (codes "old mode ") body
    then old_mode_line (remove_prefix (codes "old mode ") body) st
    else if starts_with (codes "new mode ") body
    then new_mode_line (remove_prefix (codes "new mode ") body) st
    else if starts_with (codes "index ") body
    then index_fact (remove_prefix (codes "index ") body) st
    else if starts_with (codes "Binary files ") body
        && is_some (strip_suffix (codes " differ") body)
    then binary_fact body header_old header_new st
    else if text_eq body no_newline_marker && not (empty_hunks st.hunks)
    then ok st
    else err malformed
