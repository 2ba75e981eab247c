-- ===== src/Input/Paths.antt =====
-- The paths of a diff (domain/input/service.py): `_normalize_path`, `_parse_marker_path`,
-- `_parse_diff_header` and `_parse_binary_paths`.
use cr_agent.Prelude.{
  ℕ, ◌+◌, ◌-◌, ◌/◌, ◌%◌, Bool, true, false, not, ◌&&◌, ◌||◌, Option, none, some, List, [], ◌∷◌,
  ◌++◌, length, any, keep, last?, ltb, leb, ◌==◌, if◌then◌else◌,
}
use cr_agent.Prelude.Exec.{Result, ok, err}
use cr_agent.Prelude.Fallible.{◌>>=◌, ◌>>◌, refuse, present}
use cr_agent.Prelude.Text.{
  Text, codes, text_eq, strip_prefix, remove_prefix, starts_with, remove_suffix, has_char, split,
  cut, take, drop, occurrences, join,
}
use cr_agent.Input.Models.{DiffError, malformed}
use cr_agent.Input.Utf8.{between}
use cr_agent.Input.Quoted.{consume_c_style_path, decode_git_path_field, starts_quoted}

abbrev pub is_control : ℕ → Bool
is_control c = ltb c 32 || c == 127

abbrev pub is_letter : ℕ → Bool
is_letter c = between b'A' b'Z' c || between b'a' b'z' c

-- `_WINDOWS_DRIVE`
abbrev pub is_drive : Text → Bool
is_drive (c ∷ d ∷ s) = is_letter c && d == b':'
is_drive _ = false

-- A part of a path that is refused.
abbrev pub bad_part : Text → Bool
bad_part part = text_eq part [] || text_eq part (codes ".") || text_eq part (codes "..")

abbrev pub is_empty : Text → Bool
is_empty [] = true
is_empty _ = false

-- `str(PurePosixPath(value))` of a relative path: its parts but for empty ones and dots.
abbrev pub posix_text : Text → Text
posix_text value =
    join b'/' (keep (λ p. not (text_eq p [] || text_eq p (codes "."))) (split b'/' value))

-- The checks behind the prefix.
unfoldable pub relative_path : Text → Result DiffError Text
relative_path value = do
  refuse
      (is_empty value
        || starts_with (codes "/") value
        || is_drive value
        || any bad_part (split b'/' value))
      malformed
  refuse (not (text_eq (posix_text value) value)) malformed
  ok value

unfoldable pub normalize_path : Text → Option Text → Result DiffError Text
normalize_path value prefix = do
  refuse (is_empty value || has_char b'\\' value || any is_control value) malformed
  bare ← elim prefix [ none ↦ ok value | some p ↦ present (strip_prefix p value) malformed ]
  relative_path bare

abbrev pub a_prefix : Option Text
a_prefix = some (codes "a/")

abbrev pub b_prefix : Option Text
b_prefix = some (codes "b/")

unfoldable pub quoted_token : Text → Result DiffError Text
quoted_token value = do
  (token, consumed) ← consume_c_style_path value
  let rest = drop value consumed
  refuse (not (is_empty rest) && not (starts_with (codes "\t") rest)) malformed
  ok token

-- The token of a marker line.
unfoldable pub marker_token : Text → Result DiffError Text
marker_token value = if starts_quoted value then quoted_token value else ok (cut b'\t' value).0

unfoldable pub parse_marker_path : Text → Option Text → Result DiffError (Option Text)
parse_marker_path value prefix = do
  token ← marker_token value
  if text_eq token (codes "/dev/null")
      then ok none
      else (normalize_path token prefix >>= λ path. ok (some path))

-- Both paths of a header.
abbrev pub both_paths : Text → Text → Result DiffError (Text × Text)
both_paths old new = do
  old_path ← normalize_path old a_prefix
  new_path ← normalize_path new b_prefix
  ok (old_path, new_path)

-- `payload.find(" b/", 2)` and `payload.rfind(" b/")`
abbrev pub find_separator : Text → Option ℕ
find_separator payload = elim (keep (λ i. leb 2 i) (occurrences (codes " b/") 0 payload)) [
  | [] ↦ none
  | i ∷ is ↦ some i
]

abbrev pub rfind_separator : Text → Option ℕ
rfind_separator payload = last? (occurrences (codes " b/") 0 payload)

-- At the only separator.
abbrev pub at_separator : Text → Option ℕ → Option ℕ → Result DiffError (Text × Text)
at_separator payload (some first) (some last) =
    if first == last
    then both_paths (take payload first) (drop payload (first + 1))
    else err malformed
at_separator payload _ _ = err malformed

-- Two paths of one length, which must be the same to be taken.
unfoldable pub symmetric_header :
    Text → ℕ → Result DiffError (Text × Text) → Result DiffError (Text × Text)
symmetric_header payload separator ambiguous = do
  (old_path, new_path) ← both_paths (take payload separator) (drop payload (separator + 1))
  if text_eq old_path new_path then ok (old_path, new_path) else ambiguous

unfoldable pub unquoted_header : Text → Result DiffError (Text × Text)
unquoted_header payload =
    let separator = 2 + (length payload - 5) / 2 in
    let ambiguous = at_separator payload (find_separator payload) (rfind_separator payload) in
    if leb 5 (length payload)
      && (length payload - 5) % 2 == 0
      && starts_with (codes " b/") (drop payload separator)
    then symmetric_header payload separator ambiguous
    else ambiguous

unfoldable pub quoted_header : Text → Result DiffError (Text × Text)
quoted_header payload = do
  (old_value, consumed) ← consume_c_style_path payload
  refuse (not (starts_with (codes " ") (drop payload consumed))) malformed
  new_value ← decode_git_path_field (drop payload (consumed + 1))
  both_paths old_value new_value

abbrev pub hinted_header : Text → Option (Text × Text) → Result DiffError (Text × Text)
hinted_header payload none = unquoted_header payload
hinted_header payload (some (old, new)) =
    if text_eq payload (codes "a/" ++ (old ++ (codes " b/" ++ new)))
    then ok (old, new)
    else err malformed

unfoldable pub parse_diff_header : Text → Option (Text × Text) → Result DiffError (Text × Text)
parse_diff_header header hints = do
  payload ← present (strip_prefix (codes "diff --git ") header) malformed
  if starts_quoted payload then quoted_header payload else hinted_header payload hints

abbrev pub pair_is : Text → Text → Text → Bool
pair_is pair old new = text_eq pair (old ++ (codes " and " ++ new))

-- The candidates that fit.
abbrev pub binary_matches : Text → Text → Text → List (Option Text × Option Text)
binary_matches pair old new =
    let a = codes "a/" ++ old in
    let b = codes "b/" ++ new in
    let gone = codes "/dev/null" in
    (if pair_is pair a b then (some old, some new) ∷ [] else [])
    ++ ((if pair_is pair gone b then (none, some new) ∷ [] else [])
        ++ (if pair_is pair a gone then (some old, none) ∷ [] else []))

unfoldable pub quoted_pair : Text → Text → Text → Result DiffError (Option Text × Option Text)
quoted_pair pair old new = do
  refuse (not (starts_quoted pair)) malformed
  (old_value, consumed) ← consume_c_style_path pair
  refuse (not (starts_with (codes " and ") (drop pair consumed))) malformed
  new_value ← decode_git_path_field (drop pair (consumed + 5))
  (old_path, new_path) ← both_paths old_value new_value
  refuse (not (text_eq old_path old && text_eq new_path new)) malformed
  ok (some old_path, some new_path)

abbrev pub or_quoted :
    List (Option Text × Option Text)
    → Text
    → Text
    → Text
    → Result DiffError (Option Text × Option Text)
or_quoted (m ∷ []) pair old new = ok m
or_quoted _ pair old new = quoted_pair pair old new

-- The value starts with "Binary files " and ends with " differ".
unfoldable pub parse_binary_paths :
    Text → Text → Text → Result DiffError (Option Text × Option Text)
parse_binary_paths value old new =
    let pair = remove_suffix (codes " differ") (remove_prefix (codes "Binary files ") value) in
    or_quoted (binary_matches pair old new) pair old new
