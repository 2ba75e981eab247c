-- ===== src/Input/Quoted.antt =====
-- `_consume_c_style_path` and `_decode_git_path_field` (domain/input/service.py): paths that git
-- prints in double quotes.
use cr_agent.Prelude.{
  ℕ, ◌+◌, ◌-◌, ◌*◌, Bool, false, not, ◌&&◌, Option, none, some, List, [], ◌∷◌, ◌++◌, length, ltb,
  ◌==◌, if◌then◌else◌,
}
use cr_agent.Prelude.Exec.{Result, ok, err}
use cr_agent.Prelude.Fallible.{◌>>=◌, ◌>>◌, refuse}
use cr_agent.Prelude.Text.{Text}
use cr_agent.Input.Models.{DiffError, malformed, value_error}
use cr_agent.Input.Utf8.{encode, decode, between}

-- `_C_ESCAPES`
abbrev pub c_escape : ℕ → Option ℕ
c_escape c =
    if c == b'a'
    then some 7
    else if c == b'b'
    then some 8
    else if c == b't'
    then some 9
    else if c == b'n'
    then some 10
    else if c == b'v'
    then some 11
    else if c == b'f'
    then some 12
    else if c == b'r'
    then some 13
    else if c == b'\\'
    then some b'\\'
    else if c == b'"'
    then some b'"'
    else none

abbrev pub is_octal : ℕ → Bool
is_octal = between b'0' b'7'

-- Where the loop stands: before a character, behind a backslash, or behind some octal digits, with
-- their number and value.
pub data Place : Type 0 where
  plain escaped : Place
  octal : ℕ → ℕ → Place

pub data Step : Type 0 where
  fail unencodable : Step
  close : List ℕ → Step
  next : Place → List ℕ → Step

abbrev pub plain_step : List ℕ → ℕ → Step
plain_step decoded c =
    if c == b'"'
    then close decoded
    else if c == b'\\'
    then next escaped decoded
    else elim (encode c) [ none ↦ unencodable | some bs ↦ next plain (decoded ++ bs) ]

-- One character; a lone surrogate has no UTF-8, which is a ValueError. Octal digits end before the first other character, and after three.
unfoldable pub path_step : Place → List ℕ → ℕ → Step
path_step plain decoded c = plain_step decoded c
path_step escaped decoded c =
    if is_octal c
    then next (octal 1 (c - b'0')) decoded
    else elim (c_escape c) [ none ↦ fail | some b ↦ next plain (decoded ++ (b ∷ [])) ]
path_step (octal count value) decoded c =
    if ltb count 3 && is_octal c
    then next (octal (count + 1) (value * 8 + (c - b'0'))) decoded
    else if ltb 255 value
    then fail
    else plain_step (decoded ++ (value ∷ [])) c

-- The loop, on what is left of the value; the number of characters consumed comes back.
unfoldable pub consume : Place → List ℕ → ℕ → Text → Result DiffError (Text × ℕ)
consume place decoded index [] = err malformed
consume place decoded index (c ∷ s) = elim (path_step place decoded c) [
  | fail ↦ err malformed
  | unencodable ↦ err value_error
  | close bytes ↦ elim (decode bytes) [ none ↦ err malformed | some t ↦ ok (t, index + 1) ]
  | next place' decoded' ↦ consume place' decoded' (index + 1) s
]

unfoldable pub consume_c_style_path : Text → Result DiffError (Text × ℕ)
consume_c_style_path [] = err malformed
consume_c_style_path (c ∷ s) = if c == b'"' then consume plain [] 1 s else err malformed

abbrev pub starts_quoted : Text → Bool
starts_quoted [] = false
starts_quoted (c ∷ s) = c == b'"'

unfoldable pub decode_git_path_field : Text → Result DiffError Text
decode_git_path_field value = do
  refuse (length value == 0) malformed
  if not (starts_quoted value) then ok value else do
    (decoded, consumed) ← consume_c_style_path value
    refuse (not (consumed == length value)) malformed
    ok decoded
