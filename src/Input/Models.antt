-- ===== src/Input/Models.antt =====
-- Contracts of the normalised input (domain/input/models.py). The digests (`derive_...`, SHA-256 over
-- JSON) are a parameter of the code that uses them; the checks that compare a value with its own
-- digest are left out, and so is the artifact that every slice refers to.
use cr_agent.Prelude.{
  ℕ, ◌+◌, Bool, true, false, not, ◌&&◌, ◌||◌, Option, none, some, List, [], ◌∷◌, String, is_some,
  ltb, leb, ◌==◌, sum_of, if◌then◌else◌,
}
use cr_agent.Prelude.Text.{Text}

pub data ChangeType : Type 0 where
  added modified deleted renamed binary : ChangeType

pub data LineType : Type 0 where
  context addition deletion : LineType

pub record InputLimits : Type 0 where
  pub max_files : ℕ
  pub max_changed_lines : ℕ
  pub max_physical_lines : ℕ

-- `_MalformedDiff`, `_IncompleteDiff`, `_TooLarge` and the ValueError of a contract; `exhausted` is the
-- end of the fuel.
pub data DiffError : Type 0 where
  malformed incomplete value_error exhausted : DiffError
  too_large : String → ℕ → DiffError

-- A line of a hunk; the slice counts code points of the sanitized diff.
pub record Line : Type 0 where
  pub line_type : LineType
  pub old_line_number : Option ℕ
  pub new_line_number : Option ℕ
  pub sequence : ℕ
  pub content_start : ℕ
  pub content_end : ℕ

-- The ranges of a hunk header.
pub record Ranges : Type 0 where
  pub old_start : ℕ
  pub old_count : ℕ
  pub new_start : ℕ
  pub new_count : ℕ

pub record Hunk : Type 0 where
  pub ranges : Ranges
  pub lines : List Line

abbrev pub is_addition : LineType → Bool
is_addition LineType.addition = true
is_addition _ = false

abbrev pub is_deletion : LineType → Bool
is_deletion LineType.deletion = true
is_deletion _ = false

-- Whether a line of this type stands on the old side, on the new side.
abbrev pub on_old : LineType → Bool
on_old t = not (is_addition t)

abbrev pub on_new : LineType → Bool
on_new t = not (is_deletion t)

-- `sum(p(line.line_type) for line in lines)`
abbrev pub count_lines : (LineType → Bool) → List Line → ℕ
count_lines p ls = sum_of (λ l. if p l.line_type then 1 else 0) ls

-- The checks of `ArtifactSliceRef.__post_init__` and `Line.__post_init__`.
abbrev pub sides_valid : LineType → Option ℕ → Option ℕ → Bool
sides_valid LineType.addition old new = not (is_some old) && is_some new
sides_valid LineType.deletion old new = is_some old && not (is_some new)
sides_valid LineType.context old new = is_some old && is_some new

unfoldable pub line_valid : Line → Bool
line_valid l =
    leb l.content_start l.content_end
    && ltb 0 l.sequence
    && sides_valid l.line_type l.old_line_number l.new_line_number

abbrev pub equals : Option ℕ → ℕ → Bool
equals none n = false
equals (some m) n = m == n

-- The loop of `_validate_line_locations`, from its three counters on.
unfoldable pub locations_valid : ℕ → ℕ → ℕ → List Line → Bool
locations_valid sequence old new [] = true
locations_valid sequence old new (l ∷ ls) =
    let rest =
      locations_valid (sequence + 1) (if on_old l.line_type then old + 1 else old)
        (if on_new l.line_type then new + 1 else new) ls in
    l.sequence == sequence
    && (not (on_old l.line_type) || equals l.old_line_number old)
    && (not (on_new l.line_type) || equals l.new_line_number new)
    && rest

-- A count with no start.
abbrev pub startless : ℕ → ℕ → Bool
startless count start = ltb 0 count && start == 0

abbrev pub no_start : Ranges → Bool
no_start r = startless r.old_count r.old_start || startless r.new_count r.new_start

-- The checks of `Hunk.__post_init__`.
unfoldable pub hunk_valid : Hunk → Bool
hunk_valid h =
    not (no_start h.ranges)
    && count_lines on_old h.lines == h.ranges.old_count
    && count_lines on_new h.lines == h.ranges.new_count
    && locations_valid 1 h.ranges.old_start h.ranges.new_start h.lines

-- The check of `_validate_hunk_order` for two neighbours.
abbrev pub follows : Ranges → Ranges → Bool
follows p h = not (
    ltb h.old_start (p.old_start + p.old_count)
    || ltb h.new_start (p.new_start + p.new_count)
    || ltb h.old_start p.old_start
    || ltb h.new_start p.new_start)

-- `_validate_hunk_order`
unfoldable pub ordered : List Hunk → Bool
ordered [] = true
ordered (h ∷ []) = true
ordered (h ∷ g ∷ hs) = follows h.ranges g.ranges && ordered (g ∷ hs)

pub record ChangedFile : Type 0 where
  pub file_id : Text
  pub old_path : Option Text
  pub new_path : Option Text
  pub change_type : ChangeType
  pub is_binary : Bool
  pub hunks : List Hunk
  pub additions : ℕ
  pub deletions : ℕ

abbrev pub is_binary_type : ChangeType → Bool
is_binary_type ChangeType.binary = true
is_binary_type _ = false

abbrev pub same_flag : Bool → Bool → Bool
same_flag true b = b
same_flag false b = not b

abbrev pub no_hunks : List Hunk → Bool
no_hunks [] = true
no_hunks _ = false

-- The checks of `ChangedFile.__post_init__`.
unfoldable pub file_valid : ChangedFile → Bool
file_valid f =
    (is_some f.old_path || is_some f.new_path)
    && same_flag f.is_binary (is_binary_type f.change_type)
    && (not f.is_binary || no_hunks f.hunks)
    && f.additions == sum_of (λ h. count_lines is_addition h.lines) f.hunks
    && f.deletions == sum_of (λ h. count_lines is_deletion h.lines) f.hunks
    && ordered f.hunks
