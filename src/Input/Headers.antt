-- ===== src/Input/Headers.antt =====
-- `_header_path_hints` (domain/input/service.py).
use cr_agent.Prelude.{not, ◌&&◌, Option, none, some, List, [], ◌∷◌, is_some, if◌then◌else◌}
use cr_agent.Prelude.Exec.{Result, ok}
use cr_agent.Prelude.Fallible.{◌>>=◌}
use cr_agent.Prelude.Text.{Text, codes, starts_with, remove_prefix, drop}
use cr_agent.Input.Models.{DiffError}
use cr_agent.Input.Lines.{PhysicalLine}
use cr_agent.Input.Paths.{parse_marker_path, a_prefix, b_prefix}
use cr_agent.Input.Facts.{rename_path}

abbrev pub Hints : Type 0
Hints = Option (Text × Text)

-- What two marker paths give.
abbrev pub marker_hints : Option Text → Option Text → Hints
marker_hints none none = none
marker_hints none (some new) = some (new, new)
marker_hints (some old) none = some (old, old)
marker_hints (some old) (some new) = some (old, new)

abbrev pub rename_hints : Option Text → Option Text → Hints
rename_hints (some old) (some new) = some (old, new)
rename_hints _ _ = none

-- The body of the next line, if it is a `+++ ` line.
abbrev pub plus_line : List PhysicalLine → Option Text
plus_line [] = none
plus_line (l ∷ ls) = if starts_with (codes "+++ ") l.body then some l.body else none

-- Both marker paths, at a `--- ` line.
abbrev pub markers : Text → Option Text → Result DiffError Hints
markers body none = ok none
markers body (some next_body) = parse_marker_path (drop body 4) a_prefix >>= λ old.
    parse_marker_path (drop next_body 4) b_prefix >>= λ new. ok (marker_hints old new)

-- One rename path.
abbrev pub rename_hint : Text → Text → Result DiffError (Option Text)
rename_hint word body = rename_path (remove_prefix word body) >>= λ path. ok (some path)

-- What a line adds: hints at once, or the two rename paths so far. A `--- ` line that has a line
-- behind it is never read as a rename.
unfoldable pub hint_line :
    Text
    → List PhysicalLine
    → Option Text
    → Option Text
    → Result DiffError (Hints × Option Text × Option Text)
hint_line body ls old new =
    if starts_with (codes "--- ") body
    then (markers body (plus_line ls) >>= λ hints. ok (hints, old, new))
    else if starts_with (codes "rename from ") body && not (is_some old)
    then (rename_hint (codes "rename from ") body >>= λ path. ok (none, path, new))
    else if starts_with (codes "rename to ") body && not (is_some new)
    then (rename_hint (codes "rename to ") body >>= λ path. ok (none, old, path))
    else ok (none, old, new)

abbrev pub or_later : Hints → Result DiffError Hints → Result DiffError Hints
or_later (some h) later = ok (some h)
or_later none later = later

-- The loop over the lines behind the first.
unfoldable pub header_path_hints :
    List PhysicalLine → Option Text → Option Text → Result DiffError Hints
header_path_hints [] old new = ok (rename_hints old new)
header_path_hints (l ∷ ls) old new =
    let rest =
      (hint_line l.body ls old new >>= λ found.
      or_later found.0 (header_path_hints ls found.1 found.2)) in
    if starts_with (codes "@@") l.body then ok (rename_hints old new) else rest
