-- ===== src/Input/Ends/Files.antt =====
-- `_parse_file` and what it calls never run out of fuel (domain/input/service.py).
use cr_agent.Prelude.{
  ℕ, zero, suc, ◌-◌, ◌≤◌, true, false, not, ◌&&◌, ◌||◌, refl, Option, none, some, List, [], ◌∷◌,
  length, all, All, arith, is_some,
}
use cr_agent.Prelude.Exec.{Result}
use cr_agent.Prelude.Text.{Text, codes, starts_with, drop, remove_prefix}
use cr_agent.Input.Models.{
  DiffError, value_error, ChangeType, Hunk, file_valid, line_valid, hunk_valid,
}
use cr_agent.Input.Lines.{PhysicalLine}
use cr_agent.Input.Offsets.{Lies}
use cr_agent.Input.Paths.{parse_marker_path, parse_diff_header, a_prefix, b_prefix}
use cr_agent.Input.Ends.Lines.{parse_hunk-Ends, rename_path-Ends, fact_step-Ends, marker_step-Ends}
use cr_agent.Input.Ends.{
  Ends, ok-Ends, if-Ends, bind-Ends, refuse-Ends, check-Ends, last_check-Ends,
  parse_marker_path-Ends, parse_diff_header-Ends,
}
use cr_agent.Input.Hunks.{parse_hunk}
use cr_agent.Input.Facts.{FileState, rename_path, fact_step, empty_hunks}
use cr_agent.Input.Headers.{
  Hints, markers, plus_line, rename_hint, hint_line, or_later, header_path_hints,
}
use cr_agent.Input.Checks.{
  Paths, xor, same_path, has_mode, bad_zero, is_similar, bad_binary, differs, is_hundred, bad_index,
  check_facts, check_binary, check_lifecycle, check_paths, check_content, check_file,
}
use cr_agent.Input.Files.{
  initial_state, materialize_hunk, materialize, hunk_turn, file_turn, file_loop, parse_file,
  changed_file,
}
use cr_agent.Input.Sound.{IsGood, file_turn-Good}

-- The checks behind the loop.
module _ (st : FileState) where
  check_facts-Ends : Ends (check_facts st)
  unfolding check_facts
  check_facts-Ends = check-Ends (not st.recognized_fact) _ (
      check-Ends (st.new_file && st.deleted_file) _ (
        check-Ends ((st.new_file || st.deleted_file) && st.renamed) _ (
          check-Ends (xor (is_some st.old_mode) (is_some st.new_mode)) _ (
            check-Ends
              (is_some st.old_mode
                && (same_path st.old_mode st.new_mode || st.new_file || st.deleted_file))
              _
              (check-Ends
                (has_mode st.index_metadata
                  && (is_some st.old_mode || st.new_file || st.deleted_file))
                _
                (check-Ends (bad_zero st st.index_metadata) _ (
                  check-Ends
                    (is_similar true st.similarity
                      && (not (is_some st.rename_old) || not (is_some st.rename_new)))
                    _
                    (last_check-Ends (
                      is_similar false st.similarity
                      && (is_some st.rename_old || is_some st.rename_new))))))))))

  check_binary-Ends : (old new : Text) (paths : Option Paths) → Ends (check_binary st old new paths)
  unfolding check_binary
  check_binary-Ends old new none = ok-Ends _
  check_binary-Ends old new (some paths) =
      check-Ends (bad_binary st old new paths) _ (ok-Ends paths)

  check_lifecycle-Ends : (paths : Paths) → Ends (check_lifecycle st paths)
  unfolding check_lifecycle
  check_lifecycle-Ends paths =
      check-Ends (st.new_file && st.has_markers && is_some paths.0) _
        (check-Ends (st.deleted_file && st.has_markers && is_some paths.1) _ (ok-Ends _))

  check_paths-Ends : (old new : Text) (paths : Paths) → Ends (check_paths st old new paths)
  unfolding check_paths
  check_paths-Ends old new paths = check-Ends (differs st.rename_old old) _ (
      check-Ends (differs st.rename_new new) _ (
        check-Ends (st.renamed && xor (is_some st.rename_old) (is_some st.rename_new)) _
          (last_check-Ends (st.has_markers && (differs paths.0 old || differs paths.1 new)))))

  check_content-Ends : Ends (check_content st)
  unfolding check_content
  check_content-Ends =
      let has_hunks = not (empty_hunks st.hunks) in
      let has_content = has_hunks || st.binary in
      check-Ends (has_hunks && not st.has_markers) _ (
        check-Ends (st.binary && has_hunks) _ (
          check-Ends (is_similar false st.similarity && not has_content) _ (
            check-Ends
              (is_similar true st.similarity
                && (is_hundred st.similarity && has_content
                    || not (is_hundred st.similarity) && not has_content))
              _ (last_check-Ends (bad_index st has_content st.index_metadata)))))

  check_file-Ends : (old new : Text) → Ends (check_file st old new)
  unfolding check_file
  check_file-Ends old new = bind-Ends (check_facts st) _ check_facts-Ends (λ u e.
      bind-Ends (check_binary st old new st.binary_paths) _
        (check_binary-Ends old new st.binary_paths)
        (λ binary e.
          bind-Ends (check_lifecycle st binary) _ (check_lifecycle-Ends binary) (λ paths e.
            bind-Ends (check_paths st old new paths) _ (check_paths-Ends old new paths)
              (λ u e. bind-Ends (check_content st) _ check_content-Ends (λ u e. ok-Ends paths)))))

materialize_hunk-Ends : (h : Hunk) → Ends (materialize_hunk h)
unfolding materialize_hunk
materialize_hunk-Ends h =
    refuse-Ends (not (all line_valid h.lines)) value_error _ refl
      (refuse-Ends (not (hunk_valid h)) value_error _ refl (ok-Ends h))

materialize-Ends : (hs : List Hunk) → Ends (materialize hs)
unfolding materialize
materialize-Ends [] = ok-Ends []
materialize-Ends (h ∷ hs) =
    bind-Ends (materialize_hunk h) _ (materialize_hunk-Ends h)
      (λ x e. bind-Ends (materialize hs) _ (materialize-Ends hs) (λ xs e. ok-Ends (x ∷ xs)))

-- The paths that the lines hint at.
rename_hint-Ends : (word body : Text) → Ends (rename_hint word body)
rename_hint-Ends word body =
    bind-Ends (rename_path (remove_prefix word body)) _ (rename_path-Ends (remove_prefix word body))
      (λ path e. ok-Ends (some path))

markers-Ends : (body : Text) (next_body : Option Text) → Ends (markers body next_body)
markers-Ends body none = ok-Ends none
markers-Ends body (some next_body) =
    bind-Ends (parse_marker_path (drop body 4) a_prefix) _
      (parse_marker_path-Ends (drop body 4) a_prefix)
      (λ old e.
        bind-Ends (parse_marker_path (drop next_body 4) b_prefix) _
          (parse_marker_path-Ends (drop next_body 4) b_prefix) (λ new e. ok-Ends _))

hint_line-Ends :
    (body : Text) (ls : List PhysicalLine) (old new : Option Text)
    → Ends (hint_line body ls old new)
unfolding hint_line
hint_line-Ends body ls old new =
    if-Ends (starts_with (codes "--- ") body) _ _
      (bind-Ends (markers body (plus_line ls)) _ (markers-Ends body (plus_line ls))
        (λ hints e. ok-Ends _))
      (if-Ends (starts_with (codes "rename from ") body && not (is_some old)) _ _
        (bind-Ends (rename_hint (codes "rename from ") body) _
          (rename_hint-Ends (codes "rename from ") body) (λ path e. ok-Ends _))
        (if-Ends (starts_with (codes "rename to ") body && not (is_some new)) _ _
          (bind-Ends (rename_hint (codes "rename to ") body) _
            (rename_hint-Ends (codes "rename to ") body) (λ path e. ok-Ends _))
          (ok-Ends _)))

or_later-Ends :
    (hints : Hints) (later : Result DiffError Hints) → Ends later → Ends (or_later hints later)
or_later-Ends none later h = h
or_later-Ends (some hints) later h = ok-Ends (some hints)

header_path_hints-Ends :
    (ls : List PhysicalLine) (old new : Option Text) → Ends (header_path_hints ls old new)
unfolding header_path_hints
header_path_hints-Ends [] old new = ok-Ends _
header_path_hints-Ends (l ∷ ls) old new =
    if-Ends (starts_with (codes "@@") l.body) _ _ (ok-Ends _) (
      bind-Ends (hint_line l.body ls old new) _ (hint_line-Ends l.body ls old new)
        (λ found e. or_later-Ends found.0 _ (header_path_hints-Ends ls found.1 found.2)))

module _ (content : Text) (digit : ℕ → Option ℕ) (file_id : ChangeType → Paths → Text)
    (max_changed remaining : ℕ) where
  file_turn-Ends :
      (old new body : Text) (ls : List PhysicalLine) (st : FileState)
      → Ends (file_turn digit file_id max_changed remaining old new body ls st)
  unfolding file_turn hunk_turn
  file_turn-Ends old new body ls st =
      if-Ends (starts_with (codes "@@") body) _ _
        (bind-Ends (parse_hunk digit max_changed (remaining - st.parsed_changed_lines) body ls) _
          (parse_hunk-Ends digit max_changed (remaining - st.parsed_changed_lines) body ls)
          (λ p e. ok-Ends _))
        (if-Ends (starts_with (codes "--- ") body) _ _ (marker_step-Ends st body ls) (
          bind-Ends (fact_step old new body st) _ (fact_step-Ends st old new body)
            (λ st' e. ok-Ends (st', ls))))

  -- The lines left are fuel enough, since no turn adds to them.
  file_loop-Ends :
      (fuel : ℕ) (old new : Text) (ls : List PhysicalLine) (st : FileState)
      → length ls ≤ fuel
      → IsGood content st ls
      → Ends (file_loop digit file_id max_changed fuel remaining old new ls st)
  unfolding file_loop
  file_loop-Ends fuel old new [] st h g = ok-Ends st
  file_loop-Ends zero old new (l ∷ ls) st h g = absurd (omega arith)
  file_loop-Ends (suc fuel) old new (l ∷ ls) st h g =
      bind-Ends (file_turn digit file_id max_changed remaining old new l.body ls st) _
        (file_turn-Ends old new l.body ls st)
        (λ next e.
          let (good, shorter) =
            file_turn-Good content digit file_id max_changed remaining old new l.body ls st
              (record { faithful = g.faithful; lie = g.lie.1 }) next e in
          file_loop-Ends fuel old new next.1 next.0 (omega arith) good)

  pub parse_file-Ends :
      (header : Text) (ls : List PhysicalLine)
      → All (Lies content) ls
      → Ends (parse_file digit file_id max_changed remaining header ls)
  unfolding parse_file
  parse_file-Ends header ls lie =
      bind-Ends (header_path_hints ls none none) _ (header_path_hints-Ends ls none none) (λ hints e.
        bind-Ends (parse_diff_header header hints) _ (parse_diff_header-Ends header hints)
          (λ paths e.
            bind-Ends
              (file_loop digit file_id max_changed (length ls) remaining paths.0 paths.1 ls
                (initial_state paths.0 paths.1))
              _
              (file_loop-Ends (length ls) paths.0 paths.1 ls (initial_state paths.0 paths.1)
                (omega arith) (record { faithful = tt; lie = lie }))
              (λ st e.
                bind-Ends (check_file st paths.0 paths.1) _ (check_file-Ends st paths.0 paths.1)
                  (λ final e.
                    bind-Ends (materialize st.hunks) _ (materialize-Ends st.hunks) (λ hunks e.
                      refuse-Ends
                        (not (file_valid (changed_file digit file_id max_changed st final hunks)))
                        value_error _ refl (ok-Ends _))))))
