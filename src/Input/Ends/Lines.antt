-- ===== src/Input/Ends/Lines.antt =====
-- The turns of the loop of `_parse_file` never run out of fuel (domain/input/service.py).
use cr_agent.Prelude.{ℕ, Bool, true, false, refl, Option, none, List, [], ◌∷◌, length}
use cr_agent.Prelude.Fallible.{present}
use cr_agent.Prelude.Text.{Text, drop}
use cr_agent.Input.Models.{malformed, incomplete, LineType, Ranges}
use cr_agent.Input.Lines.{PhysicalLine}
use cr_agent.Input.Quoted.{decode_git_path_field}
use cr_agent.Input.Ranges.{hunk_header}
use cr_agent.Input.Paths.{parse_marker_path, parse_binary_paths, a_prefix, b_prefix}
use cr_agent.Input.Ends.{
  Ends, ok-Ends, err-Ends, malformed-Ends, if-Ends, present-Ends, bind-Ends, refuse-Ends,
  check-Ends, decode_git_path_field-Ends, normalize_path-Ends, parse_marker_path-Ends,
  parse_binary_paths-Ends,
}
use cr_agent.Input.Hunks.{
  HunkState, initial, more, line_type_of, take_line, take_body, hunk_step, hunk_loop, parse_hunk,
}
use cr_agent.Input.Facts.{
  FileState, rename_path, rename_from, rename_to, similarity_line, new_file_mode, deleted_file_mode,
  old_mode_line, new_mode_line, index_fact, binary_fact, fact_step, percent, index_line,
}
use cr_agent.Input.Headers.{plus_line}
use cr_agent.Input.Files.{marker_step}

-- Hunks.
module _ (max_changed remaining : ℕ) (r : Ranges) where
  take_line-Ends :
      (t : LineType) (start size : ℕ) (st : HunkState)
      → Ends (take_line max_changed remaining r t start size st)
  unfolding take_line
  take_line-Ends t start size st = refuse-Ends _ _ _ refl (check-Ends _ _ (ok-Ends _))

  take_body-Ends :
      (body : Text) (start : ℕ) (st : HunkState)
      → Ends (take_body max_changed remaining r body start st)
  take_body-Ends [] start st = malformed-Ends
  take_body-Ends (c ∷ content) start st =
      bind-Ends (present (line_type_of c) malformed) _ (present-Ends (line_type_of c))
        (λ t e. take_line-Ends t start (length content) st)

  hunk_step-Ends :
      (l : PhysicalLine) (st : HunkState) → Ends (hunk_step max_changed remaining r l st)
  unfolding hunk_step
  hunk_step-Ends l st =
      if-Ends _ _ _ (if-Ends _ _ _ malformed-Ends (ok-Ends st)) (take_body-Ends l.body l.start st)

  hunk_loop-Ends :
      (st : HunkState) (ls : List PhysicalLine) → Ends (hunk_loop max_changed remaining r st ls)
  unfolding hunk_loop
  hunk_loop-Ends st [] = if-Ends (more r st) _ _ (err-Ends incomplete refl) (ok-Ends _)
  hunk_loop-Ends st (l ∷ ls) =
      if-Ends (more r st) _ _
        (bind-Ends (hunk_step max_changed remaining r l st) _ (hunk_step-Ends l st)
          (λ st' e. hunk_loop-Ends st' ls))
        (ok-Ends _)

pub parse_hunk-Ends :
    (digit : ℕ → Option ℕ) (max_changed remaining : ℕ) (header : Text) (ls : List PhysicalLine)
    → Ends (parse_hunk digit max_changed remaining header ls)
unfolding parse_hunk
parse_hunk-Ends digit max_changed remaining header ls =
    bind-Ends (present (hunk_header digit header) malformed) _
      (present-Ends (hunk_header digit header))
      (λ r e. check-Ends _ _ (
        bind-Ends (hunk_loop max_changed remaining r (initial r) ls) _
          (hunk_loop-Ends max_changed remaining r (initial r) ls) (λ out g. ok-Ends _)))

-- Lines of the extended header.
pub rename_path-Ends : (v : Text) → Ends (rename_path v)
rename_path-Ends v =
    bind-Ends (decode_git_path_field v) _ (decode_git_path_field-Ends v)
      (λ path e. normalize_path-Ends path none)

module _ (st : FileState) where
  rename_from-Ends : (v : Text) → Ends (rename_from v st)
  unfolding rename_from
  rename_from-Ends v =
      check-Ends _ _ (bind-Ends (rename_path v) _ (rename_path-Ends v) (λ path e. ok-Ends _))

  rename_to-Ends : (v : Text) → Ends (rename_to v st)
  unfolding rename_to
  rename_to-Ends v =
      check-Ends _ _ (bind-Ends (rename_path v) _ (rename_path-Ends v) (λ path e. ok-Ends _))

  similarity_line-Ends : (b : Bool) (v : Text) → Ends (similarity_line b v st)
  unfolding similarity_line
  similarity_line-Ends b v =
      bind-Ends (present (percent v) malformed) _ (present-Ends (percent v))
        (λ p e. check-Ends _ _ (ok-Ends _))

  new_file_mode-Ends : (v : Text) → Ends (new_file_mode v st)
  unfolding new_file_mode
  new_file_mode-Ends v = check-Ends _ _ (ok-Ends _)

  deleted_file_mode-Ends : (v : Text) → Ends (deleted_file_mode v st)
  unfolding deleted_file_mode
  deleted_file_mode-Ends v = check-Ends _ _ (ok-Ends _)

  old_mode_line-Ends : (v : Text) → Ends (old_mode_line v st)
  unfolding old_mode_line
  old_mode_line-Ends v = check-Ends _ _ (ok-Ends _)

  new_mode_line-Ends : (v : Text) → Ends (new_mode_line v st)
  unfolding new_mode_line
  new_mode_line-Ends v = check-Ends _ _ (ok-Ends _)

  index_fact-Ends : (v : Text) → Ends (index_fact v st)
  unfolding index_fact
  index_fact-Ends v =
      bind-Ends (present (index_line v) malformed) _ (present-Ends (index_line v))
        (λ i e. check-Ends _ _ (ok-Ends _))

  binary_fact-Ends : (body old new : Text) → Ends (binary_fact body old new st)
  unfolding binary_fact
  binary_fact-Ends body old new = check-Ends _ _ (
      bind-Ends (parse_binary_paths body old new) _ (parse_binary_paths-Ends body old new)
        (λ paths e. ok-Ends _))

  pub fact_step-Ends : (old new body : Text) → Ends (fact_step old new body st)
  unfolding fact_step
  fact_step-Ends old new body = if-Ends _ _ _ (rename_from-Ends _) (
      if-Ends _ _ _ (rename_to-Ends _) (
        if-Ends _ _ _ (similarity_line-Ends true _) (
          if-Ends _ _ _ (similarity_line-Ends false _) (
            if-Ends _ _ _ (new_file_mode-Ends _) (
              if-Ends _ _ _ (deleted_file_mode-Ends _) (
                if-Ends _ _ _ (old_mode_line-Ends _) (
                  if-Ends _ _ _ (new_mode_line-Ends _) (
                    if-Ends _ _ _ (index_fact-Ends _) (
                      if-Ends _ _ _ (binary_fact-Ends body old new)
                        (if-Ends _ _ _ (ok-Ends st) malformed-Ends))))))))))

  pub marker_step-Ends : (body : Text) (ls : List PhysicalLine) → Ends (marker_step body ls st)
  unfolding marker_step
  marker_step-Ends body ls = check-Ends _ _ (
      bind-Ends (present (plus_line ls) malformed) _ (present-Ends (plus_line ls)) (λ next_body e.
        bind-Ends (parse_marker_path (drop body 4) a_prefix) _
          (parse_marker_path-Ends (drop body 4) a_prefix)
          (λ old g.
            bind-Ends (parse_marker_path (drop next_body 4) b_prefix) _
              (parse_marker_path-Ends (drop next_body 4) b_prefix) (λ new k. ok-Ends _))))
