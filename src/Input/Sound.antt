-- ===== src/Input/Sound.antt =====
-- What `_parse_file` returns.
use cr_agent.Prelude.{
  ℕ, zero, suc, ◌-◌, ◌≤◌, true, not, ◌≡◌, refl, Option, none, List, [], ◌∷◌, length, All,
  All-append, all, Bool-cases, inl, inr, arith,
}
use cr_agent.Prelude.Exec.{ok}
use cr_agent.Prelude.Fallible.{
  ◌>>=◌, ◌>>◌, refuse, present, Ensures, bind-Ensures, if-Ensures, ok-Ensures, err-Ensures,
}
use cr_agent.Prelude.Text.{Text, drop}
use cr_agent.Input.Models.{
  DiffError, malformed, value_error, exhausted, ChangeType, Hunk, ChangedFile, hunk_valid,
  line_valid, file_valid,
}
use cr_agent.Input.Lines.{PhysicalLine}
use cr_agent.Input.Hunks.{ParsedHunk, parse_hunk}
use cr_agent.Input.Loop.{parse_hunk-IsRead, IsRead-valid}
use cr_agent.Input.Offsets.{Lies}
use cr_agent.Input.Slices.{Sliced, DraftsSliced, Took-DraftsSliced}
use cr_agent.Input.Headers.{header_path_hints, plus_line}
use cr_agent.Input.Paths.{parse_diff_header, parse_marker_path, a_prefix, b_prefix}
use cr_agent.Input.Facts.{FileState, fact_step}
use cr_agent.Input.Kept.{fact_step-Keeps}
use cr_agent.Input.Checks.{Paths, check_file}
use cr_agent.Input.Files.{
  initial_state, tail, marker_step, add_hunk, materialize_hunk, materialize, hunk_turn, file_turn,
  file_loop, parse_file, changed_file,
}

-- A hunk within its contract, all of whose lines are slices of the content.
pub record IsFaithful (content : Text) (h : Hunk) : Type 0 where
  pub valid : hunk_valid h ≡ true
  pub lines_valid : all line_valid h.lines ≡ true
  pub sliced : All (Sliced content) h.lines

module _ (content : Text) (digit : ℕ → Option ℕ) where
  parse_hunk-IsFaithful :
      (max_changed remaining : ℕ) (header : Text) (lines : List PhysicalLine) (p : ParsedHunk)
      → All (Lies content) lines
      → parse_hunk digit max_changed remaining header lines ≡ ok p
      → IsFaithful content p.hunk × All (Lies content) p.rest × (length p.rest ≤ length lines)
  parse_hunk-IsFaithful max_changed remaining header lines p q h =
      let r =
        parse_hunk-IsRead digit (Lies content) (DraftsSliced content) max_changed remaining header
          lines p (λ r. tt) (Took-DraftsSliced content) q h in
      let (valid, lines_valid, counted, within) =
        IsRead-valid (Lies content) (DraftsSliced content) remaining lines p r in
      (
        record { valid = valid; lines_valid = lines_valid; sliced = rw r.drafts_are r.kept },
        r.rest_kept,
        r.rest_shorter,
      )

-- What the loop of a file keeps, with `st` and `lines` at hand.
pub record IsGood (content : Text) (st : FileState) (lines : List PhysicalLine) : Type 0 where
  pub faithful : All (IsFaithful content) st.hunks
  pub lie : All (Lies content) lines

module _ (content : Text) (digit : ℕ → Option ℕ) (file_id : ChangeType → Paths → Text)
    (max_changed remaining : ℕ) (header_old header_new : Text) where
  -- The state and lines behind a turn are good, and no longer.
  abbrev Good : List PhysicalLine → FileState × List PhysicalLine → Type 0
  Good lines next = IsGood content next.0 next.1 × (length next.1 ≤ length lines)

  hunk_turn-Good :
      (body : Text) (ls : List PhysicalLine) (st : FileState)
      → IsGood content st ls
      → Ensures (Good ls) (hunk_turn digit file_id max_changed remaining body ls st)
  unfolding hunk_turn
  hunk_turn-Good body ls st g =
      bind-Ensures (Good ls)
        (parse_hunk digit max_changed (remaining - st.parsed_changed_lines) body ls) _
        (λ p e.
          let (f, lie, shorter) =
            parse_hunk-IsFaithful content digit max_changed (remaining - st.parsed_changed_lines)
              body ls p g.lie e in
          ok-Ensures (Good ls) (add_hunk st p, p.rest)
            (
              record {
                faithful =
                    All-append (IsFaithful content) st.hunks (p.hunk ∷ []) g.faithful (f, tt);
                lie = lie;
              },
              shorter,
            ))

  tail-Good :
      (ls : List PhysicalLine)
      → All (Lies content) ls
      → All (Lies content) (tail ls) × (length (tail ls) ≤ length ls)
  tail-Good [] h = (tt, omega arith)
  tail-Good (l ∷ ls) h = (h.1, omega arith)

  marker_step-Good :
      (body : Text) (ls : List PhysicalLine) (st : FileState)
      → IsGood content st ls
      → Ensures (Good ls) (marker_step body ls st)
  unfolding marker_step
  marker_step-Good body ls st g =
      let (lie, shorter) = tail-Good ls g.lie in
      bind-Ensures (Good ls) (refuse st.has_markers malformed) _ (λ u e.
        bind-Ensures (Good ls) (present (plus_line ls) malformed) _ (λ next_body e.
          bind-Ensures (Good ls) (parse_marker_path (drop body 4) a_prefix) _ (λ old e.
            bind-Ensures (Good ls) (parse_marker_path (drop next_body 4) b_prefix) _ (λ new e.
              ok-Ensures (Good ls) _ (record { faithful = g.faithful; lie = lie }, shorter)))))

  fact_turn-Good :
      (body : Text) (ls : List PhysicalLine) (st : FileState)
      → IsGood content st ls
      → Ensures (Good ls) (fact_step header_old header_new body st >>= λ st'. ok (st', ls))
  fact_turn-Good body ls st g =
      bind-Ensures (Good ls) (fact_step header_old header_new body st) (λ st'. ok (st', ls))
        (λ st' e.
          let same : st'.hunks ≡ st.hunks = fact_step-Keeps st header_old header_new body st' e in
          ok-Ensures (Good ls) (st', ls)
            (record { faithful = rw same g.faithful; lie = g.lie }, omega arith))

  pub file_turn-Good :
      (body : Text) (ls : List PhysicalLine) (st : FileState)
      → IsGood content st ls
      → Ensures
          (Good ls)
          (file_turn digit file_id max_changed remaining header_old header_new body ls st)
  unfolding file_turn
  file_turn-Good body ls st g =
      if-Ensures (Good ls) _ _ _ (hunk_turn-Good body ls st g)
        (if-Ensures (Good ls) _ _ _ (marker_step-Good body ls st g) (fact_turn-Good body ls st g))

  file_loop-Good :
      (fuel : ℕ) (ls : List PhysicalLine) (st : FileState)
      → IsGood content st ls
      → Ensures
          (λ st'. All (IsFaithful content) st'.hunks)
          (file_loop digit file_id max_changed fuel remaining header_old header_new ls st)
  unfolding file_loop
  file_loop-Good fuel [] st g = ok-Ensures (λ st'. All (IsFaithful content) st'.hunks) st g.faithful
  file_loop-Good zero (l ∷ ls) st g =
      err-Ensures (λ st'. All (IsFaithful content) st'.hunks) exhausted
  file_loop-Good (suc fuel) (l ∷ ls) st g =
      bind-Ensures (λ st'. All (IsFaithful content) st'.hunks)
        (file_turn digit file_id max_changed remaining header_old header_new l.body ls st)
        (λ next.
          file_loop digit file_id max_changed fuel remaining header_old header_new next.1 next.0)
        (λ next e.
          file_loop-Good fuel next.1 next.0
            (file_turn-Good l.body ls st (record { faithful = g.faithful; lie = g.lie.1 }) next
              e).0)

-- What is materialised is what was read, and each hunk and line passes its checks.
module _ (content : Text) where
  materialize_hunk-ok : (h : Hunk) → IsFaithful content h → materialize_hunk h ≡ ok h
  unfolding materialize_hunk
  materialize_hunk-ok h f = rw (f.lines_valid, f.valid) refl

  materialize-ok : (hs : List Hunk) → All (IsFaithful content) hs → materialize hs ≡ ok hs
  unfolding materialize
  materialize-ok [] f = refl
  materialize-ok (h ∷ hs) f = rw (materialize_hunk-ok h f.0, materialize-ok hs f.1) refl

-- A file within its contract, all of whose hunks are.
pub record IsSound (content : Text) (f : ChangedFile) : Type 0 where
  pub valid : file_valid f ≡ true
  pub faithful : All (IsFaithful content) f.hunks

module _ (content : Text) where
  closed :
      (f : ChangedFile)
      → All (IsFaithful content) f.hunks
      → Ensures {E = DiffError} (IsSound content) (refuse (not (file_valid f)) value_error >> ok f)
  closed f good = elim (Bool-cases (file_valid f)) [
    | inl e ↦ rw e (ok-Ensures (IsSound content) f (record { valid = e; faithful = good }))
    | inr e ↦ rw e (err-Ensures (IsSound content) value_error)
  ]

module _ (content : Text) (digit : ℕ → Option ℕ) (file_id : ChangeType → Paths → Text)
    (max_changed : ℕ) where
  pub parse_file-IsSound :
      (remaining : ℕ) (header : Text) (ls : List PhysicalLine)
      → All (Lies content) ls
      → Ensures (IsSound content) (parse_file digit file_id max_changed remaining header ls)
  unfolding parse_file
  parse_file-IsSound remaining header ls lie =
      bind-Ensures (IsSound content) (header_path_hints ls none none) _ (λ hints e.
        bind-Ensures (IsSound content) (parse_diff_header header hints) _ (λ headers e.
          bind-Ensures (IsSound content)
            (file_loop digit file_id max_changed (length ls) remaining headers.0 headers.1 ls
              (initial_state headers.0 headers.1))
            _
            (λ st looped.
              bind-Ensures (IsSound content) (check_file st headers.0 headers.1) _ (λ paths e.
                made st paths (
                  file_loop-Good content digit file_id max_changed remaining headers.0 headers.1
                    (length ls) ls (initial_state headers.0 headers.1)
                    (record { faithful = tt; lie = lie }) st looped)))))
    where
      made :
          (st : FileState) (paths : Paths)
          → All (IsFaithful content) st.hunks
          → Ensures (IsSound content) (
              materialize st.hunks >>= λ hunks.
              refuse
                (not (file_valid (changed_file digit file_id max_changed st paths hunks)))
                value_error
              >> ok (changed_file digit file_id max_changed st paths hunks))
      made st paths f =
          rw (materialize-ok content st.hunks f)
            (closed content (changed_file digit file_id max_changed st paths st.hunks) f)
