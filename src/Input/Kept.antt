-- ===== src/Input/Kept.antt =====
-- The lines of the extended header and the hunks of a file.
use cr_agent.Prelude.{Bool, true, false, not, ◌||◌, ◌≡◌, refl, is_some, if◌then◌else◌}
use cr_agent.Prelude.Exec.{Result, ok}
use cr_agent.Prelude.Fallible.{
  ◌>>=◌, Ensures, bind-Ensures, if-Ensures, ok-Ensures, err-Ensures, refuse, present,
}
use cr_agent.Prelude.Text.{Text}
use cr_agent.Input.Models.{DiffError, malformed}
use cr_agent.Input.Paths.{parse_binary_paths}
use cr_agent.Input.Facts.{
  FileState, fact_step, rename_from, rename_to, similarity_line, new_file_mode, deleted_file_mode,
  old_mode_line, new_mode_line, index_fact, binary_fact, rename_path, percent, is_mode, index_line,
}

-- The lines of the extended header leave the hunks alone.
abbrev pub Keeps : FileState → FileState → Type 0
Keeps st st' = st'.hunks ≡ st.hunks

module _ (st : FileState) where
  -- A chain of checks in front of an update.
  after :
      {A : Type 0} (m : Result DiffError A) (f : A → Result DiffError FileState)
      → ((a : A) → Ensures (Keeps st) (f a))
      → Ensures (Keeps st) (m >>= f)
  after m f k = bind-Ensures (Keeps st) m f (λ a e. k a)

  kept : (st' : FileState) → st'.hunks ≡ st.hunks → Ensures {E = DiffError} (Keeps st) (ok st')
  kept st' h = ok-Ensures (Keeps st) st' h

  rename_from-Keeps : (v : Text) → Ensures (Keeps st) (rename_from v st)
  unfolding rename_from
  rename_from-Keeps v =
      after (refuse (is_some st.rename_old) malformed) _
        (λ u. after (rename_path v) _ (λ path. kept _ refl))

  rename_to-Keeps : (v : Text) → Ensures (Keeps st) (rename_to v st)
  unfolding rename_to
  rename_to-Keeps v =
      after (refuse (is_some st.rename_new) malformed) _
        (λ u. after (rename_path v) _ (λ path. kept _ refl))

  similarity_line-Keeps : (b : Bool) (v : Text) → Ensures (Keeps st) (similarity_line b v st)
  unfolding similarity_line
  similarity_line-Keeps b v =
      after (present (percent v) malformed) _
        (λ p. after (refuse (is_some st.similarity) malformed) _ (λ u. kept _ refl))

  new_file_mode-Keeps : (v : Text) → Ensures (Keeps st) (new_file_mode v st)
  unfolding new_file_mode
  new_file_mode-Keeps v =
      after (refuse (st.new_file || not (is_mode v)) malformed) _ (λ u. kept _ refl)

  deleted_file_mode-Keeps : (v : Text) → Ensures (Keeps st) (deleted_file_mode v st)
  unfolding deleted_file_mode
  deleted_file_mode-Keeps v =
      after (refuse (st.deleted_file || not (is_mode v)) malformed) _ (λ u. kept _ refl)

  old_mode_line-Keeps : (v : Text) → Ensures (Keeps st) (old_mode_line v st)
  unfolding old_mode_line
  old_mode_line-Keeps v =
      after (refuse (is_some st.old_mode || not (is_mode v)) malformed) _ (λ u. kept _ refl)

  new_mode_line-Keeps : (v : Text) → Ensures (Keeps st) (new_mode_line v st)
  unfolding new_mode_line
  new_mode_line-Keeps v =
      after (refuse (is_some st.new_mode || not (is_mode v)) malformed) _ (λ u. kept _ refl)

  index_fact-Keeps : (v : Text) → Ensures (Keeps st) (index_fact v st)
  unfolding index_fact
  index_fact-Keeps v =
      after (present (index_line v) malformed) _
        (λ i. after (refuse (is_some st.index_metadata) malformed) _ (λ u. kept _ refl))

  binary_fact-Keeps : (body old new : Text) → Ensures (Keeps st) (binary_fact body old new st)
  unfolding binary_fact
  binary_fact-Keeps body old new =
      after (refuse (is_some st.binary_paths) malformed) _
        (λ u. after (parse_binary_paths body old new) _ (λ paths. kept _ refl))

  branch :
      (c : Bool) (r s : Result DiffError FileState)
      → Ensures (Keeps st) r
      → Ensures (Keeps st) s
      → Ensures (Keeps st) (if c then r else s)
  branch c r s = if-Ensures (Keeps st) c r s

  pub fact_step-Keeps : (old new body : Text) → Ensures (Keeps st) (fact_step old new body st)
  unfolding fact_step
  fact_step-Keeps old new body = branch _ _ _ (rename_from-Keeps _) (
      branch _ _ _ (rename_to-Keeps _) (
        branch _ _ _ (similarity_line-Keeps true _) (
          branch _ _ _ (similarity_line-Keeps false _) (
            branch _ _ _ (new_file_mode-Keeps _) (
              branch _ _ _ (deleted_file_mode-Keeps _) (
                branch _ _ _ (old_mode_line-Keeps _) (
                  branch _ _ _ (new_mode_line-Keeps _) (
                    branch _ _ _ (index_fact-Keeps _) (
                      branch _ _ _ (binary_fact-Keeps body old new)
                        (branch _ _ _ (kept st refl) (err-Ensures (Keeps st) malformed)))))))))))
