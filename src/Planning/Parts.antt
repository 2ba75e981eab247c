-- ===== src/Planning/Parts.antt =====
-- The parts of a plan, from a unit up to the files of a change set.
use mathlib.Core.Path.{subst}
use cr_agent.Prelude.{
  ℕ, Bool, true, false, ◌≡◌, refl, none, List, [], ◌∷◌, ◌++◌, append-nil, length, All, ltb,
  Bool-cases, inl, inr, if◌then◌else◌, arith, String,
}
use cr_agent.Prelude.Exec.{Result}
use cr_agent.Prelude.Fallible.{Ensures, bind-Ensures, ok-Ensures}
use cr_agent.Input.Models.{Line, Hunk, ChangedFile, no_hunks}
use cr_agent.Planning.Models.{
  PlannedDisposition, planned, unreviewable, no_review_required, WorkUnitKind, PlanError,
  ModelCapacitySummary, planned_ids, is_planned,
}
use cr_agent.Planning.Capacity.{lines_of, estimate_hunks, fits, box_hunks}
use cr_agent.Planning.Packed.{flat, Fitting, none-Fitting, box_from-flat, box_from-Fitting}
use cr_agent.Planning.Covered.{is_unreviewable, IsPart, all_left, nothing-Covers}
use cr_agent.Planning.Planner.{
  Ids, Planned, build_unit, plan_group, plan_groups, plan_whole, no_unit, plan_file, plan_files,
  covered_ids, without_range,
}
use cr_agent.Planning.Pieces.{
  lines_of-append, build_unit-Made, one-IsPart, plan_part-IsPart, nothing-IsPart, two-IsPart,
  plan_hunk-IsPart,
}

-- The lines of a file that are planned.
abbrev pub reviewable : ChangedFile → List Line
reviewable f = if f.is_binary then [] else lines_of f.hunks

abbrev pub all_lines : List ChangedFile → List Line
all_lines [] = []
all_lines (f ∷ fs) = reviewable f ++ all_lines fs

module _ (ids : Ids) (c : ModelCapacitySummary) (f : ChangedFile) where
  plan_group-IsPart :
      (g : List Hunk) (rank : ℕ)
      → Fitting c g
      → Ensures (IsPart ids c rank (lines_of g)) (plan_group ids c f g rank)
  unfolding plan_group
  plan_group-IsPart [] rank h = ok-Ensures (IsPart ids c rank []) _ (nothing-IsPart ids c f rank)
  plan_group-IsPart (x ∷ []) rank h = elim (Bool-cases (fits (estimate_hunks (x ∷ [])) c)) [
    | inl e ↦ rw e (
        plan_part-IsPart ids c f WorkUnitKind.hunk_group "hunk_group" (lines_of (x ∷ []))
          (ids.group_scope_id f.file_id (x ∷ [])) (estimate_hunks (x ∷ [])) rank e)
    | inr e ↦ rw (e, append-nil x.lines) (plan_hunk-IsPart ids c f x rank)
  ]
  plan_group-IsPart (x ∷ y ∷ hs) rank h =
      let several : ltb 1 (length (x ∷ y ∷ hs)) ≡ true = ground arith in
      rw several (
        plan_part-IsPart ids c f WorkUnitKind.hunk_group "hunk_group" (lines_of (x ∷ y ∷ hs))
          (ids.group_scope_id f.file_id (x ∷ y ∷ hs)) (estimate_hunks (x ∷ y ∷ hs)) rank
          (h several))

  plan_groups-IsPart :
      (gs : List (List Hunk)) (rank : ℕ)
      → All (Fitting c) gs
      → Ensures (IsPart ids c rank (lines_of (flat gs))) (plan_groups ids c f gs rank)
  unfolding plan_groups
  plan_groups-IsPart [] rank h = ok-Ensures (IsPart ids c rank []) _ (nothing-IsPart ids c f rank)
  plan_groups-IsPart (g ∷ gs) rank h = rw (lines_of-append g (flat gs)) (
      two-IsPart ids c f rank (lines_of g) (lines_of (flat gs)) (plan_group ids c f g rank)
        (plan_groups ids c f gs) (plan_group-IsPart g rank h.0) (λ r. plan_groups-IsPart gs r h.1))

  plan_whole-IsPart :
      (rank : ℕ)
      → fits (estimate_hunks f.hunks) c ≡ true
      → Ensures (IsPart ids c rank (lines_of f.hunks)) (plan_whole ids c f rank)
  unfolding plan_whole
  plan_whole-IsPart rank h =
      let P = IsPart ids c rank (lines_of f.hunks) in
      let scope_id = ids.file_scope_id f.file_id in
      bind-Ensures P
        (build_unit ids c f WorkUnitKind.file (lines_of f.hunks) scope_id (estimate_hunks f.hunks)
          rank)
        _
        (λ u g.
          let (r, made) =
            build_unit-Made ids c f WorkUnitKind.file (lines_of f.hunks) scope_id
              (estimate_hunks f.hunks) rank u g in
          ok-Ensures P _ (
            one-IsPart ids c f WorkUnitKind.file (lines_of f.hunks) (estimate_hunks f.hunks) rank r
              (without_range f scope_id planned none) u refl made h))

  no_unit-IsPart :
      (d : PlannedDisposition) (reason_code : String) (rank : ℕ)
      → is_planned d ≡ false
      → IsPart ids c rank [] (no_unit ids c f d reason_code rank)
  unfolding covered_ids planned_ids
  no_unit-IsPart d reason_code rank h = record {
    covers = record {
      ranked = tt;
      paired = rw h refl;
      fit = tt;
      skipped = [];
      too_large = tt;
      reported = elim (Bool-cases (is_unreviewable d)) [ inl e ↦ rw e refl | inr e ↦ rw e refl ];
      conserved = all_left [];
    };
    ends = omega arith;
  }

  plan_text-IsPart :
      (rank : ℕ)
      → Ensures (IsPart ids c rank (lines_of f.hunks)) (
          if fits (estimate_hunks f.hunks) c
          then plan_whole ids c f rank
          else plan_groups ids c f (box_hunks c f.hunks) rank)
  plan_text-IsPart rank = elim (Bool-cases (fits (estimate_hunks f.hunks) c)) [
    | inl e ↦ rw e (plan_whole-IsPart rank e)
    | inr e ↦ rw e (
        subst
          (λ hs.
            Ensures (IsPart ids c rank (lines_of hs))
              (plan_groups ids c f (box_hunks c f.hunks) rank))
          (box_from-flat c [] f.hunks)
          (plan_groups-IsPart (box_hunks c f.hunks) rank
            (box_from-Fitting c [] f.hunks (none-Fitting c))))
  ]

  no_hunks-lines_of : (hs : List Hunk) → no_hunks hs ≡ true → [] ≡ lines_of hs
  no_hunks-lines_of [] h = refl
  no_hunks-lines_of (x ∷ hs) h = cc

  -- No lines of a binary file, or those of the hunks.
  by_kind :
      (b : Bool) (rank : ℕ) (ls : List Line) (m n : Result PlanError Planned)
      → Ensures (IsPart ids c rank []) m
      → Ensures (IsPart ids c rank ls) n
      → Ensures (IsPart ids c rank (if b then [] else ls)) (if b then m else n)
  by_kind true rank ls m n h g = h
  by_kind false rank ls m n h g = g

  pub plan_file-IsPart :
      (rank : ℕ) → Ensures (IsPart ids c rank (reviewable f)) (plan_file ids c f rank)
  unfolding plan_file
  plan_file-IsPart rank =
      by_kind f.is_binary rank (lines_of f.hunks) _ _
        (ok-Ensures (IsPart ids c rank []) _
          (no_unit-IsPart unreviewable "binary_content" rank refl))
        (elim (Bool-cases (no_hunks f.hunks)) [
          | inl g ↦ rw g (
              ok-Ensures (IsPart ids c rank (lines_of f.hunks)) _ (
                subst
                  (λ ls.
                    IsPart ids c rank ls
                      (no_unit ids c f no_review_required "no_text_review_object" rank))
                  (no_hunks-lines_of f.hunks g)
                  (no_unit-IsPart no_review_required "no_text_review_object" rank refl)))
          | inr g ↦ rw g (plan_text-IsPart rank)
        ])

module _ (ids : Ids) (c : ModelCapacitySummary) where
  pub plan_files-IsPart :
      (fs : List ChangedFile) (rank : ℕ)
      → Ensures (IsPart ids c rank (all_lines fs)) (plan_files ids c fs rank)
  unfolding plan_files
  plan_files-IsPart [] rank =
      ok-Ensures (IsPart ids c rank []) _
        (record { covers = nothing-Covers ids c rank; ends = omega arith })
  plan_files-IsPart (f ∷ fs) rank =
      two-IsPart ids c f rank (reviewable f) (all_lines fs) (plan_file ids c f rank)
        (plan_files ids c fs) (plan_file-IsPart ids c f rank) (plan_files-IsPart fs)
