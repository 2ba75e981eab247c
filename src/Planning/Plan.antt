-- ===== src/Planning/Plan.antt =====
-- What `plan` returns.
use mathlib.Core.Path.{subst}
use mathlib.Core.List.{Perm}
use cr_agent.Prelude.{not, ◌≡◌, List}
use cr_agent.Prelude.Sorting.{Ascending, sorted-Perm, sorted-Ascending}
use cr_agent.Prelude.Exec.{ok}
use cr_agent.Prelude.Fallible.{refuse, bind-eq-ok}
use cr_agent.Input.Models.{ChangedFile}
use cr_agent.Planning.Models.{value_error, ModelCapacitySummary, ReviewPlan}
use cr_agent.Planning.Planner.{Ids, plan_files, key, ordered_files, plan_valid, review_plan, plan}
use cr_agent.Planning.Covered.{Covers}
use cr_agent.Planning.Parts.{all_lines, plan_files-IsPart}

-- What `plan` returns for the files of a change set, whatever the digests and the capacity. It takes
-- the files in the order of their keys, each once. The execution ranks of its units count up from 0.
-- The units cover exactly the planned scopes, in their order, and the estimate of each is within the
-- capacity. Every line of a file that is not binary is a slice of exactly one unit, but for the lines
-- of those hunks of which every division into blocks has a block whose estimate is above the capacity,
-- each of which has an unreviewable scope; the slices stand in the order of the lines.
pub plan-Covers :
    (ids : Ids) (c : ModelCapacitySummary) (files : List ChangedFile) (p : ReviewPlan)
    → plan ids c files ≡ ok p
    → Perm (ordered_files files) files
      × Ascending key (ordered_files files)
      × Covers ids c 0 (all_lines (ordered_files files)) p.coverage_scopes p.work_units
unfolding plan
plan-Covers ids c files p h =
    let (planned, made, h₁) = bind-eq-ok (plan_files ids c (ordered_files files) 0) _ h in
    let (u, valid, h₂) =
      bind-eq-ok (refuse (not (plan_valid (review_plan planned))) value_error)
        (λ u. ok (review_plan planned)) h₁ in
    let same : review_plan planned ≡ p = cc h₂ in
    let part = plan_files-IsPart ids c (ordered_files files) 0 planned made in
    (
      sorted-Perm key files,
      sorted-Ascending key files,
      subst (λ q. Covers ids c 0 (all_lines (ordered_files files)) q.coverage_scopes q.work_units)
          same part.covers,
    )
