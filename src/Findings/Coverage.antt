-- ===== src/Findings/Coverage.antt =====
-- The coverage of the scopes by the executions (domain/findings/processor.py).
use cr_agent.Prelude.{not, ◌||◌, Option, none, some, List, [], ◌∷◌, map, keep, last?, if◌then◌else◌}
use cr_agent.Prelude.Exec.{Result, ok}
use cr_agent.Prelude.Fallible.{◌>>◌, refuse}
use cr_agent.Prelude.Text.{Text, codes, text_eq}
use cr_agent.Planning.Models.{
  PlannedDisposition, planned, unreviewable, no_review_required, contains, unique,
}
use cr_agent.Findings.Models.{
  WorkUnitExecutionState, WorkUnitExecutionResult, CoverageImpact, fully_covered, CoverageState,
  CoverageEntry, Scope, PlannedUnit, FindingError, value_error,
}
use cr_agent.Findings.Validation.{Texts, Request, has_any}

abbrev pub or_reason : Option Text → Text → Text
or_reason none reason = reason
or_reason (some []) reason = reason
or_reason (some (c ∷ cs)) reason = c ∷ cs

-- The state and reason of an execution.
unfoldable pub by_execution : Option WorkUnitExecutionResult → CoverageState × Text
by_execution none = (CoverageState.unreviewed, codes "not_completed")
by_execution (some x) = by_state x.state
  where
    by_impact : CoverageImpact → CoverageState × Text
    by_impact fully_covered = (CoverageState.reviewed, codes "execution_succeeded")
    by_impact _ = (CoverageState.unreviewed, or_reason x.error_code (codes "coverage_degraded"))

    by_state : WorkUnitExecutionState → CoverageState × Text
    by_state WorkUnitExecutionState.failed =
        (CoverageState.unreviewed, or_reason x.error_code (codes "not_completed"))
    by_state WorkUnitExecutionState.partial =
        (CoverageState.unreviewed, or_reason x.error_code (codes "not_completed"))
    by_state WorkUnitExecutionState.unknown = (CoverageState.unknown, codes "execution_unknown")
    by_state _ = by_impact x.coverage_impact

-- The values of the dict of executions: an id keeps the place where it came first, and its last
-- value.
unfoldable pub put_execution :
    WorkUnitExecutionResult → List WorkUnitExecutionResult → List WorkUnitExecutionResult
put_execution x [] = x ∷ []
put_execution x (y ∷ ys) =
    let rest = put_execution x ys in
    if text_eq y.execution_id x.execution_id then x ∷ ys else y ∷ rest

unfoldable pub by_id :
    List WorkUnitExecutionResult → List WorkUnitExecutionResult → List WorkUnitExecutionResult
by_id dict [] = dict
by_id dict (x ∷ xs) = by_id (put_execution x dict) xs

-- The scopes of an execution: those of the first work unit with its id.
abbrev pub scope_ids_of : Text → List PlannedUnit → List Text
scope_ids_of i [] = []
scope_ids_of i (u ∷ us) =
    let rest = scope_ids_of i us in if text_eq u.work_unit_id i then u.scope_ids else rest

abbrev pub entry_ids : List CoverageEntry → List Text
entry_ids es = map (λ e. e.scope_id) es

module _ (t : Texts) (r : Request) where
  -- The last execution of a work unit with the scope.
  abbrev pub execution_for : Text → Option WorkUnitExecutionResult
  execution_for scope_id = last? (
      keep (λ x. contains scope_id (scope_ids_of x.work_unit_id r.work_units))
        (by_id [] r.executions))

  unfoldable pub scope_state : Scope → CoverageState × Text
  scope_state s = by_disposition s.disposition
    where
      by_disposition : PlannedDisposition → CoverageState × Text
      by_disposition unreviewable =
          (CoverageState.unreviewable, or_reason s.reason_code (codes "unreviewable"))
      by_disposition no_review_required = (CoverageState.reviewed, codes "no_text_review_object")
      by_disposition planned = by_execution (execution_for s.scope_id)

  abbrev pub entry_of : Scope → CoverageEntry
  entry_of s = record {
    scope_id = s.scope_id;
    state = (scope_state s).0;
    reason_code = (scope_state s).1;
  }

  -- `_coverage`, with the check of `CoverageSnapshot.__post_init__` on its entries.
  unfoldable pub coverage : Result FindingError (List CoverageEntry)
  coverage = do
    refuse (not (has_any r.scopes) || not (unique (entry_ids (map entry_of r.scopes)))) value_error
    ok (map entry_of r.scopes)
