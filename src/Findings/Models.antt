-- ===== src/Findings/Models.antt =====
-- Candidates and evidence (domain/execution/execution_models.py), and what findings and coverage are
-- made of (domain/findings/models.py). Ids and texts are lists of code points.
use cr_agent.Prelude.{ℕ, Bool, Option, List}
use cr_agent.Prelude.Text.{Text}
use cr_agent.Planning.Models.{PlannedDisposition}

pub data CandidateLocationKind : Type 0 where
  new_line old_line file multi_file : CandidateLocationKind

pub record CandidateLocation : Type 0 where
  pub kind : CandidateLocationKind
  pub file_id : Text
  pub line : Option ℕ
  pub related_file_ids : List Text

pub record EvidenceReference : Type 0 where
  pub evidence_id : Text
  pub evidence_type : Text

pub record CandidateFinding : Type 0 where
  pub candidate_id : Text
  pub task_id : Text
  pub work_unit_id : Text
  pub execution_id : Text
  pub category : Text
  pub location : CandidateLocation
  pub evidence_refs : List Text
  pub suggestion : Text
  pub change_causation : Text

pub data WorkUnitExecutionState : Type 0 where
  pending running succeeded partial failed unknown : WorkUnitExecutionState

pub data CoverageImpact : Type 0 where
  fully_covered degraded not_covered : CoverageImpact

-- Whether the state of an attempt is succeeded, and whether it has a result that says success.
pub record ToolAttempt : Type 0 where
  pub succeeded : Bool
  pub success : Bool

pub record WorkUnitExecutionResult : Type 0 where
  pub execution_id : Text
  pub task_id : Text
  pub work_unit_id : Text
  pub state : WorkUnitExecutionState
  pub error_code : Option Text
  pub coverage_impact : CoverageImpact
  pub tool_attempts : List ToolAttempt
  pub candidates : List CandidateFinding
  pub evidence : List EvidenceReference

pub data Confidence : Type 0 where
  high advisory : Confidence

pub data CoverageState : Type 0 where
  reviewed unreviewed unreviewable unknown : CoverageState

pub record FindingRejection : Type 0 where
  pub candidate_id : Text
  pub reason : Text

-- The texts that a finding takes from its candidate are the candidate.
pub record FinalFinding : Type 0 where
  pub fingerprint : Text
  pub candidate : CandidateFinding
  pub confidence : Confidence
  pub evidence_ids : List Text
  pub source_candidate_ids : List Text

pub record CoverageEntry : Type 0 where
  pub scope_id : Text
  pub state : CoverageState
  pub reason_code : Text

pub record FindingSet : Type 0 where
  pub findings : List FinalFinding
  pub coverage : List CoverageEntry
  pub rejections : List FindingRejection

-- What is read of a scope and a work unit of the plan.
pub record Scope : Type 0 where
  pub scope_id : Text
  pub disposition : PlannedDisposition
  pub reason_code : Option Text

pub record PlannedUnit : Type 0 where
  pub work_unit_id : Text
  pub scope_ids : List Text

-- The ValueError of a contract.
pub data FindingError : Type 0 where
  value_error : FindingError
