-- ===== src/Task/Models.antt =====
-- Value objects of a task (domain/task/models.py). A time is a number of seconds; it is UTC
-- throughout, so `ensure_utc` changes nothing.
use cr_agent.Prelude.{
  ℕ, ◌+◌, String, Bool, true, false, ◌&&◌, not, Option, none, some, List, ltb, leb, str_eq, is_some,
}

pub data ControlState : Type 0 where
  ready running paused terminated : ControlState

pub data Phase : Type 0 where
  created input_acquired input_normalized planned reviewing consolidating result_finalized : Phase

pub data ResultState : Type 0 where
  pending no_changes complete_no_findings complete_with_findings partial failed unknown :
      ResultState

pub data DeliveryState : Type 0 where
  not_ready pending succeeded failed unknown : DeliveryState

pub data LeasePurpose : Type 0 where
  review_execution stop_convergence report_delivery : LeasePurpose

pub data CheckpointKind : Type 0 where
  input_acquired input_normalized plan_created review_unit_completed : CheckpointKind
  tool_attempt_completed model_attempt_completed unknown_attempt_reconciled : CheckpointKind
  findings_consolidated result_snapshot_created report_generated : CheckpointKind
  report_delivery_completed report_delivery_reconciled : CheckpointKind

-- What the task code raises, by message.
pub data Error : Type 0 where
  task_not_found illegal_state_transition resume_required task_already_running lease_lost : Error
  version_conflict checkpoint_integrity_error fixed_condition_mismatch : Error
  resume_condition_blocked unknown_retry_confirmation_required bad_lease key_error : Error

abbrev pub lease_seconds : ℕ
lease_seconds = 120

-- `timedelta(days=7)`, the recovery window and the retention.
abbrev pub week : ℕ
week = 604800

abbrev pub recovery_deadline : ℕ → ℕ
recovery_deadline now = now + week

pub record TaskSpec : Type 0 where
  pub spec_id : String
  pub input_intent : String
  pub provider_id : String
  pub provider_version : String
  pub model_id : String
  pub provider_origin : String
  pub ruleset_id : String
  pub ruleset_version : String
  pub tools : List String
  pub security_policy_id : String
  pub security_policy_version : ℕ
  pub config_digest : String
  pub credential_alias : String
  pub budget_account_id : String
  pub fixed_conditions_digest : String

pub record InputBinding : Type 0 where
  pub binding_id : String
  pub task_id : String
  pub input_type : String
  pub object_identity : String
  pub base_sha : Option String
  pub head_sha : Option String
  pub content_digest : String
  pub completeness_digest : String
  pub changeset_ref : String
  pub start_sha : Option String

abbrev pub option_eq : Option String → Option String → Bool
option_eq none none = true
option_eq (some a) (some b) = str_eq a b
option_eq _ _ = false

-- `==` of the frozen dataclass.
unfoldable pub binding_eq : InputBinding → InputBinding → Bool
binding_eq a b =
    str_eq a.binding_id b.binding_id
    && str_eq a.task_id b.task_id
    && str_eq a.input_type b.input_type
    && str_eq a.object_identity b.object_identity
    && option_eq a.base_sha b.base_sha
    && option_eq a.head_sha b.head_sha
    && str_eq a.content_digest b.content_digest
    && str_eq a.completeness_digest b.completeness_digest
    && str_eq a.changeset_ref b.changeset_ref
    && option_eq a.start_sha b.start_sha

pub record Checkpoint : Type 0 where
  pub checkpoint_id : String
  pub task_id : String
  pub sequence : ℕ
  pub kind : CheckpointKind
  pub phase : Phase
  pub scope_type : String
  pub scope_id : String
  pub predecessor_id : Option String
  pub budget_ledger_version : ℕ
  pub trace_start_sequence : ℕ
  pub trace_end_sequence : ℕ
  pub created_task_version : ℕ
  pub created_at : ℕ

pub record ExecutionLease : Type 0 where
  pub lease_id : String
  pub owner_id : String
  pub fencing_token : ℕ
  pub purpose : LeasePurpose
  pub acquired_at : ℕ
  pub heartbeat_at : ℕ
  pub expires_at : ℕ
  pub lease_revision : ℕ
  pub released_at : Option ℕ

-- The check of `ExecutionLease.__post_init__`.
abbrev pub lease_valid : ExecutionLease → Bool
lease_valid l =
    not (str_eq l.lease_id "")
    && not (str_eq l.owner_id "")
    && leb 1 l.fencing_token
    && leb 1 l.lease_revision
    && ltb l.acquired_at l.expires_at

-- `is_valid_at`
abbrev pub is_valid_at : ExecutionLease → ℕ → Bool
is_valid_at l now = not (is_some l.released_at) && ltb now l.expires_at

pub record ExecutionPermit : Type 0 where
  pub task_id : String
  pub task_version : ℕ
  pub lease_id : String
  pub owner_id : String
  pub fencing_token : ℕ

pub record ResultSnapshot : Type 0 where
  pub snapshot_id : String
  pub task_id : String
  pub snapshot_version : ℕ
  pub result_state : ResultState
  pub checkpoint_id : String
  pub content_digest : String
  pub created_at : ℕ

pub record Task : Type 0 where
  pub task_id : String
  pub spec : TaskSpec
  pub control_state : ControlState
  pub phase : Phase
  pub result_state : ResultState
  pub delivery_state : DeliveryState
  pub version : ℕ
  pub lease : Option ExecutionLease
  pub input_binding : Option InputBinding
  pub latest_checkpoint_id : Option String
  pub latest_result_snapshot_id : Option String
  pub latest_delivery_attempt_id : Option String
  pub pause_reason : Option String
  pub terminal_reason : Option String
  pub created_at : ℕ
  pub updated_at : ℕ
  pub last_checkpoint_at : Option ℕ
  pub recovery_expires_at : Option ℕ
  pub retention_expires_at : Option ℕ
