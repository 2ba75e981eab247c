-- ===== src/Trace/Models.antt =====
-- Values of the trace (domain/trace/models.py). Enumerations and the values of a summary are texts,
-- an artifact reference is its id; the digest of an intent is a field, that of a schema is left out.
use cr_agent.Prelude.Int.{ℤ, is_negative}
use cr_agent.Prelude.{ℕ, String, Bool, true, false, not, ◌&&◌, Option, List, [], any, str_eq}
use cr_agent.Prelude.Dict.{Dict}

pub data Error : Type 0 where
  value_error key_error : String → Error

pub record TraceEventDraft : Type 0 where
  pub event_type : String
  pub category : String
  pub fact_kind : String
  pub producer : String
  pub summary : Dict String
  pub event_version : ℕ
  pub correlation_id : Option String
  pub causation_event_id : Option String
  pub work_unit_id : Option String
  pub attempt_id : Option String
  pub model_call_id : Option String
  pub tool_call_id : Option String
  pub checkpoint_id : Option String
  pub payload_ref : Option String
  pub idempotency_key : Option String

pub record TraceEventEnvelope : Type 0 where
  pub event_id : String
  pub task_id : String
  pub sequence : ℕ
  pub event_type : String
  pub event_version : ℕ
  pub category : String
  pub fact_kind : String
  pub occurred_at : ℕ
  pub recorded_at : ℕ
  pub producer : String
  pub correlation_id : String
  pub summary : Dict String
  pub idempotency_key : String
  pub retention_group_id : String
  pub causation_event_id : Option String
  pub work_unit_id : Option String
  pub attempt_id : Option String
  pub model_call_id : Option String
  pub tool_call_id : Option String
  pub checkpoint_id : Option String
  pub payload_ref : Option String

pub record TraceEdge : Type 0 where
  pub edge_id : String
  pub task_id : String
  pub source_type : String
  pub source_id : String
  pub target_type : String
  pub target_id : String
  pub relation : String
  pub created_event_id : String
  pub idempotency_key : String
  pub source_task_id : String
  pub target_task_id : String

pub record TraceLink : Type 0 where
  pub trace_id : String
  pub task_id : String
  pub finding_id : String
  pub link_version : ℕ
  pub direct_evidence_ids : List String
  pub shared_process_ids : List String
  pub validation_event_ids : List String
  pub confidence_event_id : Option String
  pub budget_ledger_version : ℤ
  pub checkpoint_id : String
  pub created_event_id : String

abbrev pub empty_list : {A : Type 0} → List A → Bool
empty_list [] = true
empty_list _ = false

abbrev pub blank : String → Bool
blank x = str_eq x ""

-- The check of `TraceLink.__post_init__`, but for the link version: the service counts it from 1.
abbrev pub link_valid : TraceLink → Bool
link_valid l =
    not (blank l.trace_id)
    && not (blank l.task_id)
    && not (blank l.finding_id)
    && not (empty_list l.direct_evidence_ids)
    && not (any blank l.direct_evidence_ids)
    && not (any blank l.shared_process_ids)
    && not (any blank l.validation_event_ids)
    && not (is_negative l.budget_ledger_version)

pub record TraceMutationIntent : Type 0 where
  pub intent_id : String
  pub task_id : String
  pub events : List TraceEventDraft
  pub content_digest : String

pub record TraceIntegrityResult : Type 0 where
  pub task_id : String
  pub valid : Bool
  pub error_code : Option String
  pub checked_events : ℕ
  pub checked_links : ℕ
