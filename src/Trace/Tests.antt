-- ===== src/Trace/Tests.antt =====
-- A run of the trace service, and the theorems at concrete inputs.
use cr_agent.Prelude.Int.{pos}
use cr_agent.Prelude.{ℕ, String, ◌≡◌, refl, true, Option, none, some, List, [], ◌∷◌, map}
use cr_agent.Prelude.Dict.{get, put}
use cr_agent.Prelude.Exec.{ok, err}
use cr_agent.Trace.Models.{
  Error, TraceEventDraft, TraceEventEnvelope, TraceEdge, TraceMutationIntent,
}
use cr_agent.Trace.Service.{new_trace, append, settle, commit_new, commit, existing, events_of}
use cr_agent.Trace.Links.{LinkRequest, add_edge, create_comment_link, verify_integrity}
use cr_agent.Trace.Again.{commit_again}
use cr_agent.Trace.Runs.{Call, commits, adds_edge, links, run, run-verify_integrity, run-add_edge}

abbrev fact : String → TraceEventDraft
fact key = record {
  event_type = "task.created";
  category = "task";
  fact_kind = "fact";
  producer = "p";
  summary = [];
  event_version = 1;
  correlation_id = none;
  causation_event_id = none;
  work_unit_id = none;
  attempt_id = none;
  model_call_id = none;
  tool_call_id = none;
  checkpoint_id = none;
  payload_ref = none;
  idempotency_key = some key;
}

abbrev intent : String → List TraceEventDraft → TraceMutationIntent
intent id facts = record { intent_id = id; task_id = "t"; events = facts; content_digest = id }

abbrev any_fact : TraceEventDraft → List TraceEventEnvelope → Option Error
any_fact f es = none

abbrev edge : TraceEdge
edge = record {
  edge_id = "e";
  task_id = "t";
  source_type = "event";
  source_id = "x";
  target_type = "event";
  target_id = "x";
  relation = "caused_by";
  created_event_id = "x";
  idempotency_key = "k";
  source_task_id = "t";
  target_task_id = "t";
}

abbrev link : LinkRequest
link = record {
  task_id = "t";
  finding_id = "f";
  direct_evidence_ids = "x" ∷ [];
  shared_process_ids = [];
  validation_event_ids = [];
  checkpoint_id = "c";
  confidence_event_id = none;
  budget_ledger_version = pos 0;
}

-- Two intents, the first one twice.
abbrev calls : List Call
calls =
    commits any_fact 5 (λ n. "x") (λ n. "y") (intent "i" (fact "a" ∷ fact "b" ∷ []))
    ∷ commits any_fact 6 (λ n. "x") (λ n. "y") (intent "i" (fact "a" ∷ fact "b" ∷ []))
    ∷ commits any_fact 7 (λ n. "x") (λ n. "y") (intent "j" (fact "c" ∷ []))
    ∷ links "l" link
    ∷ adds_edge edge
    ∷ []

three_events : map (λ e. e.sequence) (events_of (run calls new_trace) "t") ≡ 1 ∷ 2 ∷ 3 ∷ []
unfolding append settle commit_new commit existing add_edge create_comment_link get put
three_events = refl

run-verify_integrity_example : (verify_integrity "t" (run calls new_trace)).valid ≡ true
run-verify_integrity_example = run-verify_integrity calls "t"

run-add_edge_example :
    ((e : Error) × ((add_edge edge (run calls new_trace)).0 ≡ err e))
    × ((add_edge edge (run calls new_trace)).1 ≡ run calls new_trace)
run-add_edge_example = run-add_edge calls edge

abbrev two_facts : TraceMutationIntent
two_facts = intent "i" (fact "a" ∷ fact "b" ∷ [])

abbrev made : String → ℕ → TraceEventEnvelope
made key n = record {
  event_id = "x";
  task_id = "t";
  sequence = n;
  event_type = "task.created";
  event_version = 1;
  category = "task";
  fact_kind = "fact";
  occurred_at = 5;
  recorded_at = 5;
  producer = "p";
  correlation_id = "t";
  summary = [];
  idempotency_key = key;
  retention_group_id = "t";
  causation_event_id = none;
  work_unit_id = none;
  attempt_id = none;
  model_call_id = none;
  tool_call_id = none;
  checkpoint_id = none;
  payload_ref = none;
}

two_made :
    (commit any_fact 5 (λ n. "x") (λ n. "y") two_facts new_trace).0
    ≡ ok (made "a" 1 ∷ made "b" 2 ∷ [])
unfolding append settle commit_new commit existing get put
two_made = refl

commit_again_example :
    let s' = (commit any_fact 5 (λ n. "x") (λ n. "y") two_facts new_trace).1 in
    commit any_fact 9 (λ n. "z") (λ n. "w") two_facts s' ≡ (ok (made "a" 1 ∷ made "b" 2 ∷ []), s')
commit_again_example =
    commit_again any_fact any_fact 5 9 (λ n. "x") (λ n. "y") (λ n. "z") (λ n. "w") two_facts
      new_trace (made "a" 1 ∷ made "b" 2 ∷ []) two_made
