-- ===== src/Trace/Links.antt =====
-- `TraceService` (domain/trace/service.py): edges, comment links and the check of integrity.
use cr_agent.Prelude.Int.{ℤ}
use cr_agent.Prelude.{
  ℕ, ◌+◌, String, Bool, true, false, not, ◌&&◌, ◌||◌, ◌==◌, Option, none, some, List, [], ◌∷◌, ◌++◌,
  any, keep, length, is_some, str_eq, if◌then◌else◌,
}
use cr_agent.Prelude.Dict.{get, put}
use cr_agent.Prelude.Exec.{ok, err, pure, gets, raise_if, modify, ◌>>=◌, ◌>>◌}
use cr_agent.Trace.Models.{
  value_error, key_error, TraceEventEnvelope, TraceEdge, TraceLink, TraceIntegrityResult,
  link_valid, empty_list,
}
use cr_agent.Trace.Service.{Action, Trace, edges_of, events_of}

-- An endpoint that names an event which is not there.
abbrev pub dangles : List TraceEventEnvelope → String → String → Bool
dangles events object_type object_id =
    str_eq object_type "event" && not (any (λ e. str_eq e.event_id object_id) events)

abbrev pub find_edge : String → List TraceEdge → Option TraceEdge
find_edge key [] = none
find_edge key (e ∷ es) = if str_eq e.idempotency_key key then some e else find_edge key es

-- `_edges[task_id]`, which nothing creates.
abbrev pub add_to : TraceEdge → Option (List TraceEdge) → Action TraceEdge
add_to edge none s = (err (key_error edge.task_id), s)
add_to edge (some es) s = elim (find_edge edge.idempotency_key es) [
  | some e ↦ (ok e, s)
  | none ↦ (ok edge, record s { edges = put s.edges edge.task_id (es ++ (edge ∷ [])) })
]

unfoldable pub add_edge : TraceEdge → Action TraceEdge
add_edge edge = do
  s ← gets (λ s. s)
  raise_if (not (is_some (get s.events edge.task_id))) (value_error "trace_causation_missing")
  raise_if
      (dangles (events_of s edge.task_id) edge.source_type edge.source_id
        || dangles (events_of s edge.task_id) edge.target_type edge.target_id)
      (value_error "trace_causation_missing")
  add_to edge (get s.edges edge.task_id)

-- The arguments of `create_comment_link`.
pub record LinkRequest : Type 0 where
  pub task_id : String
  pub finding_id : String
  pub direct_evidence_ids : List String
  pub shared_process_ids : List String
  pub validation_event_ids : List String
  pub checkpoint_id : String
  pub confidence_event_id : Option String
  pub budget_ledger_version : ℤ

abbrev pub made_link : String → LinkRequest → TraceLink
made_link trace_id r = record {
  trace_id = trace_id;
  task_id = r.task_id;
  finding_id = r.finding_id;
  link_version = 1;
  direct_evidence_ids = r.direct_evidence_ids;
  shared_process_ids = r.shared_process_ids;
  validation_event_ids = r.validation_event_ids;
  confidence_event_id = r.confidence_event_id;
  budget_ledger_version = r.budget_ledger_version;
  checkpoint_id = r.checkpoint_id;
  created_event_id = "pending";
}

unfoldable pub create_comment_link : String → LinkRequest → Action TraceLink
create_comment_link trace_id r = do
  links ← gets (λ s. s.links)
  raise_if (any (λ l. str_eq l.task_id r.task_id && str_eq l.finding_id r.finding_id) links)
      (value_error "trace link already exists")
  raise_if (not (link_valid (made_link trace_id r))) (value_error "trace link")
  modify (λ s. record s { links = s.links ++ (made_link trace_id r ∷ []) })
  pure (made_link trace_id r)

-- The sequence numbers count from n.
unfoldable pub numbered : ℕ → List TraceEventEnvelope → Bool
numbered n [] = true
numbered n (e ∷ es) = e.sequence == n && numbered (n + 1) es

abbrev pub broken_edge : String → List TraceEventEnvelope → TraceEdge → Bool
broken_edge task_id events e =
    not (str_eq e.task_id task_id)
    || dangles events e.source_type e.source_id
    || dangles events e.target_type e.target_id

unfoldable pub verify_integrity : String → Trace → TraceIntegrityResult
verify_integrity task_id s =
    let events = events_of s task_id in
    let links = keep (λ l. str_eq l.task_id task_id) s.links in
    let result : Bool → ℕ → TraceIntegrityResult = λ valid n. record {
      task_id = task_id;
      valid = valid;
      error_code = if valid then none else some "trace_integrity_error";
      checked_events = length events;
      checked_links = n;
    } in
    if not (numbered 1 events)
    then result false 0
    else if any (broken_edge task_id events) (edges_of s task_id)
    then result false 0
    else if any (λ l. empty_list l.direct_evidence_ids) links
    then result false (length links)
    else result true (length links)
