-- ===== src/Trace/Service.antt =====
-- `TraceService` (domain/trace/service.py). What `uuid4()` and the clock return are arguments. The
-- schema registry is an argument too: `validate` says what its `validate` raises, if it does.
use cr_agent.Prelude.{
  ℕ, ◌+◌, String, Bool, false, not, ◌&&◌, ◌==◌, Option, none, some, List, [], ◌∷◌, ◌++◌, any, all,
  length, is_some, str_eq, if◌then◌else◌,
}
use cr_agent.Prelude.Dict.{Dict, get, put}
use cr_agent.Prelude.Exec.{Result, ok, err, Exec, pure, gets, raise_if, modify, ◌>>=◌, ◌>>◌}
use cr_agent.Trace.Models.{
  Error, value_error, TraceEventDraft, TraceEventEnvelope, TraceEdge, TraceLink,
  TraceMutationIntent, blank,
}

-- An entry of `_idempotency`.
pub record Memo : Type 0 where
  pub task_id : String
  pub key : String
  pub digest : String
  pub result : List TraceEventEnvelope

-- `links` are the values of `_links`, each of which holds its key; the newest memo is first.
pub record Trace : Type 0 where
  pub events : Dict (List TraceEventEnvelope)
  pub edges : Dict (List TraceEdge)
  pub links : List TraceLink
  pub intent_results : Dict (List TraceEventEnvelope)
  pub idempotency : List Memo

abbrev pub Action : Type 0 → Type 0
Action = Exec Trace Error

abbrev pub lift : {A : Type 0} → Result Error A → Action A
lift (ok a) s = (ok a, s)
lift (err e) s = (err e, s)

-- `TraceService.__init__`
abbrev pub new_trace : Trace
new_trace = record { events = []; edges = []; links = []; intent_results = []; idempotency = [] }

abbrev pub or_empty : {A : Type 0} → Option (List A) → List A
or_empty none = []
or_empty (some xs) = xs

-- `_events.get(task_id, [])`
abbrev pub events_of : Trace → String → List TraceEventEnvelope
events_of s task_id = or_empty (get s.events task_id)

-- `_edges.get(task_id, [])`
abbrev pub edges_of : Trace → String → List TraceEdge
edges_of s task_id = or_empty (get s.edges task_id)

abbrev pub recall : List Memo → String → String → Option Memo
recall [] task_id key = none
recall (m ∷ ms) task_id key =
    if str_eq m.task_id task_id && str_eq m.key key then some m else recall ms task_id key

abbrev pub conflict : Error
conflict = value_error "trace_idempotency_conflict"

-- The keys that are not None.
abbrev pub keys_of : List TraceEventDraft → List String
keys_of [] = []
keys_of (e ∷ es) = elim e.idempotency_key [ none ↦ keys_of es | some k ↦ k ∷ keys_of es ]

-- `existing_results`
unfoldable pub existing :
    List Memo → String → String → List String → Result Error (List (List TraceEventEnvelope))
existing memos task_id digest [] = ok []
existing memos task_id digest (k ∷ ks) =
    let rest = existing memos task_id digest ks in
    elim (recall memos task_id k) [
      | none ↦ rest
      | some m ↦
          if not (str_eq m.digest digest)
          then err conflict
          else elim rest [ err e ↦ err e | ok rs ↦ ok (m.result ∷ rs) ]
    ]

-- `x or default`
abbrev pub text_or : Option String → String → String
text_or none d = d
text_or (some x) d = if blank x then d else x

module _ (validate : TraceEventDraft → List TraceEventEnvelope → Option Error) (now : ℕ)
    (event_ids key_ids : ℕ → String) where
  abbrev pub envelope : String → ℕ → TraceEventDraft → TraceEventEnvelope
  envelope task_id sequence fact = record {
    event_id = event_ids sequence;
    task_id = task_id;
    sequence = sequence;
    event_type = fact.event_type;
    event_version = fact.event_version;
    category = fact.category;
    fact_kind = fact.fact_kind;
    occurred_at = now;
    recorded_at = now;
    producer = fact.producer;
    correlation_id = text_or fact.correlation_id task_id;
    summary = fact.summary;
    idempotency_key = text_or fact.idempotency_key (key_ids sequence);
    retention_group_id = task_id;
    causation_event_id = fact.causation_event_id;
    work_unit_id = fact.work_unit_id;
    attempt_id = fact.attempt_id;
    model_call_id = fact.model_call_id;
    tool_call_id = fact.tool_call_id;
    checkpoint_id = fact.checkpoint_id;
    payload_ref = fact.payload_ref;
  }

  abbrev pub cause_missing : Option String → List TraceEventEnvelope → Bool
  cause_missing none predecessors = false
  cause_missing (some c) predecessors = not (any (λ e. str_eq e.event_id c) predecessors)

  -- What is raised for a fact.
  abbrev pub refused : TraceEventDraft → List TraceEventEnvelope → Option Error
  refused fact predecessors = elim (validate fact predecessors) [
    | some e ↦ some e
    | none ↦
        if cause_missing fact.causation_event_id predecessors
        then some (value_error "trace_causation_missing")
        else none
  ]

  abbrev pub joined :
      Option Error
      → TraceEventEnvelope
      → Result Error (List TraceEventEnvelope)
      → Result Error (List TraceEventEnvelope)
  joined (some x) e rest = err x
  joined none e (err x) = err x
  joined none e (ok es) = ok (e ∷ es)

  -- The loop of `commit`; the number is the next sequence number.
  abbrev pub envelopes :
      String
      → List TraceEventDraft
      → List TraceEventEnvelope
      → ℕ
      → Result Error (List TraceEventEnvelope)
  envelopes task_id [] predecessors n = ok []
  envelopes task_id (fact ∷ facts) predecessors n =
      let e = envelope task_id n fact in
      let rest = envelopes task_id facts (predecessors ++ (e ∷ [])) (n + 1) in
      joined (refused fact predecessors) e rest

  abbrev pub remember :
      TraceMutationIntent → List TraceEventEnvelope → List String → List Memo → List Memo
  remember intent result [] memos = memos
  remember intent result (k ∷ ks) memos =
      let m : Memo = record {
        task_id = intent.task_id;
        key = k;
        digest = intent.content_digest;
        result = result;
      } in
      remember intent result ks (m ∷ memos)

  -- `setdefault`
  abbrev pub opened : TraceMutationIntent → Trace → Trace
  opened intent s = record s { events = put s.events intent.task_id (events_of s intent.task_id) }

  abbrev pub extended : TraceMutationIntent → List TraceEventEnvelope → Trace → Trace
  extended intent result s = record s {
    events = put s.events intent.task_id (events_of s intent.task_id ++ result);
    intent_results = put s.intent_results intent.intent_id result;
    idempotency = remember intent result (keys_of intent.events) s.idempotency;
  }

  -- From `setdefault` on.
  unfoldable pub append : TraceMutationIntent → Action (List TraceEventEnvelope)
  append intent = do
    modify (opened intent)
    old ← gets (λ s. events_of s intent.task_id)
    committed ← lift (envelopes intent.task_id intent.events old (length old + 1))
    modify (extended intent committed)
    pure committed

  -- `if existing_results`
  unfoldable pub settle :
      TraceMutationIntent → List (List TraceEventEnvelope) → Action (List TraceEventEnvelope)
  settle intent [] = append intent
  settle intent (r ∷ rs) = do
    raise_if (not (length (r ∷ rs) == length (keys_of intent.events))) conflict
    modify (λ s. record s { intent_results = put s.intent_results intent.intent_id r })
    pure r

  -- An intent that was not committed before.
  unfoldable pub commit_new : TraceMutationIntent → Action (List TraceEventEnvelope)
  commit_new intent = do
    raise_if (not (all (λ e. is_some e.idempotency_key) intent.events))
        (value_error "trace intent event idempotency is required")
    memos ← gets (λ s. s.idempotency)
    results ← lift (existing memos intent.task_id intent.content_digest (keys_of intent.events))
    settle intent results

  abbrev pub commit_after :
      TraceMutationIntent → Option (List TraceEventEnvelope) → Action (List TraceEventEnvelope)
  commit_after intent (some r) = pure r
  commit_after intent none = commit_new intent

  unfoldable pub commit : TraceMutationIntent → Action (List TraceEventEnvelope)
  commit intent = do
    prior ← gets (λ s. get s.intent_results intent.intent_id)
    commit_after intent prior
