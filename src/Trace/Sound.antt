-- ===== src/Trace/Sound.antt =====
-- The integrity of the trace after any calls.
use cr_agent.Prelude.{
  ℕ, ◌+◌, String, Bool, true, false, not, ◌&&◌, ◌||◌, ◌≡◌, refl, ◌∙◌, ap, Option, none, some, List,
  [], ◌∷◌, ◌++◌, length, any, all, arith, Bool-cases, inl, inr, ◌==◌, str_eq, is_some,
}
use cr_agent.Prelude.Dict.{Dict, get, put, get-put, get-empty}
use cr_agent.Prelude.Exec.{Result-cases}
use cr_agent.Trace.Models.{
  Error, TraceEventDraft, TraceEventEnvelope, TraceEdge, TraceLink, TraceMutationIntent, empty_list,
  link_valid,
}
use cr_agent.Trace.Service.{
  Trace, Action, or_empty, events_of, envelopes, opened, append, settle, commit_new, commit_after,
  commit, existing, keys_of,
}
use cr_agent.Trace.Links.{LinkRequest, made_link, add_edge, create_comment_link, numbered, dangles}
use cr_agent.Trace.Numbered.{numbered-append, envelopes-IsNumbered}

abbrev pub proven : TraceLink → Bool
proven l = not (empty_list l.direct_evidence_ids)

-- The events of every task count from 1, every link has evidence, and there are no edges.
abbrev pub IsSound : Trace → Type 0
IsSound s =
    ((task_id : String) → numbered 1 (events_of s task_id) ≡ true)
    × (all proven s.links ≡ true)
    × (s.edges ≡ [])

-- The action keeps it.
abbrev pub Keeps : {A : Type 0} → Action A → Type 0
Keeps m = (s : Trace) → IsSound s → IsSound (m s).1

put-numbered :
    (d : Dict (List TraceEventEnvelope)) (k : String) (es : List TraceEventEnvelope)
    → ((j : String) → numbered 1 (or_empty (get d j)) ≡ true)
    → numbered 1 es ≡ true
    → (j : String) → numbered 1 (or_empty (get (put d k es) j)) ≡ true
put-numbered d k es h g j = elim (Bool-cases (str_eq k j)) [
  | inl e ↦ rw (get-put d k j es) (rw e g)
  | inr e ↦ rw (get-put d k j es) (rw e (h j))
]

module _ (validate : TraceEventDraft → List TraceEventEnvelope → Option Error) (now : ℕ)
    (event_ids key_ids : ℕ → String) where
  append-Keeps :
      (intent : TraceMutationIntent) → Keeps (append validate now event_ids key_ids intent)
  unfolding append
  append-Keeps intent s h =
      let s' = opened validate now event_ids key_ids intent s in
      let h' =
        put-numbered s.events intent.task_id (events_of s intent.task_id) h.0
          (h.0 intent.task_id) in
      let old = events_of s' intent.task_id in
      let given =
        envelopes-IsNumbered validate now event_ids key_ids intent.task_id intent.events old
          (length old + 1) in
      elim (Result-cases (
        envelopes validate now event_ids key_ids intent.task_id intent.events old
          (length old + 1))) [
            | inr (x, e) ↦ rw e (h', h.1, h.2)
            | inl (es, e) ↦ rw e (
              put-numbered s'.events intent.task_id (old ++ es) h' (
                  numbered-append 1 (length old + 1) old es (h' intent.task_id) refl
                    (rw e at given)),
              h.1,
              h.2,
            )
          ]

  settle-Keeps :
      (intent : TraceMutationIntent) (rs : List (List TraceEventEnvelope))
      → Keeps (settle validate now event_ids key_ids intent rs)
  unfolding settle
  settle-Keeps intent [] s h = append-Keeps intent s h
  settle-Keeps intent (r ∷ rs) s h =
      elim (Bool-cases (length (r ∷ rs) == length (keys_of intent.events))) [
        | inl e ↦ rw e h
        | inr e ↦ rw e h
      ]

  commit_new-Keeps :
      (intent : TraceMutationIntent) → Keeps (commit_new validate now event_ids key_ids intent)
  unfolding commit_new
  commit_new-Keeps intent s h =
      elim (Bool-cases (all (λ x. is_some x.idempotency_key) intent.events)) [
        | inr a ↦ rw a h
        | inl a ↦
            elim (Result-cases (
              existing s.idempotency intent.task_id intent.content_digest
                (keys_of intent.events))) [
                  | inr (x, g) ↦ rw a (rw g h)
                  | inl (rs, g) ↦ rw a (rw g (settle-Keeps intent rs s h))
                ]
      ]

  commit_after-Keeps :
      (intent : TraceMutationIntent) (prior : Option (List TraceEventEnvelope))
      → Keeps (commit_after validate now event_ids key_ids intent prior)
  commit_after-Keeps intent (some r) s h = h
  commit_after-Keeps intent none s h = commit_new-Keeps intent s h

  pub commit-Keeps :
      (intent : TraceMutationIntent) → Keeps (commit validate now event_ids key_ids intent)
  unfolding commit
  commit-Keeps intent s h = commit_after-Keeps intent (get s.intent_results intent.intent_id) s h

all-append :
    (p : TraceLink → Bool) (ls : List TraceLink) (l : TraceLink)
    → all p ls ≡ true
    → p l ≡ true
    → all p (ls ++ (l ∷ [])) ≡ true
all-append p [] l h g = rw g refl
all-append p (x ∷ ls) l h g = elim (Bool-cases (p x)) [
  | inl e ↦ rw e (all-append p ls l (rw e at h) g)
  | inr e ↦ let broken : false ≡ true = (rw e at h) in cc broken
]

valid_proven : (l : TraceLink) → link_valid l ≡ true → proven l ≡ true
valid_proven l h = ground arith

pub create_comment_link-Keeps :
    (trace_id : String) (r : LinkRequest) → Keeps (create_comment_link trace_id r)
unfolding create_comment_link
create_comment_link-Keeps trace_id r s h =
    elim (Bool-cases
      (any (λ l. str_eq l.task_id r.task_id && str_eq l.finding_id r.finding_id) s.links)) [
        | inl e ↦ rw e h
        | inr e ↦ elim (Bool-cases (link_valid (made_link trace_id r))) [
          | inr v ↦ rw e (rw v h)
          | inl v ↦ rw e (
              rw v (
                h.0,
                all-append proven s.links (made_link trace_id r) h.1
                    (valid_proven (made_link trace_id r) v),
                h.2,
              ))
        ]
      ]

-- Nothing creates the list of a task.
pub add_edge-unchanged : (edge : TraceEdge) (s : Trace) → s.edges ≡ [] → (add_edge edge s).1 ≡ s
unfolding add_edge
add_edge-unchanged edge s h =
    let missing : get s.edges edge.task_id ≡ none =
      ap (λ d. get d edge.task_id) h ∙ get-empty edge.task_id in
    elim (Bool-cases (is_some (get s.events edge.task_id))) [
      | inr e ↦ rw e refl
      | inl e ↦
          elim (Bool-cases (
            dangles (events_of s edge.task_id) edge.source_type edge.source_id
            || dangles (events_of s edge.task_id) edge.target_type edge.target_id)) [
              | inl d ↦ rw e (rw d refl)
              | inr d ↦ rw e (rw d (rw missing refl))
            ]
    ]
