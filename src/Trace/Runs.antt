-- ===== src/Trace/Runs.antt =====
-- Sequences of calls of `TraceService`.
use cr_agent.Prelude.{
  ℕ, String, true, false, ◌||◌, ◌≡◌, refl, ◌∙◌, ap, Option, none, List, [], ◌∷◌, any, all, keep,
  Bool-cases, inl, inr, str_eq, is_some,
}
use cr_agent.Prelude.Dict.{get, get-empty}
use cr_agent.Prelude.Exec.{err}
use cr_agent.Trace.Models.{
  Error, value_error, key_error, TraceEventDraft, TraceEventEnvelope, TraceEdge, TraceLink,
  TraceMutationIntent, empty_list,
}
use cr_agent.Trace.Service.{Trace, new_trace, commit, events_of}
use cr_agent.Trace.Links.{
  LinkRequest, add_edge, create_comment_link, numbered, verify_integrity, dangles,
}
use cr_agent.Trace.Sound.{
  IsSound, proven, commit-Keeps, create_comment_link-Keeps, add_edge-unchanged,
}

-- A call with the reading of the clock, the drawn ids and the answers of the registry.
pub data Call : Type 0 where
  commits :
      (TraceEventDraft → List TraceEventEnvelope → Option Error)
      → ℕ
      → (ℕ → String)
      → (ℕ → String)
      → TraceMutationIntent
      → Call
  adds_edge : TraceEdge → Call
  links : String → LinkRequest → Call

abbrev pub after : Call → Trace → Trace
after (commits validate now event_ids key_ids intent) s =
    (commit validate now event_ids key_ids intent s).1
after (adds_edge edge) s = (add_edge edge s).1
after (links trace_id r) s = (create_comment_link trace_id r s).1

abbrev pub run : List Call → Trace → Trace
run [] s = s
run (c ∷ cs) s = run cs (after c s)

after-IsSound : (c : Call) (s : Trace) → IsSound s → IsSound (after c s)
after-IsSound (commits validate now event_ids key_ids intent) s h =
    commit-Keeps validate now event_ids key_ids intent s h
after-IsSound (adds_edge edge) s h = rw (add_edge-unchanged edge s h.2) h
after-IsSound (links trace_id r) s h = create_comment_link-Keeps trace_id r s h

run-IsSound : (cs : List Call) (s : Trace) → IsSound s → IsSound (run cs s)
run-IsSound [] s h = h
run-IsSound (c ∷ cs) s h = run-IsSound cs (after c s) (after-IsSound c s h)

new-IsSound : IsSound new_trace
unfolding numbered get
new-IsSound = ((λ task_id. refl), refl, refl)

no_bare_link :
    (task_id : String) (ls : List TraceLink)
    → all proven ls ≡ true
    → any (λ l. empty_list l.direct_evidence_ids) (keep (λ l. str_eq l.task_id task_id) ls) ≡ false
no_bare_link task_id [] h = refl
no_bare_link task_id (l ∷ ls) h = elim (Bool-cases (empty_list l.direct_evidence_ids)) [
  | inl e ↦ let broken : false ≡ true = (rw e at h) in cc broken
  | inr e ↦ elim (Bool-cases (str_eq l.task_id task_id)) [
    | inl q ↦ rw q (rw e (no_bare_link task_id ls (rw e at h)))
    | inr q ↦ rw q (no_bare_link task_id ls (rw e at h))
  ]
]

sound-verify_integrity :
    (s : Trace) (task_id : String) → IsSound s → (verify_integrity task_id s).valid ≡ true
unfolding verify_integrity
sound-verify_integrity s task_id h =
    let events : numbered 1 (events_of s task_id) ≡ true = h.0 task_id in
    let unlinked : get s.edges task_id ≡ none = ap (λ d. get d task_id) h.2 ∙ get-empty task_id in
    rw events (rw unlinked (rw (no_bare_link task_id s.links h.1) refl))

sound-add_edge :
    (s : Trace) (edge : TraceEdge) → s.edges ≡ [] → (e : Error) × ((add_edge edge s).0 ≡ err e)
unfolding add_edge
sound-add_edge s edge h =
    let missing : get s.edges edge.task_id ≡ none =
      ap (λ d. get d edge.task_id) h ∙ get-empty edge.task_id in
    elim (Bool-cases (is_some (get s.events edge.task_id))) [
      | inr e ↦ (value_error "trace_causation_missing", rw e refl)
      | inl e ↦
          elim (Bool-cases (
            dangles (events_of s edge.task_id) edge.source_type edge.source_id
            || dangles (events_of s edge.task_id) edge.target_type edge.target_id)) [
              | inl d ↦ (value_error "trace_causation_missing", rw e (rw d refl))
              | inr d ↦ (key_error edge.task_id, rw e (rw d (rw missing refl)))
            ]
    ]

-- After any calls on a new service, `verify_integrity` finds every task valid: its events are
-- numbered from 1 without a gap, no edge is broken and no comment link lacks evidence.
pub run-verify_integrity :
    (cs : List Call) (task_id : String) → (verify_integrity task_id (run cs new_trace)).valid ≡ true
run-verify_integrity cs task_id =
    sound-verify_integrity (run cs new_trace) task_id (run-IsSound cs new_trace new-IsSound)

-- After any calls on a new service, `add_edge` raises for every edge, and changes nothing.
pub run-add_edge :
    (cs : List Call) (edge : TraceEdge)
    → let s = run cs new_trace in
      ((e : Error) × ((add_edge edge s).0 ≡ err e)) × ((add_edge edge s).1 ≡ s)
run-add_edge cs edge =
    let h = (run-IsSound cs new_trace new-IsSound).2 in
    (sound-add_edge (run cs new_trace) edge h, add_edge-unchanged edge (run cs new_trace) h)
