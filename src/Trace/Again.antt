-- ===== src/Trace/Again.antt =====
-- A commit that is sent again.
use cr_agent.Prelude.{
  ℕ, String, ◌≡◌, refl, Option, none, some, List, [], ◌∷◌, length, all, Bool-cases, inl, inr, ◌==◌,
  is_some, ◌+◌,
}
use cr_agent.Prelude.Dict.{get, get-put_self}
use cr_agent.Prelude.Exec.{Result, ok, err, Result-cases}
use cr_agent.Trace.Models.{Error, TraceEventDraft, TraceEventEnvelope, TraceMutationIntent}
use cr_agent.Trace.Service.{
  Trace, Action, events_of, envelopes, opened, append, settle, commit_new, commit_after, commit,
  existing, keys_of,
}

-- A result that is returned is on record under the id of the intent.
abbrev Recorded : TraceMutationIntent → Result Error (List TraceEventEnvelope) → Trace → Type 0
Recorded intent (ok r) s = get s.intent_results intent.intent_id ≡ some r
Recorded intent (err e) s = Unit

abbrev Records : TraceMutationIntent → Action (List TraceEventEnvelope) → Type 0
Records intent m = (s : Trace) → Recorded intent (m s).0 (m s).1

module _ (validate : TraceEventDraft → List TraceEventEnvelope → Option Error) (now : ℕ)
    (event_ids key_ids : ℕ → String) (intent : TraceMutationIntent) where
  append-Records : Records intent (append validate now event_ids key_ids intent)
  unfolding append
  append-Records s =
      let old = events_of (opened validate now event_ids key_ids intent s) intent.task_id in
      elim (Result-cases (
        envelopes validate now event_ids key_ids intent.task_id intent.events old
          (length old + 1))) [
            | inr (x, e) ↦ rw e tt
            | inl (es, e) ↦ rw e (get-put_self s.intent_results intent.intent_id es)
          ]

  settle-Records :
      (rs : List (List TraceEventEnvelope))
      → Records intent (settle validate now event_ids key_ids intent rs)
  unfolding settle
  settle-Records [] s = append-Records s
  settle-Records (r ∷ rs) s =
      elim (Bool-cases (length (r ∷ rs) == length (keys_of intent.events))) [
        | inl e ↦ rw e (get-put_self s.intent_results intent.intent_id r)
        | inr e ↦ rw e tt
      ]

  commit_new-Records : Records intent (commit_new validate now event_ids key_ids intent)
  unfolding commit_new
  commit_new-Records s = elim (Bool-cases (all (λ x. is_some x.idempotency_key) intent.events)) [
    | inr a ↦ rw a tt
    | inl a ↦
        elim (Result-cases
          (existing s.idempotency intent.task_id intent.content_digest (keys_of intent.events))) [
            | inr (x, g) ↦ rw a (rw g tt)
            | inl (rs, g) ↦ rw a (rw g (settle-Records rs s))
          ]
  ]

  commit_after-Records :
      (prior : Option (List TraceEventEnvelope)) (s : Trace)
      → get s.intent_results intent.intent_id ≡ prior
      → let m = commit_after validate now event_ids key_ids intent prior s in
        Recorded intent m.0 m.1
  commit_after-Records (some r) s h = h
  commit_after-Records none s h = commit_new-Records s

  commit-Records : Records intent (commit validate now event_ids key_ids intent)
  unfolding commit
  commit-Records s = commit_after-Records (get s.intent_results intent.intent_id) s refl

  recorded-commit :
      (s : Trace) {r : List TraceEventEnvelope}
      → get s.intent_results intent.intent_id ≡ some r
      → commit validate now event_ids key_ids intent s ≡ (ok r, s)
  unfolding commit
  recorded-commit s e = rw e refl

-- When `commit` succeeds, committing the same intent again, at any time and whatever the registry
-- says then, returns the same events and changes nothing.
pub commit_again :
    (validate validate' : TraceEventDraft → List TraceEventEnvelope → Option Error) (now now' : ℕ)
    (event_ids key_ids event_ids' key_ids' : ℕ → String) (intent : TraceMutationIntent) (s : Trace)
    (r : List TraceEventEnvelope)
    → (commit validate now event_ids key_ids intent s).0 ≡ ok r
    → let s' = (commit validate now event_ids key_ids intent s).1 in
      commit validate' now' event_ids' key_ids' intent s' ≡ (ok r, s')
commit_again validate validate' now now' event_ids key_ids event_ids' key_ids' intent s r h =
    recorded-commit validate' now' event_ids' key_ids' intent
      (commit validate now event_ids key_ids intent s).1
      (rw h at (commit-Records validate now event_ids key_ids intent s))
