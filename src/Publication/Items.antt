-- ===== src/Publication/Items.antt =====
-- The helpers of `PublicationService` and the turn of its loop for one item
-- (application/publication_service.py). The events of the trace are asked of the world by their type,
-- their contents left out.
use cr_agent.Prelude.{
  ℕ, ◌+◌, ◌-◌, String, Bool, false, not, ◌&&◌, none, some, Option, List, [], ◌∷◌, leb, str_eq,
  if◌then◌else◌,
}
use cr_agent.Prelude.Dict.{Dict, get, put}
use cr_agent.Prelude.Exec.{Result, ok, err, pure, raise_if, ◌>>=◌, ◌>>◌}
use cr_agent.Publication.Models.{
  ItemState, PublicationItem, PublicationPlan, PublicationResult, PublicationTarget,
  PublicationError, RemoteComment, ItemResult, is_line, is_succeeded, is_unknown,
}
use cr_agent.Publication.State.{Error, World, Action, ask, note, raised, value_error, publication}
use cr_agent.Publication.Store.{
  Outcome, publication_result, update_publication_item, renew_publication_lease,
}
use Prim.Native.String.{◌++◌ as join, len}
use text.Mathlib.Text.{get?}

-- `_visible_body`: the body without the suffix that ends in the marker.
unfoldable pub visible_body : String → String → Result Error String
visible_body body marker =
    let suffix = join "\n\n" marker in
    let cut = len body - len suffix in
    let tail = get? body cut (len body) in
    let ends =
      leb (len suffix) (len body) && elim tail [ none ↦ false | some t ↦ str_eq t suffix ] in
    if ends
    then elim (get? body 0 cut) [
      | none ↦ err (value_error "persistence_integrity_failed")
      | some visible ↦ ok visible
    ]
    else err (value_error "persistence_integrity_failed")

abbrev pub lift : {A : Type 0} → Result Error A → Action A
lift (ok a) s = (ok a, s)
lift (err e) s = (err e, s)

-- The items that did not succeed yet, by their key.
abbrev pub remaining_from : Dict ItemResult → List ItemResult → Dict ItemResult
remaining_from d [] = d
remaining_from d (i ∷ is) =
    let d' = if is_succeeded i.state then d else put d i.publication_key i in remaining_from d' is

unfoldable pub remaining_of : List ItemResult → Dict ItemResult
remaining_of items = remaining_from [] items

abbrev pub lease_held : Error
lease_held = publication (record { code = "publication_lease_held"; outcome_unknown = false })

module _ (world : World) where
  -- `_trace`
  unfoldable pub trace : String → Action Unit
  trace event_type = do raised (← ask (λ n. world.append_trace_event n event_type))

  -- `_trace_item`
  unfoldable pub trace_item : ItemState → Action Unit
  trace_item ItemState.pending = trace "publication.item_pending"
  trace_item ItemState.succeeded = trace "publication.item_succeeded"
  trace_item ItemState.failed = trace "publication.item_failed"
  trace_item ItemState.unknown = trace "publication.item_unknown"

  module _ (operation_id : String) (fencing_token : ℕ) where
    -- `_renew`
    unfoldable pub renew : Action Unit
    renew = do
      held ← renew_publication_lease world operation_id fencing_token 600
      raise_if (not held) lease_held

    -- One `update_publication_item` of the service.
    abbrev pub record_outcome : String → Outcome → ItemResult → Action Unit
    record_outcome key o prior =
        update_publication_item world key o operation_id fencing_token prior.version

    abbrev pub success : RemoteComment → Outcome
    success remote = record {
      state = ItemState.succeeded;
      remote_id = some remote.remote_id;
      remote_url = some remote.url;
      error_code = none;
    }

    abbrev pub failure : Bool → String → Outcome
    failure outcome_unknown code = record {
      state = if outcome_unknown then ItemState.unknown else ItemState.failed;
      remote_id = none;
      remote_url = none;
      error_code = some code;
    }

    abbrev pub fail_item : String → Bool → Bool → String → Option ItemResult → Action Unit
    fail_item code outcome_unknown preserve key none = pure tt
    fail_item code outcome_unknown preserve key (some prior) =
        if preserve && is_unknown prior.state
        then pure tt
        else record_outcome key (failure outcome_unknown code) prior

    -- The loop of `_fail_remaining`.
    abbrev pub fail_items :
        String → Bool → Bool → Dict ItemResult → List PublicationItem → Action Unit
    fail_items code outcome_unknown preserve remaining [] = pure tt
    fail_items code outcome_unknown preserve remaining (i ∷ is) = do
      fail_item code outcome_unknown preserve i.publication_key (get remaining i.publication_key)
      fail_items code outcome_unknown preserve remaining is

    -- `_fail_remaining`
    unfoldable pub fail_remaining :
        PublicationPlan → Dict ItemResult → PublicationError → Bool → Action PublicationResult
    fail_remaining plan remaining e preserve = do
      fail_items e.code e.outcome_unknown preserve remaining plan.items
      publication_result

    -- `_finish`
    unfoldable pub finish : PublicationResult → ℕ → ℕ → Action PublicationResult
    finish result created skipped = do
      trace "publication.completed"
      pure (record result { published = created; skipped = skipped })

    -- The request of the remote comment.
    unfoldable pub create :
        PublicationTarget → PublicationItem → Action (Result PublicationError RemoteComment)
    create target i = do
      note i
      ask (λ n.
          if is_line i.kind
          then world.create_line_comment n target i
          else world.create_summary_comment n target i)

    -- After the request: what is recorded, and what is added to `created`.
    unfoldable pub conclude : String → ItemResult → Result PublicationError RemoteComment → Action ℕ
    conclude key prior (ok remote) = do
      record_outcome key (success remote) prior
      trace_item ItemState.succeeded
      pure 1
    conclude key prior (err e) = do
      record_outcome key (failure e.outcome_unknown e.code) prior
      trace_item (if e.outcome_unknown then ItemState.unknown else ItemState.failed)
      pure 0

    -- `scanned is not None and scanned != visible`, where the scan that raises counts as "".
    abbrev pub rejects : String → Option (Option String) → Bool
    rejects visible none = not (str_eq "" visible)
    rejects visible (some none) = false
    rejects visible (some (some scanned)) = not (str_eq scanned visible)

    unfoldable pub reject : String → ItemResult → Action ℕ
    reject key prior = do
      record_outcome key (failure false "publication_content_rejected") prior
      trace_item ItemState.failed
      pure 0

    unfoldable pub create_new : PublicationTarget → PublicationItem → ItemResult → Action ℕ
    create_new target i prior = do answer ← create target i; conclude i.publication_key prior answer

    -- An item whose marker was not found.
    unfoldable pub publish_new : PublicationTarget → PublicationItem → ItemResult → Action ℕ
    publish_new target i prior = do
      renew
      visible ← lift (visible_body i.body i.marker)
      scanned ← ask (λ n. world.scan n visible)
      if rejects visible scanned then reject i.publication_key prior else create_new target i prior

    -- An item whose marker was found.
    unfoldable pub publish_found : PublicationItem → ItemResult → RemoteComment → Action Unit
    publish_found i prior remote = do
      record_outcome i.publication_key (success remote) prior
      trace_item ItemState.succeeded

    -- One turn of the loop, on `(created, skipped)`.
    abbrev pub publish_item :
        PublicationTarget
        → PublicationItem
        → Option ItemResult
        → Option RemoteComment
        → ℕ × ℕ
        → Action (ℕ × ℕ)
    publish_item target i none found counts = pure counts
    publish_item target i (some prior) (some remote) (created, skipped) = do
      publish_found i prior remote
      pure (created, skipped + 1)
    publish_item target i (some prior) none (created, skipped) = do
      n ← publish_new target i prior
      pure (created + n, skipped)

    -- `for item in plan.items`
    abbrev pub publish_items :
        PublicationTarget
        → Dict ItemResult
        → Dict RemoteComment
        → List PublicationItem
        → ℕ × ℕ
        → Action (ℕ × ℕ)
    publish_items target remaining found [] counts = pure counts
    publish_items target remaining found (i ∷ is) counts = do
      counts' ← publish_item target i (get remaining i.publication_key) (get found i.marker) counts
      publish_items target remaining found is counts'
