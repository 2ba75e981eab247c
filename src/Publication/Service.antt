-- ===== src/Publication/Service.antt =====
-- `publish` of `PublicationService` (application/publication_service.py). The owner id that it draws
-- is an argument.
use cr_agent.Prelude.{
  ℕ, ◌-◌, String, true, false, not, none, some, Option, [], ◌∷◌, length, keep, map, str_eq,
  if◌then◌else◌,
}
use cr_agent.Prelude.Dict.{Dict, contains}
use cr_agent.Prelude.Exec.{Result, ok, err, raise, ◌>>=◌, ◌>>◌}
use cr_agent.Publication.Models.{
  PublicationPlan, PublicationResult, PublicationError, RemoteTargetState, RemoteComment,
  ItemResult,
}
use cr_agent.Publication.State.{World, Action, ask, finally}
use cr_agent.Publication.Store.{
  publication_plan, publication_result, acquire_publication_lease, release_publication_lease,
}
use cr_agent.Publication.Items.{
  fail_remaining, finish, lease_held, publish_items, remaining_of, renew, trace,
}

module _ (world : World) where
  module _ (operation_id : String) (fencing_token : ℕ) where
    -- After `find_markers`.
    unfoldable pub publish_all :
        PublicationPlan
        → Dict ItemResult
        → ℕ
        → Result PublicationError (Dict RemoteComment)
        → Action PublicationResult
    publish_all plan remaining skipped (err e) = do
      result ← fail_remaining world operation_id fencing_token plan remaining e true
      finish world operation_id fencing_token result 0 skipped
    publish_all plan remaining skipped (ok found) = do
      trace world "publication.reconciled"
      counts ←
          publish_items world operation_id fencing_token plan.target remaining found plan.items
            (0, skipped)
      result ← publication_result
      finish world operation_id fencing_token result counts.0 counts.1

    abbrev pub refuse :
        PublicationPlan → Dict ItemResult → ℕ → PublicationError → Action PublicationResult
    refuse plan remaining skipped e = do
      result ← fail_remaining world operation_id fencing_token plan remaining e false
      finish world operation_id fencing_token result 0 skipped

    -- After `verify_target`.
    unfoldable pub reconcile :
        PublicationPlan
        → Dict ItemResult
        → ℕ
        → Result PublicationError RemoteTargetState
        → Action PublicationResult
    reconcile plan remaining skipped (err e) = refuse plan remaining skipped e
    reconcile plan remaining skipped (ok target) =
        if not target.is_open
        then refuse plan remaining skipped
            (record { code = "publication_target_closed"; outcome_unknown = false })
        else if not (str_eq target.head_sha plan.target.head_sha)
        then refuse plan remaining skipped
            (record { code = "publication_target_changed"; outcome_unknown = false })
        else do
          trace world "publication.target_verified"
          renew world operation_id fencing_token
          found ← ask (λ n.
              world.find_markers n plan.target
                (map (λ i. i.marker) (keep (λ i. contains remaining i.publication_key) plan.items)))
          publish_all plan remaining skipped found

    -- `if not remaining` and what follows.
    unfoldable pub publish_remaining :
        PublicationPlan → PublicationResult → Dict ItemResult → ℕ → Action PublicationResult
    publish_remaining plan current [] skipped =
        finish world operation_id fencing_token current 0 skipped
    publish_remaining plan current (r ∷ rs) skipped = do
      renew world operation_id fencing_token
      target ← ask (λ n. world.verify_target n plan.target)
      reconcile plan (r ∷ rs) skipped target

    -- `_publish_locked`
    unfoldable pub publish_locked : Action PublicationResult
    publish_locked = do
      plan ← publication_plan
      current ← publication_result
      let remaining = remaining_of current.items
      let skipped = length current.items - length remaining
      trace world "publication.started"
      publish_remaining plan current remaining skipped

  -- After `acquire_publication_lease`.
  abbrev pub publish_with : String → Option ℕ → Action PublicationResult
  publish_with owner_id none = raise lease_held
  publish_with owner_id (some token) =
      finally (publish_locked owner_id token) (release_publication_lease owner_id (some token))

  unfoldable pub publish : String → Action PublicationResult
  publish owner_id = do
    token ← acquire_publication_lease world owner_id 600
    publish_with owner_id token
