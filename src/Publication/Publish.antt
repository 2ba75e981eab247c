-- ===== src/Publication/Publish.antt =====
-- The remote comments that a whole `publish` requests.
use cr_agent.Prelude.{
  ℕ, ◌+◌, String, Bool, true, false, inl, inr, ◌≡◌, refl, none, List, [], ◌∷◌, keep, map,
  Bool-cases, str_eq, eq_iff,
}
use cr_agent.Prelude.Dict.{Dict, get, contains}
use cr_agent.Prelude.Exec.{Result, ok, err, Result-cases, ◌>>=◌}
use cr_agent.Publication.Models.{
  PublicationItem, PublicationPlan, PublicationResult, PublicationError, RemoteTargetState,
  RemoteComment, ItemResult,
}
use cr_agent.Publication.State.{World, Action, ask}
use cr_agent.Publication.Service.{publish_all, reconcile, publish_remaining}
use cr_agent.Publication.Items.{trace, renew, publish_items, fail_remaining, finish}
use cr_agent.Publication.Store.{publication_result}
use cr_agent.Publication.Sent.{
  Requested, stop, Sends, IsQuiet, bind-IsQuiet, bind-Sends, Sends-bind, IsQuiet-Sends,
}
use cr_agent.Publication.Quiet.{
  publication_result-IsQuiet, trace-IsQuiet, renew-IsQuiet, finish-IsQuiet, refuse-IsQuiet,
}
use cr_agent.Publication.Requests.{Missing, Requested-map, publish_items-Sends}

-- The markers that are searched.
abbrev pub searched : PublicationPlan → Dict ItemResult → List String
searched plan remaining =
    map (λ i. i.marker) (keep (λ i. contains remaining i.publication_key) plan.items)

-- The platform said that the target is open and has the head that the plan was made for.
abbrev pub Verified : World → PublicationPlan → Type 0
Verified w plan =
    (n : ℕ) × (target : RemoteTargetState) × (w.verify_target n plan.target ≡ ok target)
    × (target.is_open ≡ true)
    × (target.head_sha ≡ plan.target.head_sha)

-- The platform answered the search without the marker of the item.
abbrev pub Unfound : World → PublicationPlan → Dict ItemResult → PublicationItem → Type 0
Unfound w plan remaining i =
    (n : ℕ) × (found : Dict RemoteComment) × (w.find_markers n plan.target (searched plan remaining)
      ≡ ok found)
    × (get found i.marker ≡ none)

abbrev pub Allowed : World → PublicationPlan → Dict ItemResult → PublicationItem → Type 0
Allowed w plan remaining i =
    (contains remaining i.publication_key ≡ true) × Verified w plan × Unfound w plan remaining i

module _ (w : World) (owner_id : String) (token : ℕ) where
  module _ (plan : PublicationPlan) (remaining : Dict ItemResult) where
    abbrev SendsAllowed : Action PublicationResult → Type 0
    SendsAllowed m = Sends (Requested (Allowed w plan remaining) plan.items) m

    quiet : (m : Action PublicationResult) → IsQuiet m → SendsAllowed m
    quiet m h = IsQuiet-Sends (Requested (Allowed w plan remaining) plan.items) m stop h

    first :
        {A : Type 0} (m : Action A) (f : A → Action PublicationResult)
        → IsQuiet m
        → ((a : A) → SendsAllowed (f a))
        → SendsAllowed (m >>= f)
    first m f = bind-Sends (Requested (Allowed w plan remaining) plan.items) m f stop

    -- The items were not updated, or all failed: then the result is read and reported.
    abbrev failing : ℕ → PublicationError → Bool → Action PublicationResult
    failing skipped e preserve = fail_remaining w owner_id token plan remaining e preserve >>= λ r.
        finish w owner_id token r 0 skipped

    failing-Sends :
        (skipped : ℕ) (e : PublicationError) (preserve : Bool)
        → SendsAllowed (failing skipped e preserve)
    failing-Sends skipped e preserve =
        quiet (failing skipped e preserve)
          (refuse-IsQuiet w owner_id token plan remaining skipped e preserve)

    abbrev last : ℕ × ℕ → Action PublicationResult
    last counts = publication_result >>= λ r. finish w owner_id token r counts.0 counts.1

    last-IsQuiet : (counts : ℕ × ℕ) → IsQuiet (last counts)
    last-IsQuiet counts =
        bind-IsQuiet publication_result (λ r. finish w owner_id token r counts.0 counts.1)
          publication_result-IsQuiet (λ r. finish-IsQuiet w owner_id token r counts.0 counts.1)

    abbrev loop : Dict RemoteComment → ℕ → Action PublicationResult
    loop found skipped =
        publish_items w owner_id token plan.target remaining found plan.items (0, skipped) >>= last

    loop-Sends :
        (found : Dict RemoteComment) (skipped : ℕ)
        → ((i : PublicationItem) → Missing remaining found i → Allowed w plan remaining i)
        → SendsAllowed (loop found skipped)
    loop-Sends found skipped f =
        Sends-bind (Requested (Allowed w plan remaining) plan.items)
          (publish_items w owner_id token plan.target remaining found plan.items (0, skipped)) last
          (λ s.
            let (js, h, q) =
              publish_items-Sends w owner_id token plan.target remaining found plan.items
                (0, skipped) s in
            (js, h, Requested-map f q))
          last-IsQuiet

    publish_all-Sends :
        (skipped : ℕ) (answer : Result PublicationError (Dict RemoteComment))
        → ((found : Dict RemoteComment)
            → answer ≡ ok found
            → (i : PublicationItem) → Missing remaining found i
            → Allowed w plan remaining i)
        → SendsAllowed (publish_all w owner_id token plan remaining skipped answer)
    unfolding publish_all
    publish_all-Sends skipped (err e) f = failing-Sends skipped e true
    publish_all-Sends skipped (ok found) f =
        first (trace w "publication.reconciled") (λ _. loop found skipped)
          (trace-IsQuiet w "publication.reconciled") (λ _. loop-Sends found skipped (f found refl))

    -- The search for the markers.
    abbrev search_then : ℕ → Action PublicationResult
    search_then skipped =
        ask (λ n. w.find_markers n plan.target (searched plan remaining))
        >>= publish_all w owner_id token plan remaining skipped

    search_then-Sends : (skipped : ℕ) → Verified w plan → SendsAllowed (search_then skipped)
    search_then-Sends skipped v s =
        publish_all-Sends skipped (w.find_markers s.calls plan.target (searched plan remaining))
          (λ found h i m. (m.0, v, (s.calls, found, h, m.1))) (record s { calls = s.calls + 1 })

    Verified-Sends :
        (skipped : ℕ)
        → Verified w plan
        → SendsAllowed (
            trace w "publication.target_verified" >>= λ _.
            renew w owner_id token >>= λ _. search_then skipped)
    Verified-Sends skipped v =
        first (trace w "publication.target_verified")
          (λ _. renew w owner_id token >>= λ _. search_then skipped)
          (trace-IsQuiet w "publication.target_verified")
          (λ _.
            first (renew w owner_id token) (λ _. search_then skipped)
              (renew-IsQuiet w owner_id token) (λ _. search_then-Sends skipped v))

    reconcile-Sends :
        (skipped n : ℕ)
        → SendsAllowed
            (reconcile w owner_id token plan remaining skipped (w.verify_target n plan.target))
    unfolding reconcile
    reconcile-Sends skipped n s = elim (Result-cases (w.verify_target n plan.target)) [
      | inr (e, h) ↦ rw h (failing-Sends skipped e false s)
      | inl (target, h) ↦ elim (Bool-cases target.is_open) [
        | inr c ↦ rw h (
            rw c (
              failing-Sends skipped
                (record { code = "publication_target_closed"; outcome_unknown = false }) false s))
        | inl o ↦ elim (Bool-cases (str_eq target.head_sha plan.target.head_sha)) [
          | inr d ↦ rw h (
              rw o (
                rw d (
                  failing-Sends skipped
                    (record { code = "publication_target_changed"; outcome_unknown = false }) false
                    s)))
          | inl e ↦ rw h (
              rw o (
                rw e (
                  Verified-Sends skipped
                    (n, target, h, o, (eq_iff target.head_sha plan.target.head_sha).0 e) s)))
        ]
      ]
    ]

  -- The turn after `publication.started`.
  pub publish_remaining-Sends :
      (plan : PublicationPlan) (current : PublicationResult) (d : Dict ItemResult) (skipped : ℕ)
      → SendsAllowed plan d (publish_remaining w owner_id token plan current d skipped)
  unfolding publish_remaining
  publish_remaining-Sends plan current [] skipped =
      quiet plan [] (finish w owner_id token current 0 skipped)
        (finish-IsQuiet w owner_id token current 0 skipped)
  publish_remaining-Sends plan current (r ∷ rs) skipped =
      first plan (r ∷ rs) (renew w owner_id token) (λ _. verify_then)
        (renew-IsQuiet w owner_id token)
        (λ _ s. reconcile-Sends plan (r ∷ rs) skipped s.calls (record s { calls = s.calls + 1 }))
    where
      verify_then : Action PublicationResult
      verify_then =
          ask (λ n. w.verify_target n plan.target)
          >>= reconcile w owner_id token plan (r ∷ rs) skipped
