-- ===== src/Publication/Quiet.antt =====
-- The parts of `publish` that request no remote comment.
use cr_agent.Prelude.{
  ℕ, String, Bool, false, ◌&&◌, refl, Option, none, some, List, [], ◌∷◌, arith, Bool-cases,
  Option-cases, inl, inr, if◌then◌else◌,
}
use cr_agent.Prelude.Dict.{Dict, get}
use cr_agent.Prelude.Exec.{Result, ok, err, pure, ◌>>=◌}
use cr_agent.Publication.Models.{
  ItemState, PublicationItem, PublicationPlan, PublicationResult, PublicationError, RemoteComment,
  ItemResult, is_unknown,
}
use cr_agent.Publication.State.{World}
use cr_agent.Publication.Store.{
  publication_plan, publication_result, update_publication_item, acquire_publication_lease,
  renew_publication_lease, Outcome,
}
use cr_agent.Publication.Items.{
  trace, trace_item, renew, record_outcome, failure, success, fail_item, fail_items, fail_remaining,
  finish, conclude, reject, publish_found,
}
use cr_agent.Publication.Sent.{IsQuiet, bind-IsQuiet}

pub pure-IsQuiet : {A : Type 0} (a : A) → IsQuiet (pure a)
pure-IsQuiet a s = refl

pub publication_plan-IsQuiet : IsQuiet publication_plan
unfolding publication_plan
publication_plan-IsQuiet s = ground arith

pub publication_result-IsQuiet : IsQuiet publication_result
unfolding publication_result publication_plan
publication_result-IsQuiet s = ground arith

pub update_publication_item-IsQuiet :
    (w : World) (key : String) (o : Outcome) (owner_id : String) (token version : ℕ)
    → IsQuiet (update_publication_item w key o owner_id token version)
unfolding update_publication_item
update_publication_item-IsQuiet w key o owner_id token version s = ground arith

pub acquire_publication_lease-IsQuiet :
    (w : World) (owner_id : String) (seconds : ℕ)
    → IsQuiet (acquire_publication_lease w owner_id seconds)
unfolding acquire_publication_lease
acquire_publication_lease-IsQuiet w owner_id seconds s = ground arith

renew_publication_lease-IsQuiet :
    (w : World) (owner_id : String) (token seconds : ℕ)
    → IsQuiet (renew_publication_lease w owner_id token seconds)
unfolding renew_publication_lease
renew_publication_lease-IsQuiet w owner_id token seconds s = refl

module _ (w : World) where
  pub trace-IsQuiet : (t : String) → IsQuiet (trace w t)
  unfolding trace
  trace-IsQuiet t s = elim (Option-cases (w.append_trace_event s.calls t)) [
    | inl e ↦ rw e
    | inr (x, e) ↦ rw e
  ]

  pub trace_item-IsQuiet : (x : ItemState) → IsQuiet (trace_item w x)
  unfolding trace_item
  trace_item-IsQuiet ItemState.pending = trace-IsQuiet "publication.item_pending"
  trace_item-IsQuiet ItemState.succeeded = trace-IsQuiet "publication.item_succeeded"
  trace_item-IsQuiet ItemState.failed = trace-IsQuiet "publication.item_failed"
  trace_item-IsQuiet ItemState.unknown = trace-IsQuiet "publication.item_unknown"

  module _ (owner_id : String) (token : ℕ) where
    pub renew-IsQuiet : IsQuiet (renew w owner_id token)
    unfolding renew renew_publication_lease
    renew-IsQuiet s = ground arith

    -- What every recorded outcome is followed by.
    recorded-IsQuiet :
        {A : Type 0} (key : String) (o : Outcome) (prior : ItemResult) (x : ItemState) (a : A)
        → IsQuiet
            (record_outcome w owner_id token key o prior >>= λ _. trace_item w x >>= λ _. pure a)
    recorded-IsQuiet key o prior x a =
        bind-IsQuiet (record_outcome w owner_id token key o prior)
          (λ _. trace_item w x >>= λ _. pure a)
          (update_publication_item-IsQuiet w key o owner_id token prior.version)
          (λ _.
            bind-IsQuiet (trace_item w x) (λ _. pure a) (trace_item-IsQuiet x)
              (λ _. pure-IsQuiet a))

    pub conclude-IsQuiet :
        (key : String) (prior : ItemResult) (r : Result PublicationError RemoteComment)
        → IsQuiet (conclude w owner_id token key prior r)
    unfolding conclude
    conclude-IsQuiet key prior (ok remote) =
        recorded-IsQuiet key (success w owner_id token remote) prior ItemState.succeeded 1
    conclude-IsQuiet key prior (err e) =
        recorded-IsQuiet key (failure w owner_id token e.outcome_unknown e.code) prior
          (if e.outcome_unknown then ItemState.unknown else ItemState.failed) 0

    pub reject-IsQuiet :
        (key : String) (prior : ItemResult) → IsQuiet (reject w owner_id token key prior)
    unfolding reject
    reject-IsQuiet key prior =
        recorded-IsQuiet key (failure w owner_id token false "publication_content_rejected") prior
          ItemState.failed 0

    pub publish_found-IsQuiet :
        (i : PublicationItem) (prior : ItemResult) (remote : RemoteComment)
        → IsQuiet (publish_found w owner_id token i prior remote)
    unfolding publish_found
    publish_found-IsQuiet i prior remote =
        bind-IsQuiet
          (record_outcome w owner_id token i.publication_key (success w owner_id token remote)
            prior)
          (λ _. trace_item w ItemState.succeeded)
          (update_publication_item-IsQuiet w i.publication_key (success w owner_id token remote)
            owner_id token prior.version)
          (λ _. trace_item-IsQuiet ItemState.succeeded)

    fail_item-IsQuiet :
        (code : String) (u p : Bool) (key : String) (prior : Option ItemResult)
        → IsQuiet (fail_item w owner_id token code u p key prior)
    fail_item-IsQuiet code u p key none s = refl
    fail_item-IsQuiet code u p key (some prior) s =
        elim (Bool-cases (p && is_unknown prior.state)) [
          | inl e ↦ rw e
          | inr e ↦ rw e (
              update_publication_item-IsQuiet w key (failure w owner_id token u code) owner_id token
                prior.version s)
        ]

    fail_items-IsQuiet :
        (code : String) (u p : Bool) (d : Dict ItemResult) (is : List PublicationItem)
        → IsQuiet (fail_items w owner_id token code u p d is)
    fail_items-IsQuiet code u p d [] = pure-IsQuiet tt
    fail_items-IsQuiet code u p d (i ∷ is) =
        bind-IsQuiet
          (fail_item w owner_id token code u p i.publication_key (get d i.publication_key))
          (λ _. fail_items w owner_id token code u p d is)
          (fail_item-IsQuiet code u p i.publication_key (get d i.publication_key))
          (λ _. fail_items-IsQuiet code u p d is)

    pub finish-IsQuiet : (r : PublicationResult) (c k : ℕ) → IsQuiet (finish w owner_id token r c k)
    unfolding finish
    finish-IsQuiet r c k =
        bind-IsQuiet (trace w "publication.completed") _ (trace-IsQuiet _) (λ _ s. refl)

    pub fail_remaining-IsQuiet :
        (plan : PublicationPlan) (d : Dict ItemResult) (e : PublicationError) (p : Bool)
        → IsQuiet (fail_remaining w owner_id token plan d e p)
    unfolding fail_remaining
    fail_remaining-IsQuiet plan d e p =
        bind-IsQuiet (fail_items w owner_id token e.code e.outcome_unknown p d plan.items)
          (λ _. publication_result) (fail_items-IsQuiet e.code e.outcome_unknown p d plan.items)
          (λ _. publication_result-IsQuiet)

    pub refuse-IsQuiet :
        (plan : PublicationPlan) (d : Dict ItemResult) (skipped : ℕ) (e : PublicationError)
        (p : Bool)
        → IsQuiet (
            fail_remaining w owner_id token plan d e p >>= λ r. finish w owner_id token r 0 skipped)
    refuse-IsQuiet plan d skipped e p =
        bind-IsQuiet (fail_remaining w owner_id token plan d e p)
          (λ r. finish w owner_id token r 0 skipped) (fail_remaining-IsQuiet plan d e p)
          (λ r. finish-IsQuiet r 0 skipped)
