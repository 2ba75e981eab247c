-- ===== src/Publication/Locked.antt =====
-- The remote comments that `publish` requests, told by the rows at its start.
use mathlib.Core.Path.{subst}
use cr_agent.Prelude.{
  ℕ, ◌-◌, String, true, false, not, ◌&&◌, ◌||◌, ◌⊎◌, inl, inr, ◌≡◌, refl, sym, ◌∙◌, ap, Option,
  none, some, List, [], ◌∷◌, ◌++◌, any, length, map, arith, Bool-cases, str_eq, append-nil,
}
use cr_agent.Prelude.Dict.{Dict, put, get-put, get-empty, contains}
use cr_agent.Prelude.Exec.{Result-cases, ◌>>=◌}
use cr_agent.Publication.Models.{
  PublicationItem, PublicationPlan, PublicationResult, ItemResult, is_succeeded,
}
use cr_agent.Publication.State.{Publication, PublicationLease, World, Action, ItemRow}
use cr_agent.Publication.Service.{publish_remaining, publish_locked, publish}
use cr_agent.Publication.Items.{trace, remaining_from, remaining_of}
use cr_agent.Publication.Store.{
  publication_plan, publication_result, acquire_publication_lease, release_publication_lease,
  item_result, rows_match, result_of,
}
use cr_agent.Publication.Sent.{Requested, stop, Sends, bind-Sends}
use cr_agent.Publication.Quiet.{trace-IsQuiet}
use cr_agent.Publication.Requests.{Requested-map}
use cr_agent.Publication.Publish.{Verified, Unfound, publish_remaining-Sends}

-- A row of the item says that it did not succeed.
abbrev pub Unpublished : List ItemRow → PublicationItem → Type 0
Unpublished rows i =
    any (λ r. str_eq r.publication_key i.publication_key && not (is_succeeded r.state)) rows ≡ true

contains-put :
    {V : Type 0} (d : Dict V) (k j : String) (v : V)
    → contains (put d k v) j ≡ (str_eq k j || contains d j)
contains-put d k j v = ground (arith, get-put d k j v)

remaining_from-Unpublished :
    (d : Dict ItemResult) (rows : List ItemRow) (i : PublicationItem)
    → contains (remaining_from d (map item_result rows)) i.publication_key ≡ true
    → (contains d i.publication_key ≡ true) ⊎ Unpublished rows i
remaining_from-Unpublished d [] i h = inl h
remaining_from-Unpublished d (r ∷ rows) i h = elim (Bool-cases (is_succeeded r.state)) [
  | inl e ↦ elim (remaining_from-Unpublished d rows i (rw (remaining_from, e) at h)) [
    | inl x ↦ inl x
    | inr x ↦ inr (ground arith)
  ]
  | inr e ↦
      elim (remaining_from-Unpublished (put d r.publication_key (item_result r)) rows i
        (rw (remaining_from, e) at h)) [
          | inl x ↦ elim (Bool-cases (str_eq r.publication_key i.publication_key)) [
            | inl y ↦ inr (rw y (rw e refl))
            | inr n ↦ inl (
                sym (
                  contains-put d r.publication_key i.publication_key (item_result r)
                  ∙ ap (λ b. b || contains d i.publication_key) n)
                ∙ x)
          ]
          | inr x ↦ inr (ground arith)
        ]
]

remaining_of-Unpublished :
    (rows : List ItemRow) (i : PublicationItem)
    → contains (remaining_of (map item_result rows)) i.publication_key ≡ true
    → Unpublished rows i
unfolding remaining_of
remaining_of-Unpublished rows i h = elim (remaining_from-Unpublished [] rows i h) [
  | inl x ↦ let broken : false ≡ true = (rw (get-empty i.publication_key) at x) in cc broken
  | inr x ↦ x
]

abbrev pub items_of : Option PublicationPlan → List PublicationItem
items_of none = []
items_of (some plan) = plan.items

-- What is known of an item whose comment is requested.
abbrev pub Due : World → Option PublicationPlan → List ItemRow → PublicationItem → Type 0
Due w none rows i = ⊥
Due w (some plan) rows i =
    Unpublished rows i × Verified w plan × Unfound w plan (remaining_of (map item_result rows)) i

module _ (w : World) (owner_id : String) where
  -- What `_publish_locked` does with the rows of its start.
  abbrev started : ℕ → PublicationPlan → PublicationResult → Action PublicationResult
  started token plan current = trace w "publication.started" >>= λ _.
      publish_remaining w owner_id token plan current (remaining_of current.items)
        (length current.items - length (remaining_of current.items))

  started-Sends :
      (token : ℕ) (plan : PublicationPlan) (rows : List ItemRow)
      → Sends
          (Requested (Due w (some plan) rows) plan.items)
          (started token plan (result_of plan (map item_result rows)))
  started-Sends token plan rows =
      bind-Sends (Requested (Due w (some plan) rows) plan.items) (trace w "publication.started")
        (λ _. rest) stop (trace-IsQuiet w "publication.started")
        (λ _ s.
          let (js, h, q) =
            publish_remaining-Sends w owner_id token plan (result_of plan items)
              (remaining_of items) (length items - length (remaining_of items)) s in
          (js, h, Requested-map (λ i x. (remaining_of-Unpublished rows i x.0, x.1, x.2)) q))
    where
      items : List ItemResult
      items = map item_result rows

      rest : Action PublicationResult
      rest =
          publish_remaining w owner_id token plan (result_of plan items) (remaining_of items)
            (length items - length (remaining_of items))

  publish_locked-Requested :
      (token : ℕ) (plan : Option PublicationPlan) (rows : List ItemRow)
      (lease : Option PublicationLease) (last_token calls : ℕ) (sent : List PublicationItem)
      → let s : Publication = record {
        plan = plan;
        rows = rows;
        lease = lease;
        last_token = last_token;
        calls = calls;
        sent = sent;
      } in
        (js : List PublicationItem) × ((publish_locked w owner_id token s).1.sent ≡ sent ++ js)
        × Requested (Due w plan rows) (items_of plan) js
  unfolding publish_locked publication_result publication_plan
  publish_locked-Requested token none rows lease last_token calls sent =
      ([], sym (append-nil sent), stop)
  publish_locked-Requested token (some plan) rows lease last_token calls sent =
      elim (Bool-cases (rows_match rows plan.items)) [
        | inr m ↦ ([], rw m (sym (append-nil sent)), stop)
        | inl m ↦
            let (js, h, q) = started-Sends token plan rows (record {
              plan = some plan;
              rows = rows;
              lease = lease;
              last_token = last_token;
              calls = calls;
              sent = sent;
            }) in
            (js, rw m h, q)
      ]

  acquire-same :
      (seconds : ℕ) (s : Publication)
      → ((acquire_publication_lease w owner_id seconds s).1.plan ≡ s.plan)
        × ((acquire_publication_lease w owner_id seconds s).1.rows ≡ s.rows)
        × ((acquire_publication_lease w owner_id seconds s).1.sent ≡ s.sent)
  unfolding acquire_publication_lease
  acquire-same seconds s = ground arith

  -- `publish` requests some items of the stored plan, in the order of the plan and each at most once:
  -- items with a row that says that they did not succeed, whose marker the platform did not find in
  -- its answer to the search for the markers of the remaining items, and only after the platform
  -- answered that the target is open and still has the head of the plan. Without a plan it requests
  -- nothing.
  pub publish-Requested :
      (s : Publication)
      → (js : List PublicationItem) × ((publish w owner_id s).1.sent ≡ s.sent ++ js)
        × Requested (Due w s.plan s.rows) (items_of s.plan) js
  unfolding publish release_publication_lease
  publish-Requested s =
      let (p, r, h) = acquire-same 600 s in
      elim (Result-cases (acquire_publication_lease w owner_id 600 s).0) [
        | inr (x, e) ↦ ([], rw e (h ∙ sym (append-nil s.sent)), stop)
        | inl (none, e) ↦ ([], rw e (h ∙ sym (append-nil s.sent)), stop)
        | inl (some token, e) ↦
            let s' = (acquire_publication_lease w owner_id 600 s).1 in
            let (js, g, q) =
              publish_locked-Requested token s'.plan s'.rows s'.lease s'.last_token s'.calls
                s'.sent in
            (
              js,
              rw e (g ∙ ap (λ l. l ++ js) h),
              subst (λ x. Requested (Due w x s.rows) (items_of x) js) p
                  (subst (λ x. Requested (Due w s'.plan x) (items_of s'.plan) js) r q),
            )
      ]
