-- ===== src/Publication/Requests.antt =====
-- The remote comments that `publish` requests.
use cr_agent.Prelude.{
  ℕ, ◌+◌, String, Bool, true, false, inl, inr, ◌≡◌, refl, ◌∙◌, ap, Option, none, some, List, [],
  ◌∷◌, ◌++◌, is_some, if◌then◌else◌, append_assoc,
}
use cr_agent.Prelude.Dict.{Dict, get, contains}
use cr_agent.Prelude.Exec.{Result, ok, err, Result-cases, pure, ◌>>=◌}
use cr_agent.Publication.Models.{PublicationItem, PublicationTarget, RemoteComment, ItemResult}
use cr_agent.Publication.State.{World, Action, ask}
use cr_agent.Publication.Items.{
  lift, visible_body, renew, create, conclude, rejects, reject, create_new, publish_new,
  publish_item, publish_items, publish_found,
}
use cr_agent.Publication.Sent.{
  Requested, stop, pass, request, Sends, IsQuiet, bind-IsQuiet, bind-Sends, Sends-bind,
  IsQuiet-Sends,
}
use cr_agent.Publication.Quiet.{
  pure-IsQuiet, renew-IsQuiet, conclude-IsQuiet, reject-IsQuiet, publish_found-IsQuiet,
}

-- Nothing, or the one item.
data One (P : PublicationItem → Type 0) (i : PublicationItem) : List PublicationItem → Type 0 where
  nothing : One P i []
  once : P i → One P i (i ∷ [])

module _ {A B : Type 0} where
  One-bind :
      (P : PublicationItem → Type 0) (i : PublicationItem) (is : List PublicationItem)
      (m : Action A) (f : A → Action B)
      → Sends (One P i) m
      → ((a : A) → Sends (Requested P is) (f a))
      → Sends (Requested P (i ∷ is)) (m >>= f)
  One-bind P i is m f hm hf s = elim (Result-cases (m s).0) [
    | inl (a, e) ↦
        let (js, h, q) = hm s in
        let (ks, h', q') = hf a (m s).1 in
        (js ++ ks, rw e (h' ∙ ap (λ l. l ++ ks) h ∙ append_assoc s.sent js ks), both q q')
    | inr (x, e) ↦ let (js, h, q) = hm s in (js, rw e h, only q)
  ]
    where
      both :
          {js ks : List PublicationItem}
          → One P i js
          → Requested P is ks
          → Requested P (i ∷ is) (js ++ ks)
      both nothing r = pass r
      both (once p) r = request p r

      only : {js : List PublicationItem} → One P i js → Requested P (i ∷ is) js
      only nothing = stop
      only (once p) = request p stop

pub Requested-map :
    {P Q : PublicationItem → Type 0} {is js : List PublicationItem}
    → ((i : PublicationItem) → P i → Q i)
    → Requested P is js
    → Requested Q is js
Requested-map f stop = stop
Requested-map f (pass r) = pass (Requested-map f r)
Requested-map f (request p r) = request (f _ p) (Requested-map f r)

lift-IsQuiet : {A : Type 0} (r : Result _ A) → IsQuiet (lift r)
lift-IsQuiet (ok a) s = refl
lift-IsQuiet (err e) s = refl

-- The items that are still to be published and that the platform does not have.
abbrev pub Missing : Dict ItemResult → Dict RemoteComment → PublicationItem → Type 0
Missing remaining found i =
    (contains remaining i.publication_key ≡ true) × (get found i.marker ≡ none)

module _ (w : World) (owner_id : String) (token : ℕ) where
  create-Sends :
      (P : PublicationItem → Type 0) (target : PublicationTarget) (i : PublicationItem)
      → P i
      → Sends (One P i) (create w owner_id token target i)
  unfolding create
  create-Sends P target i p s = (i ∷ [], refl, once p)

  create_new-Sends :
      (P : PublicationItem → Type 0) (target : PublicationTarget) (i : PublicationItem)
      (prior : ItemResult)
      → P i
      → Sends (One P i) (create_new w owner_id token target i prior)
  unfolding create_new
  create_new-Sends P target i prior p =
      Sends-bind (One P i) (create w owner_id token target i)
        (λ answer. conclude w owner_id token i.publication_key prior answer)
        (create-Sends P target i p) (conclude-IsQuiet w owner_id token i.publication_key prior)

  -- After the scan.
  abbrev judged : PublicationTarget → PublicationItem → ItemResult → Bool → Action ℕ
  judged target i prior rejected =
      if rejected
      then reject w owner_id token i.publication_key prior
      else create_new w owner_id token target i prior

  judged-Sends :
      (P : PublicationItem → Type 0) (target : PublicationTarget) (i : PublicationItem)
      (prior : ItemResult) (rejected : Bool)
      → P i
      → Sends (One P i) (judged target i prior rejected)
  judged-Sends P target i prior true p =
      IsQuiet-Sends (One P i) (reject w owner_id token i.publication_key prior) nothing
        (reject-IsQuiet w owner_id token i.publication_key prior)
  judged-Sends P target i prior false p = create_new-Sends P target i prior p

  publish_new-Sends :
      (P : PublicationItem → Type 0) (target : PublicationTarget) (i : PublicationItem)
      (prior : ItemResult)
      → P i
      → Sends (One P i) (publish_new w owner_id token target i prior)
  unfolding publish_new
  publish_new-Sends P target i prior p =
      bind-Sends (One P i) (renew w owner_id token) (λ _. visible_then) nothing
        (renew-IsQuiet w owner_id token)
        (λ _.
          bind-Sends (One P i) (lift (visible_body i.body i.marker)) scanned_then nothing
            (lift-IsQuiet (visible_body i.body i.marker))
            (λ v.
              bind-Sends (One P i) (ask (λ n. w.scan n v))
                (λ x. judged target i prior (rejects w owner_id token v x)) nothing (λ s. refl)
                (λ x. judged-Sends P target i prior (rejects w owner_id token v x) p)))
    where
      scanned_then : String → Action ℕ
      scanned_then v =
          ask (λ n. w.scan n v) >>= λ x. judged target i prior (rejects w owner_id token v x)

      visible_then : Action ℕ
      visible_then = lift (visible_body i.body i.marker) >>= scanned_then

  publish_item-Sends :
      (P : PublicationItem → Type 0) (target : PublicationTarget) (i : PublicationItem)
      (prior : Option ItemResult) (found : Option RemoteComment) (counts : ℕ × ℕ)
      → (is_some prior ≡ true → found ≡ none → P i)
      → Sends (One P i) (publish_item w owner_id token target i prior found counts)
  publish_item-Sends P target i none found counts p =
      IsQuiet-Sends (One P i) (pure counts) nothing (pure-IsQuiet counts)
  publish_item-Sends P target i (some prior) (some remote) (c, k) p =
      IsQuiet-Sends (One P i)
        (publish_found w owner_id token i prior remote >>= λ _. pure (c, k + 1)) nothing
        (bind-IsQuiet (publish_found w owner_id token i prior remote) (λ _. pure (c, k + 1))
          (publish_found-IsQuiet w owner_id token i prior remote)
          (λ _. pure-IsQuiet {A = ℕ × ℕ} (c, k + 1)))
  publish_item-Sends P target i (some prior) none (c, k) p =
      Sends-bind (One P i) (publish_new w owner_id token target i prior) (λ n. pure (c + n, k))
        (publish_new-Sends P target i prior (p refl refl))
        (λ n. pure-IsQuiet {A = ℕ × ℕ} (c + n, k))

  pub publish_items-Sends :
      (target : PublicationTarget) (remaining : Dict ItemResult) (found : Dict RemoteComment)
      (is : List PublicationItem) (counts : ℕ × ℕ)
      → Sends
          (Requested (Missing remaining found) is)
          (publish_items w owner_id token target remaining found is counts)
  publish_items-Sends target remaining found [] counts =
      IsQuiet-Sends (Requested (Missing remaining found) []) (pure counts) stop
        (pure-IsQuiet counts)
  publish_items-Sends target remaining found (i ∷ is) counts =
      One-bind (Missing remaining found) i is
        (publish_item w owner_id token target i (get remaining i.publication_key)
          (get found i.marker) counts)
        (λ counts'. publish_items w owner_id token target remaining found is counts')
        (publish_item-Sends (Missing remaining found) target i (get remaining i.publication_key)
          (get found i.marker) counts (λ a b. (a, b)))
        (λ counts'. publish_items-Sends target remaining found is counts')
