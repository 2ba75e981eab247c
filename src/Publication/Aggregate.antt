-- ===== src/Publication/Aggregate.antt =====
-- What the state of a whole publication says of its items.
use cr_agent.Prelude.{
  Bool, true, false, not, ◌&&◌, inl, inr, ◌≡◌, ◌≢◌, sym, ◌∙◌, refl, ◌↔◌, List, [], ◌∷◌, any, all,
  arith, Bool-cases, if◌then◌else◌,
}
use cr_agent.Publication.Models.{
  ItemResult, ItemState, PublicationState, aggregate_state, is_succeeded, is_failed, is_unknown,
  pending, succeeded, failed, unknown,
}

-- Every item has the property; some item has it.
abbrev pub Every : (ItemState → Type 0) → List ItemResult → Type 0
Every P [] = Unit
Every P (i ∷ is) = P i.state × Every P is

pub data Some (P : ItemState → Type 0) : List ItemResult → Type 0 where
  here : {i : ItemResult} {is : List ItemResult} → P i.state → Some P (i ∷ is)
  there : {i : ItemResult} {is : List ItemResult} → Some P is → Some P (i ∷ is)

module _ (p : ItemState → Bool) where
  abbrev pub Is : ItemState → Type 0
  Is x = p x ≡ true

  any→Some : (is : List ItemResult) → any (λ i. p i.state) is ≡ true → Some Is is
  any→Some [] h = cc h
  any→Some (i ∷ is) h = elim (Bool-cases (p i.state)) [
    | inl e ↦ here e
    | inr e ↦ there (any→Some is (rw e at h))
  ]

  Some→any : {is : List ItemResult} → Some Is is → any (λ i. p i.state) is ≡ true
  Some→any (here e) = rw e
  Some→any (there {i = i} s) = elim (Bool-cases (p i.state)) [
    | inl e ↦ rw e
    | inr e ↦ rw e (Some→any s)
  ]

  all→Every : (is : List ItemResult) → all (λ i. p i.state) is ≡ true → Every Is is
  all→Every [] h = tt
  all→Every (i ∷ is) h = elim (Bool-cases (p i.state)) [
    | inl e ↦ (e, all→Every is (rw e at h))
    | inr e ↦ let broken : false ≡ true = (rw e at h) in cc broken
  ]

  Every→all : (is : List ItemResult) → Every Is is → all (λ i. p i.state) is ≡ true
  Every→all [] h = refl
  Every→all (i ∷ is) h = rw h.0 (Every→all is h.1)

abbrev Tests4 : Bool → Bool → Bool → Bool → PublicationState
Tests4 u s a f =
    if u
    then PublicationState.unknown
    else if s && a
    then PublicationState.succeeded
    else if s && f
    then PublicationState.partial
    else if f && not s
    then PublicationState.failed
    else PublicationState.pending

-- If every item succeeded, none is unknown and none failed.
no_other :
    (is : List ItemResult)
    → all (λ i. is_succeeded i.state) is ≡ true
    → (any (λ i. is_unknown i.state) is ≡ false) × (any (λ i. is_failed i.state) is ≡ false)
no_other [] h = (refl, refl)
no_other (i ∷ is) h = by_state i.state refl (no_other is)
  where
    by_state :
        (x : ItemState)
        → i.state ≡ x
        → (all (λ j. is_succeeded j.state) is ≡ true
            → (any (λ j. is_unknown j.state) is ≡ false)
              × (any (λ j. is_failed j.state) is ≡ false))
        → (any (λ i. is_unknown i.state) (i ∷ is) ≡ false)
          × (any (λ i. is_failed i.state) (i ∷ is) ≡ false)
    by_state pending e ih = let broken : false ≡ true = (rw e at h) in cc broken
    by_state failed e ih = let broken : false ≡ true = (rw e at h) in cc broken
    by_state unknown e ih = let broken : false ≡ true = (rw e at h) in cc broken
    by_state succeeded e ih = rw e (ih (rw e at h))

all_of_none :
    (is : List ItemResult)
    → any (λ i. is_succeeded i.state) is ≡ false
    → all (λ i. is_succeeded i.state) is ≡ true
    → is ≡ []
all_of_none [] n h = refl
all_of_none (i ∷ is) n h = elim (Bool-cases (is_succeeded i.state)) [
  | inl e ↦ let broken : true ≡ false = (rw e at n) in cc broken
  | inr e ↦ let broken : false ≡ true = (rw e at h) in cc broken
]

table :
    (u s a f : Bool)
    → (a ≡ true → (u ≡ false) × (f ≡ false))
    → ((Tests4 u s a f ≡ PublicationState.unknown) ↔ (u ≡ true))
      × ((Tests4 u s a f ≡ PublicationState.succeeded) ↔ ((s ≡ true) × (a ≡ true)))
      × ((Tests4 u s a f ≡ PublicationState.partial) ↔ ((u ≡ false) × (s ≡ true) × (f ≡ true)))
      × ((Tests4 u s a f ≡ PublicationState.failed) ↔ ((u ≡ false) × (s ≡ false) × (f ≡ true)))
table u s a f h = ground arith

abbrev pub IsSucceeded : ItemState → Type 0
IsSucceeded x = is_succeeded x ≡ true

abbrev pub IsFailed : ItemState → Type 0
IsFailed x = is_failed x ≡ true

abbrev pub IsUnknown : ItemState → Type 0
IsUnknown x = is_unknown x ≡ true

not→false :
    (p : ItemState → Bool) (is : List ItemResult)
    → ¬ (Some (Is p) is)
    → any (λ i. p i.state) is ≡ false
not→false p is h = elim (Bool-cases (any (λ i. p i.state) is)) [
  | inl e ↦ absurd (h (any→Some p is e))
  | inr e ↦ e
]

false→not :
    (p : ItemState → Bool) (is : List ItemResult)
    → any (λ i. p i.state) is ≡ false
    → ¬ (Some (Is p) is)
false→not p is h s = let broken : false ≡ true = sym h ∙ Some→any p s in cc broken

module _ (is : List ItemResult) where
  abbrev u : Bool
  u = any (λ i. is_unknown i.state) is

  abbrev s : Bool
  s = any (λ i. is_succeeded i.state) is

  abbrev a : Bool
  a = all (λ i. is_succeeded i.state) is

  abbrev f : Bool
  f = any (λ i. is_failed i.state) is

  some_of_all : is ≢ [] → a ≡ true → s ≡ true
  some_of_all ne h = elim (Bool-cases s) [ inl e ↦ e | inr e ↦ absurd (ne (all_of_none is e h)) ]

  nonempty : s ≡ true → is ≢ []
  nonempty h e = let broken : false ≡ true = (rw e at h) in cc broken

  -- The state is `unknown` exactly when some item is; `succeeded` exactly when there are items and
  -- all of them succeeded; `partial` exactly when no item is unknown, some succeeded and some failed;
  -- `failed` exactly when no item is unknown, none succeeded and some failed. (It is `pending` in
  -- every other case.)
  pub aggregate_state_lem :
      ((aggregate_state is ≡ PublicationState.unknown) ↔ Some IsUnknown is)
      × ((aggregate_state is ≡ PublicationState.succeeded) ↔ ((is ≢ []) × Every IsSucceeded is))
      × ((aggregate_state is ≡ PublicationState.partial)
          ↔ ((¬ (Some IsUnknown is)) × Some IsSucceeded is × Some IsFailed is))
      × ((aggregate_state is ≡ PublicationState.failed)
          ↔ ((¬ (Some IsUnknown is)) × (¬ (Some IsSucceeded is)) × Some IsFailed is))
  unfolding aggregate_state
  aggregate_state_lem =
      let (at_unknown, at_succeeded, at_partial, at_failed) = table u s a f (no_other is) in
      (
        (
          (λ h. any→Some is_unknown is (at_unknown.0 h)),
          (λ x. at_unknown.1 (Some→any is_unknown x)),
        ),
        (
          (λ h. let (hs, ha) = at_succeeded.0 h in (nonempty hs, all→Every is_succeeded is ha)),
          (λ x.
              let ha : a ≡ true = Every→all is_succeeded is x.1 in
              at_succeeded.1 (some_of_all x.0 ha, ha)),
        ),
        (
          (λ h.
              let (hu, hs, hf) = at_partial.0 h in
              (false→not is_unknown is hu, any→Some is_succeeded is hs, any→Some is_failed is hf)),
          (λ x.
              at_partial.1
                (not→false is_unknown is x.0, Some→any is_succeeded x.1, Some→any is_failed x.2)),
        ),
        (
          (λ h.
              let (hu, hs, hf) = at_failed.0 h in
              (false→not is_unknown is hu, false→not is_succeeded is hs, any→Some is_failed is hf)),
          (λ x.
              at_failed.1 (
                not→false is_unknown is x.0,
                not→false is_succeeded is x.1,
                Some→any is_failed x.2,
              )),
        ),
      )
