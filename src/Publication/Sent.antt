-- ===== src/Publication/Sent.antt =====
-- Which remote comments an action requests, in general.
use cr_agent.Prelude.{inl, inr, ◌≡◌, sym, ◌∙◌, ap, List, [], ◌∷◌, ◌++◌, append-nil}
use cr_agent.Prelude.Exec.{Result-cases, ◌>>=◌}
use cr_agent.Publication.Models.{PublicationItem}
use cr_agent.Publication.State.{Publication, Action}

-- `js` are some of the items, in their order, each at most once and each with the property.
pub data Requested (P : PublicationItem → Type 0)
    : List PublicationItem → List PublicationItem → Type 0 where
  stop : {is : List PublicationItem} → Requested P is []
  pass :
      {i : PublicationItem} {is js : List PublicationItem}
      → Requested P is js
      → Requested P (i ∷ is) js
  request :
      {i : PublicationItem} {is js : List PublicationItem}
      → P i
      → Requested P is js
      → Requested P (i ∷ is) (i ∷ js)

-- The action requests a list of items with the property.
abbrev pub Sends : {A : Type 0} → (List PublicationItem → Type 0) → Action A → Type 0
Sends R m = (s : Publication) → (js : List PublicationItem) × ((m s).1.sent ≡ s.sent ++ js) × R js

-- The action requests nothing.
abbrev pub IsQuiet : {A : Type 0} → Action A → Type 0
IsQuiet m = (s : Publication) → (m s).1.sent ≡ s.sent

module _ {A B : Type 0} where
  pub bind-IsQuiet :
      (m : Action A) (f : A → Action B) → IsQuiet m → ((a : A) → IsQuiet (f a)) → IsQuiet (m >>= f)
  bind-IsQuiet m f hm hf s = elim (Result-cases (m s).0) [
    | inl (a, e) ↦ rw e (hf a (m s).1 ∙ hm s)
    | inr (x, e) ↦ rw e (hm s)
  ]

  -- A quiet action before one that sends.
  pub bind-Sends :
      (R : List PublicationItem → Type 0) (m : Action A) (f : A → Action B)
      → R []
      → IsQuiet m
      → ((a : A) → Sends R (f a))
      → Sends R (m >>= f)
  bind-Sends R m f r hm hf s = elim (Result-cases (m s).0) [
    | inl (a, e) ↦ let (js, h, q) = hf a (m s).1 in (js, rw e (h ∙ ap (λ l. l ++ js) (hm s)), q)
    | inr (x, e) ↦ ([], rw e (hm s ∙ sym (append-nil s.sent)), r)
  ]

  -- A quiet action after it.
  pub Sends-bind :
      (R : List PublicationItem → Type 0) (m : Action A) (f : A → Action B)
      → Sends R m
      → ((a : A) → IsQuiet (f a))
      → Sends R (m >>= f)
  Sends-bind R m f hm hf s = elim (Result-cases (m s).0) [
    | inl (a, e) ↦ let (js, h, q) = hm s in (js, rw e (hf a (m s).1 ∙ h), q)
    | inr (x, e) ↦ let (js, h, q) = hm s in (js, rw e h, q)
  ]

pub IsQuiet-Sends :
    {A : Type 0} (R : List PublicationItem → Type 0) (m : Action A) → R [] → IsQuiet m → Sends R m
IsQuiet-Sends R m r h s = ([], h s ∙ sym (append-nil s.sent), r)
