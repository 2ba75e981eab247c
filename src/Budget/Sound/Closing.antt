-- ===== src/Budget/Sound/Closing.antt =====
-- What the three ways to end a reservation share: an active reservation of account `a` gives way to
-- one that is not active, and the account moves on with a new ledger.
use cr_agent.Prelude.{
  ◌+◌, ◌≤◌, String, ◌≡◌, refl, ◌≢◌, true, false, ◌⊎◌, inl, inr, Option, none, some, List, ◌++◌,
  arith, is_some, eq_iff, sum_of-append, Option-cases, Bool-cases, ◌∙◌,
}
use cr_agent.Prelude.Dict.{Dict, get, put, contains, get-put, sum-put_old}
use cr_agent.Budget.Models.{
  BudgetAccount, BudgetReservation, BudgetLedgerEntry, is_active, is_open, max_authorization,
}
use cr_agent.Budget.Ledger.{
  created, ended, authorized, known, uncertain, amount_if, ended_amount, is_usage, is_unknown,
  is_authorization, is_created,
}
use cr_agent.Budget.State.{Service, Saved, Action, save}
use cr_agent.Budget.Steps.{with_account, moved, row_of}
use cr_agent.Budget.Sound.{
  IsSound, Update, IsFine, IsCovered, ledger_of, update-IsSound, held, outstanding,
}

-- The store is no part of the invariant.
save-IsSound_cases :
    (o : Option (Dict Saved)) (row : Saved) (s : Service)
    → IsSound s
    → IsSound
        (elim o [ none ↦ s | some d ↦ record s { store = some (put d row.account.task_id row) } ])
save-IsSound_cases none row s h = h
save-IsSound_cases (some d) row s h = record {
  own = h.own;
  paired = h.paired;
  owned = h.owned;
  backed = h.backed;
  bounded = h.bounded;
  covered = h.covered;
}

pub save-IsSound : (row : Saved) (s : Service) → IsSound s → IsSound (save row s)
save-IsSound row s h = save-IsSound_cases s.store row s h

pub contains→get {ℓ} : {V : Type ℓ} (o : Option V) → is_some o ≡ true → (v : V) × (o ≡ some v)
contains→get none h = cc
contains→get (some v) h = (v, refl)

pub contains_not {ℓ} : {V : Type ℓ} {o : Option V} → is_some o ≡ false → o ≡ none
contains_not {o = none} h = refl
contains_not {o = some v} h = cc

module _ (s : Service) (rid : String) {r : BudgetReservation} (r' : BudgetReservation)
    (found : get s.reservations rid ≡ some r) (same : r'.account_id ≡ r.account_id) where
  pub outstanding-closing_ne :
      (j : String)
      → r.account_id ≢ j
      → outstanding j (put s.reservations rid r') ≡ outstanding j s.reservations
  outstanding-closing_ne j h = ground (
    arith,
    sum-put_old (held j) s.reservations rid r' found,
    eq_iff r.account_id j,
    eq_iff r'.account_id j,
  )

  pub outstanding-closing :
      is_active r.state ≡ true
      → is_active r'.state ≡ false
      → outstanding r.account_id (put s.reservations rid r') + r.amount
        ≡ outstanding r.account_id s.reservations
  outstanding-closing act done = ground (
    arith,
    sum-put_old (held r.account_id) s.reservations rid r' found,
    eq_iff r.account_id r.account_id,
    eq_iff r'.account_id r.account_id,
  )

  pub closing-owners :
      IsSound s
      → (i : String) (x : BudgetReservation) → get (put s.reservations rid r') i ≡ some x
      → contains s.accounts x.account_id ≡ true
  closing-owners sound i x h = ground (
    arith,
    get-put s.reservations rid i r',
    sound.owned rid r found,
    sound.owned i x,
    eq_iff rid i,
  )

  pub closing-Update :
      (acc : BudgetAccount) (es : List BudgetLedgerEntry)
      → IsSound s
      → Update s
          (with_account r.account_id acc es (record s { reservations = put s.reservations rid r' }))
          r.account_id
          acc
          es
  closing-Update acc es sound = record {
    accounts = λ j. get-put s.accounts r.account_id j acc;
    entries = λ j. get-put s.entries r.account_id j es;
    others = outstanding-closing_ne;
    owners = λ i x h _. closing-owners sound i x h;
  }

-- The account of a reservation, and its ledger.
pub record Home (s : Service) (a : String) : Type 0 where
  pub acc : BudgetAccount
  pub es : List BudgetLedgerEntry
  pub known : get s.accounts a ≡ some acc
  pub ledger : get s.entries a ≡ some es
  pub own : acc.account_id ≡ a

pub Home-contains : (s : Service) (a : String) → IsSound s → contains s.accounts a ≡ true → Home s a
Home-contains s a sound h =
    let (acc, known) = contains→get (get s.accounts a) h in
    let paired : contains s.entries a ≡ true = sound.paired a ∙ h in
    let (es, ledger) = contains→get (get s.entries a) paired in
    record { acc = acc; es = es; known = known; ledger = ledger; own = sound.own a acc known }

-- The new ledger entries release what the reservation held, and use no more than that.
pub record Closes (r : BudgetReservation) (acc acc' : BudgetAccount) (new : List BudgetLedgerEntry)
    : Type 0 where
  pub same_id : acc'.account_id ≡ acc.account_id
  pub no_creation : created new ≡ 0
  pub no_authorization : authorized new ≡ 0
  pub ends : ended new ≡ r.amount
  pub uses :
      is_open acc'.state ≡ true
      → acc'.pending_revalidation ≡ false
      → (is_open acc.state ≡ true)
        × (acc.pending_revalidation ≡ false)
        × (known new + uncertain new ≤ r.amount)

module _ (s : Service) (rid : String) {r : BudgetReservation} (r' : BudgetReservation)
    (found : get s.reservations rid ≡ some r) (same : r'.account_id ≡ r.account_id)
    (act : is_active r.state ≡ true) (done : is_active r'.state ≡ false) (sound : IsSound s)
    (home : Home s r.account_id) (acc' : BudgetAccount) (new : List BudgetLedgerEntry)
    (closes : Closes r home.acc acc' new) where
  abbrev pub closed : Service
  closed =
      with_account r.account_id acc' (home.es ++ new)
        (record s { reservations = put s.reservations rid r' })

  home-ledger : ledger_of s r.account_id ≡ home.es
  home-ledger = rw home.ledger

  was_backed : created home.es ≡ ended home.es + outstanding r.account_id s.reservations
  was_backed = rw home-ledger at (sound.backed r.account_id)

  was_bounded : authorized home.es ≤ max_authorization
  was_bounded = rw home-ledger at (sound.bounded r.account_id)

  was-IsCovered :
      is_open home.acc.state ≡ true
      → home.acc.pending_revalidation ≡ false
      → IsCovered home.es (outstanding r.account_id s.reservations)
  was-IsCovered o p = rw home-ledger at (sound.covered r.account_id home.acc home.known o p)

  closing-IsCovered :
      is_open acc'.state ≡ true
      → acc'.pending_revalidation ≡ false
      → IsCovered (home.es ++ new) (outstanding r.account_id (put s.reservations rid r'))
  closing-IsCovered o p =
      let (o', p', fits) = closes.uses o p in
      omega (
        arith,
        was-IsCovered o' p',
        fits,
        closes.no_authorization,
        outstanding-closing s rid r' found same act done,
        sum_of-append (amount_if is_usage) home.es new,
        sum_of-append (amount_if is_unknown) home.es new,
        sum_of-append (amount_if is_authorization) home.es new,
      )

  closing-IsFine : IsFine closed r.account_id acc' (home.es ++ new)
  closing-IsFine = record {
    own = closes.same_id ∙ home.own;
    backed = omega (
      arith,
      was_backed,
      closes.no_creation,
      closes.ends,
      outstanding-closing s rid r' found same act done,
      sum_of-append (amount_if is_created) home.es new,
      sum_of-append ended_amount home.es new,
    );
    bounded = omega (
      arith,
      was_bounded,
      closes.no_authorization,
      sum_of-append (amount_if is_authorization) home.es new,
    );
    covered = closing-IsCovered;
  }

  pub closing-IsSound : IsSound (
      moved r.account_id acc'
        (home.es ++ new)
        (record s { reservations = put s.reservations rid r' }))
  closing-IsSound = save-IsSound (row_of r.account_id acc' (home.es ++ new) closed) closed (
      update-IsSound sound (closing-Update s rid r' found same acc' (home.es ++ new) sound)
        closing-IsFine)

-- A method that begins with `_reservation` and the test of its state: it raises and changes nothing,
-- or the reservation is active and has a home.
pub by_reservation :
    {A : Type 0} (m : Action A) (rid : String) (s : Service)
    → IsSound s
    → (get s.reservations rid ≡ none → (m s).1 ≡ s)
    → ((r : BudgetReservation)
        → get s.reservations rid ≡ some r
        → is_active r.state ≡ false
        → (m s).1 ≡ s)
    → ((r : BudgetReservation)
        → get s.reservations rid ≡ some r
        → is_active r.state ≡ true
        → Home s r.account_id
        → IsSound (m s).1)
    → IsSound (m s).1
by_reservation m rid s sound missing idle go = from (Option-cases (get s.reservations rid))
  where
    active_or_not :
        (r : BudgetReservation)
        → get s.reservations rid ≡ some r
        → (is_active r.state ≡ true) ⊎ (is_active r.state ≡ false)
        → IsSound (m s).1
    active_or_not r found (inl act) =
        go r found act (Home-contains s r.account_id sound (sound.owned rid r found))
    active_or_not r found (inr done) = rw (idle r found done) sound

    from :
        (get s.reservations rid ≡ none)
          ⊎ ((r : BudgetReservation) × (get s.reservations rid ≡ some r))
        → IsSound (m s).1
    from (inl h) = rw (missing h) sound
    from (inr (r, found)) = active_or_not r found (Bool-cases (is_active r.state))
