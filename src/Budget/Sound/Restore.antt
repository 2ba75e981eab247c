-- ===== src/Budget/Sound/Restore.antt =====
-- An account that is loaded from the store keeps the invariant, if what is stored is coherent and
-- neither the account nor its reservations are there yet.
use cr_agent.Prelude.{
  ◌+◌, ◌≤◌, String, ◌≡◌, refl, ◌≢◌, sym, ◌∙◌, ap, true, false, not, ◌||◌, none, some, List, [], ◌∷◌,
  arith, All, ◌⊎◌, inl, inr, is_some, sum_of, str_eq, eq_iff, ◌==◌, Bool-cases,
}
use cr_agent.Prelude.Dict.{Dict, get, put, get-put, sum-put_new}
use cr_agent.Prelude.Int.{ℤ, pos_part, is_negative}
use cr_agent.Prelude.Hoare.{Either-state, returned, raise_if-When, or_raise-When}
use cr_agent.Budget.Models.{Error, BudgetReservation, max_authorization, is_open}
use cr_agent.Budget.Ledger.{authorized, created, ended}
use cr_agent.Budget.State.{Service, Saved}
use cr_agent.Budget.Service.{stored, restore_account, restore_reservations}
use cr_agent.Budget.Sound.{IsSound, IsCovered, Update, held, outstanding, update-IsSound}
use cr_agent.Budget.Sound.Create.{nothing_held}

-- No reservation has an id that is taken.
abbrev pub AllNew : List BudgetReservation → Dict BudgetReservation → Type 0
AllNew [] d = Unit
AllNew (r ∷ rs) d = (get d r.reservation_id ≡ none) × AllNew rs (put d r.reservation_id r)

-- What the store holds of an account: its ledger agrees with its reservations, and neither is loaded.
pub record IsCoherent (row : Saved) (s : Service) : Type 0 where
  pub new : get s.accounts row.account.account_id ≡ none
  pub apart : AllNew row.reservations s.reservations
  pub home : All (λ r. r.account_id ≡ row.account.account_id) row.reservations
  pub backed :
      created row.entries
      ≡ ended row.entries + sum_of (held row.account.account_id) row.reservations
  pub bounded : authorized row.entries ≤ max_authorization
  pub covered :
      is_open row.account.state ≡ true
      → row.account.pending_revalidation ≡ false
      → IsCovered row.entries (sum_of (held row.account.account_id) row.reservations)

-- The loop changes the reservations and calls alone.
pub restore_reservations_frame :
    (rs : List BudgetReservation) (s : Service)
    → ((restore_reservations rs s).accounts ≡ s.accounts)
      × ((restore_reservations rs s).entries ≡ s.entries)
restore_reservations_frame [] s = (refl, refl)
restore_reservations_frame (r ∷ rs) s = restore_reservations_frame rs _

restored_outstanding :
    (j : String) (rs : List BudgetReservation) (s : Service)
    → AllNew rs s.reservations
    → outstanding j (restore_reservations rs s).reservations
      ≡ outstanding j s.reservations + sum_of (held j) rs
restored_outstanding j [] s h = omega arith
restored_outstanding j (r ∷ rs) s h =
    let there : Service = record s {
      reservations = put s.reservations r.reservation_id r;
      calls = put s.calls r.model_call_id r.reservation_id;
    } in
    omega (
      arith,
      restored_outstanding j rs there h.1,
      sum-put_new (held j) s.reservations r.reservation_id r h.0,
    )

restored_owner :
    (a : String) (rs : List BudgetReservation) (s : Service)
    → All (λ r. r.account_id ≡ a) rs
    → (rid : String) (r : BudgetReservation)
    → get (restore_reservations rs s).reservations rid ≡ some r
    → (get s.reservations rid ≡ some r) ⊎ (r.account_id ≡ a)
restored_owner a [] s h rid r e = inl e
restored_owner a (x ∷ rs) s h rid r e =
    let there : Service = record s {
      reservations = put s.reservations x.reservation_id x;
      calls = put s.calls x.model_call_id x.reservation_id;
    } in
    elim (restored_owner a rs there h.1 rid r e) [
      | inr mine ↦ inr mine
      | inl earlier ↦ owner earlier
    ]
  where
    owner :
        get (put s.reservations x.reservation_id x) rid ≡ some r
        → (get s.reservations rid ≡ some r) ⊎ (r.account_id ≡ a)
    owner g = elim (Bool-cases (str_eq x.reservation_id rid)) [
      | inl y ↦
          let found : some x ≡ some r =
            (rw y at (sym (get-put s.reservations x.reservation_id rid x) ∙ g)) in
          let same : x ≡ r = cc found in inr (ap (λ z. z.account_id) (sym same) ∙ h.0)
      | inr n ↦ inl (rw n at (sym (get-put s.reservations x.reservation_id rid x) ∙ g))
    ]

held_elsewhere :
    (a j : String) (rs : List BudgetReservation)
    → All (λ r. r.account_id ≡ a) rs
    → a ≢ j
    → sum_of (held j) rs ≡ 0
held_elsewhere a j [] h e = refl
held_elsewhere a j (r ∷ rs) h e = ground (arith, held_elsewhere a j rs, eq_iff r.account_id j)

module _ (row : Saved) (s : Service) (sound : IsSound s) (fit : IsCoherent row s) where
  abbrev loaded : Service
  loaded = record s {
    accounts = put s.accounts row.account.account_id row.account;
    entries = put s.entries row.account.account_id row.entries;
  }

  abbrev restored : Service
  restored = restore_reservations row.reservations loaded

  restored-Update : Update s restored row.account.account_id row.account row.entries
  restored-Update = record {
    accounts = λ j.
        rw (restore_reservations_frame row.reservations loaded).0
          (get-put s.accounts row.account.account_id j row.account);
    entries = λ j.
        rw (restore_reservations_frame row.reservations loaded).1
          (get-put s.entries row.account.account_id j row.entries);
    others = λ j e. omega (
      arith,
      restored_outstanding j row.reservations loaded fit.apart,
      held_elsewhere row.account.account_id j row.reservations fit.home e,
    );
    owners = λ rid r e other.
        elim (restored_owner row.account.account_id row.reservations loaded fit.home rid r e) [
          | inl earlier ↦ sound.owned rid r earlier
          | inr mine ↦ absurd (other mine)
        ];
  }

  all_held :
      outstanding row.account.account_id restored.reservations
      ≡ sum_of (held row.account.account_id) row.reservations
  all_held = omega (
    arith,
    restored_outstanding row.account.account_id row.reservations loaded fit.apart,
    nothing_held row.account.account_id s sound fit.new,
  )

  pub restored-IsSound : IsSound restored
  restored-IsSound = update-IsSound sound restored-Update (record {
    own = refl;
    backed = omega (arith, fit.backed, all_held);
    bounded = fit.bounded;
    covered = λ o p. omega (arith, fit.covered o p, all_held);
  })

pub restore_account-IsSound :
    (task_id : String) (n : ℤ) (ref : String) (s : Service)
    → IsSound s
    → ((row : Saved) → stored s task_id ≡ some row → IsCoherent row s)
    → IsSound (restore_account task_id n ref s).1
unfolding restore_account
restore_account-IsSound task_id n ref s sound fit =
    Either-state IsSound (restore_account task_id n ref s) (
      raise_if-When IsSound (λ a. IsSound) (not (is_some s.store)) _ s _ sound
        (λ f.
          or_raise-When IsSound (λ a. IsSound) (stored s task_id) _ s _ sound
            (λ row found.
              raise_if-When IsSound (λ a. IsSound)
                (is_negative n || not (authorized row.entries == pos_part n)) _ s _ sound
                (λ g.
                  raise_if-When IsSound (λ a. IsSound)
                    (not (str_eq row.account.provider_capability_baseline_ref ref)) _ s _ sound
                    (λ i.
                      returned Error IsSound (λ a. IsSound) row.account _
                        (restored-IsSound row s sound (fit row found)))))))
