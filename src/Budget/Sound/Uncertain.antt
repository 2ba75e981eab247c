-- ===== src/Budget/Sound/Uncertain.antt =====
-- Settling an uncertain usage keeps the invariant: above the reservation the account waits for a
-- revalidation and spends nothing more.
use cr_agent.Prelude.{
  ℕ, ◌+◌, max, leb, String, ◌≡◌, refl, true, false, ◌⊎◌, inl, inr, Option, some, List, [], ◌∷◌,
  ◌++◌, arith, Bool-cases,
}
use cr_agent.Prelude.Int.{ℤ}
use mathlib.Core.Path.{subst}
use cr_agent.Prelude.Dict.{get, put, get-put_self}
use cr_agent.Prelude.Exec.{ok}
use cr_agent.Budget.Models.{
  BudgetAccount, BudgetReservation, BudgetLedgerEntry, EntryType, ReservationState, UsageState,
  is_active,
}
use cr_agent.Budget.Ledger.{entry}
use cr_agent.Budget.State.{Service, reservation_of}
use cr_agent.Budget.Steps.{
  with_account, moved, persist-moved, replace_account, account_of-eq, advance, next_entry,
  append-eq, reservation_of-eq,
}
use cr_agent.Budget.Settlement.{
  settle_uncertain_usage, mark_pending, is_uncertain, reported_negative, reported_amount,
}
use cr_agent.Budget.Sound.{IsSound}
use cr_agent.Budget.Sound.Closing.{Closes, closing-IsSound, by_reservation, Home}

abbrev pub uncertain_copy : BudgetReservation → UsageState → ℕ → BudgetReservation
uncertain_copy r usage_state amount = record r {
  state = ReservationState.settled_uncertain;
  usage_state = usage_state;
  actual_usage = some amount;
}

abbrev waiting : BudgetAccount → BudgetAccount
waiting acc = record acc { pending_revalidation = true; revision = acc.revision + 1 }

module _ (acc : BudgetAccount) (es : List BudgetLedgerEntry) (s : Service) where
  mark_own :
      mark_pending acc.account_id (with_account acc.account_id acc es s)
      ≡ (ok tt, with_account acc.account_id (waiting acc) es s)
  unfolding mark_pending
  mark_own =
      rw
        (account_of-eq acc.account_id (with_account acc.account_id acc es s)
          (get-put_self s.accounts acc.account_id acc) (get-put_self s.entries acc.account_id es))
        (rw (replace_account acc.account_id acc (waiting acc) es s))

  mark_pending-eq :
      (a : String)
      → acc.account_id ≡ a
      → mark_pending a (with_account a acc es s) ≡ (ok tt, with_account a (waiting acc) es s)
  mark_pending-eq a own =
      subst
        (λ a. mark_pending a (with_account a acc es s) ≡ (ok tt, with_account a (waiting acc) es s))
        own mark_own

module _ (eid rid : String) (usage_state : UsageState) (reported : Option ℤ) {r : BudgetReservation}
    (s : Service) (found : get s.reservations rid ≡ some r) (act : is_active r.state ≡ true)
    (proper : is_uncertain usage_state ≡ true) (sign : reported_negative reported ≡ false)
    (home : Home s r.account_id) where
  abbrev amount : ℕ
  amount = max r.amount (reported_amount reported)

  abbrev taken : Service
  taken = record s { reservations = put s.reservations rid (uncertain_copy r usage_state amount) }

  abbrev unknown : BudgetLedgerEntry
  unknown = next_entry eid EntryType.unknown_committed amount r.amount (some usage_state) home.acc

  pub uncertain_within-eq :
      leb amount r.amount ≡ true
      → settle_uncertain_usage eid rid usage_state reported s ≡ (
        ok (uncertain_copy r usage_state amount),
        moved r.account_id (advance home.acc) (home.es ++ unknown ∷ []) taken,
      )
  unfolding settle_uncertain_usage
  uncertain_within-eq small = rw (reservation_of-eq rid s found) (
      rw act (
        rw proper (
          rw sign (
            rw
              (append-eq r.account_id taken home.known home.ledger eid EntryType.unknown_committed
                amount r.amount (some usage_state))
              (rw small (
                rw (
                  persist-moved r.account_id (advance home.acc) (home.es ++ unknown ∷ [])
                    taken)))))))

  pub uncertain_above-eq :
      leb amount r.amount ≡ false
      → settle_uncertain_usage eid rid usage_state reported s ≡ (
        ok (uncertain_copy r usage_state amount),
        moved r.account_id (waiting (advance home.acc)) (home.es ++ unknown ∷ []) taken,
      )
  unfolding settle_uncertain_usage
  uncertain_above-eq large = rw (reservation_of-eq rid s found) (
      rw act (
        rw proper (
          rw sign (
            rw
              (append-eq r.account_id taken home.known home.ledger eid EntryType.unknown_committed
                amount r.amount (some usage_state))
              (rw large (
                rw
                  (mark_pending-eq (advance home.acc) (home.es ++ unknown ∷ []) taken r.account_id
                    home.own)
                  (rw (
                    persist-moved r.account_id (waiting (advance home.acc))
                      (home.es ++ unknown ∷ []) taken))))))))

  within-Closes : leb amount r.amount ≡ true → Closes r home.acc (advance home.acc) (unknown ∷ [])
  unfolding entry
  within-Closes small = record {
    same_id = refl;
    no_creation = refl;
    no_authorization = refl;
    ends = omega arith;
    uses = λ o p. (o, p, ground arith);
  }

  above-Closes : Closes r home.acc (waiting (advance home.acc)) (unknown ∷ [])
  unfolding entry
  above-Closes = record {
    same_id = refl;
    no_creation = refl;
    no_authorization = refl;
    ends = omega arith;
    uses = λ o p. cc p;
  }

  uncertain-IsSound : IsSound s → IsSound (settle_uncertain_usage eid rid usage_state reported s).1
  uncertain-IsSound sound = elim (Bool-cases (leb amount r.amount)) [
    | inl small ↦ rw (uncertain_within-eq small) (
        closing-IsSound s rid (uncertain_copy r usage_state amount) found refl act refl sound home
          (advance home.acc) (unknown ∷ []) (within-Closes small))
    | inr large ↦ rw (uncertain_above-eq large) (
        closing-IsSound s rid (uncertain_copy r usage_state amount) found refl act refl sound home
          (waiting (advance home.acc)) (unknown ∷ []) above-Closes)
  ]

module _ (eid rid : String) (usage_state : UsageState) (reported : Option ℤ) (s : Service) where
  -- The two checks of the arguments come before the first write.
  pub improper-eq :
      (r : BudgetReservation)
      → get s.reservations rid ≡ some r
      → is_active r.state ≡ true
      → (is_uncertain usage_state ≡ false) ⊎ (reported_negative reported ≡ true)
      → (settle_uncertain_usage eid rid usage_state reported s).1 ≡ s
  unfolding settle_uncertain_usage
  improper-eq r found act bad = rw (reservation_of-eq rid s found) (rw act (ground arith))

  by_arguments :
      (r : BudgetReservation)
      → get s.reservations rid ≡ some r
      → is_active r.state ≡ true
      → IsSound s
      → Home s r.account_id
      → IsSound (settle_uncertain_usage eid rid usage_state reported s).1
  by_arguments r found act sound home = elim (Bool-cases (is_uncertain usage_state)) [
    | inr bad ↦ rw (improper-eq r found act (inl bad)) sound
    | inl proper ↦ elim (Bool-cases (reported_negative reported)) [
      | inl bad ↦ rw (improper-eq r found act (inr bad)) sound
      | inr sign ↦ uncertain-IsSound eid rid usage_state reported s found act proper sign home sound
    ]
  ]

-- Whatever the arguments, and whether or not the call raises, the invariant is kept.
pub settle_uncertain-IsSound :
    (eid rid : String) (usage_state : UsageState) (reported : Option ℤ) (s : Service)
    → IsSound s
    → IsSound (settle_uncertain_usage eid rid usage_state reported s).1
settle_uncertain-IsSound eid rid usage_state reported s sound =
    by_reservation (settle_uncertain_usage eid rid usage_state reported) rid s sound
      (λ missing. unfold settle_uncertain_usage reservation_of in rw missing)
      (λ r found done.
        unfold settle_uncertain_usage in rw (reservation_of-eq rid s found) (rw done))
      (λ r found act home. by_arguments eid rid usage_state reported s r found act sound home)
