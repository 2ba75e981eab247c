-- ===== src/Budget/Sound/Known.antt =====
-- Settling a known usage keeps the invariant: within the reservation it uses no more than was held,
-- above it the account is frozen.
use cr_agent.Prelude.{
  ℕ, ◌+◌, ◌-◌, ◌==◌, String, ◌≡◌, refl, true, false, inl, inr, none, some, List, [], ◌∷◌, ◌++◌,
  arith, Bool-cases, append_assoc,
}
use mathlib.Core.Path.{subst}
use cr_agent.Prelude.Dict.{get, put, get-put_self}
use cr_agent.Prelude.Exec.{ok}
use cr_agent.Budget.Models.{
  BudgetAccount, BudgetReservation, BudgetLedgerEntry, EntryType, ReservationState, AccountState,
  UsageState, NormalizedActualUsage, BudgetSettlement, total, is_active,
}
use cr_agent.Budget.Ledger.{entry}
use cr_agent.Budget.State.{Service, reservation_of}
use cr_agent.Budget.Steps.{
  with_account, moved, persist-moved, replace_account, append_moved, account_of-eq, advance,
  next_entry, append-eq, reservation_of-eq,
}
use cr_agent.Budget.Settlement.{settle_known_usage, freeze_overage}
use cr_agent.Budget.Sound.{IsSound}
use cr_agent.Budget.Sound.Closing.{Closes, closing-IsSound, by_reservation, Home}

abbrev pub settled_copy : BudgetReservation → ℕ → BudgetReservation
settled_copy r actual = record r {
  state = ReservationState.settled_known;
  usage_state = UsageState.known;
  actual_usage = some actual;
}

abbrev usage_entry : String → BudgetReservation → ℕ → BudgetAccount → BudgetLedgerEntry
usage_entry eid r actual acc = next_entry eid EntryType.usage_settled actual r.amount none acc

abbrev overage_entry : String → ℕ → BudgetAccount → BudgetLedgerEntry
overage_entry eid n acc = next_entry eid EntryType.usage_overage_recorded n 0 none acc

abbrev freeze_entry : String → BudgetAccount → BudgetLedgerEntry
freeze_entry eid acc = next_entry eid EntryType.freeze_applied 0 0 none acc

abbrev frozen : String → BudgetAccount → BudgetAccount
frozen freeze_id acc = record acc {
  state = AccountState.frozen_overage;
  active_freeze_id = some freeze_id;
  revision = acc.revision + 1;
}

abbrev frozen_ledger :
    String → String → String → ℕ → BudgetAccount → List BudgetLedgerEntry → List BudgetLedgerEntry
frozen_ledger overage_id freeze_id applied_id n acc es =
    (es ++ overage_entry overage_id n acc ∷ [])
    ++ freeze_entry applied_id (frozen freeze_id (advance acc)) ∷ []

module _ (overage_id freeze_id applied_id : String) (n : ℕ) (acc : BudgetAccount)
    (es : List BudgetLedgerEntry) (s : Service) where
  abbrev once : List BudgetLedgerEntry
  once = es ++ overage_entry overage_id n acc ∷ []

  freeze_own :
      freeze_overage overage_id freeze_id applied_id acc.account_id n
        (with_account acc.account_id acc es s)
      ≡ (
        ok tt,
        with_account acc.account_id
            (advance (frozen freeze_id (advance acc)))
            (frozen_ledger overage_id freeze_id applied_id n acc es)
            s,
      )
  unfolding freeze_overage
  freeze_own =
      rw (append_moved acc.account_id acc es s overage_id EntryType.usage_overage_recorded n 0 none)
        (rw
          (account_of-eq acc.account_id (with_account acc.account_id (advance acc) once s)
            (get-put_self s.accounts acc.account_id (advance acc))
            (get-put_self s.entries acc.account_id once))
          (rw (replace_account acc.account_id (advance acc) (frozen freeze_id (advance acc)) once s)
            (rw (
              append_moved acc.account_id (frozen freeze_id (advance acc)) once s applied_id
                EntryType.freeze_applied 0 0 none))))

  freeze_overage-eq :
      (a : String)
      → acc.account_id ≡ a
      → freeze_overage overage_id freeze_id applied_id a n (with_account a acc es s) ≡ (
        ok tt,
        with_account a
            (advance (frozen freeze_id (advance acc)))
            (frozen_ledger overage_id freeze_id applied_id n acc es)
            s,
      )
  freeze_overage-eq a own =
      subst
        (λ a. freeze_overage overage_id freeze_id applied_id a n (with_account a acc es s) ≡ (
          ok tt,
          with_account a (advance (frozen freeze_id (advance acc)))
              (frozen_ledger overage_id freeze_id applied_id n acc es) s,
        ))
        own freeze_own

module _ (eid oid fid apid rid : String) (usage : NormalizedActualUsage) {r : BudgetReservation}
    (s : Service) (found : get s.reservations rid ≡ some r) (act : is_active r.state ≡ true)
    (home : Home s r.account_id) where
  abbrev taken : Service
  taken = record s { reservations = put s.reservations rid (settled_copy r (total usage)) }

  abbrev used : BudgetLedgerEntry
  used = usage_entry eid r (total usage) home.acc

  abbrev excess : ℕ
  excess = total usage - r.amount

  abbrev settlement : BudgetSettlement
  settlement = record {
    reservation = settled_copy r (total usage);
    actual_usage = total usage;
    overage = excess;
  }

  -- What the overage branch adds to the ledger.
  abbrev freezing : List BudgetLedgerEntry
  freezing =
      overage_entry oid excess (advance home.acc)
      ∷ freeze_entry apid (frozen fid (advance (advance home.acc)))
      ∷ []

  pub settle_within-eq :
      (excess == 0) ≡ true
      → settle_known_usage eid oid fid apid rid usage s
        ≡ (ok settlement, moved r.account_id (advance home.acc) (home.es ++ used ∷ []) taken)
  unfolding settle_known_usage
  settle_within-eq small = rw (reservation_of-eq rid s found) (
      rw act (
        rw
          (append-eq r.account_id taken home.known home.ledger eid EntryType.usage_settled
            (total usage) r.amount none)
          (rw small
            (rw (persist-moved r.account_id (advance home.acc) (home.es ++ used ∷ []) taken)))))

  regroup :
      frozen_ledger oid fid apid excess (advance home.acc) (home.es ++ used ∷ [])
      ≡ home.es ++ (used ∷ freezing)
  regroup = simp append_assoc

  abbrev frozen_account : BudgetAccount
  frozen_account = advance (frozen fid (advance (advance home.acc)))

  pub settle_above-eq :
      (excess == 0) ≡ false
      → settle_known_usage eid oid fid apid rid usage s
        ≡ (ok settlement, moved r.account_id frozen_account (home.es ++ (used ∷ freezing)) taken)
  unfolding settle_known_usage
  settle_above-eq large = rw (reservation_of-eq rid s found) (
      rw act (
        rw
          (append-eq r.account_id taken home.known home.ledger eid EntryType.usage_settled
            (total usage) r.amount none)
          (rw large (
            rw
              (freeze_overage-eq oid fid apid excess (advance home.acc) (home.es ++ used ∷ []) taken
                r.account_id home.own)
              (rw regroup (
                rw (
                  persist-moved r.account_id frozen_account (home.es ++ (used ∷ freezing))
                    taken)))))))

  within-Closes : (excess == 0) ≡ true → Closes r home.acc (advance home.acc) (used ∷ [])
  unfolding entry
  within-Closes small = record {
    same_id = refl;
    no_creation = refl;
    no_authorization = refl;
    ends = omega arith;
    uses = λ o p. (o, p, ground arith);
  }

  above-Closes : Closes r home.acc frozen_account (used ∷ freezing)
  unfolding entry
  above-Closes = record {
    same_id = refl;
    no_creation = refl;
    no_authorization = refl;
    ends = omega arith;
    uses = λ o p. cc o;
  }

  settled-IsSound : IsSound s → IsSound (settle_known_usage eid oid fid apid rid usage s).1
  settled-IsSound sound = elim (Bool-cases (excess == 0)) [
    | inl small ↦ rw (settle_within-eq small) (
        closing-IsSound s rid (settled_copy r (total usage)) found refl act refl sound home
          (advance home.acc) (used ∷ []) (within-Closes small))
    | inr large ↦ rw (settle_above-eq large) (
        closing-IsSound s rid (settled_copy r (total usage)) found refl act refl sound home
          frozen_account (used ∷ freezing) above-Closes)
  ]

-- Whatever the usage, and whether or not the call raises, the invariant is kept.
pub settle_known-IsSound :
    (eid oid fid apid rid : String) (usage : NormalizedActualUsage) (s : Service)
    → IsSound s
    → IsSound (settle_known_usage eid oid fid apid rid usage s).1
settle_known-IsSound eid oid fid apid rid usage s sound =
    by_reservation (settle_known_usage eid oid fid apid rid usage) rid s sound
      (λ missing. unfold settle_known_usage reservation_of in rw missing)
      (λ r found done. unfold settle_known_usage in rw (reservation_of-eq rid s found) (rw done))
      (λ r found act home. settled-IsSound eid oid fid apid rid usage s found act home sound)
