-- ===== src/Budget/Sound/Release.antt =====
-- Releasing an unsent reservation keeps the invariant.
use cr_agent.Prelude.{String, ◌≡◌, refl, true, none, some, List, [], ◌∷◌, ◌++◌, arith}
use cr_agent.Prelude.Dict.{get, put}
use cr_agent.Prelude.Exec.{ok}
use cr_agent.Budget.Models.{
  BudgetAccount, BudgetReservation, BudgetLedgerEntry, EntryType, ReservationState, is_active,
}
use cr_agent.Budget.Ledger.{entry}
use cr_agent.Budget.State.{Service, reservation_of}
use cr_agent.Budget.Steps.{moved, persist-moved, advance, next_entry, append-eq, reservation_of-eq}
use cr_agent.Budget.Settlement.{release_unsent_reservation}
use cr_agent.Budget.Sound.{IsSound}
use cr_agent.Budget.Sound.Closing.{Closes, closing-IsSound, by_reservation, Home}

abbrev pub released_copy : BudgetReservation → BudgetReservation
released_copy r = record r { state = ReservationState.released }

abbrev release_entry : String → BudgetReservation → BudgetAccount → BudgetLedgerEntry
release_entry eid r acc = next_entry eid EntryType.reservation_released r.amount r.amount none acc

module _ (eid rid : String) {r : BudgetReservation} (s : Service)
    (found : get s.reservations rid ≡ some r) (act : is_active r.state ≡ true)
    (home : Home s r.account_id) where
  abbrev taken : Service
  taken = record s { reservations = put s.reservations rid (released_copy r) }

  abbrev ledger' : List BudgetLedgerEntry
  ledger' = home.es ++ release_entry eid r home.acc ∷ []

  pub released-eq :
      release_unsent_reservation eid rid s
      ≡ (ok (released_copy r), moved r.account_id (advance home.acc) ledger' taken)
  unfolding release_unsent_reservation
  released-eq = rw (reservation_of-eq rid s found) (
      rw act (
        rw
          (append-eq r.account_id taken home.known home.ledger eid EntryType.reservation_released
            r.amount r.amount none)
          (rw (persist-moved r.account_id (advance home.acc) ledger' taken))))

  released-Closes : Closes r home.acc (advance home.acc) (release_entry eid r home.acc ∷ [])
  unfolding entry
  released-Closes = record {
    same_id = refl;
    no_creation = refl;
    no_authorization = refl;
    ends = omega arith;
    uses = λ o p. (o, p, omega arith);
  }

  released-IsSound : IsSound s → IsSound (release_unsent_reservation eid rid s).1
  released-IsSound sound = rw released-eq (
      closing-IsSound s rid (released_copy r) found refl act refl sound home (advance home.acc)
        (release_entry eid r home.acc ∷ []) released-Closes)

-- Whatever the reservation, and whether or not the call raises, the invariant is kept.
pub release-IsSound :
    (eid rid : String) (s : Service) → IsSound s → IsSound (release_unsent_reservation eid rid s).1
release-IsSound eid rid s sound =
    by_reservation (release_unsent_reservation eid rid) rid s sound
      (λ missing. unfold release_unsent_reservation reservation_of in rw missing)
      (λ r found done.
        unfold release_unsent_reservation in rw (reservation_of-eq rid s found) (rw done))
      (λ r found act home. released-IsSound eid rid s found act home sound)
