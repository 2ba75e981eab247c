-- ===== src/Budget/Settlement.antt =====
-- How a reservation ends (domain/budget/service.py): released unsent, settled by a known usage, or
-- settled by an uncertain one.
use cr_agent.Prelude.{
  ℕ, ◌+◌, ◌-◌, max, String, Bool, true, false, not, Option, none, some, leb, ◌==◌, if◌then◌else◌,
}
use cr_agent.Prelude.Dict.{put}
use cr_agent.Prelude.Exec.{pure, raise_if, modify, ◌>>=◌, ◌>>◌}
use cr_agent.Prelude.Int.{ℤ, pos_part, is_negative}
use cr_agent.Budget.Models.{
  BudgetReservation, BudgetSettlement, NormalizedActualUsage, AccountState, ReservationState,
  UsageState, EntryType, is_active, total, already_settled, bad_usage_state, negative_usage,
}
use cr_agent.Budget.State.{Action, account_of, reservation_of, append, persist}

unfoldable pub release_unsent_reservation : String → String → Action BudgetReservation
release_unsent_reservation entry_id reservation_id = do
  reservation ← reservation_of reservation_id
  raise_if (not (is_active reservation.state)) already_settled
  let updated = record reservation { state = ReservationState.released }
  modify (λ s. record s { reservations = put s.reservations reservation_id updated })
  append entry_id reservation.account_id EntryType.reservation_released reservation.amount
      reservation.amount none
  persist reservation.account_id
  pure updated

-- The overage branch of `settle_known_usage`: record it and freeze the account.
unfoldable pub freeze_overage : String → String → String → String → ℕ → Action Unit
freeze_overage overage_id freeze_id applied_id account_id overage = do
  append overage_id account_id EntryType.usage_overage_recorded overage 0 none
  account ← account_of account_id
  let frozen = record account {
    state = AccountState.frozen_overage;
    active_freeze_id = some freeze_id;
    revision = account.revision + 1;
  }
  modify (λ s. record s { accounts = put s.accounts account.account_id frozen })
  append applied_id account.account_id EntryType.freeze_applied 0 0 none
  pure tt

unfoldable pub settle_known_usage :
    String → String → String → String → String → NormalizedActualUsage → Action BudgetSettlement
settle_known_usage entry_id overage_id freeze_id applied_id reservation_id usage = do
  reservation ← reservation_of reservation_id
  raise_if (not (is_active reservation.state)) already_settled
  let actual = total usage
  let overage = actual - reservation.amount
  let updated = record reservation {
    state = ReservationState.settled_known;
    usage_state = UsageState.known;
    actual_usage = some actual;
  }
  modify (λ s. record s { reservations = put s.reservations reservation_id updated })
  append entry_id reservation.account_id EntryType.usage_settled actual reservation.amount none
  if overage == 0
      then pure tt
      else freeze_overage overage_id freeze_id applied_id reservation.account_id overage
  persist reservation.account_id
  pure (record { reservation = updated; actual_usage = actual; overage = overage })

abbrev pub is_uncertain : UsageState → Bool
is_uncertain UsageState.known = false
is_uncertain UsageState.missing = true
is_uncertain UsageState.untrusted = true

-- `reported_usage is not None and reported_usage < 0`
abbrev pub reported_negative : Option ℤ → Bool
reported_negative none = false
reported_negative (some z) = is_negative z

-- `reported_usage or 0`
abbrev pub reported_amount : Option ℤ → ℕ
reported_amount none = 0
reported_amount (some z) = pos_part z

-- The branch for a usage above the reservation: the account waits for a revalidation.
unfoldable pub mark_pending : String → Action Unit
mark_pending account_id = do
  account ← account_of account_id
  modify (λ s. record s {
    accounts =
        put s.accounts account.account_id
          (record account { pending_revalidation = true; revision = account.revision + 1 });
  })

-- The argument `reason` is not read by the code.
unfoldable pub settle_uncertain_usage :
    String → String → UsageState → Option ℤ → Action BudgetReservation
settle_uncertain_usage entry_id reservation_id usage_state reported_usage = do
  reservation ← reservation_of reservation_id
  raise_if (not (is_active reservation.state)) already_settled
  raise_if (not (is_uncertain usage_state)) bad_usage_state
  raise_if (reported_negative reported_usage) negative_usage
  let amount = max reservation.amount (reported_amount reported_usage)
  let updated = record reservation {
    state = ReservationState.settled_uncertain;
    usage_state = usage_state;
    actual_usage = some amount;
  }
  modify (λ s. record s { reservations = put s.reservations reservation_id updated })
  append entry_id reservation.account_id EntryType.unknown_committed amount reservation.amount
      (some usage_state)
  if leb amount reservation.amount then pure tt else mark_pending reservation.account_id
  persist reservation.account_id
  pure updated
