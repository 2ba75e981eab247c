-- ===== src/Budget/Service.antt =====
-- `BudgetService` (domain/budget/service.py), method by method. What `uuid4()` returns comes first
-- among the arguments, in the order in which the code draws it.
use cr_agent.Prelude.{
  ℕ, ◌+◌, String, false, not, ◌||◌, Option, none, some, List, [], ◌∷◌, leb, ◌==◌, str_eq, is_some,
  if◌then◌else◌,
}
use cr_agent.Prelude.Dict.{get, put, contains}
use cr_agent.Prelude.Exec.{pure, gets, or_raise, raise_if, modify, ◌>>=◌, ◌>>◌}
use cr_agent.Prelude.Int.{ℤ, pos, pos_part, is_negative, within, ◌+ℤ◌}
use cr_agent.Budget.Models.{
  BudgetAccount, BudgetReservation, ProviderHardBudgetCapability, ReservationDenied, AccountState,
  ReservationState, UsageState, EntryType, account_valid, reservation_valid, is_open,
  max_authorization, invalid_budget, account_exists, store_required, state_not_found,
  authorization_mismatch, capability_incompatible, reservation_exists, prepared_request_mismatch,
  bad_account, bad_reservation, budget_frozen, insufficient_budget,
}
use cr_agent.Budget.Ledger.{entry, authorized}
use cr_agent.Budget.State.{Service, Saved, Action, account_of, append, persist, get_summary}

-- `self._store is not None and self._store.load_budget_state(task_id) is not None`
abbrev pub stored : Service → String → Option Saved
stored s task_id = elim s.store [ none ↦ none | some d ↦ get d task_id ]

unfoldable pub create_account : String → String → String → ℤ → String → Action BudgetAccount
create_account account_id entry_id task_id requested_tokens capability_ref = do
  raise_if (not (within 1 max_authorization requested_tokens)) invalid_budget
  raise_if (← gets (λ s. is_some (stored s task_id))) account_exists
  let account : BudgetAccount = record {
    account_id = account_id;
    task_id = task_id;
    unit = "token";
    state = AccountState.open_account;
    revision = 1;
    last_sequence = 1;
    provider_capability_baseline_ref = capability_ref;
    active_freeze_id = none;
    pending_revalidation = false;
  }
  raise_if (not (account_valid account)) bad_account
  modify (λ s. record s { accounts = put s.accounts account_id account })
  modify (λ s. record s {
    entries =
        put s.entries account_id (
          entry entry_id EntryType.authorization_initial (pos_part requested_tokens) 1 0 none ∷ []);
  })
  persist account_id
  pure account

-- `validate_initial_authorization`
unfoldable pub validate_initial_authorization :
    String → String → String → ℤ → String → Action BudgetAccount
unfolding create_account
validate_initial_authorization account_id entry_id task_id requested_tokens capability_ref =
    create_account account_id entry_id task_id requested_tokens capability_ref

-- The loop over the saved reservations in `restore_account`.
abbrev pub restore_reservations : List BudgetReservation → Service → Service
restore_reservations [] s = s
restore_reservations (r ∷ rs) s = restore_reservations rs (record s {
  reservations = put s.reservations r.reservation_id r;
  calls = put s.calls r.model_call_id r.reservation_id;
})

unfoldable pub restore_account : String → ℤ → String → Action BudgetAccount
restore_account task_id requested_tokens capability_ref = do
  raise_if (not (← gets (λ s. is_some s.store))) store_required
  saved ← or_raise (← gets (λ s. stored s task_id)) state_not_found
  raise_if
      (is_negative requested_tokens || not (authorized saved.entries == pos_part requested_tokens))
      authorization_mismatch
  raise_if (not (str_eq saved.account.provider_capability_baseline_ref capability_ref))
      capability_incompatible
  modify (λ s. record s {
    accounts = put s.accounts saved.account.account_id saved.account;
    entries = put s.entries saved.account.account_id saved.entries;
  })
  modify (restore_reservations saved.reservations)
  pure saved.account

pub data Reserved : Type 0 where
  granted : BudgetReservation → Reserved
  denied : ReservationDenied → Reserved

-- The end of `prepare_reservation`, once the amount is known to fit.
unfoldable pub grant :
    String
    → String
    → String
    → BudgetAccount
    → String
    → String
    → ℕ
    → ℕ
    → String
    → String
    → Action Reserved
grant rid entry_id account_id account model_call_id work_unit_id input_bound output_max digest
      capability_ref =
    do
      let reservation : BudgetReservation = record {
        reservation_id = rid;
        account_id = account_id;
        task_id = account.task_id;
        model_call_id = model_call_id;
        work_unit_id = work_unit_id;
        input_bound = input_bound;
        output_max = output_max;
        amount = input_bound + output_max;
        prepared_request_digest = digest;
        capability_ref = capability_ref;
        state = ReservationState.active;
        usage_state = UsageState.known;
        actual_usage = none;
      }
      raise_if (not (reservation_valid reservation)) bad_reservation
      modify (λ s. record s { reservations = put s.reservations rid reservation })
      modify (λ s. record s { calls = put s.calls model_call_id rid })
      append entry_id account_id EntryType.reservation_created reservation.amount 0 none
      persist account_id
      pure (granted reservation)

-- The checks of the bounds and of the balance; a request that does not fit is denied, not raised.
unfoldable pub reserve :
    String
    → String
    → String
    → BudgetAccount
    → String
    → String
    → ℤ
    → ℤ
    → String
    → String
    → Action Reserved
reserve rid entry_id account_id account model_call_id work_unit_id input_bound output_max digest
      capability_ref =
    do
      raise_if
          (is_negative input_bound
            || is_negative output_max
            || pos_part input_bound + pos_part output_max == 0)
          invalid_budget
      let amount = pos_part input_bound + pos_part output_max
      summary ← get_summary account_id none
      if leb amount summary.spendable_budget
          then grant rid entry_id account_id account model_call_id work_unit_id
              (pos_part input_bound) (pos_part output_max) digest capability_ref
          else pure (
              denied (record {
                code = insufficient_budget;
                account_id = account_id;
                requested = pos amount;
                available = summary.spendable_budget;
              }))

unfoldable pub prepare_reservation :
    String
    → String
    → String
    → String
    → String
    → ℤ
    → ℤ
    → String
    → ProviderHardBudgetCapability
    → Action Reserved
prepare_reservation rid entry_id account_id model_call_id work_unit_id input_bound output_max digest
      capability =
    do
      account ← account_of account_id
      if not (is_open account.state) || account.pending_revalidation
          then pure (
              denied (record {
                code = budget_frozen;
                account_id = account_id;
                requested = input_bound +ℤ output_max;
                available = 0;
              }))
          else do
            raise_if (← gets (λ s. contains s.calls model_call_id)) reservation_exists
            raise_if
                (not capability.valid
                  || not (str_eq capability.capability_id account.provider_capability_baseline_ref))
                capability_incompatible
            raise_if
                (not (str_eq capability.prepared_request_digest digest)
                  || not (str_eq capability.token_counted_request_digest digest))
                prepared_request_mismatch
            reserve rid entry_id account_id account model_call_id work_unit_id input_bound
                output_max digest capability.capability_id
