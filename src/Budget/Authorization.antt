-- ===== src/Budget/Authorization.antt =====
-- More authorization, and the end of a freeze (domain/budget/service.py).
use cr_agent.Prelude.{◌+◌, String, Bool, true, false, not, ◌||◌, none, ltb, str_eq, if◌then◌else◌}
use cr_agent.Prelude.Dict.{put}
use cr_agent.Prelude.Exec.{pure, raise_if, modify, ◌>>=◌, ◌>>◌}
use cr_agent.Prelude.Int.{ℤ, pos_part}
use cr_agent.Budget.Models.{
  BudgetAccount, ProviderHardBudgetCapability, AccountState, EntryType, max_authorization,
  committed, invalid_budget, authorization_limit_exceeded,
}
use cr_agent.Budget.State.{Action, account_of, append, persist, get_summary}

-- The account that was read before the append is written back after it.
unfoldable pub add_authorization : String → String → ℤ → Action BudgetAccount
add_authorization entry_id account_id amount = do
  raise_if (not (ltb 0 (pos_part amount))) invalid_budget
  account ← account_of account_id
  summary ← get_summary account_id none
  raise_if (ltb max_authorization (summary.authorized + pos_part amount))
      authorization_limit_exceeded
  append entry_id account_id EntryType.authorization_added (pos_part amount) 0 none
  let updated = record account { revision = account.revision + 1 }
  modify (λ s. record s { accounts = put s.accounts account_id updated })
  persist account_id
  pure updated

-- The branch of `evaluate_unfreeze` that reopens the account.
unfoldable pub unfreeze : String → String → BudgetAccount → Action Unit
unfreeze entry_id account_id account = do
  modify (λ s. record s {
    accounts = put s.accounts account_id (record account {
      state = AccountState.open_account;
      active_freeze_id = none;
      pending_revalidation = false;
      revision = account.revision + 1;
    });
  })
  append entry_id account_id EntryType.freeze_cleared 0 0 none
  persist account_id

abbrev pub is_frozen : AccountState → Bool
is_frozen AccountState.frozen_overage = true
is_frozen _ = false

unfoldable pub evaluate_unfreeze :
    String → String → ProviderHardBudgetCapability → Bool → Action Bool
evaluate_unfreeze entry_id account_id capability explicit_resume = do
  account ← account_of account_id
  if not explicit_resume
        || not capability.valid
        || not (str_eq capability.capability_id account.provider_capability_baseline_ref)
      then pure false
      else do
        summary ← get_summary account_id none
        if ltb summary.authorized (committed summary) then pure false else do
          if is_frozen account.state || account.pending_revalidation
              then unfreeze entry_id account_id account
              else pure tt
          pure true
