-- ===== src/Budget/State.antt =====
-- The state of `BudgetService` (domain/budget/service.py) and its private helpers. The optional
-- store keeps one saved triple for each task, as `save_budget_state` and `load_budget_state` say.
use cr_agent.Prelude.{
  ℕ, ◌+◌, String, Option, none, some, List, [], ◌∷◌, ◌++◌, ◌||◌, ltb, leb, str_eq, keep,
}
use cr_agent.Prelude.Dict.{Dict, get, put, values}
use cr_agent.Prelude.Int.{ℤ, pos_part, is_negative}
use cr_agent.Prelude.Exec.{ok, Exec, pure, gets, or_raise, raise_if, modify, ◌>>=◌, ◌>>◌}
use cr_agent.Budget.Models.{
  Error, BudgetAccount, BudgetReservation, BudgetLedgerEntry, BudgetSummary, EntryType, UsageState,
  account_not_found, reservation_not_found, key_error, version_unavailable,
}
use cr_agent.Budget.Ledger.{entry, project}

pub record Saved : Type 0 where
  pub account : BudgetAccount
  pub entries : List BudgetLedgerEntry
  pub reservations : List BudgetReservation

pub record Service : Type 0 where
  pub store : Option (Dict Saved)
  pub accounts : Dict BudgetAccount
  pub entries : Dict (List BudgetLedgerEntry)
  pub reservations : Dict BudgetReservation
  pub calls : Dict String

abbrev pub Action : Type 0 → Type 0
Action = Exec Service Error

-- `BudgetService(store)`
abbrev pub new_service : Option (Dict Saved) → Service
new_service store = record {
  store = store;
  accounts = [];
  entries = [];
  reservations = [];
  calls = [];
}

-- `_account`
unfoldable pub account_of : String → Action BudgetAccount
account_of account_id = do or_raise (← gets (λ s. get s.accounts account_id)) account_not_found

-- `_reservation`
unfoldable pub reservation_of : String → Action BudgetReservation
reservation_of reservation_id = do
  or_raise (← gets (λ s. get s.reservations reservation_id)) reservation_not_found

-- `self._entries[account_id]`
unfoldable pub entries_of : String → Action (List BudgetLedgerEntry)
entries_of account_id = do or_raise (← gets (λ s. get s.entries account_id)) key_error

-- The only account of a task, if there is just one.
abbrev pub only : List BudgetAccount → Option BudgetAccount
only [] = none
only (a ∷ []) = some a
only (a ∷ b ∷ r) = none

-- `_account_or_task`
abbrev pub find_account : Service → String → Option BudgetAccount
find_account s identifier = elim (get s.accounts identifier) [
  | some a ↦ some a
  | none ↦ only (keep (λ a. str_eq a.task_id identifier) (values s.accounts))
]

unfoldable pub account_or_task : String → Action BudgetAccount
account_or_task identifier = do or_raise (← gets (λ s. find_account s identifier)) account_not_found

-- `_append`: the account is read first, then the entries grow, then the account moves on.
unfoldable pub append :
    String → String → EntryType → ℕ → ℕ → Option UsageState → Action BudgetLedgerEntry
unfolding account_of entries_of entry
append entry_id account_id entry_type amount reservation_amount usage_state = do
  account ← account_of account_id
  let e =
      entry entry_id entry_type amount (account.last_sequence + 1) reservation_amount usage_state
  old ← entries_of account_id
  modify (λ s. record s { entries = put s.entries account_id (old ++ e ∷ []) })
  modify (λ s. record s {
    accounts =
        put s.accounts account_id
          (record account { last_sequence = e.sequence; revision = account.revision + 1 });
  })
  pure e

-- `tuple(r for r in self._reservations.values() if r.account_id == account_id)`
abbrev pub reservations_of : Service → String → List BudgetReservation
reservations_of s account_id = keep (λ r. str_eq r.account_id account_id) (values s.reservations)

-- What `save_budget_state` writes: one row for each task.
abbrev pub save : Saved → Service → Service
save row s = elim s.store [
  | none ↦ s
  | some d ↦ record s { store = some (put d row.account.task_id row) }
]

abbrev pub persist_stored : String → Action Unit
persist_stored account_id = do
  account ← account_of account_id
  entries ← entries_of account_id
  modify (λ s.
      save
        (record {
          account = account;
          entries = entries;
          reservations = reservations_of s account_id;
        })
        s)

-- `_persist`
unfoldable pub persist : String → Action Unit
unfolding account_of entries_of
persist account_id s = elim s.store [ none ↦ (ok tt, s) | some _ ↦ persist_stored account_id s ]

-- The ledger up to a version, if one is asked for.
abbrev pub prefix :
    Option ℤ → BudgetAccount → List BudgetLedgerEntry → Action (List BudgetLedgerEntry)
prefix none account entries = pure entries
prefix (some v) account entries = do
  raise_if (is_negative v || ltb account.last_sequence (pos_part v)) version_unavailable
  pure (keep (λ e. leb e.sequence (pos_part v)) entries)

-- `get_summary`
unfoldable pub get_summary : String → Option ℤ → Action BudgetSummary
get_summary identifier ledger_version = do
  account ← account_or_task identifier
  entries ← entries_of account.account_id
  entries ← prefix ledger_version account entries
  pure (project account.task_id account.state entries account.pending_revalidation)
