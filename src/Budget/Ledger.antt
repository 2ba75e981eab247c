-- ===== src/Budget/Ledger.antt =====
-- The ledger and its projection (domain/budget/ledger.py).
use cr_agent.Prelude.{
  ℕ, ◌+◌, ◌-◌, max, String, Bool, true, false, ◌&&◌, not, Option, List, [], ◌∷◌, sum_of,
  if◌then◌else◌,
}
use cr_agent.Budget.Models.{
  AccountState, EntryType, UsageState, BudgetLedgerEntry, BudgetSummary, authorization_initial,
  authorization_added, reservation_created, reservation_released, usage_settled, unknown_committed,
  usage_overage_recorded, is_open,
}

-- `BudgetLedger.entry`: the id is what `uuid4()` returns.
unfoldable pub entry : String → EntryType → ℕ → ℕ → ℕ → Option UsageState → BudgetLedgerEntry
entry entry_id entry_type amount sequence reservation_amount usage_state = record {
  entry_id = entry_id;
  entry_type = entry_type;
  amount = amount;
  sequence = sequence;
  reservation_amount = reservation_amount;
  usage_state = usage_state;
}

abbrev pub is_authorization : EntryType → Bool
is_authorization authorization_initial = true
is_authorization authorization_added = true
is_authorization _ = false

abbrev pub is_usage : EntryType → Bool
is_usage usage_settled = true
is_usage _ = false

abbrev pub is_unknown : EntryType → Bool
is_unknown unknown_committed = true
is_unknown _ = false

abbrev pub is_created : EntryType → Bool
is_created reservation_created = true
is_created _ = false

abbrev pub is_released : EntryType → Bool
is_released reservation_released = true
is_released _ = false

abbrev pub is_overage : EntryType → Bool
is_overage usage_overage_recorded = true
is_overage _ = false

-- The types that end a reservation.
abbrev pub is_ending : EntryType → Bool
is_ending reservation_released = true
is_ending usage_settled = true
is_ending unknown_committed = true
is_ending _ = false

abbrev pub amount_if : (EntryType → Bool) → BudgetLedgerEntry → ℕ
amount_if p e = if p e.entry_type then e.amount else 0

abbrev pub ended_amount : BudgetLedgerEntry → ℕ
ended_amount e = if is_ending e.entry_type then e.reservation_amount else 0

-- The sums of `BudgetLedger.project`, one for each generator expression.
abbrev pub authorized : List BudgetLedgerEntry → ℕ
authorized = sum_of (amount_if is_authorization)

abbrev pub known : List BudgetLedgerEntry → ℕ
known = sum_of (amount_if is_usage)

abbrev pub uncertain : List BudgetLedgerEntry → ℕ
uncertain = sum_of (amount_if is_unknown)

abbrev pub created : List BudgetLedgerEntry → ℕ
created = sum_of (amount_if is_created)

abbrev pub ended : List BudgetLedgerEntry → ℕ
ended = sum_of ended_amount

abbrev pub released : List BudgetLedgerEntry → ℕ
released = sum_of (amount_if is_released)

abbrev pub overage : List BudgetLedgerEntry → ℕ
overage = sum_of (amount_if is_overage)

-- `max((entry.sequence for entry in entries), default=0)`
abbrev pub last_version : List BudgetLedgerEntry → ℕ
last_version [] = 0
last_version (e ∷ es) = max e.sequence (last_version es)

-- `BudgetLedger.project`; `-` stops at 0, as the `max(0, ...)` around each difference does.
unfoldable pub project : String → AccountState → List BudgetLedgerEntry → Bool → BudgetSummary
project task_id account_state entries pending_revalidation =
    let active : ℕ = created entries - ended entries in
    let used : ℕ = known entries + uncertain entries + active in
    let remaining : ℕ = authorized entries - used in
    record {
      task_id = task_id;
      ledger_version = last_version entries;
      authorized = authorized entries;
      known_consumption = known entries;
      uncertain_consumption = uncertain entries;
      active_reservations = active;
      released_reservations = released entries;
      overage = overage entries;
      remaining_budget = remaining;
      authorization_deficit = used - authorized entries;
      spendable_budget = if is_open account_state && not pending_revalidation then remaining else 0;
      account_state = account_state;
      pending_revalidation = pending_revalidation;
    }
