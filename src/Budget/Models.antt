-- ===== src/Budget/Models.antt =====
-- Value objects of the token budget (domain/budget/models.py). Timestamps are left out: no budget
-- decision reads them.
use cr_agent.Prelude.{
  ℕ, ◌+◌, String, Bool, true, false, ◌&&◌, not, Option, ltb, leb, ◌==◌, str_eq, all, [], ◌∷◌,
  if◌then◌else◌,
}
use cr_agent.Prelude.Exec.{Result, ok, err}
use cr_agent.Prelude.Int.{ℤ, pos_part, within, is_negative}

abbrev pub max_authorization : ℕ
max_authorization = 1000000

-- What the budget code raises, by message.
pub data Error : Type 0 where
  bad_token_amount bad_authorization : Error
  invalid_budget account_exists store_required state_not_found authorization_mismatch : Error
  capability_incompatible reservation_exists prepared_request_mismatch already_settled : Error
  bad_usage_state negative_usage authorization_limit_exceeded version_unavailable : Error
  account_not_found reservation_not_found key_error bad_account bad_reservation : Error

pub data AccountState : Type 0 where
  open_account frozen_overage closed : AccountState

pub data ReservationState : Type 0 where
  active released settled_known settled_uncertain : ReservationState

pub data UsageState : Type 0 where
  known missing untrusted : UsageState

pub data EntryType : Type 0 where
  authorization_initial authorization_added reservation_created reservation_released : EntryType
  usage_settled unknown_committed usage_overage_recorded : EntryType
  freeze_applied freeze_cleared account_closed : EntryType

abbrev pub is_open : AccountState → Bool
is_open AccountState.open_account = true
is_open _ = false

abbrev pub is_active : ReservationState → Bool
is_active ReservationState.active = true
is_active _ = false

-- `TokenAmount(value)`
pub token_amount : ℤ → Result Error ℕ
token_amount z = if is_negative z then err bad_token_amount else ok (pos_part z)

-- `TokenAmount.authorization(value)`
pub authorization : ℤ → Result Error ℕ
unfolding token_amount
authorization z =
    if not (within 1 max_authorization z) then err bad_authorization else token_amount z

pub record BudgetAccount : Type 0 where
  pub account_id : String
  pub task_id : String
  pub unit : String
  pub state : AccountState
  pub revision : ℕ
  pub last_sequence : ℕ
  pub provider_capability_baseline_ref : String
  pub active_freeze_id : Option String
  pub pending_revalidation : Bool

-- The check of `BudgetAccount.__post_init__`.
abbrev pub account_valid : BudgetAccount → Bool
account_valid a =
    not (str_eq a.account_id "")
    && not (str_eq a.task_id "")
    && str_eq a.unit "token"
    && leb 1 a.revision

pub record NormalizedActualUsage : Type 0 where
  pub input_tokens : ℕ
  pub output_tokens : ℕ

abbrev pub total : NormalizedActualUsage → ℕ
total u = u.input_tokens + u.output_tokens

pub record ProviderHardBudgetCapability : Type 0 where
  pub capability_id : String
  pub provider_id : String
  pub provider_version : String
  pub model_id : String
  pub origin : String
  pub prepared_request_digest : String
  pub token_counted_request_digest : String
  pub max_output_enforced : Bool
  pub usage_mapping_trusted : Bool
  pub retries_disabled : Bool
  pub valid : Bool

-- The check of `ProviderHardBudgetCapability.__post_init__`.
abbrev pub capability_valid : ProviderHardBudgetCapability → Bool
capability_valid c =
    all (λ s. not (str_eq s ""))
      (c.capability_id ∷ c.provider_id ∷ c.provider_version ∷ c.model_id ∷ c.origin
        ∷ c.prepared_request_digest ∷ c.token_counted_request_digest ∷ [])
    && str_eq c.prepared_request_digest c.token_counted_request_digest

pub record BudgetReservation : Type 0 where
  pub reservation_id : String
  pub account_id : String
  pub task_id : String
  pub model_call_id : String
  pub work_unit_id : String
  pub input_bound : ℕ
  pub output_max : ℕ
  pub amount : ℕ
  pub prepared_request_digest : String
  pub capability_ref : String
  pub state : ReservationState
  pub usage_state : UsageState
  pub actual_usage : Option ℕ

-- The check of `BudgetReservation.__post_init__`.
abbrev pub reservation_valid : BudgetReservation → Bool
reservation_valid r =
    not (str_eq r.reservation_id "")
    && not (str_eq r.account_id "")
    && not (str_eq r.task_id "")
    && r.amount == r.input_bound + r.output_max
    && ltb 0 r.amount

-- `ReservationDenied`: its code is one of two.
pub data DenialCode : Type 0 where
  budget_frozen insufficient_budget : DenialCode

pub record ReservationDenied : Type 0 where
  pub code : DenialCode
  pub account_id : String
  pub requested : ℤ
  pub available : ℕ

pub record BudgetSettlement : Type 0 where
  pub reservation : BudgetReservation
  pub actual_usage : ℕ
  pub overage : ℕ

pub record BudgetLedgerEntry : Type 0 where
  pub entry_id : String
  pub entry_type : EntryType
  pub amount : ℕ
  pub sequence : ℕ
  pub reservation_amount : ℕ
  pub usage_state : Option UsageState

pub record BudgetSummary : Type 0 where
  pub task_id : String
  pub ledger_version : ℕ
  pub authorized : ℕ
  pub known_consumption : ℕ
  pub uncertain_consumption : ℕ
  pub active_reservations : ℕ
  pub released_reservations : ℕ
  pub overage : ℕ
  pub remaining_budget : ℕ
  pub authorization_deficit : ℕ
  pub spendable_budget : ℕ
  pub account_state : AccountState
  pub pending_revalidation : Bool

-- `BudgetSummary.committed`
abbrev pub committed : BudgetSummary → ℕ
committed b = b.known_consumption + b.uncertain_consumption + b.active_reservations
