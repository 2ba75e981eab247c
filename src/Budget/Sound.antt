-- ===== src/Budget/Sound.antt =====
-- The invariant of `BudgetService`: every account has its ledger, the ledger agrees with the
-- reservations that are still active, and an account that may spend has not spent too much.
pub mod Closing
pub mod Release
pub mod Known
pub mod Uncertain
pub mod Moving
pub mod Reserve
pub mod Create
pub mod Authorize
pub mod Restore
use cr_agent.Prelude.{
  ℕ, ◌+◌, ◌≤◌, String, ◌≡◌, refl, ◌≢◌, Bool, true, false, not, ◌&&◌, Option, none, some, List, [],
  ◌∷◌, ◌++◌, arith, if◌then◌else◌, is_some, sum_of, str_eq, eq_iff,
}
use cr_agent.Prelude.Dict.{Dict, get, put, values, contains, get-put, sum-put_old, sum-put_new}
use cr_agent.Budget.Models.{
  BudgetAccount, BudgetReservation, BudgetLedgerEntry, is_open, is_active, max_authorization,
}
use cr_agent.Budget.Ledger.{authorized, known, uncertain, created, ended}
use cr_agent.Budget.State.{Service}

-- What a reservation still holds of account `a`.
abbrev pub held : String → BudgetReservation → ℕ
held a r = if str_eq r.account_id a then (if is_active r.state then r.amount else 0) else 0

abbrev pub outstanding : String → Dict BudgetReservation → ℕ
outstanding a rs = sum_of (held a) (values rs)

abbrev pub entries_or : Option (List BudgetLedgerEntry) → List BudgetLedgerEntry
entries_or none = []
entries_or (some es) = es

-- The ledger of an account; empty if there is none.
abbrev pub ledger_of : Service → String → List BudgetLedgerEntry
ledger_of s a = entries_or (get s.entries a)

-- Known and uncertain use and what is still held stay within what was authorized.
abbrev pub IsCovered : List BudgetLedgerEntry → ℕ → Type 0
IsCovered es outstanding = known es + uncertain es + outstanding ≤ authorized es

pub record IsSound (s : Service) : Type 0 where
  pub own : (a : String) (acc : BudgetAccount) → get s.accounts a ≡ some acc → acc.account_id ≡ a
  pub paired : (a : String) → contains s.entries a ≡ contains s.accounts a
  pub owned :
      (rid : String) (r : BudgetReservation)
      → get s.reservations rid ≡ some r
      → contains s.accounts r.account_id ≡ true
  pub backed :
      (a : String) → created (ledger_of s a) ≡ ended (ledger_of s a) + outstanding a s.reservations
  pub bounded : (a : String) → authorized (ledger_of s a) ≤ max_authorization
  pub covered :
      (a : String) (acc : BudgetAccount)
      → get s.accounts a ≡ some acc
      → is_open acc.state ≡ true
      → acc.pending_revalidation ≡ false
      → IsCovered (ledger_of s a) (outstanding a s.reservations)

-- One account and its ledger move on, and the reservations of the other accounts stay.
pub record Update (s s' : Service) (a : String) (acc : BudgetAccount) (es : List BudgetLedgerEntry)
    : Type 0 where
  pub accounts :
      (j : String) → get s'.accounts j ≡ (if str_eq a j then some acc else get s.accounts j)
  pub entries : (j : String) → get s'.entries j ≡ (if str_eq a j then some es else get s.entries j)
  pub others : (j : String) → a ≢ j → outstanding j s'.reservations ≡ outstanding j s.reservations
  pub owners :
      (rid : String) (r : BudgetReservation)
      → get s'.reservations rid ≡ some r
      → r.account_id ≢ a
      → contains s.accounts r.account_id ≡ true

pub record IsFine (s' : Service) (a : String) (acc : BudgetAccount) (es : List BudgetLedgerEntry)
    : Type 0 where
  pub own : acc.account_id ≡ a
  pub backed : created es ≡ ended es + outstanding a s'.reservations
  pub bounded : authorized es ≤ max_authorization
  pub covered :
      is_open acc.state ≡ true
      → acc.pending_revalidation ≡ false
      → IsCovered es (outstanding a s'.reservations)

module _ {s s' : Service} {a : String} {acc : BudgetAccount} {es : List BudgetLedgerEntry}
    (sound : IsSound s) (u : Update s s' a acc es) (fine : IsFine s' a acc es) where
  update-own : (j : String) (x : BudgetAccount) → get s'.accounts j ≡ some x → x.account_id ≡ j
  update-own j x h = ground (arith, u.accounts j, sound.own j x, eq_iff a j, fine.own)

  update-paired : (j : String) → contains s'.entries j ≡ contains s'.accounts j
  update-paired j = ground (arith, u.accounts j, u.entries j, sound.paired j)

  update-owned :
      (rid : String) (r : BudgetReservation)
      → get s'.reservations rid ≡ some r
      → contains s'.accounts r.account_id ≡ true
  update-owned rid r h =
      ground (arith, u.owners rid r h, u.accounts r.account_id, eq_iff a r.account_id)

  update-backed :
      (j : String)
      → created (ledger_of s' j) ≡ ended (ledger_of s' j) + outstanding j s'.reservations
  update-backed j = ground (arith, u.entries j, u.others j, eq_iff a j, sound.backed j, fine.backed)

  update-bounded : (j : String) → authorized (ledger_of s' j) ≤ max_authorization
  update-bounded j = ground (arith, u.entries j, sound.bounded j, fine.bounded)

  update-IsCovered :
      (j : String) (x : BudgetAccount)
      → get s'.accounts j ≡ some x
      → is_open x.state ≡ true
      → x.pending_revalidation ≡ false
      → IsCovered (ledger_of s' j) (outstanding j s'.reservations)
  update-IsCovered j x h o p =
      ground
        (arith, u.entries j, u.accounts j, u.others j, eq_iff a j, sound.covered j x, fine.covered)

  pub update-IsSound : IsSound s'
  update-IsSound = record {
    own = update-own;
    paired = update-paired;
    owned = update-owned;
    backed = update-backed;
    bounded = update-bounded;
    covered = update-IsCovered;
  }
