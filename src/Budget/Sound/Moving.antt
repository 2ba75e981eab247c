-- ===== src/Budget/Sound/Moving.antt =====
-- An account moves on and no reservation changes.
use cr_agent.Prelude.{
  ◌+◌, ◌≤◌, String, ◌≡◌, refl, true, false, List, [], ◌∷◌, ◌++◌, arith, sum_of-append,
}
use cr_agent.Prelude.Dict.{get-put}
use cr_agent.Budget.Models.{BudgetAccount, BudgetLedgerEntry, is_open, max_authorization}
use cr_agent.Budget.Ledger.{
  created, ended, authorized, known, uncertain, amount_if, ended_amount, is_usage, is_unknown,
  is_authorization, is_created,
}
use cr_agent.Budget.State.{Service}
use cr_agent.Budget.Steps.{with_account, moved, row_of}
use cr_agent.Budget.Sound.{
  IsSound, Update, IsFine, IsCovered, ledger_of, update-IsSound, outstanding,
}
use cr_agent.Budget.Sound.Closing.{save-IsSound, Home}

module _ (s : Service) (a : String) (acc : BudgetAccount) (es : List BudgetLedgerEntry) where
  moving-Update : IsSound s → Update s (with_account a acc es s) a acc es
  moving-Update sound = record {
    accounts = λ j. get-put s.accounts a j acc;
    entries = λ j. get-put s.entries a j es;
    others = λ j h. refl;
    owners = λ rid r h _. sound.owned rid r h;
  }

  pub moving-IsSound :
      IsSound s → IsFine (with_account a acc es s) a acc es → IsSound (moved a acc es s)
  moving-IsSound sound fine =
      save-IsSound (row_of a acc es (with_account a acc es s)) (with_account a acc es s)
        (update-IsSound sound (moving-Update sound) fine)

-- What the invariant says of one account and its ledger.
module _ {s : Service} {a : String} (sound : IsSound s) (home : Home s a) where
  home-ledger : ledger_of s a ≡ home.es
  home-ledger = rw home.ledger

  pub home-backed : created home.es ≡ ended home.es + outstanding a s.reservations
  home-backed = rw home-ledger at (sound.backed a)

  pub home-bounded : authorized home.es ≤ max_authorization
  home-bounded = rw home-ledger at (sound.bounded a)

  pub home-IsCovered :
      is_open home.acc.state ≡ true
      → home.acc.pending_revalidation ≡ false
      → IsCovered home.es (outstanding a s.reservations)
  home-IsCovered o p = rw home-ledger at (sound.covered a home.acc home.known o p)

-- The sums over a ledger with one more entry.
pub sums :
    (es : List BudgetLedgerEntry) (e : BudgetLedgerEntry)
    → (created (es ++ e ∷ []) ≡ created es + amount_if is_created e)
      × (ended (es ++ e ∷ []) ≡ ended es + ended_amount e)
      × (authorized (es ++ e ∷ []) ≡ authorized es + amount_if is_authorization e)
      × (known (es ++ e ∷ []) ≡ known es + amount_if is_usage e)
      × (uncertain (es ++ e ∷ []) ≡ uncertain es + amount_if is_unknown e)
sums es e = omega (
  arith,
  sum_of-append (amount_if is_created) es (e ∷ []),
  sum_of-append ended_amount es (e ∷ []),
  sum_of-append (amount_if is_authorization) es (e ∷ []),
  sum_of-append (amount_if is_usage) es (e ∷ []),
  sum_of-append (amount_if is_unknown) es (e ∷ []),
)
