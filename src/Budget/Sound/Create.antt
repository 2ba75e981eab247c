-- ===== src/Budget/Sound/Create.antt =====
-- A new account keeps the invariant.
use cr_agent.Prelude.{
  ℕ, ◌+◌, String, ◌≡◌, refl, true, false, inl, inr, none, List, [], ◌∷◌, arith, is_some, Bool-cases,
  ◌∙◌, ap,
}
use cr_agent.Prelude.Exec.{ok}
use cr_agent.Prelude.Int.{ℤ, pos_part, within}
use cr_agent.Prelude.Dict.{get, contains}
use cr_agent.Budget.Models.{
  BudgetAccount, BudgetLedgerEntry, AccountState, EntryType, account_valid, max_authorization,
}
use cr_agent.Budget.Ledger.{entry, created, ended}
use cr_agent.Budget.State.{Service}
use cr_agent.Budget.Steps.{with_account, moved, persist-moved}
use cr_agent.Budget.Service.{stored, create_account}
use cr_agent.Budget.Sound.{IsSound, IsFine, ledger_of, outstanding}
use cr_agent.Budget.Sound.Closing.{contains_not}
use cr_agent.Budget.Sound.Moving.{moving-IsSound}

abbrev pub new_account : String → String → String → BudgetAccount
new_account a task_id ref = record {
  account_id = a;
  task_id = task_id;
  unit = "token";
  state = AccountState.open_account;
  revision = 1;
  last_sequence = 1;
  provider_capability_baseline_ref = ref;
  active_freeze_id = none;
  pending_revalidation = false;
}

abbrev pub first_entry : String → ℕ → List BudgetLedgerEntry
first_entry eid n = entry eid EntryType.authorization_initial n 1 0 none ∷ []

-- An account that is not there has nothing reserved.
pub nothing_held :
    (a : String) (s : Service)
    → IsSound s
    → get s.accounts a ≡ none
    → outstanding a s.reservations ≡ 0
nothing_held a s sound new =
    let paired : contains s.entries a ≡ false = sound.paired a ∙ ap is_some new in
    let empty : get s.entries a ≡ none = contains_not paired in
    let backed : created (ledger_of s a) ≡ ended (ledger_of s a) + outstanding a s.reservations =
      sound.backed a in
    let zero_sum : 0 ≡ 0 + outstanding a s.reservations = (rw empty at backed) in omega arith

module _ (a eid task_id : String) (requested : ℤ) (ref : String) (s : Service) where
  pub create-eq :
      within 1 max_authorization requested ≡ true
      → is_some (stored s task_id) ≡ false
      → account_valid (new_account a task_id ref) ≡ true
      → create_account a eid task_id requested ref s ≡ (
        ok (new_account a task_id ref),
        moved a (new_account a task_id ref) (first_entry eid (pos_part requested)) s,
      )
  unfolding create_account
  create-eq range free valid = rw range (
      rw free (
        rw valid (
          rw (
            persist-moved a (new_account a task_id ref) (first_entry eid (pos_part requested)) s))))

  module _ (sound : IsSound s) (new : get s.accounts a ≡ none) where
    new-IsFine :
        within 1 max_authorization requested ≡ true
        → IsFine
            (with_account a (new_account a task_id ref) (first_entry eid (pos_part requested)) s)
            a
            (new_account a task_id ref)
            (first_entry eid (pos_part requested))
    unfolding entry
    new-IsFine range = record {
      own = refl;
      backed = omega (arith, nothing_held a s sound new);
      bounded = ground arith;
      covered = λ o p. omega (arith, nothing_held a s sound new);
    }

    -- The id of the account is new.
    pub create_account-IsSound : IsSound (create_account a eid task_id requested ref s).1
    unfolding create_account
    create_account-IsSound = elim (Bool-cases (within 1 max_authorization requested)) [
      | inr bad ↦ rw bad sound
      | inl range ↦ elim (Bool-cases (is_some (stored s task_id))) [
        | inl old ↦ rw range (rw old sound)
        | inr free ↦ elim (Bool-cases (account_valid (new_account a task_id ref))) [
          | inr bad ↦ rw range (rw free (rw bad sound))
          | inl valid ↦ rw (create-eq range free valid) (
              moving-IsSound s a (new_account a task_id ref) (first_entry eid (pos_part requested))
                sound (new-IsFine range))
        ]
      ]
    ]
