-- ===== src/Budget/Sound/Authorize.antt =====
-- More authorization and the end of a freeze keep the invariant.
use cr_agent.Prelude.{
  ◌+◌, ◌-◌, ◌≤◌, String, ◌≡◌, Bool, true, false, not, ◌||◌, inl, inr, none, [], ◌∷◌, ◌++◌, arith,
  str_eq, Bool-cases, ltb,
}
use cr_agent.Prelude.Int.{ℤ, pos_part}
use cr_agent.Prelude.Exec.{ok}
use cr_agent.Prelude.Dict.{put, contains, get-put_self, put-put}
use cr_agent.Budget.Models.{
  BudgetAccount, BudgetLedgerEntry, BudgetSummary, ProviderHardBudgetCapability, AccountState,
  EntryType, committed, max_authorization,
}
use cr_agent.Budget.Ledger.{entry, created, ended, authorized, known, uncertain, project}
use cr_agent.Budget.State.{Service, account_of}
use cr_agent.Budget.Steps.{
  with_account, moved, persist-moved, append-eq, advance, next_entry, account_of-eq, get_summary-eq,
  replace_account,
}
use cr_agent.Budget.Authorization.{add_authorization, evaluate_unfreeze, unfreeze, is_frozen}
use cr_agent.Budget.Sound.{IsSound, IsFine}
use cr_agent.Budget.Sound.Closing.{contains_not, Home-contains, Home}
use cr_agent.Budget.Sound.Moving.{moving-IsSound, home-backed, home-bounded, home-IsCovered, sums}

-- The account that `add_authorization` writes back: it was read before the append.
abbrev pub stale : BudgetAccount → BudgetAccount
stale acc = record acc { revision = acc.revision + 1 }

module _ (eid a : String) (amount : ℤ) (s : Service) (home : Home s a) where
  abbrev more : BudgetLedgerEntry
  more = next_entry eid EntryType.authorization_added (pos_part amount) 0 none home.acc

  pub add_authorization-eq :
      ltb 0 (pos_part amount) ≡ true
      → ltb max_authorization (authorized home.es + pos_part amount) ≡ false
      → add_authorization eid a amount s
        ≡ (ok (stale home.acc), moved a (stale home.acc) (home.es ++ more ∷ []) s)
  unfolding add_authorization project
  add_authorization-eq positive fits = rw positive (
      rw (account_of-eq a s home.known home.ledger) (
        rw (get_summary-eq a s home.known home.ledger home.own) (
          rw fits (
            rw
              (append-eq a s home.known home.ledger eid EntryType.authorization_added
                (pos_part amount) 0 none)
              (rw (replace_account a (advance home.acc) (stale home.acc) (home.es ++ more ∷ []) s)
                (rw (persist-moved a (stale home.acc) (home.es ++ more ∷ []) s)))))))

  more-IsFine :
      IsSound s
      → ltb max_authorization (authorized home.es + pos_part amount) ≡ false
      → IsFine
          (with_account a (stale home.acc) (home.es ++ more ∷ []) s)
          a
          (stale home.acc)
          (home.es ++ more ∷ [])
  unfolding entry
  more-IsFine sound fits = record {
    own = home.own;
    backed = omega (arith, home-backed sound home, sums home.es more);
    bounded = ground (arith, sums home.es more);
    covered = λ o p. omega (arith, home-IsCovered sound home o p, sums home.es more);
  }

  add-IsSound : IsSound s → IsSound (add_authorization eid a amount s).1
  unfolding add_authorization project
  add-IsSound sound = elim (Bool-cases (ltb 0 (pos_part amount))) [
    | inr bad ↦ rw bad sound
    | inl positive ↦
        elim (Bool-cases (ltb max_authorization (authorized home.es + pos_part amount))) [
          | inl over ↦ rw positive (
              rw (account_of-eq a s home.known home.ledger)
                (rw (get_summary-eq a s home.known home.ledger home.own) (rw over sound)))
          | inr fits ↦ rw (add_authorization-eq positive fits) (
              moving-IsSound s a (stale home.acc) (home.es ++ more ∷ []) sound
                (more-IsFine sound fits))
        ]
  ]

-- The total authorization stays within the limit, and the invariant is kept.
pub add_authorization-IsSound :
    (eid a : String) (amount : ℤ) (s : Service)
    → IsSound s
    → IsSound (add_authorization eid a amount s).1
unfolding add_authorization account_of
add_authorization-IsSound eid a amount s sound = elim (Bool-cases (contains s.accounts a)) [
  | inl there ↦ add-IsSound eid a amount s (Home-contains s a sound there) sound
  | inr missing ↦ elim (Bool-cases (ltb 0 (pos_part amount))) [
    | inr bad ↦ rw bad sound
    | inl positive ↦ rw positive (rw (contains_not missing) sound)
  ]
]

abbrev reopened : BudgetAccount → BudgetAccount
reopened acc = record acc {
  state = AccountState.open_account;
  active_freeze_id = none;
  pending_revalidation = false;
  revision = acc.revision + 1;
}

module _ (eid a : String) (s : Service) (home : Home s a) where
  abbrev cleared : BudgetLedgerEntry
  cleared = next_entry eid EntryType.freeze_cleared 0 0 none (reopened home.acc)

  abbrev again : Service
  again = record s { accounts = put s.accounts a (reopened home.acc) }

  forget :
      with_account a (advance (reopened home.acc)) (home.es ++ cleared ∷ []) again
      ≡ with_account a (advance (reopened home.acc)) (home.es ++ cleared ∷ []) s
  forget = simp (put-put s.accounts a (reopened home.acc) (advance (reopened home.acc)))

  pub unfreeze-eq :
      unfreeze eid a home.acc s
      ≡ (ok tt, moved a (advance (reopened home.acc)) (home.es ++ cleared ∷ []) s)
  unfolding unfreeze
  unfreeze-eq =
      rw
        (append-eq a again (get-put_self s.accounts a (reopened home.acc)) home.ledger eid
          EntryType.freeze_cleared 0 0 none)
        (rw forget (rw (persist-moved a (advance (reopened home.acc)) (home.es ++ cleared ∷ []) s)))

  cleared-IsFine :
      IsSound s
      → known home.es + uncertain home.es + (created home.es - ended home.es) ≤ authorized home.es
      → IsFine
          (with_account a (advance (reopened home.acc)) (home.es ++ cleared ∷ []) s)
          a
          (advance (reopened home.acc))
          (home.es ++ cleared ∷ [])
  unfolding entry
  cleared-IsFine sound fits = record {
    own = home.own;
    backed = omega (arith, home-backed sound home, sums home.es cleared);
    bounded = omega (arith, home-bounded sound home, sums home.es cleared);
    covered = λ o p. omega (arith, fits, home-backed sound home, sums home.es cleared);
  }

  abbrev summary : BudgetSummary
  summary = project home.acc.task_id home.acc.state home.es home.acc.pending_revalidation

  refusal : ProviderHardBudgetCapability → Bool → Bool
  refusal c resume =
      not resume
      || not c.valid
      || not (str_eq c.capability_id home.acc.provider_capability_baseline_ref)

  evaluate-IsSound :
      (c : ProviderHardBudgetCapability) (resume : Bool)
      → IsSound s
      → IsSound (evaluate_unfreeze eid a c resume s).1
  unfolding evaluate_unfreeze refusal
  evaluate-IsSound c resume sound =
      rw (account_of-eq a s home.known home.ledger) (elim (Bool-cases (refusal c resume)) [
        | inl refused ↦ rw refused sound
        | inr agreed ↦ rw agreed (
            rw (get_summary-eq a s home.known home.ledger home.own)
              (elim (Bool-cases (ltb summary.authorized (committed summary))) [
                | inl deficit ↦ rw deficit sound
                | inr covered ↦
                    rw covered
                      (elim (Bool-cases
                        (is_frozen home.acc.state || home.acc.pending_revalidation)) [
                          | inr fine ↦ rw fine sound
                          | inl frozen ↦ rw frozen (
                              rw unfreeze-eq (
                                moving-IsSound s a (advance (reopened home.acc))
                                  (home.es ++ cleared ∷ []) sound
                                  (cleared-IsFine sound (unfold project in (ground arith)))))
                        ])
              ]))
      ])

-- An account is reopened only if what it has used is authorized; the invariant is kept.
pub evaluate_unfreeze-IsSound :
    (eid a : String) (c : ProviderHardBudgetCapability) (resume : Bool) (s : Service)
    → IsSound s
    → IsSound (evaluate_unfreeze eid a c resume s).1
unfolding evaluate_unfreeze account_of
evaluate_unfreeze-IsSound eid a c resume s sound = elim (Bool-cases (contains s.accounts a)) [
  | inl there ↦ evaluate-IsSound eid a s (Home-contains s a sound there) c resume sound
  | inr missing ↦ rw (contains_not missing) sound
]
