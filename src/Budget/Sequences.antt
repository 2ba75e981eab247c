-- ===== src/Budget/Sequences.antt =====
-- The numbering of the ledger: `add_authorization` writes back the account that it read before its
-- append, so the sequence number it has just used is given out again.
use cr_agent.Prelude.{
  ℕ, ◌+◌, String, ◌≡◌, refl, true, inl, inr, Option, none, some, List, [], ◌∷◌, ◌++◌, arith, ltb,
  Bool-cases,
}
use cr_agent.Prelude.Int.{ℤ, pos, pos_part}
use cr_agent.Prelude.Exec.{Result, ok, err}
use cr_agent.Prelude.Dict.{get, contains}
use cr_agent.Budget.Models.{
  BudgetAccount, BudgetLedgerEntry, EntryType, UsageState, Error, max_authorization,
  version_unavailable,
}
use cr_agent.Budget.Ledger.{entry, authorized, project}
use cr_agent.Budget.State.{Service, append, get_summary, account_of}
use cr_agent.Budget.Steps.{
  account_or_task-eq, entries_of-eq, append-eq, account_of-eq, get_summary-eq, moved, moved_known,
  next_entry,
}
use cr_agent.Budget.Authorization.{add_authorization}
use cr_agent.Budget.Sound.{IsSound}
use cr_agent.Budget.Sound.Closing.{Home, Home-contains, contains_not}
use cr_agent.Budget.Sound.Authorize.{add_authorization-eq, stale}

-- The account `acc` of state `s` has a ledger whose last entry carries the number that the next
-- append will give out, and that number is no ledger version.
pub record Repeats (a : String) (acc : BudgetAccount) (s : Service) : Type 0 where
  pub old : List BudgetLedgerEntry
  pub newest : BudgetLedgerEntry
  pub stored : get s.accounts a ≡ some acc
  pub ledger : get s.entries a ≡ some (old ++ newest ∷ [])
  pub next :
      (e : String) (t : EntryType) (n k : ℕ) (u : Option UsageState)
      → (x : BudgetLedgerEntry) × ((append e a t n k u s).0 ≡ ok x) × (x.sequence ≡ newest.sequence)
  pub unavailable : get_summary a (some (pos newest.sequence)) s ≡ (err version_unavailable, s)

abbrev pub OnSuccess : {A : Type 0} → (A → Service → Type 0) → Result Error A × Service → Type 0
OnSuccess P (ok x, s) = P x s
OnSuccess P (err e, s) = Unit

beyond : (n : ℕ) → ltb n (n + 1) ≡ true
beyond n = ground arith

module _ (a : String) (acc : BudgetAccount) (es : List BudgetLedgerEntry) (s : Service)
    (known : get s.accounts a ≡ some acc) (ledger : get s.entries a ≡ some es)
    (own : acc.account_id ≡ a) where
  beyond_version :
      get_summary a (some (pos (acc.last_sequence + 1))) s ≡ (err version_unavailable, s)
  unfolding get_summary
  beyond_version =
      rw (account_or_task-eq a s known ledger)
        (rw (entries_of-eq acc.account_id es s (rw own ledger)) (rw (beyond acc.last_sequence)))

module _ (eid a : String) (amount : ℤ) (s : Service) (home : Home s a) where
  abbrev newest' : BudgetLedgerEntry
  newest' = next_entry eid EntryType.authorization_added (pos_part amount) 0 none home.acc

  abbrev done : Service
  done = moved a (stale home.acc) (home.es ++ newest' ∷ []) s

  repeats : Repeats a (stale home.acc) done
  unfolding entry
  repeats =
      let now = moved_known a (stale home.acc) (home.es ++ newest' ∷ []) s in
      record {
        old = home.es;
        newest = newest';
        stored = now.0;
        ledger = now.1;
        next = λ e t n k u. (
          next_entry e t n k u (stale home.acc),
          rw (append-eq a done now.0 now.1 e t n k u),
          refl,
        );
        unavailable =
            beyond_version a (stale home.acc) (home.es ++ newest' ∷ []) done now.0 now.1 home.own;
      }

  after_success : OnSuccess (Repeats a) (add_authorization eid a amount s)
  unfolding add_authorization project
  after_success = elim (Bool-cases (ltb 0 (pos_part amount))) [
    | inr bad ↦ rw bad tt
    | inl positive ↦
        elim (Bool-cases (ltb max_authorization (authorized home.es + pos_part amount))) [
          | inl over ↦ rw positive (
              rw (account_of-eq a s home.known home.ledger)
                (rw (get_summary-eq a s home.known home.ledger home.own) (rw over tt)))
          | inr fits ↦ rw (add_authorization-eq eid a amount s home positive fits) repeats
        ]
  ]

-- Whenever `add_authorization` succeeds, in any state that keeps the invariant, the entry it appends
-- carries the sequence number that the next append to the account gives out again, and asking for
-- the summary at that number raises `budget ledger version not available`.
pub add_authorization-Repeats :
    (eid a : String) (amount : ℤ) (s : Service)
    → IsSound s
    → OnSuccess (Repeats a) (add_authorization eid a amount s)
unfolding add_authorization account_of
add_authorization-Repeats eid a amount s sound = elim (Bool-cases (contains s.accounts a)) [
  | inl there ↦ after_success eid a amount s (Home-contains s a sound there)
  | inr missing ↦ elim (Bool-cases (ltb 0 (pos_part amount))) [
    | inr bad ↦ rw bad tt
    | inl positive ↦ rw positive (rw (contains_not missing) tt)
  ]
]
