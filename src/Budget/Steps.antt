-- ===== src/Budget/Steps.antt =====
-- What the private helpers of `BudgetService` do where the account is known: each helper as one
-- equation, so that the proofs about the methods can leave it shut.
use cr_agent.Prelude.{ℕ, ◌+◌, String, ◌≡◌, refl, Option, none, some, List, [], ◌∷◌, ◌++◌, arith}
use cr_agent.Prelude.Dict.{Dict, get, put, get-put_self, put-put}
use cr_agent.Prelude.Exec.{ok}
use cr_agent.Budget.Models.{
  BudgetAccount, BudgetReservation, BudgetLedgerEntry, EntryType, UsageState,
}
use cr_agent.Budget.Ledger.{entry, project}
use cr_agent.Budget.State.{
  Service, Saved, save, account_of, reservation_of, append, persist, reservations_of, get_summary,
  find_account, account_or_task, entries_of,
}

-- The account after an append.
abbrev pub advance : BudgetAccount → BudgetAccount
advance acc = record acc { last_sequence = acc.last_sequence + 1; revision = acc.revision + 1 }

abbrev pub next_entry :
    String → EntryType → ℕ → ℕ → Option UsageState → BudgetAccount → BudgetLedgerEntry
next_entry entry_id t amount reserved usage acc =
    entry entry_id t amount (acc.last_sequence + 1) reserved usage

-- The state in which account `a` is `acc` with the ledger `es`.
abbrev pub with_account : String → BudgetAccount → List BudgetLedgerEntry → Service → Service
with_account a acc es s = record s { accounts = put s.accounts a acc; entries = put s.entries a es }

-- What is saved of account `a`.
abbrev pub row_of : String → BudgetAccount → List BudgetLedgerEntry → Service → Saved
row_of a acc es s = record { account = acc; entries = es; reservations = reservations_of s a }

-- The state after the account has moved on and was saved.
abbrev pub moved : String → BudgetAccount → List BudgetLedgerEntry → Service → Service
moved a acc es s = save (row_of a acc es (with_account a acc es s)) (with_account a acc es s)

pub entries_of-eq :
    (a : String) (es : List BudgetLedgerEntry) (s : Service)
    → get s.entries a ≡ some es
    → entries_of a s ≡ (ok es, s)
unfolding entries_of
entries_of-eq a es s h = rw h

module _ (a : String) {acc : BudgetAccount} {es : List BudgetLedgerEntry} (s : Service)
    (known : get s.accounts a ≡ some acc) (ledger : get s.entries a ≡ some es) where
  pub append-eq :
      (entry_id : String) (t : EntryType) (amount reserved : ℕ) (usage : Option UsageState)
      → append entry_id a t amount reserved usage s ≡ (
        ok (next_entry entry_id t amount reserved usage acc),
        with_account a (advance acc) (es ++ next_entry entry_id t amount reserved usage acc ∷ []) s,
      )
  unfolding append
  append-eq entry_id t amount reserved usage = rw (known, ledger)

  pub persist-eq : persist a s ≡ (ok tt, save (row_of a acc es s) s)
  unfolding persist
  persist-eq = ground arith

  pub account_or_task-eq : account_or_task a s ≡ (ok acc, s)
  unfolding account_or_task
  account_or_task-eq =
      let found : find_account s a ≡ some acc = rw (known, find_account) in rw found

  pub get_summary-eq :
      acc.account_id ≡ a
      → get_summary a none s ≡ (ok (project acc.task_id acc.state es acc.pending_revalidation), s)
  unfolding get_summary
  get_summary-eq own =
      rw account_or_task-eq (rw (entries_of-eq acc.account_id es s (rw own ledger)))

  pub account_of-eq : account_of a s ≡ (ok acc, s)
  unfolding account_of
  account_of-eq = rw known

pub reservation_of-eq :
    (rid : String) {r : BudgetReservation} (s : Service)
    → get s.reservations rid ≡ some r
    → reservation_of rid s ≡ (ok r, s)
unfolding reservation_of
reservation_of-eq rid s h = rw h

-- The usual end of a method: an account that has just moved on is saved.
pub persist-moved :
    (a : String) (acc : BudgetAccount) (es : List BudgetLedgerEntry) (s : Service)
    → persist a (with_account a acc es s) ≡ (ok tt, moved a acc es s)
persist-moved a acc es s =
    persist-eq a (with_account a acc es s) (get-put_self s.accounts a acc)
      (get-put_self s.entries a es)

pub with_account_again :
    (a : String) (acc acc' : BudgetAccount) (es es' : List BudgetLedgerEntry) (s : Service)
    → with_account a acc' es' (with_account a acc es s) ≡ with_account a acc' es' s
with_account_again a acc acc' es es' s =
    simp (put-put s.accounts a acc acc', put-put s.entries a es es')

pub replace_account :
    (a : String) (acc acc' : BudgetAccount) (es : List BudgetLedgerEntry) (s : Service)
    → record (with_account a acc es s) { accounts = put (put s.accounts a acc) a acc' }
      ≡ with_account a acc' es s
replace_account a acc acc' es s = simp (put-put s.accounts a acc acc')

-- An append to an account that has just moved on.
pub append_moved :
    (a : String) (acc : BudgetAccount) (es : List BudgetLedgerEntry) (s : Service)
    (entry_id : String) (t : EntryType) (amount reserved : ℕ) (usage : Option UsageState)
    → append entry_id a t amount reserved usage (with_account a acc es s) ≡ (
      ok (next_entry entry_id t amount reserved usage acc),
      with_account a (advance acc) (es ++ next_entry entry_id t amount reserved usage acc ∷ []) s,
    )
append_moved a acc es s entry_id t amount reserved usage =
    rw
      (append-eq a (with_account a acc es s) (get-put_self s.accounts a acc)
        (get-put_self s.entries a es) entry_id t amount reserved usage)
      (rw (
        with_account_again a acc (advance acc) es
          (es ++ next_entry entry_id t amount reserved usage acc ∷ []) s))

saved_frame_cases :
    (o : Option (Dict Saved)) (row : Saved) (s : Service)
    → let t : Service = elim o [
      | none ↦ s
      | some d ↦ record s { store = some (put d row.account.task_id row) }
    ] in
      (t.accounts ≡ s.accounts) × (t.entries ≡ s.entries) × (t.reservations ≡ s.reservations)
saved_frame_cases none row s = (refl, refl, refl)
saved_frame_cases (some d) row s = (refl, refl, refl)

-- Saving changes the store alone.
pub saved_frame :
    (row : Saved) (s : Service)
    → ((save row s).accounts ≡ s.accounts)
      × ((save row s).entries ≡ s.entries)
      × ((save row s).reservations ≡ s.reservations)
saved_frame row s = saved_frame_cases s.store row s

pub moved_known :
    (a : String) (acc : BudgetAccount) (es : List BudgetLedgerEntry) (s : Service)
    → (get (moved a acc es s).accounts a ≡ some acc) × (get (moved a acc es s).entries a ≡ some es)
moved_known a acc es s =
    let there : Service = with_account a acc es s in
    let frame = saved_frame (row_of a acc es there) there in
    (rw frame.0 (get-put_self s.accounts a acc), rw frame.1 (get-put_self s.entries a es))
