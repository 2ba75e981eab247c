-- ===== src/Budget/Runs.antt =====
-- Any sequence of calls to one `BudgetService`.
use cr_agent.Prelude.{
  ◌+◌, ◌≤◌, String, ◌≡◌, refl, Bool, true, false, Option, none, some, List, [], ◌∷◌, arith, not,
  ◌&&◌, if◌then◌else◌,
}
use cr_agent.Prelude.Int.{ℤ}
use cr_agent.Prelude.Dict.{Dict, get, values, contains}
use cr_agent.Prelude.Exec.{ok}
use cr_agent.Budget.Models.{
  BudgetSummary, NormalizedActualUsage, ProviderHardBudgetCapability, UsageState, committed,
  is_open, max_authorization,
}
use cr_agent.Budget.Ledger.{project}
use cr_agent.Budget.State.{Service, Saved, new_service, get_summary}
use cr_agent.Budget.Steps.{get_summary-eq}
use cr_agent.Budget.Service.{stored, create_account, prepare_reservation, restore_account}
use cr_agent.Budget.Settlement.{
  release_unsent_reservation, settle_known_usage, settle_uncertain_usage,
}
use cr_agent.Budget.Authorization.{add_authorization, evaluate_unfreeze}
use cr_agent.Budget.Sound.{IsSound, outstanding}
use cr_agent.Budget.Sound.Closing.{Home, Home-contains}
use cr_agent.Budget.Sound.Moving.{home-backed, home-bounded, home-IsCovered}
use cr_agent.Budget.Sound.Create.{create_account-IsSound}
use cr_agent.Budget.Sound.Reserve.{prepare_reservation-IsSound}
use cr_agent.Budget.Sound.Release.{release-IsSound}
use cr_agent.Budget.Sound.Known.{settle_known-IsSound}
use cr_agent.Budget.Sound.Uncertain.{settle_uncertain-IsSound}
use cr_agent.Budget.Sound.Restore.{IsCoherent, restore_account-IsSound}
use cr_agent.Budget.Sound.Authorize.{add_authorization-IsSound, evaluate_unfreeze-IsSound}

-- A call with its arguments, the drawn ids first.
pub data Call : Type 0 where
  create : String → String → String → ℤ → String → Call
  prepare :
      String
      → String
      → String
      → String
      → String
      → ℤ
      → ℤ
      → String
      → ProviderHardBudgetCapability
      → Call
  release : String → String → Call
  settle_known : String → String → String → String → String → NormalizedActualUsage → Call
  settle_uncertain : String → String → UsageState → Option ℤ → Call
  authorize : String → String → ℤ → Call
  unfreeze : String → String → ProviderHardBudgetCapability → Bool → Call
  restore : String → ℤ → String → Call

-- The state after a call, whether it returned or raised.
unfoldable pub after : Call → Service → Service
after (create a e t n c) s = (create_account a e t n c s).1
after (prepare r e a m w i o d c) s = (prepare_reservation r e a m w i o d c s).1
after (release e r) s = (release_unsent_reservation e r s).1
after (settle_known e o f p r u) s = (settle_known_usage e o f p r u s).1
after (settle_uncertain e r u n) s = (settle_uncertain_usage e r u n s).1
after (authorize e a n) s = (add_authorization e a n s).1
after (unfreeze e a c b) s = (evaluate_unfreeze e a c b s).1
after (restore t n c) s = (restore_account t n c s).1

unfoldable pub run : List Call → Service → Service
run [] s = s
run (c ∷ cs) s = run cs (after c s)

-- The ids of new accounts and reservations are new, as `uuid4()` makes them, and what the store holds
-- of an account that is restored is coherent and not loaded yet.
abbrev pub IsFresh : Call → Service → Type 0
IsFresh (create a e t n c) s = get s.accounts a ≡ none
IsFresh (prepare r e a m w i o d c) s = get s.reservations r ≡ none
IsFresh (restore t n c) s = (row : Saved) → stored s t ≡ some row → IsCoherent row s
IsFresh _ s = Unit

abbrev pub AllFresh : List Call → Service → Type 0
AllFresh [] s = Unit
AllFresh (c ∷ cs) s = IsFresh c s × AllFresh cs (after c s)

after-IsSound : (c : Call) (s : Service) → IsSound s → IsFresh c s → IsSound (after c s)
unfolding after
after-IsSound (create a e t n c) s h f = create_account-IsSound a e t n c s h f
after-IsSound (prepare r e a m w i o d c) s h f =
    prepare_reservation-IsSound r e a m w i o d s h f c
after-IsSound (release e r) s h f = release-IsSound e r s h
after-IsSound (settle_known e o f p r u) s h g = settle_known-IsSound e o f p r u s h
after-IsSound (settle_uncertain e r u n) s h f = settle_uncertain-IsSound e r u n s h
after-IsSound (authorize e a n) s h f = add_authorization-IsSound e a n s h
after-IsSound (unfreeze e a c b) s h f = evaluate_unfreeze-IsSound e a c b s h
after-IsSound (restore t n c) s h f = restore_account-IsSound t n c s h f

pub run-IsSound : (cs : List Call) (s : Service) → IsSound s → AllFresh cs s → IsSound (run cs s)
unfolding run
run-IsSound [] s h f = h
run-IsSound (c ∷ cs) s h f = run-IsSound cs (after c s) (after-IsSound c s h f.0) f.1

pub new-IsSound : (store : Option (Dict Saved)) → IsSound (new_service store)
unfolding get values
new-IsSound store = record {
  own = λ a acc h. cc h;
  paired = λ a. refl;
  owned = λ rid r h. cc h;
  backed = λ a. refl;
  bounded = λ a. omega arith;
  covered = λ a acc h o p. cc h;
}

-- What a summary says: an account that may spend may spend exactly what is authorized and neither
-- used nor held, and any other account nothing.
abbrev pub IsWithin : BudgetSummary → Type 0
IsWithin b =
    if is_open b.account_state && not b.pending_revalidation
    then (committed b + b.spendable_budget ≡ b.authorized)
    else (b.spendable_budget ≡ 0)

module _ (s : Service) (a : String) (sound : IsSound s) (home : Home s a) where
  abbrev pub summary : BudgetSummary
  summary = project home.acc.task_id home.acc.state home.es home.acc.pending_revalidation

  summary-IsWithin_cases :
      (o p : Bool)
      → is_open home.acc.state ≡ o
      → home.acc.pending_revalidation ≡ p
      → IsWithin summary
  unfolding project
  summary-IsWithin_cases true false ho hp =
      let within = home-IsCovered sound home ho hp in
      let backed = home-backed sound home in rw ho (rw hp (omega arith))
  summary-IsWithin_cases true true ho hp = rw ho (rw hp refl)
  summary-IsWithin_cases false p ho hp = rw ho refl

  summary-IsWithin : IsWithin summary
  summary-IsWithin =
      summary-IsWithin_cases (is_open home.acc.state) home.acc.pending_revalidation refl refl

  summary-active : summary.active_reservations ≡ outstanding a s.reservations
  unfolding project
  summary-active = omega (arith, home-backed sound home)

  summary-authorized : summary.authorized ≤ max_authorization
  unfolding project
  summary-authorized = home-bounded sound home

-- After any calls on a new service, with new ids for new accounts and reservations, and with what the
-- store holds coherent and not loaded yet whenever an account is restored from it, every account has a
-- summary; what it may spend is exactly what is authorized and neither used nor held, or nothing if it
-- is frozen or waits; what it calls active is the sum of the reservations that are active; and what is
-- authorized is within the limit.
pub run-summary :
    (cs : List Call) (store : Option (Dict Saved)) (a : String)
    → AllFresh cs (new_service store)
    → contains (run cs (new_service store)).accounts a ≡ true
    → (b : BudgetSummary) × (get_summary a none (run cs (new_service store))
        ≡ (ok b, run cs (new_service store)))
      × IsWithin b
      × (b.active_reservations ≡ outstanding a (run cs (new_service store)).reservations)
      × (b.authorized ≤ max_authorization)
run-summary cs store a fresh there =
    let s : Service = run cs (new_service store) in
    let sound : IsSound s = run-IsSound cs (new_service store) (new-IsSound store) fresh in
    let home : Home s a = Home-contains s a sound there in
    (
      summary s a sound home,
      get_summary-eq a s home.known home.ledger home.own,
      summary-IsWithin s a sound home,
      summary-active s a sound home,
      summary-authorized s a sound home,
    )
