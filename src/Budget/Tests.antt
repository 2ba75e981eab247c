-- ===== src/Budget/Tests.antt =====
-- Runs of the budget service, and the theorems at concrete inputs.
use mathlib.Core.Path.{subst}
use cr_agent.Prelude.{◌≤◌, ◌≡◌, refl, true, Option, none, some, arith, List, [], ◌∷◌}
use cr_agent.Prelude.Int.{pos}
use cr_agent.Prelude.Exec.{ok}
use cr_agent.Prelude.Dict.{Dict, get, put, values, contains}
use cr_agent.Budget.Models.{
  EntryType, BudgetSummary, ProviderHardBudgetCapability, max_authorization,
}
use cr_agent.Budget.Ledger.{entry, project}
use cr_agent.Budget.State.{
  Service, Saved, new_service, append, persist, get_summary, account_or_task, entries_of,
  account_of, reservation_of,
}
use cr_agent.Budget.Service.{
  stored, create_account, grant, reserve, prepare_reservation, restore_account,
}
use cr_agent.Budget.Settlement.{release_unsent_reservation, settle_known_usage, freeze_overage}
use cr_agent.Budget.Authorization.{add_authorization}
use cr_agent.Budget.Sound.{IsSound, outstanding}
use cr_agent.Budget.Sound.Create.{new_account}
use cr_agent.Budget.Sound.Reserve.{fresh}
use cr_agent.Budget.Sound.Restore.{IsCoherent}
use cr_agent.Budget.Runs.{
  Call, create, prepare, release, settle_known, authorize, restore, after, run, AllFresh, IsWithin,
  run-summary, run-IsSound, new-IsSound,
}
use cr_agent.Budget.Once.{Ending, finish, Verdict, finish_once}
use cr_agent.Budget.Sequences.{OnSuccess, Repeats, add_authorization-Repeats}

abbrev capability : ProviderHardBudgetCapability
capability = record {
  capability_id = "cap";
  provider_id = "p";
  provider_version = "1";
  model_id = "m";
  origin = "o";
  prepared_request_digest = "d";
  token_counted_request_digest = "d";
  max_output_enforced = true;
  usage_mapping_trusted = true;
  retries_disabled = true;
  valid = true;
}

-- An account with one reservation, as a store holds it.
abbrev saved : Saved
saved = record {
  account = new_account "old" "old task" "cap";
  entries =
      entry "o1" EntryType.authorization_initial 500 1 0 none
      ∷ entry "o2" EntryType.reservation_created 100 2 0 none
      ∷ [];
  reservations =
      fresh "o3" "old" (new_account "old" "old task" "cap") "m0" "w0" 60 40 "d" "cap" ∷ [];
}

abbrev store : Option (Dict Saved)
store = some (("old task", saved) ∷ [])

abbrev calls : List Call
calls =
    restore "old task" (pos 500) "cap"
    ∷ create "acc" "e1" "task" (pos 1000) "cap"
    ∷ prepare "r1" "e2" "acc" "m1" "w1" (pos 300) (pos 200) "d" capability
    ∷ settle_known "e3" "e4" "f1" "e5" "r1" (record { input_tokens = 100; output_tokens = 50 })
    ∷ prepare "r2" "e6" "acc" "m2" "w2" (pos 300) (pos 200) "d" capability
    ∷ authorize "e7" "acc" (pos 10)
    ∷ []

-- Naming this opens the whole service.
service_open : Unit {0}
unfolding run after create_account prepare_reservation reserve grant settle_known_usage
    release_unsent_reservation restore_account freeze_overage add_authorization append persist
    get_summary account_or_task entries_of account_of reservation_of project entry get put values
service_open = tt

saved-IsCoherent :
    (row : Saved)
    → stored (new_service store) "old task" ≡ some row
    → IsCoherent row (new_service store)
unfolding service_open
saved-IsCoherent row e =
    let same : saved ≡ row = cc e in
    subst (λ r. IsCoherent r (new_service store)) same
      (record {
        new = refl;
        apart = (refl, tt);
        home = (refl, tt);
        backed = refl;
        bounded = omega arith;
        covered = λ o p. omega arith;
      })

calls-AllFresh : AllFresh calls (new_service store)
unfolding service_open
calls-AllFresh = (saved-IsCoherent, (refl, (refl, (tt, (refl, (tt, tt))))))

calls_there : contains (run calls (new_service store)).accounts "acc" ≡ true
unfolding service_open
calls_there = refl

abbrev final : Service
final = run calls (new_service store)

run-summary_example :
    (b : BudgetSummary) × (get_summary "acc" none final ≡ (ok b, final))
    × IsWithin b
    × (b.active_reservations ≡ outstanding "acc" final.reservations)
    × (b.authorized ≤ max_authorization)
run-summary_example = run-summary calls store "acc" calls-AllFresh calls_there

final-IsSound : IsSound final
final-IsSound = run-IsSound calls (new_service store) (new-IsSound store) calls-AllFresh

-- More calls, after the reservation has been released.
abbrev later_calls : List Call
later_calls =
    authorize "e9" "acc" (pos 5)
    ∷ prepare "r3" "e10" "acc" "m3" "w3" (pos 30) (pos 20) "d" capability
    ∷ release "e11" "r3"
    ∷ []

abbrev release_r2 : Ending
release_r2 = Ending.release "e8"

later_calls-AllFresh : AllFresh later_calls (finish release_r2 "r2" final).1
unfolding service_open
later_calls-AllFresh = (tt, (refl, (tt, tt)))

finish_once_example : Verdict "r2" final later_calls release_r2 (finish release_r2 "r2" final)
finish_once_example =
    finish_once release_r2 "r2" final final-IsSound later_calls later_calls-AllFresh release_r2

add_authorization-Repeats_example :
    OnSuccess (Repeats "acc") (add_authorization "e9" "acc" (pos 5) final)
add_authorization-Repeats_example = add_authorization-Repeats "e9" "acc" (pos 5) final final-IsSound
