-- ===== src/Budget/Sound/Reserve.antt =====
-- Preparing a reservation keeps the invariant: it is granted only within what may be spent.
use cr_agent.Prelude.{
  ℕ, ◌+◌, ◌-◌, ◌≤◌, ◌==◌, leb, String, ◌≡◌, ◌≢◌, true, false, not, ◌||◌, inl, inr, none, List, [],
  ◌∷◌, ◌++◌, arith, str_eq, eq_iff, Bool-cases,
}
use cr_agent.Prelude.Int.{ℤ, pos_part, is_negative}
use cr_agent.Prelude.Dict.{get, put, contains, get-put, sum-put_new}
use cr_agent.Prelude.Exec.{ok, raise_if, ◌>>◌}
use cr_agent.Budget.Models.{
  capability_incompatible, prepared_request_mismatch, BudgetAccount, BudgetReservation,
  BudgetLedgerEntry, ProviderHardBudgetCapability, EntryType, ReservationState, UsageState, is_open,
  reservation_valid,
}
use cr_agent.Budget.Ledger.{entry, project, created, ended, authorized, known, uncertain}
use cr_agent.Budget.State.{Service, account_of}
use cr_agent.Budget.Steps.{
  with_account, moved, persist-moved, account_of-eq, get_summary-eq, advance, next_entry, append-eq,
  row_of,
}
use cr_agent.Budget.Service.{granted, grant, reserve, prepare_reservation}
use cr_agent.Budget.Sound.{IsSound, Update, IsFine, held, outstanding, update-IsSound}
use cr_agent.Budget.Sound.Closing.{save-IsSound, contains_not, Home-contains, Home}
use cr_agent.Budget.Sound.Moving.{home-backed, home-bounded, home-IsCovered, sums}

-- The reservation that `prepare_reservation` makes.
abbrev pub fresh :
    String → String → BudgetAccount → String → String → ℕ → ℕ → String → String → BudgetReservation
fresh rid a acc call work_unit input output digest ref = record {
  reservation_id = rid;
  account_id = a;
  task_id = acc.task_id;
  model_call_id = call;
  work_unit_id = work_unit;
  input_bound = input;
  output_max = output;
  amount = input + output;
  prepared_request_digest = digest;
  capability_ref = ref;
  state = ReservationState.active;
  usage_state = UsageState.known;
  actual_usage = none;
}

module _ (rid eid a call work_unit : String) (input output : ℕ) (digest ref : String) (s : Service)
    (home : Home s a) where
  abbrev made : BudgetReservation
  made = fresh rid a home.acc call work_unit input output digest ref

  abbrev holding : Service
  holding = record s { reservations = put s.reservations rid made; calls = put s.calls call rid }

  abbrev ledger' : List BudgetLedgerEntry
  ledger' =
      home.es ++ next_entry eid EntryType.reservation_created (input + output) 0 none home.acc ∷ []

  pub grant-eq :
      reservation_valid made ≡ true
      → grant rid eid a home.acc call work_unit input output digest ref s
        ≡ (ok (granted made), moved a (advance home.acc) ledger' holding)
  unfolding grant
  grant-eq valid = rw valid (
      rw
        (append-eq a holding home.known home.ledger eid EntryType.reservation_created
          (input + output) 0 none)
        (rw (persist-moved a (advance home.acc) ledger' holding)))

  grant_invalid :
      reservation_valid made ≡ false
      → (grant rid eid a home.acc call work_unit input output digest ref s).1 ≡ s
  unfolding grant
  grant_invalid bad = rw bad

  module _ (sound : IsSound s) (new : get s.reservations rid ≡ none) where
    outstanding-made :
        outstanding a (put s.reservations rid made)
        ≡ outstanding a s.reservations + (input + output)
    outstanding-made = ground (arith, sum-put_new (held a) s.reservations rid made new, eq_iff a a)

    outstanding-made_ne :
        (j : String)
        → a ≢ j
        → outstanding j (put s.reservations rid made) ≡ outstanding j s.reservations
    outstanding-made_ne j h =
        ground (arith, sum-put_new (held j) s.reservations rid made new, eq_iff a j)

    made-Update :
        Update s (with_account a (advance home.acc) ledger' holding) a (advance home.acc) ledger'
    made-Update = record {
      accounts = λ j. get-put s.accounts a j (advance home.acc);
      entries = λ j. get-put s.entries a j ledger';
      others = outstanding-made_ne;
      owners = λ i x h ne.
          ground (arith, get-put s.reservations rid i made, eq_iff rid i, sound.owned i x);
    }

    made-IsFine :
        (is_open home.acc.state ≡ true
          → home.acc.pending_revalidation ≡ false
          → input + output
            ≤ authorized home.es
              - (known home.es + uncertain home.es + (created home.es - ended home.es)))
        → IsFine (with_account a (advance home.acc) ledger' holding) a (advance home.acc) ledger'
    unfolding entry
    made-IsFine fits = record {
      own = home.own;
      backed = omega (
        arith,
        home-backed sound home,
        outstanding-made,
        sums home.es
            (next_entry eid EntryType.reservation_created (input + output) 0 none home.acc),
      );
      bounded = omega (
        arith,
        home-bounded sound home,
        sums home.es
            (next_entry eid EntryType.reservation_created (input + output) 0 none home.acc),
      );
      covered = λ o p. omega (
        arith,
        fits o p,
        home-IsCovered sound home o p,
        home-backed sound home,
        outstanding-made,
        sums home.es
            (next_entry eid EntryType.reservation_created (input + output) 0 none home.acc),
      );
    }

    grant-IsSound :
        (is_open home.acc.state ≡ true
          → home.acc.pending_revalidation ≡ false
          → input + output
            ≤ authorized home.es
              - (known home.es + uncertain home.es + (created home.es - ended home.es)))
        → IsSound (grant rid eid a home.acc call work_unit input output digest ref s).1
    grant-IsSound fits = elim (Bool-cases (reservation_valid made)) [
      | inl valid ↦ rw (grant-eq valid) (
          save-IsSound
            (row_of a (advance home.acc) ledger'
              (with_account a (advance home.acc) ledger' holding))
            (with_account a (advance home.acc) ledger' holding)
            (update-IsSound sound made-Update (made-IsFine fits)))
      | inr bad ↦ rw (grant_invalid bad) sound
    ]

module _ (rid eid a call work_unit : String) (input output : ℤ) (digest : String) (s : Service)
    (sound : IsSound s) (new : get s.reservations rid ≡ none) where
  abbrev wanted : ℕ
  wanted = pos_part input + pos_part output

  abbrev spendable : Home s a → ℕ
  spendable home =
      unfold project in
      (project home.acc.task_id home.acc.state home.es
        home.acc.pending_revalidation).spendable_budget

  reserve-IsSound :
      (ref : String) (home : Home s a)
      → IsSound (reserve rid eid a home.acc call work_unit input output digest ref s).1
  unfolding reserve project
  reserve-IsSound ref home =
      elim (Bool-cases (is_negative input || is_negative output || wanted == 0)) [
        | inl bad ↦ rw bad sound
        | inr good ↦ rw good (
            rw (get_summary-eq a s home.known home.ledger home.own)
              (elim (Bool-cases (leb wanted (spendable home))) [
                | inl fits ↦ rw fits (
                    grant-IsSound rid eid a call work_unit (pos_part input) (pos_part output) digest
                      ref s home sound new (λ o p. ground arith))
                | inr short ↦ rw short sound
              ]))
      ]

  unknown_account :
      (capability : ProviderHardBudgetCapability)
      → contains s.accounts a ≡ false
      → IsSound (prepare_reservation rid eid a call work_unit input output digest capability s).1
  unfolding prepare_reservation account_of
  unknown_account capability missing = rw (contains_not missing) sound

  -- After the model call is known to be new.
  past_call :
      (capability : ProviderHardBudgetCapability) (home : Home s a)
      → IsSound
          ((raise_if
                (not capability.valid
                  || not
                      (str_eq capability.capability_id home.acc.provider_capability_baseline_ref))
                capability_incompatible
              >> (raise_if
                    (not (str_eq capability.prepared_request_digest digest)
                      || not (str_eq capability.token_counted_request_digest digest))
                    prepared_request_mismatch
                  >> reserve rid eid a home.acc call work_unit input output digest
                      capability.capability_id))
            s).1
  past_call capability home =
      elim (Bool-cases (
        not capability.valid
        || not (str_eq capability.capability_id home.acc.provider_capability_baseline_ref))) [
          | inl bad ↦ rw bad sound
          | inr good ↦
              rw good
                (elim (Bool-cases (
                  not (str_eq capability.prepared_request_digest digest)
                  || not (str_eq capability.token_counted_request_digest digest))) [
                    | inl bad ↦ rw bad sound
                    | inr same ↦ rw same (reserve-IsSound capability.capability_id home)
                  ])
        ]

  by_account :
      (capability : ProviderHardBudgetCapability) (home : Home s a)
      → IsSound (prepare_reservation rid eid a call work_unit input output digest capability s).1
  unfolding prepare_reservation
  by_account capability home =
      rw (account_of-eq a s home.known home.ledger)
        (elim (Bool-cases (not (is_open home.acc.state) || home.acc.pending_revalidation)) [
          | inl frozen ↦ rw frozen sound
          | inr free ↦ rw free (elim (Bool-cases (contains s.calls call)) [
            | inl old ↦ rw old sound
            | inr fresh_call ↦ rw fresh_call (past_call capability home)
          ])
        ])

  -- Granted, denied or refused, the invariant is kept. The id of the reservation is new.
  pub prepare_reservation-IsSound :
      (capability : ProviderHardBudgetCapability)
      → IsSound (prepare_reservation rid eid a call work_unit input output digest capability s).1
  prepare_reservation-IsSound capability = elim (Bool-cases (contains s.accounts a)) [
    | inl there ↦ by_account capability (Home-contains s a sound there)
    | inr missing ↦ unknown_account capability missing
  ]
