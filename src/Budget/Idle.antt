-- ===== src/Budget/Idle.antt =====
-- A reservation that has ended stays as it is, whatever calls follow.
pub mod Endings
use cr_agent.Prelude.{
  ◌+◌, String, ◌≡◌, ◌≢◌, Bool, not, ◌||◌, none, some, ◌∙◌, ℕ, Option, is_some, leb, ltb, ◌==◌, ◌-◌,
  max, str_eq,
}
use cr_agent.Prelude.Hoare.{Either, returned, bind-When, raise_if-When, or_raise-When, if-When}
use cr_agent.Prelude.Exec.{ok}
use cr_agent.Prelude.Dict.{Dict, get, contains, get-put_ne}
use cr_agent.Prelude.Int.{ℤ, within, pos_part, is_negative}
use cr_agent.Budget.Models.{
  Error, BudgetAccount, BudgetReservation, NormalizedActualUsage, ProviderHardBudgetCapability,
  EntryType, UsageState, max_authorization, committed, is_open, is_active, total, account_valid,
  reservation_valid,
}
use cr_agent.Budget.State.{
  Service, Action, Saved, append, persist, save, account_of, entries_of, get_summary,
  account_or_task, reservation_of, persist_stored, find_account,
}
use cr_agent.Budget.Settlement.{
  release_unsent_reservation, settle_known_usage, settle_uncertain_usage, freeze_overage,
  mark_pending, is_uncertain, reported_negative, reported_amount,
}
use cr_agent.Budget.Authorization.{add_authorization, evaluate_unfreeze, unfreeze, is_frozen}
use cr_agent.Budget.Sound.Create.{new_account}
use cr_agent.Budget.Sound.Reserve.{fresh}
use cr_agent.Budget.Steps.{saved_frame}
use cr_agent.Budget.Service.{stored, create_account, grant, reserve, prepare_reservation}

-- The reservation `rid` is `r`.
abbrev pub Holds : String → BudgetReservation → Service → Type 0
Holds rid r s = get s.reservations rid ≡ some r

module _ (rid : String) (r : BudgetReservation) where
  abbrev Same : {A : Type 0} → A → Service → Type 0
  Same a s = Holds rid r s

  done :
      {A : Type 0} (a : A) (s : Service)
      → Holds rid r s
      → Either {E = Error} (Holds rid r) (ok a, s)
  done a s h = returned Error (Holds rid r) Same a s h

  append-Holds :
      (e a : String) (t : EntryType) (n m : ℕ) (u : Option UsageState) (s : Service)
      → Holds rid r s
      → Either (Holds rid r) (append e a t n m u s)
  unfolding append account_of entries_of
  append-Holds e a t n m u s h =
      or_raise-When (Holds rid r) Same (get s.accounts a) _ s _ h
        (λ acc f. or_raise-When (Holds rid r) Same (get s.entries a) _ s _ h (λ es g. done _ _ h))

  save-Holds : (row : Saved) (s : Service) → Holds rid r s → Holds rid r (save row s)
  save-Holds row s h = rw (saved_frame row s).2 h

  -- The match of `_persist`.
  abbrev persist_by : Option (Dict Saved) → String → Action Unit
  persist_by o a s = elim o [ none ↦ (ok tt, s) | some _ ↦ persist_stored a s ]

  persist_cases :
      (o : Option (Dict Saved)) (a : String) (s : Service)
      → Holds rid r s
      → Either (Holds rid r) (persist_by o a s)
  unfolding account_of entries_of
  persist_cases none a s h = done _ s h
  persist_cases (some d) a s h =
      or_raise-When (Holds rid r) Same (get s.accounts a) _ s _ h (λ acc f.
        or_raise-When (Holds rid r) Same (get s.entries a) _ s _ h
          (λ es g. done _ _ (save-Holds _ s h)))

  persist-Holds : (a : String) (s : Service) → Holds rid r s → Either (Holds rid r) (persist a s)
  unfolding persist
  persist-Holds a s h = persist_cases s.store a s h

  get_summary-Holds :
      (a : String) (s : Service) → Holds rid r s → Either (Holds rid r) (get_summary a none s)
  unfolding get_summary account_or_task entries_of
  get_summary-Holds a s h = or_raise-When (Holds rid r) Same (find_account s a) _ s _ h (λ acc f.
      or_raise-When (Holds rid r) Same (get s.entries acc.account_id) _ s _ h (λ es g. done _ s h))

  pub create-Holds :
      (a e t : String) (n : ℤ) (c : String) (s : Service)
      → Holds rid r s
      → Either (Holds rid r) (create_account a e t n c s)
  unfolding create_account
  create-Holds a e t n c s h =
      raise_if-When (Holds rid r) Same (not (within 1 max_authorization n)) _ s _ h (λ f.
        raise_if-When (Holds rid r) Same (is_some (stored s t)) _ s _ h (λ g.
          raise_if-When (Holds rid r) Same (not (account_valid (new_account a t c))) _ s _ h (λ i.
            bind-When (Holds rid r) Same Same (persist a _) _ (persist-Holds a _ h)
              (λ u s' k. done _ s' k))))

  grant-Holds :
      (i e a : String) (acc : BudgetAccount) (m w : String) (n o : ℕ) (d c : String) (s : Service)
      → i ≢ rid
      → Holds rid r s
      → Either (Holds rid r) (grant i e a acc m w n o d c s)
  unfolding grant
  grant-Holds i e a acc m w n o d c s other h =
      raise_if-When (Holds rid r) Same (not (reservation_valid (fresh i a acc m w n o d c))) _ s _ h
        (λ f.
          bind-When (Holds rid r) Same Same (append e a _ _ _ _ _) _
            (append-Holds e a _ _ _ _ _ (get-put_ne s.reservations i rid _ other ∙ h))
            (λ x s' g.
              bind-When (Holds rid r) Same Same (persist a s') _ (persist-Holds a s' g)
                (λ u s'' k. done _ s'' k)))

  reserve-Holds :
      (i e a : String) (acc : BudgetAccount) (m w : String) (n o : ℤ) (d c : String) (s : Service)
      → i ≢ rid
      → Holds rid r s
      → Either (Holds rid r) (reserve i e a acc m w n o d c s)
  unfolding reserve
  reserve-Holds i e a acc m w n o d c s other h =
      raise_if-When (Holds rid r) Same
        (is_negative n || is_negative o || pos_part n + pos_part o == 0) _ s _ h
        (λ f.
          bind-When (Holds rid r) Same Same (get_summary a none s) _ (get_summary-Holds a s h)
            (λ b s' g.
              if-When (Holds rid r) Same (leb (pos_part n + pos_part o) b.spendable_budget) _ _ s'
                (λ x. grant-Holds i e a acc m w _ _ d c s' other g) (λ x. done _ s' g)))

  pub prepare-Holds :
      (i e a m w : String) (n o : ℤ) (d : String) (c : ProviderHardBudgetCapability) (s : Service)
      → i ≢ rid
      → Holds rid r s
      → Either (Holds rid r) (prepare_reservation i e a m w n o d c s)
  unfolding prepare_reservation account_of
  prepare-Holds i e a m w n o d c s other h =
      or_raise-When (Holds rid r) Same (get s.accounts a) _ s _ h (λ acc f.
        if-When (Holds rid r) Same (not (is_open acc.state) || acc.pending_revalidation) _ _ s
          (λ x. done _ s h)
          (λ x. raise_if-When (Holds rid r) Same (contains s.calls m) _ s _ h (λ g.
            raise_if-When (Holds rid r) Same
              (not c.valid || not (str_eq c.capability_id acc.provider_capability_baseline_ref)) _ s
              _ h
              (λ k.
                raise_if-When (Holds rid r) Same
                  (not (str_eq c.prepared_request_digest d)
                    || not (str_eq c.token_counted_request_digest d))
                  _ s _ h (λ l. reserve-Holds i e a acc m w n o d _ s other h)))))

  pub authorize-Holds :
      (e a : String) (n : ℤ) (s : Service)
      → Holds rid r s
      → Either (Holds rid r) (add_authorization e a n s)
  unfolding add_authorization account_of
  authorize-Holds e a n s h =
      raise_if-When (Holds rid r) Same (not (ltb 0 (pos_part n))) _ s _ h (λ f.
        or_raise-When (Holds rid r) Same (get s.accounts a) _ s _ h (λ acc g.
          bind-When (Holds rid r) Same Same (get_summary a none s) _ (get_summary-Holds a s h)
            (λ b s' k.
              raise_if-When (Holds rid r) Same (ltb max_authorization (b.authorized + pos_part n)) _
                s' _ k
                (λ l.
                  bind-When (Holds rid r) Same Same (append e a _ _ _ _ s') _
                    (append-Holds e a _ _ _ _ s' k)
                    (λ y s'' m.
                      bind-When (Holds rid r) Same Same (persist a _) _ (persist-Holds a _ m)
                        (λ u s3 k. done _ s3 k))))))

  reopen-Holds :
      (e a : String) (acc : BudgetAccount) (s : Service)
      → Holds rid r s
      → Either (Holds rid r) (unfreeze e a acc s)
  unfolding unfreeze
  reopen-Holds e a acc s h =
      bind-When (Holds rid r) Same Same (append e a _ _ _ _ _) _ (append-Holds e a _ _ _ _ _ h)
        (λ y s' g. persist-Holds a s' g)

  pub unfreeze-Holds :
      (e a : String) (c : ProviderHardBudgetCapability) (b : Bool) (s : Service)
      → Holds rid r s
      → Either (Holds rid r) (evaluate_unfreeze e a c b s)
  unfolding evaluate_unfreeze account_of
  unfreeze-Holds e a c b s h = or_raise-When (Holds rid r) Same (get s.accounts a) _ s _ h (λ acc f.
      if-When (Holds rid r) Same
        (not b || not c.valid || not (str_eq c.capability_id acc.provider_capability_baseline_ref))
        _ _ s (λ x. done _ s h)
        (λ x.
          bind-When (Holds rid r) Same Same (get_summary a none s) _ (get_summary-Holds a s h)
            (λ y s' g.
              if-When (Holds rid r) Same (ltb y.authorized (committed y)) _ _ s' (λ z. done _ s' g)
                (λ z.
                  bind-When (Holds rid r) Same Same _ _
                    (if-When (Holds rid r) Same (is_frozen acc.state || acc.pending_revalidation) _
                      _ s' (λ w. reopen-Holds e a acc s' g) (λ w. done _ s' g))
                    (λ u s'' k. done _ s'' k)))))
