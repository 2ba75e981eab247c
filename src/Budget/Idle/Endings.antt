-- ===== src/Budget/Idle/Endings.antt =====
-- An ending of another reservation leaves a reservation as it is.
use cr_agent.Prelude.{String, ◌≢◌, not, ◌∙◌, ℕ, Option, leb, ◌==◌, ◌-◌, max}
use cr_agent.Prelude.Hoare.{Either, bind-When, raise_if-When, or_raise-When, if-When}
use cr_agent.Prelude.Dict.{get, get-put_ne}
use cr_agent.Prelude.Int.{ℤ}
use cr_agent.Budget.Models.{BudgetReservation, NormalizedActualUsage, UsageState, is_active, total}
use cr_agent.Budget.State.{Service, append, persist, account_of, reservation_of}
use cr_agent.Budget.Settlement.{
  release_unsent_reservation, settle_known_usage, settle_uncertain_usage, freeze_overage,
  mark_pending, is_uncertain, reported_negative, reported_amount,
}
use cr_agent.Budget.Idle.{Holds, Same, done, append-Holds, persist-Holds}

module _ (rid : String) (r : BudgetReservation) where
  -- An ending of another reservation.
  module _ (i : String) (other : i ≢ rid) where
    pub release-Holds :
        (e : String) (s : Service)
        → Holds rid r s
        → Either (Holds rid r) (release_unsent_reservation e i s)
    unfolding release_unsent_reservation reservation_of
    release-Holds e s h =
        or_raise-When (Holds rid r) (Same rid r) (get s.reservations i) _ s _ h (λ x f.
          raise_if-When (Holds rid r) (Same rid r) (not (is_active x.state)) _ s _ h (λ g.
            bind-When (Holds rid r) (Same rid r) (Same rid r) (append e x.account_id _ _ _ _ _) _
              (append-Holds rid r e x.account_id _ _ _ _ _
                (get-put_ne s.reservations i rid _ other ∙ h))
              (λ y s' g.
                bind-When (Holds rid r) (Same rid r) (Same rid r) (persist x.account_id s') _
                  (persist-Holds rid r x.account_id s' g) (λ u s'' k. done rid r _ s'' k))))

    freeze-Holds :
        (o f p a : String) (n : ℕ) (s : Service)
        → Holds rid r s
        → Either (Holds rid r) (freeze_overage o f p a n s)
    unfolding freeze_overage account_of
    freeze-Holds o f p a n s h =
        bind-When (Holds rid r) (Same rid r) (Same rid r) (append o a _ _ _ _ s) _
          (append-Holds rid r o a _ _ _ _ s h)
          (λ y s' g. or_raise-When (Holds rid r) (Same rid r) (get s'.accounts a) _ s' _ g (λ acc k.
            bind-When (Holds rid r) (Same rid r) (Same rid r) (append p acc.account_id _ _ _ _ _) _
              (append-Holds rid r p acc.account_id _ _ _ _ _ g) (λ u s'' k. done rid r _ s'' k)))

    pub settle_known-Holds :
        (e o f p : String) (u : NormalizedActualUsage) (s : Service)
        → Holds rid r s
        → Either (Holds rid r) (settle_known_usage e o f p i u s)
    unfolding settle_known_usage reservation_of
    settle_known-Holds e o f p u s h =
        or_raise-When (Holds rid r) (Same rid r) (get s.reservations i) _ s _ h (λ x b.
          raise_if-When (Holds rid r) (Same rid r) (not (is_active x.state)) _ s _ h (λ g.
            bind-When (Holds rid r) (Same rid r) (Same rid r) (append e x.account_id _ _ _ _ _) _
              (append-Holds rid r e x.account_id _ _ _ _ _
                (get-put_ne s.reservations i rid _ other ∙ h))
              (λ y s' g.
                bind-When (Holds rid r) (Same rid r) (Same rid r) _ _
                  (if-When (Holds rid r) (Same rid r) (total u - x.amount == 0) _ _ s'
                    (λ c. done rid r _ s' g) (λ c. freeze-Holds o f p x.account_id _ s' g))
                  (λ v s'' g'.
                    bind-When (Holds rid r) (Same rid r) (Same rid r) (persist x.account_id s'') _
                      (persist-Holds rid r x.account_id s'' g') (λ u s3 k. done rid r _ s3 k)))))

    mark-Holds :
        (a : String) (s : Service) → Holds rid r s → Either (Holds rid r) (mark_pending a s)
    unfolding mark_pending account_of
    mark-Holds a s h =
        or_raise-When (Holds rid r) (Same rid r) (get s.accounts a) _ s _ h
          (λ acc k. done rid r _ _ h)

    pub settle_uncertain-Holds :
        (e : String) (u : UsageState) (n : Option ℤ) (s : Service)
        → Holds rid r s
        → Either (Holds rid r) (settle_uncertain_usage e i u n s)
    unfolding settle_uncertain_usage reservation_of
    settle_uncertain-Holds e u n s h =
        or_raise-When (Holds rid r) (Same rid r) (get s.reservations i) _ s _ h (λ x b.
          raise_if-When (Holds rid r) (Same rid r) (not (is_active x.state)) _ s _ h (λ g.
            raise_if-When (Holds rid r) (Same rid r) (not (is_uncertain u)) _ s _ h (λ g.
              raise_if-When (Holds rid r) (Same rid r) (reported_negative n) _ s _ h (λ g.
                bind-When (Holds rid r) (Same rid r) (Same rid r) (append e x.account_id _ _ _ _ _)
                  _
                  (append-Holds rid r e x.account_id _ _ _ _ _
                    (get-put_ne s.reservations i rid _ other ∙ h))
                  (λ y s' g.
                    bind-When (Holds rid r) (Same rid r) (Same rid r) _ _
                      (if-When (Holds rid r) (Same rid r)
                        (leb (max x.amount (reported_amount n)) x.amount) _ _ s'
                        (λ c. done rid r _ s' g) (λ c. mark-Holds x.account_id s' g))
                      (λ v s'' g'.
                        bind-When (Holds rid r) (Same rid r) (Same rid r) (persist x.account_id s'')
                          _ (persist-Holds rid r x.account_id s'' g')
                          (λ u s3 k. done rid r _ s3 k)))))))
