-- ===== src/Budget/Ended.antt =====
-- A reservation that has ended: none of the ways to end it does anything, now or after any calls.
use cr_agent.Prelude.{
  String, ◌≡◌, ◌≢◌, ◌∙◌, sym, false, not, ◌||◌, Option, none, some, List, [], ◌∷◌, ap, str_eq,
  eq_iff, Bool-cases, inl, inr, is_some, arith, ◌==◌,
}
use mathlib.Core.Path.{subst}
use cr_agent.Prelude.Hoare.{Either-state, returned, raise_if-When, or_raise-When}
use cr_agent.Prelude.Dict.{get, get-put_ne}
use cr_agent.Prelude.Int.{ℤ, pos_part, is_negative}
use cr_agent.Prelude.Exec.{err}
use cr_agent.Budget.Models.{
  Error, BudgetReservation, NormalizedActualUsage, UsageState, already_settled, is_active,
}
use cr_agent.Budget.Ledger.{authorized}
use cr_agent.Budget.State.{Service}
use cr_agent.Budget.Steps.{reservation_of-eq}
use cr_agent.Budget.Service.{stored, restore_account, restore_reservations}
use cr_agent.Budget.Settlement.{
  release_unsent_reservation, settle_known_usage, settle_uncertain_usage,
}
use cr_agent.Budget.Sound.Restore.{AllNew}
use cr_agent.Budget.Runs.{
  Call, create, prepare, release, settle_known, settle_uncertain, authorize, unfreeze, restore,
  after, run, IsFresh, AllFresh,
}
use cr_agent.Budget.Idle.{Holds, create-Holds, prepare-Holds, authorize-Holds, unfreeze-Holds}
use cr_agent.Budget.Idle.Endings.{release-Holds, settle_known-Holds, settle_uncertain-Holds}

-- None of the three ways to end a reservation does anything.
pub record IsEnded (rid : String) (s : Service) : Type 0 where
  pub no_release : (e : String) → release_unsent_reservation e rid s ≡ (err already_settled, s)
  pub no_known :
      (e o f p : String) (u : NormalizedActualUsage)
      → settle_known_usage e o f p rid u s ≡ (err already_settled, s)
  pub no_uncertain :
      (e : String) (u : UsageState) (n : Option ℤ)
      → settle_uncertain_usage e rid u n s ≡ (err already_settled, s)

pub idle-IsEnded :
    (rid : String) (s : Service) {r : BudgetReservation}
    → get s.reservations rid ≡ some r
    → is_active r.state ≡ false
    → IsEnded rid s
unfolding release_unsent_reservation settle_known_usage settle_uncertain_usage
idle-IsEnded rid s found done = record {
  no_release = λ e. rw (reservation_of-eq rid s found) (rw done);
  no_known = λ e o f p u. rw (reservation_of-eq rid s found) (rw done);
  no_uncertain = λ e u n. rw (reservation_of-eq rid s found) (rw done);
}

module _ (rid : String) (r : BudgetReservation) where
  -- A new id is another id.
  apart : (i : String) (s : Service) → get s.reservations i ≡ none → Holds rid r s → i ≢ rid
  apart i s new h same =
      let there : get s.reservations i ≡ some r = ap (λ k. get s.reservations k) same ∙ h in
      cc (new, there)

  restored-Holds :
      (rs : List BudgetReservation) (s : Service)
      → AllNew rs s.reservations
      → Holds rid r s
      → Holds rid r (restore_reservations rs s)
  restored-Holds [] s n h = h
  restored-Holds (x ∷ rs) s n h =
      restored-Holds rs _ n.1
        (get-put_ne s.reservations x.reservation_id rid x (apart x.reservation_id s n.0 h) ∙ h)

  restore-Holds :
      (t : String) (n : ℤ) (c : String) (s : Service)
      → IsFresh (restore t n c) s
      → Holds rid r s
      → Holds rid r (restore_account t n c s).1
  unfolding restore_account
  restore-Holds t n c s fit h = Either-state (Holds rid r) (restore_account t n c s) (
      raise_if-When (Holds rid r) (λ a. Holds rid r) (not (is_some s.store)) _ s _ h
        (λ f.
          or_raise-When (Holds rid r) (λ a. Holds rid r) (stored s t) _ s _ h
            (λ row found.
              raise_if-When (Holds rid r) (λ a. Holds rid r)
                (is_negative n || not (authorized row.entries == pos_part n)) _ s _ h
                (λ g.
                  raise_if-When (Holds rid r) (λ a. Holds rid r)
                    (not (str_eq row.account.provider_capability_baseline_ref c)) _ s _ h
                    (λ i.
                      returned Error (Holds rid r) (λ a. Holds rid r) row.account _
                        (restored-Holds row.reservations _ (fit row found).apart h))))))

  module _ (idle : is_active r.state ≡ false) where
    -- An ending of this reservation changes nothing; one of another leaves this one alone.
    ending-Holds :
        (i : String) (s s' : Service)
        → (IsEnded i s → s' ≡ s)
        → (i ≢ rid → Holds rid r s')
        → Holds rid r s
        → Holds rid r s'
    ending-Holds i s s' refused other h = elim (Bool-cases (str_eq i rid)) [
      | inl e ↦
          let same : i ≡ rid = ground (arith, eq_iff i rid) in
          let over : IsEnded i s =
            subst (λ k. IsEnded k s) (sym same) (idle-IsEnded rid s h idle) in
          subst (Holds rid r) (sym (refused over)) h
      | inr e ↦ other (ground (arith, eq_iff i rid))
    ]

    after-Holds : (c : Call) (s : Service) → IsFresh c s → Holds rid r s → Holds rid r (after c s)
    unfolding after
    after-Holds (create a e t n c) s f h =
        Either-state (Holds rid r) _ (create-Holds rid r a e t n c s h)
    after-Holds (prepare i e a m w n o d c) s f h =
        Either-state (Holds rid r) _ (prepare-Holds rid r i e a m w n o d c s (apart i s f h) h)
    after-Holds (release e i) s f h =
        ending-Holds i s _ (λ x. ap (λ p. p.1) (x.no_release e))
          (λ x. Either-state (Holds rid r) _ (release-Holds rid r i x e s h)) h
    after-Holds (settle_known e o g p i u) s f h =
        ending-Holds i s _ (λ x. ap (λ p. p.1) (x.no_known e o g p u))
          (λ x. Either-state (Holds rid r) _ (settle_known-Holds rid r i x e o g p u s h)) h
    after-Holds (settle_uncertain e i u n) s f h =
        ending-Holds i s _ (λ x. ap (λ p. p.1) (x.no_uncertain e u n))
          (λ x. Either-state (Holds rid r) _ (settle_uncertain-Holds rid r i x e u n s h)) h
    after-Holds (authorize e a n) s f h =
        Either-state (Holds rid r) _ (authorize-Holds rid r e a n s h)
    after-Holds (unfreeze e a c b) s f h =
        Either-state (Holds rid r) _ (unfreeze-Holds rid r e a c b s h)
    after-Holds (restore t n c) s f h = restore-Holds t n c s f h

    pub run-Holds :
        (cs : List Call) (s : Service) → AllFresh cs s → Holds rid r s → Holds rid r (run cs s)
    unfolding run
    run-Holds [] s f h = h
    run-Holds (c ∷ cs) s f h = run-Holds cs (after c s) f.1 (after-Holds c s f.0 h)
