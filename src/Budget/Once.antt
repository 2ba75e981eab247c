-- ===== src/Budget/Once.antt =====
-- A reservation ends at most once, and a call that raises on the way changes nothing.
use cr_agent.Prelude.{
  String, ◌≡◌, refl, true, false, ◌-◌, ◌==◌, leb, max, ap, Option-cases, ◌⊎◌, inl, inr, Bool-cases,
  Option, none, some, List,
}
use cr_agent.Prelude.Int.{ℤ}
use cr_agent.Prelude.Exec.{Result, ok, err}
use cr_agent.Prelude.Dict.{Dict, get, put, get-put_self}
use cr_agent.Budget.Models.{
  Error, BudgetReservation, BudgetSettlement, NormalizedActualUsage, UsageState, already_settled,
  is_active, reservation_not_found, total, bad_usage_state, negative_usage,
}
use cr_agent.Budget.State.{Service, Saved, reservation_of, save}
use cr_agent.Budget.Steps.{saved_frame, reservation_of-eq}
use cr_agent.Budget.Settlement.{
  is_uncertain, reported_negative, reported_amount, release_unsent_reservation, settle_known_usage,
  settle_uncertain_usage,
}
use cr_agent.Budget.Sound.{IsSound}
use cr_agent.Budget.Runs.{Call, run, AllFresh}
use cr_agent.Budget.Ended.{IsEnded, idle-IsEnded, run-Holds}
use cr_agent.Budget.Sound.Closing.{Home, Home-contains}
use cr_agent.Budget.Sound.Release.{released_copy, released-eq}
use cr_agent.Budget.Sound.Known.{settle_within-eq, settle_above-eq, settled_copy}
use cr_agent.Budget.Sound.Uncertain.{uncertain_copy, uncertain_within-eq, uncertain_above-eq}

-- The three ways to end a reservation, with their arguments.
pub data Ending : Type 0 where
  release : String → Ending
  known : String → String → String → String → NormalizedActualUsage → Ending
  uncertain : String → UsageState → Option ℤ → Ending

abbrev pub settled_part :
    Result Error BudgetSettlement × Service → Result Error BudgetReservation × Service
settled_part (ok b, s) = (ok b.reservation, s)
settled_part (err e, s) = (err e, s)

abbrev pub finish : Ending → String → Service → Result Error BudgetReservation × Service
finish (release e) rid s = release_unsent_reservation e rid s
finish (known e o f p u) rid s = settled_part (settle_known_usage e o f p rid u s)
finish (uncertain e u n) rid s = settle_uncertain_usage e rid u n s

-- A call that ends a reservation is refused and changes nothing, or leaves it ended.
data Outcome (rid : String) (s : Service) : Result Error BudgetReservation × Service → Type 0 where
  refused : (e : Error) → Outcome rid s (err e, s)
  ended :
      (r : BudgetReservation) (s' : Service)
      → get s'.reservations rid ≡ some r
      → is_active r.state ≡ false
      → Outcome rid s (ok r, s')

saved_there :
    (rid : String) (r : BudgetReservation) (row : Saved) (s : Service) (rs : Dict BudgetReservation)
    → s.reservations ≡ put rs rid r
    → get (save row s).reservations rid ≡ some r
saved_there rid r row s rs e = rw ((saved_frame row s).2) (rw e (get-put_self rs rid r))

module _ (rid : String) (s : Service) where
  -- Not found, or found and already ended.
  idle-Outcome :
      (get s.reservations rid ≡ none)
        ⊎ ((r : BudgetReservation) × (get s.reservations rid ≡ some r)
            × (is_active r.state ≡ false))
      → (en : Ending) → Outcome rid s (finish en rid s)
  unfolding release_unsent_reservation settle_known_usage settle_uncertain_usage reservation_of
  idle-Outcome (inl missing) (release a) = rw missing (refused reservation_not_found)
  idle-Outcome (inl missing) (known a b c d u) = rw missing (refused reservation_not_found)
  idle-Outcome (inl missing) (uncertain a u n) = rw missing (refused reservation_not_found)
  idle-Outcome (inr (r, found, idle)) (release a) = rw found (rw idle (refused already_settled))
  idle-Outcome (inr (r, found, idle)) (known a b c d u) =
      rw found (rw idle (refused already_settled))
  idle-Outcome (inr (r, found, idle)) (uncertain a u n) =
      rw found (rw idle (refused already_settled))

  module _ {r : BudgetReservation} (found : get s.reservations rid ≡ some r)
      (act : is_active r.state ≡ true) (home : Home s r.account_id) where
    known-Outcome :
        (e o f p : String) (u : NormalizedActualUsage)
        → Outcome rid s (settled_part (settle_known_usage e o f p rid u s))
    known-Outcome e o f p u = elim (Bool-cases (total u - r.amount == 0)) [
      | inl small ↦
          rw (settle_within-eq e o f p rid u s found act home small)
            (ended _ _ (saved_there rid (settled_copy r (total u)) _ _ s.reservations refl) refl)
      | inr large ↦
          rw (settle_above-eq e o f p rid u s found act home large)
            (ended _ _ (saved_there rid (settled_copy r (total u)) _ _ s.reservations refl) refl)
    ]

    release-Outcome : (e : String) → Outcome rid s (release_unsent_reservation e rid s)
    release-Outcome e =
        rw (released-eq e rid s found act home)
          (ended _ _ (saved_there rid (released_copy r) _ _ s.reservations refl) refl)

    uncertain_settled :
        (e : String) (u : UsageState) (n : Option ℤ)
        → is_uncertain u ≡ true
        → reported_negative n ≡ false
        → Outcome rid s (settle_uncertain_usage e rid u n s)
    uncertain_settled e u n proper sign =
        elim (Bool-cases (leb (max r.amount (reported_amount n)) r.amount)) [
          | inl small ↦ rw (uncertain_within-eq e rid u n s found act proper sign home small) (
              ended _ _
                (saved_there rid (uncertain_copy r u (max r.amount (reported_amount n))) _ _
                  s.reservations refl)
                refl)
          | inr large ↦ rw (uncertain_above-eq e rid u n s found act proper sign home large) (
              ended _ _
                (saved_there rid (uncertain_copy r u (max r.amount (reported_amount n))) _ _
                  s.reservations refl)
                refl)
        ]

    uncertain-Outcome :
        (e : String) (u : UsageState) (n : Option ℤ)
        → Outcome rid s (settle_uncertain_usage e rid u n s)
    unfolding settle_uncertain_usage
    uncertain-Outcome e u n = elim (Bool-cases (is_uncertain u)) [
      | inr bad ↦ rw (reservation_of-eq rid s found) (rw act (rw bad (refused bad_usage_state)))
      | inl proper ↦ elim (Bool-cases (reported_negative n)) [
        | inl bad ↦
            rw (reservation_of-eq rid s found)
              (rw act (rw proper (rw bad (refused negative_usage))))
        | inr sign ↦ uncertain_settled e u n proper sign
      ]
    ]

    active-Outcome : (en : Ending) → Outcome rid s (finish en rid s)
    active-Outcome (release e) = release-Outcome e
    active-Outcome (known e o f p u) = known-Outcome e o f p u
    active-Outcome (uncertain e u n) = uncertain-Outcome e u n

  found-Outcome :
      (r : BudgetReservation) (en : Ending)
      → get s.reservations rid ≡ some r
      → IsSound s
      → Outcome rid s (finish en rid s)
  found-Outcome r en found sound = elim (Bool-cases (is_active r.state)) [
    | inl act ↦
        active-Outcome found act (Home-contains s r.account_id sound (sound.owned rid r found)) en
    | inr idle ↦ idle-Outcome (inr (r, found, idle)) en
  ]

  finish-Outcome : (en : Ending) → IsSound s → Outcome rid s (finish en rid s)
  finish-Outcome en sound = elim (Option-cases (get s.reservations rid)) [
    | inl missing ↦ idle-Outcome (inl missing) en
    | inr (r, found) ↦ found-Outcome r en found sound
  ]

-- How the rest of a run treats a call that ended a reservation, or was refused.
abbrev pub Verdict :
    String → Service → List Call → Ending → Result Error BudgetReservation × Service → Type 0
Verdict rid s cs en (ok r, s') =
    (get s'.reservations rid ≡ some r)
    × (get (run cs s').reservations rid ≡ some r)
    × (finish en rid (run cs s') ≡ (err already_settled, run cs s'))
Verdict rid s cs en (err e, s') = s' ≡ s

Outcome-Verdict :
    {rid : String} {s : Service} {p : Result Error BudgetReservation × Service} (cs : List Call)
    (en : Ending)
    → Outcome rid s p
    → AllFresh cs p.1
    → Verdict rid s cs en p
Outcome-Verdict cs en (refused e) f = refl
Outcome-Verdict {rid = rid} cs en (ended r s' found idle) f =
    let still : get (run cs s').reservations rid ≡ some r = run-Holds rid r idle cs s' f found in
    let over : IsEnded rid (run cs s') = idle-IsEnded rid (run cs s') still idle in
    (found, still, refusal over en)
  where
    refusal :
        IsEnded rid (run cs s')
        → (en : Ending) → finish en rid (run cs s') ≡ (err already_settled, run cs s')
    refusal over (release e) = over.no_release e
    refusal over (known e o f p u) = ap settled_part (over.no_known e o f p u)
    refusal over (uncertain e u n) = over.no_uncertain e u n

-- In a state that keeps the invariant, a call that releases or settles a reservation either raises
-- and changes nothing at all, or returns the reservation as it is now stored. In the second case,
-- whatever calls follow, with new ids for new accounts and reservations and with what the store holds
-- coherent and not loaded yet whenever an account is restored, the reservation stays as it was
-- returned, and a further release or settlement of it raises `reservation already settled` and changes
-- nothing.
pub finish_once :
    (en : Ending) (rid : String) (s : Service)
    → IsSound s
    → (cs : List Call) → AllFresh cs (finish en rid s).1
    → (again : Ending) → Verdict rid s cs again (finish en rid s)
finish_once en rid s sound cs fresh again =
    Outcome-Verdict cs again (finish-Outcome rid s en sound) fresh
