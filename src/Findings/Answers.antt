-- ===== src/Findings/Answers.antt =====
-- The coverage of a scope, by what stands in the plan and in the executions.
use mathlib.Core.Path.{subst}
use cr_agent.Prelude.{
  Bool, true, ◌≡◌, refl, sym, ◌≢◌, ◌⊎◌, inl, inr, none, some, List, [], ◌∷◌, map, All, keep, last?,
  Bool-cases, Option-cases,
}
use cr_agent.Prelude.Text.{Text, text_eq}
use cr_agent.Planning.Models.{
  PlannedDisposition, planned, unreviewable, no_review_required, contains,
}
use cr_agent.Findings.Models.{
  WorkUnitExecutionState, WorkUnitExecutionResult, CoverageImpact, fully_covered, degraded,
  not_covered, CoverageState, CoverageEntry, Scope,
}
use cr_agent.Findings.Validation.{Texts, Request}
use cr_agent.Findings.Coverage.{
  by_execution, put_execution, by_id, scope_ids_of, execution_for, scope_state, entry_of,
}
use cr_agent.Findings.Direct.{All-map}

-- It is one of them.
pub data IsOneOf {A : Type 0} (x : A) : List A → Type 0 where
  first : {xs : List A} → IsOneOf x (x ∷ xs)
  later : {y : A} {xs : List A} → IsOneOf x xs → IsOneOf x (y ∷ xs)

-- An execution of the request whose work unit has the scope, and which stands for the scope.
pub record Covering (t : Texts) (r : Request) (scope_id : Text) (x : WorkUnitExecutionResult)
    : Type 0 where
  pub last : execution_for t r scope_id ≡ some x
  pub of_request : IsOneOf x r.executions
  pub has_scope : contains scope_id (scope_ids_of x.work_unit_id r.work_units) ≡ true

-- When a scope has which state.
pub data Answers (t : Texts) (r : Request) (s : Scope) : CoverageState → Type 0 where
  left_out : s.disposition ≡ unreviewable → Answers t r s CoverageState.unreviewable
  needless : s.disposition ≡ no_review_required → Answers t r s CoverageState.reviewed
  missed :
      s.disposition ≡ planned
      → execution_for t r s.scope_id ≡ none
      → Answers t r s CoverageState.unreviewed
  lost :
      (x : WorkUnitExecutionResult)
      → s.disposition ≡ planned
      → Covering t r s.scope_id x
      → x.state ≡ WorkUnitExecutionState.unknown
      → Answers t r s CoverageState.unknown
  failed :
      (x : WorkUnitExecutionResult)
      → s.disposition ≡ planned
      → Covering t r s.scope_id x
      → (x.state ≡ WorkUnitExecutionState.failed) ⊎ (x.state ≡ WorkUnitExecutionState.partial)
      → Answers t r s CoverageState.unreviewed
  reduced :
      (x : WorkUnitExecutionResult)
      → s.disposition ≡ planned
      → Covering t r s.scope_id x
      → x.coverage_impact ≢ fully_covered
      → Answers t r s CoverageState.unreviewed
  complete :
      (x : WorkUnitExecutionResult)
      → s.disposition ≡ planned
      → Covering t r s.scope_id x
      → x.state ≢ WorkUnitExecutionState.failed
      → x.state ≢ WorkUnitExecutionState.partial
      → x.state ≢ WorkUnitExecutionState.unknown
      → x.coverage_impact ≡ fully_covered
      → Answers t r s CoverageState.reviewed

-- One entry for each scope, in their order.
abbrev pub AllAnswered : Texts → Request → List Scope → List CoverageEntry → Type 0
AllAnswered t r [] [] = Unit
AllAnswered t r (s ∷ ss) (e ∷ es) =
    (e.scope_id ≡ s.scope_id) × Answers t r s e.state × AllAnswered t r ss es
AllAnswered t r _ _ = ⊥

IsOneOf-each : {A : Type 0} (xs : List A) → All (λ x. IsOneOf x xs) xs
IsOneOf-each [] = tt
IsOneOf-each (x ∷ xs) = (first, All-map (λ y m. later m) xs (IsOneOf-each xs))

module _ (P : WorkUnitExecutionResult → Type 0) where
  put_execution-All :
      (x : WorkUnitExecutionResult) (d : List WorkUnitExecutionResult)
      → P x
      → All P d
      → All P (put_execution x d)
  unfolding put_execution
  put_execution-All x [] h g = (h, tt)
  put_execution-All x (y ∷ d) h g = elim (Bool-cases (text_eq y.execution_id x.execution_id)) [
    | inl e ↦ rw e (h, g.1)
    | inr e ↦ rw e (g.0, put_execution-All x d h g.1)
  ]

  by_id-All : (d xs : List WorkUnitExecutionResult) → All P d → All P xs → All P (by_id d xs)
  unfolding by_id
  by_id-All d [] h g = h
  by_id-All d (x ∷ xs) h g = by_id-All (put_execution x d) xs (put_execution-All x d g.0 h) g.1

module _ {A : Type 0} (P : A → Type 0) where
  keep-All : (p : A → Bool) (xs : List A) → All P xs → All (λ x. P x × (p x ≡ true)) (keep p xs)
  keep-All p [] h = tt
  keep-All p (x ∷ xs) h = elim (Bool-cases (p x)) [
    | inl e ↦ rw e ((h.0, e), keep-All p xs h.1)
    | inr e ↦ rw e (keep-All p xs h.1)
  ]

  last-All : (xs : List A) {x : A} → last? xs ≡ some x → All P xs → P x
  last-All [] e h = cc e
  last-All (y ∷ []) {x} e h = let same : y ≡ x = cc e in subst P same h.0
  last-All (y ∷ z ∷ xs) e h = last-All (z ∷ xs) e h.1

module _ (t : Texts) (r : Request) where
  execution_for-Covering :
      (i : Text) (x : WorkUnitExecutionResult) → execution_for t r i ≡ some x → Covering t r i x
  execution_for-Covering i x e =
      let P : WorkUnitExecutionResult → Type 0 = λ y. IsOneOf y r.executions in
      let p : WorkUnitExecutionResult → Bool =
        λ y. contains i (scope_ids_of y.work_unit_id r.work_units) in
      let (m, h) =
        last-All (λ y. P y × (p y ≡ true)) (keep p (by_id [] r.executions)) e
          (keep-All P p (by_id [] r.executions)
            (by_id-All P [] r.executions tt (IsOneOf-each r.executions))) in
      record { last = e; of_request = m; has_scope = h }

  module _ (s : Scope) (due : s.disposition ≡ planned) (x : WorkUnitExecutionResult)
      (cover : Covering t r s.scope_id x) where
    impact-Answers :
        (im : CoverageImpact)
        → x.coverage_impact ≡ im
        → x.state ≢ WorkUnitExecutionState.failed
        → x.state ≢ WorkUnitExecutionState.partial
        → x.state ≢ WorkUnitExecutionState.unknown
        → Answers t r s
            (by_execution (some (record x { state = WorkUnitExecutionState.succeeded }))).0
    unfolding by_execution
    impact-Answers fully_covered e a b c = rw e (complete x due cover a b c e)
    impact-Answers degraded e a b c = rw e (reduced x due cover (λ f. cc (e, f)))
    impact-Answers not_covered e a b c = rw e (reduced x due cover (λ f. cc (e, f)))

    by_impact :
        x.state ≢ WorkUnitExecutionState.failed
        → x.state ≢ WorkUnitExecutionState.partial
        → x.state ≢ WorkUnitExecutionState.unknown
        → Answers t r s
            (by_execution (some (record x { state = WorkUnitExecutionState.succeeded }))).0
    by_impact a b c = impact-Answers x.coverage_impact refl a b c

    state-Answers :
        (st : WorkUnitExecutionState) → x.state ≡ st → Answers t r s (by_execution (some x)).0
    unfolding by_execution
    state-Answers WorkUnitExecutionState.failed e = rw e (failed x due cover (inl e))
    state-Answers WorkUnitExecutionState.partial e = rw e (failed x due cover (inr e))
    state-Answers WorkUnitExecutionState.unknown e = rw e (lost x due cover e)
    state-Answers WorkUnitExecutionState.pending e =
        rw e (by_impact (λ f. cc (e, f)) (λ f. cc (e, f)) (λ f. cc (e, f)))
    state-Answers WorkUnitExecutionState.running e =
        rw e (by_impact (λ f. cc (e, f)) (λ f. cc (e, f)) (λ f. cc (e, f)))
    state-Answers WorkUnitExecutionState.succeeded e =
        rw e (by_impact (λ f. cc (e, f)) (λ f. cc (e, f)) (λ f. cc (e, f)))

  unseen :
      (s : Scope)
      → s.disposition ≡ planned
      → execution_for t r s.scope_id ≡ none
      → Answers t r s (by_execution none).0
  unfolding by_execution
  unseen s e f = missed e f

  planned-Answers :
      (s : Scope)
      → s.disposition ≡ planned
      → Answers t r s (by_execution (execution_for t r s.scope_id)).0
  planned-Answers s e = elim (Option-cases (execution_for t r s.scope_id)) [
    | inl f ↦ rw f (unseen s e f)
    | inr (x, f) ↦ rw f (state-Answers s e x (execution_for-Covering s.scope_id x f) x.state refl)
  ]

  scope_state-Answers :
      (s : Scope) (d : PlannedDisposition) → s.disposition ≡ d → Answers t r s (scope_state t r s).0
  unfolding scope_state
  scope_state-Answers s unreviewable e = rw e (left_out refl)
  scope_state-Answers s no_review_required e = rw e (needless refl)
  scope_state-Answers s planned e =
      let same : scope_state t r s ≡ by_execution (execution_for t r s.scope_id) = rw e refl in
      subst (λ q. Answers t r s q.0) (sym same) (planned-Answers s e)

  pub entries-AllAnswered : (ss : List Scope) → AllAnswered t r ss (map (entry_of t r) ss)
  entries-AllAnswered [] = tt
  entries-AllAnswered (s ∷ ss) =
      (refl, scope_state-Answers s s.disposition refl, entries-AllAnswered ss)
