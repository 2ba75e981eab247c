-- ===== src/Findings/Validation.antt =====
-- The checks of a candidate (domain/findings/processor.py). What stands for code outside: `lower` and
-- `strip` of texts, and the digest that makes a fingerprint of a candidate.
use cr_agent.Prelude.{
  ℕ, Bool, true, false, not, ◌&&◌, ◌||◌, Option, none, some, List, [], any, all, keep, last?,
  is_some, if◌then◌else◌,
}
use cr_agent.Prelude.Text.{Text, codes, text_eq, occurrences}
use cr_agent.Input.Models.{Line, ChangedFile, is_addition, is_deletion, equals}
use cr_agent.Findings.Models.{
  CandidateLocationKind, new_line, file, multi_file, CandidateLocation, EvidenceReference,
  CandidateFinding, WorkUnitExecutionResult, Scope, PlannedUnit,
}

-- `{id(x): x for x in xs}.get(i)`: the last with that id.
abbrev pub last_with : {A : Type 0} → (A → Text) → Text → List A → Option A
last_with id_of i xs = last? (keep (λ x. text_eq (id_of x) i) xs)

abbrev pub file_with : Text → List ChangedFile → Option ChangedFile
file_with i files = last_with (λ f. f.file_id) i files

abbrev pub line_at : CandidateLocationKind → Option ℕ → Line → Bool
line_at kind none l = false
line_at new_line (some n) l = is_addition l.line_type && equals l.new_line_number n
line_at kind (some n) l = is_deletion l.line_type && equals l.old_line_number n

abbrev pub place_exists : CandidateLocation → List ChangedFile → ChangedFile → Bool
place_exists location files changed_file = by_kind location.kind
  where
    in_hunks : Bool
    in_hunks = any (λ h. any (line_at location.kind location.line) h.lines) changed_file.hunks

    by_kind : CandidateLocationKind → Bool
    by_kind file = true
    by_kind multi_file = all (λ i. is_some (file_with i files)) location.related_file_ids
    by_kind _ = in_hunks

unfoldable pub location_exists : CandidateLocation → List ChangedFile → Bool
location_exists location files = elim (file_with location.file_id files) [
  | none ↦ false
  | some changed_file ↦ place_exists location files changed_file
]

abbrev pub evidence_with : Text → List EvidenceReference → Option EvidenceReference
evidence_with ref evidence = last_with (λ e. e.evidence_id) ref evidence

-- `item.evidence_type in {"changed_code", "change_relation"}`
abbrev pub is_direct : Option EvidenceReference → Bool
is_direct none = false
is_direct (some e) =
    text_eq e.evidence_type (codes "changed_code")
    || text_eq e.evidence_type (codes "change_relation")

-- `word in text`
abbrev pub occurs : Text → Text → Bool
occurs word text = some_of (occurrences word 0 text)
  where
    some_of : List ℕ → Bool
    some_of [] = false
    some_of _ = true

abbrev pub is_empty : Text → Bool
is_empty [] = true
is_empty _ = false

pub record Texts : Type 0 where
  pub lower : Text → Text
  pub strip : Text → Text
  pub fingerprint : CandidateFinding → Text

pub record Request : Type 0 where
  pub files : List ChangedFile
  pub work_units : List PlannedUnit
  pub scopes : List Scope
  pub executions : List WorkUnitExecutionResult
  pub language_semantics : List Text

-- A candidate, its execution and the evidence of that.
pub record Contribution : Type 0 where
  pub candidate : CandidateFinding
  pub execution : WorkUnitExecutionResult
  pub evidence : List EvidenceReference

abbrev pub has_any : {A : Type 0} → List A → Bool
has_any [] = false
has_any _ = true

abbrev pub direct_refs : Contribution → List Text
direct_refs c = keep (λ ref. is_direct (evidence_with ref c.evidence)) c.candidate.evidence_refs

module _ (t : Texts) (r : Request) where
  -- `_validate_candidate`: the reason of a rejection.
  unfoldable pub validate_candidate : Contribution → Option Text
  validate_candidate c =
      let candidate = c.candidate in
      let causation = t.lower candidate.change_causation in
      if not (text_eq candidate.task_id c.execution.task_id)
        || not (text_eq candidate.execution_id c.execution.execution_id)
      then some (codes "invalid_structure")
      else if not (any (λ u. text_eq u.work_unit_id candidate.work_unit_id) r.work_units)
      then some (codes "invalid_structure")
      else if not (location_exists candidate.location r.files)
      then some (codes "location_not_found")
      else if any (λ ref. not (is_some (evidence_with ref c.evidence))) candidate.evidence_refs
      then some (codes "evidence_not_found")
      else if not (any (λ ref. is_direct (evidence_with ref c.evidence)) candidate.evidence_refs)
      then some (codes "evidence_mismatch")
      else if occurs (codes "pre_existing") causation || occurs (codes "pre-existing") causation
      then some (codes "pre_existing_issue")
      else if occurs (codes "unrelated") causation
      then some (codes "outside_change_scope")
      else if occurs (codes "not_actionable") causation || is_empty (t.strip candidate.suggestion)
      then some (codes "not_actionable")
      else none
