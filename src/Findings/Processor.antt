-- ===== src/Findings/Processor.antt =====
-- `process` of `FindingProcessor` (domain/findings/processor.py).
use cr_agent.Prelude.{
  ℕ, not, ◌&&◌, ◌||◌, Option, none, some, List, [], ◌∷◌, ◌++◌, map, any, if◌then◌else◌,
}
use cr_agent.Prelude.Exec.{Result, ok, err}
use cr_agent.Prelude.Fallible.{◌>>=◌, ◌>>◌, refuse}
use cr_agent.Prelude.Text.{Text, codes, text_eq}
use cr_agent.Prelude.Sorting.{sorted}
use cr_agent.Planning.Models.{unique}
use cr_agent.Findings.Models.{
  CandidateLocationKind, new_line, old_line, file, multi_file, EvidenceReference, CandidateFinding,
  WorkUnitExecutionResult, Confidence, high, advisory, FindingRejection, FinalFinding, FindingSet,
  FindingError, value_error,
}
use cr_agent.Findings.Validation.{
  last_with, Texts, Request, Contribution, has_any, direct_refs, validate_candidate,
}
use cr_agent.Findings.Coverage.{coverage}

-- The findings by fingerprint, in the order of their first candidates.
abbrev pub Accepted : Type 0
Accepted = List (Text × List Contribution)

abbrev pub accept : Text → Contribution → Accepted → Accepted
accept f c [] = (f, c ∷ []) ∷ []
accept f c ((g, cs) ∷ groups) =
    let rest = accept f c groups in
    if text_eq g f then (g, cs ++ (c ∷ [])) ∷ groups else (g, cs) ∷ rest

-- The evidence by execution, of the last execution with the id.
abbrev pub evidence_of : Text → List WorkUnitExecutionResult → List EvidenceReference
evidence_of i executions = elim (last_with (λ x. x.execution_id) i executions) [
  | none ↦ []
  | some x ↦ x.evidence
]

abbrev pub rank_of : Confidence → Text
rank_of high = 0 ∷ []
rank_of advisory = 1 ∷ []

abbrev pub kind_value : CandidateLocationKind → Text
kind_value new_line = codes "new_line"
kind_value old_line = codes "old_line"
kind_value file = codes "file"
kind_value multi_file = codes "multi_file"

abbrev pub or_zero : Option ℕ → ℕ
or_zero none = 0
or_zero (some n) = n

-- The key of a finding; the severity is the same for all.
abbrev pub finding_key : FinalFinding → List Text
finding_key f =
    rank_of f.confidence
    ∷ f.candidate.location.file_id
    ∷ kind_value f.candidate.location.kind
    ∷ (or_zero f.candidate.location.line ∷ [])
    ∷ f.candidate.category
    ∷ f.fingerprint
    ∷ []

abbrev pub fingerprints : List FinalFinding → List Text
fingerprints fs = map (λ f. f.fingerprint) fs

module _ (t : Texts) (r : Request) where
  pub record Sorted : Type 0 where
    pub rejections : List FindingRejection
    pub accepted : Accepted

  abbrev pub settle : Contribution → Option Text → Sorted → Sorted
  settle c (some reason) s = record s {
    rejections =
        s.rejections ++ (record { candidate_id = c.candidate.candidate_id; reason = reason } ∷ []);
  }
  settle c none s = record s { accepted = accept (t.fingerprint c.candidate) c s.accepted }

  -- The loop over the candidates of all executions.
  unfoldable pub settle_all : List Contribution → Sorted → Sorted
  settle_all [] s = s
  settle_all (c ∷ cs) s = settle_all cs (settle c (validate_candidate t r c) s)

  unfoldable pub contributions_of :
      WorkUnitExecutionResult → List CandidateFinding → List Contribution
  contributions_of x [] = []
  contributions_of x (c ∷ cs) =
      record { candidate = c; execution = x; evidence = evidence_of x.execution_id r.executions }
      ∷ contributions_of x cs

  unfoldable pub contributions : List WorkUnitExecutionResult → List Contribution
  contributions [] = []
  contributions (x ∷ xs) = contributions_of x x.candidates ++ contributions xs

  abbrev pub confidence_of : Contribution → Confidence
  confidence_of c =
      if has_any (direct_refs c)
        && (any (λ a. a.succeeded && a.success) c.execution.tool_attempts
            || has_any r.language_semantics)
      then high
      else advisory

  abbrev pub final_finding : Text → Contribution → List Contribution → FinalFinding
  final_finding f c cs = record {
    fingerprint = f;
    candidate = c.candidate;
    confidence = confidence_of c;
    evidence_ids = direct_refs c;
    source_candidate_ids = map (λ x. x.candidate.candidate_id) (c ∷ cs);
  }

  -- `_finalize`, with the check of `FinalFinding.__post_init__` on its evidence. The first
  -- contribution of no contributions is an IndexError.
  unfoldable pub finalize : Text × List Contribution → Result FindingError FinalFinding
  finalize (f, []) = err value_error
  finalize (f, c ∷ cs) = do
    refuse (not (has_any (direct_refs c))) value_error
    ok (final_finding f c cs)

  unfoldable pub finalize_all : Accepted → Result FindingError (List FinalFinding)
  finalize_all [] = ok []
  finalize_all (g ∷ gs) = do x ← finalize g; xs ← finalize_all gs; ok (x ∷ xs)

  abbrev pub settled : Sorted
  settled = settle_all (contributions r.executions) (record { rejections = []; accepted = [] })

  -- `process`, with the check of `FindingSet.__post_init__` on its fingerprints.
  unfoldable pub process : Result FindingError FindingSet
  process = do
    findings ← finalize_all settled.accepted
    entries ← coverage t r
    refuse (not (unique (fingerprints (sorted finding_key findings)))) value_error
    ok (record {
      findings = sorted finding_key findings;
      coverage = entries;
      rejections = settled.rejections;
    })
