-- ===== src/Findings/Tests.antt =====
-- A run of the processor, and the theorem at a concrete input.
use cr_agent.Prelude.{ℕ, Bool, true, false, ◌≡◌, refl, Option, none, some, List, [], ◌∷◌}
use cr_agent.Prelude.Exec.{ok}
use cr_agent.Prelude.Text.{Text, codes}
use cr_agent.Input.Models.{ChangeType, LineType, ChangedFile}
use cr_agent.Planning.Models.{planned, unreviewable}
use cr_agent.Findings.Models.{
  CandidateLocationKind, CandidateFinding, WorkUnitExecutionState, WorkUnitExecutionResult,
  CoverageImpact, Confidence, CoverageState, FindingSet,
}
use cr_agent.Findings.Validation.{Texts, Request}
use cr_agent.Findings.Processor.{process}

abbrev plain_texts : Texts
plain_texts = record { lower = λ s. s; strip = λ s. s; fingerprint = λ c. c.category }

abbrev one_file : ChangedFile
one_file = record {
  file_id = codes "f";
  old_path = none;
  new_path = some (codes "a");
  change_type = ChangeType.added;
  is_binary = false;
  hunks =
      record {
        ranges = record { old_start = 0; old_count = 0; new_start = 1; new_count = 1 };
        lines =
            record {
              line_type = LineType.addition;
              old_line_number = none;
              new_line_number = some 1;
              sequence = 1;
              content_start = 9;
              content_end = 12;
            }
            ∷ [];
      }
      ∷ [];
  additions = 1;
  deletions = 0;
}

abbrev candidate : Text → Text → ℕ → CandidateFinding
candidate candidate_id category line = record {
  candidate_id = candidate_id;
  task_id = codes "t";
  work_unit_id = codes "u";
  execution_id = codes "x";
  category = category;
  location = record {
    kind = CandidateLocationKind.new_line;
    file_id = codes "f";
    line = some line;
    related_file_ids = [];
  };
  evidence_refs = codes "e" ∷ [];
  suggestion = codes "s";
  change_causation = codes "introduced";
}

-- Two candidates for one finding, and one at a line that is not there.
abbrev execution : WorkUnitExecutionResult
execution = record {
  execution_id = codes "x";
  task_id = codes "t";
  work_unit_id = codes "u";
  state = WorkUnitExecutionState.succeeded;
  error_code = none;
  coverage_impact = CoverageImpact.fully_covered;
  tool_attempts = record { succeeded = true; success = true } ∷ [];
  candidates =
      candidate (codes "c1") (codes "bug") 1
      ∷ candidate (codes "c2") (codes "style") 7
      ∷ candidate (codes "c3") (codes "bug") 1
      ∷ [];
  evidence = record { evidence_id = codes "e"; evidence_type = codes "changed_code" } ∷ [];
}

abbrev request : Request
request = record {
  files = one_file ∷ [];
  work_units = record { work_unit_id = codes "u"; scope_ids = codes "s1" ∷ [] } ∷ [];
  scopes =
      record { scope_id = codes "s1"; disposition = planned; reason_code = none }
      ∷ record {
        scope_id = codes "s2";
        disposition = unreviewable;
        reason_code = some (codes "binary_content");
      }
      ∷ [];
  executions = execution ∷ [];
  language_semantics = [];
}

abbrev processed : FindingSet
processed = record {
  findings =
      record {
        fingerprint = codes "bug";
        candidate = candidate (codes "c1") (codes "bug") 1;
        confidence = Confidence.high;
        evidence_ids = codes "e" ∷ [];
        source_candidate_ids = codes "c1" ∷ codes "c3" ∷ [];
      }
      ∷ [];
  coverage =
      record {
        scope_id = codes "s1";
        state = CoverageState.reviewed;
        reason_code = codes "execution_succeeded";
      }
      ∷ record {
        scope_id = codes "s2";
        state = CoverageState.unreviewable;
        reason_code = codes "binary_content";
      }
      ∷ [];
  rejections = record { candidate_id = codes "c2"; reason = codes "location_not_found" } ∷ [];
}

process-request : process plain_texts request ≡ ok processed
unfolding cr_agent.Prelude.Sorting.sorted cr_agent.Prelude.Text.occurrences
    cr_agent.Findings.Validation.location_exists cr_agent.Findings.Coverage.by_execution
    cr_agent.Findings.Coverage.put_execution cr_agent.Findings.Coverage.by_id
    cr_agent.Findings.Validation.validate_candidate cr_agent.Findings.Processor.settle_all
    cr_agent.Findings.Processor.contributions_of cr_agent.Findings.Processor.contributions
    cr_agent.Findings.Processor.finalize cr_agent.Findings.Processor.finalize_all
    cr_agent.Findings.Coverage.scope_state cr_agent.Findings.Coverage.coverage
    cr_agent.Findings.Processor.process
process-request = refl
