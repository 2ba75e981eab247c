-- ===== src/Findings/Final.antt =====
-- What `process` returns.
use mathlib.Core.List.{Perm}
use mathlib.Core.List.Perm
use cr_agent.Prelude.{true, ◌≡◌, List, ◌++◌, map, All}
use cr_agent.Prelude.Exec.{ok}
use cr_agent.Prelude.Text.{Text}
use cr_agent.Prelude.Sorting.{Ascending}
use cr_agent.Planning.Models.{unique}
use cr_agent.Findings.Models.{FinalFinding, FindingSet}
use cr_agent.Findings.Validation.{Texts, Request}
use cr_agent.Findings.Processor.{Accepted, finalize_all, contributions, finding_key, fingerprints}
use cr_agent.Findings.Coverage.{coverage}
use cr_agent.Findings.Settled.{ids_of, accepted_ids, rejected_ids, keys}
use cr_agent.Findings.Order.{sources}
use cr_agent.Findings.Direct.{Retains}
use cr_agent.Findings.Answers.{AllAnswered}

module _ (t : Texts) (r : Request) where
  -- The findings of all groups.
  pub record IsFinal (gs : Accepted) (fs : List FinalFinding) : Type 0 where
    pub are : finalize_all t r gs ≡ ok fs
    pub same_keys : map (λ f. f.fingerprint) fs ≡ keys gs
    pub same_ids : sources fs ≡ accepted_ids gs
    pub retain : All (Retains r) fs

-- A finding set that accounts for its request: the source candidates of the findings and the rejected
-- candidates are together those of the executions, each finding has a fingerprint of its own and names
-- exactly the direct evidence of its candidate, the findings stand in order, and the coverage has an
-- entry for each scope of the plan, in its order, with the state that the plan and the executions give.
pub record IsSettled (t : Texts) (r : Request) (s : FindingSet) : Type 0 where
  pub conserved :
      Perm
        (sources s.findings ++ rejected_ids s.rejections)
        (ids_of (contributions t r r.executions))
  pub apart : unique (fingerprints s.findings) ≡ true
  pub retain : All (Retains r) s.findings
  pub ascending : Ascending finding_key s.findings
  pub answered : AllAnswered t r r.scopes s.coverage
