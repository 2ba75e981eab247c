-- ===== src/Planning/Planner.antt =====
-- `ReviewPlanner` (domain/planning/planner.py).
use cr_agent.Prelude.{
  ℕ, ◌+◌, Bool, not, ◌&&◌, ◌||◌, Option, none, some, List, [], ◌∷◌, ◌++◌, map, length, ltb, leb,
  String, if◌then◌else◌,
}
use cr_agent.Prelude.Exec.{Result, ok}
use cr_agent.Prelude.Fallible.{◌>>=◌, ◌>>◌, refuse}
use cr_agent.Prelude.Sorting.{sorted}
use cr_agent.Prelude.Text.{Text, codes}
use cr_agent.Input.Models.{ChangeType, Line, Hunk, ChangedFile, no_hunks}
use cr_agent.Planning.Models.{
  PlannedDisposition, planned, unreviewable, no_review_required, WorkUnitKind, PlanError,
  value_error, ModelCapacitySummary, LineRange, range_valid, CoverageScope, WorkUnit, slice,
  unit_valid, unique, within, planned_ids, all_ids, unit_ids, ReviewPlan,
}
use cr_agent.Planning.Capacity.{
  lines_of, estimate_hunks, estimate_lines, fits, box_hunks, line_blocks,
}

abbrev pub numbers : (Line → Option ℕ) → List Line → List ℕ
numbers side [] = []
numbers side (l ∷ ls) =
    let rest = numbers side ls in elim (side l) [ none ↦ rest | some n ↦ n ∷ rest ]

-- `min(numbers) if numbers else None`, and `max`.
abbrev pub smallest : List ℕ → Option ℕ
smallest [] = none
smallest (n ∷ ns) = elim (smallest ns) [ none ↦ some n | some m ↦ some (if leb n m then n else m) ]

abbrev pub largest : List ℕ → Option ℕ
largest [] = none
largest (n ∷ ns) = elim (largest ns) [ none ↦ some n | some m ↦ some (if leb n m then m else n) ]

abbrev pub range_of : List Line → LineRange
range_of lines =
    let old_numbers = numbers (λ l. l.old_line_number) lines in
    let new_numbers = numbers (λ l. l.new_line_number) lines in
    record {
      old_start = smallest old_numbers;
      old_end = largest old_numbers;
      new_start = smallest new_numbers;
      new_end = largest new_numbers;
    }

-- `LineRange(...)`, which raises for lines with no number.
unfoldable pub line_range : List Line → Result PlanError LineRange
line_range lines = do refuse (not (range_valid (range_of lines))) value_error; ok (range_of lines)

-- The digests that make ids.
pub record Ids : Type 0 where
  pub file_scope_id : Text → Text
  pub group_scope_id : Text → List Hunk → Text
  pub hunk_scope_id : Text → Hunk → Text
  pub block_scope_id : Text → Hunk → List Line → Text
  pub unit_id : WorkUnitKind → Text → List Text → Text

pub record Planned : Type 0 where
  pub scopes : List CoverageScope
  pub units : List WorkUnit
  pub rank : ℕ

abbrev pub without_range : ChangedFile → Text → PlannedDisposition → Option String → CoverageScope
without_range f scope_id disposition reason_code = record {
  scope_id = scope_id;
  file_id = f.file_id;
  scope_kind = "file";
  range = none;
  disposition = disposition;
  reason_code = reason_code;
}

abbrev pub with_range :
    ChangedFile → Text → String → LineRange → PlannedDisposition → Option String → CoverageScope
with_range f scope_id scope_kind range disposition reason_code = record {
  scope_id = scope_id;
  file_id = f.file_id;
  scope_kind = scope_kind;
  range = some range;
  disposition = disposition;
  reason_code = reason_code;
}

module _ (ids : Ids) (c : ModelCapacitySummary) (f : ChangedFile) where
  abbrev pub made_unit : WorkUnitKind → List Line → Text → LineRange → ℕ × ℕ → ℕ → WorkUnit
  made_unit kind lines scope_id range estimate rank = record {
    work_unit_id = ids.unit_id kind f.file_id (scope_id ∷ []);
    kind = kind;
    file_id = f.file_id;
    scope_ids = scope_id ∷ [];
    range = range;
    content_refs = map slice lines;
    capacity_estimate = record {
      estimated_input_tokens = estimate.0;
      estimated_output_tokens = estimate.1;
    };
    execution_rank = rank;
  }

  -- `_build_unit`, with the one scope that every caller passes.
  unfoldable pub build_unit :
      WorkUnitKind → List Line → Text → ℕ × ℕ → ℕ → Result PlanError WorkUnit
  build_unit kind lines scope_id estimate rank = do
    range ← line_range lines
    refuse (not (unit_valid (made_unit kind lines scope_id range estimate rank))) value_error
    ok (made_unit kind lines scope_id range estimate rank)

  -- A scope with a range and its unit.
  unfoldable pub plan_part :
      WorkUnitKind → String → List Line → Text → ℕ × ℕ → ℕ → Result PlanError Planned
  plan_part kind scope_kind lines scope_id estimate rank = do
    range ← line_range lines
    unit ← build_unit kind lines scope_id estimate rank
    ok (record {
      scopes = with_range f scope_id scope_kind range planned none ∷ [];
      units = unit ∷ [];
      rank = rank + 1;
    })

  abbrev pub followed_by : Planned → Planned → Planned
  followed_by p q = record {
    scopes = p.scopes ++ q.scopes;
    units = p.units ++ q.units;
    rank = q.rank;
  }

  abbrev pub nothing : ℕ → Planned
  nothing rank = record { scopes = []; units = []; rank = rank }

  -- The loop over the blocks of a hunk.
  unfoldable pub plan_blocks : Hunk → List (List Line) → ℕ → Result PlanError Planned
  plan_blocks hunk [] rank = ok (nothing rank)
  plan_blocks hunk (b ∷ bs) rank = do
    first ←
        plan_part WorkUnitKind.line_block "line_block" b (ids.block_scope_id f.file_id hunk b)
          (estimate_lines (length b)) rank
    rest ← plan_blocks hunk bs first.rank
    ok (followed_by first rest)

  -- A hunk that not even its lines fit.
  unfoldable pub skip_hunk : Hunk → ℕ → Result PlanError Planned
  skip_hunk hunk rank = do
    range ← line_range hunk.lines
    ok (record {
      scopes =
          with_range f (ids.hunk_scope_id f.file_id hunk) "hunk_group" range unreviewable
            (some "context_capacity_exceeded")
          ∷ [];
      units = [];
      rank = rank;
    })

  unfoldable pub plan_hunk : Hunk → Option (List (List Line)) → ℕ → Result PlanError Planned
  plan_hunk hunk none rank = skip_hunk hunk rank
  plan_hunk hunk (some bs) rank = plan_blocks hunk bs rank

  -- A group as a whole, or its only hunk block by block.
  unfoldable pub plan_group : List Hunk → ℕ → Result PlanError Planned
  plan_group [] rank = ok (nothing rank)
  plan_group (h ∷ hs) rank =
      let whole =
        plan_part WorkUnitKind.hunk_group "hunk_group" (lines_of (h ∷ hs))
          (ids.group_scope_id f.file_id (h ∷ hs)) (estimate_hunks (h ∷ hs)) rank in
      if ltb 1 (length (h ∷ hs)) || fits (estimate_hunks (h ∷ hs)) c
      then whole
      else plan_hunk h (line_blocks c h) rank

  unfoldable pub plan_groups : List (List Hunk) → ℕ → Result PlanError Planned
  plan_groups [] rank = ok (nothing rank)
  plan_groups (g ∷ gs) rank = do
    first ← plan_group g rank
    rest ← plan_groups gs first.rank
    ok (followed_by first rest)

  -- The file as one unit.
  unfoldable pub plan_whole : ℕ → Result PlanError Planned
  plan_whole rank = do
    unit ←
        build_unit WorkUnitKind.file (lines_of f.hunks) (ids.file_scope_id f.file_id)
          (estimate_hunks f.hunks) rank
    ok (record {
      scopes = without_range f (ids.file_scope_id f.file_id) planned none ∷ [];
      units = unit ∷ [];
      rank = rank + 1;
    })

  abbrev pub no_unit : PlannedDisposition → String → ℕ → Planned
  no_unit disposition reason_code rank = record {
    scopes = without_range f (ids.file_scope_id f.file_id) disposition (some reason_code) ∷ [];
    units = [];
    rank = rank;
  }

  -- `_plan_file`
  unfoldable pub plan_file : ℕ → Result PlanError Planned
  plan_file rank =
      if f.is_binary
      then ok (no_unit unreviewable "binary_content" rank)
      else if no_hunks f.hunks
      then ok (no_unit no_review_required "no_text_review_object" rank)
      else if fits (estimate_hunks f.hunks) c
      then plan_whole rank
      else plan_groups (box_hunks c f.hunks) rank

abbrev pub or_empty : Option Text → Text
or_empty none = []
or_empty (some t) = t

-- The values of the enum.
abbrev pub change_type_value : ChangeType → Text
change_type_value ChangeType.added = codes "added"
change_type_value ChangeType.modified = codes "modified"
change_type_value ChangeType.deleted = codes "deleted"
change_type_value ChangeType.renamed = codes "renamed"
change_type_value ChangeType.binary = codes "binary"

abbrev pub key : ChangedFile → List Text
key f = or_empty f.new_path ∷ or_empty f.old_path ∷ change_type_value f.change_type ∷ f.file_id ∷ []

-- `sorted(files, key=key)`
abbrev pub ordered_files : List ChangedFile → List ChangedFile
ordered_files files = sorted key files

module _ (ids : Ids) (c : ModelCapacitySummary) where
  -- The loop of `plan`.
  unfoldable pub plan_files : List ChangedFile → ℕ → Result PlanError Planned
  plan_files [] rank = ok (record { scopes = []; units = []; rank = rank })
  plan_files (f ∷ fs) rank = do
    first ← plan_file ids c f rank
    rest ← plan_files fs first.rank
    ok (followed_by ids c f first rest)

-- `covered_by_units`
unfoldable pub covered_ids : List WorkUnit → List Text
covered_ids [] = []
covered_ids (u ∷ us) = u.scope_ids ++ covered_ids us

-- The checks of `ReviewPlan.__post_init__` on its scopes and units.
unfoldable pub plan_valid : ReviewPlan → Bool
plan_valid p =
    let covered = covered_ids p.work_units in
    let planned = planned_ids p.coverage_scopes in
    unique (all_ids p.coverage_scopes)
    && unique covered
    && (within covered planned && within planned covered)
    && unique (unit_ids p.work_units)

abbrev pub review_plan : Planned → ReviewPlan
review_plan p = record { coverage_scopes = p.scopes; work_units = p.units }

unfoldable pub plan : Ids → ModelCapacitySummary → List ChangedFile → Result PlanError ReviewPlan
plan ids c files = do
  p ← plan_files ids c (ordered_files files) 0
  refuse (not (plan_valid (review_plan p))) value_error
  ok (review_plan p)
