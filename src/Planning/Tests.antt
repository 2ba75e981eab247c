-- ===== src/Planning/Tests.antt =====
-- A run of the planner, and the theorem at a concrete input.
use mathlib.Core.List.{Perm}
use cr_agent.Prelude.{All, ℕ, true, false, ◌≡◌, refl, none, some, String, List, [], ◌∷◌}
use cr_agent.Prelude.Sorting.{Ascending}
use cr_agent.Prelude.Exec.{ok, err}
use cr_agent.Prelude.Text.{Text, codes}
use cr_agent.Input.Models.{ChangeType, LineType, Line, ChangedFile}
use cr_agent.Planning.Models.{
  PlannedDisposition, planned, unreviewable, WorkUnitKind, PlanError, ModelCapacitySummary,
  LineRange, CoverageScope, CapacityEstimate, WorkUnit, ReviewPlan,
}
use cr_agent.Planning.Planner.{
  Planned, plan_files, Ids, key, Planned, ordered_files, plan_files, review_plan, plan_valid, plan,
}
use cr_agent.Planning.Returns.{GoodHunk, plan_files_lem}
use cr_agent.Planning.Covered.{Covers}
use cr_agent.Planning.Parts.{all_lines}
use cr_agent.Planning.Plan.{plan-Covers}

abbrev first_start : List Line → ℕ
first_start [] = 0
first_start (l ∷ ls) = l.content_start

abbrev first_id : List Text → Text
first_id [] = []
first_id (t ∷ ts) = t

abbrev plain_ids : Ids
plain_ids = record {
  file_scope_id = λ t. b'f' ∷ t;
  group_scope_id = λ t hs. b'g' ∷ t;
  hunk_scope_id = λ t h. b'h' ∷ first_start h.lines ∷ t;
  block_scope_id = λ t h ls. b'b' ∷ first_start ls ∷ t;
  unit_id = λ kind t ids. first_id ids;
}

abbrev added_line : ℕ → ℕ → ℕ → Line
added_line number start end = record {
  line_type = LineType.addition;
  old_line_number = none;
  new_line_number = some number;
  sequence = 1;
  content_start = start;
  content_end = end;
}

-- The second hunk only fits line by line.
abbrev text_file : ChangedFile
text_file = record {
  file_id = codes "t";
  old_path = none;
  new_path = some (codes "b");
  change_type = ChangeType.added;
  is_binary = false;
  hunks =
      record {
        ranges = record { old_start = 0; old_count = 0; new_start = 1; new_count = 1 };
        lines = added_line 1 0 10 ∷ [];
      }
      ∷ record {
        ranges = record { old_start = 0; old_count = 0; new_start = 5; new_count = 2 };
        lines = added_line 5 20 40 ∷ added_line 6 41 61 ∷ [];
      }
      ∷ [];
  additions = 3;
  deletions = 0;
}

abbrev binary_file : ChangedFile
binary_file = record {
  file_id = codes "i";
  old_path = none;
  new_path = some (codes "a");
  change_type = ChangeType.binary;
  is_binary = true;
  hunks = [];
  additions = 0;
  deletions = 0;
}

abbrev two_files : List ChangedFile
two_files = text_file ∷ binary_file ∷ []

abbrev small_model : ModelCapacitySummary
small_model = record { context_token_limit = 265; max_output_tokens = 1 }

abbrev new_lines : ℕ → ℕ → LineRange
new_lines start end = record {
  old_start = none;
  old_end = none;
  new_start = some start;
  new_end = some end;
}

abbrev part : Text → String → ℕ → CoverageScope
part scope_id kind line = record {
  scope_id = scope_id;
  file_id = codes "t";
  scope_kind = kind;
  range = some (new_lines line line);
  disposition = planned;
  reason_code = none;
}

abbrev unit : WorkUnitKind → Text → ℕ → ℕ × ℕ → ℕ → ℕ → WorkUnit
unit kind scope_id line refs tokens rank = record {
  work_unit_id = scope_id;
  kind = kind;
  file_id = codes "t";
  scope_ids = scope_id ∷ [];
  range = new_lines line line;
  content_refs = refs ∷ [];
  capacity_estimate = record { estimated_input_tokens = tokens; estimated_output_tokens = 1 };
  execution_rank = rank;
}

abbrev two_files_plan : ReviewPlan
two_files_plan = record {
  coverage_scopes =
      record {
        scope_id = codes "fi";
        file_id = codes "i";
        scope_kind = "file";
        range = none;
        disposition = unreviewable;
        reason_code = some "binary_content";
      }
      ∷ part (codes "gt") "hunk_group" 1
      ∷ part (b'b' ∷ 20 ∷ codes "t") "line_block" 5
      ∷ part (b'b' ∷ 41 ∷ codes "t") "line_block" 6
      ∷ [];
  work_units =
      unit WorkUnitKind.hunk_group (codes "gt") 1 (0, 10) 259 0
      ∷ unit WorkUnitKind.line_block (b'b' ∷ 20 ∷ codes "t") 5 (20, 40) 262 1
      ∷ unit WorkUnitKind.line_block (b'b' ∷ 41 ∷ codes "t") 6 (41, 61) 262 2
      ∷ [];
}

plan-two_files : plan plain_ids small_model two_files ≡ ok two_files_plan
unfolding cr_agent.Planning.Models.range_valid cr_agent.Planning.Models.unit_valid
    cr_agent.Planning.Models.scope_valid cr_agent.Planning.Models.planned_ids
    cr_agent.Planning.Capacity.estimate_hunks cr_agent.Planning.Capacity.estimate_lines
    cr_agent.Planning.Capacity.box_from cr_agent.Planning.Capacity.blocks_from
    cr_agent.Planning.Capacity.blocks_within cr_agent.Planning.Capacity.line_blocks
    cr_agent.Planning.Planner.line_range cr_agent.Planning.Planner.build_unit
    cr_agent.Planning.Planner.plan_part cr_agent.Planning.Planner.plan_blocks
    cr_agent.Planning.Planner.skip_hunk cr_agent.Planning.Planner.plan_hunk
    cr_agent.Planning.Planner.plan_group cr_agent.Planning.Planner.plan_groups
    cr_agent.Planning.Planner.plan_whole cr_agent.Planning.Planner.plan_file
    cr_agent.Prelude.Sorting.sorted cr_agent.Planning.Planner.plan_files
    cr_agent.Planning.Planner.covered_ids cr_agent.Planning.Planner.plan_valid
    cr_agent.Planning.Planner.plan
plan-two_files = refl

plan-Covers_example :
    Perm (ordered_files two_files) two_files
    × Ascending key (ordered_files two_files)
    × Covers plain_ids small_model 0
        (all_lines (ordered_files two_files))
        two_files_plan.coverage_scopes
        two_files_plan.work_units
plan-Covers_example = plan-Covers plain_ids small_model two_files two_files_plan plan-two_files

-- A hunk with no lines, which the diff parser accepts, makes the planner raise.
abbrev empty_hunk : ChangedFile
empty_hunk = record text_file {
  hunks =
      record {
        ranges = record { old_start = 0; old_count = 0; new_start = 0; new_count = 0 };
        lines = [];
      }
      ∷ [];
  additions = 0;
}

plan-empty_hunk : plan plain_ids small_model (empty_hunk ∷ []) ≡ err PlanError.value_error
unfolding cr_agent.Planning.Models.range_valid cr_agent.Planning.Models.unit_valid
    cr_agent.Planning.Models.scope_valid cr_agent.Planning.Models.planned_ids
    cr_agent.Planning.Capacity.estimate_hunks cr_agent.Planning.Capacity.estimate_lines
    cr_agent.Planning.Capacity.box_from cr_agent.Planning.Capacity.blocks_from
    cr_agent.Planning.Capacity.blocks_within cr_agent.Planning.Capacity.line_blocks
    cr_agent.Planning.Planner.line_range cr_agent.Planning.Planner.build_unit
    cr_agent.Planning.Planner.plan_part cr_agent.Planning.Planner.plan_blocks
    cr_agent.Planning.Planner.skip_hunk cr_agent.Planning.Planner.plan_hunk
    cr_agent.Planning.Planner.plan_group cr_agent.Planning.Planner.plan_groups
    cr_agent.Planning.Planner.plan_whole cr_agent.Planning.Planner.plan_file
    cr_agent.Prelude.Sorting.sorted cr_agent.Planning.Planner.plan_files
    cr_agent.Planning.Planner.covered_ids cr_agent.Planning.Planner.plan_valid
    cr_agent.Planning.Planner.plan
plan-empty_hunk = refl

two_files-good : All (λ f. All GoodHunk f.hunks) two_files
unfolding cr_agent.Input.Models.line_valid
two_files-good = (((refl, (refl, tt)), ((refl, (refl, (refl, tt))), tt)), (tt, tt))

plan_files_lem_example : (p : Planned) × (plan_files plain_ids small_model two_files 0 ≡ ok p)
plan_files_lem_example = plan_files_lem plain_ids small_model two_files 0 two_files-good
