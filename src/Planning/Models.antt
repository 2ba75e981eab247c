-- ===== src/Planning/Models.antt =====
-- Contracts of a review plan (domain/planning/models.py), without the digests and what a plan or a
-- unit repeats of its request (the strategy, the capacity, the tools).
use cr_agent.Prelude.{
  ℕ, Bool, true, false, not, ◌&&◌, ◌||◌, Option, some, List, [], ◌∷◌, String, is_some, leb,
  if◌then◌else◌,
}
use cr_agent.Prelude.Text.{Text, text_eq}
use cr_agent.Input.Models.{Line, same_flag}

pub data PlannedDisposition : Type 0 where
  planned unreviewable no_review_required : PlannedDisposition

pub data WorkUnitKind : Type 0 where
  file hunk_group line_block : WorkUnitKind

-- The ValueError of a contract.
pub data PlanError : Type 0 where
  value_error : PlanError

pub record ModelCapacitySummary : Type 0 where
  pub context_token_limit : ℕ
  pub max_output_tokens : ℕ

pub record LineRange : Type 0 where
  pub old_start : Option ℕ
  pub old_end : Option ℕ
  pub new_start : Option ℕ
  pub new_end : Option ℕ

-- The bounds of one side.
abbrev pub in_order : Option ℕ → Option ℕ → Bool
in_order (some a) (some b) = leb a b
in_order _ _ = true

-- The checks of `LineRange.__post_init__`.
unfoldable pub range_valid : LineRange → Bool
range_valid r =
    same_flag (is_some r.old_start) (is_some r.old_end)
    && same_flag (is_some r.new_start) (is_some r.new_end)
    && in_order r.old_start r.old_end
    && in_order r.new_start r.new_end
    && (is_some r.old_start || is_some r.new_start)

pub record CoverageScope : Type 0 where
  pub scope_id : Text
  pub file_id : Text
  pub scope_kind : String
  pub range : Option LineRange
  pub disposition : PlannedDisposition
  pub reason_code : Option String

pub record CapacityEstimate : Type 0 where
  pub estimated_input_tokens : ℕ
  pub estimated_output_tokens : ℕ

-- The content is a list of slices, each with its start and end.
pub record WorkUnit : Type 0 where
  pub work_unit_id : Text
  pub kind : WorkUnitKind
  pub file_id : Text
  pub scope_ids : List Text
  pub range : LineRange
  pub content_refs : List (ℕ × ℕ)
  pub capacity_estimate : CapacityEstimate
  pub execution_rank : ℕ

abbrev pub slice : Line → ℕ × ℕ
slice l = (l.content_start, l.content_end)

-- `x in texts`
abbrev pub contains : Text → List Text → Bool
contains x [] = false
contains x (y ∷ ys) = text_eq x y || contains x ys

-- `len(set(texts)) == len(texts)`
abbrev pub unique : List Text → Bool
unique [] = true
unique (x ∷ xs) = not (contains x xs) && unique xs

-- `set(xs) <= set(ys)`
abbrev pub within : List Text → List Text → Bool
within [] ys = true
within (x ∷ xs) ys = contains x ys && within xs ys

-- The checks of `WorkUnit.__post_init__` that do not rest on its parts' own. That no slice refers to a
-- blocked artifact is not modelled, nor is the artifact of a slice; a change set has no blocked one.
unfoldable pub unit_valid : WorkUnit → Bool
unit_valid u = has_some u.scope_ids && unique u.scope_ids && has_some u.content_refs
  where
    has_some : {A : Type 0} → List A → Bool
    has_some [] = false
    has_some _ = true

abbrev pub is_planned : PlannedDisposition → Bool
is_planned PlannedDisposition.planned = true
is_planned _ = false

-- `CoverageScope.__post_init__`: a reason exactly where nothing is planned.
unfoldable pub scope_valid : CoverageScope → Bool
scope_valid s = same_flag (is_planned s.disposition) (not (is_some s.reason_code))

-- The ids of the planned scopes, in their order.
unfoldable pub planned_ids : List CoverageScope → List Text
planned_ids [] = []
planned_ids (s ∷ ss) =
    let rest = planned_ids ss in if is_planned s.disposition then s.scope_id ∷ rest else rest

abbrev pub all_ids : List CoverageScope → List Text
all_ids [] = []
all_ids (s ∷ ss) = s.scope_id ∷ all_ids ss

abbrev pub unit_ids : List WorkUnit → List Text
unit_ids [] = []
unit_ids (u ∷ us) = u.work_unit_id ∷ unit_ids us

pub record ReviewPlan : Type 0 where
  pub coverage_scopes : List CoverageScope
  pub work_units : List WorkUnit
