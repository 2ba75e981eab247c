-- ===== src/Planning/Pieces.antt =====
-- The pieces of a plan: a scope with its unit, the blocks of a hunk, a hunk that is left out.
use mathlib.Core.Path.{subst}
use cr_agent.Prelude.{
  ℕ, ◌+◌, true, false, not, ◌≡◌, refl, sym, ◌∙◌, ap, none, List, [], ◌∷◌, ◌++◌, map, append_assoc,
  append-nil, length, all, Bool-cases, Option-cases, inl, inr, arith, String,
}
use cr_agent.Prelude.Exec.{Result, ok}
use cr_agent.Prelude.Fallible.{◌>>=◌, refuse, Ensures, bind-Ensures, ok-Ensures}
use cr_agent.Prelude.Text.{Text}
use cr_agent.Input.Models.{Line, Hunk, ChangedFile}
use cr_agent.Planning.Models.{
  planned, WorkUnitKind, PlanError, value_error, ModelCapacitySummary, LineRange, CoverageScope,
  WorkUnit, slice, unit_valid, planned_ids,
}
use cr_agent.Planning.Capacity.{lines_of, estimate_lines, fits, line_blocks}
use cr_agent.Planning.Packed.{flat, line_blocks-IsSplit}
use cr_agent.Planning.Unsplit.{line_blocks-Unsplittable}
use cr_agent.Planning.Covered.{IsPart, all_left, all_right, followed_by-IsPart, nothing-Covers}
use cr_agent.Planning.Planner.{
  line_range, Ids, Planned, made_unit, build_unit, plan_part, followed_by, nothing, plan_blocks,
  skip_hunk, plan_hunk, covered_ids, with_range,
}

pub lines_of-append : (hs gs : List Hunk) → lines_of (hs ++ gs) ≡ lines_of hs ++ lines_of gs
lines_of-append [] gs = refl
lines_of-append (h ∷ hs) gs =
    ap (λ r. h.lines ++ r) (lines_of-append hs gs)
    ∙ sym (append_assoc h.lines (lines_of hs) (lines_of gs))

module _ (ids : Ids) (c : ModelCapacitySummary) (f : ChangedFile) where
  -- A unit for some range.
  abbrev pub Made : WorkUnitKind → List Line → Text → ℕ × ℕ → ℕ → WorkUnit → Type 0
  Made kind lines scope_id estimate rank u =
      (range : LineRange) × (u ≡ made_unit ids c f kind lines scope_id range estimate rank)

  pub build_unit-Made :
      (kind : WorkUnitKind) (lines : List Line) (scope_id : Text) (estimate : ℕ × ℕ) (rank : ℕ)
      → Ensures
          (Made kind lines scope_id estimate rank)
          (build_unit ids c f kind lines scope_id estimate rank)
  unfolding build_unit
  build_unit-Made kind lines scope_id estimate rank =
      let P = Made kind lines scope_id estimate rank in
      bind-Ensures P (line_range lines) _ (λ range e.
        let u = made_unit ids c f kind lines scope_id range estimate rank in
        bind-Ensures P (refuse (not (unit_valid u)) value_error) _
          (λ v g. ok-Ensures P u (range, refl)))

  -- One planned scope and the unit that covers it.
  pub one-IsPart :
      (kind : WorkUnitKind) (lines : List Line) (estimate : ℕ × ℕ) (rank : ℕ) (range : LineRange)
      (s : CoverageScope) (u : WorkUnit)
      → s.disposition ≡ planned
      → u ≡ made_unit ids c f kind lines s.scope_id range estimate rank
      → fits estimate c ≡ true
      → IsPart ids c rank lines (record { scopes = s ∷ []; units = u ∷ []; rank = rank + 1 })
  unfolding covered_ids planned_ids
  one-IsPart kind lines estimate rank range s u d made h = rw made (record {
    covers = record {
      ranked = (refl, tt);
      paired = rw d refl;
      fit = (h, tt);
      skipped = [];
      too_large = tt;
      reported = rw d refl;
      conserved = rw (append-nil (map slice lines)) (all_left (map slice lines));
    };
    ends = omega arith;
  })

  pub plan_part-IsPart :
      (kind : WorkUnitKind) (scope_kind : String) (lines : List Line) (scope_id : Text)
      (estimate : ℕ × ℕ) (rank : ℕ)
      → fits estimate c ≡ true
      → Ensures
          (IsPart ids c rank lines)
          (plan_part ids c f kind scope_kind lines scope_id estimate rank)
  unfolding plan_part
  plan_part-IsPart kind scope_kind lines scope_id estimate rank h =
      bind-Ensures (IsPart ids c rank lines) (line_range lines) _ (λ range e.
        bind-Ensures (IsPart ids c rank lines)
          (build_unit ids c f kind lines scope_id estimate rank) _
          (λ u g.
            let (r, made) = build_unit-Made kind lines scope_id estimate rank u g in
            ok-Ensures (IsPart ids c rank lines) _ (
              one-IsPart kind lines estimate rank r
                (with_range f scope_id scope_kind range planned none) u refl made h)))

  pub nothing-IsPart : (rank : ℕ) → IsPart ids c rank [] (nothing ids c f rank)
  nothing-IsPart rank = record { covers = nothing-Covers ids c rank; ends = omega arith }

  -- A part and what follows it.
  pub two-IsPart :
      (rank : ℕ) (ls ms : List Line) (m : Result PlanError Planned)
      (k : ℕ → Result PlanError Planned)
      → Ensures (IsPart ids c rank ls) m
      → ((r : ℕ) → Ensures (IsPart ids c r ms) (k r))
      → Ensures
          (IsPart ids c rank (ls ++ ms))
          (m >>= λ first. k first.rank >>= λ rest. ok (followed_by ids c f first rest))
  two-IsPart rank ls ms m k h g = bind-Ensures (IsPart ids c rank (ls ++ ms)) m _ (λ p e.
      bind-Ensures (IsPart ids c rank (ls ++ ms)) (k p.rank) _ (λ q e'.
        ok-Ensures (IsPart ids c rank (ls ++ ms)) (followed_by ids c f p q)
          (followed_by-IsPart ids c f rank ls ms p q (h p e) (g p.rank q e'))))

  pub plan_blocks-IsPart :
      (hunk : Hunk) (bs : List (List Line)) (rank : ℕ)
      → all (λ b. fits (estimate_lines (length b)) c) bs ≡ true
      → Ensures (IsPart ids c rank (flat bs)) (plan_blocks ids c f hunk bs rank)
  unfolding plan_blocks
  plan_blocks-IsPart hunk [] rank h = ok-Ensures (IsPart ids c rank []) _ (nothing-IsPart rank)
  plan_blocks-IsPart hunk (b ∷ bs) rank h = elim (Bool-cases (fits (estimate_lines (length b)) c)) [
    | inl e ↦
        two-IsPart rank b (flat bs) _ (plan_blocks ids c f hunk bs)
          (plan_part-IsPart WorkUnitKind.line_block "line_block" b
            (ids.block_scope_id f.file_id hunk b) (estimate_lines (length b)) rank e)
          (λ r. plan_blocks-IsPart hunk bs r (rw e at h))
    | inr e ↦ let broken : false ≡ true = (rw e at h) in cc broken
  ]

  pub skip_hunk-IsPart :
      (hunk : Hunk) (rank : ℕ)
      → line_blocks c hunk ≡ none
      → Ensures (IsPart ids c rank hunk.lines) (skip_hunk ids c f hunk rank)
  unfolding skip_hunk covered_ids planned_ids
  skip_hunk-IsPart hunk rank h =
      bind-Ensures (IsPart ids c rank hunk.lines) (line_range hunk.lines) _ (λ range e.
        ok-Ensures (IsPart ids c rank hunk.lines) _ (record {
          covers = record {
            ranked = tt;
            paired = refl;
            fit = tt;
            skipped = (f.file_id, hunk) ∷ [];
            too_large = (line_blocks-Unsplittable c hunk e h, tt);
            reported = refl;
            conserved = rw (append-nil (map slice hunk.lines)) (all_right (map slice hunk.lines));
          };
          ends = omega arith;
        }))

  pub plan_hunk-IsPart :
      (hunk : Hunk) (rank : ℕ)
      → Ensures (IsPart ids c rank hunk.lines) (plan_hunk ids c f hunk (line_blocks c hunk) rank)
  unfolding plan_hunk
  plan_hunk-IsPart hunk rank = elim (Option-cases (line_blocks c hunk)) [
    | inl e ↦ rw e (skip_hunk-IsPart hunk rank e)
    | inr (bs, e) ↦
        let split = line_blocks-IsSplit c hunk bs e in
        rw e (
          subst (λ ls. Ensures (IsPart ids c rank ls) (plan_blocks ids c f hunk bs rank))
            split.whole (plan_blocks-IsPart hunk bs rank split.fit))
  ]
