-- ===== src/Planning/Covered.antt =====
-- What the planner makes of a file: every line in one unit or in a hunk that it reports.
use mathlib.Core.Path.{subst}
use cr_agent.Prelude.{
  ℕ, ◌+◌, Bool, true, false, ◌&&◌, ◌≡◌, refl, sym, ◌∙◌, ap, List, [], ◌∷◌, ◌++◌, map, append_assoc,
  length, length-append, All, All-append, Bool-cases, inl, inr, if◌then◌else◌, arith, is_some,
}
use cr_agent.Prelude.Text.{Text}
use cr_agent.Input.Models.{Line, Hunk, ChangedFile}
use cr_agent.Planning.Models.{
  PlannedDisposition, ModelCapacitySummary, CoverageScope, WorkUnit, slice, planned_ids, is_planned,
}
use cr_agent.Planning.Capacity.{fits}
use cr_agent.Planning.Unsplit.{Unsplittable}
use cr_agent.Planning.Planner.{Ids, Planned, followed_by, covered_ids}

-- `zs` is `xs` and `ys`, shuffled together in their orders.
pub data Shuffle {A : Type 0} : List A → List A → List A → Type 0 where
  done : Shuffle [] [] []
  left : {x : A} {xs ys zs : List A} → Shuffle xs ys zs → Shuffle (x ∷ xs) ys (x ∷ zs)
  right : {y : A} {xs ys zs : List A} → Shuffle xs ys zs → Shuffle xs (y ∷ ys) (y ∷ zs)

module _ {A : Type 0} where
  pub Shuffle-append :
      {xs ys zs xs' ys' zs' : List A}
      → Shuffle xs ys zs
      → Shuffle xs' ys' zs'
      → Shuffle (xs ++ xs') (ys ++ ys') (zs ++ zs')
  Shuffle-append done t = t
  Shuffle-append (left s) t = left (Shuffle-append s t)
  Shuffle-append (right s) t = right (Shuffle-append s t)

  pub all_left : (xs : List A) → Shuffle xs [] xs
  all_left [] = done
  all_left (x ∷ xs) = left (all_left xs)

  pub all_right : (xs : List A) → Shuffle [] xs xs
  all_right [] = done
  all_right (x ∷ xs) = right (all_right xs)

-- The slices of all units.
abbrev pub all_refs : List WorkUnit → List (ℕ × ℕ)
all_refs [] = []
all_refs (u ∷ us) = u.content_refs ++ all_refs us

-- Hunks with the ids of their files.
abbrev pub hunk_refs : List (Text × Hunk) → List (ℕ × ℕ)
hunk_refs [] = []
hunk_refs (h ∷ hs) = map slice h.1.lines ++ hunk_refs hs

abbrev pub is_unreviewable : PlannedDisposition → Bool
is_unreviewable PlannedDisposition.unreviewable = true
is_unreviewable _ = false

-- The ids of the scopes that report a range as unreviewable.
abbrev pub is_report : CoverageScope → Bool
is_report s = is_unreviewable s.disposition && is_some s.range

abbrev pub reported_ids : List CoverageScope → List Text
reported_ids [] = []
reported_ids (s ∷ ss) =
    let rest = reported_ids ss in if is_report s then s.scope_id ∷ rest else rest

-- The execution ranks count from this one on.
abbrev pub Ranked : ℕ → List WorkUnit → Type 0
Ranked r [] = Unit
Ranked r (u ∷ us) = (u.execution_rank ≡ r) × Ranked (r + 1) us

abbrev pub UnitFits : ModelCapacitySummary → WorkUnit → Type 0
UnitFits c u =
    fits (u.capacity_estimate.estimated_input_tokens, u.capacity_estimate.estimated_output_tokens) c
    ≡ true

-- Scopes and units, from a rank on, for lines: the ranks count up, the units cover the planned
-- scopes in their order and their estimates are within the capacity, and every line is a slice of one
-- unit or of a hunk that cannot be divided into blocks within it and is reported as unreviewable.
pub record Covers (ids : Ids) (c : ModelCapacitySummary) (rank : ℕ) (lines : List Line)
    (scopes : List CoverageScope) (units : List WorkUnit) : Type 0 where
  pub ranked : Ranked rank units
  pub paired : covered_ids units ≡ planned_ids scopes
  pub fit : All (UnitFits c) units
  pub skipped : List (Text × Hunk)
  pub too_large : All (λ h. Unsplittable c h.1.lines) skipped
  pub reported : reported_ids scopes ≡ map (λ h. ids.hunk_scope_id h.0 h.1) skipped
  pub conserved : Shuffle (all_refs units) (hunk_refs skipped) (map slice lines)

pub record IsPart (ids : Ids) (c : ModelCapacitySummary) (rank : ℕ) (lines : List Line)
    (p : Planned) : Type 0 where
  pub covers : Covers ids c rank lines p.scopes p.units
  pub ends : p.rank ≡ rank + length p.units

map-append : {A B : Type 0} (f : A → B) (xs ys : List A) → map f (xs ++ ys) ≡ map f xs ++ map f ys
map-append f [] ys = refl
map-append f (x ∷ xs) ys = ap (λ r. f x ∷ r) (map-append f xs ys)

all_refs-append : (us vs : List WorkUnit) → all_refs (us ++ vs) ≡ all_refs us ++ all_refs vs
all_refs-append [] vs = refl
all_refs-append (u ∷ us) vs =
    ap (λ r. u.content_refs ++ r) (all_refs-append us vs)
    ∙ sym (append_assoc u.content_refs (all_refs us) (all_refs vs))

covered_ids-append :
    (us vs : List WorkUnit) → covered_ids (us ++ vs) ≡ covered_ids us ++ covered_ids vs
unfolding covered_ids
covered_ids-append [] vs = refl
covered_ids-append (u ∷ us) vs =
    ap (λ r. u.scope_ids ++ r) (covered_ids-append us vs)
    ∙ sym (append_assoc u.scope_ids (covered_ids us) (covered_ids vs))

hunk_refs-append :
    (hs gs : List (Text × Hunk)) → hunk_refs (hs ++ gs) ≡ hunk_refs hs ++ hunk_refs gs
hunk_refs-append [] gs = refl
hunk_refs-append (h ∷ hs) gs =
    ap (λ r. map slice h.1.lines ++ r) (hunk_refs-append hs gs)
    ∙ sym (append_assoc (map slice h.1.lines) (hunk_refs hs) (hunk_refs gs))

planned_ids-append :
    (ss ts : List CoverageScope) → planned_ids (ss ++ ts) ≡ planned_ids ss ++ planned_ids ts
unfolding planned_ids
planned_ids-append [] ts = refl
planned_ids-append (s ∷ ss) ts = elim (Bool-cases (is_planned s.disposition)) [
  | inl e ↦ rw e (ap (λ r. s.scope_id ∷ r) (planned_ids-append ss ts))
  | inr e ↦ rw e (planned_ids-append ss ts)
]

reported_ids-append :
    (ss ts : List CoverageScope) → reported_ids (ss ++ ts) ≡ reported_ids ss ++ reported_ids ts
reported_ids-append [] ts = refl
reported_ids-append (s ∷ ss) ts = elim (Bool-cases (is_report s)) [
  | inl e ↦ rw e (ap (λ r. s.scope_id ∷ r) (reported_ids-append ss ts))
  | inr e ↦ rw e (reported_ids-append ss ts)
]

Ranked-append :
    (r : ℕ) (us vs : List WorkUnit) → Ranked r us → Ranked (r + length us) vs → Ranked r (us ++ vs)
Ranked-append r [] vs h g = subst (λ n. Ranked n vs) (omega arith) g
Ranked-append r (u ∷ us) vs h g =
    (h.0, Ranked-append (r + 1) us vs h.1 (subst (λ n. Ranked n vs) (omega arith) g))

module _ (ids : Ids) (c : ModelCapacitySummary) where
  Covers-append :
      (rank : ℕ) (ls ms : List Line) (ss ts : List CoverageScope) (us vs : List WorkUnit)
      → Covers ids c rank ls ss us
      → Covers ids c (rank + length us) ms ts vs
      → Covers ids c rank (ls ++ ms) (ss ++ ts) (us ++ vs)
  Covers-append rank ls ms ss ts us vs p q = record {
    ranked = Ranked-append rank us vs p.ranked q.ranked;
    paired = cc (p.paired, q.paired, covered_ids-append us vs, planned_ids-append ss ts);
    fit = All-append (UnitFits c) us vs p.fit q.fit;
    skipped = p.skipped ++ q.skipped;
    too_large =
        All-append (λ h. Unsplittable c h.1.lines) p.skipped q.skipped p.too_large q.too_large;
    reported = cc (
      p.reported,
      q.reported,
      reported_ids-append ss ts,
      map-append (λ h. ids.hunk_scope_id h.0 h.1) p.skipped q.skipped,
    );
    conserved =
        rw (all_refs-append us vs, hunk_refs-append p.skipped q.skipped, map-append slice ls ms)
          (Shuffle-append p.conserved q.conserved);
  }

  pub followed_by-IsPart :
      (f : ChangedFile) (rank : ℕ) (ls ms : List Line) (p q : Planned)
      → IsPart ids c rank ls p
      → IsPart ids c p.rank ms q
      → IsPart ids c rank (ls ++ ms) (followed_by ids c f p q)
  followed_by-IsPart f rank ls ms p q h g = record {
    covers =
        Covers-append rank ls ms p.scopes q.scopes p.units q.units h.covers
          (subst (λ n. Covers ids c n ms q.scopes q.units) h.ends g.covers);
    ends = omega (arith, h.ends, g.ends, length-append p.units q.units);
  }

  pub nothing-Covers : (rank : ℕ) → Covers ids c rank [] [] []
  unfolding covered_ids planned_ids
  nothing-Covers rank = record {
    ranked = tt;
    paired = refl;
    fit = tt;
    skipped = [];
    too_large = tt;
    reported = refl;
    conserved = done;
  }
