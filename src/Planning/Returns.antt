-- ===== src/Planning/Returns.antt =====
-- The planner raises nothing for hunks that have lines within their contract.
use mathlib.Core.Path.{subst}
use cr_agent.Prelude.{
  ℕ, zero, suc, Bool, true, false, ◌≡◌, refl, sym, ap, some, List, [], ◌∷◌, ◌++◌, length, all, All,
  All-append, Bool-cases, Option-cases, inl, inr, if◌then◌else◌, String,
}
use cr_agent.Prelude.Exec.{Result, ok}
use cr_agent.Prelude.Fallible.{Returns, bind-Returns}
use cr_agent.Prelude.Text.{Text}
use cr_agent.Input.Models.{Line, Hunk, ChangedFile, line_valid, no_hunks}
use cr_agent.Planning.Models.{
  PlanError, ModelCapacitySummary, WorkUnitKind, unit_valid, no_review_required,
}
use cr_agent.Planning.Capacity.{
  lines_of, estimate_hunks, estimate_lines, fits, box_hunks, take, drop, blocks_from, blocks,
  blocks_within, first_size, line_blocks,
}
use cr_agent.Planning.Packed.{flat, box_from-flat}
use cr_agent.Planning.Ranges.{has_line, Good, line_range-eq}
use cr_agent.Planning.Planner.{
  range_of, line_range, Ids, Planned, made_unit, build_unit, plan_part, plan_blocks, skip_hunk,
  plan_hunk, plan_group, plan_groups, plan_whole, no_unit, plan_file, plan_files,
}

module _ {A : Type 0} (P : A → Type 0) where
  All-take : (n : ℕ) (xs : List A) → All P xs → All P (take n xs)
  All-take zero xs h = tt
  All-take (suc n) [] h = tt
  All-take (suc n) (x ∷ xs) h = (h.0, All-take n xs h.1)

  All-drop : (n : ℕ) (xs : List A) → All P xs → All P (drop n xs)
  All-drop zero xs h = h
  All-drop (suc n) [] h = tt
  All-drop (suc n) (x ∷ xs) h = All-drop n xs h.1

  All-before : (xs ys : List A) → All P (xs ++ ys) → All P xs × All P ys
  All-before [] ys h = (tt, h)
  All-before (x ∷ xs) ys h = let (a, b) = All-before xs ys h.1 in ((h.0, a), b)

  All-flat : (xss : List (List A)) → All P (flat xss) → All (All P) xss
  All-flat [] h = tt
  All-flat (xs ∷ xss) h = let (a, b) = All-before xs (flat xss) h in (a, All-flat xss b)

abbrev ValidLine : Line → Type 0
ValidLine l = line_valid l ≡ true

abbrev pub GoodHunk : Hunk → Type 0
GoodHunk h = Good h.lines

blocks_from-Good :
    (fuel size : ℕ) (ls : List Line) → All ValidLine ls → All Good (blocks_from fuel (suc size) ls)
unfolding blocks_from
blocks_from-Good fuel size [] h = tt
blocks_from-Good zero size (l ∷ ls) h = tt
blocks_from-Good (suc fuel) size (l ∷ ls) h = (
  (refl, (h.0, All-take ValidLine size ls h.1)),
  blocks_from-Good fuel size (drop size ls) (All-drop ValidLine size ls h.1),
)

blocks_within-Good :
    (c : ModelCapacitySummary) (lines : List Line) (size : ℕ) (bs : List (List Line))
    → All ValidLine lines
    → blocks_within c lines size ≡ some bs
    → All Good bs
unfolding blocks_within
blocks_within-Good c lines zero bs v h = cc
blocks_within-Good c lines (suc size) bs v h =
    elim (Bool-cases (all (λ b. fits (estimate_lines (length b)) c) (blocks (suc size) lines))) [
      | inl e ↦
          let same : blocks (suc size) lines ≡ bs = cc (rw e at h) in
          subst (All Good) same (blocks_from-Good (length lines) size lines v)
      | inr e ↦ blocks_within-Good c lines size bs v (rw e at h)
    ]

line_blocks-Good :
    (c : ModelCapacitySummary) (h : Hunk) (bs : List (List Line))
    → All ValidLine h.lines
    → line_blocks c h ≡ some bs
    → All Good bs
unfolding line_blocks
line_blocks-Good c h bs v e = split h.lines v e
  where
    split :
        (ls : List Line)
        → All ValidLine ls
        → line_blocks c (record h { lines = ls }) ≡ some bs
        → All Good bs
    split [] v e = cc
    split (l ∷ ls) v e = blocks_within-Good c (l ∷ ls) (first_size c (l ∷ ls)) bs v e

lines_of-Good : (h : Hunk) (hs : List Hunk) → All GoodHunk (h ∷ hs) → Good (lines_of (h ∷ hs))
lines_of-Good h hs g = (first h.lines g.0.0, valid (h ∷ hs) g)
  where
    first : (ls : List Line) → has_line ls ≡ true → has_line (ls ++ lines_of hs) ≡ true
    first [] e = cc
    first (l ∷ ls) e = refl

    valid : (gs : List Hunk) → All GoodHunk gs → All ValidLine (lines_of gs)
    valid [] g = tt
    valid (x ∷ gs) g = All-append ValidLine x.lines (lines_of gs) g.0.1 (valid gs g.1)

module _ (ids : Ids) (c : ModelCapacitySummary) (f : ChangedFile) where
  build_unit-Returns :
      (kind : WorkUnitKind) (lines : List Line) (scope_id : Text) (estimate : ℕ × ℕ) (rank : ℕ)
      → Good lines
      → Returns (build_unit ids c f kind lines scope_id estimate rank)
  unfolding build_unit unit_valid
  build_unit-Returns kind [] scope_id estimate rank g = let broken = g.0 in cc broken
  build_unit-Returns kind (l ∷ ls) scope_id estimate rank g = (
    made_unit ids c f kind (l ∷ ls) scope_id (range_of (l ∷ ls)) estimate rank,
    rw (line_range-eq (l ∷ ls) g) refl,
  )

  plan_part-Returns :
      (kind : WorkUnitKind) (scope_kind : String) (lines : List Line) (scope_id : Text)
      (estimate : ℕ × ℕ) (rank : ℕ)
      → Good lines
      → Returns (plan_part ids c f kind scope_kind lines scope_id estimate rank)
  unfolding plan_part
  plan_part-Returns kind scope_kind lines scope_id estimate rank g =
      bind-Returns (line_range lines) _ (range_of lines, line_range-eq lines g)
        (λ range.
          bind-Returns (build_unit ids c f kind lines scope_id estimate rank) _
            (build_unit-Returns kind lines scope_id estimate rank g) (λ u. (_, refl)))

  plan_blocks-Returns :
      (hunk : Hunk) (bs : List (List Line)) (rank : ℕ)
      → All Good bs
      → Returns (plan_blocks ids c f hunk bs rank)
  unfolding plan_blocks
  plan_blocks-Returns hunk [] rank g = (_, refl)
  plan_blocks-Returns hunk (b ∷ bs) rank g =
      bind-Returns
        (plan_part ids c f WorkUnitKind.line_block "line_block" b
          (ids.block_scope_id f.file_id hunk b) (estimate_lines (length b)) rank)
        _
        (plan_part-Returns WorkUnitKind.line_block "line_block" b
          (ids.block_scope_id f.file_id hunk b) (estimate_lines (length b)) rank g.0)
        (λ first.
          bind-Returns (plan_blocks ids c f hunk bs first.rank) _
            (plan_blocks-Returns hunk bs first.rank g.1) (λ rest. (_, refl)))

  plan_hunk-Returns :
      (hunk : Hunk) (rank : ℕ)
      → GoodHunk hunk
      → Returns (plan_hunk ids c f hunk (line_blocks c hunk) rank)
  unfolding plan_hunk skip_hunk
  plan_hunk-Returns hunk rank g = elim (Option-cases (line_blocks c hunk)) [
    | inl e ↦ rw e (
        bind-Returns (line_range hunk.lines) _ (range_of hunk.lines, line_range-eq hunk.lines g)
          (λ range. (_, refl)))
    | inr (bs, e) ↦ rw e (plan_blocks-Returns hunk bs rank (line_blocks-Good c hunk bs g.1 e))
  ]

  if-Returns :
      (b : Bool) (m n : Result PlanError Planned)
      → Returns m
      → Returns n
      → Returns (if b then m else n)
  if-Returns true m n h g = h
  if-Returns false m n h g = g

  plan_group-Returns :
      (g : List Hunk) (rank : ℕ) → All GoodHunk g → Returns (plan_group ids c f g rank)
  unfolding plan_group
  plan_group-Returns [] rank h = (_, refl)
  plan_group-Returns (x ∷ hs) rank h =
      if-Returns _ _ _
        (plan_part-Returns WorkUnitKind.hunk_group "hunk_group" (lines_of (x ∷ hs))
          (ids.group_scope_id f.file_id (x ∷ hs)) (estimate_hunks (x ∷ hs)) rank
          (lines_of-Good x hs h))
        (plan_hunk-Returns x rank h.0)

  plan_groups-Returns :
      (gs : List (List Hunk)) (rank : ℕ)
      → All (All GoodHunk) gs
      → Returns (plan_groups ids c f gs rank)
  unfolding plan_groups
  plan_groups-Returns [] rank h = (_, refl)
  plan_groups-Returns (g ∷ gs) rank h =
      bind-Returns (plan_group ids c f g rank) _ (plan_group-Returns g rank h.0) (λ first.
        bind-Returns (plan_groups ids c f gs first.rank) _ (plan_groups-Returns gs first.rank h.1)
          (λ rest. (_, refl)))

  plan_text-Returns :
      (h : Hunk) (hs : List Hunk) (rank : ℕ)
      → f.hunks ≡ h ∷ hs
      → All GoodHunk (h ∷ hs)
      → Returns (plan_whole ids c f rank)
  unfolding plan_whole
  plan_text-Returns h hs rank e g =
      bind-Returns
        (build_unit ids c f WorkUnitKind.file (lines_of f.hunks) (ids.file_scope_id f.file_id)
          (estimate_hunks f.hunks) rank)
        _
        (build_unit-Returns WorkUnitKind.file (lines_of f.hunks) (ids.file_scope_id f.file_id)
          (estimate_hunks f.hunks) rank
          (subst (λ xs. Good (lines_of xs)) (sym e) (lines_of-Good h hs g)))
        (λ u. (_, refl))

  plan_file-Returns : (rank : ℕ) → All GoodHunk f.hunks → Returns (plan_file ids c f rank)
  unfolding plan_file
  plan_file-Returns rank g = if-Returns f.is_binary _ _ (_, refl) (some_hunks f.hunks refl)
    where
      some_hunks :
          (hs : List Hunk)
          → f.hunks ≡ hs
          → Returns (
              if no_hunks f.hunks
              then ok (no_unit ids c f no_review_required "no_text_review_object" rank)
              else if fits (estimate_hunks f.hunks) c
              then plan_whole ids c f rank
              else plan_groups ids c f (box_hunks c f.hunks) rank)
      some_hunks [] e = rw (ap no_hunks e) (_, refl)
      some_hunks (h ∷ hs) e = rw (ap no_hunks e) (
          if-Returns (fits (estimate_hunks f.hunks) c) _ _
            (plan_text-Returns h hs rank e (subst (All GoodHunk) e g))
            (plan_groups-Returns (box_hunks c f.hunks) rank (
              All-flat GoodHunk (box_hunks c f.hunks)
                (subst (All GoodHunk) (sym (box_from-flat c [] f.hunks)) g))))

-- If every hunk of the files has a line, and every line satisfies its contract, the loop of `plan`
-- over the files raises nothing: it returns scopes and units, whatever the digests and the capacity.
pub plan_files_lem :
    (ids : Ids) (c : ModelCapacitySummary) (files : List ChangedFile) (rank : ℕ)
    → All (λ f. All GoodHunk f.hunks) files
    → (p : Planned) × (plan_files ids c files rank ≡ ok p)
unfolding plan_files
plan_files_lem ids c [] rank g = (_, refl)
plan_files_lem ids c (f ∷ fs) rank g =
    bind-Returns (plan_file ids c f rank) _ (plan_file-Returns ids c f rank g.0) (λ first.
      bind-Returns (plan_files ids c fs first.rank) _ (plan_files_lem ids c fs first.rank g.1)
        (λ rest. (_, refl)))
