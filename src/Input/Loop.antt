-- ===== src/Input/Loop.antt =====
-- The loop of `_parse_hunk`: what its rounds keep, and what it leaves.
use mathlib.Core.Path.{subst}
use cr_agent.Prelude.{
  ℕ, ◌≤◌, true, false, ◌≡◌, refl, sym, ◌∙◌, ap, Option, List, [], ◌∷◌, length, All, all, Bool-cases,
  Option-cases, inl, inr, ◌⊎◌, arith,
}
use cr_agent.Prelude.Exec.{Result, ok}
use cr_agent.Prelude.Fallible.{bind-eq-ok}
use cr_agent.Prelude.Text.{Text, text_eq}
use cr_agent.Input.Models.{DiffError, Ranges, no_start, line_valid, hunk_valid, count_lines}
use cr_agent.Input.Lines.{PhysicalLine}
use cr_agent.Input.Ranges.{hunk_header}
use cr_agent.Input.Hunks.{
  HunkState, initial, changes, hunk_step, more, hunk_loop, parse_hunk, parsed_hunk, ParsedHunk,
  skip_marker, no_newline_marker,
}
use cr_agent.Input.Valid.{Fits, Took, initial-Fits, hunk_step-Fits}

abbrev Looped : Type 0
Looped = Result DiffError (HunkState × List PhysicalLine)

module _ (Q : PhysicalLine → Type 0) (Inv : HunkState → Type 0) (max_changed remaining : ℕ)
    (r : Ranges) where
  stopped :
      (st : HunkState) (ls : List PhysicalLine) (st' : HunkState) (rest : List PhysicalLine)
      → Inv st
      → All Q ls
      → more r st ≡ false
      → ◌≡◌ {A = Looped} (ok (st, ls)) (ok (st', rest))
      → Inv st' × (more r st' ≡ false) × All Q rest × (length rest ≤ length ls)
  stopped st ls st' rest i q e same =
      let es : st ≡ st' = cc same in
      let el : ls ≡ rest = cc same in
      (
        subst Inv es i,
        subst (λ s. more r s ≡ false) es e,
        subst (All Q) el q,
        omega (arith, ap (length {A = PhysicalLine}) el),
      )

  -- What every round keeps holds at the end; the rest are the last of the lines.
  pub hunk_loop_lem :
      ((l : PhysicalLine) (st st' : HunkState)
        → Q l
        → Inv st
        → hunk_step max_changed remaining r l st ≡ ok st'
        → Inv st')
      → (st : HunkState) (ls : List PhysicalLine) (st' : HunkState) (rest : List PhysicalLine)
      → Inv st
      → All Q ls
      → hunk_loop max_changed remaining r st ls ≡ ok (st', rest)
      → Inv st' × (more r st' ≡ false) × All Q rest × (length rest ≤ length ls)
  unfolding hunk_loop
  hunk_loop_lem keep st [] st' rest i q h = elim (Bool-cases (more r st)) [
    | inl e ↦ let broken = (rw e at h) in cc broken
    | inr e ↦
        let same : ◌≡◌ {A = Looped} (ok (st, [])) (ok (st', rest)) = (rw e at h) in
        stopped st [] st' rest i q e same
  ]
  hunk_loop_lem keep st (l ∷ ls) st' rest i q h = elim (Bool-cases (more r st)) [
    | inl e ↦
        let (st₁, first, later) =
          bind-eq-ok (hunk_step max_changed remaining r l st)
            (λ s. hunk_loop max_changed remaining r s ls) (rw e at h) in
        let (i', m, q', n) =
          hunk_loop_lem keep st₁ ls st' rest (keep l st st₁ q.0 i first) q.1 later in
        (i', m, q', omega (arith, n))
    | inr e ↦
        let same : ◌≡◌ {A = Looped} (ok (st, l ∷ ls)) (ok (st', rest)) = (rw e at h) in
        stopped st (l ∷ ls) st' rest i q e same
  ]

skip_marker-All :
    (Q : PhysicalLine → Type 0) (ls : List PhysicalLine) → All Q ls → All Q (skip_marker ls)
skip_marker-All Q [] q = q
skip_marker-All Q (l ∷ ls) q = elim (Bool-cases (text_eq l.body no_newline_marker)) [
  | inl e ↦ rw e q.1
  | inr e ↦ rw e q
]

skip_marker-le : (ls : List PhysicalLine) → length (skip_marker ls) ≤ length ls
skip_marker-le [] = omega arith
skip_marker-le (l ∷ ls) = elim (Bool-cases (text_eq l.body no_newline_marker)) [
  | inl e ↦ rw e (omega arith)
  | inr e ↦ rw e (omega arith)
]

-- A hunk that `_parse_hunk` returned.
pub record IsRead (Q : PhysicalLine → Type 0) (Inv : HunkState → Type 0) (remaining : ℕ)
    (lines : List PhysicalLine) (p : ParsedHunk) : Type 0 where
  pub started : no_start p.hunk.ranges ≡ false
  pub last : HunkState
  pub drafts_are : p.hunk.lines ≡ last.drafts
  pub changed_are : p.changed_lines ≡ last.changed_lines
  pub ended : more p.hunk.ranges last ≡ false
  pub fits : Fits remaining p.hunk.ranges last
  pub kept : Inv last
  pub rest_kept : All Q p.rest
  pub rest_shorter : length p.rest ≤ length lines

module _ (digit : ℕ → Option ℕ) (Q : PhysicalLine → Type 0) (Inv : HunkState → Type 0) where
  -- An invariant of the rounds that holds at the start of every hunk.
  pub parse_hunk-IsRead :
      (max_changed remaining : ℕ) (header : Text) (lines : List PhysicalLine) (p : ParsedHunk)
      → ((r : Ranges) → Inv (initial r))
      → ((l : PhysicalLine) (st st' : HunkState)
          → Q l
          → Inv st
          → (st' ≡ st) ⊎ Took l st st'
          → Inv st')
      → All Q lines
      → parse_hunk digit max_changed remaining header lines ≡ ok p
      → IsRead Q Inv remaining lines p
  unfolding parse_hunk
  parse_hunk-IsRead max_changed remaining header lines p start keep q h =
      elim (Option-cases (hunk_header digit header)) [
        | inl e ↦ let broken = (rw e at h) in cc broken
        | inr (r, e) ↦ elim (Bool-cases (no_start r)) [
          | inl g ↦ let broken = (rw (e, g) at h) in cc broken
          | inr g ↦
              let (out, looped, made) =
                bind-eq-ok (hunk_loop max_changed remaining r (initial r) lines)
                  (λ out. ok (parsed_hunk r out)) (rw (e, g) at h) in
              let same : parsed_hunk r out ≡ p = cc made in
              let ((kept, fits), ended, rest_kept, shorter) =
                hunk_loop_lem Q (λ st. Inv st × Fits remaining r st) max_changed remaining r
                  (λ l st st' ql i s.
                    let (f', how) = hunk_step-Fits max_changed remaining r l st i.1 s in
                    (keep l st st' ql i.0 how, f'))
                  (initial r) lines out.0 out.1 (start r, initial-Fits max_changed remaining r) q
                  looped in
              subst (IsRead Q Inv remaining lines) same (record {
                started = g;
                last = out.0;
                drafts_are = refl;
                changed_are = refl;
                ended = ended;
                fits = fits;
                kept = kept;
                rest_kept = skip_marker-All Q out.1 rest_kept;
                rest_shorter = omega (arith, shorter, skip_marker-le out.1);
              })
        ]
      ]

-- It satisfies the contract of a hunk.
pub IsRead-valid :
    (Q : PhysicalLine → Type 0) (Inv : HunkState → Type 0) (remaining : ℕ)
    (lines : List PhysicalLine) (p : ParsedHunk)
    → IsRead Q Inv remaining lines p
    → (hunk_valid p.hunk ≡ true)
      × (all line_valid p.hunk.lines ≡ true)
      × (count_lines changes p.hunk.lines ≡ p.changed_lines)
      × (p.changed_lines ≤ remaining)
unfolding hunk_valid
IsRead-valid Q Inv remaining lines p i = (
  ground arith,
  rw i.drafts_are i.fits.valid,
  rw i.drafts_are (i.fits.changed_counted ∙ sym i.changed_are),
  omega arith,
)
