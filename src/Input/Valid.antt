-- ===== src/Input/Valid.antt =====
-- What `_parse_hunk` returns, against the contract of a hunk.
use mathlib.Core.Path.{subst}
use cr_agent.Prelude.{
  ℕ, ◌+◌, ◌≤◌, Bool, true, false, ◌&&◌, ◌||◌, ◌≡◌, refl, sym, some, List, [], ◌∷◌, ◌++◌, length,
  length-append, sum_of-append, all, leb, Bool-cases, Option-cases, inl, inr, ◌⊎◌, if◌then◌else◌,
  arith,
}
use cr_agent.Prelude.Exec.{ok}
use cr_agent.Prelude.Text.{Text, text_eq}
use cr_agent.Input.Models.{
  LineType, Line, Ranges, on_old, on_new, count_lines, line_valid, locations_valid,
}
use cr_agent.Input.Lines.{PhysicalLine}
use cr_agent.Input.Hunks.{
  HunkState, initial, changes, draft, counted, take_line, take_body, line_type_of, hunk_step,
  no_newline_marker, no_lines,
}

abbrev pub one : (LineType → Bool) → LineType → ℕ
one p t = if p t then 1 else 0

pub count_lines-append :
    (p : LineType → Bool) (ls : List Line) (l : Line)
    → count_lines p (ls ++ (l ∷ [])) ≡ count_lines p ls + one p l.line_type
count_lines-append p ls l =
    omega (arith, sum_of-append (λ (x : Line). one p x.line_type) ls (l ∷ []))

locations-append :
    (s o n : ℕ) (ls : List Line) (l : Line)
    → locations_valid s o n ls ≡ true
    → locations_valid
        (s + length ls)
        (o + count_lines on_old ls)
        (n + count_lines on_new ls)
        (l ∷ [])
      ≡ true
    → locations_valid s o n (ls ++ (l ∷ [])) ≡ true
unfolding locations_valid
locations-append s o n [] l h g =
    let es : s + length {A = Line} [] ≡ s = omega arith in
    let eo : o + 0 ≡ o = omega arith in let en : n + 0 ≡ n = omega arith in rw (es, eo, en) at g
locations-append s o n (x ∷ ls) l h g =
    ground (
      arith,
      locations-append (s + 1) (o + one on_old x.line_type) (n + one on_new x.line_type) ls l,
    )

pub all-append :
    (p : Line → Bool) (ls : List Line) (l : Line)
    → all p ls ≡ true
    → p l ≡ true
    → all p (ls ++ (l ∷ [])) ≡ true
all-append p [] l h g = rw g refl
all-append p (x ∷ ls) l h g = elim (Bool-cases (p x)) [
  | inl e ↦ rw e (all-append p ls l (rw e at h) g)
  | inr e ↦ let broken : false ≡ true = (rw e at h) in cc broken
]

-- The lines read so far fit the header.
pub record Fits (remaining : ℕ) (r : Ranges) (st : HunkState) : Type 0 where
  pub old_counted : count_lines on_old st.drafts ≡ st.old_seen
  pub new_counted : count_lines on_new st.drafts ≡ st.new_seen
  pub old_within : st.old_seen ≤ r.old_count
  pub new_within : st.new_seen ≤ r.new_count
  pub old_at : st.old_line ≡ r.old_start + st.old_seen
  pub new_at : st.new_line ≡ r.new_start + st.new_seen
  pub numbered : st.sequence ≡ length st.drafts
  pub located : locations_valid 1 r.old_start r.new_start st.drafts ≡ true
  pub valid : all line_valid st.drafts ≡ true
  pub changed_counted : count_lines changes st.drafts ≡ st.changed_lines
  pub changed_within : st.changed_lines ≤ remaining

-- A line was taken: its prefix gives the type, and the draft is added.
pub record Took (l : PhysicalLine) (st st' : HunkState) : Type 0 where
  pub prefix : ℕ
  pub content : Text
  pub line_type : LineType
  pub body_is : l.body ≡ prefix ∷ content
  pub type_is : line_type_of prefix ≡ some line_type
  pub result_is : st' ≡ counted line_type l.start (length content) st

module _ (max_changed remaining : ℕ) (r : Ranges) where
  pub initial-Fits : Fits remaining r (initial r)
  unfolding locations_valid
  initial-Fits = record {
    old_counted = refl;
    new_counted = refl;
    old_within = omega arith;
    new_within = omega arith;
    old_at = omega arith;
    new_at = omega arith;
    numbered = refl;
    located = refl;
    valid = refl;
    changed_counted = refl;
    changed_within = omega arith;
  }

  draft-valid :
      (t : LineType) (start size : ℕ) (st : HunkState) → line_valid (draft t start size st) ≡ true
  unfolding line_valid
  draft-valid t start size st = ground arith

  draft-located :
      (t : LineType) (start size : ℕ) (st : HunkState)
      → Fits remaining r st
      → locations_valid
          (1 + length st.drafts)
          (r.old_start + count_lines on_old st.drafts)
          (r.new_start + count_lines on_new st.drafts)
          (draft t start size st ∷ [])
        ≡ true
  unfolding locations_valid
  draft-located t start size st f = ground arith

  counted-Fits :
      (t : LineType) (start size : ℕ) (st : HunkState)
      → Fits remaining r st
      → (changes t && leb remaining st.changed_lines) ≡ false
      → (on_old t && leb r.old_count st.old_seen || on_new t && leb r.new_count st.new_seen) ≡ false
      → Fits remaining r (counted t start size st)
  counted-Fits t start size st f limit within =
      let d = draft t start size st in
      record {
        old_counted = ground (arith, count_lines-append on_old st.drafts d);
        new_counted = ground (arith, count_lines-append on_new st.drafts d);
        old_within = ground arith;
        new_within = ground arith;
        old_at = ground arith;
        new_at = ground arith;
        numbered = omega (arith, f.numbered, length-append st.drafts (d ∷ []));
        located =
            locations-append 1 r.old_start r.new_start st.drafts d f.located
              (draft-located t start size st f);
        valid = all-append line_valid st.drafts d f.valid (draft-valid t start size st);
        changed_counted = ground (arith, count_lines-append changes st.drafts d);
        changed_within = ground arith;
      }

  take_line-Fits :
      (t : LineType) (start size : ℕ) (st : HunkState) {st' : HunkState}
      → Fits remaining r st
      → take_line max_changed remaining r t start size st ≡ ok st'
      → (st' ≡ counted t start size st) × Fits remaining r st'
  unfolding take_line
  take_line-Fits t start size st {st' = st'} f h =
      elim (Bool-cases (changes t && leb remaining st.changed_lines)) [
        | inl e ↦ let broken = (rw e at h) in cc broken
        | inr e ↦
            elim (Bool-cases (
              on_old t && leb r.old_count st.old_seen || on_new t && leb r.new_count st.new_seen)) [
                | inl g ↦ let broken = (rw (e, g) at h) in cc broken
                | inr g ↦
                    let same : counted t start size st ≡ st' = (cc (rw (e, g) at h)) in
                    (sym same, subst (Fits remaining r) same (counted-Fits t start size st f e g))
              ]
      ]

  take_body-Fits :
      (body : Text) (start : ℕ) (st : HunkState) {st' : HunkState}
      → Fits remaining r st
      → take_body max_changed remaining r body start st ≡ ok st'
      → Fits remaining r st' × ((st' ≡ st) ⊎ Took (record { body = body; start = start }) st st')
  take_body-Fits [] start st f h = cc
  take_body-Fits (c ∷ content) start st f h = elim (Option-cases (line_type_of c)) [
    | inl e ↦ let broken = (rw e at h) in cc broken
    | inr (t, e) ↦
        let (same, fits) = take_line-Fits t start (length content) st f (rw e at h) in
        (
          fits,
          inr (record {
            prefix = c;
            content = content;
            line_type = t;
            body_is = refl;
            type_is = e;
            result_is = same;
          }),
        )
  ]

  -- A round either skips a marker or takes the line by its prefix.
  pub hunk_step-Fits :
      (l : PhysicalLine) (st : HunkState) {st' : HunkState}
      → Fits remaining r st
      → hunk_step max_changed remaining r l st ≡ ok st'
      → Fits remaining r st' × ((st' ≡ st) ⊎ Took l st st')
  unfolding hunk_step
  hunk_step-Fits l st {st' = st'} f h = elim (Bool-cases (text_eq l.body no_newline_marker)) [
    | inl e ↦ elim (Bool-cases (no_lines st.drafts)) [
      | inl g ↦ let broken = (rw (e, g) at h) in cc broken
      | inr g ↦
          let same : st ≡ st' = (cc (rw (e, g) at h)) in
          (subst (Fits remaining r) same f, inl (sym same))
    ]
    | inr e ↦ take_body-Fits l.body l.start st f (rw e at h)
  ]
