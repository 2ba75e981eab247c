-- ===== src/Input/Offsets.antt =====
-- The physical lines and the text that they come from.
use mathlib.Core.Path.{subst}
use cr_agent.Prelude.{
  ℕ, suc, zero, ◌+◌, ◌≤◌, false, ◌≡◌, ◌≢◌, refl, sym, ◌∙◌, ap, Option, none, some, List, [], ◌∷◌,
  ◌++◌, append_assoc, append-nil, length, length-append, All, leb, ◌==◌, Bool-cases, arith, inl,
  inr, ◌⊎◌,
}
use cr_agent.Prelude.Exec.{ok, err}
use cr_agent.Prelude.Fallible.{bind-eq-ok}
use cr_agent.Prelude.Text.{Text, cut, has_char, eqb→eq}
use cr_agent.Input.Models.{too_large}
use cr_agent.Input.Lines.{PhysicalLine, after_cut, cut_size, lines_from, physical_lines}

-- The body of the line stands in the content at its offset.
pub record Lies (content : Text) (l : PhysicalLine) : Type 0 where
  pub before : Text
  pub after : Text
  pub content_is : content ≡ before ++ (l.body ++ after)
  pub start_is : length before ≡ l.start

-- What the line and its newline, if there was one, were cut from.
abbrev pub rejoin : Text → Option Text → Text
rejoin body none = body
rejoin body (some rest) = body ++ (b'\n' ∷ rest)

cut-rejoin : (s : Text) → s ≡ rejoin (cut b'\n' s).0 (cut b'\n' s).1
unfolding cut
cut-rejoin [] = refl
cut-rejoin (c ∷ s) = elim (Bool-cases (c == b'\n')) [
  | inl e ↦ rw (e, eqb→eq c b'\n' e) refl
  | inr e ↦ rw e (add_char c (cut b'\n' s).0 (cut b'\n' s).1 (cut-rejoin s))
]
  where
    add_char :
        (c : ℕ) (body : Text) (after : Option Text) {s : Text}
        → s ≡ rejoin body after
        → c ∷ s ≡ rejoin (c ∷ body) after
    add_char c body none h = rw h refl
    add_char c body (some rest) h = rw h refl

cut_clean : (s : Text) → has_char b'\n' (cut b'\n' s).0 ≡ false
unfolding cut
cut_clean [] = refl
cut_clean (c ∷ s) = elim (Bool-cases (c == b'\n')) [
  | inl e ↦ rw e refl
  | inr e ↦ rw (e, e) (cut_clean s)
]

-- The lines, each with a newline behind it.
abbrev pub joined : List PhysicalLine → Text
joined [] = []
joined (l ∷ ls) = l.body ++ (b'\n' ∷ joined ls)

-- The lines of a text: the text again, up to a newline at its end.
abbrev pub Joins : Text → List PhysicalLine → Type 0
Joins s ls = (joined ls ≡ s) ⊎ (joined ls ≡ s ++ (b'\n' ∷ []))

-- What the loop returns, from `before` read and `s` left.
pub record Read (max_lines count : ℕ) (before s : Text) (ls : List PhysicalLine) : Type 0 where
  pub lie : All (Lies (before ++ s)) ls
  pub clean : All (λ l. has_char b'\n' l.body ≡ false) ls
  pub join : Joins s ls
  pub within : count ≤ max_lines → count + length ls ≤ max_lines
  pub empty : s ≡ [] → ls ≡ []

-- The line and its newline.
abbrev taken : Text → Option Text → Text
taken body none = body
taken body (some rest) = body ++ (b'\n' ∷ [])

taken-append :
    (before body : Text) (after : Option Text)
    → (before ++ taken body after) ++ after_cut after ≡ before ++ rejoin body after
taken-append before body none = append-nil (before ++ body)
taken-append before body (some rest) = simp append_assoc

length-taken :
    (before body : Text) (after : Option Text)
    → length (before ++ taken body after) ≡ length before + length body + cut_size after
length-taken before body none = omega (arith, length-append before body)
length-taken before body (some rest) =
    omega (arith, length-append before (body ++ (b'\n' ∷ [])), length-append body (b'\n' ∷ []))

join-cons :
    (start : ℕ) (body : Text) (after : Option Text) (ls : List PhysicalLine)
    → Joins (after_cut after) ls
    → (after_cut after ≡ [] → ls ≡ [])
    → Joins (rejoin body after) (record { body = body; start = start } ∷ ls)
join-cons start body none ls j e = inr (rw (e refl) refl)
join-cons start body (some rest) ls (inl j) e = inl (ap (λ r. body ++ (b'\n' ∷ r)) j)
join-cons start body (some rest) ls (inr j) e =
    inr (ap (λ r. body ++ (b'\n' ∷ r)) j ∙ simp append_assoc)

first-Lies :
    (before body : Text) (after : Option Text)
    → Lies (before ++ rejoin body after) (record { body = body; start = length before })
first-Lies before body none = record {
  before = before;
  after = [];
  content_is = ap (λ r. before ++ r) (sym (append-nil body));
  start_is = refl;
}
first-Lies before body (some rest) = record {
  before = before;
  after = b'\n' ∷ rest;
  content_is = refl;
  start_is = refl;
}

-- One round: a line, and the loop on what follows it.
round-Read :
    (max_lines count : ℕ) (before body : Text) (after : Option Text) (ls : List PhysicalLine)
    → leb max_lines count ≡ false
    → has_char b'\n' body ≡ false
    → rejoin body after ≢ []
    → Read max_lines (count + 1) (before ++ taken body after) (after_cut after) ls
    → Read max_lines count before
        (rejoin body after)
        (record { body = body; start = length before } ∷ ls)
round-Read max_lines count before body after ls more clean ne r = record {
  lie = (
    first-Lies before body after,
    subst (λ t. All (Lies t) ls) (taken-append before body after) r.lie,
  );
  clean = (clean, r.clean);
  join = join-cons (length before) body after ls r.join r.empty;
  within = λ h. let w = r.within (ground arith) in omega (arith, w);
  empty = λ e. absurd (ne e);
}

lines_from-Read :
    (fuel max_lines count : ℕ) (before s : Text) (ls : List PhysicalLine)
    → lines_from fuel max_lines count (length before) s ≡ ok ls
    → Read max_lines count before s ls
unfolding lines_from
lines_from-Read fuel max_lines count before [] ls h =
    let none_left : [] ≡ ls = cc h in
    subst (Read max_lines count before []) none_left (record {
      lie = tt;
      clean = tt;
      join = inl refl;
      within = λ w. omega (arith, w);
      empty = λ e. refl;
    })
lines_from-Read zero max_lines count before (c ∷ cs) ls h = cc
lines_from-Read (suc fuel) max_lines count before (c ∷ cs) ls h =
    elim (Bool-cases (leb max_lines count)) [
      | inl e ↦ let broken = (rw e at h) in cc broken
      | inr e ↦
          let body = (cut b'\n' (c ∷ cs)).0 in
          let after = (cut b'\n' (c ∷ cs)).1 in
          let whole : c ∷ cs ≡ rejoin body after = cut-rejoin (c ∷ cs) in
          let (rest, later, made) =
            bind-eq-ok
              (lines_from fuel max_lines (count + 1) (length before + length body + cut_size after)
                (after_cut after))
              (λ ls. ok (record { body = body; start = length before } ∷ ls)) (rw e at h) in
          let same : record { body = body; start = length before } ∷ rest ≡ ls = cc made in
          let ih =
            lines_from-Read fuel max_lines (count + 1) (before ++ taken body after)
              (after_cut after) rest (rw (← length-taken before body after) at later) in
          subst (Read max_lines count before (c ∷ cs)) same (
            subst
              (λ t.
                Read max_lines count before t
                  (record { body = body; start = length before } ∷ rest))
              (sym whole)
              (round-Read max_lines count before body after rest e (cut_clean (c ∷ cs))
                (λ x. cc (whole ∙ x)) ih))
    ]

length-rejoin :
    (body : Text) (after : Option Text)
    → length (rejoin body after) ≡ length body + cut_size after + length (after_cut after)
length-rejoin body none = omega arith
length-rejoin body (some rest) = omega (arith, length-append body (b'\n' ∷ rest))

shorter :
    (body : Text) (after : Option Text) (fuel : ℕ)
    → length body + cut_size after + length (after_cut after) ≤ suc fuel
    → length (after_cut after) ≤ fuel
shorter body none fuel h = omega arith
shorter body (some rest) fuel h = omega (arith, h)

-- The fuel is enough: the only error is that there are too many lines.
lines_from_total :
    (fuel max_lines count offset : ℕ) (s : Text)
    → length s ≤ fuel
    → ((ls : List PhysicalLine) × (lines_from fuel max_lines count offset s ≡ ok ls))
      ⊎ (lines_from fuel max_lines count offset s ≡ err (too_large "physical_lines" max_lines))
unfolding lines_from
lines_from_total fuel max_lines count offset [] h = inl ([], refl)
lines_from_total zero max_lines count offset (c ∷ cs) h = absurd (omega arith)
lines_from_total (suc fuel) max_lines count offset (c ∷ cs) h =
    elim (Bool-cases (leb max_lines count)) [
      | inl e ↦ inr (rw e refl)
      | inr e ↦
          let body = (cut b'\n' (c ∷ cs)).0 in
          let after = (cut b'\n' (c ∷ cs)).1 in
          elim (lines_from_total fuel max_lines (count + 1) (offset + length body + cut_size after)
            (after_cut after)
            (shorter body after fuel (
              omega
                (arith, ap (length {A = ℕ}) (cut-rejoin (c ∷ cs)), length-rejoin body after)))) [
                  | inl (ls, g) ↦ inl (record { body = body; start = offset } ∷ ls, rw (e, g) refl)
                  | inr g ↦ inr (rw (e, g) refl)
                ]
    ]

-- `physical_lines` returns lines, or says that there are more than `max_lines`. The lines are at most
-- that many, hold no newline, stand in the content at their offsets, and joined by newlines they are
-- the content, but for a newline at its end.
pub physical_lines_lem :
    (content : Text) (max_lines : ℕ)
    → ((ls : List PhysicalLine) × (physical_lines content max_lines ≡ ok ls)
        × (length ls ≤ max_lines)
        × All (λ l. has_char b'\n' l.body ≡ false) ls
        × All (Lies content) ls
        × Joins content ls)
      ⊎ (physical_lines content max_lines ≡ err (too_large "physical_lines" max_lines))
unfolding physical_lines
physical_lines_lem content max_lines =
    elim (lines_from_total (length content) max_lines 0 0 content (omega arith)) [
      | inl (ls, e) ↦
          let r = lines_from-Read (length content) max_lines 0 [] content ls e in
          let w = r.within (omega arith) in inl (ls, e, omega (arith, w), r.clean, r.lie, r.join)
      | inr e ↦ inr e
    ]
