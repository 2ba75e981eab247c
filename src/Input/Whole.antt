-- ===== src/Input/Whole.antt =====
-- What `parse` returns.
use mathlib.Core.Path.{subst}
use cr_agent.Prelude.{
  ℕ, ◌+◌, ◌-◌, ◌≤◌, true, false, ◌≡◌, refl, Option, List, [], ◌∷◌, ◌++◌, length, length-append,
  sum_of, sum_of-append, All, All-append, ltb, Bool-cases, inl, inr, arith,
}
use cr_agent.Prelude.Exec.{ok}
use cr_agent.Prelude.Fallible.{refuse, refuse-eq-ok, bind-eq-ok, Ensures, ok-Ensures, err-Ensures}
use cr_agent.Prelude.Text.{Text, text_eq, text_eq-false}
use cr_agent.Input.Models.{malformed, too_large, InputLimits, ChangeType, ChangedFile}
use cr_agent.Input.Lines.{PhysicalLine, physical_lines}
use cr_agent.Input.Offsets.{Lies, physical_lines_lem}
use cr_agent.Input.Checks.{Paths}
use cr_agent.Input.Files.{parse_file}
use cr_agent.Input.Sound.{IsSound, parse_file-IsSound}
use cr_agent.Input.Diff.{
  Section, is_header, sections_from, sections, seen, parse_sections, parse_lines, parse,
}

-- Every line of the section lies in the content.
abbrev pub SectionLies : Text → Section → Type 0
SectionLies content s = All (Lies content) s.lines

abbrev pub changed_lines : List ChangedFile → ℕ
changed_lines files = sum_of (λ f. f.additions + f.deletions) files

-- No file id occurs twice.
abbrev pub Distinct : List ChangedFile → Type 0
Distinct [] = Unit
Distinct (f ∷ files) = (seen f.file_id files ≡ false) × Distinct files

-- What the limits and the contracts promise of the files of a diff.
pub record IsDiff (content : Text) (limits : InputLimits) (files : List ChangedFile) : Type 0 where
  pub few : length files ≤ limits.max_files
  pub small : changed_lines files ≤ limits.max_changed_lines
  pub distinct : Distinct files
  pub sound : All (IsSound content) files

module _ (content : Text) where
  sections_from-Lies :
      (ls : List PhysicalLine)
      → All (Lies content) ls
      → All (Lies content) (sections_from ls).0 × All (SectionLies content) (sections_from ls).1
  unfolding sections_from
  sections_from-Lies [] h = (tt, tt)
  sections_from-Lies (l ∷ ls) h = elim (Bool-cases (is_header l)) [
    | inl e ↦ rw e (tt, sections_from-Lies ls h.1)
    | inr e ↦ let (own, later) = sections_from-Lies ls h.1 in rw e ((h.0, own), later)
  ]

  pub sections-Lies :
      (ls : List PhysicalLine)
      → All (Lies content) ls
      → Ensures (All (SectionLies content)) (sections ls)
  unfolding sections
  sections-Lies [] h = err-Ensures (All (SectionLies content)) malformed
  sections-Lies (l ∷ ls) h = elim (Bool-cases (is_header l)) [
    | inl e ↦ rw e (ok-Ensures (All (SectionLies content)) _ (sections_from-Lies ls h.1))
    | inr e ↦ rw e (err-Ensures (All (SectionLies content)) malformed)
  ]

seen-append :
    (x : Text) (files : List ChangedFile) (f : ChangedFile)
    → seen x files ≡ false
    → text_eq f.file_id x ≡ false
    → seen x (files ++ (f ∷ [])) ≡ false
seen-append x [] f h g = rw g refl
seen-append x (y ∷ files) f h g = ground (arith, seen-append x files f)

Distinct-append :
    (files : List ChangedFile) (f : ChangedFile)
    → Distinct files
    → seen f.file_id files ≡ false
    → Distinct (files ++ (f ∷ []))
Distinct-append [] f h g = (refl, tt)
Distinct-append (x ∷ files) f h g = elim (Bool-cases (text_eq x.file_id f.file_id)) [
  | inl e ↦ let broken : true ≡ false = (rw e at g) in cc broken
  | inr e ↦ (
    seen-append x.file_id files f h.0 (text_eq-false x.file_id f.file_id e),
    Distinct-append files f h.1 (rw e at g),
  )
]

-- What holds of the files so far.
record SoFar (content : Text) (limits : InputLimits) (changed : ℕ) (files : List ChangedFile)
    : Type 0 where
  counted : changed_lines files ≡ changed
  small : changed ≤ limits.max_changed_lines
  distinct : Distinct files
  sound : All (IsSound content) files

module _ (content : Text) (digit : ℕ → Option ℕ) (file_id : ChangeType → Paths → Text)
    (limits : InputLimits) where
  abbrev Fine : ℕ → List ChangedFile → Type 0
  Fine n files = (length files ≡ n) × SoFar content limits (changed_lines files) files

  add-SoFar :
      (f : ChangedFile) (changed : ℕ) (files : List ChangedFile)
      → SoFar content limits changed files
      → IsSound content f
      → ltb limits.max_changed_lines (changed + (f.additions + f.deletions)) ≡ false
      → seen f.file_id files ≡ false
      → SoFar content limits (changed + (f.additions + f.deletions)) (files ++ (f ∷ []))
  add-SoFar f changed files s good small new = record {
    counted = omega (
      arith,
      s.counted,
      sum_of-append (λ (x : ChangedFile). x.additions + x.deletions) files (f ∷ []),
    );
    small = ground arith;
    distinct = Distinct-append files f s.distinct new;
    sound = All-append (IsSound content) files (f ∷ []) s.sound (good, tt);
  }

  parse_sections-SoFar :
      (ss : List Section) (changed : ℕ) (files : List ChangedFile)
      → All (SectionLies content) ss
      → SoFar content limits changed files
      → Ensures
          (Fine (length files + length ss))
          (parse_sections digit file_id limits ss changed files)
  unfolding parse_sections
  parse_sections-SoFar [] changed files lie s out h =
      ok-Ensures (Fine (length files + 0)) files (omega arith, rw s.counted s) out h
  parse_sections-SoFar (x ∷ ss) changed files lie s out h =
      let (f, parsed, h₁) =
        bind-eq-ok
          (parse_file digit file_id limits.max_changed_lines (limits.max_changed_lines - changed)
            x.header.body x.lines)
          _ h in
      let total = changed + (f.additions + f.deletions) in
      let (u, small, h₂) =
        bind-eq-ok
          (refuse (ltb limits.max_changed_lines total)
            (too_large "changed_lines" limits.max_changed_lines))
          _ h₁ in
      let (v, new, h₃) = bind-eq-ok (refuse (seen f.file_id files) malformed) _ h₂ in
      let good =
        parse_file-IsSound content digit file_id limits.max_changed_lines
          (limits.max_changed_lines - changed) x.header.body x.lines lie.0 f parsed in
      let next =
        add-SoFar f changed files s good
          (refuse-eq-ok (ltb limits.max_changed_lines total)
            (too_large "changed_lines" limits.max_changed_lines) small)
          (refuse-eq-ok (seen f.file_id files) malformed new) in
      let (count, rest) = parse_sections-SoFar ss total (files ++ (f ∷ [])) lie.1 next out h₃ in
      (omega (arith, count, length-append files (f ∷ [])), rest)

  start : SoFar content limits 0 []
  start = record { counted = refl; small = omega arith; distinct = tt; sound = tt }

  parse_lines-IsDiff :
      (ls : List PhysicalLine)
      → All (Lies content) ls
      → Ensures (IsDiff content limits) (parse_lines digit file_id limits ls)
  unfolding parse_lines
  parse_lines-IsDiff ls lie files h =
      let (ss, cut, h₁) = bind-eq-ok (sections ls) _ h in
      let (u, few, h₂) =
        bind-eq-ok (refuse (ltb limits.max_files (length ss)) (too_large "files" limits.max_files))
          _ h₁ in
      let small =
        refuse-eq-ok (ltb limits.max_files (length ss)) (too_large "files" limits.max_files) few in
      let (count, s) =
        parse_sections-SoFar ss 0 [] (sections-Lies content ls lie ss cut) start files h₂ in
      record { few = ground arith; small = s.small; distinct = s.distinct; sound = s.sound }

-- The lines of a content lie in it.
pub physical_lines-Lies :
    (content : Text) (max_lines : ℕ) (ls : List PhysicalLine)
    → physical_lines content max_lines ≡ ok ls
    → All (Lies content) ls
physical_lines-Lies content max_lines ls read = elim (physical_lines_lem content max_lines) [
  | inl (ls', e, bounded, clean, lie, joins) ↦
      let same : ls' ≡ ls = cc (e, read) in subst (All (Lies content)) same lie
  | inr e ↦ cc (e, read)
]

-- What `parse` returns for a content and limits: there are at most `max_files` files and at most
-- `max_changed_lines` added and deleted lines in all of them, no file id occurs twice, and every
-- file satisfies the contract of a changed file. Each of its hunks and lines satisfies its contract,
-- and each line refers to a slice of the content right behind the character that gives its type.
pub parse-IsDiff :
    (digit : ℕ → Option ℕ) (file_id : ChangeType → Paths → Text) (limits : InputLimits)
    (content : Text) (files : List ChangedFile)
    → parse digit file_id limits content ≡ ok files
    → IsDiff content limits files
unfolding parse
parse-IsDiff digit file_id limits [] files h =
    let same : [] ≡ files = cc h in
    subst (IsDiff [] limits) same
      (record { few = omega arith; small = omega arith; distinct = tt; sound = tt })
parse-IsDiff digit file_id limits (c ∷ s) files h =
    let (ls, read, h₁) =
      bind-eq-ok (physical_lines (c ∷ s) limits.max_physical_lines)
        (parse_lines digit file_id limits) h in
    parse_lines-IsDiff (c ∷ s) digit file_id limits ls
      (physical_lines-Lies (c ∷ s) limits.max_physical_lines ls read) files h₁
