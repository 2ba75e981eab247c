-- ===== src/Planning/Ranges.antt =====
-- Ranges of lines that satisfy their contract.
use cr_agent.Prelude.{
  ℕ, ◌≤◌, Bool, true, false, ◌&&◌, ◌||◌, ◌≡◌, refl, Option, none, some, List, [], ◌∷◌, All, leb,
  is_some, if◌then◌else◌, arith, inl, inr, ◌⊎◌, ltb,
}
use cr_agent.Prelude.Exec.{ok}
use cr_agent.Input.Models.{Line, LineType, line_valid, sides_valid, same_flag}
use cr_agent.Planning.Models.{in_order, range_valid}
use cr_agent.Planning.Planner.{numbers, smallest, largest, range_of, line_range}

-- Lines of a file: at least one, each within its contract.
abbrev pub has_line : List Line → Bool
has_line [] = false
has_line _ = true

abbrev pub Good : List Line → Type 0
Good ls = (has_line ls ≡ true) × All (λ l. line_valid l ≡ true) ls

-- The bounds of some numbers.
record IsBounds (ns : List ℕ) : Type 0 where
  low : ℕ
  high : ℕ
  low_is : smallest ns ≡ some low
  high_is : largest ns ≡ some high
  ordered : low ≤ high

step :
    (n low high : ℕ)
    → low ≤ high
    → (if leb n low then n else low) ≤ (if leb n high then high else n)
step n low high h = ground arith

leb-true : (m n : ℕ) → m ≤ n → leb m n ≡ true
leb-true m n h = ground arith

IsBounds-of_some : (n : ℕ) (ns : List ℕ) → IsBounds (n ∷ ns)
IsBounds-of_some n [] = record {
  low = n;
  high = n;
  low_is = refl;
  high_is = refl;
  ordered = omega arith;
}
IsBounds-of_some n (m ∷ ns) =
    let b = IsBounds-of_some m ns in
    record {
      low = if leb n b.low then n else b.low;
      high = if leb n b.high then b.high else n;
      low_is = rw b.low_is refl;
      high_is = rw b.high_is refl;
      ordered = step n b.low b.high b.ordered;
    }

side-valid :
    (ns : List ℕ)
    → (same_flag (is_some (smallest ns)) (is_some (largest ns)) ≡ true)
      × (in_order (smallest ns) (largest ns) ≡ true)
side-valid [] = (refl, refl)
side-valid (n ∷ ns) =
    let b = IsBounds-of_some n ns in
    (rw (b.low_is, b.high_is) refl, rw (b.low_is, b.high_is) (leb-true b.low b.high b.ordered))

some_start : (n : ℕ) (ns : List ℕ) → is_some (smallest (n ∷ ns)) ≡ true
some_start n ns = let b = IsBounds-of_some n ns in rw b.low_is refl

or_right : (b : Bool) → (b || true) ≡ true
or_right true = refl
or_right false = refl

-- A line within its contract has a number.
numbered :
    (t : LineType) (old new : Option ℕ)
    → sides_valid t old new ≡ true
    → ((n : ℕ) × (old ≡ some n)) ⊎ ((n : ℕ) × (new ≡ some n))
numbered t (some n) new h = inl (n, refl)
numbered t none (some n) h = inr (n, refl)
numbered LineType.context none none h = cc
numbered LineType.addition none none h = cc
numbered LineType.deletion none none h = cc

line-sides :
    (l : Line)
    → line_valid l ≡ true
    → sides_valid l.line_type l.old_line_number l.new_line_number ≡ true
unfolding line_valid
line-sides l h = last_true (leb l.content_start l.content_end) (ltb 0 l.sequence) _ h
  where
    last_true : (a b c : Bool) → (a && b && c) ≡ true → c ≡ true
    last_true true true c h = h
    last_true true false c h = cc
    last_true false b c h = cc

has_side :
    (l : Line) (ls : List Line)
    → line_valid l ≡ true
    → (is_some (smallest (numbers (λ x. x.old_line_number) (l ∷ ls)))
        || is_some (smallest (numbers (λ x. x.new_line_number) (l ∷ ls))))
      ≡ true
has_side l ls h = elim (numbered l.line_type l.old_line_number l.new_line_number (line-sides l h)) [
  | inl (n, e) ↦ rw (e, some_start n (numbers (λ x. x.old_line_number) ls)) refl
  | inr (n, e) ↦ rw (e, some_start n (numbers (λ x. x.new_line_number) ls)) (or_right _)
]

pub line_range-eq : (ls : List Line) → Good ls → line_range ls ≡ ok (range_of ls)
unfolding line_range range_valid
line_range-eq [] h = let broken = h.0 in cc broken
line_range-eq (l ∷ ls) h =
    let (a, b) = side-valid (numbers (λ x. x.old_line_number) (l ∷ ls)) in
    let (c, d) = side-valid (numbers (λ x. x.new_line_number) (l ∷ ls)) in
    simp (a, b, c, d, has_side l ls h.1.0)
