-- ===== src/Planning/Capacity.antt =====
-- Estimates and the split of a file by them (domain/planning/planner.py).
use cr_agent.Prelude.{
  ℕ, zero, suc, ◌+◌, ◌-◌, ◌*◌, ◌/◌, max, Bool, not, ◌&&◌, Option, none, some, List, [], ◌∷◌, ◌++◌,
  length, all, sum_of, leb, if◌then◌else◌,
}
use cr_agent.Input.Models.{Line, Hunk, no_hunks}
use cr_agent.Planning.Models.{ModelCapacitySummary}

abbrev pub fixed_overhead_tokens : ℕ
fixed_overhead_tokens = 256

abbrev pub bytes_per_token : ℕ
bytes_per_token = 4

-- `[line for hunk in hunks for line in hunk.lines]`
abbrev pub lines_of : List Hunk → List Line
lines_of [] = []
lines_of (h ∷ hs) = h.lines ++ lines_of hs

unfoldable pub estimate_hunks : List Hunk → ℕ × ℕ
estimate_hunks hunks =
    let byte_count = sum_of (λ (l : Line). l.content_end - l.content_start) (lines_of hunks) in
    (fixed_overhead_tokens + byte_count / bytes_per_token + 1, max 1 (length (lines_of hunks) / 2))

unfoldable pub estimate_lines : ℕ → ℕ × ℕ
estimate_lines line_count =
    (fixed_overhead_tokens + line_count * 20 / bytes_per_token + 1, max 1 (line_count / 2))

abbrev pub fits : ℕ × ℕ → ModelCapacitySummary → Bool
fits (input_tokens, output_tokens) c =
    leb input_tokens c.context_token_limit && leb output_tokens c.max_output_tokens

-- A round of the loop of `_box_hunks`: the group that is closed, if any, and the current one.
abbrev pub box_step : ModelCapacitySummary → List Hunk → Hunk → List (List Hunk) × List Hunk
box_step c current h =
    let candidate = current ++ (h ∷ []) in
    if not (no_hunks current) && not (fits (estimate_hunks candidate) c)
    then (current ∷ [], h ∷ [])
    else ([], candidate)

-- The loop, from the current group on.
unfoldable pub box_from : ModelCapacitySummary → List Hunk → List Hunk → List (List Hunk)
box_from c [] [] = []
box_from c (g ∷ current) [] = (g ∷ current) ∷ []
box_from c current (h ∷ hs) =
    let (closed, next) = box_step c current h in closed ++ box_from c next hs

abbrev pub box_hunks : ModelCapacitySummary → List Hunk → List (List Hunk)
box_hunks c hunks = box_from c [] hunks

abbrev pub take : {A : Type 0} → ℕ → List A → List A
take zero xs = []
take (suc n) [] = []
take (suc n) (x ∷ xs) = x ∷ take n xs

abbrev pub drop : {A : Type 0} → ℕ → List A → List A
drop zero xs = xs
drop (suc n) [] = []
drop (suc n) (x ∷ xs) = drop n xs

-- `lines[start : start + size] for start in range(0, len(lines), size)`; the fuel is the length.
unfoldable pub blocks_from : ℕ → ℕ → List Line → List (List Line)
blocks_from fuel size [] = []
blocks_from zero size (l ∷ ls) = []
blocks_from (suc fuel) size (l ∷ ls) =
    take size (l ∷ ls) ∷ blocks_from fuel size (drop size (l ∷ ls))

abbrev pub blocks : ℕ → List Line → List (List Line)
blocks size lines = blocks_from (length lines) size lines

-- The loop of `_line_blocks`: the sizes from this one down to 1.
unfoldable pub blocks_within : ModelCapacitySummary → List Line → ℕ → Option (List (List Line))
blocks_within c lines zero = none
blocks_within c lines (suc size) =
    let smaller = blocks_within c lines size in
    if all (λ b. fits (estimate_lines (length b)) c) (blocks (suc size) lines)
    then some (blocks (suc size) lines)
    else smaller

-- `n or 1`
abbrev pub or_one : ℕ → ℕ
or_one zero = 1
or_one (suc n) = suc n

abbrev pub min : ℕ → ℕ → ℕ
min a b = if leb a b then a else b

-- A limit below the overhead gives 1, as the negative number of the source does.
abbrev pub first_size : ModelCapacitySummary → List Line → ℕ
first_size c lines = max 1 (
    min (length lines)
      (or_one ((c.context_token_limit - fixed_overhead_tokens) * bytes_per_token / 20)))

unfoldable pub line_blocks : ModelCapacitySummary → Hunk → Option (List (List Line))
line_blocks c hunk = split hunk.lines
  where
    split : List Line → Option (List (List Line))
    split [] = none
    split (l ∷ ls) = blocks_within c (l ∷ ls) (first_size c (l ∷ ls))
