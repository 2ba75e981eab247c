-- ===== src/Input/Ends.antt =====
-- Functions of the parser that never run out of fuel (domain/input/service.py).
pub mod Lines
pub mod Files
pub mod Whole
use cr_agent.Prelude.{
  ℕ, zero, suc, ◌+◌, ◌-◌, Bool, true, false, not, ◌&&◌, ◌||◌, ◌≡◌, ◌≢◌, refl, Option, none, some,
  ap, List, [], ◌∷◌, ◌++◌, length, ltb, leb, ◌==◌, any, keep, Bool-cases, Option-cases, inl, inr,
  if◌then◌else◌, arith, is_some,
}
use cr_agent.Prelude.Exec.{Result, ok, err, Result-cases}
use cr_agent.Prelude.Fallible.{◌>>=◌, ◌>>◌, refuse, present}
use cr_agent.Prelude.Text.{
  Text, codes, text_eq, strip_prefix, starts_with, split, drop, take, remove_suffix, remove_prefix,
}
use cr_agent.Input.Models.{DiffError, malformed, value_error, exhausted, incomplete, too_large}
use cr_agent.Input.Utf8.{decode}
use cr_agent.Input.Quoted.{
  Place, plain, Step, fail, unencodable, close, next, path_step, consume, consume_c_style_path,
  starts_quoted, decode_git_path_field,
}
use cr_agent.Input.Paths.{
  is_empty, is_control, relative_path, normalize_path, is_drive, bad_part, posix_text, both_paths,
  quoted_token, marker_token, parse_marker_path, at_separator, find_separator, rfind_separator,
  symmetric_header, unquoted_header, quoted_header, hinted_header, parse_diff_header,
  binary_matches, quoted_pair, or_quoted, parse_binary_paths, a_prefix, b_prefix,
}

-- Whether the source raises it.
abbrev pub is_raised : DiffError → Bool
is_raised exhausted = false
is_raised _ = true

-- The computation does not stop for want of fuel.
abbrev pub Ends : {A : Type 0} → Result DiffError A → Type 0
Ends r = (e : DiffError) → r ≡ err e → is_raised e ≡ true

module _ {A : Type 0} where
  pub ok-Ends : (a : A) → Ends (ok a)
  ok-Ends a e h = cc

  pub err-Ends : (e : DiffError) → is_raised e ≡ true → Ends {A = A} (err e)
  err-Ends e r e' h = let same : e ≡ e' = cc h in rw⁻¹ same r

  pub malformed-Ends : Ends {A = A} (err malformed)
  malformed-Ends = err-Ends malformed refl

  pub if-Ends : (c : Bool) (r s : Result DiffError A) → Ends r → Ends s → Ends (if c then r else s)
  if-Ends true r s h g = h
  if-Ends false r s h g = g

  pub present-Ends : (o : Option A) → Ends (present o malformed)
  present-Ends none = malformed-Ends
  present-Ends (some a) = ok-Ends a

module _ {A B : Type 0} where
  pub bind-Ends :
      (m : Result DiffError A) (f : A → Result DiffError B)
      → Ends m
      → ((a : A) → m ≡ ok a → Ends (f a))
      → Ends (m >>= f)
  bind-Ends (ok a) f h k e' g = k a refl e' g
  bind-Ends (err e) f h k e' g = h e' (let same : e ≡ e' = cc g in ap err same)

module _ {B : Type 0} where
  -- A check that raises something of the source.
  pub refuse-Ends :
      (c : Bool) (e : DiffError) (k : Result DiffError B)
      → is_raised e ≡ true
      → Ends k
      → Ends (refuse c e >> k)
  refuse-Ends true e k r h = err-Ends e r
  refuse-Ends false e k r h = h

  -- A check that raises `_MalformedDiff`.
  pub check-Ends : (c : Bool) (k : Result DiffError B) → Ends k → Ends (refuse c malformed >> k)
  check-Ends c k h = refuse-Ends c malformed k refl h

pub last_check-Ends : (c : Bool) → Ends (refuse c malformed)
last_check-Ends true = malformed-Ends
last_check-Ends false = ok-Ends tt

consume-Ends :
    (place : Place) (decoded : List ℕ) (index : ℕ) (s : Text) → Ends (consume place decoded index s)
unfolding consume
consume-Ends place decoded index [] = malformed-Ends
consume-Ends place decoded index (c ∷ s) =
    after (λ place' decoded'. consume-Ends place' decoded' (index + 1) s)
      (path_step place decoded c)
  where
    after :
        ((place' : Place) (decoded' : List ℕ) → Ends (consume place' decoded' (index + 1) s))
        → (step : Step)
        → Ends {A = Text × ℕ} (elim step [
          | fail ↦ err malformed
          | unencodable ↦ err value_error
          | close bytes ↦ elim (decode bytes) [ none ↦ err malformed | some t ↦ ok (t, index + 1) ]
          | next place' decoded' ↦ consume place' decoded' (index + 1) s
        ])
    after later fail = malformed-Ends
    after later unencodable = err-Ends value_error refl
    after later (close bytes) =
        elim (decode bytes)
          as (λ o.
            Ends {A = Text × ℕ} (elim o [ none ↦ err malformed | some t ↦ ok (t, index + 1) ])) [
              | none ↦ malformed-Ends
              | some t ↦ ok-Ends (t, index + 1)
            ]
    after later (next place' decoded') = later place' decoded'

consume_c_style_path-Ends : (s : Text) → Ends (consume_c_style_path s)
unfolding consume_c_style_path
consume_c_style_path-Ends [] = malformed-Ends
consume_c_style_path-Ends (c ∷ s) =
    if-Ends (c == b'"') _ _ (consume-Ends plain [] 1 s) malformed-Ends

pub decode_git_path_field-Ends : (s : Text) → Ends (decode_git_path_field s)
unfolding decode_git_path_field
decode_git_path_field-Ends s = check-Ends _ _ (
    if-Ends _ _ _ (ok-Ends s) (
      bind-Ends (consume_c_style_path s) _ (consume_c_style_path-Ends s)
        (λ out e. check-Ends _ _ (ok-Ends _))))

relative_path-Ends : (s : Text) → Ends (relative_path s)
unfolding relative_path
relative_path-Ends s = check-Ends _ _ (check-Ends _ _ (ok-Ends s))

pub normalize_path-Ends : (s : Text) (prefix : Option Text) → Ends (normalize_path s prefix)
unfolding normalize_path
normalize_path-Ends s none = check-Ends _ _ (relative_path-Ends s)
normalize_path-Ends s (some p) = check-Ends _ _ (
    bind-Ends (present (strip_prefix p s) malformed) _ (present-Ends (strip_prefix p s))
      (λ bare e. relative_path-Ends bare))

both_paths-Ends : (old new : Text) → Ends (both_paths old new)
both_paths-Ends old new =
    bind-Ends (normalize_path old a_prefix) _ (normalize_path-Ends old a_prefix) (λ old_path e.
      bind-Ends (normalize_path new b_prefix) _ (normalize_path-Ends new b_prefix)
        (λ new_path g. ok-Ends (old_path, new_path)))

quoted_token-Ends : (s : Text) → Ends (quoted_token s)
unfolding quoted_token
quoted_token-Ends s =
    bind-Ends (consume_c_style_path s) _ (consume_c_style_path-Ends s)
      (λ out e. check-Ends _ _ (ok-Ends _))

marker_token-Ends : (s : Text) → Ends (marker_token s)
unfolding marker_token
marker_token-Ends s = if-Ends (starts_quoted s) _ _ (quoted_token-Ends s) (ok-Ends _)

pub parse_marker_path-Ends : (s : Text) (prefix : Option Text) → Ends (parse_marker_path s prefix)
unfolding parse_marker_path
parse_marker_path-Ends s prefix = bind-Ends (marker_token s) _ (marker_token-Ends s) (λ token e.
    if-Ends (text_eq token (codes "/dev/null")) _ _ (ok-Ends none) (
      bind-Ends (normalize_path token prefix) _ (normalize_path-Ends token prefix)
        (λ path g. ok-Ends (some path))))

at_separator-Ends : (s : Text) (first last : Option ℕ) → Ends (at_separator s first last)
at_separator-Ends s none last = malformed-Ends
at_separator-Ends s (some first) none = malformed-Ends
at_separator-Ends s (some first) (some last) =
    if-Ends (first == last) _ _ (both_paths-Ends (take s first) (drop s (first + 1))) malformed-Ends

symmetric_header-Ends :
    (s : Text) (separator : ℕ) (ambiguous : Result DiffError (Text × Text))
    → Ends ambiguous
    → Ends (symmetric_header s separator ambiguous)
unfolding symmetric_header
symmetric_header-Ends s separator ambiguous h =
    bind-Ends (both_paths (take s separator) (drop s (separator + 1))) _
      (both_paths-Ends (take s separator) (drop s (separator + 1)))
      (λ paths e. if-Ends _ _ _ (ok-Ends _) h)

unquoted_header-Ends : (s : Text) → Ends (unquoted_header s)
unfolding unquoted_header
unquoted_header-Ends s =
    let h = at_separator-Ends s (find_separator s) (rfind_separator s) in
    if-Ends _ _ _ (symmetric_header-Ends s _ _ h) h

quoted_header-Ends : (s : Text) → Ends (quoted_header s)
unfolding quoted_header
quoted_header-Ends s = bind-Ends (consume_c_style_path s) _ (consume_c_style_path-Ends s) (λ out e.
    check-Ends _ _ (
      bind-Ends (decode_git_path_field (drop s (out.1 + 1))) _
        (decode_git_path_field-Ends (drop s (out.1 + 1))) (λ new g. both_paths-Ends out.0 new)))

hinted_header-Ends : (s : Text) (hints : Option (Text × Text)) → Ends (hinted_header s hints)
hinted_header-Ends s none = unquoted_header-Ends s
hinted_header-Ends s (some hint) = if-Ends _ _ _ (ok-Ends _) malformed-Ends

pub parse_diff_header-Ends :
    (header : Text) (hints : Option (Text × Text)) → Ends (parse_diff_header header hints)
unfolding parse_diff_header
parse_diff_header-Ends header hints =
    bind-Ends (present (strip_prefix (codes "diff --git ") header) malformed) _
      (present-Ends (strip_prefix (codes "diff --git ") header))
      (λ payload e.
        if-Ends (starts_quoted payload) _ _ (quoted_header-Ends payload)
          (hinted_header-Ends payload hints))

quoted_pair-Ends : (pair old new : Text) → Ends (quoted_pair pair old new)
unfolding quoted_pair
quoted_pair-Ends pair old new = check-Ends _ _ (
    bind-Ends (consume_c_style_path pair) _ (consume_c_style_path-Ends pair) (λ out e.
      check-Ends _ _ (
        bind-Ends (decode_git_path_field (drop pair (out.1 + 5))) _
          (decode_git_path_field-Ends (drop pair (out.1 + 5)))
          (λ value g.
            bind-Ends (both_paths out.0 value) _ (both_paths-Ends out.0 value)
              (λ paths k. check-Ends _ _ (ok-Ends _))))))

pub parse_binary_paths-Ends : (value old new : Text) → Ends (parse_binary_paths value old new)
unfolding parse_binary_paths
parse_binary_paths-Ends value old new =
    let pair = remove_suffix (codes " differ") (remove_prefix (codes "Binary files ") value) in
    matched pair (binary_matches pair old new)
  where
    matched :
        (pair : Text) (ms : List (Option Text × Option Text)) → Ends (or_quoted ms pair old new)
    matched pair [] = quoted_pair-Ends pair old new
    matched pair (m ∷ []) = ok-Ends m
    matched pair (m ∷ n ∷ ms) = quoted_pair-Ends pair old new
