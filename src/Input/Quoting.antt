-- ===== src/Input/Quoting.antt =====
-- The way that git quotes a path, and that the parser reads it back.
use cr_agent.Prelude.{
  ℕ, ◌+◌, ◌/◌, ◌%◌, ◌≤◌, ◌<◌, true, false, ◌≡◌, refl, ◌∙◌, ap, Option, none, some, List, [], ◌∷◌,
  ◌++◌, append_assoc, append-nil, length, length-append, All, ltb, ◌==◌, Bool-cases, Option-cases,
  inl, inr, if◌then◌else◌, arith,
}
use cr_agent.Prelude.Exec.{ok}
use cr_agent.Prelude.Text.{Text}
use cr_agent.Input.Utf8.{encode, decode, between}
use cr_agent.Input.Quoted.{
  Place, plain, escaped, octal, path_step, plain_step, consume, close, next, c_escape, is_octal,
}

-- The letter that git writes for a byte behind a backslash.
abbrev pub letter : ℕ → Option ℕ
letter b =
    if b == 7
    then some b'a'
    else if b == 8
    then some b'b'
    else if b == 9
    then some b't'
    else if b == 10
    then some b'n'
    else if b == 11
    then some b'v'
    else if b == 12
    then some b'f'
    else if b == 13
    then some b'r'
    else if b == b'"'
    then some b'"'
    else if b == b'\\'
    then some b'\\'
    else none

-- A byte as git prints it: with a letter, as itself, or as three octal digits.
unfoldable pub quote_byte : ℕ → Text
quote_byte b = elim (letter b) [
  | some l ↦ b'\\' ∷ l ∷ []
  | none ↦
      if between 32 126 b
      then b ∷ []
      else b'\\' ∷ (b'0' + b / 64) ∷ (b'0' + b / 8 % 8) ∷ (b'0' + b % 8) ∷ []
]

unfoldable pub quote_bytes : List ℕ → Text
quote_bytes [] = []
quote_bytes (b ∷ bs) = quote_byte b ++ quote_bytes bs

-- Reads off one printed byte: the place behind it is plain, or behind three octal digits.
abbrev Behind : Place → List ℕ → List ℕ → Type 0
Behind plain decoded all = decoded ≡ all
Behind escaped decoded all = ⊥
Behind (octal count value) decoded all =
    (count ≡ 3) × (value ≤ 255) × (decoded ++ (value ∷ []) ≡ all)

Behind-step :
    (place : Place) (decoded all : List ℕ) (c : ℕ)
    → Behind place decoded all
    → path_step place decoded c ≡ plain_step all c
unfolding path_step
Behind-step plain decoded all c h = ap (λ d. plain_step d c) h
Behind-step escaped decoded all c h = absurd h
Behind-step (octal count value) decoded all c (three, byte, same) =
    elim (Bool-cases (ltb 255 value)) [
      | inl e ↦ absurd (ground arith)
      | inr e ↦ rw (three, e) (ap (λ d. plain_step d c) same)
    ]

consume_next :
    (place : Place) (decoded : List ℕ) (n c : ℕ) (s : Text) (place' : Place) (decoded' : List ℕ)
    → path_step place decoded c ≡ next place' decoded'
    → consume place decoded n (c ∷ s) ≡ consume place' decoded' (n + 1) s
unfolding consume
consume_next place decoded n c s place' decoded' h = rw (consume, h) refl

-- The printed byte is read off, and the place is again behind all bytes.
record ReadsByte (place : Place) (decoded all : List ℕ) (b n : ℕ) (rest : Text) : Type 0 where
  place' : Place
  decoded' : List ℕ
  behind : Behind place' decoded' (all ++ (b ∷ []))
  reads :
      consume place decoded n (quote_byte b ++ rest)
      ≡ consume place' decoded' (n + length (quote_byte b)) rest

letter_fact : (b l : ℕ) → letter b ≡ some l → (is_octal l ≡ false) × (c_escape l ≡ some b)
letter_fact b l h = ground arith

letter_read :
    (b l : ℕ) (all : List ℕ)
    → letter b ≡ some l
    → path_step escaped all l ≡ next plain (all ++ (b ∷ []))
unfolding path_step
letter_read b l all h = let (o, e) = letter_fact b l h in rw (o, e) refl

plain_read :
    (b : ℕ) (all : List ℕ)
    → letter b ≡ none
    → between 32 126 b ≡ true
    → plain_step all b ≡ next plain (all ++ (b ∷ []))
unfolding encode
plain_read b all h g = ground arith

octal_digits :
    (b : ℕ) (all : List ℕ)
    → b < 256
    → (path_step escaped all (b'0' + b / 64) ≡ next (octal 1 (b / 64)) all)
      × (path_step (octal 1 (b / 64)) all (b'0' + b / 8 % 8) ≡ next (octal 2 (b / 8)) all)
      × (path_step (octal 2 (b / 8)) all (b'0' + b % 8) ≡ next (octal 3 b) all)
unfolding path_step
octal_digits b all h = (ground arith, ground arith, ground arith)

escape_step : (all : List ℕ) → plain_step all b'\\' ≡ next escaped all
escape_step all = refl

-- Steps in a row, each behind the one before.
quote_byte-ReadsByte :
    (place : Place) (decoded all : List ℕ) (b n : ℕ) (rest : Text)
    → Behind place decoded all
    → b < 256
    → ReadsByte place decoded all b n rest
unfolding quote_byte
quote_byte-ReadsByte place decoded all b n rest h small = elim (Option-cases (letter b)) [
  | inr (l, e) ↦ record {
    place' = plain;
    decoded' = all ++ (b ∷ []);
    behind = refl;
    reads =
        rw (quote_byte, e)
          (consume_next place decoded n b'\\' (l ∷ rest) escaped all
              (Behind-step place decoded all b'\\' h ∙ escape_step all)
            ∙ consume_next escaped all (n + 1) l rest plain (all ++ (b ∷ []))
                (letter_read b l all e)
            ∙ ap (λ m. consume plain (all ++ (b ∷ [])) m rest) (omega arith));
  }
  | inl e ↦ elim (Bool-cases (between 32 126 b)) [
    | inl g ↦ record {
      place' = plain;
      decoded' = all ++ (b ∷ []);
      behind = refl;
      reads =
          rw (quote_byte, e, g)
            (consume_next place decoded n b rest plain (all ++ (b ∷ []))
              (Behind-step place decoded all b h ∙ plain_read b all e g));
    }
    | inr g ↦
        let (one, two, three) = octal_digits b all small in
        let o₁ = b'0' + b / 64 in
        let o₂ = b'0' + b / 8 % 8 in
        let o₃ = b'0' + b % 8 in
        record {
          place' = octal 3 b;
          decoded' = all;
          behind = (refl, omega arith, refl);
          reads =
              rw (quote_byte, e, g)
                (consume_next place decoded n b'\\' (o₁ ∷ o₂ ∷ o₃ ∷ rest) escaped all
                    (Behind-step place decoded all b'\\' h ∙ escape_step all)
                  ∙ consume_next escaped all (n + 1) o₁ (o₂ ∷ o₃ ∷ rest) (octal 1 (b / 64)) all one
                  ∙ consume_next (octal 1 (b / 64)) all (n + 1 + 1) o₂ (o₃ ∷ rest) (octal 2 (b / 8))
                      all two
                  ∙ consume_next (octal 2 (b / 8)) all (n + 1 + 1 + 1) o₃ rest (octal 3 b) all three
                  ∙ ap (λ m. consume (octal 3 b) all m rest) (omega arith));
        }
  ]
]

consume-close :
    (place : Place) (decoded all : List ℕ) (n : ℕ) (rest t : Text)
    → Behind place decoded all
    → decode all ≡ some t
    → consume place decoded n (b'"' ∷ rest) ≡ ok (t, n + 1)
unfolding consume
consume-close place decoded all n rest t h e =
    let closed : path_step place decoded b'"' ≡ close all = Behind-step place decoded all b'"' h in
    rw (consume, closed, e) refl

-- All printed bytes are read off, up to the closing quote.
pub consume-quote_bytes :
    (bs : List ℕ) (place : Place) (decoded all : List ℕ) (n : ℕ) (rest t : Text)
    → Behind place decoded all
    → All (λ b. b < 256) bs
    → decode (all ++ bs) ≡ some t
    → consume place decoded n (quote_bytes bs ++ (b'"' ∷ rest))
      ≡ ok (t, n + length (quote_bytes bs) + 1)
unfolding quote_bytes
consume-quote_bytes [] place decoded all n rest t h small e =
    consume-close place decoded all n rest t h (rw append-nil at e)
    ∙ ap (λ m. ok (t, m)) (omega arith)
consume-quote_bytes (b ∷ bs) place decoded all n rest t h (byte, small) e =
    let r = quote_byte-ReadsByte place decoded all b n (quote_bytes bs ++ (b'"' ∷ rest)) h byte in
    ap (consume place decoded n) (append_assoc (quote_byte b) (quote_bytes bs) (b'"' ∷ rest))
    ∙ r.reads
    ∙ consume-quote_bytes bs r.place' r.decoded' (all ++ (b ∷ [])) (n + length (quote_byte b)) rest
        t r.behind small (ap decode (append_assoc all (b ∷ []) bs) ∙ e)
    ∙ ap (λ m. ok (t, m)) (omega (arith, length-append (quote_byte b) (quote_bytes bs)))

-- The bytes of a text.
unfoldable pub encode_all : Text → Option (List ℕ)
encode_all [] = some []
encode_all (c ∷ s) = elim (encode c) [
  | none ↦ none
  | some bs ↦ elim (encode_all s) [ none ↦ none | some rest ↦ some (bs ++ rest) ]
]
