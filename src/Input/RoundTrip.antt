-- ===== src/Input/RoundTrip.antt =====
-- A quoted path and the text that it stands for.
use cr_agent.Prelude.{
  ℕ, ◌+◌, ◌<◌, false, ◌≡◌, refl, ◌∙◌, ap, Option, none, some, List, [], ◌∷◌, ◌++◌, append_assoc,
  length, length-append, All, All-append, ltb, ◌==◌, Bool-cases, Option-cases, inl, inr, arith,
}
use cr_agent.Prelude.Exec.{ok}
use cr_agent.Prelude.Text.{Text, eqb_refl}
use cr_agent.Input.Utf8.{encode, decode, decode_from, emit, between, decode-encode}
use cr_agent.Input.Quoted.{plain, consume, consume_c_style_path, decode_git_path_field}
use cr_agent.Input.Quoting.{quote_bytes, encode_all, consume-quote_bytes}

-- A code point of Python.
abbrev pub IsPoint : ℕ → Type 0
IsPoint c = c < 1114112

abbrev AreBytes : Option (List ℕ) → Type 0
AreBytes none = Unit
AreBytes (some bs) = All (λ b. b < 256) bs

encode-AreBytes : (c : ℕ) → IsPoint c → AreBytes (encode c)
unfolding encode
encode-AreBytes c h = elim (Bool-cases (ltb c 128)) [
  | inl a ↦ rw a (ground arith, tt)
  | inr a ↦ elim (Bool-cases (ltb c 2048)) [
    | inl b ↦ rw (a, b) (ground arith, (ground arith, tt))
    | inr b ↦ elim (Bool-cases (between 55296 57343 c)) [
      | inl s ↦ rw (a, b, s) tt
      | inr s ↦ elim (Bool-cases (ltb c 65536)) [
        | inl d ↦ rw (a, b, s, d) (ground arith, (ground arith, (ground arith, tt)))
        | inr d ↦ rw (a, b, s, d) (ground arith, (ground arith, (ground arith, (ground arith, tt))))
      ]
    ]
  ]
]

decode-encode_all :
    (t : Text) {bs : List ℕ}
    → All IsPoint t
    → encode_all t ≡ some bs
    → (decode bs ≡ some t) × All (λ b. b < 256) bs
unfolding encode_all decode_from
decode-encode_all [] {bs} h e = let same : [] ≡ bs = cc e in rw (← same) (refl, tt)
decode-encode_all (c ∷ t) {bs} h e = elim (Option-cases (encode c)) [
  | inl g ↦ let broken = (rw (encode_all, g) at e) in cc broken
  | inr (b, g) ↦ elim (Option-cases (encode_all t)) [
    | inl k ↦ let broken = (rw (encode_all, g, k) at e) in cc broken
    | inr (rest, k) ↦
        let same : b ++ rest ≡ bs = (cc (rw (encode_all, g, k) at e)) in
        let (d, small) = decode-encode_all t h.1 k in
        rw (← same) (
          decode-encode c b rest h.0 g ∙ ap (emit (some c)) d,
          All-append (λ x. x < 256) b rest (rw g at (encode-AreBytes c h.0)) small,
        )
  ]
]

-- The text in double quotes, the way git prints it.
abbrev pub quoted : List ℕ → Text
quoted bs = b'"' ∷ (quote_bytes bs ++ (b'"' ∷ []))

-- Every text that UTF-8 encodes, printed in quotes as git does, is read back by
-- `_decode_git_path_field`; and `_consume_c_style_path` reads it off the front of any text, with the
-- number of characters that it takes.
pub decode_git_path_field-quoted :
    (t : Text) (bs rest : List ℕ)
    → All IsPoint t
    → encode_all t ≡ some bs
    → (decode_git_path_field (quoted bs) ≡ ok t)
      × (consume_c_style_path (quoted bs ++ rest) ≡ ok (t, length (quoted bs)))
unfolding decode_git_path_field consume_c_style_path
decode_git_path_field-quoted t bs rest h e =
    let (d, small) = decode-encode_all t h e in
    let size : 1 + length (quote_bytes bs) + 1 ≡ length (quoted bs) =
      omega (arith, length-append (quote_bytes bs) (b'"' ∷ [])) in
    let whole = consume-quote_bytes bs plain [] [] 1 [] t refl small d ∙ ap (λ m. ok (t, m)) size in
    let not_empty : (length (quoted bs) == 0) ≡ false = ground arith in
    let prefix =
      consume-quote_bytes bs plain [] [] 1 rest t refl small d ∙ ap (λ m. ok (t, m)) size in
    (
      rw (not_empty, whole, eqb_refl (length (quoted bs))) refl,
      ap (consume plain [] 1) (append_assoc (quote_bytes bs) (b'"' ∷ []) rest) ∙ prefix,
    )
