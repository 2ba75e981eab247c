-- ===== src/Input/Utf8.antt =====
-- Python's strict UTF-8 codec on one character and on the bytes of a path.
use cr_agent.Prelude.{
  ℕ, ◌+◌, ◌-◌, ◌*◌, ◌/◌, ◌%◌, ◌<◌, Bool, true, false, not, ◌&&◌, ◌≡◌, refl, ◌∙◌, Option, none, some,
  List, [], ◌∷◌, ◌++◌, ltb, leb, ◌==◌, if◌then◌else◌, arith, Bool-cases, inl, inr,
}
use cr_agent.Prelude.Text.{Text}

abbrev pub between : ℕ → ℕ → ℕ → Bool
between lo hi b = leb lo b && leb b hi

abbrev tail : ℕ → ℕ
tail c = 128 + c % 64

-- `character.encode("utf-8")`; a surrogate is refused.
unfoldable pub encode : ℕ → Option (List ℕ)
encode c =
    if ltb c 128
    then some (c ∷ [])
    else if ltb c 2048
    then some ((192 + c / 64) ∷ tail c ∷ [])
    else if between 55296 57343 c
    then none
    else if ltb c 65536
    then some ((224 + c / 4096) ∷ tail (c / 64) ∷ tail c ∷ [])
    else some ((240 + c / 262144) ∷ tail (c / 4096) ∷ tail (c / 64) ∷ tail c ∷ [])

-- How many bytes are to come, what was read of the character, and the bounds of the next byte.
pub record Pending : Type 0 where
  pub left : ℕ
  pub value : ℕ
  pub low : ℕ
  pub high : ℕ

-- At the first byte of a character that takes more.
abbrev pub lead : ℕ → Option Pending
lead b =
    if between 194 223 b
    then some (record { left = 1; value = b - 192; low = 128; high = 191 })
    else if between 224 239 b
    then some (record {
      left = 2;
      value = b - 224;
      low = if b == 224 then 160 else 128;
      high = if b == 237 then 159 else 191;
    })
    else if between 240 244 b
    then some (record {
      left = 3;
      value = b - 240;
      low = if b == 240 then 144 else 128;
      high = if b == 244 then 143 else 191;
    })
    else none

-- One byte: the character that it ends, if any, and what is pending then.
abbrev pub take_byte : Option Pending → ℕ → Option (Option ℕ × Option Pending)
take_byte none b =
    if ltb b 128
    then some (some b, none)
    else elim (lead b) [ none ↦ none | some p ↦ some (none, some p) ]
take_byte (some p) b =
    let value = p.value * 64 + (b - 128) in
    if not (between p.low p.high b)
    then none
    else if p.left == 1
    then some (some value, none)
    else some (none, some (record { left = p.left - 1; value = value; low = 128; high = 191 }))

abbrev pub emit : Option ℕ → Option Text → Option Text
emit none t = t
emit (some c) none = none
emit (some c) (some t) = some (c ∷ t)

unfoldable pub decode_from : Option Pending → List ℕ → Option Text
decode_from none [] = some []
decode_from (some p) [] = none
decode_from pending (b ∷ bs) = elim (take_byte pending b) [
  | none ↦ none
  | some (out, pending') ↦ emit out (decode_from pending' bs)
]

-- `bytes.decode("utf-8", errors="strict")`
abbrev pub decode : List ℕ → Option Text
decode = decode_from none

decode_step :
    (pending : Option Pending) (b : ℕ) (bs : List ℕ) (out : Option ℕ) (pending' : Option Pending)
    → take_byte pending b ≡ some (out, pending')
    → decode_from pending (b ∷ bs) ≡ emit out (decode_from pending' bs)
unfolding decode_from
decode_step none b bs out pending' h = rw (h, decode_from)
decode_step (some p) b bs out pending' h = rw (h, decode_from)

abbrev wait : ℕ → ℕ → Pending
wait left value = record { left = left; value = value; low = 128; high = 191 }

last_byte : (c : ℕ) → take_byte (some (wait 1 (c / 64))) (tail c) ≡ some (some c, none)
last_byte c = ground arith

third_byte :
    (c : ℕ)
    → take_byte (some (wait 2 (c / 4096))) (tail (c / 64)) ≡ some (none, some (wait 1 (c / 64)))
third_byte c = ground arith

lead_byte :
    (b : ℕ) {p : Pending}
    → lead b ≡ some p
    → leb 128 b ≡ true
    → take_byte none b ≡ some (none, some p)
lead_byte b h g = ground arith

lead_two :
    (c : ℕ) → ltb c 128 ≡ false → ltb c 2048 ≡ true → lead (192 + c / 64) ≡ some (wait 1 (c / 64))
lead_two c h g = ground arith

lead_three :
    (c : ℕ)
    → ltb c 2048 ≡ false
    → between 55296 57343 c ≡ false
    → ltb c 65536 ≡ true
    → (p : Pending) × (lead (224 + c / 4096) ≡ some p)
      × (take_byte (some p) (tail (c / 64)) ≡ some (none, some (wait 1 (c / 64))))
lead_three c h s g = (
  record {
    left = 2;
    value = c / 4096;
    low = if c / 4096 == 0 then 160 else 128;
    high = if c / 4096 == 13 then 159 else 191;
  },
  ground arith,
  ground arith,
)

lead_four :
    (c : ℕ)
    → ltb c 65536 ≡ false
    → c < 1114112
    → (p : Pending) × (lead (240 + c / 262144) ≡ some p)
      × (take_byte (some p) (tail (c / 4096)) ≡ some (none, some (wait 2 (c / 4096))))
lead_four c h g = (
  record {
    left = 3;
    value = c / 262144;
    low = if c / 262144 == 0 then 144 else 128;
    high = if c / 262144 == 4 then 143 else 191;
  },
  ground arith,
  ground arith,
)

-- A character that is encoded is decoded again, in front of any bytes.
pub decode-encode :
    (c : ℕ) (bs rest : List ℕ)
    → c < 1114112
    → encode c ≡ some bs
    → decode (bs ++ rest) ≡ emit (some c) (decode rest)
unfolding encode
decode-encode c bs rest h e = elim (Bool-cases (ltb c 128)) [
  | inl a ↦
      let same : c ∷ [] ≡ bs = (cc (rw a at e)) in
      rw (← same) (decode_step none c rest (some c) none (rw a refl))
  | inr a ↦ elim (Bool-cases (ltb c 2048)) [
    | inl b ↦
        let same : (192 + c / 64) ∷ tail c ∷ [] ≡ bs = (cc (rw (a, b) at e)) in
        rw (← same) (
          decode_step none (192 + c / 64) (tail c ∷ rest) none (some (wait 1 (c / 64)))
            (lead_byte (192 + c / 64) (lead_two c a b) (ground arith))
          ∙ decode_step (some (wait 1 (c / 64))) (tail c) rest (some c) none (last_byte c))
    | inr b ↦ elim (Bool-cases (between 55296 57343 c)) [
      | inl s ↦ let broken = (rw (a, b, s) at e) in cc broken
      | inr s ↦ elim (Bool-cases (ltb c 65536)) [
        | inl d ↦
            let same : (224 + c / 4096) ∷ tail (c / 64) ∷ tail c ∷ [] ≡ bs =
              (cc (rw (a, b, s, d) at e)) in
            let (p, first, second) = lead_three c b s d in
            rw (← same) (
              decode_step none (224 + c / 4096) (tail (c / 64) ∷ tail c ∷ rest) none (some p)
                (lead_byte (224 + c / 4096) first (ground arith))
              ∙ decode_step (some p) (tail (c / 64)) (tail c ∷ rest) none (some (wait 1 (c / 64)))
                  second
              ∙ decode_step (some (wait 1 (c / 64))) (tail c) rest (some c) none (last_byte c))
        | inr d ↦
            let same : (240 + c / 262144) ∷ tail (c / 4096) ∷ tail (c / 64) ∷ tail c ∷ [] ≡ bs =
              (cc (rw (a, b, s, d) at e)) in
            let (p, first, second) = lead_four c d h in
            rw (← same) (
              decode_step none (240 + c / 262144) (tail (c / 4096) ∷ tail (c / 64) ∷ tail c ∷ rest)
                none (some p) (lead_byte (240 + c / 262144) first (ground arith))
              ∙ decode_step (some p) (tail (c / 4096)) (tail (c / 64) ∷ tail c ∷ rest) none
                  (some (wait 2 (c / 4096))) second
              ∙ decode_step (some (wait 2 (c / 4096))) (tail (c / 64)) (tail c ∷ rest) none
                  (some (wait 1 (c / 64))) (third_byte c)
              ∙ decode_step (some (wait 1 (c / 64))) (tail c) rest (some c) none (last_byte c))
      ]
    ]
  ]
]
