-- ===== src/Json/Strings.antt =====
-- A reader of JSON strings, after RFC 8259, and `jstr` against it.
use vitals.Json.{hex_digit, hex4, escape, escaped, jstr}
use vitals.Prelude.{
  ℕ, zero, suc, ◌+◌, ◌-◌, ◌*◌, ◌/◌, ◌%◌, ◌<◌, ◌≡◌, refl, ap, ◌∙◌, false, ◌&&◌, Option, none, some,
  [], ◌∷◌, ◌++◌, arith, if◌then◌else◌, ltb, leb, ◌==◌, append_assoc, inl, inr, Bool-cases,
}
use vitals.Text.{Text}

abbrev hex_value : ℕ → Option ℕ
hex_value c =
    if leb b'0' c && leb c b'9'
    then some (c - b'0')
    else if leb b'a' c && leb c b'f'
    then some (c - 87)
    else if leb b'A' c && leb c b'F'
    then some (c - 55)
    else none

-- The character of a short escape.
abbrev unescaped : ℕ → Option ℕ
unescaped c =
    if c == b'"'
    then some b'"'
    else if c == b'\\'
    then some b'\\'
    else if c == b'/'
    then some b'/'
    else if c == b'b'
    then some 8
    else if c == b'f'
    then some 12
    else if c == b'n'
    then some 10
    else if c == b'r'
    then some 13
    else if c == b't'
    then some 9
    else none

-- Where the reader is: between characters, behind a backslash, or at a hexadecimal digit of which so
-- many are to come, behind digits of this value.
pub data Mode : Type 0 where
  plain slash : Mode
  hex : ℕ → ℕ → Mode

abbrev push_char : ℕ → Option (Text × Text) → Option (Text × Text)
push_char c none = none
push_char c (some (s, rest)) = some (c ∷ s, rest)

-- A string behind its opening quote: its characters, and what stands behind its closing quote.
unfoldable pub read : Mode → Text → Option (Text × Text)
read mode [] = none
read plain (c ∷ cs) =
    if c == b'"'
    then some ([], cs)
    else if c == b'\\'
    then read slash cs
    else if ltb c 32
    then none
    else push_char c (read plain cs)
read slash (c ∷ cs) =
    if c == b'u'
    then read (hex 3 0) cs
    else elim (unescaped c) [ none ↦ none | some d ↦ push_char d (read plain cs) ]
read (hex zero v) (c ∷ cs) = elim (hex_value c) [
  | none ↦ none
  | some d ↦ push_char (v * 16 + d) (read plain cs)
]
read (hex (suc n) v) (c ∷ cs) = elim (hex_value c) [
  | none ↦ none
  | some d ↦ read (hex n (v * 16 + d)) cs
]

hex_value-hex_digit : (n : ℕ) → n < 16 → hex_value (hex_digit n) ≡ some n
hex_value-hex_digit n h = ground arith

read-digit :
    (k v d : ℕ) {n : ℕ} (t : Text)
    → hex_value d ≡ some n
    → read (hex (suc k) v) (d ∷ t) ≡ read (hex k (v * 16 + n)) t
unfolding read
read-digit k v d t h = rw (h, read) refl

read-last_digit :
    (v d : ℕ) {n : ℕ} (t : Text)
    → hex_value d ≡ some n
    → read (hex zero v) (d ∷ t) ≡ push_char (v * 16 + n) (read plain t)
unfolding read
read-last_digit v d t h = rw (h, read) refl

read-hex4 : (c : ℕ) (t : Text) → c < 32 → read (hex 3 0) (hex4 c ++ t) ≡ push_char c (read plain t)
read-hex4 c t h =
    let digit : (n : ℕ) → hex_value (hex_digit (n % 16)) ≡ some (n % 16) =
      λ n. hex_value-hex_digit (n % 16) (omega arith) in
    read-digit 2 0 (hex_digit (c / 4096 % 16)) _ (digit (c / 4096))
    ∙ read-digit 1 (0 * 16 + c / 4096 % 16) (hex_digit (c / 256 % 16)) _ (digit (c / 256))
    ∙ read-digit 0 _ (hex_digit (c / 16 % 16)) (hex_digit (c % 16) ∷ t) (digit (c / 16))
    ∙ read-last_digit _ (hex_digit (c % 16)) t (digit c)
    ∙ ap (λ n. push_char n (read plain t)) (omega arith)

read-other :
    (c : ℕ) (t : Text)
    → (c == b'"') ≡ false
    → (c == b'\\') ≡ false
    → ltb c 32 ≡ false
    → read plain (c ∷ t) ≡ push_char c (read plain t)
unfolding read
read-other c t h k l = rw (h, k, l) refl

-- What is written for a character reads as the character.
read-escape : (c : ℕ) (t : Text) → read plain (escape c ++ t) ≡ push_char c (read plain t)
unfolding read escape
read-escape c t = elim (Bool-cases (c == b'"')) [
  | inl e₁ ↦ rw e₁ (ap (λ n. push_char n (read plain t)) (ground arith))
  | inr n₁ ↦ elim (Bool-cases (c == b'\\')) [
    | inl e₂ ↦ rw (n₁, e₂) (ap (λ n. push_char n (read plain t)) (ground arith))
    | inr n₂ ↦ elim (Bool-cases (c == 10)) [
      | inl e₃ ↦ rw (n₁, n₂, e₃) (ap (λ n. push_char n (read plain t)) (ground arith))
      | inr n₃ ↦ elim (Bool-cases (c == 13)) [
        | inl e₄ ↦ rw (n₁, n₂, n₃, e₄) (ap (λ n. push_char n (read plain t)) (ground arith))
        | inr n₄ ↦ elim (Bool-cases (c == 9)) [
          | inl e₅ ↦ rw (n₁, n₂, n₃, n₄, e₅) (ap (λ n. push_char n (read plain t)) (ground arith))
          | inr n₅ ↦ elim (Bool-cases (ltb c 32)) [
            | inl low ↦ rw (n₁, n₂, n₃, n₄, n₅, low) (read-hex4 c t (ground arith))
            | inr high ↦ rw (n₁, n₂, n₃, n₄, n₅, high, escape) (read-other c t n₁ n₂ high)
          ]
        ]
      ]
    ]
  ]
]

read-escaped : (s t : Text) → read plain (escaped s ++ b'"' ∷ t) ≡ some (s, t)
unfolding escaped
read-escaped [] t = unfold read in refl
read-escaped (c ∷ cs) t =
    ap (read plain) (append_assoc (escape c) (escaped cs) (b'"' ∷ t))
    ∙ read-escape c (escaped cs ++ b'"' ∷ t)
    ∙ ap (push_char c) (read-escaped cs t)

-- Read as RFC 8259 says, a string that `jstr` writes gives back its text and what stands behind it,
-- whatever characters they hold.
pub read-jstr :
    (s t : Text) → (body : Text) × (jstr s ++ t ≡ b'"' ∷ body) × (read plain body ≡ some (s, t))
unfolding jstr
read-jstr s t = (
  escaped s ++ b'"' ∷ t,
  ap (◌∷◌ b'"') (append_assoc (escaped s) (b'"' ∷ []) t),
  read-escaped s t,
)
