-- ===== src/Text/Base64.antt =====
-- base64.RawURLEncoding (encoding/base64): six bits to a letter, no padding. Line ends are skipped
-- and the spare bits of the last letter are ignored where a text is decoded.
use projectbook_backend.Base.{
  ℕ, ◌+◌, ◌-◌, ◌*◌, ◌/◌, ◌%◌, ◌<◌, ltb, leb, ◌==◌, if◌then◌else◌, Bool, ◌&&◌, ◌||◌, false, ◌≡◌,
  refl, ap, ◌∙◌, Option, none, some, All, map, [], ◌∷◌, arith, filter, not,
}
use projectbook_backend.Text.{Text, is_space, trim_left, keep, trim_right, trim_space}

-- The letter of six bits: A-Z, a-z, 0-9, "-" and "_".
unfoldable pub letter : ℕ → ℕ
letter v =
    if ltb v 26
    then 65 + v
    else if ltb v 52
    then 71 + v
    else if ltb v 62
    then v - 4
    else if v == 62
    then 45
    else 95

unfoldable pub unletter : ℕ → Option ℕ
unletter c =
    if leb 65 c && leb c 90
    then some (c - 65)
    else if leb 97 c && leb c 122
    then some (c - 71)
    else if leb 48 c && leb c 57
    then some (c + 4)
    else if c == 45
    then some 62
    else if c == 95
    then some 63
    else none

-- The bytes in groups of six bits.
unfoldable pub sextets : Text → Text
sextets [] = []
sextets (a ∷ []) = (a / 4) ∷ (a % 4 * 16) ∷ []
sextets (a ∷ b ∷ []) = (a / 4) ∷ (a % 4 * 16 + b / 16) ∷ (b % 16 * 4) ∷ []
sextets (a ∷ b ∷ c ∷ s) =
    (a / 4) ∷ (a % 4 * 16 + b / 16) ∷ (b % 16 * 4 + c / 64) ∷ (c % 64) ∷ sextets s

-- RawURLEncoding.EncodeToString
unfoldable pub encode_base64 : Text → Text
unfolding letter sextets
encode_base64 s = map letter (sextets s)

-- A value before those of the rest.
abbrev before_rest : Option ℕ → Option Text → Option Text
before_rest none rest = none
before_rest (some v) none = none
before_rest (some v) (some vs) = some (v ∷ vs)

-- The values of the letters.
unfoldable pub unletters : Text → Option Text
unfolding unletter
unletters [] = some []
unletters (c ∷ s) = before_rest (unletter c) (unletters s)

-- The bytes of the values; one value alone is no byte.
unfoldable pub bytes_of : Text → Option Text
bytes_of [] = some []
bytes_of (x ∷ []) = none
bytes_of (x ∷ y ∷ []) = some (((x * 4 + y / 16)) ∷ [])
bytes_of (x ∷ y ∷ z ∷ []) = some ((x * 4 + y / 16) ∷ (y % 16 * 16 + z / 4) ∷ [])
bytes_of (x ∷ y ∷ z ∷ w ∷ vs) = elim (bytes_of vs) [
  | none ↦ none
  | some s ↦ some ((x * 4 + y / 16) ∷ (y % 16 * 16 + z / 4) ∷ (z % 4 * 64 + w) ∷ s)
]

abbrev is_line_end : ℕ → Bool
is_line_end c = c == 10 || c == 13

abbrev bytes_of_values : Option Text → Option Text
bytes_of_values none = none
bytes_of_values (some vs) = bytes_of vs

-- RawURLEncoding.DecodeString
unfoldable pub decode_base64 : Text → Option Text
unfolding unletters bytes_of
decode_base64 s = bytes_of_values (unletters (filter (λ c. not (is_line_end c)) s))

abbrev pub IsByte : ℕ → Type 0
IsByte c = c < 256

unletter-letter : (v : ℕ) → v < 64 → unletter (letter v) ≡ some v
unfolding unletter letter
unletter-letter v h = ground arith

letter-line_end : (v : ℕ) → v < 64 → is_line_end (letter v) ≡ false
unfolding letter
letter-line_end v h = ground arith

sextets-IsSextet : (s : Text) → All IsByte s → All (λ v. v < 64) (sextets s)
unfolding sextets
sextets-IsSextet [] h = tt
sextets-IsSextet (a ∷ []) (ha, _) = (omega arith, (omega arith, tt))
sextets-IsSextet (a ∷ b ∷ []) (ha, (hb, _)) = (omega arith, (omega arith, (omega arith, tt)))
sextets-IsSextet (a ∷ b ∷ c ∷ s) (ha, (hb, (hc, hs))) =
    (omega arith, (omega arith, (omega arith, (omega arith, sextets-IsSextet s hs))))

filter-letter :
    (vs : Text)
    → All (λ v. v < 64) vs
    → filter (λ c. not (is_line_end c)) (map letter vs) ≡ map letter vs
filter-letter [] h = refl
filter-letter (v ∷ vs) (hv, hs) =
    rw (letter-line_end v hv) (ap (λ t. letter v ∷ t) (filter-letter vs hs))

unletters-letter : (vs : Text) → All (λ v. v < 64) vs → unletters (map letter vs) ≡ some vs
unfolding unletters
unletters-letter [] h = refl
unletters-letter (v ∷ vs) (hv, hs) =
    ap (λ o. before_rest o (unletters (map letter vs))) (unletter-letter v hv)
    ∙ ap (before_rest (some v)) (unletters-letter vs hs)

two_bytes : (a b : ℕ) → a < 256 → b < 256 → (a / 4) * 4 + (a % 4 * 16 + b / 16) / 16 ≡ a
two_bytes a b ha hb = omega arith

next_byte :
    (a b c : ℕ)
    → b < 256
    → c < 256
    → (a % 4 * 16 + b / 16) % 16 * 16 + (b % 16 * 4 + c / 64) / 4 ≡ b
next_byte a b c hb hc = omega arith

third_byte : (b c : ℕ) → c < 256 → (b % 16 * 4 + c / 64) % 4 * 64 + c % 64 ≡ c
third_byte b c hc = omega arith

bytes_of-sextets : (s : Text) → All IsByte s → bytes_of (sextets s) ≡ some s
unfolding bytes_of sextets
bytes_of-sextets [] h = refl
bytes_of-sextets (a ∷ []) (ha, _) = ap (λ x. some (x ∷ [])) (omega arith)
bytes_of-sextets (a ∷ b ∷ []) (ha, (hb, _)) =
    rw (two_bytes a b ha hb) (ap (λ x. some (a ∷ x ∷ [])) (omega arith))
bytes_of-sextets (a ∷ b ∷ c ∷ s) (ha, (hb, (hc, hs))) =
    rw (bytes_of-sextets s hs, two_bytes a b ha hb, next_byte a b c hb hc, third_byte b c hc) refl

-- Encoded bytes are decoded to themselves.
pub decode_base64-encode_base64 :
    (s : Text) → All IsByte s → decode_base64 (encode_base64 s) ≡ some s
unfolding decode_base64 encode_base64
decode_base64-encode_base64 s h =
    let small = sextets-IsSextet s h in
    ap (λ t. bytes_of_values (unletters t)) (filter-letter (sextets s) small)
    ∙ ap bytes_of_values (unletters-letter (sextets s) small)
    ∙ bytes_of-sextets s h

letter-is_space : (v : ℕ) → v < 64 → is_space (letter v) ≡ false
unfolding letter is_space
letter-is_space v h = ground arith

letter-keep : (v : ℕ) → v < 64 → (s : Text) → keep (letter v) s ≡ letter v ∷ s
unfolding keep
letter-keep v h [] = rw (letter-is_space v h) refl
letter-keep v h (d ∷ s) = refl

letters-trim_right : (vs : Text) → All (λ v. v < 64) vs → trim_right (map letter vs) ≡ map letter vs
unfolding trim_right
letters-trim_right [] h = refl
letters-trim_right (v ∷ vs) (hv, hs) =
    rw (letters-trim_right vs hs) (letter-keep v hv (map letter vs))

letters-trim_left : (vs : Text) → All (λ v. v < 64) vs → trim_left (map letter vs) ≡ map letter vs
unfolding trim_left
letters-trim_left [] h = refl
letters-trim_left (v ∷ vs) (hv, hs) = rw (letter-is_space v hv) refl

-- An encoded text has no white space at its ends.
pub trim_space-encode_base64 :
    (s : Text) → All IsByte s → trim_space (encode_base64 s) ≡ encode_base64 s
unfolding trim_space encode_base64
trim_space-encode_base64 s h =
    let small = sextets-IsSextet s h in
    ap trim_left (letters-trim_right (sextets s) small) ∙ letters-trim_left (sextets s) small
