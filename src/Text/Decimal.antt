-- ===== src/Text/Decimal.antt =====
-- strconv: FormatInt of a number that is not negative, and ParseInt in base 10 to 64 bits (Atoi).
use projectbook_backend.Base.{
  ℕ, zero, suc, ◌+◌, ◌-◌, ◌*◌, ◌/◌, ◌%◌, ◌^◌, ◌≤◌, ◌<◌, ltb, leb, ◌==◌, if◌then◌else◌, ◌&&◌, false,
  ◌≡◌, ◌≢◌, ◌⊎◌, refl, sym, ap, ◌∙◌, inl, inr, Bool-cases, Option, none, some, All, [], ◌∷◌, arith,
}
use projectbook_backend.Text.{Text, is_space, trim_left, keep, trim_right, trim_space}

-- A signed number, where `negsuc n` is -(n + 1).
pub data ℤ : Type 0 where
  pos negsuc : ℕ → ℤ

abbrev pub max_int : ℕ
max_int = 2 ^ 63 - 1

abbrev pub IsDigit : ℕ → Type 0
IsDigit c = (48 ≤ c) × (c ≤ 57)

-- The digits of `n` in front of `out`, where the fuel is more than `n`.
unfoldable pub digits : ℕ → ℕ → Text → Text
digits zero n out = out
digits (suc k) n out =
    let last = (48 + n % 10) ∷ out in
    let rest = digits k (n / 10) last in if ltb n 10 then last else rest

-- strconv.FormatInt(n, 10)
unfoldable pub format_int : ℕ → Text
unfolding digits
format_int n = digits (suc n) n []

-- The number that the digits spell behind `n`.
unfoldable pub scan : Text → ℕ → Option ℕ
scan [] n = some n
scan (c ∷ s) n =
    let rest = scan s (n * 10 + (c - 48)) in if leb 48 c && leb c 57 then rest else none

abbrev pub in_range : Option ℕ → Option ℤ
in_range none = none
in_range (some n) = if ltb max_int n then none else some (pos n)

abbrev pub in_negative_range : Option ℕ → Option ℤ
in_negative_range none = none
in_negative_range (some zero) = some (pos zero)
in_negative_range (some (suc n)) = if ltb max_int n then none else some (negsuc n)

unfoldable pub parse_digits : Text → Option ℕ
unfolding scan
parse_digits [] = none
parse_digits (c ∷ s) = scan (c ∷ s) 0

-- strconv.ParseInt(s, 10, 64)
unfoldable pub parse_int : Text → Option ℤ
unfolding parse_digits
parse_int [] = none
parse_int (c ∷ s) =
    if c == 43
    then in_range (parse_digits s)
    else if c == 45
    then in_negative_range (parse_digits s)
    else in_range (parse_digits (c ∷ s))

scan-digits : (k n : ℕ) (out : Text) → n < k → scan (digits k n out) 0 ≡ scan out n
unfolding scan digits
scan-digits zero n out h = absurd (omega arith)
scan-digits (suc k) n out h = elim (Bool-cases (ltb n 10)) [
  | inl e ↦ rw e (ground arith)
  | inr e ↦ rw (e, scan-digits k (n / 10) ((48 + n % 10) ∷ out) (ground arith)) (ground arith)
]

digits-IsDigit : (k n : ℕ) (out : Text) → All IsDigit out → All IsDigit (digits k n out)
unfolding digits
digits-IsDigit zero n out h = h
digits-IsDigit (suc k) n out h = elim (Bool-cases (ltb n 10)) [
  | inl e ↦ rw e ((omega arith, omega arith), h)
  | inr e ↦ rw e (digits-IsDigit k (n / 10) ((48 + n % 10) ∷ out) ((omega arith, omega arith), h))
]

pub format_int-IsDigit : (n : ℕ) → All IsDigit (format_int n)
unfolding format_int
format_int-IsDigit n = digits-IsDigit (suc n) n [] tt

pub scan-format_int : (n : ℕ) → scan (format_int n) 0 ≡ some n
unfolding format_int scan
scan-format_int n = scan-digits (suc n) n [] (omega arith)

some-injective : {a b : ℕ} → some a ≡ some b → a ≡ b
some-injective p = cc

-- Two numbers with the same print are equal.
pub format_int-injective : (n m : ℕ) → format_int n ≡ format_int m → n ≡ m
format_int-injective n m h =
    some-injective (sym (scan-format_int n) ∙ ap (λ s. scan s 0) h ∙ scan-format_int m)

digits-some : (k n : ℕ) (out : Text) → out ≢ [] ⊎ (0 < k) → digits k n out ≢ []
unfolding digits
digits-some zero n out (inl h) = h
digits-some zero n out (inr h) = absurd (omega arith)
digits-some (suc k) n out h = elim (Bool-cases (ltb n 10)) [
  | inl e ↦ rw e (cc)
  | inr e ↦ rw e (digits-some k (n / 10) ((48 + n % 10) ∷ out) (inl (cc)))
]

format_int-some : (n : ℕ) → format_int n ≢ []
unfolding format_int
format_int-some n = digits-some (suc n) n [] (inr (omega arith))

-- A first digit is no sign.
digit-sign : (c : ℕ) → IsDigit c → ((c == 43) ≡ false) × ((c == 45) ≡ false)
digit-sign c h = (ground arith, ground arith)

in_range-fits : (n : ℕ) → n ≤ max_int → in_range (some n) ≡ some (pos n)
in_range-fits n fits = ground arith

digits-parse_int :
    (s : Text) (n : ℕ)
    → All IsDigit s
    → s ≢ []
    → scan s 0 ≡ some n
    → n ≤ max_int
    → parse_int s ≡ some (pos n)
unfolding parse_int
digits-parse_int [] n all_digits full h fits = absurd (full refl)
digits-parse_int (c ∷ s) n (digit, _) full h fits =
    rw ((digit-sign c digit).0, (digit-sign c digit).1) (ap in_range h ∙ in_range-fits n fits)

-- A number of 63 bits is read back from its print.
pub parse_int-format_int : (n : ℕ) → n ≤ max_int → parse_int (format_int n) ≡ some (pos n)
parse_int-format_int n =
    digits-parse_int (format_int n) n (format_int-IsDigit n) (format_int-some n) (scan-format_int n)

in_range-bound : (o : Option ℕ) (n : ℕ) → in_range o ≡ some (pos n) → n ≤ max_int
in_range-bound none n h = cc
in_range-bound (some m) n h = ground arith

in_negative_range-bound : (o : Option ℕ) (n : ℕ) → in_negative_range o ≡ some (pos n) → n ≤ max_int
in_negative_range-bound none n h = cc
in_negative_range-bound (some zero) n h = ground arith
in_negative_range-bound (some (suc m)) n h = ground arith

-- What is read fits into 63 bits.
pub parse_int-bound : (s : Text) (n : ℕ) → parse_int s ≡ some (pos n) → n ≤ max_int
unfolding parse_int
parse_int-bound [] n h = cc
parse_int-bound (c ∷ s) n h = elim (Bool-cases (c == 43)) [
  | inl e ↦ in_range-bound (parse_digits s) n (rw e at h)
  | inr e ↦ elim (Bool-cases (c == 45)) [
    | inl f ↦ in_negative_range-bound (parse_digits s) n (rw (e, f) at h)
    | inr f ↦ in_range-bound (parse_digits (c ∷ s)) n (rw (e, f) at h)
  ]
]

digit-is_space : (c : ℕ) → IsDigit c → is_space c ≡ false
unfolding is_space
digit-is_space c h = ground arith

digit-keep : (c : ℕ) → IsDigit c → (s : Text) → keep c s ≡ c ∷ s
unfolding keep
digit-keep c h [] = rw (digit-is_space c h) refl
digit-keep c h (d ∷ s) = refl

digits-trim_right : (s : Text) → All IsDigit s → trim_right s ≡ s
unfolding trim_right
digits-trim_right [] h = refl
digits-trim_right (c ∷ s) (hc, hs) = rw (digits-trim_right s hs) (digit-keep c hc s)

digits-trim_left : (s : Text) → All IsDigit s → trim_left s ≡ s
unfolding trim_left
digits-trim_left [] h = refl
digits-trim_left (c ∷ s) (hc, hs) = rw (digit-is_space c hc) refl

-- A printed number has no white space at its ends.
pub trim_space-format_int : (n : ℕ) → trim_space (format_int n) ≡ format_int n
unfolding trim_space
trim_space-format_int n =
    let all_digits = format_int-IsDigit n in
    ap trim_left (digits-trim_right (format_int n) all_digits)
    ∙ digits-trim_left (format_int n) all_digits
