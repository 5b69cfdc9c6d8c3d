-- ===== src/Pagination/Window.antt =====
-- The cursor of pagination/cursor.go and the limits of a listing: what is read back, and its bounds.
use projectbook_backend.Base.{
  ℕ, ◌≤◌, ◌≡◌, refl, ap, ◌∙◌, All, [], ◌∷◌, ok, Option, none, some, arith, Bool-cases, inl, inr,
  false, ◌>>=◌,
}
use projectbook_backend.Text.{Text, is_empty, trim_space}
use projectbook_backend.Text.Decimal.{
  ℤ, pos, negsuc, max_int, IsDigit, format_int, format_int-IsDigit, parse_int, parse_int-format_int,
}
use projectbook_backend.Text.Base64.{
  IsByte, encode_base64, sextets, decode_base64, decode_base64-encode_base64,
  trim_space-encode_base64,
}
use projectbook_backend.Pagination.{
  cursor_payload, encode_offset_cursor, offset_of, decode_payload, decode_offset_cursor, limit_of,
  parse_limit, optional_int_of, parse_optional_int_query, normalize_limit,
}

digits-IsByte : (s : Text) → All IsDigit s → All IsByte s
digits-IsByte [] h = tt
digits-IsByte (c ∷ s) (hc, hs) = (omega arith, digits-IsByte s hs)

cursor_payload-IsByte : (n : ℕ) → All IsByte (cursor_payload n)
unfolding cursor_payload
cursor_payload-IsByte n =
    (omega arith, (omega arith, (omega arith, digits-IsByte (format_int n) (format_int-IsDigit n))))

letters_full : (c : ℕ) (s : Text) → is_empty (encode_base64 (c ∷ s)) ≡ false
unfolding encode_base64 sextets
letters_full c [] = refl
letters_full c (d ∷ []) = refl
letters_full c (d ∷ e ∷ s) = refl

encoded_full : (n : ℕ) → is_empty (encode_base64 (cursor_payload n)) ≡ false
unfolding cursor_payload
encoded_full n = letters_full 118 (49 ∷ 58 ∷ format_int n)

-- A cursor has no white space at its ends and is not blank.
pub trim_space-encode_offset_cursor :
    (n : ℕ) → trim_space (encode_offset_cursor (pos n)) ≡ encode_offset_cursor (pos n)
unfolding encode_offset_cursor
trim_space-encode_offset_cursor n =
    trim_space-encode_base64 (cursor_payload n) (cursor_payload-IsByte n)

payload_offset : (n : ℕ) → n ≤ max_int → decode_payload (some (cursor_payload n)) ≡ ok n
unfolding decode_payload cursor_payload offset_of
payload_offset n h = ap offset_of (parse_int-format_int n h)

decoded :
    (t raw : Text) (n : ℕ)
    → trim_space t ≡ t
    → is_empty t ≡ false
    → decode_base64 t ≡ some raw
    → decode_payload (some raw) ≡ ok n
    → decode_offset_cursor t ≡ ok n
unfolding decode_offset_cursor
decoded t raw n e f g h = rw (e, f) (ap decode_payload g ∙ h)

-- A cursor stands for the offset that it was made of: every offset of 63 bits is read back.
pub decode_offset_cursor-encode_offset_cursor :
    (n : ℕ) → n ≤ max_int → decode_offset_cursor (encode_offset_cursor (pos n)) ≡ ok n
unfolding encode_offset_cursor
decode_offset_cursor-encode_offset_cursor n h =
    let bytes = cursor_payload-IsByte n in
    decoded (encode_base64 (cursor_payload n)) (cursor_payload n) n
      (trim_space-encode_base64 (cursor_payload n) bytes) (encoded_full n)
      (decode_base64-encode_base64 (cursor_payload n) bytes) (payload_offset n h)

-- A cursor is not blank.
pub encode_offset_cursor-is_empty : (n : ℕ) → is_empty (encode_offset_cursor (pos n)) ≡ false
unfolding encode_offset_cursor
encode_offset_cursor-is_empty n = encoded_full n

limit_of-range : (o : Option ℤ) (n : ℕ) → limit_of o ≡ ok n → (1 ≤ n) × (n ≤ 50)
unfolding limit_of
limit_of-range none n h = cc
limit_of-range (some (negsuc m)) n h = cc
limit_of-range (some (pos m)) n h = (ground arith, ground arith)

pub parse_limit-range : (raw : Text) (n : ℕ) → parse_limit raw ≡ ok n → (1 ≤ n) × (n ≤ 50)
unfolding parse_limit limit_of
parse_limit-range raw n h = elim (Bool-cases (is_empty (trim_space raw))) [
  | inl e ↦ limit_of-range (some (pos 0)) n (rw e at h)
  | inr e ↦ limit_of-range (parse_int (trim_space raw)) n (rw e at h)
]

limits_agree : (o : Option ℤ) → limit_of o ≡ (optional_int_of o >>= λ n. ok (normalize_limit n))
unfolding limit_of optional_int_of normalize_limit
limits_agree none = refl
limits_agree (some (negsuc m)) = refl
limits_agree (some (pos m)) = refl

-- The two readings of the limit in the modules answer alike on every text: parseLimit, and
-- parseOptionalIntQuery with 20 for a missing limit followed by normalizeLimit.
pub parse_limit-parse_optional_int_query :
    (raw : Text)
    → parse_limit raw ≡ (parse_optional_int_query raw 20 >>= λ n. ok (normalize_limit n))
unfolding parse_limit parse_optional_int_query normalize_limit
parse_limit-parse_optional_int_query raw = elim (Bool-cases (is_empty (trim_space raw))) [
  | inl e ↦ rw e refl
  | inr e ↦ rw e (limits_agree (parse_int (trim_space raw)))
]
