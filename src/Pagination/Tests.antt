-- ===== src/Pagination/Tests.antt =====
-- Runs of the listings at small inputs, and the theorems about them at concrete requests.
use projectbook_backend.Base.{
  ℕ, ◌-◌, ◌^◌, ◌==◌, ◌≡◌, refl, List, [], ◌∷◌, if◌then◌else◌, ok, err, arith,
}
use projectbook_backend.Text.{Text, codes, text_eq}
use projectbook_backend.Text.Decimal.{pos, negsuc}
use projectbook_backend.Pagination.{
  encode_offset_cursor, decode_offset_cursor, cursor_invalid, cursor_required, drop, list_rows,
  invalid_cursor, int_sum, parse_list_query,
}
use projectbook_backend.Pagination.Window.{decode_offset_cursor-encode_offset_cursor}
use projectbook_backend.Pagination.Walk.{follow, follow-eq-drop}

-- `?limit=2`
abbrev two_at_once : Text → Text
two_at_once key = if text_eq key (codes "limit") then codes " 2 " else []

abbrev five_rows : List ℕ
five_rows = 10 ∷ 20 ∷ 30 ∷ 40 ∷ 50 ∷ []

cursor_of_twenty : encode_offset_cursor (pos 20) ≡ codes "djE6MjA"
unfolding encode_offset_cursor
cursor_of_twenty = refl

cursor_of_negative : encode_offset_cursor (negsuc 4) ≡ encode_offset_cursor (pos 0)
unfolding encode_offset_cursor
cursor_of_negative = refl

bad_cursors :
    (decode_offset_cursor (codes "  ") ≡ err cursor_required)
    × (decode_offset_cursor (codes "!!") ≡ err cursor_invalid)
    × (decode_offset_cursor (codes "djE6LTU") ≡ err cursor_invalid)
unfolding decode_offset_cursor
bad_cursors = (refl, refl, refl)

wrapped : int_sum (2 ^ 63 - 1) 1 ≡ negsuc (2 ^ 63 - 1)
unfolding int_sum
wrapped = refl

all_pages : follow 3 two_at_once (λ _. five_rows) ≡ ok five_rows
unfolding follow
all_pages = refl

bad_limit : list_rows (λ key. codes "many") five_rows ≡ err invalid_cursor
unfolding list_rows
bad_limit = refl

decode_offset_cursor-encode_offset_cursor_example :
    decode_offset_cursor (encode_offset_cursor (pos 1234)) ≡ ok 1234
decode_offset_cursor-encode_offset_cursor_example =
    decode_offset_cursor-encode_offset_cursor 1234 (omega arith)

-- A row that is logged between the first page and the second shifts the others: one is listed twice.
abbrev logged_between : ℕ → List ℕ
logged_between k = if k == 3 then five_rows else 5 ∷ five_rows

row_repeated : follow 4 two_at_once logged_between ≡ ok (10 ∷ 20 ∷ 20 ∷ 30 ∷ 40 ∷ 50 ∷ [])
unfolding follow
row_repeated = refl

follow-eq-drop_example : follow 6 two_at_once (λ _. five_rows) ≡ ok (drop 0 five_rows)
unfolding parse_list_query text_eq
follow-eq-drop_example =
    follow-eq-drop 6 two_at_once (record { offset = 0; limit = 2 }) five_rows (λ _. five_rows)
      (λ _. refl) refl (omega arith) (omega arith)
