-- ===== src/Pagination.antt =====
-- internal/core/pagination/cursor.go, and the listing of internal/modules/activity (handler.go, dto.go,
-- service.go), calendar, artifacts, pages and resources by offset and limit. A Go int has 64 bits.
pub mod Window
pub mod Walk
mod Tests
use projectbook_backend.Base.{
  ℕ, zero, suc, ◌+◌, ◌-◌, ◌^◌, ltb, ◌==◌, if◌then◌else◌, length, take, Bool, not, Option, none,
  some, List, [], ◌∷◌, ◌++◌, Result, ok, err, ◌>>=◌,
}
use projectbook_backend.Text.{Text, codes, is_empty, has_prefix, trim_space}
use projectbook_backend.Text.Decimal.{ℤ, pos, negsuc, max_int, format_int, parse_int}
use projectbook_backend.Text.Base64.{encode_base64, decode_base64}

-- `a + b` on ints, which wraps around.
unfoldable pub int_sum : ℕ → ℕ → ℤ
int_sum a b = if ltb max_int (a + b) then negsuc (2 ^ 64 - (a + b) - 1) else pos (a + b)

-- `fmt.Sprintf("%s%d", offsetCursorPrefix, offset)`
unfoldable pub cursor_payload : ℕ → Text
unfolding format_int
cursor_payload n = codes "v1:" ++ format_int n

-- EncodeOffsetCursor
unfoldable pub encode_offset_cursor : ℤ → Text
unfolding cursor_payload encode_base64
encode_offset_cursor (pos n) = encode_base64 (cursor_payload n)
encode_offset_cursor (negsuc n) = encode_base64 (cursor_payload 0)

pub data CursorError : Type 0 where
  cursor_required cursor_invalid : CursorError

unfoldable pub offset_of : Option ℤ → Result CursorError ℕ
offset_of none = err cursor_invalid
offset_of (some (pos n)) = ok n
offset_of (some (negsuc n)) = err cursor_invalid

-- The rows without the first n, `OFFSET n`.
abbrev pub drop {ℓ} : {A : Type ℓ} → ℕ → List A → List A
drop zero xs = xs
drop (suc n) [] = []
drop (suc n) (x ∷ xs) = drop n xs

-- strings.HasPrefix and strings.TrimPrefix, then the number.
unfoldable pub decode_payload : Option Text → Result CursorError ℕ
unfolding offset_of parse_int has_prefix
decode_payload none = err cursor_invalid
decode_payload (some s) =
    if has_prefix s (codes "v1:") then offset_of (parse_int (drop 3 s)) else err cursor_invalid

-- DecodeOffsetCursor
unfoldable pub decode_offset_cursor : Text → Result CursorError ℕ
unfolding trim_space decode_base64 decode_payload
decode_offset_cursor cursor =
    let trimmed = trim_space cursor in
    if is_empty trimmed then err cursor_required else decode_payload (decode_base64 trimmed)

-- queryValue: the first of the parameters that is not blank.
unfoldable pub query_value : (Text → Text) → List Text → Text
unfolding trim_space
query_value query [] = []
query_value query (key ∷ keys) =
    let rest = query_value query keys in
    let value = trim_space (query key) in if is_empty value then rest else value

-- The answers with status 400.
pub data QueryError : Type 0 where
  invalid_cursor limit_not_integer negative_limit : QueryError

unfoldable pub limit_of : Option ℤ → Result QueryError ℕ
limit_of none = err limit_not_integer
limit_of (some (negsuc n)) = err negative_limit
limit_of (some (pos n)) = ok (if n == 0 then 20 else if ltb 50 n then 50 else n)

-- parseLimit of activity and calendar, with defaultLimit 20 and maxLimit 50.
unfoldable pub parse_limit : Text → Result QueryError ℕ
unfolding trim_space parse_int limit_of
parse_limit raw = if is_empty (trim_space raw) then ok 20 else limit_of (parse_int (trim_space raw))

unfoldable pub optional_int_of : Option ℤ → Result QueryError ℕ
optional_int_of none = err limit_not_integer
optional_int_of (some (negsuc n)) = err negative_limit
optional_int_of (some (pos n)) = ok n

-- parseOptionalIntQuery of artifacts, pages and resources.
unfoldable pub parse_optional_int_query : Text → ℕ → Result QueryError ℕ
unfolding trim_space parse_int optional_int_of
parse_optional_int_query raw fallback =
    if is_empty (trim_space raw) then ok fallback else optional_int_of (parse_int (trim_space raw))

-- normalizeLimit, with maxListLimit 50.
unfoldable pub normalize_limit : ℕ → ℕ
normalize_limit n = if n == 0 then 20 else if ltb 50 n then 50 else n

pub record ListQuery : Type 0 where
  pub offset : ℕ
  pub limit : ℕ

abbrev pub as_query_error : Result CursorError ℕ → Result QueryError ℕ
as_query_error (ok n) = ok n
as_query_error (err e) = err invalid_cursor

unfoldable pub parse_offset : Text → Result QueryError ℕ
unfolding decode_offset_cursor
parse_offset cursor = if is_empty cursor then ok 0 else as_query_error (decode_offset_cursor cursor)

-- parseListQuery
unfoldable pub parse_list_query : (Text → Text) → Result QueryError ListQuery
unfolding query_value parse_offset parse_limit
parse_list_query query = do
  offset ← parse_offset (query_value query (codes "pagination.cursor" ∷ codes "cursor" ∷ []))
  limit ← parse_limit (query_value query (codes "pagination.limit" ∷ codes "limit" ∷ []))
  ok (record { offset = offset; limit = limit })

pub record ListPage {ℓ} (A : Type ℓ) : Type ℓ where
  pub items : List A
  pub next_cursor : Option Text

-- paginateCursor
unfoldable pub paginate_cursor : ℕ → ListQuery → Option Text
unfolding int_sum encode_offset_cursor
paginate_cursor count q =
    if not (ltb q.limit count) then none else some (encode_offset_cursor (int_sum q.offset q.limit))

module _ {ℓ} {A : Type ℓ} where
  -- ListProjectActivity of the repository: `OFFSET $2 LIMIT $3`, with one row more than the limit, of
  -- the rows in the order that the query gives them at this request. It orders by the time alone, so
  -- that rows with equal times may stand in another order at the next.
  unfoldable pub select_rows : ListQuery → List A → List A
  select_rows q rows = take (q.limit + 1) (drop q.offset rows)

  -- ListProjectActivity of the service.
  unfoldable pub list_page : ListQuery → List A → ListPage A
  unfolding select_rows paginate_cursor
  list_page q rows =
      let items = select_rows q rows in
      record {
        items = if ltb q.limit (length items) then take q.limit items else items;
        next_cursor = paginate_cursor (length items) q;
      }

  -- ListProjectActivity of the handler, once the caller is known.
  unfoldable pub list_rows : (Text → Text) → List A → Result QueryError (ListPage A)
  unfolding parse_list_query list_page
  list_rows query rows = do q ← parse_list_query query; ok (list_page q rows)
