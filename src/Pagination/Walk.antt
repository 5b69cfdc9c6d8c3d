-- ===== src/Pagination/Walk.antt =====
-- A client that follows the cursors of a listing (internal/modules/activity, and the listings that
-- paginate as it does).
use mathlib.Core.Path.{fun_ext}
use projectbook_backend.Base.{
  ℕ, zero, suc, ◌+◌, ◌-◌, ◌≤◌, ◌<◌, ◌≡◌, refl, sym, ap, ◌∙◌, ltb, if◌then◌else◌, length, take,
  Option, none, some, List, [], ◌∷◌, ◌++◌, Result, ok, err, ◌>>=◌, >>=-eq-ok, Bool-cases, inl, inr,
  true, false, arith,
}
use projectbook_backend.Text.{Text, codes, text_eq, is_empty, trim_space}
use projectbook_backend.Text.Decimal.{pos, max_int}
use projectbook_backend.Pagination.{
  encode_offset_cursor, decode_offset_cursor, query_value, QueryError, as_query_error, parse_offset,
  parse_limit, ListQuery, parse_list_query, drop, ListPage, list_page, list_rows,
}
use projectbook_backend.Pagination.Window.{
  trim_space-encode_offset_cursor, encode_offset_cursor-is_empty,
  decode_offset_cursor-encode_offset_cursor, parse_limit-range,
}

-- The same request with the cursor of the page before.
unfoldable pub with_cursor : Text → (Text → Text) → Text → Text
unfolding text_eq
with_cursor cursor query key = if text_eq key (codes "pagination.cursor") then cursor else query key

-- The window that a page without a cursor ends.
module _ {A : Type 0} where
  length-drop : (n : ℕ) (xs : List A) → length (drop n xs) ≡ length xs - n
  length-drop zero xs = omega arith
  length-drop (suc n) [] = omega arith
  length-drop (suc n) (x ∷ xs) = omega (arith, length-drop n xs)

  drop_nil : (n : ℕ) → drop {A = A} n [] ≡ []
  drop_nil zero = refl
  drop_nil (suc n) = refl

  drop-drop : (n m : ℕ) (xs : List A) → drop m (drop n xs) ≡ drop (n + m) xs
  drop-drop zero m xs = ap (λ k. drop k xs) (omega arith)
  drop-drop (suc n) m [] = drop_nil m ∙ sym (drop_nil (suc n + m))
  drop-drop (suc n) m (x ∷ xs) =
      let step : suc (n + m) ≡ suc n + m = omega arith in
      drop-drop n m xs ∙ ap (λ k. drop k (x ∷ xs)) step

  take-drop : (n : ℕ) (xs : List A) → take n xs ++ drop n xs ≡ xs
  take-drop zero xs = refl
  take-drop (suc n) [] = refl
  take-drop (suc n) (x ∷ xs) = ap (λ ys. x ∷ ys) (take-drop n xs)

  take-take : (n m : ℕ) (xs : List A) → n ≤ m → take n (take m xs) ≡ take n xs
  take-take zero m xs h = refl
  take-take (suc n) zero xs h = absurd (omega arith)
  take-take (suc n) (suc m) [] h = refl
  take-take (suc n) (suc m) (x ∷ xs) h = ap (λ ys. x ∷ ys) (take-take n m xs (omega arith))

  take_all : (n : ℕ) (xs : List A) → length xs ≤ n → take n xs ≡ xs
  take_all zero [] h = refl
  take_all zero (x ∷ xs) h = absurd (omega arith)
  take_all (suc n) [] h = refl
  take_all (suc n) (x ∷ xs) h = ap (λ ys. x ∷ ys) (take_all n xs (omega arith))

  length-take : (n : ℕ) (xs : List A) → n ≤ length xs → length (take n xs) ≡ n
  length-take zero xs h = refl
  length-take (suc n) [] h = absurd (omega arith)
  length-take (suc n) (x ∷ xs) h = ap suc (length-take n xs (omega arith))

  -- A last page holds the rest of the rows.
  last_page :
      (q : ListQuery) (rows : List A)
      → length (drop q.offset rows) ≤ q.limit
      → list_page q rows ≡ record { items = drop q.offset rows; next_cursor = none }
  unfolding list_page
  last_page q rows h =
      let all_rows : take (q.limit + 1) (drop q.offset rows) ≡ drop q.offset rows =
        take_all (q.limit + 1) (drop q.offset rows) (omega arith) in
      let no_more : ltb q.limit (length (drop q.offset rows)) ≡ false = ground arith in
      rw (all_rows, no_more) refl

  -- Any other page holds a window of full length, and a cursor for the rows behind it.
  full_page :
      (q : ListQuery) (rows : List A)
      → length rows ≤ max_int
      → q.limit < length (drop q.offset rows)
      → list_page q rows ≡ record {
        items = take q.limit (drop q.offset rows);
        next_cursor = some (encode_offset_cursor (pos (q.offset + q.limit)));
      }
  unfolding list_page
  full_page q rows fits h =
      let window = take (q.limit + 1) (drop q.offset rows) in
      let count : length window ≡ q.limit + 1 =
        length-take (q.limit + 1) (drop q.offset rows) (omega arith) in
      let more : ltb q.limit (q.limit + 1) ≡ true = ground arith in
      let known : length (drop q.offset rows) ≡ length rows - q.offset =
        length-drop q.offset rows in
      let no_wrap : ltb max_int (q.offset + q.limit) ≡ false = ground arith in
      rw (count, more, no_wrap, take-take q.limit (q.limit + 1) (drop q.offset rows) (omega arith))
        refl

  -- The rest of the listing behind a page, where `ask` requests the page of a cursor.
  abbrev on_next :
      (Text → Result QueryError (List A)) → List A → Option Text → Result QueryError (List A)
  on_next ask items none = ok items
  on_next ask items (some cursor) = do rest ← ask cursor; ok (items ++ rest)

  abbrev on_page :
      (Text → Result QueryError (List A))
      → Result QueryError (ListPage A)
      → Result QueryError (List A)
  on_page ask (err e) = err e
  on_page ask (ok page) = on_next ask page.items page.next_cursor

  -- The rows that a client collects: it asks, and while a page has a cursor it asks again with it.
  -- The fuel is the number of requests. The query is run anew for each page: `listing k` is the whole
  -- of what it orders when k requests are left after it.
  unfoldable pub follow : ℕ → (Text → Text) → (ℕ → List A) → Result QueryError (List A)
  unfolding list_rows with_cursor
  follow zero query listing = ok []
  follow (suc k) query listing =
      on_page (λ cursor. follow k (with_cursor cursor query) listing) (list_rows query (listing k))

cursor_value :
    (c : Text) (query : Text → Text)
    → trim_space c ≡ c
    → is_empty c ≡ false
    → query_value (with_cursor c query) (codes "pagination.cursor" ∷ codes "cursor" ∷ []) ≡ c
unfolding query_value with_cursor
cursor_value c query trimmed full = rw (trimmed, full) refl

offset_of_cursor :
    (c : Text) (n : ℕ) → is_empty c ≡ false → decode_offset_cursor c ≡ ok n → parse_offset c ≡ ok n
unfolding parse_offset
offset_of_cursor c n full e = rw full (ap as_query_error e)

limit_value : (Text → Text) → Text
limit_value query = query_value query (codes "pagination.limit" ∷ codes "limit" ∷ [])

limit_value-with_cursor :
    (c : Text) (query : Text → Text) → limit_value (with_cursor c query) ≡ limit_value query
unfolding limit_value query_value with_cursor
limit_value-with_cursor c query = refl

abbrev limit_in : Result QueryError ListQuery → ℕ
limit_in (ok q) = q.limit
limit_in (err e) = 0

record_limit :
    (query : Text → Text) (q : ListQuery)
    → parse_list_query query ≡ ok q
    → parse_limit (limit_value query) ≡ ok q.limit
unfolding parse_list_query limit_value
record_limit query q e =
    let (o, _, e1) =
      >>=-eq-ok (parse_offset (query_value query (codes "pagination.cursor" ∷ codes "cursor" ∷ [])))
        _ e in
    let (l, e2, e3) = >>=-eq-ok (parse_limit (limit_value query)) _ e1 in
    e2 ∙ ap (λ r. ok (limit_in r)) e3

query_of :
    (query : Text → Text) (c : Text) (n l : ℕ)
    → query_value query (codes "pagination.cursor" ∷ codes "cursor" ∷ []) ≡ c
    → parse_offset c ≡ ok n
    → parse_limit (limit_value query) ≡ ok l
    → parse_list_query query ≡ ok (record { offset = n; limit = l })
unfolding parse_list_query limit_value
query_of query c n l e f g =
    ap
      (λ r.
        r >>= λ o. parse_limit (limit_value query) >>= λ m. ok (record { offset = o; limit = m }))
      (ap parse_offset e ∙ f)
    ∙ ap (λ r. r >>= λ m. ok (record { offset = n; limit = m })) g

cursor_query :
    (n : ℕ) (query : Text → Text) (q : ListQuery)
    → n ≤ max_int
    → parse_list_query query ≡ ok q
    → parse_list_query (with_cursor (encode_offset_cursor (pos n)) query)
      ≡ ok (record { offset = n; limit = q.limit })
cursor_query n query q h e =
    let c = encode_offset_cursor (pos n) in
    let full = encode_offset_cursor-is_empty n in
    query_of (with_cursor c query) c n q.limit
      (cursor_value c query (trim_space-encode_offset_cursor n) full)
      (offset_of_cursor c n full (decode_offset_cursor-encode_offset_cursor n h))
      (ap parse_limit (limit_value-with_cursor c query) ∙ record_limit query q e)

ltb-true : (a b : ℕ) → ltb a b ≡ true → a < b
ltb-true a b h = ground arith

ltb-false : (a b : ℕ) → ltb a b ≡ false → b ≤ a
ltb-false a b h = ground arith

module _ {A : Type 0} where
  answer :
      (query : Text → Text) (q : ListQuery) (rows : List A)
      → parse_list_query query ≡ ok q
      → list_rows query rows ≡ ok (list_page q rows)
  unfolding list_rows
  answer query q rows e = ap (λ r. r >>= λ lq. ok (list_page lq rows)) e

  drop_all : (n : ℕ) (xs : List A) → length xs ≤ n → drop n xs ≡ []
  drop_all zero [] h = refl
  drop_all zero (x ∷ xs) h = absurd (omega arith)
  drop_all (suc n) [] h = refl
  drop_all (suc n) (x ∷ xs) h = drop_all n xs (omega arith)

  follow_fixed :
      (k : ℕ) (query : Text → Text) (q : ListQuery) (rows : List A)
      → parse_list_query query ≡ ok q
      → length rows ≤ max_int
      → length rows < k + q.offset
      → follow k query (λ _. rows) ≡ ok (drop q.offset rows)
  unfolding follow
  follow_fixed zero query q rows e fits enough = sym (ap ok (drop_all q.offset rows (omega arith)))
  follow_fixed (suc k) query q rows e fits enough =
      let ask : Text → Result QueryError (List A) =
        λ c. follow k (with_cursor c query) (λ _. rows) in
      let (positive, _) = parse_limit-range (limit_value query) q.limit (record_limit query q e) in
      let known : length (drop q.offset rows) ≡ length rows - q.offset =
        length-drop q.offset rows in
      elim (Bool-cases (ltb q.limit (length (drop q.offset rows)))) [
        | inr last ↦
            ap (on_page ask) (answer query q rows e)
            ∙ ap (λ p. on_page ask (ok p)) (last_page q rows (ltb-false q.limit _ last))
        | inl more ↦
            let next = q.offset + q.limit in
            let behind : q.limit < length (drop q.offset rows) = ltb-true q.limit _ more in
            let c = encode_offset_cursor (pos next) in
            ap (on_page ask) (answer query q rows e)
            ∙ ap (λ p. on_page ask (ok p)) (full_page q rows fits behind)
            ∙ ap (λ r. r >>= λ rest. ok (take q.limit (drop q.offset rows) ++ rest))
                (follow_fixed k (with_cursor c query) (record { offset = next; limit = q.limit })
                  rows (cursor_query next query q (omega arith) e) fits (omega arith))
            ∙ ap (λ ys. ok (take q.limit (drop q.offset rows) ++ ys))
                (sym (drop-drop q.offset q.limit rows))
            ∙ ap ok (take-drop q.limit (drop q.offset rows))
      ]

  -- If the query orders the same rows in the same way at every request, so that no row is added or
  -- deleted between two pages and rows with equal times keep their places, then whoever follows the
  -- cursors from a valid request on, page by page, collects the rows from its offset on, each once and
  -- in order. As many requests as there are rows, and one more, are enough, whatever the limit is. The
  -- rows are no more than an int can count.
  pub follow-eq-drop :
      (k : ℕ) (query : Text → Text) (q : ListQuery) (rows : List A) (listing : ℕ → List A)
      → ((i : ℕ) → listing i ≡ rows)
      → parse_list_query query ≡ ok q
      → length rows ≤ max_int
      → length rows < k + q.offset
      → follow k query listing ≡ ok (drop q.offset rows)
  follow-eq-drop k query q rows listing same e fits enough =
      ap (follow k query) (fun_ext same) ∙ follow_fixed k query q rows e fits enough
