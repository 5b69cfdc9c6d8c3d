-- ===== src/Policy/CacheControl.antt =====
-- internal/core/policy/cachecontrol.go: the Cache-Control and Vary headers of a route. A directive is
-- kept as its name and its seconds, and printed when it is written; a duration is a number of
-- nanoseconds.
pub mod Sound
use projectbook_backend.Base.{
  ℕ, ◌/◌, ltb, ◌==◌, ◌≡◌, refl, sym, ◌∙◌, inl, inr, Bool, true, false, not, ◌&&◌, ◌||◌, Bool-cases,
  List, [], ◌∷◌, ◌++◌, all, any, length, if◌then◌else◌, Result, ok, ◌>>◌, All, guard, arith,
}
use projectbook_backend.Base.Rows.{guard-Yields, ok-Yields}
use projectbook_backend.Text.Decimal.{format_int}
use projectbook_backend.Policy.Http.{
  HeaderValue, text, seconds, Headers, header_values, add_header, set_header, Policy,
}
use projectbook_backend.Text.{
  Text, codes, equal_fold, is_empty, trim_space, to_lower, text_eq, mem_text,
}
use projectbook_backend.Text.Unique.{HasNoRepeat}

-- time.Duration
pub data Duration : Type 0 where
  nonnegative negative : ℕ → Duration

unfoldable pub is_negative : Duration → Bool
is_negative (nonnegative n) = false
is_negative (negative n) = true

unfoldable pub is_positive : Duration → Bool
is_positive (nonnegative n) = ltb 0 n
is_positive (negative n) = false

-- `int(d.Seconds())`
unfoldable pub whole_seconds : Duration → ℕ
whole_seconds (nonnegative n) = n / 1000000000
whole_seconds (negative n) = 0

-- CacheControlConfig
pub record CacheControlConfig : Type 0 where
  pub is_public : Bool
  pub is_private : Bool
  pub no_store : Bool
  pub no_cache : Bool
  pub must_revalidate : Bool
  pub immutable : Bool
  pub max_age : Duration
  pub shared_max_age : Duration
  pub stale_while_revalidate : Duration
  pub stale_if_error : Duration
  pub vary : List Text

pub data Directive : Type 0 where
  plain : Text → Directive
  freshness : Text → ℕ → Directive
  immutable_content : Directive

-- errInvalidCacheControl
pub data CacheControlError : Type 0 where
  negative_duration public_and_private no_store_with_freshness nothing_set : CacheControlError

unfoldable pub normalize_from : List Text → List Text → List Text
unfolding mem_text trim_space to_lower
normalize_from seen [] = []
normalize_from seen (item ∷ items) =
    let trimmed = trim_space item in
    let skipped = is_empty trimmed || mem_text (to_lower trimmed) seen in
    let rest = normalize_from (if skipped then seen else to_lower trimmed ∷ seen) items in
    if skipped then rest else trimmed ∷ rest

-- normalizeHeaderList
unfoldable pub normalize_header_list : List Text → List Text
unfolding normalize_from
normalize_header_list items = normalize_from [] items

abbrev pub when : Bool → Directive → List Directive
when b d = if b then d ∷ [] else []

unfoldable pub timed : CacheControlConfig → Text → Duration → List Directive
unfolding is_positive whole_seconds
timed cfg name d = when (is_positive d && not cfg.no_store) (freshness name (whole_seconds d))

abbrev pub join : List (List Directive) → List Directive
join [] = []
join (ds ∷ dss) = ds ++ join dss

-- The directives in the order of their appends.
unfoldable pub pieces : CacheControlConfig → List (List Directive)
unfolding timed
pieces cfg =
    when cfg.is_public (plain (codes "public"))
    ∷ when cfg.is_private (plain (codes "private"))
    ∷ when cfg.no_store (plain (codes "no-store"))
    ∷ when cfg.no_cache (plain (codes "no-cache"))
    ∷ timed cfg (codes "max-age") cfg.max_age
    ∷ timed cfg (codes "s-maxage") cfg.shared_max_age
    ∷ timed cfg (codes "stale-while-revalidate") cfg.stale_while_revalidate
    ∷ timed cfg (codes "stale-if-error") cfg.stale_if_error
    ∷ when cfg.must_revalidate (plain (codes "must-revalidate"))
    ∷ when (cfg.immutable && not cfg.no_store) immutable_content
    ∷ []

unfoldable pub directives : CacheControlConfig → List Directive
unfolding pieces
directives cfg = join (pieces cfg)

unfoldable pub any_negative : CacheControlConfig → Bool
unfolding is_negative
any_negative cfg =
    is_negative cfg.max_age
    || is_negative cfg.shared_max_age
    || is_negative cfg.stale_while_revalidate
    || is_negative cfg.stale_if_error

unfoldable pub any_freshness : CacheControlConfig → Bool
unfolding is_positive
any_freshness cfg =
    is_positive cfg.max_age
    || is_positive cfg.shared_max_age
    || cfg.immutable
    || is_positive cfg.stale_while_revalidate
    || is_positive cfg.stale_if_error

-- buildCacheControl
unfoldable pub build_cache_control :
    CacheControlConfig → Result CacheControlError (List Directive × List Text)
unfolding any_negative any_freshness directives normalize_header_list
build_cache_control cfg = do
  guard (not (any_negative cfg)) negative_duration
  guard (not (cfg.is_public && cfg.is_private)) public_and_private
  guard (not (cfg.no_store && any_freshness cfg)) no_store_with_freshness
  guard (not ((length (directives cfg) == 0) && (length (normalize_header_list cfg.vary) == 0)))
      nothing_set
  ok (directives cfg, normalize_header_list cfg.vary)

-- A directive as it is written in the header.
unfoldable pub print_directive : Directive → Text
unfolding format_int
print_directive (plain t) = t
print_directive (freshness t n) = t ++ codes "=" ++ format_int n
print_directive immutable_content = codes "immutable"

-- strings.Join with ", ".
unfoldable pub print_directives : List Directive → Text
unfolding print_directive
print_directives [] = []
print_directives (d ∷ []) = print_directive d
print_directives (d ∷ e ∷ ds) = print_directive d ++ codes ", " ++ print_directives (e ∷ ds)

abbrev before_part : ℕ → List Text → List Text
before_part c [] = (c ∷ []) ∷ []
before_part c (w ∷ ws) = (c ∷ w) ∷ ws

-- strings.Split at commas.
unfoldable pub split_commas : Text → List Text
split_commas [] = [] ∷ []
split_commas (c ∷ s) =
    let rest = split_commas s in if c == 44 then [] ∷ rest else before_part c rest

-- The value of a header as its client reads it.
unfoldable pub print_value : HeaderValue → Text
unfolding format_int
print_value (text t) = t
print_value (seconds n) = format_int n

unfoldable pub varies_by : Text → List HeaderValue → Bool
unfolding print_value split_commas trim_space equal_fold
varies_by value vs =
    any (λ v. any (λ part. equal_fold (trim_space part) value) (split_commas (print_value v))) vs

-- appendVaryHeader
unfoldable pub append_vary_header : Text → Headers → Headers
unfolding varies_by header_values add_header
append_vary_header value hs =
    if varies_by value (header_values (codes "Vary") hs)
    then hs
    else add_header (codes "Vary") (text value) hs

unfoldable pub append_vary_headers : List Text → Headers → Headers
unfolding append_vary_header
append_vary_headers [] hs = hs
append_vary_headers (v ∷ vs) hs = append_vary_headers vs (append_vary_header v hs)

unfoldable pub set_directives : Text → Headers → Headers
unfolding set_header
set_directives directive hs =
    if is_empty directive then hs else set_header (codes "Cache-Control") (text directive) hs

-- CacheControl, with the directives and the names that were built.
unfoldable pub cache_control_policy : {W : Type 0} → List Directive → List Text → Policy W
unfolding print_directives set_directives append_vary_headers
cache_control_policy ds vary next r hs w =
    next r (append_vary_headers vary (set_directives (print_directives ds) hs)) w
