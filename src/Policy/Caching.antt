-- ===== src/Policy/Caching.antt =====
-- internal/core/policy/cache.go: the policies CacheRead and CacheInvalidate. The signals to the
-- metrics (manager.Observe) have no effect on a response and are left out.
pub mod Laws
use projectbook_backend.Base.{
  ℕ, ◌+◌, ltb, leb, ◌==◌, length, any, Bool, true, false, not, ◌&&◌, ◌||◌, Option, none, some, List,
  [], ◌∷◌, ◌++◌, Result, ok, err, if◌then◌else◌,
}
use projectbook_backend.Text.{
  Text, codes, text_eq, is_empty, trim_space, to_lower, to_upper, mem_text,
}
use projectbook_backend.Policy.Http.{
  AuthContext, Request, dependency_failure, new_error, HeaderValue, text, seconds, Headers,
  set_header, get_header, Reply, Outcome, replied, panicked, Policy, Services, write_error,
}

-- cache.CachedResponse
pub record CachedResponse : Type 0 where
  pub status : ℕ
  pub body : Text
  pub content_type : Text

-- What the two policies call of cache.Manager, for one route's configuration: the key of a
-- request, Get, Set with the route's TTL, ResolveTagNames and BumpTags.
pub record CacheManager (W : Type 0) : Type 0 where
  pub build_key : Request → W → Result (Unit {0}) Text × W
  pub get : Text → W → Result (Unit {0}) (Option CachedResponse) × W
  pub set : Text → CachedResponse → W → Result (Unit {0}) (Unit {0}) × W
  pub resolve_tag_names : Request → Result (Unit {0}) (List Text)
  pub bump_tags : List Text → W → Result (Unit {0}) (Unit {0}) × W

-- The parts of cache.CacheReadConfig that the policy itself reads; `fail_open` and
-- `default_max_bytes` are those of the manager.
pub record CacheReadConfig : Type 0 where
  pub methods : List Text
  pub cache_statuses : List ℕ
  pub max_bytes : ℕ
  pub default_max_bytes : ℕ
  pub query_params : List Text
  pub shared_authenticated : Bool
  pub allow_authenticated : Bool
  pub vary_by_user_id : Bool
  pub vary_by_project_id : Bool
  pub fail_open : Option Bool
  pub default_fail_open : Bool

-- cacheReadRuntime
pub record CacheReadRuntime : Type 0 where
  pub allowed_methods : List Text
  pub cache_statuses : List ℕ
  pub max_bytes : ℕ
  pub query_params : List Text
  pub require_auth_safety : Bool
  pub fail_open : Bool

unfoldable pub get_and_head : List Text
get_and_head = codes "GET" ∷ codes "HEAD" ∷ []

-- The loop of buildMethodSet.
unfoldable pub normalized_methods : List Text → List Text
unfolding to_upper trim_space
normalized_methods [] = []
normalized_methods (m ∷ ms) =
    let rest = normalized_methods ms in
    let name = to_upper (trim_space m) in if is_empty name then rest else name ∷ rest

abbrev pub or_default {ℓ} : {A : Type ℓ} → List A → List A → List A
or_default [] d = d
or_default (x ∷ xs) d = x ∷ xs

unfoldable pub build_method_set : List Text → List Text
unfolding normalized_methods get_and_head
build_method_set ms = or_default (normalized_methods ms) get_and_head

unfoldable pub build_cache_status_set : List ℕ → List ℕ
build_cache_status_set statuses = or_default statuses (200 ∷ [])

unfoldable pub resolve_fail_open : Option Bool → Bool → Bool
resolve_fail_open (some b) d = b
resolve_fail_open none d = d

unfoldable pub new_cache_read_runtime : CacheReadConfig → CacheReadRuntime
unfolding build_method_set build_cache_status_set resolve_fail_open
new_cache_read_runtime c = record {
  allowed_methods = build_method_set c.methods;
  cache_statuses = build_cache_status_set c.cache_statuses;
  max_bytes = if c.max_bytes == 0 then c.default_max_bytes else c.max_bytes;
  query_params = c.query_params;
  require_auth_safety =
      not c.shared_authenticated && not c.vary_by_user_id && not c.vary_by_project_id;
  fail_open = resolve_fail_open c.fail_open c.default_fail_open;
}

unfoldable pub method_allowed : CacheReadRuntime → Text → Bool
unfolding mem_text to_upper trim_space
method_allowed c method = mem_text (to_upper (trim_space method)) c.allowed_methods

unfoldable pub has_auth_principal : Request → Bool
unfolding trim_space
has_auth_principal r = elim r.principal [
  | none ↦ false
  | some a ↦
      not (is_empty (trim_space a.user_id))
      || not (is_empty (trim_space a.project_id))
      || not (is_empty (trim_space a.role))
]

unfoldable pub is_cursor_key : Text → Bool
unfolding text_eq to_lower trim_space
is_cursor_key name =
    text_eq (trim_space (to_lower name)) (codes "cursor")
    || text_eq (trim_space (to_lower name)) (codes "pagination.cursor")

unfoldable pub should_bypass_cursor_cache : Request → List Text → Bool
unfolding is_cursor_key trim_space
should_bypass_cursor_cache r query_params =
    any is_cursor_key query_params
    && (not (is_empty (trim_space (r.query (codes "pagination.cursor"))))
        || not (is_empty (trim_space (r.query (codes "cursor")))))

-- The buffer of cachingResponseWriter: the bytes kept so far, and `tooLarge`.
pub record Buffer : Type 0 where
  pub body : Text
  pub too_large : Bool

-- cachingResponseWriter.Write
unfoldable pub write_chunk : ℕ → Buffer → Text → Buffer
write_chunk max_bytes b p =
    if max_bytes == 0 || b.too_large
    then b
    else (if ltb max_bytes (length b.body + length p)
        then record b { too_large = true }
        else record b { body = b.body ++ p })

unfoldable pub write_chunks : ℕ → Buffer → List Text → Buffer
write_chunks max_bytes b [] = b
write_chunks max_bytes b (p ∷ ps) = write_chunks max_bytes (write_chunk max_bytes b p) ps

unfoldable pub buffer_of : CacheReadRuntime → Reply → Buffer
unfolding write_chunks
buffer_of c rep = write_chunks c.max_bytes (record { body = []; too_large = false }) rep.chunks

-- `w.Header().Get("Set-Cookie") != ""`
unfoldable pub has_header : Text → Headers → Bool
unfolding get_header
has_header k hs = elim (get_header k hs) [
  | none ↦ false
  | some v ↦ elim v [ text t ↦ not (is_empty t) | seconds n ↦ true ]
]

-- `Header().Get("Content-Type")`
unfoldable pub header_text : Text → Headers → Text
unfolding get_header
header_text k hs = elim (get_header k hs) [
  | none ↦ []
  | some v ↦ elim v [ text t ↦ t | seconds n ↦ [] ]
]

-- cachingResponseWriter.Cacheable
unfoldable pub cacheable : CacheReadRuntime → Reply → Bool
unfolding buffer_of has_header
cacheable c rep =
    not rep.streaming
    && not (buffer_of c rep).too_large
    && not (has_header (codes "Set-Cookie") rep.headers)
    && any (λ code. code == rep.status) c.cache_statuses

unfoldable pub cached_of : CacheReadRuntime → Reply → CachedResponse
unfolding buffer_of header_text
cached_of c rep = record {
  status = rep.status;
  body = (buffer_of c rep).body;
  content_type = header_text (codes "Content-Type") rep.headers;
}

-- The response to a hit.
unfoldable pub reply_of_cached : CachedResponse → Headers → Reply
unfolding set_header
reply_of_cached cached hs = record {
  status = cached.status;
  headers =
      if is_empty cached.content_type
      then hs
      else set_header (codes "Content-Type") (text cached.content_type) hs;
  chunks = cached.body ∷ [];
  streaming = false;
}

-- Is a status a success, 200 to 299?
unfoldable pub is_success : ℕ → Bool
is_success status = not (ltb status 200 || leb 300 status)

module _ {W : Type 0} (s : Services W) (m : CacheManager W) where
  open m use {build_key, get, set, resolve_tag_names, bump_tags}

  -- After the next handler returned: store what is cacheable.
  unfoldable pub store_outcome : CacheReadRuntime → Text → Outcome → W → Outcome × W
  unfolding cacheable cached_of
  store_outcome c key panicked w = (panicked, w)
  store_outcome c key (replied rep) w =
      if cacheable c rep then (replied rep, (set key (cached_of c rep) w).1) else (replied rep, w)

  unfoldable pub serve_and_store : CacheReadRuntime → Text → Policy W
  unfolding store_outcome
  serve_and_store c key next r hs w = let (out, w') = next r hs w in store_outcome c key out w'

  -- A failure of the cache: 503, or on without it.
  unfoldable pub on_cache_error : CacheReadRuntime → Policy W → Policy W
  unfolding write_error
  on_cache_error c go_on next r hs w =
      if c.fail_open
      then go_on next r hs w
      else write_error s (new_error dependency_failure 503 (codes "cache unavailable")) hs w

  unfoldable pub on_lookup :
      CacheReadRuntime → Text → Result (Unit {0}) (Option CachedResponse) → Policy W
  unfolding on_cache_error serve_and_store reply_of_cached
  on_lookup c key (err e) next r hs w = on_cache_error c (serve_and_store c key) next r hs w
  on_lookup c key (ok none) next r hs w = serve_and_store c key next r hs w
  on_lookup c key (ok (some cached)) next r hs w = (replied (reply_of_cached cached hs), w)

  unfoldable pub on_key : CacheReadRuntime → Result (Unit {0}) Text → Policy W
  unfolding on_cache_error on_lookup
  on_key c (err e) next r hs w = on_cache_error c (λ n. n) next r hs w
  on_key c (ok key) next r hs w = let (found, w') = get key w in on_lookup c key found next r hs w'

  -- CacheRead
  unfoldable pub cache_read_policy : CacheReadRuntime → Policy W
  unfolding method_allowed has_auth_principal should_bypass_cursor_cache on_key
  cache_read_policy c next r hs w =
      if not (method_allowed c r.method)
      then next r hs w
      else if c.require_auth_safety && has_auth_principal r
      then (panicked, w)
      else if should_bypass_cursor_cache r c.query_params
      then next r hs w
      else (let (key, w') = build_key r w in on_key c key next r hs w')

  -- The tags to bump once the handler succeeded; failures only reach the metrics.
  unfoldable pub bump_resolved : Result (Unit {0}) (List Text) → W → W
  bump_resolved (err e) w = w
  bump_resolved (ok []) w = w
  bump_resolved (ok (t ∷ ts)) w = (bump_tags (t ∷ ts) w).1

  unfoldable pub invalidate_after : Request → Outcome → W → Outcome × W
  unfolding is_success bump_resolved
  invalidate_after r panicked w = (panicked, w)
  invalidate_after r (replied rep) w =
      if is_success rep.status
      then (replied rep, bump_resolved (resolve_tag_names r) w)
      else (replied rep, w)

  -- CacheInvalidate
  unfoldable pub cache_invalidate_policy : Policy W
  unfolding invalidate_after
  cache_invalidate_policy next r hs w = let (out, w') = next r hs w in invalidate_after r out w'
