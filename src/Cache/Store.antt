-- ===== src/Cache/Store.antt =====
-- internal/core/cache/manager.go: the versions of tags in Redis with the tokens kept in the process
-- (tagVersionTokenNormalized, BumpTags), and the stored responses (Get, Set). Times are numbers of
-- nanoseconds; a call reads the clock once.
use projectbook_backend.Base.{
  ℕ, ◌+◌, ◌*◌, ltb, ◌==◌, if◌then◌else◌, map, Bool, not, ◌||◌, Option, none, some, List, [], ◌∷◌,
  ◌++◌, Result, ok, err, filter,
}
use projectbook_backend.Text.{Text, codes, text_eq, is_empty, trim_space}
use projectbook_backend.Text.Join.{join_texts}
use projectbook_backend.Text.Unique.{unique_strings}
use projectbook_backend.Text.Decimal.{ℤ, pos, negsuc, format_int, parse_int}
use projectbook_backend.Policy.Caching.{CachedResponse}
use projectbook_backend.Cache.Tags.{KeyError, version_lookup_failed}

-- The elements of the answer of MGET.
pub data MgetValue : Type 0 where
  nil other_value : MgetValue
  string_value : Text → MgetValue
  integer_value : ℤ → MgetValue

-- The commands of Redis over the state W of the server: MGET, a pipeline of INCR, GET and SET with a
-- time to live.
pub record RedisClient (W : Type 0) : Type 0 where
  pub mget : List Text → W → Result (Unit {0}) (List MgetValue) × W
  pub exec_incr : List Text → W → Result (Unit {0}) (Unit {0}) × W
  pub get : Text → W → Result (Unit {0}) (Option Text) × W
  pub set : Text → Text → ℕ → W → Result (Unit {0}) (Unit {0}) × W

-- tagTokenCacheEntry
pub record TokenEntry : Type 0 where
  pub cache_key : Text
  pub token : Text
  pub expires_at : ℕ

-- ManagerConfig
pub record ManagerConfig : Type 0 where
  pub env : Text
  pub fail_open : Bool
  pub default_max_bytes : ℤ
  pub tag_version_cache_ttl : ℤ

-- Manager, but for its client and its tokens.
pub record Manager : Type 0 where
  pub env : Text
  pub fail_open : Bool
  pub default_max_bytes : ℕ
  pub tag_token_ttl : ℕ

-- The server, the map tagTokenCache of this process, and the clock.
pub record CacheState (W : Type 0) : Type 0 where
  pub server : W
  pub tokens : List TokenEntry
  pub now : ℕ

pub data ManagerError : Type 0 where
  client_required : ManagerError

abbrev pub nonnegative_or : ℕ → ℤ → ℕ
nonnegative_or d (pos n) = n
nonnegative_or d (negsuc n) = d

abbrev pub positive_or : ℕ → ℕ → ℕ
positive_or d n = if n == 0 then d else n

-- NewManager
unfoldable pub new_manager : Bool → ManagerConfig → Result ManagerError Manager
unfolding trim_space
new_manager has_client c =
    if has_client
    then ok (record {
      env = if is_empty (trim_space c.env) then codes "dev" else trim_space c.env;
      fail_open = c.fail_open;
      default_max_bytes = positive_or (256 * 1024) (nonnegative_or 0 c.default_max_bytes);
      tag_token_ttl = nonnegative_or 0 c.tag_version_cache_ttl;
    })
    else err client_required

-- tagVersionKey
unfoldable pub tag_version_key : Manager → Text → Text
tag_version_key m tag = codes "cver:" ++ m.env ++ codes ":" ++ tag

unfoldable pub parsed_version : Option ℤ → ℕ
parsed_version none = 0
parsed_version (some (negsuc n)) = 0
parsed_version (some (pos n)) = n

-- The version that an element of MGET tells, 0 where it tells none.
unfoldable pub version_of : MgetValue → ℕ
unfolding parsed_version parse_int trim_space
version_of nil = 0
version_of other_value = 0
version_of (string_value s) = parsed_version (parse_int (trim_space s))
version_of (integer_value n) = parsed_version (some n)

abbrev pub version_part : Text → ℕ → Text
version_part tag version = tag ++ (61 ∷ format_int version)

-- The loop that pairs the tags with the answer.
unfoldable pub version_parts : List Text → List MgetValue → List Text
unfolding version_of format_int
version_parts [] vals = []
version_parts (t ∷ ts) [] = version_part t 0 ∷ version_parts ts []
version_parts (t ∷ ts) (v ∷ vs) = version_part t (version_of v) ∷ version_parts ts vs

-- storeTagToken; the map has one entry for a key.
unfoldable pub store_tag_token : Manager → ℕ → Text → Text → List TokenEntry → List TokenEntry
unfolding text_eq trim_space
store_tag_token m now key token entries =
    if m.tag_token_ttl == 0 || is_empty (trim_space key)
    then entries
    else record { cache_key = key; token = token; expires_at = now + m.tag_token_ttl }
      ∷ filter (λ e. not (text_eq e.cache_key key)) entries

-- The token under a key, unless it has expired.
unfoldable pub find_token : ℕ → Text → List TokenEntry → Option Text
unfolding text_eq
find_token now key [] = none
find_token now key (e ∷ entries) =
    let rest = find_token now key entries in
    if text_eq e.cache_key key then (if ltb e.expires_at now then none else some e.token) else rest

-- tagTokenFromCache; an expired entry is deleted when it is met, which no later call can tell.
unfoldable pub tag_token_from_cache : Manager → ℕ → Text → List TokenEntry → Option Text
unfolding find_token trim_space
tag_token_from_cache m now key entries =
    if m.tag_token_ttl == 0 || is_empty (trim_space key) then none else find_token now key entries

module _ {W : Type 0} (redis : RedisClient W) (m : Manager) where
  open redis use {mget, exec_incr}

  -- The lines behind MGET.
  unfoldable pub on_versions :
      List Text
      → CacheState W
      → Result (Unit {0}) (List MgetValue)
      → W
      → Result KeyError Text × CacheState W
  unfolding version_parts join_texts store_tag_token
  on_versions tags st (err e) w = (err version_lookup_failed, record st { server = w })
  on_versions tags st (ok vals) w =
      let token = join_texts 44 (version_parts tags vals) in
      (
        ok token,
        record {
          server = w;
          tokens = store_tag_token m st.now (join_texts 31 tags) token st.tokens;
          now = st.now;
        },
      )

  unfoldable pub on_token :
      List Text → CacheState W → Option Text → Result KeyError Text × CacheState W
  unfolding on_versions tag_version_key
  on_token tags st (some token) = (ok token, st)
  on_token tags st none =
      let (vals, w) = mget (map (tag_version_key m) tags) st.server in on_versions tags st vals w

  -- tagVersionTokenNormalized
  unfoldable pub tag_version_token : List Text → CacheState W → Result KeyError Text × CacheState W
  unfolding on_token tag_token_from_cache join_texts
  tag_version_token [] st = (ok [], st)
  tag_version_token (t ∷ ts) st =
      on_token (t ∷ ts) st (tag_token_from_cache m st.now (join_texts 31 (t ∷ ts)) st.tokens)

  -- The end of BumpTags: every token is dropped once the pipeline succeeded.
  unfoldable pub on_bump :
      CacheState W → Result (Unit {0}) (Unit {0}) → W → Result (Unit {0}) (Unit {0}) × CacheState W
  on_bump st (ok u) w = (ok u, record { server = w; tokens = []; now = st.now })
  on_bump st (err e) w = (err e, record st { server = w })

  unfoldable pub bump_names : List Text → CacheState W → Result (Unit {0}) (Unit {0}) × CacheState W
  unfolding on_bump tag_version_key
  bump_names [] st = (ok tt, st)
  bump_names (t ∷ ts) st =
      let (r, w) = exec_incr (map (tag_version_key m) (t ∷ ts)) st.server in on_bump st r w

  -- BumpTags
  unfoldable pub bump_tags : List Text → CacheState W → Result (Unit {0}) (Unit {0}) × CacheState W
  unfolding bump_names unique_strings
  bump_tags tags st = bump_names (unique_strings tags) st

-- The JSON of a stored response, whose status may be any integer.
pub record ResponseCodec : Type 0 where
  pub marshal : CachedResponse → Text
  pub unmarshal : Text → Option (ℤ × CachedResponse)

-- A response is taken when its status is positive.
unfoldable pub stored_response :
    Option (ℤ × CachedResponse) → Result (Unit {0}) (Option CachedResponse)
stored_response none = err tt
stored_response (some (negsuc n, item)) = ok none
stored_response (some (pos n, item)) =
    if n == 0 then ok none else ok (some (record item { status = n }))

module _ {W : Type 0} (redis : RedisClient W) (codec : ResponseCodec) where
  unfoldable pub on_payload :
      Result (Unit {0}) (Option Text) → Result (Unit {0}) (Option CachedResponse)
  unfolding stored_response
  on_payload (err e) = err e
  on_payload (ok none) = ok none
  on_payload (ok (some payload)) = stored_response (codec.unmarshal payload)

  -- Manager.Get
  unfoldable pub get_response :
      Text → CacheState W → Result (Unit {0}) (Option CachedResponse) × CacheState W
  unfolding on_payload
  get_response key st =
      let (found, w) = redis.get key st.server in (on_payload found, record st { server = w })

  -- Manager.Set, for a time to live in nanoseconds.
  unfoldable pub set_response :
      Text → CachedResponse → ℤ → CacheState W → Result (Unit {0}) (Unit {0}) × CacheState W
  set_response key value ttl st =
      if nonnegative_or 0 ttl == 0
      then (err tt, st)
      else (let (r, w) = redis.set key (codec.marshal value) (nonnegative_or 0 ttl) st.server in
          (r, record st { server = w }))
