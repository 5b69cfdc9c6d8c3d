-- ===== src/Policy/Tests.antt =====
-- The validator, the cache policies and the pipeline at concrete routes.
use projectbook_backend.Base.{
  ℕ, suc, ◌≤◌, ◌==◌, length, any, map, All, ◌≡◌, ◌≢◌, ◌↔◌, ◌⊎◌, refl, true, false, if◌then◌else◌,
  none, some, List, [], ◌∷◌, ◌++◌, ok, err, arith,
}
use projectbook_backend.Text.{Text, codes, trim_space}
use projectbook_backend.Rbac.{has_perm, perm, story, edit}
use projectbook_backend.Policy.Metadata.{PolicyType, Metadata}
use projectbook_backend.Policy.Rules.{
  policy_order_stage, out_of_order, auth_missing, validate_policy_ordering, validate_route_rules,
  validate_route_metadata,
}
use projectbook_backend.Policy.Rules.Order.{IsOrdered, MatchFollows, validate_policy_ordering_iff}
use projectbook_backend.Policy.Rules.Safety.{
  IsSafeRoute, validate_route_rules_iff, validate_route_metadata_iff,
}
use projectbook_backend.Policy.Http.{
  Request, Reply, Outcome, replied, panicked, Handler, unsigned, called, strict, Services, allowed,
}
use projectbook_backend.Policy.Gates.{
  get_user_mask, auth_required_policy, project_required_policy, project_match_policy,
  resolve_permissions_policy, require_permission_policy, rate_limit_policy,
}
use projectbook_backend.Policy.Gates.Reach.{Agree, Resolved}
use projectbook_backend.Policy.CacheControl.{
  nonnegative, CacheControlConfig, Directive, plain, freshness, build_cache_control,
  cache_control_policy,
}
use projectbook_backend.Policy.CacheControl.Sound.{IsSound, build_cache_control-IsSound}
use projectbook_backend.Policy.Caching.{
  write_chunk, CacheReadRuntime, cacheable, cached_of, has_header,
}
use projectbook_backend.Policy.Caching.Laws.{join, cacheable_complete}
use projectbook_backend.Policy.Pipeline.{
  RoutePolicy, auth_required, project_required, project_match_from_path, resolve_permissions,
  require_permission, rate_limit, cache_control, custom, describe, chain,
}
use projectbook_backend.Policy.Pipeline.Registry.{annotate_all, describe_policies}
use projectbook_backend.Policy.Pipeline.Authorized.{permits, HandsOn, chain_authorized}

pipeline : Unit {0}
unfolding describe describe_policies annotate_all validate_route_rules validate_route_metadata chain
    get_user_mask auth_required_policy project_required_policy project_match_policy
    resolve_permissions_policy require_permission_policy rate_limit_policy cache_control_policy
    policy_order_stage
pipeline = tt

abbrev pattern : Text
pattern = codes "/projects/{projectId}/stories"

abbrev before : List (RoutePolicy ℕ)
before =
    auth_required strict
    ∷ project_required
    ∷ project_match_from_path (codes "projectId")
    ∷ resolve_permissions
    ∷ []

abbrev edit_story : RoutePolicy ℕ
edit_story = require_permission (perm story edit)

abbrev behind : List (RoutePolicy ℕ)
behind =
    rate_limit 1
    ∷ cache_control (plain (codes "private") ∷ []) (codes "Accept" ∷ [])
    ∷ custom 7 (codes "Trace") (λ next. next)
    ∷ []

abbrev route : List (RoutePolicy ℕ)
route = before ++ edit_story ∷ behind

abbrev metadata : List Metadata
metadata = map describe route

-- The policies that were made, the last first: one overwrites the name in the metadata of another.
abbrev made : List (RoutePolicy ℕ)
made = custom 7 (codes "Log") (λ next. next) ∷ require_permission 1 ∷ route

abbrev loaded_route : List (RoutePolicy ℕ)
loaded_route =
    before
    ++ edit_story ∷ rate_limit 1 ∷ cache_control [] [] ∷ custom 7 (codes "Log") (λ next. next) ∷ []

abbrev found : List Metadata
found = map describe loaded_route

route_described : describe_policies (annotate_all made) route ≡ ok found
unfolding pipeline
route_described = refl

found_valid : validate_route_rules pattern found ≡ ok tt
unfolding pipeline
found_valid = refl

route-HandsOn : All HandsOn route
route-HandsOn =
    (tt, (tt, (tt, (tt, (tt, (tt, (tt, ((λ next next' r same hs w. same hs w), tt))))))))

route_valid : validate_route_rules pattern metadata ≡ ok tt
unfolding pipeline
route_valid = refl

abbrev swapped : List (RoutePolicy ℕ)
swapped = resolve_permissions ∷ auth_required strict ∷ []

swapped_refused :
    validate_route_rules pattern (map describe swapped)
    ≡ err (out_of_order (codes "AuthRequired") PolicyType.resolve_permissions)
unfolding pipeline
swapped_refused = refl

open_refused : validate_route_rules pattern (map describe (edit_story ∷ [])) ≡ err auth_missing
unfolding pipeline
open_refused = refl

-- A route with the project parameter and no policy at all is accepted.
bare_accepted : validate_route_metadata (codes "GET") pattern [] ≡ ok tt
unfolding pipeline
bare_accepted = refl

validate_policy_ordering_iff_example :
    (validate_policy_ordering metadata ≡ ok tt) ↔ (IsOrdered metadata × MatchFollows metadata)
validate_policy_ordering_iff_example = validate_policy_ordering_iff metadata

validate_route_rules_iff_example :
    (validate_route_rules pattern metadata ≡ ok tt) ↔ IsSafeRoute pattern metadata
validate_route_rules_iff_example = validate_route_rules_iff pattern metadata

validate_route_metadata_iff_example :
    (validate_route_metadata (codes "GET") pattern metadata ≡ ok tt) ↔ (
      (trim_space (codes "GET") ≢ [])
      × (trim_space pattern ≢ [])
      × ((metadata ≡ []) ⊎ IsSafeRoute (trim_space pattern) metadata))
validate_route_metadata_iff_example = validate_route_metadata_iff (codes "GET") pattern metadata

-- Services that accept one user, resolve every project to an editor's mask and count their calls.
abbrev demo : Services ℕ
demo = record {
  validate = λ m r. called (
      some (record {
        user_id = codes "u1";
        role = codes "user";
        mask = unsigned 0;
        permissions = [];
      }));
  resolve = λ user project w. (
    ok (record {
      user_id = user;
      project_id = project;
      role = codes "Editor";
      mask = 20016033248999873;
      is_custom = false;
      updated_at_unix = 1;
    }),
    suc w,
  );
  allow = λ rule r w.
      (ok (record { allowed = true; remaining = 1; retry_after = 0; outcome = allowed }), suc w);
  is_json_media = λ t. true;
  encode = λ e. e.message;
}

abbrev page : Outcome
page = replied (record { status = 200; headers = []; chunks = codes "ok" ∷ []; streaming = false })

abbrev serve : Handler ℕ
serve r hs w = (page, w)

-- It panics where the mask lacks the permission.
abbrev careful : Handler ℕ
careful r hs w = if has_perm (get_user_mask r) (perm story edit) then (page, w) else (panicked, w)

serve_agrees :
    Agree (λ r. Resolved demo r × (permits edit_story (get_user_mask r) ≡ true)) serve careful
serve_agrees r hs w (known, granted) = rw granted refl

abbrev request : Request
request = record {
  method = codes "GET";
  content_type = [];
  has_body = false;
  url_param = λ name. codes "p1";
  path_value = λ name. [];
  query = λ name. [];
  principal = none;
}

served : chain demo serve route request [] 0 ≡ (page, 2)
unfolding pipeline perm
served = refl

chain_authorized_example :
    chain demo serve route request [] 0 ≡ chain demo careful route request [] 0
unfolding pipeline
chain_authorized_example =
    chain_authorized demo pattern made before edit_story behind found serve careful route_described
      found_valid route-HandsOn refl serve_agrees request [] 0

abbrev runtime : CacheReadRuntime
runtime = record {
  allowed_methods = codes "GET" ∷ [];
  cache_statuses = 200 ∷ [];
  max_bytes = 3;
  query_params = [];
  require_auth_safety = false;
  fail_open = true;
}

abbrev answer : Reply
answer = record {
  status = 200;
  headers = [];
  chunks = codes "a" ∷ codes "bc" ∷ [];
  streaming = false;
}

too_long : cacheable runtime (record answer { chunks = codes "ab" ∷ codes "cd" ∷ [] }) ≡ false
unfolding cacheable write_chunk
too_long = refl

answer_cacheable : cacheable runtime answer ≡ true
unfolding cacheable write_chunk
answer_cacheable = refl

cacheable_complete_example :
    (any (λ code. code == answer.status) runtime.cache_statuses ≡ true)
    × (answer.streaming ≡ false)
    × (has_header (codes "Set-Cookie") answer.headers ≡ false)
    × (length (join answer.chunks) ≤ runtime.max_bytes)
    × ((cached_of runtime answer).body ≡ join answer.chunks)
    × ((cached_of runtime answer).status ≡ answer.status)
cacheable_complete_example = cacheable_complete runtime answer (omega arith) answer_cacheable

abbrev profile_headers : CacheControlConfig
profile_headers = record {
  is_public = false;
  is_private = true;
  no_store = false;
  no_cache = false;
  must_revalidate = true;
  immutable = false;
  max_age = nonnegative 30000000000;
  shared_max_age = nonnegative 0;
  stale_while_revalidate = nonnegative 0;
  stale_if_error = nonnegative 0;
  vary = codes "Accept" ∷ codes " accept" ∷ [];
}

abbrev profile_built : List Directive × List Text
profile_built = (
  plain (codes "private") ∷ freshness (codes "max-age") 30 ∷ plain (codes "must-revalidate") ∷ [],
  codes "Accept" ∷ [],
)

profile_done : build_cache_control profile_headers ≡ ok profile_built
unfolding build_cache_control
profile_done = refl

build_cache_control-IsSound_example : IsSound profile_headers profile_built
build_cache_control-IsSound_example =
    build_cache_control-IsSound profile_headers profile_built profile_done
