-- ===== src/Policy/Gates.antt =====
-- The policies that let a request through or answer it: policy.go, auth.go, permissions.go,
-- rbac.go and ratelimit.go of internal/core/policy, with internal/core/projectscope.
pub mod Reach
pub mod Keep
use projectbook_backend.Base.{
  ℕ, ◌+◌, ◌/◌, ltb, ◌==◌, Bool, true, false, not, ◌&&◌, ◌||◌, Option, none, some, List, [], ◌∷◌,
  ◌++◌, Result, ok, err, if◌then◌else◌,
}
use projectbook_backend.Text.{Text, codes, text_eq, is_empty, trim_space, equal_fold}
use projectbook_backend.Rbac.{has_perm}
use projectbook_backend.Policy.Http.{
  AuthContext, Request, with_context, unsupported_media, unauthorized, forbidden, internal,
  dependency_failure, bad_request, too_many_requests, Code, AppError, new_error, HeaderValue, text,
  seconds, Headers, set_header, Reply, Outcome, replied, Handler, Policy, GuardOutcome, MaskValue,
  unsigned, nonnegative, negative, AuthResult, called, refused, Mode, jwt_only, hybrid, strict,
  RouteMode, mode_inherit, mode_jwt_only, mode_strict, Resolution, ResolveError,
  membership_not_found, mask_inconsistent, Decision, LimitOutcome, allowed, blocked, fail_open,
  error, Services, write_error,
}

-- projectscope.IsSameProject
unfoldable pub is_same_project : Text → Text → Bool
unfolding text_eq trim_space
is_same_project a b = not (is_empty (trim_space a)) && text_eq (trim_space a) (trim_space b)

-- The first of the trimmed values that is not empty.
unfoldable pub first_non_empty : List Text → Option Text
unfolding trim_space
first_non_empty [] = none
first_non_empty (v ∷ vs) =
    if is_empty (trim_space v) then first_non_empty vs else some (trim_space v)

-- requestProjectID
unfoldable pub request_project_id : Request → Option Text
unfolding first_non_empty
request_project_id r = first_non_empty (
    r.url_param (codes "project_id")
    ∷ r.path_value (codes "project_id")
    ∷ r.url_param (codes "projectId")
    ∷ r.path_value (codes "projectId")
    ∷ [])

unfoldable pub mask_value_to_uint64 : MaskValue → ℕ
mask_value_to_uint64 (unsigned n) = n
mask_value_to_uint64 (nonnegative n) = n
mask_value_to_uint64 (negative n) = 0
mask_value_to_uint64 MaskValue.other = 0

unfoldable pub route_mode : Mode → RouteMode
route_mode jwt_only = mode_jwt_only
route_mode strict = mode_strict
route_mode hybrid = mode_inherit

-- The principal that AuthRequired puts in the context.
unfoldable pub principal_of : AuthResult → AuthContext
unfolding mask_value_to_uint64
principal_of a = record {
  user_id = a.user_id;
  project_id = [];
  role = a.role;
  permission_mask = mask_value_to_uint64 a.mask;
  permissions = a.permissions;
}

-- GetUserMask
unfoldable pub get_user_mask : Request → ℕ
get_user_mask r = elim r.principal [ none ↦ 0 | some a ↦ a.permission_mask ]

unfoldable pub normalize_required_permissions : List ℕ → List ℕ
normalize_required_permissions [] = []
normalize_required_permissions (p ∷ ps) =
    let rest = normalize_required_permissions ps in if p == 0 then rest else p ∷ rest

-- The loops over the required permissions.
unfoldable pub has_any_perm : ℕ → List ℕ → Bool
unfolding has_perm
has_any_perm mask [] = false
has_any_perm mask (p ∷ ps) = has_perm mask p || has_any_perm mask ps

unfoldable pub has_all_perms : ℕ → List ℕ → Bool
unfolding has_perm
has_all_perms mask [] = true
has_all_perms mask (p ∷ ps) = has_perm mask p && has_all_perms mask ps

-- RetryAfterSeconds: whole seconds, rounded up.
unfoldable pub retry_after_seconds : ℕ → ℕ
retry_after_seconds d = (d + 999999999) / 1000000000

unfoldable pub requires_json_body : Request → Bool
unfolding text_eq
requires_json_body r =
    text_eq r.method (codes "POST")
    || text_eq r.method (codes "PUT")
    || text_eq r.method (codes "PATCH")
    || r.has_body

abbrev pub authentication_required : AppError
authentication_required = new_error unauthorized 401 (codes "authentication required")

abbrev pub forbidden_error : AppError
forbidden_error = new_error forbidden 403 (codes "forbidden")

abbrev pub scope_required : AppError
scope_required = new_error forbidden 403 (codes "project scope required")

abbrev pub scope_mismatch : AppError
scope_mismatch = new_error forbidden 403 (codes "project scope mismatch")

-- The mapping of the resolver's errors.
unfoldable pub resolve_error : ResolveError → AppError
resolve_error membership_not_found = new_error forbidden 403 (codes "project membership required")
resolve_error mask_inconsistent = new_error internal 500 (codes "permission mask unavailable")
resolve_error ResolveError.dependency_failure =
    new_error dependency_failure 503 (codes "permission resolver unavailable")
resolve_error ResolveError.other = new_error internal 500 (codes "permission resolution failed")

-- The principal after a resolution for `project`.
unfoldable pub apply_resolution : AuthContext → Text → Resolution → AuthContext
unfolding trim_space
apply_resolution a project res = record a {
  permission_mask = res.mask;
  role = if is_empty (trim_space res.role) then a.role else trim_space res.role;
  project_id = if is_empty (trim_space res.project_id) then project else trim_space res.project_id;
}

abbrev is_error_outcome : LimitOutcome → Bool
is_error_outcome error = true
is_error_outcome _ = false

module _ {W : Type 0} (s : Services W) where
  open s use {validate, resolve, allow, is_json_media}

  -- Noop
  unfoldable pub noop_policy : Policy W
  noop_policy next r hs w = next r hs w

  -- RequireJSON
  unfoldable pub require_json_policy : Policy W
  unfolding requires_json_body trim_space write_error
  require_json_policy next r hs w =
      if not (requires_json_body r)
      then next r hs w
      else (if not (is_empty (trim_space r.content_type))
            && is_json_media (trim_space r.content_type)
          then next r hs w
          else write_error s
              (new_error unsupported_media 415 (codes "content type must be application/json")) hs
              w)

  -- WithHeader
  unfoldable pub with_header_policy : Text → Text → Policy W
  unfolding set_header
  with_header_policy key value next r hs w = next r (set_header key (text value) hs) w

  -- The handler inside the guard.
  unfoldable pub on_auth_result : Option AuthResult → Policy W
  unfolding principal_of trim_space write_error
  on_auth_result none next r hs w = write_error s authentication_required hs w
  on_auth_result (some a) next r hs w =
      if is_empty (trim_space a.user_id)
      then write_error s authentication_required hs w
      else next (with_context (principal_of a) r) hs w

  -- The response of a guard that did not call: a 401 is replaced, another status stands.
  unfoldable pub on_refusal : ℕ → Headers → W → Outcome × W
  unfolding write_error
  on_refusal status hs w =
      if status == 401
      then write_error s authentication_required hs w
      else (replied (record { status = status; headers = hs; chunks = []; streaming = false }), w)

  unfoldable pub on_guard : GuardOutcome → Policy W
  unfolding on_auth_result on_refusal
  on_guard (called result) next r hs w = on_auth_result result next r hs w
  on_guard (refused status) next r hs w = on_refusal status hs w

  -- AuthRequired
  unfoldable pub auth_required_policy : Mode → Policy W
  unfolding route_mode on_guard
  auth_required_policy mode next r hs w = on_guard (validate (route_mode mode) r) next r hs w

  -- A policy that answers 401 when the context has no principal.
  unfoldable pub for_principal : (AuthContext → Policy W) → Option AuthContext → Policy W
  unfolding write_error
  for_principal f none next r hs w = write_error s authentication_required hs w
  for_principal f (some a) next r hs w = f a next r hs w

  -- ProjectRequired with the project id of the path.
  unfoldable pub on_path_project : AuthContext → Option Text → Policy W
  unfolding is_same_project write_error
  on_path_project a none next r hs w = write_error s scope_required hs w
  on_path_project a (some p) next r hs w =
      if not (is_empty (trim_space a.project_id))
        && not (is_same_project (trim_space a.project_id) p)
      then write_error s scope_mismatch hs w
      else next (with_context (record a { project_id = p }) r) hs w

  -- ProjectRequired with a principal in the context.
  unfoldable pub project_required_with : AuthContext → Policy W
  unfolding request_project_id on_path_project write_error
  project_required_with a next r hs w =
      if is_empty (trim_space a.user_id)
      then write_error s authentication_required hs w
      else on_path_project a (request_project_id r) next r hs w

  -- ProjectRequired
  unfoldable pub project_required_policy : Policy W
  unfolding for_principal project_required_with
  project_required_policy next r hs w = for_principal project_required_with r.principal next r hs w

  -- ProjectMatchFromPath with a principal in the context.
  unfoldable pub project_match_with : Text → AuthContext → Policy W
  unfolding is_same_project trim_space write_error
  project_match_with param a next r hs w =
      let resource = trim_space (r.url_param param) in
      if is_empty resource
      then write_error s (new_error bad_request 400 (param ++ codes " is required")) hs w
      else if is_empty (trim_space a.project_id)
      then write_error s scope_required hs w
      else if not (is_same_project a.project_id resource)
      then write_error s scope_mismatch hs w
      else next r hs w

  -- ProjectMatchFromPath
  unfoldable pub project_match_policy : Text → Policy W
  unfolding for_principal project_match_with
  project_match_policy param next r hs w =
      for_principal (project_match_with (trim_space param)) r.principal next r hs w

  -- What follows the resolver's answer.
  unfoldable pub on_resolution : AuthContext → Text → Result ResolveError Resolution → Policy W
  unfolding resolve_error apply_resolution write_error
  on_resolution a project (err e) next r hs w = write_error s (resolve_error e) hs w
  on_resolution a project (ok res) next r hs w =
      next (with_context (apply_resolution a project res) r) hs w

  -- ResolvePermissions with a principal in the context.
  unfoldable pub resolve_permissions_with : AuthContext → Policy W
  unfolding on_resolution trim_space
  resolve_permissions_with a next r hs w =
      let project = trim_space a.project_id in
      if is_empty (trim_space a.user_id)
      then write_error s authentication_required hs w
      else if is_empty project
      then write_error s scope_required hs w
      else (let (res, w') = resolve a.user_id project w in on_resolution a project res next r hs w')

  -- ResolvePermissions
  unfoldable pub resolve_permissions_policy : Policy W
  unfolding for_principal resolve_permissions_with
  resolve_permissions_policy next r hs w =
      for_principal resolve_permissions_with r.principal next r hs w

  -- RequirePermission
  unfoldable pub require_permission_policy : ℕ → Policy W
  unfolding get_user_mask has_perm write_error
  require_permission_policy p next r hs w =
      if has_perm (get_user_mask r) p then next r hs w else write_error s forbidden_error hs w

  -- RequireAnyPermission
  unfoldable pub require_any_permission_policy : List ℕ → Policy W
  unfolding get_user_mask has_any_perm normalize_required_permissions write_error
  require_any_permission_policy ps next r hs w =
      if has_any_perm (get_user_mask r) (normalize_required_permissions ps)
      then next r hs w
      else write_error s forbidden_error hs w

  -- RequireAllPermissions
  unfoldable pub require_all_permissions_policy : List ℕ → Policy W
  unfolding get_user_mask has_all_perms normalize_required_permissions write_error
  require_all_permissions_policy ps next r hs w =
      if has_all_perms (get_user_mask r) (normalize_required_permissions ps)
      then next r hs w
      else write_error s forbidden_error hs w

  -- What follows the limiter's answer.
  unfoldable pub on_decision : Result (Unit {0}) Decision → Policy W
  unfolding retry_after_seconds set_header write_error
  on_decision (err e) next r hs w =
      write_error s (new_error internal 500 (codes "internal server error")) hs w
  on_decision (ok d) next r hs w =
      if d.allowed
      then next r hs w
      else if is_error_outcome d.outcome
      then write_error s (new_error dependency_failure 503 (codes "rate limiter unavailable")) hs w
      else write_error s (new_error too_many_requests 429 (codes "rate limit exceeded"))
          (if ltb 0 (retry_after_seconds d.retry_after)
            then set_header (codes "Retry-After") (seconds (retry_after_seconds d.retry_after)) hs
            else hs)
          w

  -- RateLimitWithKeyer, for the rule with the number `rule`.
  unfoldable pub rate_limit_policy : ℕ → Policy W
  unfolding on_decision
  rate_limit_policy rule next r hs w =
      let (decision, w') = allow rule r w in on_decision decision next r hs w'
