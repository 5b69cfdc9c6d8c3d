-- ===== src/Policy/Rules.antt =====
-- internal/core/policy/validator.go and validator_rules.go: the checks made on a route at
-- registration. An error is a constructor with the values that its message shows.
pub mod Order
pub mod Safety
use projectbook_backend.Base.{
  ℕ, suc, ltb, Bool, true, false, not, ◌||◌, Option, none, some, List, [], ◌∷◌, if◌then◌else◌,
  Result, ok, err, ◌>>=◌, ◌>>◌, guard,
}
use projectbook_backend.Text.{Text, codes, text_eq, is_empty, trim_space, to_lower, contains_text}
use projectbook_backend.Policy.Metadata.{
  PolicyType, unknown, cache_control, auth_required, require_permission, require_any_permission,
  require_all_permissions, project_required, project_match_from_path, resolve_permissions,
  rate_limit, cache_read, cache_invalidate, Metadata, has_policy_type, find_policies,
}

pub data RouteError : Type 0 where
  method_required pattern_required : RouteError
  out_of_order : Text → PolicyType → RouteError
  match_before_required auth_missing : RouteError
  path_param_missing : Text → RouteError
  required_without_match match_without_required : RouteError
  route_requires_required route_requires_match wrong_path_param : Text → RouteError
  unexpected_path_param : Text → Text → RouteError
  resolver_without_project rbac_without_resolver unsafe_cache_read : RouteError

abbrev pub Checked : Type 0
Checked = Result RouteError (Unit {0})

unfoldable pub policy_order_stage : PolicyType → ℕ
policy_order_stage auth_required = 1
policy_order_stage project_required = 2
policy_order_stage project_match_from_path = 2
policy_order_stage resolve_permissions = 3
policy_order_stage require_permission = 4
policy_order_stage require_any_permission = 4
policy_order_stage require_all_permissions = 4
policy_order_stage rate_limit = 5
policy_order_stage cache_read = 6
policy_order_stage cache_invalidate = 6
policy_order_stage cache_control = 7
policy_order_stage _ = 0

-- The variables of the loop in validatePolicyOrdering; `none` is the index -1.
pub record Scan : Type 0 where
  pub previous_stage : ℕ
  pub previous_type : PolicyType
  pub required_index : Option ℕ
  pub match_index : Option ℕ

-- `if index == -1 { index = i }`
unfoldable pub first_index : Option ℕ → ℕ → Option ℕ
first_index none i = some i
first_index (some j) i = some j

-- The inner `switch meta.Type`.
unfoldable pub note_index : PolicyType → ℕ → Scan → Scan
unfolding first_index
note_index project_required i s = record s { required_index = first_index s.required_index i }
note_index project_match_from_path i s = record s { match_index = first_index s.match_index i }
note_index _ i s = s

unfoldable pub scan_policy : Metadata → ℕ → Scan → Result RouteError Scan
unfolding policy_order_stage note_index
scan_policy m i s =
    let stage = policy_order_stage m.type in
    if ltb 0 stage
    then (if ltb stage s.previous_stage
        then err (out_of_order m.name s.previous_type)
        else ok (note_index m.type i (record s { previous_stage = stage; previous_type = m.type })))
    else ok (note_index m.type i s)

unfoldable pub scan_policies : List Metadata → ℕ → Scan → Result RouteError Scan
unfolding scan_policy
scan_policies [] i s = ok s
scan_policies (m ∷ ms) i s = scan_policy m i s >>= scan_policies ms (suc i)

-- The test after the loop.
unfoldable pub check_indices : Option ℕ → Option ℕ → Checked
check_indices (some r) (some m) = guard (not (ltb m r)) match_before_required
check_indices _ _ = ok tt

unfoldable pub validate_policy_ordering : List Metadata → Checked
unfolding scan_policies check_indices
validate_policy_ordering ms = do
  s ← scan_policies ms 0 (record {
    previous_stage = 0;
    previous_type = unknown;
    required_index = none;
    match_index = none;
  })
  check_indices s.required_index s.match_index

-- Any of the three permission policies.
unfoldable pub has_rbac : List Metadata → Bool
unfolding has_policy_type
has_rbac ms =
    has_policy_type ms require_permission
    || has_policy_type ms require_any_permission
    || has_policy_type ms require_all_permissions

unfoldable pub validate_auth_dependencies : List Metadata → Checked
unfolding has_rbac
validate_auth_dependencies ms =
    if has_policy_type ms auth_required
    then ok tt
    else guard
        (not (
          has_rbac ms
          || has_policy_type ms project_required
          || has_policy_type ms resolve_permissions))
        auth_missing

abbrev pub project_id_param : Text
project_id_param = codes "project_id"

abbrev pub project_id_param_alias : Text
project_id_param_alias = codes "projectId"

abbrev pub project_id_param_camel : Text
project_id_param_camel = codes "projectid"

unfoldable pub normalize_path_param : Text → Text
unfolding to_lower trim_space
normalize_path_param p = to_lower (trim_space p)

-- `strings.Contains(loweredPattern, "{"+param+"}")` for the two spellings.
unfoldable pub contains_snake : Text → Bool
unfolding contains_text normalize_path_param
contains_snake pattern = contains_text (normalize_path_param pattern) (codes "{project_id}")

unfoldable pub contains_camel : Text → Bool
unfolding contains_text normalize_path_param
contains_camel pattern = contains_text (normalize_path_param pattern) (codes "{projectid}")

unfoldable pub pattern_contains_project_id : Text → Bool
unfolding contains_snake contains_camel
pattern_contains_project_id pattern = contains_snake pattern || contains_camel pattern

unfoldable pub route_project_path_param : Text → Text
unfolding contains_snake contains_camel
route_project_path_param pattern =
    if contains_snake pattern
    then project_id_param
    else if contains_camel pattern
    then project_id_param_camel
    else []

unfoldable pub is_project_path_param : Text → Bool
unfolding normalize_path_param text_eq
is_project_path_param p =
    text_eq (normalize_path_param p) project_id_param
    || text_eq (normalize_path_param p) project_id_param_camel

unfoldable pub display_project_path_param : Text → Text
unfolding text_eq
display_project_path_param p =
    if text_eq p project_id_param_camel then project_id_param_alias else project_id_param

-- One round of the loop over the ProjectMatchFromPath policies.
unfoldable pub check_match_param : Text → Metadata → Checked
unfolding is_project_path_param route_project_path_param display_project_path_param
check_match_param pattern m =
    let param = normalize_path_param m.project_path_param in
    let expected = route_project_path_param pattern in
    if not (is_project_path_param param)
    then err (wrong_path_param pattern)
    else guard (is_empty expected || text_eq param expected)
        (unexpected_path_param pattern (display_project_path_param expected))

unfoldable pub check_match_params : Text → List Metadata → Checked
unfolding check_match_param
check_match_params pattern [] = ok tt
check_match_params pattern (m ∷ ms) = check_match_param pattern m >> check_match_params pattern ms

-- `len(metas) == 0`
abbrev pub no_policies : List Metadata → Bool
no_policies [] = true
no_policies (m ∷ ms) = false

unfoldable pub validate_project_rules : Text → List Metadata → Checked
unfolding has_policy_type find_policies pattern_contains_project_id check_match_params
validate_project_rules pattern ms =
    let required = has_policy_type ms project_required in
    let matches = find_policies ms project_match_from_path in
    let has_path = pattern_contains_project_id pattern in
    do
      guard (not required || has_path) (path_param_missing pattern)
      guard (not required || not (no_policies matches)) required_without_match
      guard (no_policies matches || required) match_without_required
      guard (not has_path || required) (route_requires_required pattern)
      guard (not has_path || not (no_policies matches)) (route_requires_match pattern)
      if has_path then check_match_params pattern matches else ok tt

unfoldable pub validate_resolver_rules : List Metadata → Checked
unfolding has_rbac
validate_resolver_rules ms = do
  guard (not (has_policy_type ms resolve_permissions) || has_policy_type ms project_required)
      resolver_without_project
  guard (not (has_rbac ms) || has_policy_type ms resolve_permissions) rbac_without_resolver

unfoldable pub check_cache_reads : List Metadata → Checked
check_cache_reads [] = ok tt
check_cache_reads (m ∷ ms) =
    guard
      (m.cache_read.shared_authenticated || m.cache_read.vary_by_user_id
        || m.cache_read.vary_by_project_id)
      unsafe_cache_read
    >> check_cache_reads ms

unfoldable pub validate_cache_safety : List Metadata → Checked
unfolding has_policy_type find_policies check_cache_reads
validate_cache_safety ms =
    if has_policy_type ms auth_required
    then check_cache_reads (find_policies ms cache_read)
    else ok tt

unfoldable pub validate_route_rules : Text → List Metadata → Checked
unfolding validate_policy_ordering validate_auth_dependencies validate_project_rules
    validate_resolver_rules validate_cache_safety
validate_route_rules pattern ms = do
  validate_policy_ordering ms
  validate_auth_dependencies ms
  validate_project_rules pattern ms
  validate_resolver_rules ms
  validate_cache_safety ms

unfoldable pub validate_route_metadata : Text → Text → List Metadata → Checked
unfolding validate_route_rules
validate_route_metadata method pattern ms = do
  guard (not (is_empty (trim_space method))) method_required
  guard (not (is_empty (trim_space pattern))) pattern_required
  if no_policies ms then ok tt else validate_route_rules (trim_space pattern) ms
