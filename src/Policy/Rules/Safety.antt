-- ===== src/Policy/Rules/Safety.antt =====
-- What the validator accepts, as a description of the route.
use projectbook_backend.Base.{
  ◌≡◌, ◌↔◌, ◌⊎◌, refl, true, false, List, [], ◌∷◌, All, ok, seq_iff, ◌≢◌, arith,
}
use projectbook_backend.Text.{Text, trim_space}
use projectbook_backend.Text.Laws.{text_eq_iff, is_empty_iff}
use projectbook_backend.Policy.Metadata.{
  PolicyType, auth_required, require_permission, require_any_permission, require_all_permissions,
  project_required, project_match_from_path, resolve_permissions, cache_read, Metadata, type_eq_iff,
  has_policy_type_iff, find_policies, Has,
}
use projectbook_backend.Policy.Rules.{
  has_rbac, validate_auth_dependencies, normalize_path_param, pattern_contains_project_id,
  route_project_path_param, is_project_path_param, check_match_param, check_match_params,
  no_policies, validate_project_rules, validate_resolver_rules, check_cache_reads,
  validate_cache_safety, validate_route_rules, validate_route_metadata, project_id_param,
  project_id_param_camel,
}
use projectbook_backend.Policy.Rules.Order.{IsOrdered, MatchFollows, validate_policy_ordering_iff}

-- The route has one of the three permission policies.
abbrev pub HasRbac : List Metadata → Type 0
HasRbac ms =
    Has require_permission ms ⊎ Has require_any_permission ms ⊎ Has require_all_permissions ms

abbrev pub NeedsAuth : List Metadata → Type 0
NeedsAuth ms = HasRbac ms ⊎ Has project_required ms ⊎ Has resolve_permissions ms

-- A ProjectMatchFromPath policy reads the parameter that the pattern names.
abbrev pub ReadsProjectParam : Text → Metadata → Type 0
ReadsProjectParam pattern m =
    m.type ≡ project_match_from_path
    → normalize_path_param m.project_path_param ≡ route_project_path_param pattern

-- A cached response is shared by choice, or kept apart by user or by project.
abbrev pub IsSafelyCached : Metadata → Type 0
IsSafelyCached m =
    m.type ≡ cache_read
    → (m.cache_read.shared_authenticated ≡ true)
      ⊎ (m.cache_read.vary_by_user_id ≡ true)
      ⊎ (m.cache_read.vary_by_project_id ≡ true)

abbrev pub HasProjectPath : Text → Type 0
HasProjectPath pattern = pattern_contains_project_id pattern ≡ true

pub record IsSafeRoute (pattern : Text) (ms : List Metadata) : Type 0 where
  pub ordered : IsOrdered ms
  pub match_follows : MatchFollows ms
  pub authenticated : NeedsAuth ms → Has auth_required ms
  pub project_path : HasProjectPath pattern ↔ Has project_required ms
  pub project_match : Has project_required ms ↔ Has project_match_from_path ms
  pub param : HasProjectPath pattern → All (ReadsProjectParam pattern) ms
  pub resolver_scoped : Has resolve_permissions ms → Has project_required ms
  pub rbac_resolved : HasRbac ms → Has resolve_permissions ms
  pub cached : Has auth_required ms → All IsSafelyCached ms

has_rbac_iff : (ms : List Metadata) → (has_rbac ms ≡ true) ↔ HasRbac ms
unfolding has_rbac
has_rbac_iff ms = ground (
  arith,
  has_policy_type_iff ms require_permission,
  has_policy_type_iff ms require_any_permission,
  has_policy_type_iff ms require_all_permissions,
)

auth_iff :
    (ms : List Metadata)
    → (validate_auth_dependencies ms ≡ ok tt) ↔ (NeedsAuth ms → Has auth_required ms)
unfolding validate_auth_dependencies
auth_iff ms = ground (
  arith,
  has_rbac_iff ms,
  has_policy_type_iff ms auth_required,
  has_policy_type_iff ms project_required,
  has_policy_type_iff ms resolve_permissions,
)

no_policies-find_policies :
    (ms : List Metadata) (t : PolicyType) → (no_policies (find_policies ms t) ≡ false) ↔ Has t ms
unfolding find_policies
no_policies-find_policies [] t = ground arith
no_policies-find_policies (m ∷ ms) t =
    ground (arith, type_eq_iff m.type t, no_policies-find_policies ms t)

route_param-cases :
    (pattern : Text)
    → HasProjectPath pattern
    → (route_project_path_param pattern ≡ project_id_param)
      ⊎ (route_project_path_param pattern ≡ project_id_param_camel)
unfolding pattern_contains_project_id route_project_path_param
route_param-cases pattern h = ground arith

snake_accepted : is_project_path_param project_id_param ≡ true
unfolding is_project_path_param
snake_accepted = refl

camel_accepted : is_project_path_param project_id_param_camel ≡ true
unfolding is_project_path_param
camel_accepted = refl

-- For a pattern with the parameter, the accepted name is the one in the pattern.
check_match_param_iff :
    (pattern : Text) (m : Metadata)
    → HasProjectPath pattern
    → (check_match_param pattern m ≡ ok tt)
      ↔ (normalize_path_param m.project_path_param ≡ route_project_path_param pattern)
unfolding check_match_param
check_match_param_iff pattern m h = ground (
  arith,
  route_param-cases pattern h,
  snake_accepted,
  camel_accepted,
  text_eq_iff (normalize_path_param m.project_path_param) (route_project_path_param pattern),
  is_empty_iff (route_project_path_param pattern),
)

check_match_params_iff :
    (pattern : Text) (ms : List Metadata)
    → HasProjectPath pattern
    → (check_match_params pattern (find_policies ms project_match_from_path) ≡ ok tt)
      ↔ All (ReadsProjectParam pattern) ms
unfolding check_match_params find_policies
check_match_params_iff pattern [] h = ground arith
check_match_params_iff pattern (m ∷ ms) h = ground (
  arith,
  type_eq_iff m.type project_match_from_path,
  check_match_param_iff pattern m h,
  check_match_params_iff pattern ms h,
)

project_iff :
    (pattern : Text) (ms : List Metadata)
    → (validate_project_rules pattern ms ≡ ok tt) ↔ (
        (HasProjectPath pattern ↔ Has project_required ms)
        × (Has project_required ms ↔ Has project_match_from_path ms)
        × (HasProjectPath pattern → All (ReadsProjectParam pattern) ms))
unfolding validate_project_rules
project_iff pattern ms = ground (
  arith,
  has_policy_type_iff ms project_required,
  no_policies-find_policies ms project_match_from_path,
  check_match_params_iff pattern ms,
)

check_cache_reads_iff :
    (ms : List Metadata)
    → (check_cache_reads (find_policies ms cache_read) ≡ ok tt) ↔ All IsSafelyCached ms
unfolding check_cache_reads find_policies
check_cache_reads_iff [] = ground arith
check_cache_reads_iff (m ∷ ms) =
    ground (arith, type_eq_iff m.type cache_read, check_cache_reads_iff ms)

cache_iff :
    (ms : List Metadata)
    → (validate_cache_safety ms ≡ ok tt) ↔ (Has auth_required ms → All IsSafelyCached ms)
unfolding validate_cache_safety
cache_iff ms = ground (arith, has_policy_type_iff ms auth_required, check_cache_reads_iff ms)

resolver_iff :
    (ms : List Metadata)
    → (validate_resolver_rules ms ≡ ok tt) ↔ (
        (Has resolve_permissions ms → Has project_required ms)
        × (HasRbac ms → Has resolve_permissions ms))
unfolding validate_resolver_rules
resolver_iff ms = ground (
  arith,
  has_rbac_iff ms,
  has_policy_type_iff ms project_required,
  has_policy_type_iff ms resolve_permissions,
)

-- The rules accept a list of policies exactly when it describes a safe route: stages in order,
-- authentication where it is needed, project scope required and matched from the path exactly on
-- patterns with the project parameter and under that parameter's name, permissions resolved within
-- a project and before they are tested, and no authenticated response cached for all by accident.
pub validate_route_rules_iff :
    (pattern : Text) (ms : List Metadata)
    → (validate_route_rules pattern ms ≡ ok tt) ↔ IsSafeRoute pattern ms
unfolding validate_route_rules
validate_route_rules_iff pattern ms = (
  λ e.
      let (p1, e1) = (seq_iff _ _).0 e in
      let (p2, e2) = (seq_iff _ _).0 e1 in
      let (p3, e3) = (seq_iff _ _).0 e2 in
      let (p4, p5) = (seq_iff _ _).0 e3 in
      let (ordered, follows) = (validate_policy_ordering_iff ms).0 p1 in
      let (path, matched, param) = (project_iff pattern ms).0 p3 in
      let (scoped, resolved) = (resolver_iff ms).0 p4 in
      record {
        ordered = ordered;
        match_follows = follows;
        authenticated = (auth_iff ms).0 p2;
        project_path = path;
        project_match = matched;
        param = param;
        resolver_scoped = scoped;
        rbac_resolved = resolved;
        cached = (cache_iff ms).0 p5;
      },
  λ s. (seq_iff _ _).1 (
    (validate_policy_ordering_iff ms).1 (s.ordered, s.match_follows),
    (seq_iff _ _).1 (
      (auth_iff ms).1 s.authenticated,
      (seq_iff _ _).1 (
        (project_iff pattern ms).1 (s.project_path, s.project_match, s.param),
        (seq_iff _ _).1
            ((resolver_iff ms).1 (s.resolver_scoped, s.rbac_resolved), (cache_iff ms).1 s.cached),
      ),
    ),
  ),
)

-- ValidateRouteMetadata accepts a route exactly when its method and its pattern are not blank and
-- it has no policy at all, or its policies describe a safe route for the trimmed pattern.
pub validate_route_metadata_iff :
    (method pattern : Text) (ms : List Metadata)
    → (validate_route_metadata method pattern ms ≡ ok tt) ↔ (
        (trim_space method ≢ [])
        × (trim_space pattern ≢ [])
        × ((ms ≡ []) ⊎ IsSafeRoute (trim_space pattern) ms))
unfolding validate_route_metadata
validate_route_metadata_iff method pattern [] =
    ground (arith, is_empty_iff (trim_space method), is_empty_iff (trim_space pattern))
validate_route_metadata_iff method pattern (m ∷ ms) = ground (
  arith,
  is_empty_iff (trim_space method),
  is_empty_iff (trim_space pattern),
  validate_route_rules_iff (trim_space pattern) (m ∷ ms),
)
