-- ===== src/Policy/Pipeline.antt =====
-- internal/core/policy/policy.go, Chain, over the policies of a route with the metadata that each
-- constructor registers.
pub mod Levels
pub mod Registry
pub mod Authorized
use projectbook_backend.Base.{
  ℕ, Bool, true, false, Option, none, some, List, [], ◌∷◌, map, if◌then◌else◌,
}
use projectbook_backend.Text.{Text, codes, is_empty, trim_space}
use projectbook_backend.Policy.Metadata.{PolicyType, CacheReadMetadata, Metadata}
use projectbook_backend.Policy.Http.{Mode, Policy, Handler, Services}
use projectbook_backend.Policy.Gates.{
  noop_policy, require_json_policy, with_header_policy, auth_required_policy,
  project_required_policy, project_match_policy, resolve_permissions_policy,
  require_permission_policy, require_any_permission_policy, require_all_permissions_policy,
  rate_limit_policy,
}
use projectbook_backend.Policy.CacheControl.{Directive, cache_control_policy}
use projectbook_backend.Policy.Caching.{
  CacheManager, CacheReadConfig, new_cache_read_runtime, cache_read_policy, cache_invalidate_policy,
}

-- The policies with the arguments of their constructors; CacheControl has the directives and the names
-- that buildCacheControl gives for its argument, and a custom policy, of AnnotateCustom, the code
-- pointer of its function, its name and the policy itself.
pub data RoutePolicy (W : Type 0) : Type 0 where
  noop : RoutePolicy W
  require_json : RoutePolicy W
  with_header : Text → Text → RoutePolicy W
  auth_required : Mode → RoutePolicy W
  project_required : RoutePolicy W
  project_match_from_path : Text → RoutePolicy W
  resolve_permissions : RoutePolicy W
  require_permission : ℕ → RoutePolicy W
  require_any_permission require_all_permissions : List ℕ → RoutePolicy W
  rate_limit : ℕ → RoutePolicy W
  cache_read : CacheManager W → CacheReadConfig → RoutePolicy W
  cache_invalidate : CacheManager W → ℕ → RoutePolicy W
  cache_control : List Directive → List Text → RoutePolicy W
  custom : ℕ → Text → Policy W → RoutePolicy W

abbrev plain : PolicyType → Text → Metadata
plain t name = record {
  type = t;
  name = name;
  project_path_param = [];
  cache_read = record {
    allow_authenticated = false;
    shared_authenticated = false;
    vary_by_user_id = false;
    vary_by_project_id = false;
  };
  cache_invalidate = record { tag_spec_count = 0 };
}

module _ {W : Type 0} where
  -- The metadata of the `annotatePolicy` call in each constructor.
  unfoldable pub describe : RoutePolicy W → Metadata
  unfolding trim_space
  describe noop = plain PolicyType.noop (codes "Noop")
  describe require_json = plain PolicyType.require_json (codes "RequireJSON")
  describe (with_header k v) = plain PolicyType.with_header (codes "WithHeader")
  describe (auth_required mode) = plain PolicyType.auth_required (codes "AuthRequired")
  describe project_required = plain PolicyType.project_required (codes "ProjectRequired")
  describe (project_match_from_path param) =
      record (plain PolicyType.project_match_from_path (codes "ProjectMatchFromPath")) {
        project_path_param = trim_space param;
      }
  describe resolve_permissions = plain PolicyType.resolve_permissions (codes "ResolvePermissions")
  describe (require_permission p) = plain PolicyType.require_permission (codes "RequirePermission")
  describe (require_any_permission ps) =
      plain PolicyType.require_any_permission (codes "RequireAnyPermission")
  describe (require_all_permissions ps) =
      plain PolicyType.require_all_permissions (codes "RequireAllPermissions")
  describe (rate_limit rule) = plain PolicyType.rate_limit (codes "RateLimit")
  describe (cache_read m c) = record (plain PolicyType.cache_read (codes "CacheRead")) {
    cache_read = record {
      allow_authenticated = c.allow_authenticated;
      shared_authenticated = c.shared_authenticated;
      vary_by_user_id = c.vary_by_user_id;
      vary_by_project_id = c.vary_by_project_id;
    };
  }
  describe (cache_invalidate m n) =
      record (plain PolicyType.cache_invalidate (codes "CacheInvalidate")) {
        cache_invalidate = record { tag_spec_count = n };
      }
  describe (cache_control ds vary) = plain PolicyType.cache_control (codes "CacheControl")
  describe (custom pointer name f) =
      plain PolicyType.custom
        (if is_empty (trim_space name) then codes "custom" else trim_space name)

module _ {W : Type 0} (s : Services W) where
  unfoldable pub apply : RoutePolicy W → Policy W
  unfolding new_cache_read_runtime cache_control_policy
  apply noop = noop_policy s
  apply require_json = require_json_policy s
  apply (with_header k v) = with_header_policy s k v
  apply (auth_required mode) = auth_required_policy s mode
  apply project_required = project_required_policy s
  apply (project_match_from_path param) = project_match_policy s param
  apply resolve_permissions = resolve_permissions_policy s
  apply (require_permission p) = require_permission_policy s p
  apply (require_any_permission ps) = require_any_permission_policy s ps
  apply (require_all_permissions ps) = require_all_permissions_policy s ps
  apply (rate_limit rule) = rate_limit_policy s rule
  apply (cache_read m c) = cache_read_policy s m (new_cache_read_runtime c)
  apply (cache_invalidate m n) = cache_invalidate_policy s m
  apply (cache_control ds vary) = cache_control_policy ds vary
  apply (custom pointer name f) = f

  -- Chain: the first policy is the outermost.
  unfoldable pub chain : Handler W → List (RoutePolicy W) → Handler W
  unfolding apply
  chain h [] = h
  chain h (p ∷ ps) = apply p (chain h ps)
