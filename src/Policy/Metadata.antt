-- ===== src/Policy/Metadata.antt =====
-- internal/core/policy/metadata.go: the classification that the validator reads.
use projectbook_backend.Base.{
  ℕ, ◌≡◌, ◌↔◌, refl, Bool, true, false, ◌||◌, List, [], ◌∷◌, Any, if◌then◌else◌, arith,
}
use projectbook_backend.Text.{Text}

-- The declared constants of PolicyType, and the zero value of the string.
pub data PolicyType : Type 0 where
  unset unknown noop require_json with_header cache_control auth_required : PolicyType
  require_permission require_any_permission require_all_permissions : PolicyType
  project_required project_match_from_path resolve_permissions : PolicyType
  rate_limit cache_read cache_invalidate custom : PolicyType

unfoldable pub PolicyType-discrete : Discrete PolicyType
PolicyType-discrete = hlevel

-- `a == b` on policy types.
unfoldable pub type_eq : PolicyType → PolicyType → Bool
unfolding PolicyType-discrete
type_eq a b = elim (PolicyType-discrete a b) [ yes p ↦ true | no p ↦ false ]

pub type_eq_iff : (a b : PolicyType) → (type_eq a b ≡ true) ↔ (a ≡ b)
unfolding type_eq
type_eq_iff a b =
    elim (PolicyType-discrete a b)
      as (λ d. ((elim d [ yes p ↦ true | no p ↦ false ]) ≡ true) ↔ (a ≡ b)) [
        | yes p ↦ (λ _. p, λ _. refl)
        | no p ↦ (λ e. cc, λ e. absurd (p e))
      ]

pub record CacheReadMetadata : Type 0 where
  pub allow_authenticated : Bool
  pub shared_authenticated : Bool
  pub vary_by_user_id : Bool
  pub vary_by_project_id : Bool

pub record CacheInvalidateMetadata : Type 0 where
  pub tag_spec_count : ℕ

pub record Metadata : Type 0 where
  pub type : PolicyType
  pub name : Text
  pub project_path_param : Text
  pub cache_read : CacheReadMetadata
  pub cache_invalidate : CacheInvalidateMetadata

unfoldable pub has_policy_type : List Metadata → PolicyType → Bool
unfolding type_eq
has_policy_type [] t = false
has_policy_type (m ∷ ms) t = type_eq m.type t || has_policy_type ms t

unfoldable pub find_policies : List Metadata → PolicyType → List Metadata
unfolding type_eq
find_policies [] t = []
find_policies (m ∷ ms) t =
    let rest = find_policies ms t in if type_eq m.type t then m ∷ rest else rest

-- The route has a policy of the type.
abbrev pub Has : PolicyType → List Metadata → Type 0
Has t ms = Any (λ m. m.type ≡ t) ms

pub has_policy_type_iff :
    (ms : List Metadata) (t : PolicyType) → (has_policy_type ms t ≡ true) ↔ Has t ms
unfolding has_policy_type
has_policy_type_iff [] t = ground arith
has_policy_type_iff (m ∷ ms) t = ground (arith, type_eq_iff m.type t, has_policy_type_iff ms t)
