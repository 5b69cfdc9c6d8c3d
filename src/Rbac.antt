-- ===== src/Rbac.antt =====
-- internal/core/rbac: the permission bits of permissions.go, the roles and default masks of
-- roles.go, and HasPerm of internal/core/policy/rbac.go. A mask is a uint64 as a number.
pub mod Grants
pub mod Roles
mod Tests
use projectbook_backend.Base.{
  ℕ, ◌+◌, ◌*◌, ◌^◌, ◌==◌, bit_and, Bool, not, Option, none, some, List, [], ◌∷◌, if◌then◌else◌,
}
use projectbook_backend.Text.{Text, codes, text_eq, trim_space, equal_fold}

-- The rows and columns of the constants `Perm<Domain><Action>`.
pub data Domain : Type 0 where
  project story problem idea task feedback resource page calendar member : Domain

pub data Action : Type 0 where
  view create edit delete archive status_change : Action

unfoldable pub domain_index : Domain → ℕ
domain_index project = 0
domain_index story = 1
domain_index problem = 2
domain_index idea = 3
domain_index task = 4
domain_index feedback = 5
domain_index resource = 6
domain_index page = 7
domain_index calendar = 8
domain_index member = 9

unfoldable pub action_index : Action → ℕ
action_index view = 0
action_index create = 1
action_index edit = 2
action_index delete = 3
action_index archive = 4
action_index status_change = 5

-- The position of a constant in the block, its `iota`.
unfoldable pub perm_index : Domain → Action → ℕ
unfolding domain_index action_index
perm_index d a = 6 * domain_index d + action_index a

-- `1 << iota`
unfoldable pub perm : Domain → Action → ℕ
unfolding perm_index
perm d a = 2 ^ perm_index d a

-- `mask&perm != 0`
unfoldable pub has_perm : ℕ → ℕ → Bool
has_perm mask p = not (bit_and mask p == 0)

abbrev pub role_owner : Text
role_owner = codes "Owner"

abbrev pub role_admin : Text
role_admin = codes "Admin"

abbrev pub role_editor : Text
role_editor = codes "Editor"

abbrev pub role_member : Text
role_member = codes "Member"

abbrev pub role_viewer : Text
role_viewer = codes "Viewer"

abbrev pub role_limited_access : Text
role_limited_access = codes "Limited Access"

abbrev pub canonical_roles : List Text
canonical_roles =
    role_owner ∷ role_admin ∷ role_editor ∷ role_member ∷ role_viewer ∷ role_limited_access ∷ []

-- The literal of `defaultRoleMasks`.
abbrev pub default_role_masks : List (Text × ℕ)
default_role_masks =
    (role_owner, 1152921504606846975)
    ∷ (role_admin, 864691128455135229)
    ∷ (role_editor, 20016033248999873)
    ∷ (role_member, 875734824153537)
    ∷ (role_viewer, 18300341342965825)
    ∷ (role_limited_access, 0)
    ∷ []

-- Reading a Go map.
unfoldable pub lookup_text {ℓ} : {V : Type ℓ} → Text → List (Text × V) → Option V
unfolding text_eq
lookup_text k [] = none
lookup_text k ((j, v) ∷ m) = if text_eq j k then some v else lookup_text k m

-- The loop of DefaultRoleMask over the canonical roles.
unfoldable pub default_role_mask_from : List Text → Text → Option ℕ
unfolding equal_fold lookup_text
default_role_mask_from [] normalized = none
default_role_mask_from (role ∷ roles) normalized =
    if equal_fold role normalized
    then lookup_text role default_role_masks
    else default_role_mask_from roles normalized

unfoldable pub default_role_mask : Text → Option ℕ
unfolding default_role_mask_from trim_space
default_role_mask role = default_role_mask_from canonical_roles (trim_space role)
