-- ===== src/Team.antt =====
-- internal/modules/team, dto.go and the pure parts of service.go: the roles and addresses of a
-- request, its validation, and the errors of the module. `parse_address` is net/mail's
-- ParseAddress, which answers the bare address.
pub mod Store
pub mod Repo
pub mod Service
pub mod Masks
pub mod Pending
pub mod Cancelled
pub mod Synced
pub mod Roles
pub mod Plans
pub mod Invariant
pub mod Assigned
pub mod Steps
pub mod Runs
pub mod Owners
pub mod Invalidation
pub mod Batch
pub mod Lifecycle
pub mod Resolution
mod Tests
use projectbook_backend.Base.{
  ℕ, ◌+◌, ◌*◌, ◌^◌, leb, ltb, ◌==◌, bit_and, bit_or, Bool, true, false, not, ◌&&◌, ◌||◌, Option,
  none, some, List, [], ◌∷◌, length, if◌then◌else◌, Result, ok, err, ◌>>◌, guard,
}
use projectbook_backend.Text.{Text, codes, text_eq, is_empty, trim_space, to_lower, equal_fold}
use projectbook_backend.Rbac.{
  role_owner, role_admin, role_editor, role_member, role_viewer, role_limited_access,
  canonical_roles,
}
use projectbook_backend.Policy.Http.{Code, bad_request, not_found, internal}

-- apperr.Code, with the codes that the module adds.
pub data TeamCode : Type 0 where
  common : Code → TeamCode
  invite_exists invite_not_found member_exists user_not_found role_config_missing : TeamCode
  already_cancelled : TeamCode

-- apperr.AppError
pub record Failure : Type 0 where
  pub code : TeamCode
  pub status : ℕ
  pub message : Text

abbrev pub new_failure : TeamCode → ℕ → Text → Failure
new_failure c s m = record { code = c; status = s; message = m }

abbrev pub bad : Text → Failure
bad m = new_failure (common bad_request) 400 m

-- The errors of repo.go; `app` is an error that is an AppError already.
pub data TeamError : Type 0 where
  project_not_found invite_taken invite_missing invite_not_pending member_not_found : TeamError
  email_unknown role_not_found owner_immutable member_already_exists : TeamError
  app : Failure → TeamError

-- mapTeamRepoError
unfoldable pub map_team_repo_error : TeamError → Failure
map_team_repo_error (app e) = e
map_team_repo_error project_not_found =
    new_failure (common not_found) 404 (codes "project not found")
map_team_repo_error invite_taken =
    new_failure invite_exists 409 (codes "pending invite already exists for this email")
map_team_repo_error invite_missing =
    new_failure invite_not_found 404 (codes "pending invite not found")
map_team_repo_error invite_not_pending =
    new_failure already_cancelled 400 (codes "only pending invites can be cancelled")
map_team_repo_error member_not_found = new_failure (common not_found) 404 (codes "member not found")
map_team_repo_error email_unknown =
    new_failure user_not_found 404 (codes "user not found for invite email")
map_team_repo_error role_not_found =
    new_failure role_config_missing 404 (codes "role permissions not configured for project")
map_team_repo_error owner_immutable = bad (codes "owner role cannot be modified")
map_team_repo_error member_already_exists =
    new_failure member_exists 409 (codes "user is already a project member")

-- wrapRepoError
abbrev pub wrap_repo_error : TeamError
wrap_repo_error = app (new_failure (common internal) 500 (codes "failed to process team data"))

-- normalizeEmail
unfoldable pub normalize_email : Text → Text
unfolding trim_space to_lower
normalize_email email = to_lower (trim_space email)

unfoldable pub match_role : List Text → Text → Option Text
unfolding equal_fold
match_role [] trimmed = none
match_role (role ∷ roles) trimmed =
    if equal_fold role trimmed then some role else match_role roles trimmed

-- The switch of canonicalRoleFromSlug.
unfoldable pub role_of_slug : Text → Option Text
unfolding text_eq
role_of_slug slug =
    if text_eq slug (codes "owner")
    then some role_owner
    else if text_eq slug (codes "admin")
    then some role_admin
    else if text_eq slug (codes "editor")
    then some role_editor
    else if text_eq slug (codes "member")
    then some role_member
    else if text_eq slug (codes "viewer")
    then some role_viewer
    else if text_eq slug (codes "limited-access")
    then some role_limited_access
    else none

-- The switch of canonicalRole, which has a table of its own.
unfoldable pub role_of_name : Text → Option Text
unfolding text_eq
role_of_name slug =
    if text_eq slug (codes "owner")
    then some role_owner
    else if text_eq slug (codes "admin")
    then some role_admin
    else if text_eq slug (codes "editor")
    then some role_editor
    else if text_eq slug (codes "member")
    then some role_member
    else if text_eq slug (codes "viewer")
    then some role_viewer
    else if text_eq slug (codes "limited-access") || text_eq slug (codes "limited access")
    then some role_limited_access
    else none

-- The loop behind the switch.
unfoldable pub or_matched : Text → Option Text → Option Text
unfolding match_role
or_matched trimmed (some role) = some role
or_matched trimmed none = match_role canonical_roles trimmed

-- canonicalRole
unfoldable pub canonical_role : Text → Option Text
unfolding trim_space to_lower role_of_name or_matched
canonical_role raw =
    let trimmed = trim_space raw in
    if is_empty trimmed then none else or_matched trimmed (role_of_name (to_lower trimmed))

-- canonicalRoleFromSlug
unfoldable pub canonical_role_from_slug : Text → Option Text
unfolding trim_space to_lower role_of_slug
canonical_role_from_slug raw = role_of_slug (to_lower (trim_space raw))

abbrev pub or_err {ℓ} : {A : Type ℓ} {E : Type 0} → E → Option A → Result E A
or_err e none = err e
or_err e (some a) = ok a

pub record InviteRequest : Type 0 where
  pub email : Text
  pub role : Text

pub record MemberRequest : Type 0 where
  pub role : Text
  pub is_custom : Bool
  pub permission_mask : ℕ

pub record RoleRequest : Type 0 where
  pub role : Text
  pub permission_mask : ℕ

abbrev pub is_some {ℓ} : {A : Type ℓ} → Option A → Bool
is_some none = false
is_some (some a) = true

module _ (parse_address : Text → Option Text) where
  unfoldable pub same_address : Text → Option Text → Bool
  unfolding equal_fold trim_space
  same_address email none = false
  same_address email (some address) = equal_fold (trim_space address) (trim_space email)

  -- isValidEmail
  unfoldable pub is_valid_email : Text → Bool
  unfolding same_address trim_space
  is_valid_email email =
      not (is_empty (trim_space email)) && same_address email (parse_address email)

  abbrev pub usable_email : Text → Bool
  usable_email email = not (is_empty email) && is_valid_email email

  -- createInviteRequest.Validate
  unfoldable pub validate_invite : InviteRequest → Result Failure (Unit {0})
  unfolding is_valid_email canonical_role normalize_email
  validate_invite r =
      guard (usable_email (normalize_email r.email)) (bad (codes "email is invalid"))
      >> guard (is_some (canonical_role r.role)) (bad (codes "role is invalid"))

abbrev pub max_batch_invites : ℕ
max_batch_invites = 100

-- batchInviteRequest.Validate
unfoldable pub validate_batch : List InviteRequest → Result Failure (Unit {0})
validate_batch invites =
    guard (not (length invites == 0)) (bad (codes "invites must contain at least one item"))
    >> guard (leb (length invites) max_batch_invites)
        (bad (codes "invites exceeds maximum batch size"))

unfoldable pub not_owner : Option Text → Result Failure (Unit {0})
unfolding text_eq
not_owner none = err (bad (codes "role is invalid"))
not_owner (some role) =
    guard (not (text_eq role role_owner)) (bad (codes "owner role cannot be assigned"))

-- updateMemberPermissionsRequest.Validate
unfoldable pub validate_member : MemberRequest → Result Failure (Unit {0})
unfolding not_owner canonical_role
validate_member r = not_owner (canonical_role r.role)

-- updateRolePermissionsRequest.Validate
unfoldable pub validate_role : RoleRequest → Result Failure (Unit {0})
unfolding canonical_role
validate_role r = guard (is_some (canonical_role r.role)) (bad (codes "role is invalid"))

-- `elevatedBits` after the inner loop has run over the given actions.
unfoldable pub elevated_bits : ℕ → List ℕ → ℕ
elevated_bits domain [] = 0
elevated_bits domain (action ∷ actions) =
    bit_or (2 ^ (domain * 6 + action)) (elevated_bits domain actions)

abbrev pub actions : List ℕ
actions = 1 ∷ 2 ∷ 3 ∷ 4 ∷ 5 ∷ []

-- The condition of one round of the outer loop.
unfoldable pub lacks_view : ℕ → ℕ → Bool
unfolding elevated_bits
lacks_view mask domain =
    not (bit_and mask (elevated_bits domain actions) == 0) && (bit_and mask (2 ^ (domain * 6)) == 0)

unfoldable pub any_lacks_view : ℕ → List ℕ → Bool
unfolding lacks_view
any_lacks_view mask [] = false
any_lacks_view mask (domain ∷ domains) =
    if lacks_view mask domain then true else any_lacks_view mask domains

abbrev pub domains : List ℕ
domains = 0 ∷ 1 ∷ 2 ∷ 3 ∷ 4 ∷ 5 ∷ 6 ∷ 7 ∷ 8 ∷ 9 ∷ []

-- validatePermissionMaskDependencies
unfoldable pub validate_mask_dependencies : ℕ → Result Failure (Unit {0})
unfolding any_lacks_view
validate_mask_dependencies mask =
    guard (not (any_lacks_view mask domains))
      (bad (codes "permission mask violates view dependency rule"))
