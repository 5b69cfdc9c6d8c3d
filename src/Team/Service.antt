-- ===== src/Team/Service.antt =====
-- The operations of internal/modules/team/service.go that change state. A transaction commits the
-- database of a success and drops that of an error; the invalidations that follow are logged.
use projectbook_backend.Base.{
  ℕ, ◌+◌, ◌==◌, Bool, true, false, not, ◌&&◌, ◌||◌, Option, none, some, List, [], ◌∷◌, ◌++◌, find,
  if◌then◌else◌, Result, ok, err, ◌>>=◌, ◌>>◌, guard,
}
use projectbook_backend.Text.{Text, codes, text_eq, is_empty, trim_space, equal_fold}
use projectbook_backend.Text.Unique.{unique_strings}
use projectbook_backend.Rbac.{role_owner, default_role_mask}
use projectbook_backend.Policy.Http.{bad_request, internal, dependency_failure, unauthorized}
use projectbook_backend.Permissions.Tags.{
  Effect, bump_tags, Deployment, permission_tags, invalidate_user_cache,
}
use projectbook_backend.Team.{
  TeamCode, common, role_config_missing, Failure, new_failure, bad, TeamError, map_team_repo_error,
  normalize_email, canonical_role, InviteRequest, MemberRequest, RoleRequest, usable_email,
  is_valid_email, validate_mask_dependencies,
}
use projectbook_backend.Team.Store.{Db, RoleRow, is_role_row}
use projectbook_backend.Team.Repo.{
  resolve_project, CreateInput, create_invite, cancel_invite, MemberInput,
  update_member_permissions, RoleInput, RoleUpdated, update_role_permissions,
}

pub record World : Type 0 where
  pub db : Db
  pub log : List Effect

-- store.WithTx, and mapTeamRepoError on its error.
unfoldable pub with_tx {ℓ} :
    {A : Type ℓ} → (A → Db) → Result TeamError A → World → Result Failure A × World
unfolding map_team_repo_error
with_tx db_of (ok a) w = (ok a, record w { db = db_of a })
with_tx db_of (err e) w = (err (map_team_repo_error e), w)

unfoldable pub lift_error {ℓ} : {A : Type ℓ} → Result TeamError A → Result Failure A
unfolding map_team_repo_error
lift_error (ok a) = ok a
lift_error (err e) = err (map_team_repo_error e)

abbrev pub invite_ttl : ℕ
invite_ttl = 604800

abbrev pub unauthenticated : Failure
unauthenticated = new_failure (common unauthorized) 401 (codes "authentication required")

unfoldable pub invite_input : Text → Text → ℕ → Text → Text → CreateInput
unfolding trim_space
invite_input project actor clock email role = record {
  project_id = project;
  email = email;
  role = role;
  invited_by = trim_space actor;
  expires_at = clock + invite_ttl;
}

pub record BatchFailure : Type 0 where
  pub email : Text
  pub role : Text
  pub code : TeamCode
  pub message : Text

pub record BatchResponse : Type 0 where
  pub invited : List (Text × Text)
  pub failed : List BatchFailure

-- What one round of the loop of BatchInvites does with its invite.
pub data Step : Type 0 where
  invited : Text → Text → Step
  refused : BatchFailure → Step
  aborted : Failure → Step

unfoldable pub is_fatal : TeamCode → Bool
is_fatal (common internal) = true
is_fatal (common dependency_failure) = true
is_fatal c = false

unfoldable pub step_of_result {ℓ} : {A : Type ℓ} → Text → Text → Result Failure A → Step
unfolding is_fatal
step_of_result email role (ok a) = invited email role
step_of_result email role (err f) =
    if is_fatal f.code
    then aborted f
    else refused (record { email = email; role = role; code = f.code; message = f.message })

abbrev pub invalid_invite : Text → Text → Text → Step
invalid_invite email role message =
    refused (record { email = email; role = role; code = common bad_request; message = message })

unfoldable pub record_step : Step → BatchResponse → Result Failure BatchResponse
record_step (invited email role) r = ok (record r { invited = r.invited ++ (email, role) ∷ [] })
record_step (refused f) r = ok (record r { failed = r.failed ++ f ∷ [] })
record_step (aborted f) r = err f

-- The role's mask that resolveRoleMask reads through ListRoles: the project's row, or else the
-- default of the role.
unfoldable pub listed_mask : Text → Option RoleRow → Result Failure ℕ
unfolding default_role_mask
listed_mask role (some r) = ok r.permission_mask
listed_mask role none = elim (default_role_mask role) [
  | some mask ↦ ok mask
  | none ↦
      err
        (new_failure role_config_missing 404 (codes "role permissions not configured for project"))
]

-- resolveRoleMask
unfoldable pub resolve_role_mask : Text → Text → Db → Result Failure ℕ
unfolding lift_error resolve_project listed_mask is_role_row
resolve_role_mask project role db = lift_error (resolve_project project db) >>= λ id.
    listed_mask role (find (is_role_row id role) db.roles)

-- invalidatePermissionScopes
unfoldable pub all_tags : Text → List Text → List Text
unfolding permission_tags
all_tags project [] = []
all_tags project (user ∷ users) = permission_tags user project ++ all_tags project users

unfoldable pub invalidate_users : Deployment → Text → List Text → List Effect
unfolding invalidate_user_cache all_tags
invalidate_users d project [] = []
invalidate_users d project (u ∷ us) =
    invalidate_user_cache d (u ∷ us)
    ++ (if d.has_invalidator then bump_tags (all_tags project (u ∷ us)) ∷ [] else [])

unfoldable pub invalidate_scopes : Deployment → Text → List Text → World → World
unfolding invalidate_users unique_strings
invalidate_scopes d project users w = record w {
  log = w.log ++ invalidate_users d project (unique_strings users);
}

-- The checks of UpdateRolePermissions before its transaction.
unfoldable pub check_body_role : Text → Option Text → Result Failure (Unit {0})
unfolding equal_fold
check_body_role path none = err (bad (codes "role is invalid"))
check_body_role path (some body) =
    guard (equal_fold body path) (bad (codes "role must match path role"))

unfoldable pub check_role_request : Text → Text → Text → RoleRequest → Result Failure (Unit {0})
unfolding trim_space check_body_role canonical_role equal_fold validate_mask_dependencies
check_role_request project path actor req = do
  guard (not (is_empty (trim_space project))) (bad (codes "projectId is required"))
  guard (not (is_empty (trim_space path))) (bad (codes "role path parameter is required"))
  guard (not (is_empty (trim_space actor))) unauthenticated
  check_body_role path (canonical_role req.role)
  guard (not (equal_fold path role_owner)) (bad (codes "owner role cannot be modified"))
  validate_mask_dependencies req.permission_mask

unfoldable pub role_input : Text → Text → RoleRequest → RoleInput
role_input project path req = record {
  project_id = project;
  role = path;
  permission_mask = req.permission_mask;
}

unfoldable pub after_role :
    Deployment → Text → Result Failure RoleUpdated × World → Result Failure RoleUpdated × World
unfolding invalidate_scopes
after_role d project (ok u, w) = (ok u, invalidate_scopes d project u.users w)
after_role d project (err f, w) = (err f, w)

unfoldable pub run_role :
    Deployment
    → Text
    → RoleInput
    → Result Failure (Unit {0})
    → World
    → Result Failure RoleUpdated × World
unfolding with_tx update_role_permissions after_role
run_role d project input (err f) w = (err f, w)
run_role d project input (ok u) w =
    after_role d project (with_tx (λ u. u.db) (update_role_permissions input w.db) w)

-- UpdateRolePermissions
unfoldable pub update_role :
    Deployment → Text → Text → Text → RoleRequest → World → Result Failure RoleUpdated × World
unfolding run_role check_role_request role_input
update_role d project path actor req w =
    run_role d project (role_input project path req) (check_role_request project path actor req) w

-- The mask against that of the role, and the flag that is stored.
unfoldable pub settle_custom : Bool → ℕ → ℕ → Result Failure Bool
settle_custom is_custom mask role_mask =
    guard (is_custom || (mask == role_mask))
      (bad (codes "permissionMask must match role mask when isCustom is false"))
    >> ok (is_custom && not (mask == role_mask))

unfoldable pub assignable : Option Text → Result Failure Text
unfolding text_eq
assignable none = err (bad (codes "role is invalid"))
assignable (some role) =
    guard (not (text_eq role role_owner)) (bad (codes "owner role cannot be assigned")) >> ok role

-- UpdateMemberPermissions before its transaction.
unfoldable pub plan_member : Text → Text → MemberRequest → Db → Result Failure MemberInput
unfolding trim_space assignable canonical_role validate_mask_dependencies resolve_role_mask
    settle_custom
plan_member project member req db = do
  guard (not (is_empty (trim_space project))) (bad (codes "projectId is required"))
  guard (not (is_empty (trim_space member))) (bad (codes "memberId is required"))
  role ← assignable (canonical_role req.role)
  validate_mask_dependencies req.permission_mask
  role_mask ← resolve_role_mask project role db
  custom ← settle_custom req.is_custom req.permission_mask role_mask
  ok (record {
    project_id = project;
    member_id = member;
    role = role;
    is_custom = custom;
    permission_mask = req.permission_mask;
  })

unfoldable pub after_member :
    Deployment → Text → Result Failure (Db × Text) × World → Result Failure Text × World
unfolding invalidate_scopes trim_space
after_member d project (ok (db, user), w) =
    (ok user, invalidate_scopes d project (trim_space user ∷ []) w)
after_member d project (err f, w) = (err f, w)

-- CancelInvite without the validation of the address.
unfoldable pub run_cancel : Text → Text → World → Result Failure Db × World
unfolding with_tx cancel_invite
run_cancel project email w = with_tx (λ db. db) (cancel_invite project email w.db) w

module _ (parse_address parse_uuid : Text → Option Text) where
  unfoldable pub create_with :
      Text → Text → ℕ → Text → Option Text → World → Result Failure Db × World
  unfolding with_tx create_invite invite_input
  create_with project actor clock email none w = (err (bad (codes "role is invalid")), w)
  create_with project actor clock email (some role) w =
      with_tx (λ db. db)
        (create_invite parse_uuid (invite_input project actor clock email role) w.db) w

  -- CreateInvite
  unfoldable pub invite : Text → Text → ℕ → InviteRequest → World → Result Failure Db × World
  unfolding create_with trim_space canonical_role normalize_email
  invite project actor clock req w =
      if is_empty (trim_space project)
      then (err (bad (codes "projectId is required")), w)
      else if is_empty (trim_space actor)
      then (err unauthenticated, w)
      else create_with project actor clock (normalize_email req.email) (canonical_role req.role) w

  unfoldable pub batch_create : Text → Text → ℕ → Text → Text → World → Step × World
  unfolding with_tx create_invite invite_input step_of_result
  batch_create id actor clock email role w =
      let (r, w') =
        with_tx (λ db. db) (create_invite parse_uuid (invite_input id actor clock email role) w.db)
          w in
      (step_of_result email role r, w')

  unfoldable pub batch_role : Text → Text → ℕ → Text → Text → Option Text → World → Step × World
  unfolding batch_create
  batch_role id actor clock email raw none w =
      (invalid_invite email raw (codes "role is invalid"), w)
  batch_role id actor clock email raw (some role) w = batch_create id actor clock email role w

  -- The body of the loop.
  unfoldable pub batch_item : Text → Text → ℕ → InviteRequest → World → Step × World
  unfolding batch_role is_valid_email canonical_role normalize_email
  batch_item id actor clock req w =
      let email = normalize_email req.email in
      if usable_email parse_address email
      then batch_role id actor clock email req.role (canonical_role req.role) w
      else (invalid_invite email req.role (codes "email is invalid"), w)

  unfoldable pub batch_all :
      Text
      → Text
      → ℕ
      → List InviteRequest
      → Result Failure BatchResponse
      → World
      → Result Failure BatchResponse × World
  unfolding batch_item record_step
  batch_all id actor clock reqs (err f) w = (err f, w)
  batch_all id actor clock [] (ok r) w = (ok r, w)
  batch_all id actor clock (req ∷ reqs) (ok r) w =
      let (step, w') = batch_item id actor clock req w in
      batch_all id actor clock reqs (record_step step r) w'

  unfoldable pub batch_in :
      Text
      → ℕ
      → List InviteRequest
      → Result Failure Text
      → World
      → Result Failure BatchResponse × World
  unfolding batch_all
  batch_in actor clock reqs (err f) w = (err f, w)
  batch_in actor clock reqs (ok id) w =
      batch_all id actor clock reqs (ok (record { invited = []; failed = [] })) w

  -- BatchInvites
  unfoldable pub batch_invites :
      Text → Text → ℕ → List InviteRequest → World → Result Failure BatchResponse × World
  unfolding batch_in trim_space lift_error resolve_project
  batch_invites project actor clock reqs w =
      if is_empty (trim_space project)
      then (err (bad (codes "projectId is required")), w)
      else if is_empty (trim_space actor)
      then (err unauthenticated, w)
      else batch_in actor clock reqs (lift_error (resolve_project project w.db)) w

  -- CancelInvite
  unfoldable pub cancel : Text → Text → World → Result Failure Db × World
  unfolding run_cancel trim_space is_valid_email normalize_email
  cancel project email w =
      if is_empty (trim_space project)
      then (err (bad (codes "projectId is required")), w)
      else if usable_email parse_address (normalize_email email)
      then run_cancel project email w
      else (err (bad (codes "email is invalid")), w)

  unfoldable pub run_member :
      Deployment → Text → Result Failure MemberInput → World → Result Failure Text × World
  unfolding with_tx update_member_permissions after_member
  run_member d project (err f) w = (err f, w)
  run_member d project (ok input) w =
      after_member d project
        (with_tx (λ r. r.0) (update_member_permissions parse_uuid input w.db) w)

  -- UpdateMemberPermissions
  unfoldable pub update_member :
      Deployment → Text → Text → MemberRequest → World → Result Failure Text × World
  unfolding run_member plan_member
  update_member d project member req w =
      run_member d project (plan_member project member req w.db) w
