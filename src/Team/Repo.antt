-- ===== src/Team/Repo.antt =====
-- The operations of internal/modules/team/repo.go, each in the transaction that the service opens: an
-- error leaves the database as it was. The notification of the invited user is not modelled.
use projectbook_backend.Base.{
  ℕ, ◌==◌, Bool, not, ◌&&◌, Option, none, some, List, ◌∷◌, length, filter, any, rewrite, map,
  Result, ok, err, ◌>>=◌, ◌>>◌, guard,
}
use projectbook_backend.Text.{Text, text_eq, trim_space, equal_fold, mem_text}
use projectbook_backend.Text.Unique.{unique_strings}
use projectbook_backend.Rbac.{role_owner, canonical_roles}
use projectbook_backend.Team.{
  TeamError, project_not_found, invite_taken, invite_missing, invite_not_pending, email_unknown,
  owner_immutable, member_already_exists, wrap_repo_error, normalize_email,
}
use projectbook_backend.Team.Store.{
  InviteStatus, pending, cancelled, is_pending, is_user, Member, Invite, Db, expire_stale,
  user_email_exists, member_email_exists, is_pending_for, has_pending, invite_status, is_role_row,
  role_mask, storable, inviter_role, is_member_row, member_by_id,
}

-- ResolveProjectIdentity, of the project's id.
unfoldable pub resolve_project : Text → Db → Result TeamError Text
unfolding mem_text trim_space
resolve_project project db =
    guard (mem_text (trim_space project) db.projects) project_not_found >> ok (trim_space project)

pub record CreateInput : Type 0 where
  pub project_id : Text
  pub email : Text
  pub role : Text
  pub invited_by : Text
  pub expires_at : ℕ

abbrev pub add_invite : Invite → Db → Db
add_invite i db = record db { invites = i ∷ db.invites }

unfoldable pub is_pending_in : Invite → Invite → Bool
unfolding is_pending_for
is_pending_in i j = is_pending_for i.project_id i.email j

-- queryCreateInvite, by a user of this id: the reference to users and the unique index on pending
-- invites (over citext) hold, or the statement fails.
unfoldable pub insert_invite : Option Text → Invite → Db → Result TeamError Db
unfolding is_user is_pending_in
insert_invite none i db = err wrap_repo_error
insert_invite (some user) i db = do
  guard (any (is_user user) db.users) wrap_repo_error
  guard (not (any (is_pending_in i) db.invites)) invite_taken
  ok (add_invite i db)

unfoldable pub new_invite : CreateInput → Text → ℕ → Text → ℕ → Invite
unfolding normalize_email
new_invite input project mask inviter now = record {
  project_id = project;
  email = normalize_email input.email;
  assigned_role = input.role;
  permission_mask = mask;
  inviter_role = inviter;
  status = pending;
  sent_at = now;
  expires_at = input.expires_at;
}

-- queryCancelInvite, the WHERE clause.
unfoldable pub cancel_rows : Text → Text → Db → Db
unfolding is_pending_for normalize_email
cancel_rows project email db = record db {
  invites =
      rewrite (is_pending_for project (normalize_email email))
        (λ i. record i { status = cancelled }) db.invites;
}

unfoldable pub check_cancel : Option InviteStatus → Result TeamError (Unit {0})
unfolding is_pending
check_cancel none = err invite_missing
check_cancel (some s) = guard (is_pending s) invite_not_pending

-- CancelInvite
unfoldable pub cancel_invite : Text → Text → Db → Result TeamError Db
unfolding resolve_project invite_status check_cancel has_pending cancel_rows
cancel_invite project email db = do
  id ← resolve_project project db
  check_cancel (invite_status id email db)
  guard (has_pending id email db) invite_missing
  ok (cancel_rows id email db)

pub record MemberInput : Type 0 where
  pub project_id : Text
  pub member_id : Text
  pub role : Text
  pub is_custom : Bool
  pub permission_mask : ℕ

-- UpdateRolePermissionsInput, without the user who makes the change: his identifier is only stored, and
-- a failure of its cast to uuid or of its foreign key is left out.
pub record RoleInput : Type 0 where
  pub project_id : Text
  pub role : Text
  pub permission_mask : ℕ

unfoldable pub set_member : MemberInput → ℕ → Member → Member
set_member input now m = record m {
  role = input.role;
  is_custom = input.is_custom;
  permission_mask = input.permission_mask;
  updated_at = now;
}

-- queryUpdateMemberPermissions on the row of this id.
unfoldable pub write_member : Text → Text → MemberInput → Db → Db
unfolding is_member_row set_member
write_member project id input db = record db {
  members = rewrite (is_member_row project id) (set_member input db.now) db.members;
}

-- queryUpdateRolePermissions
unfoldable pub write_role : Text → Text → ℕ → Db → Db
unfolding is_role_row
write_role project role mask db = record db {
  roles =
      rewrite (is_role_row project role)
        (λ r. record r { permission_mask = mask; updated_at = db.now }) db.roles;
}

-- The WHERE clause of querySyncNonCustomMembersForRole.
unfoldable pub to_sync : Text → Text → ℕ → Member → Bool
unfolding text_eq
to_sync project role mask m =
    text_eq m.project_id project
    && text_eq m.role role
    && not m.is_custom
    && not (m.permission_mask == mask)

-- querySyncNonCustomMembersForRole
unfoldable pub sync_members : Text → Text → ℕ → Db → Db
unfolding to_sync
sync_members project role mask db = record db {
  members =
      rewrite (to_sync project role mask)
        (λ m. record m { permission_mask = mask; updated_at = db.now }) db.members;
}

-- The ids that the statement returns.
unfoldable pub synced_users : Text → Text → ℕ → Db → List Text
unfolding to_sync trim_space unique_strings
synced_users project role mask db =
    unique_strings (map (λ m. trim_space m.user_id) (filter (to_sync project role mask) db.members))

-- customMembersCount
unfoldable pub custom_members_count : Text → Text → Db → ℕ
unfolding text_eq
custom_members_count project role db =
    length
      (filter (λ m. text_eq m.project_id project && text_eq m.role role && m.is_custom) db.members)

pub record RoleUpdated : Type 0 where
  pub db : Db
  pub users : List Text
  pub custom_unaffected : ℕ

-- The statements of UpdateRolePermissions after its checks.
unfoldable pub apply_role : Text → RoleInput → Db → RoleUpdated
unfolding write_role sync_members synced_users custom_members_count
apply_role project input db = record {
  db =
      sync_members project input.role input.permission_mask
        (write_role project input.role input.permission_mask db);
  users = synced_users project input.role input.permission_mask db;
  custom_unaffected = custom_members_count project input.role db;
}

-- UpdateRolePermissions
unfoldable pub update_role_permissions : RoleInput → Db → Result TeamError RoleUpdated
unfolding resolve_project role_mask storable apply_role equal_fold
update_role_permissions input db = do
  id ← resolve_project input.project_id db
  guard (not (equal_fold input.role role_owner)) owner_immutable
  old ← role_mask id input.role db
  guard (storable input.permission_mask) wrap_repo_error
  ok (apply_role id input db)

module _ (parse_uuid : Text → Option Text) where
  -- CreateInvite
  unfoldable pub create_invite : CreateInput → Db → Result TeamError Db
  unfolding resolve_project expire_stale user_email_exists member_email_exists has_pending role_mask
      inviter_role insert_invite new_invite trim_space
  create_invite input db = do
    id ← resolve_project input.project_id db
    guard (user_email_exists input.email db) email_unknown
    guard (not (member_email_exists id input.email db)) member_already_exists
    guard (not (has_pending id input.email (expire_stale id db))) invite_taken
    mask ← role_mask id input.role db
    inviter ← inviter_role parse_uuid id input.invited_by db
    insert_invite (parse_uuid (trim_space input.invited_by))
        (new_invite input id mask inviter db.now) (expire_stale id db)

  -- UpdateMemberPermissions: the database and the id of the user.
  unfoldable pub update_member_permissions : MemberInput → Db → Result TeamError (Db × Text)
  unfolding resolve_project member_by_id text_eq storable write_member mem_text
  update_member_permissions input db = do
    id ← resolve_project input.project_id db
    current ← member_by_id parse_uuid id input.member_id db
    guard (not (text_eq current.role role_owner)) owner_immutable
    guard (mem_text input.role canonical_roles && storable input.permission_mask) wrap_repo_error
    ok (write_member id current.id input db, current.user_id)
