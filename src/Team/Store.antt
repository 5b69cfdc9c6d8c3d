-- ===== src/Team/Store.antt =====
-- The tables that internal/modules/team/repo.go reads and writes, and its queries on them. The rows
-- of invites stand newest first, as `ORDER BY sent_at DESC` reads them. `parse_uuid` is PostgreSQL's
-- cast to uuid. Failures of the connection are not modelled.
use projectbook_backend.Base.{
  ℕ, ◌^◌, ltb, Bool, true, false, ◌&&◌, Option, none, some, List, find, any, rewrite, if◌then◌else◌,
  Result, ok, err,
}
use projectbook_backend.Text.{Text, text_eq, is_empty, trim_space, to_lower, mem_text}
use projectbook_backend.Rbac.{role_member, canonical_roles}
use projectbook_backend.Team.{
  TeamError, member_not_found, role_not_found, wrap_repo_error, normalize_email, canonical_role,
}

pub data InviteStatus : Type 0 where
  pending expired cancelled accepted declined : InviteStatus

unfoldable pub is_pending : InviteStatus → Bool
is_pending pending = true
is_pending expired = false
is_pending cancelled = false
is_pending accepted = false
is_pending declined = false

pub record User : Type 0 where
  pub id : Text
  pub email : Text

pub record Member : Type 0 where
  pub id : Text
  pub project_id : Text
  pub user_id : Text
  pub role : Text
  pub active : Bool
  pub is_custom : Bool
  pub permission_mask : ℕ
  pub updated_at : ℕ

pub record RoleRow : Type 0 where
  pub project_id : Text
  pub role : Text
  pub permission_mask : ℕ
  pub updated_at : ℕ

pub record Invite : Type 0 where
  pub project_id : Text
  pub email : Text
  pub assigned_role : Text
  pub permission_mask : ℕ
  pub inviter_role : Text
  pub status : InviteStatus
  pub sent_at : ℕ
  pub expires_at : ℕ

-- The database, at the time that NOW() reads.
pub record Db : Type 0 where
  pub projects : List Text
  pub users : List User
  pub members : List Member
  pub roles : List RoleRow
  pub invites : List Invite
  pub now : ℕ

-- The email is compared with lower() on both sides.
unfoldable pub email_is : Text → Text → Bool
unfolding text_eq to_lower
email_is email stored = text_eq (to_lower stored) (to_lower email)

-- queryExpireStalePendingInvites, the WHERE clause.
unfoldable pub is_stale : Text → ℕ → Invite → Bool
unfolding text_eq is_pending
is_stale project now i = text_eq i.project_id project && is_pending i.status && ltb i.expires_at now

-- expireStalePendingInvites
unfoldable pub expire_stale : Text → Db → Db
unfolding is_stale
expire_stale project db = record db {
  invites = rewrite (is_stale project db.now) (λ i. record i { status = expired }) db.invites;
}

-- userEmailExists
unfoldable pub user_email_exists : Text → Db → Bool
unfolding email_is normalize_email
user_email_exists email db = any (λ u. email_is (normalize_email email) u.email) db.users

unfoldable pub is_user : Text → User → Bool
unfolding text_eq
is_user id u = text_eq u.id id

-- memberEmailExists
unfoldable pub member_email_exists : Text → Text → Db → Bool
unfolding email_is normalize_email text_eq is_user
member_email_exists project email db =
    any
      (λ m.
        text_eq m.project_id project
        && any (λ u. is_user m.user_id u && email_is (normalize_email email) u.email) db.users)
      db.members

unfoldable pub is_pending_for : Text → Text → Invite → Bool
unfolding text_eq is_pending email_is
is_pending_for project email i =
    text_eq i.project_id project && email_is email i.email && is_pending i.status

-- pendingInviteID: is there one?
unfoldable pub has_pending : Text → Text → Db → Bool
unfolding is_pending_for normalize_email
has_pending project email db = any (is_pending_for project (normalize_email email)) db.invites

unfoldable pub status_of : Option Invite → Option InviteStatus
status_of none = none
status_of (some i) = some i.status

-- inviteStatus: that of the newest invite.
unfoldable pub invite_status : Text → Text → Db → Option InviteStatus
unfolding text_eq email_is normalize_email status_of
invite_status project email db = status_of (
    find (λ i. text_eq i.project_id project && email_is (normalize_email email) i.email) db.invites)

unfoldable pub is_role_row : Text → Text → RoleRow → Bool
unfolding text_eq
is_role_row project role r = text_eq r.project_id project && text_eq r.role role

unfoldable pub mask_of_row : Option RoleRow → Result TeamError ℕ
mask_of_row none = err role_not_found
mask_of_row (some r) = ok r.permission_mask

-- roleMask; a role that the enumeration does not have fails the cast.
unfoldable pub role_mask : Text → Text → Db → Result TeamError ℕ
unfolding is_role_row mask_of_row mem_text
role_mask project role db =
    if mem_text role canonical_roles
    then mask_of_row (find (is_role_row project role) db.roles)
    else err wrap_repo_error

unfoldable pub or_member : Option Text → Text
or_member none = role_member
or_member (some role) = role

unfoldable pub role_of_inviter : Option Member → Text
unfolding or_member canonical_role
role_of_inviter none = role_member
role_of_inviter (some m) = or_member (canonical_role m.role)

-- `int64(mask)` in a column that is checked to be at least 0.
unfoldable pub storable : ℕ → Bool
storable mask = ltb mask (2 ^ 63)

unfoldable pub is_member_row : Text → Text → Member → Bool
unfolding text_eq
is_member_row project id m = text_eq m.project_id project && text_eq m.id id

unfoldable pub found_member : Option Member → Result TeamError Member
found_member none = err member_not_found
found_member (some m) = ok m

module _ (parse_uuid : Text → Option Text) where
  unfoldable pub active_member : Text → Db → Option Text → Result TeamError Text
  unfolding text_eq role_of_inviter
  active_member project db none = err wrap_repo_error
  active_member project db (some user) = ok (
      role_of_inviter
        (find (λ m. text_eq m.project_id project && text_eq m.user_id user && m.active) db.members))

  -- inviterRole
  unfoldable pub inviter_role : Text → Text → Db → Result TeamError Text
  unfolding active_member trim_space
  inviter_role project user db =
      if is_empty (trim_space user)
      then ok role_member
      else active_member project db (parse_uuid (trim_space user))

  unfoldable pub member_of_uuid : Text → Db → Option Text → Result TeamError Member
  unfolding is_member_row found_member
  member_of_uuid project db none = err wrap_repo_error
  member_of_uuid project db (some id) = found_member (find (is_member_row project id) db.members)

  -- memberByID
  unfoldable pub member_by_id : Text → Text → Db → Result TeamError Member
  unfolding member_of_uuid trim_space
  member_by_id project id db = member_of_uuid project db (parse_uuid (trim_space id))
