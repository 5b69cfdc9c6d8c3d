-- ===== src/Team/Invariant.antt =====
-- What holds of the tables of internal/modules/team after each operation of repo.go.
use projectbook_backend.Base.{
  ℕ, ◌≡◌, refl, sym, ◌∙◌, Bool, true, false, not, Option, none, some, List, any, All, length,
  filter, ◌≤◌, find, rewrite, ok, arith,
}
use projectbook_backend.Base.Rows.{
  Yields, bind-Yields, guard-Yields, ok-Yields, if-Yields, All-rewrite, All-find, any-rewrite,
  filter-rewrite,
}
use projectbook_backend.Text.{Text, equal_fold, mem_text}
use projectbook_backend.Rbac.{role_owner, canonical_roles}
use projectbook_backend.Rbac.Roles.{IsViewClosed}
use projectbook_backend.Team.{normalize_email}
use projectbook_backend.Team.Store.{
  InviteStatus, is_user, Member, RoleRow, Invite, Db, expired, cancelled, is_stale, expire_stale,
  user_email_exists, member_email_exists, is_pending_for, has_pending, invite_status, is_role_row,
  mask_of_row, role_mask, storable, inviter_role, is_member_row,
}
use projectbook_backend.Team.Repo.{
  resolve_project, check_cancel, is_pending_in, add_invite, insert_invite, new_invite, cancel_rows,
  cancel_invite, CreateInput, create_invite, RoleInput, write_role, to_sync, sync_members,
  apply_role, update_role_permissions,
}
use projectbook_backend.Team.Pending.{
  IsOnePending, expire_stale-IsOnePending, cancel_rows-IsOnePending, add_invite-IsOnePending,
}
use projectbook_backend.Team.Synced.{IsSynced, apply_role-IsSynced}

-- A mask that the columns hold and that has the view bit of each domain it has a bit of.
abbrev pub IsSafeMask : ℕ → Type 0
IsSafeMask m = IsViewClosed m × (storable m ≡ true)

abbrev pub IsSeeded : Db → Type 0
IsSeeded db =
    (project role : Text)
    → mem_text project db.projects ≡ true
    → mem_text role canonical_roles ≡ true
    → any (is_role_row project role) db.roles ≡ true

abbrev pub SafeRow : RoleRow → Type 0
SafeRow r = IsSafeMask r.permission_mask

abbrev pub SafeMember : Member → Type 0
SafeMember m = IsSafeMask m.permission_mask

abbrev pub SafeInvite : Invite → Type 0
SafeInvite i = IsSafeMask i.permission_mask

-- A project has at most one member row of an id.
abbrev pub IsKeyed : List Member → Type 0
IsKeyed ms = (project id : Text) → length (filter (is_member_row project id) ms) ≤ 1

-- One pending invite for an address, one row for a member, members in step with their roles, a row for each role of a
-- project, and safe masks everywhere.
pub record IsValid (db : Db) : Type 0 where
  pub one_pending : IsOnePending db.invites
  pub keyed : IsKeyed db.members
  pub synced : All (IsSynced db.roles) db.members
  pub seeded : IsSeeded db
  pub safe_roles : All SafeRow db.roles
  pub safe_members : All SafeMember db.members
  pub safe_invites : All SafeInvite db.invites

unset : (b : Bool) → not b ≡ true → b ≡ false
unset b h = ground arith

statuses_safe :
    (p : Invite → Bool) (s : InviteStatus) (is : List Invite)
    → All SafeInvite is
    → All SafeInvite (rewrite p (λ i. record i { status = s }) is)
statuses_safe p s is =
    All-rewrite SafeInvite SafeInvite p (λ i. record i { status = s }) is (λ i s h. s) (λ i s h. s)

rows_safe :
    (p : RoleRow → Bool) (mask now : ℕ) (rs : List RoleRow)
    → IsSafeMask mask
    → All SafeRow rs
    → All SafeRow (rewrite p (λ r. record r { permission_mask = mask; updated_at = now }) rs)
rows_safe p mask now rs safe =
    All-rewrite SafeRow SafeRow p (λ r. record r { permission_mask = mask; updated_at = now }) rs
      (λ r s h. safe) (λ r s h. s)

members_safe :
    (p : Member → Bool) (mask now : ℕ) (ms : List Member)
    → IsSafeMask mask
    → All SafeMember ms
    → All SafeMember (rewrite p (λ m. record m { permission_mask = mask; updated_at = now }) ms)
members_safe p mask now ms safe =
    All-rewrite SafeMember SafeMember p (λ m. record m { permission_mask = mask; updated_at = now })
      ms (λ m s h. safe) (λ m s h. s)

expire_stale-IsValid : (project : Text) (db : Db) → IsValid db → IsValid (expire_stale project db)
unfolding expire_stale
expire_stale-IsValid project db v = record {
  one_pending = expire_stale-IsOnePending project db v.one_pending;
  keyed = v.keyed;
  synced = v.synced;
  seeded = v.seeded;
  safe_roles = v.safe_roles;
  safe_members = v.safe_members;
  safe_invites = statuses_safe (is_stale project db.now) expired db.invites v.safe_invites;
}

cancel_rows-IsValid :
    (project email : Text) (db : Db) → IsValid db → IsValid (cancel_rows project email db)
unfolding cancel_rows
cancel_rows-IsValid project email db v = record {
  one_pending = cancel_rows-IsOnePending project email db v.one_pending;
  keyed = v.keyed;
  synced = v.synced;
  seeded = v.seeded;
  safe_roles = v.safe_roles;
  safe_members = v.safe_members;
  safe_invites =
      statuses_safe (is_pending_for project (normalize_email email)) cancelled db.invites
        v.safe_invites;
}

insert_invite-IsValid :
    (user : Option Text) (i : Invite) (db : Db)
    → IsSafeMask i.permission_mask
    → IsValid db
    → Yields IsValid (insert_invite user i db)
unfolding insert_invite
insert_invite-IsValid none i db safe v = λ d h. cc
insert_invite-IsValid (some user) i db safe v =
    guard-Yields _ (any (is_user user) db.users) _ _ (λ known.
      guard-Yields _ (not (any (is_pending_in i) db.invites)) _ _ (λ free.
        ok-Yields _ (add_invite i db) _ refl (record {
          one_pending = add_invite-IsOnePending i db.invites (unset _ free) v.one_pending;
          keyed = v.keyed;
          synced = v.synced;
          seeded = v.seeded;
          safe_roles = v.safe_roles;
          safe_members = v.safe_members;
          safe_invites = (safe, v.safe_invites);
        })))

mask_of_row_safe :
    (o : Option RoleRow) (roles : List RoleRow) (q : RoleRow → Bool) (mask : ℕ)
    → All SafeRow roles
    → find q roles ≡ o
    → mask_of_row o ≡ ok mask
    → IsSafeMask mask
unfolding mask_of_row
mask_of_row_safe none roles q mask a f h = cc
mask_of_row_safe (some r) roles q mask a f h =
    let e : r.permission_mask ≡ mask = cc in rw (sym e) (All-find _ q roles r a f)

role_mask_safe :
    (project role : Text) (db : Db) → IsValid db → Yields IsSafeMask (role_mask project role db)
unfolding role_mask
role_mask_safe project role db v =
    if-Yields _ (mem_text role canonical_roles) _ _
      (λ mask. mask_of_row_safe _ db.roles (is_role_row project role) mask v.safe_roles refl)

-- CreateInvite keeps the tables valid.
pub create_invite-IsValid :
    (parse_uuid : Text → Option Text) (input : CreateInput) (db : Db)
    → IsValid db
    → Yields IsValid (create_invite parse_uuid input db)
unfolding create_invite new_invite
create_invite-IsValid parse_uuid input db v =
    bind-Yields _ (resolve_project input.project_id db) _ (λ id h.
      guard-Yields _ (user_email_exists input.email db) _ _ (λ known.
        guard-Yields _ (not (member_email_exists id input.email db)) _ _ (λ stranger.
          guard-Yields _ (not (has_pending id input.email (expire_stale id db))) _ _ (λ free.
            bind-Yields _ (role_mask id input.role db) _ (λ mask h2.
              bind-Yields _ (inviter_role parse_uuid id input.invited_by db) _ (λ inviter h3.
                insert_invite-IsValid _ _ (expire_stale id db)
                  (role_mask_safe id input.role db v mask h2) (expire_stale-IsValid id db v)))))))

-- CancelInvite keeps the tables valid.
pub cancel_invite-IsValid :
    (project email : Text) (db : Db) → IsValid db → Yields IsValid (cancel_invite project email db)
unfolding cancel_invite
cancel_invite-IsValid project email db v = bind-Yields _ (resolve_project project db) _ (λ id h.
    bind-Yields _ (check_cancel (invite_status id email db)) _ (λ u checked.
      guard-Yields _ (has_pending id email db) _ _ (λ found.
        ok-Yields _ (cancel_rows id email db) _ refl (cancel_rows-IsValid id email db v))))

apply_role-IsValid :
    (project : Text) (input : RoleInput) (db : Db)
    → IsSafeMask input.permission_mask
    → IsValid db
    → IsValid (apply_role project input db).db
unfolding apply_role write_role sync_members is_role_row is_member_row
apply_role-IsValid project input db safe v = record {
  one_pending = v.one_pending;
  keyed = λ p i. omega (
    arith,
    filter-rewrite (is_member_row p i) (to_sync project input.role input.permission_mask)
        (λ m. record m { permission_mask = input.permission_mask; updated_at = db.now }) db.members
        (λ m h. h),
    v.keyed p i,
  );
  synced = apply_role-IsSynced project input db v.synced;
  seeded = λ p r hp hr.
      any-rewrite (is_role_row p r) (is_role_row project input.role) _ db.roles (λ x. refl)
      ∙ v.seeded p r hp hr;
  safe_roles =
      rows_safe (is_role_row project input.role) input.permission_mask db.now db.roles safe
        v.safe_roles;
  safe_members =
      members_safe (to_sync project input.role input.permission_mask) input.permission_mask db.now
        db.members safe v.safe_members;
  safe_invites = v.safe_invites;
}

-- UpdateRolePermissions keeps the tables valid where the mask passed the service's check.
pub update_role_permissions-IsValid :
    (input : RoleInput) (db : Db)
    → IsViewClosed input.permission_mask
    → IsValid db
    → Yields (λ u. IsValid u.db) (update_role_permissions input db)
unfolding update_role_permissions
update_role_permissions-IsValid input db closed v =
    bind-Yields _ (resolve_project input.project_id db) _ (λ id h.
      guard-Yields _ (not (equal_fold input.role role_owner)) _ _ (λ other.
        bind-Yields _ (role_mask id input.role db) _ (λ old h2.
          guard-Yields _ (storable input.permission_mask) _ _ (λ fits.
            ok-Yields _ (apply_role id input db) _ refl
              (apply_role-IsValid id input db (closed, fits) v)))))
