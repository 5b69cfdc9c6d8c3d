-- ===== src/Team/Resolution.antt =====
-- The mask that internal/core/permissions resolves for a member, after the roles of his project were
-- changed by internal/modules/team. `named` finds the id of the project that a text names, by id or
-- by slug.
use projectbook_backend.Base.{
  ℕ, ◌≡◌, refl, ap, ◌∙◌, inl, inr, Bool, true, false, not, ◌&&◌, ◌||◌, Bool-cases, Option, none,
  some, find, if◌then◌else◌, ok, arith,
}
use projectbook_backend.Base.Rows.{
  Yields, bind-Yields, guard-Yields, ok-Yields, find-rewrite_same, find-rewrite, find_passes,
  if-Yields,
}
use projectbook_backend.Text.{Text, text_eq, is_empty, trim_space, equal_fold, mem_text}
use projectbook_backend.Text.Laws.{text_eq_iff}
use projectbook_backend.Rbac.{role_owner, canonical_roles}
use projectbook_backend.Policy.Http.{Resolution}
use projectbook_backend.Permissions.Relational.{
  nonnegative, MembershipRow, Answer, found, no_rows, failed, resolve_row, resolve_answer,
  resolve_relational, is_negative, check_role_mask, resolution_of, effective_mask, magnitude,
}
use projectbook_backend.Team.Store.{
  Member, RoleRow, Db, is_role_row, mask_of_row, role_mask, storable,
}
use projectbook_backend.Team.Repo.{
  resolve_project, RoleInput, RoleUpdated, write_role, to_sync, sync_members, apply_role,
  update_role_permissions,
}

unfoldable pub membership_row : Member → RoleRow → MembershipRow
membership_row m r = record {
  project_id = m.project_id;
  role = m.role;
  is_custom = m.is_custom;
  member_mask = nonnegative m.permission_mask;
  role_mask = nonnegative r.permission_mask;
  has_role_mask = true;
  member_updated = m.updated_at;
  role_updated = r.updated_at;
}

-- The row of a member and of his role.
unfoldable pub row_of : Member → Option RoleRow → Answer
unfolding membership_row
row_of m none = failed
row_of m (some r) = found (membership_row m r)

unfoldable pub is_membership : Text → Text → Member → Bool
unfolding text_eq
is_membership project user m = text_eq m.project_id project && text_eq m.user_id user && m.active

unfoldable pub answer_of : Db → Option Member → Answer
unfolding row_of is_role_row
answer_of db none = no_rows
answer_of db (some m) = row_of m (find (is_role_row m.project_id m.role) db.roles)

module _ (named parse_uuid : Text → Option Text) where
  unfoldable pub in_project : Db → Option Text → Text → Answer
  unfolding answer_of is_membership
  in_project db none user = no_rows
  in_project db (some project) user = answer_of db (find (is_membership project user) db.members)

  unfoldable pub by_user : Db → Text → Option Text → Answer
  unfolding in_project
  by_user db project none = failed
  by_user db project (some user) = in_project db (named project) user

  -- queryResolveProjectMembership
  unfoldable pub membership : Db → Text → Text → Answer
  unfolding by_user
  membership db project user = by_user db project (parse_uuid user)

-- The row of the role that an update of its mask has found, and what the update did.
record IsUpdate (id : Text) (input : RoleInput) (db : Db) (u : RoleUpdated) : Type 0 where
  row : RoleRow
  has_row : find (is_role_row id input.role) db.roles ≡ some row
  applied : u ≡ apply_role id input db

found_row : (o : Option RoleRow) (mask : ℕ) → mask_of_row o ≡ ok mask → (r : RoleRow) × (o ≡ some r)
unfolding mask_of_row
found_row none mask h = cc
found_row (some r) mask h = (r, refl)

HasRow : Text → Text → Db → ℕ → Type 0
HasRow id role db mask = (r : RoleRow) × (find (is_role_row id role) db.roles ≡ some r)

role_mask-HasRow : (id role : Text) (db : Db) → Yields (HasRow id role db) (role_mask id role db)
unfolding role_mask HasRow
role_mask-HasRow id role db =
    if-Yields _ (mem_text role canonical_roles) _ _ (λ mask h. found_row _ mask h)

update_role_permissions-IsUpdate :
    (id : Text) (input : RoleInput) (db : Db)
    → resolve_project input.project_id db ≡ ok id
    → Yields (IsUpdate id input db) (update_role_permissions input db)
unfolding update_role_permissions HasRow
update_role_permissions-IsUpdate id input db here = rw here (
    guard-Yields _ (not (equal_fold input.role role_owner)) _ _ (λ other.
      bind-Yields _ (role_mask id input.role db) _ (λ old h.
        guard-Yields _ (storable input.permission_mask) _ _ (λ fits.
          let (r, e) = role_mask-HasRow id input.role db old h in
          ok-Yields _ (apply_role id input db) _ refl
            (record { row = r; has_row = e; applied = refl })))))

-- The mask of a member of the role after the update.
pub mask_after : RoleInput → Member → ℕ
mask_after input m = if m.is_custom then m.permission_mask else input.permission_mask

synced_row : Text → RoleInput → ℕ → Member → Member
synced_row id input now m =
    if to_sync id input.role input.permission_mask m
    then record m { permission_mask = input.permission_mask; updated_at = now }
    else m

-- What a rewriting of a member's row leaves as it was.
IsLike : Member → Member → Type 0
IsLike m n = (n.project_id ≡ m.project_id) × (n.role ≡ m.role) × (n.is_custom ≡ m.is_custom)

synced_row-IsLike :
    (id : Text) (input : RoleInput) (now : ℕ) (m : Member) → IsLike m (synced_row id input now m)
unfolding synced_row IsLike
synced_row-IsLike id input now m =
    elim (Bool-cases (to_sync id input.role input.permission_mask m)) [
      | inl e ↦ rw e (refl, refl, refl)
      | inr e ↦ rw e (refl, refl, refl)
    ]

synced_row_mask :
    (id : Text) (input : RoleInput) (now : ℕ) (m : Member)
    → m.is_custom ≡ true
    → (synced_row id input now m).permission_mask ≡ m.permission_mask
unfolding synced_row to_sync
synced_row_mask id input now m h = ground (arith, h)

own_mask :
    (now : ℕ) (user : Text) (n : Member) (r : RoleRow)
    → (resolution_of now user (membership_row n r)).mask
      ≡ (if n.is_custom then n.permission_mask else r.permission_mask)
unfolding resolution_of membership_row effective_mask magnitude
own_mask now user n r = refl

resolve_found :
    (now : ℕ) (user : Text) (n : Member) (r : RoleRow)
    → is_empty (trim_space n.project_id) ≡ false
    → (res : Resolution) × (resolve_answer now user (row_of n (some r)) ≡ ok res)
      × (res.mask ≡ (if n.is_custom then n.permission_mask else r.permission_mask))
unfolding row_of resolve_answer resolve_row check_role_mask is_negative
resolve_found now user n r full = elim (Bool-cases n.is_custom) [
  | inl c ↦ (resolution_of now user (membership_row n r), rw (full, c) refl, own_mask now user n r)
  | inr c ↦ (resolution_of now user (membership_row n r), rw (full, c) refl, own_mask now user n r)
]

role_after :
    (id : Text) (input : RoleInput) (db : Db) (row : RoleRow)
    → find (is_role_row id input.role) db.roles ≡ some row
    → find (is_role_row id input.role) (apply_role id input db).db.roles
      ≡ some (record row { permission_mask = input.permission_mask; updated_at = db.now })
unfolding apply_role write_role sync_members is_role_row
role_after id input db row h =
    find-rewrite_same (is_role_row id input.role) (is_role_row id input.role)
      (λ r. record r { permission_mask = input.permission_mask; updated_at = db.now }) db.roles
      (λ x. refl) (λ x k. k) row h

member_after :
    (id uid : Text) (input : RoleInput) (db : Db) (m : Member)
    → find (is_membership id uid) db.members ≡ some m
    → find (is_membership id uid) (apply_role id input db).db.members
      ≡ some (synced_row id input db.now m)
unfolding apply_role write_role sync_members is_membership synced_row
member_after id uid input db m h =
    find-rewrite (is_membership id uid) (to_sync id input.role input.permission_mask)
      (λ m. record m { permission_mask = input.permission_mask; updated_at = db.now }) db.members
      (λ x. refl) m h

mask_settled :
    (id : Text) (input : RoleInput) (now : ℕ) (m : Member)
    → (if (synced_row id input now m).is_custom
        then (synced_row id input now m).permission_mask
        else input.permission_mask)
      ≡ mask_after input m
unfolding synced_row to_sync mask_after
mask_settled id input now m = ground arith

-- The query for a member of the role's project, after the update.
answer_after :
    (named parse_uuid : Text → Option Text) (id uid project user : Text) (input : RoleInput)
    (db : Db) (m : Member) (row : RoleRow)
    → named project ≡ some id
    → parse_uuid user ≡ some uid
    → find (is_membership id uid) db.members ≡ some m
    → m.role ≡ input.role
    → find (is_role_row id input.role) db.roles ≡ some row
    → membership named parse_uuid (apply_role id input db).db project user
      ≡ row_of
          (synced_row id input db.now m)
          (some (record row { permission_mask = input.permission_mask; updated_at = db.now }))
unfolding membership by_user in_project answer_of IsLike is_membership
answer_after named parse_uuid id uid project user input db m row hn hu hm hr hrow =
    let like = synced_row-IsLike id input db.now m in
    let mine = find_passes (is_membership id uid) db.members m hm in
    let of_id : m.project_id ≡ id = ground (arith, mine, text_eq_iff m.project_id id) in
    rw
      (
        hu,
        hn,
        member_after id uid input db m hm,
        like.0,
        like.1,
        of_id,
        hr,
        role_after id input db row hrow,
      )
      refl

-- After UpdateRolePermissions has succeeded, an active member of that role and project is resolved
-- from the database, by the project's id or slug: to the new mask where he has no mask of his own,
-- and to his own mask otherwise. The user, the project and its id are not blank.
pub update_role_resolves :
    (named parse_uuid : Text → Option Text) (id uid project user : Text) (now : ℕ)
    (input : RoleInput) (db : Db) (u : RoleUpdated) (m : Member)
    → update_role_permissions input db ≡ ok u
    → resolve_project input.project_id db ≡ ok id
    → named (trim_space project) ≡ some id
    → parse_uuid (trim_space user) ≡ some uid
    → is_empty (trim_space user) || is_empty (trim_space project) || is_empty (trim_space id)
      ≡ false
    → find (is_membership id uid) db.members ≡ some m
    → m.role ≡ input.role
    → (res : Resolution) × (resolve_relational (membership named parse_uuid u.db) now user project
        ≡ ok res)
      × (res.mask ≡ mask_after input m)
unfolding resolve_relational IsLike is_membership
update_role_resolves named parse_uuid id uid project user now input db u m done here hn hu full hm
      hr =
    let up = update_role_permissions-IsUpdate id input db here u done in
    let n = synced_row id input db.now m in
    let like = synced_row-IsLike id input db.now m in
    let mine = find_passes (is_membership id uid) db.members m hm in
    let of_id : n.project_id ≡ id = like.0 ∙ ground (arith, mine, text_eq_iff m.project_id id) in
    let whole : is_empty (trim_space n.project_id) ≡ false =
      ap (λ p. is_empty (trim_space p)) of_id ∙ ground (arith, full) in
    let some_text : is_empty (trim_space user) || is_empty (trim_space project) ≡ false =
      ground (arith, full) in
    let (res, e, k) =
      resolve_found now (trim_space user) n
        (record up.row { permission_mask = input.permission_mask; updated_at = db.now }) whole in
    (
      res,
      rw
          (
            up.applied,
            some_text,
            answer_after named parse_uuid id uid (trim_space project) (trim_space user) input db m
                up.row hn hu hm hr up.has_row,
          )
          e,
      k ∙ mask_settled id input db.now m,
    )
