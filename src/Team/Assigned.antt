-- ===== src/Team/Assigned.antt =====
-- UpdateMemberPermissions of internal/modules/team: the row that it writes.
use projectbook_backend.Base.{
  ℕ, ◌≡◌, refl, sym, ap, ◌∙◌, inl, inr, Bool, true, not, ◌&&◌, Option, none, some, All, find,
  rewrite, Result, ok, err, ◌>>=◌, arith,
}
use projectbook_backend.Base.Rows.{
  Yields, bind-Yields, guard-Yields, ok-Yields, All-rewrite, filter-rewrite, find-any,
}
use projectbook_backend.Text.{Text, text_eq, trim_space, mem_text}
use projectbook_backend.Text.Laws.{text_eq_iff}
use projectbook_backend.Rbac.{role_owner, canonical_roles}
use projectbook_backend.Team.{TeamError, Failure}
use projectbook_backend.Team.Store.{
  Member, RoleRow, Db, is_role_row, storable, is_member_row, member_by_id,
}
use projectbook_backend.Team.Repo.{
  resolve_project, MemberInput, set_member, write_member, update_member_permissions,
}
use projectbook_backend.Team.Synced.{IsSynced}
use projectbook_backend.Team.Plans.{IsPlan}
use projectbook_backend.Team.Service.{lift_error, listed_mask, resolve_role_mask}
use projectbook_backend.Team.Invariant.{SafeMember, IsValid}

IsProjectId : Db → Text → Type 0
IsProjectId db id = mem_text id db.projects ≡ true

resolve_project-IsProjectId :
    (project : Text) (db : Db) → Yields (IsProjectId db) (resolve_project project db)
unfolding resolve_project IsProjectId
resolve_project-IsProjectId project db =
    guard-Yields _ (mem_text (trim_space project) db.projects) _ _
      (λ h. ok-Yields _ (trim_space project) _ refl h)

lifted :
    (r : Result TeamError Text) (f : Text → Result Failure ℕ) (id : Text) (mask : ℕ)
    → r ≡ ok id
    → (lift_error r >>= f) ≡ ok mask
    → f id ≡ ok mask
unfolding lift_error
lifted (ok a) f id mask h k = let e : a ≡ id = cc in rw (sym e) k
lifted (err e) f id mask h k = cc

listed_row :
    (role : Text) (o : Option RoleRow) (r : RoleRow) (mask : ℕ)
    → o ≡ some r
    → listed_mask role o ≡ ok mask
    → r.permission_mask ≡ mask
unfolding listed_mask
listed_row role none r mask h k = cc
listed_row role (some q) r mask h k = let e : q ≡ r = cc in rw (sym e) cc

-- The row that is written is in step with the role it names.
written-IsSynced :
    (project id : Text) (input : MemberInput) (db : Db) (m : Member)
    → IsValid db
    → IsPlan input.project_id db input
    → resolve_project input.project_id db ≡ ok project
    → is_member_row project id m ≡ true
    → IsSynced db.roles (set_member input db.now m)
unfolding set_member resolve_role_mask is_member_row IsProjectId
written-IsSynced project id input db m v plan here h = elim plan.settled [
  | inl c ↦ inl c
  | inr e ↦
      let listed =
        lifted (resolve_project input.project_id db) _ project input.permission_mask here e in
      let known = resolve_project-IsProjectId input.project_id db project here in
      let (r, found) =
        find-any (is_role_row project input.role) db.roles
          (v.seeded project input.role known plan.canonical) in
      let mine : m.project_id ≡ project = ground (arith, h, text_eq_iff m.project_id project) in
      inr (
        r,
        ap (λ p. find (is_role_row p input.role) db.roles) mine ∙ found,
        listed_row input.role _ r input.permission_mask found listed,
      )
]

write_member-IsValid :
    (project id : Text) (input : MemberInput) (db : Db)
    → IsValid db
    → IsPlan input.project_id db input
    → resolve_project input.project_id db ≡ ok project
    → storable input.permission_mask ≡ true
    → IsValid (write_member project id input db)
unfolding write_member is_member_row set_member
write_member-IsValid project id input db v plan here fits = record {
  one_pending = v.one_pending;
  keyed = λ p i. omega (
    arith,
    filter-rewrite (is_member_row p i) (is_member_row project id) (set_member input db.now)
        db.members (λ m h. h),
    v.keyed p i,
  );
  synced =
      All-rewrite (IsSynced db.roles) (IsSynced db.roles) (is_member_row project id)
        (set_member input db.now) db.members
        (λ m s h. written-IsSynced project id input db m v plan here h) (λ m s h. s) v.synced;
  seeded = v.seeded;
  safe_roles = v.safe_roles;
  safe_members = safe_rows;
  safe_invites = v.safe_invites;
}
  where
    safe_rows :
        All SafeMember (rewrite (is_member_row project id) (set_member input db.now) db.members)
    safe_rows =
        All-rewrite SafeMember SafeMember (is_member_row project id) (set_member input db.now)
          db.members (λ m s h. (plan.closed, fits)) (λ m s h. s) v.safe_members

-- UpdateMemberPermissions keeps the tables valid where the service's checks passed its input.
pub update_member_permissions-IsValid :
    (parse_uuid : Text → Option Text) (input : MemberInput) (db : Db)
    → IsValid db
    → IsPlan input.project_id db input
    → Yields (λ r. IsValid r.0) (update_member_permissions parse_uuid input db)
unfolding update_member_permissions
update_member_permissions-IsValid parse_uuid input db v plan =
    bind-Yields _ (resolve_project input.project_id db) _ (λ id h.
      bind-Yields _ (member_by_id parse_uuid id input.member_id db) _ (λ m h1.
        guard-Yields _ (not (text_eq m.role role_owner)) _ _ (λ other.
          guard-Yields _ (mem_text input.role canonical_roles && storable input.permission_mask) _ _
            (λ fits.
              ok-Yields _ (write_member id m.id input db, m.user_id) _ refl
                (write_member-IsValid id m.id input db v plan h (second _ _ fits))))))
  where
    second : (a b : Bool) → a && b ≡ true → b ≡ true
    second a b h = ground arith
