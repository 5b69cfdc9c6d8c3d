-- ===== src/Team/Owners.antt =====
-- The owners among the members of internal/modules/team.
use projectbook_backend.Base.{
  ℕ, ◌≡◌, refl, ap, ◌∙◌, Bool, true, false, not, ◌&&◌, Option, none, some, List, any, filter, find,
  Result, arith,
}
use projectbook_backend.Base.Rows.{
  Yields, bind-Yields, guard-Yields, ok-Yields, filter-rewrite_out, filter-rewrite_one, find_passes,
}
use projectbook_backend.Text.{Text, text_eq, mem_text, equal_fold}
use projectbook_backend.Text.Laws.{text_eq_iff, equal_fold_refl}
use projectbook_backend.Rbac.{role_owner, canonical_roles}
use projectbook_backend.Team.{TeamError}
use projectbook_backend.Team.Store.{
  Member, Invite, Db, is_user, user_email_exists, member_email_exists, has_pending, invite_status,
  expire_stale, role_mask, inviter_role, storable, is_member_row, found_member, member_of_uuid,
  member_by_id,
}
use projectbook_backend.Team.Repo.{
  resolve_project, check_cancel, is_pending_in, add_invite, insert_invite, cancel_rows, CreateInput,
  create_invite, cancel_invite, MemberInput, set_member, write_member, update_member_permissions,
  RoleInput, to_sync, write_role, sync_members, apply_role, update_role_permissions,
}
use projectbook_backend.Team.Invariant.{
  IsValid, create_invite-IsValid, cancel_invite-IsValid, update_role_permissions-IsValid,
}
use projectbook_backend.Team.Assigned.{update_member_permissions-IsValid}
use projectbook_backend.Team.Service.{World}
use projectbook_backend.Team.Steps.{TeamRun, run_keeps}
use projectbook_backend.Team.Runs.{wait-IsValid}

pub is_owner : Member → Bool
is_owner m = text_eq m.role role_owner

-- The rows of owners, in order.
abbrev pub owners : Db → List Member
owners db = filter is_owner db.members

pub HasMembers : List Member → Db → Type 0
HasMembers ms db = db.members ≡ ms

insert_invite-HasMembers :
    (user : Option Text) (i : Invite) (db : Db)
    → Yields (HasMembers db.members) (insert_invite user i db)
unfolding insert_invite HasMembers
insert_invite-HasMembers none i db = λ d h. cc
insert_invite-HasMembers (some user) i db =
    guard-Yields _ (any (is_user user) db.users) _ _ (λ known.
      guard-Yields _ (not (any (is_pending_in i) db.invites)) _ _
        (λ free. ok-Yields _ (add_invite i db) _ refl refl))

pub create_invite-HasMembers :
    (parse_uuid : Text → Option Text) (input : CreateInput) (db : Db)
    → Yields (HasMembers db.members) (create_invite parse_uuid input db)
unfolding create_invite expire_stale
create_invite-HasMembers parse_uuid input db =
    bind-Yields _ (resolve_project input.project_id db) _ (λ id h.
      guard-Yields _ (user_email_exists input.email db) _ _ (λ known.
        guard-Yields _ (not (member_email_exists id input.email db)) _ _ (λ stranger.
          guard-Yields _ (not (has_pending id input.email (expire_stale id db))) _ _ (λ free.
            bind-Yields _ (role_mask id input.role db) _ (λ mask h2.
              bind-Yields _ (inviter_role parse_uuid id input.invited_by db) _
                (λ inviter h3. insert_invite-HasMembers _ _ (expire_stale id db)))))))

cancel_invite-HasMembers :
    (project email : Text) (db : Db)
    → Yields (HasMembers db.members) (cancel_invite project email db)
unfolding cancel_invite cancel_rows HasMembers
cancel_invite-HasMembers project email db = bind-Yields _ (resolve_project project db) _ (λ id h.
    bind-Yields _ (check_cancel (invite_status id email db)) _ (λ u checked.
      guard-Yields _ (has_pending id email db) _ _
        (λ found. ok-Yields _ (cancel_rows id email db) _ refl refl)))

HasOwners : List Member → Db → Type 0
HasOwners ms db = owners db ≡ ms

-- A row of a role that is not the owner's, up to letter case, is no owner's.
not_owner_row :
    (p role : Text) (mask : ℕ) (m : Member)
    → equal_fold role role_owner ≡ false
    → to_sync p role mask m ≡ true
    → is_owner m ≡ false
unfolding to_sync is_owner
not_owner_row p role mask m h k =
    ground
      (arith, text_eq_iff m.role role, text_eq_iff m.role role_owner, equal_fold_refl role_owner)

unset : (b : Bool) → not b ≡ true → b ≡ false
unset b h = ground arith

update_role_permissions-HasOwners :
    (input : RoleInput) (db : Db) (ms : List Member)
    → HasOwners ms db
    → Yields (λ u. HasOwners ms u.db) (update_role_permissions input db)
unfolding update_role_permissions apply_role sync_members write_role HasOwners is_owner
update_role_permissions-HasOwners input db ms o =
    bind-Yields _ (resolve_project input.project_id db) _ (λ id h.
      guard-Yields _ (not (equal_fold input.role role_owner)) _ _ (λ other.
        bind-Yields _ (role_mask id input.role db) _ (λ old h2.
          guard-Yields _ (storable input.permission_mask) _ _ (λ fits.
            ok-Yields _ (apply_role id input db) _ refl (
              filter-rewrite_out is_owner (to_sync id input.role input.permission_mask)
                (λ m. record m { permission_mask = input.permission_mask; updated_at = db.now })
                db.members
                (λ m k. not_owner_row id input.role input.permission_mask m (unset _ other) k)
                (λ m k. not_owner_row id input.role input.permission_mask m (unset _ other) k)
              ∙ o)))))

IsFoundBy : Text → Db → Member → Type 0
IsFoundBy project db m = find (is_member_row project m.id) db.members ≡ some m

found_member-IsFoundBy :
    (project id : Text) (db : Db) (o : Option Member)
    → find (is_member_row project id) db.members ≡ o
    → Yields (IsFoundBy project db) (found_member o)
unfolding found_member IsFoundBy is_member_row
found_member-IsFoundBy project id db none h = λ m k. cc
found_member-IsFoundBy project id db (some m) h =
    let row = find_passes (is_member_row project id) db.members m h in
    let same : m.id ≡ id = ground (arith, row, text_eq_iff m.id id) in
    ok-Yields _ m _ refl (ap (λ i. find (is_member_row project i) db.members) same ∙ h)

member_of_uuid-IsFoundBy :
    (parse_uuid : Text → Option Text) (project : Text) (db : Db) (o : Option Text)
    → Yields (IsFoundBy project db) (member_of_uuid parse_uuid project db o)
unfolding member_of_uuid
member_of_uuid-IsFoundBy parse_uuid project db none = λ m k. cc
member_of_uuid-IsFoundBy parse_uuid project db (some id) =
    found_member-IsFoundBy project id db _ refl

update_member_permissions-HasOwners :
    (parse_uuid : Text → Option Text) (input : MemberInput) (db : Db) (ms : List Member)
    → IsValid db
    → text_eq input.role role_owner ≡ false
    → HasOwners ms db
    → Yields (λ r. HasOwners ms r.0) (update_member_permissions parse_uuid input db)
unfolding update_member_permissions write_member HasOwners is_owner set_member member_by_id
    IsFoundBy
update_member_permissions-HasOwners parse_uuid input db ms v lower o =
    bind-Yields _ (resolve_project input.project_id db) _ (λ id h.
      bind-Yields _ (member_by_id parse_uuid id input.member_id db) _ (λ m h1.
        guard-Yields _ (not (text_eq m.role role_owner)) _ _ (λ other.
          guard-Yields _ (mem_text input.role canonical_roles && storable input.permission_mask) _ _
            (λ fits.
              let found = member_of_uuid-IsFoundBy parse_uuid id db _ m h1 in
              ok-Yields _ (write_member id m.id input db, m.user_id) _ refl
                (filter-rewrite_one is_owner (is_member_row id m.id) (set_member input db.now)
                    db.members m found (v.keyed id m.id) (unset _ other) lower
                  ∙ o)))))

-- Valid tables with these owners.
IsOwnedBy : List Member → Db → Type 0
IsOwnedBy ms db = IsValid db × HasOwners ms db

both {ℓ κ} :
    {E : Type ℓ} {A : Type κ} (P Q : A → Type 0) (r : Result E A)
    → Yields P r
    → Yields Q r
    → Yields (λ a. P a × Q a) r
both P Q r h k a e = (h a e, k a e)

same_members :
    (ms : List Member) (db : Db) (r : Result TeamError Db)
    → HasOwners ms db
    → Yields (HasMembers db.members) r
    → Yields (HasOwners ms) r
unfolding HasOwners HasMembers
same_members ms db r o h d e = ap (filter is_owner) (h d e) ∙ o

-- Over any run of the service from valid tables, the rows of the members whose role is Owner stay the
-- same, in number, order and content: none is changed and none is added.
pub run-owners :
    (parse_address parse_uuid : Text → Option Text) (u v : World)
    → TeamRun parse_address parse_uuid u v
    → IsValid u.db
    → owners v.db ≡ owners u.db
unfolding IsOwnedBy HasOwners
run-owners parse_address parse_uuid u v run valid =
    let ms = owners u.db in
    (run_keeps parse_address parse_uuid (IsOwnedBy ms)
      (λ i db h.
        both IsValid (HasOwners ms) _ (create_invite-IsValid parse_uuid i db h.0)
          (same_members ms db _ h.1 (create_invite-HasMembers parse_uuid i db)))
      (λ p e db h.
        both IsValid (HasOwners ms) _ (cancel_invite-IsValid p e db h.0)
          (same_members ms db _ h.1 (cancel_invite-HasMembers p e db)))
      (λ i db h plan.
        both (λ r. IsValid r.0) (λ r. HasOwners ms r.0) _
          (update_member_permissions-IsValid parse_uuid i db h.0 plan)
          (update_member_permissions-HasOwners parse_uuid i db ms h.0 plan.not_owner h.1))
      (λ i db closed h.
        both (λ r. IsValid r.db) (λ r. HasOwners ms r.db) _
          (update_role_permissions-IsValid i db closed h.0)
          (update_role_permissions-HasOwners i db ms h.1))
      (λ now db h. (wait-IsValid now db h.0, h.1)) u v run (valid, refl)).1
