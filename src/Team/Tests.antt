-- ===== src/Team/Tests.antt =====
-- A project with an owner and a viewer: invitations, a batch, and a change of the viewers' mask.
use projectbook_backend.Base.{
  All, ◌≡◌, ◌↔◌, refl, inr, true, false, Option, some, List, [], ◌∷◌, map, any, find, ok, arith,
}
use projectbook_backend.Text.{Text, codes, trim_space, mem_text}
use projectbook_backend.Text.Laws.{text_eq_iff}
use projectbook_backend.Rbac.{
  role_owner, role_admin, role_viewer, role_limited_access, canonical_roles,
}
use projectbook_backend.Rbac.Roles.{IsViewClosed}
use projectbook_backend.Policy.Http.{Resolution, bad_request}
use projectbook_backend.Permissions.Tags.{Deployment}
use projectbook_backend.Permissions.Relational.{resolve_relational}
use projectbook_backend.Team.{
  common, invite_exists, InviteRequest, RoleRequest, canonical_role, canonical_role_from_slug,
  validate_mask_dependencies,
}
use projectbook_backend.Team.Store.{
  pending, Invite, has_pending, Member, RoleRow, Db, is_role_row, is_member_row, storable,
  role_mask,
}
use projectbook_backend.Team.Repo.{
  cancel_rows, cancel_invite, resolve_project, RoleInput, apply_role, update_role_permissions,
}
use projectbook_backend.Team.Service.{World, BatchResponse, batch_invites, update_role}
use projectbook_backend.Team.Cancelled.{cancel_invite-has_pending}
use projectbook_backend.Team.Masks.{validate_mask_dependencies_iff}
use projectbook_backend.Team.Roles.{canonical_role_from_slug-canonical_role}
use projectbook_backend.Team.Invariant.{IsSafeMask, IsSeeded, IsKeyed, IsValid}
use projectbook_backend.Team.Steps.{updates_role, TeamRun, stays, steps}
use projectbook_backend.Team.Runs.{run-IsValid}
use projectbook_backend.Team.Owners.{owners, run-owners}
use projectbook_backend.Team.Resolution.{
  is_membership, membership, mask_after, update_role_resolves,
}
use projectbook_backend.Team.Invalidation.{IsForgotten, update_role_forgets}
use projectbook_backend.Team.Lifecycle.{run_startup}
use projectbook_backend.Team.Lifecycle.Startup.{IsSyncedIfPlaced, customs, run_startup-IsSynced}
use projectbook_backend.Team.Batch.Reports.{IsReported}
use projectbook_backend.Team.Batch.{one_by_one, batch_invites-one_by_one}

abbrev address : Text → Option Text
address t = some t

abbrev project : Text
project = codes "p1"

abbrev row : Text → RoleRow
row r = record { project_id = project; role = r; permission_mask = 1; updated_at = 5 }

abbrev member : Text → Text → Text → Member
member i u r = record {
  id = i;
  project_id = project;
  user_id = u;
  role = r;
  active = true;
  is_custom = false;
  permission_mask = 1;
  updated_at = 5;
}

abbrev the_viewer : Member
the_viewer = member (codes "m2") (codes "u2") role_viewer

abbrev db : Db
db = record {
  projects = project ∷ [];
  users =
      record { id = codes "u1"; email = codes "a@x" }
      ∷ record { id = codes "u2"; email = codes "b@x" }
      ∷ record { id = codes "u3"; email = codes "c@x" }
      ∷ [];
  members = member (codes "m1") (codes "u1") role_owner ∷ the_viewer ∷ [];
  roles = map row canonical_roles;
  invites = [];
  now = 7;
}

abbrev world : World
world = record { db = db; log = [] }

abbrev deployment : Deployment
deployment = record { has_redis = true; has_invalidator = true }

safe_one : IsSafeMask 1
unfolding validate_mask_dependencies storable
safe_one = ((validate_mask_dependencies_iff 1).0 refl, refl)

row_here :
    (p role : Text) (roles : List Text)
    → p ≡ project
    → mem_text role roles ≡ true
    → any (is_role_row p role) (map row roles) ≡ true
unfolding mem_text is_role_row
row_here p role [] e h = cc
row_here p role (r ∷ rs) e h =
    ground (
      arith,
      row_here p role rs e,
      text_eq_iff role r,
      text_eq_iff r role,
      text_eq_iff project p,
      e,
    )

db-IsSeeded : IsSeeded db
unfolding mem_text
db-IsSeeded p role hp hr =
    row_here p role canonical_roles (ground (arith, hp, text_eq_iff p project)) hr

db-IsKeyed : IsKeyed db.members
unfolding is_member_row
db-IsKeyed p id = ground (arith, text_eq_iff (codes "m1") id, text_eq_iff (codes "m2") id)

db-IsValid : IsValid db
unfolding is_role_row
db-IsValid = record {
  one_pending = λ p e. omega arith;
  keyed = db-IsKeyed;
  synced = (inr (row role_owner, refl, refl), (inr (row role_viewer, refl, refl), tt));
  seeded = db-IsSeeded;
  safe_roles = (safe_one, (safe_one, (safe_one, (safe_one, (safe_one, (safe_one, tt))))));
  safe_members = (safe_one, (safe_one, tt));
  safe_invites = tt;
}

abbrev request : RoleRequest
request = record { role = codes "viewer"; permission_mask = 65 }

abbrev input : RoleInput
input = record { project_id = project; role = role_viewer; permission_mask = 65 }

abbrev after : World
after = (update_role deployment project role_viewer (codes "u1") request world).1

a_run : TeamRun address address world after
a_run =
    steps world after after (updates_role deployment project role_viewer (codes "u1") request world)
      (stays after)

run-IsValid_example : IsValid after.db
run-IsValid_example = run-IsValid address address world after a_run db-IsValid

run-owners_example : owners after.db ≡ owners db
run-owners_example = run-owners address address world after a_run db-IsValid

updated : update_role_permissions input db ≡ ok (apply_role project input db)
unfolding update_role_permissions
updated = refl

found_viewer : find (is_membership project (codes "u2")) db.members ≡ some the_viewer
unfolding is_membership
found_viewer = refl

resolved_project : resolve_project project db ≡ ok project
unfolding resolve_project
resolved_project = refl

update_role_resolves_example :
    (res : Resolution) × (resolve_relational
        (membership address address (apply_role project input db).db)
        9
        (codes "u2")
        project
      ≡ ok res)
    × (res.mask ≡ mask_after input the_viewer)
unfolding trim_space
update_role_resolves_example =
    update_role_resolves address address project (codes "u2") project (codes "u2") 9 input db
      (apply_role project input db) the_viewer updated resolved_project refl refl refl found_viewer
      refl

old_mask : role_mask project role_viewer db ≡ ok 1
unfolding role_mask
old_mask = refl

role_done :
    (update_role deployment project role_viewer (codes "u1") request world).0
    ≡ ok (apply_role project input db)
unfolding update_role
role_done = refl

update_role_forgets_example : IsForgotten after.log (codes "u2")
unfolding trim_space
update_role_forgets_example =
    update_role_forgets deployment project role_viewer (codes "u1") request world
      (apply_role project input db) project 1 (is_membership project (codes "u2")) the_viewer
      db-IsValid role_done resolved_project old_mask refl refl refl found_viewer refl refl refl

abbrev invite_of : Text → Text → InviteRequest
invite_of e r = record { email = e; role = r }

abbrev requests : List InviteRequest
requests =
    invite_of (codes " C@x") (codes "viewer")
    ∷ invite_of (codes "c@x") (codes "Admin")
    ∷ invite_of (codes "d@x") (codes "boss")
    ∷ []

abbrev response : BatchResponse
response = record {
  invited = (codes "c@x", role_viewer) ∷ [];
  failed =
      record {
        email = codes "c@x";
        role = role_admin;
        code = invite_exists;
        message = codes "pending invite already exists for this email";
      }
      ∷ record {
        email = codes "d@x";
        role = codes "boss";
        code = common bad_request;
        message = codes "role is invalid";
      }
      ∷ [];
}

batch_answer : (batch_invites address address project (codes "u1") 3 requests world).0 ≡ ok response
unfolding batch_invites
batch_answer = refl

batch_invites-one_by_one_example :
    IsReported address address project
      (codes "u1")
      3
      world
      requests
      response.invited
      response.failed
    × ((batch_invites address address project (codes "u1") 3 requests world).1
        ≡ one_by_one address address project (codes "u1") 3 requests world)
unfolding trim_space
batch_invites-one_by_one_example =
    batch_invites-one_by_one address address project (codes "u1") 3 requests world project response
      resolved_project refl refl batch_answer

validate_mask_dependencies_iff_example : (validate_mask_dependencies 66 ≡ ok tt) ↔ IsViewClosed 66
validate_mask_dependencies_iff_example = validate_mask_dependencies_iff 66

slug : canonical_role_from_slug (codes " Limited-Access ") ≡ some role_limited_access
unfolding canonical_role_from_slug
slug = refl

canonical_role_from_slug-canonical_role_example :
    canonical_role (codes " Limited-Access ") ≡ some role_limited_access
canonical_role_from_slug-canonical_role_example =
    canonical_role_from_slug-canonical_role (codes " Limited-Access ") role_limited_access slug

-- The viewer's mask is behind that of his role, and no role has a row.
abbrev unsynced : World
unsynced = record world { db = record db { roles = [] } }

run_startup-IsSynced_example :
    (v : World) × (run_startup deployment unsynced ≡ ok v)
    × IsSeeded v.db
    × All (IsSyncedIfPlaced v.db) v.db.members
    × (customs v.db ≡ customs unsynced.db)
run_startup-IsSynced_example = run_startup-IsSynced deployment unsynced

abbrev the_invite : Invite
the_invite = record {
  project_id = project;
  email = codes "c@x";
  assigned_role = role_viewer;
  permission_mask = 1;
  inviter_role = role_owner;
  status = pending;
  sent_at = 6;
  expires_at = 9;
}

abbrev invited_db : Db
invited_db = record db { invites = the_invite ∷ [] }

cancelled_db :
    cancel_invite project (codes "C@x ") invited_db
    ≡ ok (cancel_rows project (codes "c@x") invited_db)
unfolding cancel_invite
cancelled_db = refl

cancel_invite-has_pending_example :
    has_pending project (codes "C@x ") (cancel_rows project (codes "c@x") invited_db) ≡ false
unfolding resolve_project
cancel_invite-has_pending_example =
    cancel_invite-has_pending project (codes "C@x ") project invited_db
      (cancel_rows project (codes "c@x") invited_db) refl cancelled_db
