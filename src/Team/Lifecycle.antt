-- ===== src/Team/Lifecycle.antt =====
-- internal/core/permissions/lifecycle.go on the tables of the team module: the seeding of role masks
-- and the synchronisation of members at the start of the server. A failure of the database, of Redis
-- or of the cache manager is not modelled.
pub mod Startup
use projectbook_backend.Base.{
  ℕ, ◌-◌, ◌^◌, ltb, ◌==◌, Bool, false, not, ◌&&◌, ◌||◌, Option, none, some, List, [], ◌∷◌, ◌++◌,
  any, find, filter, map, if◌then◌else◌, Result, ok, err, ◌>>=◌,
}
use projectbook_backend.Text.{Text, codes, is_empty, trim_space, mem_text}
use projectbook_backend.Text.Unique.{unique}
use projectbook_backend.Rbac.{canonical_roles, default_role_mask}
use projectbook_backend.Permissions.Tags.{
  Effect, bump_tags, Deployment, permission_tags, invalidate_user_cache,
}
use projectbook_backend.Team.Store.{Member, RoleRow, Db, is_role_row}
use projectbook_backend.Team.Service.{World}

pub data SeedError : Type 0 where
  mask_missing mask_overflow : Text → SeedError

-- The row that querySeedRolePermissionMask inserts, unless the role has one.
unfoldable pub seed_row : Text → ℕ → ℕ → Text → List RoleRow → List RoleRow
unfolding is_role_row
seed_row role mask now project rows =
    if any (is_role_row project role) rows
    then rows
    else (record { project_id = project; role = role; permission_mask = mask; updated_at = now })
      ∷ rows

-- querySeedRolePermissionMask over the projects.
unfoldable pub seed_rows : Text → ℕ → ℕ → List Text → List RoleRow → List RoleRow
unfolding seed_row
seed_rows role mask now [] rows = rows
seed_rows role mask now (p ∷ ps) rows = seed_rows role mask now ps (seed_row role mask now p rows)

-- The body of the loop of SeedRoleMasks, with the default mask of the role.
unfoldable pub seed_mask : Text → Option ℕ → Db → Result SeedError Db
unfolding seed_rows
seed_mask role none db = err (mask_missing role)
seed_mask role (some mask) db =
    if ltb (2 ^ 63 - 1) mask
    then err (mask_overflow role)
    else ok (record db { roles = seed_rows role mask db.now db.projects db.roles })

unfoldable pub seed_roles : List Text → Db → Result SeedError Db
unfolding seed_mask default_role_mask
seed_roles [] db = ok db
seed_roles (role ∷ roles) db = seed_mask role (default_role_mask role) db >>= seed_roles roles

-- SeedRoleMasks
unfoldable pub seed_role_masks : Db → Result SeedError Db
unfolding seed_roles
seed_role_masks db = seed_roles canonical_roles db

-- The WHERE clause of queryResyncNonCustomMemberMasks on a member and the row of his role.
unfoldable pub is_out_of_step : Member → Option RoleRow → Bool
is_out_of_step m none = false
is_out_of_step m (some r) = not m.is_custom && not (m.permission_mask == r.permission_mask)

unfoldable pub set_mask : ℕ → Member → Option RoleRow → Member
set_mask now m none = m
set_mask now m (some r) = record m { permission_mask = r.permission_mask; updated_at = now }

unfoldable pub row_for : List RoleRow → Member → Option RoleRow
unfolding is_role_row
row_for roles m = find (is_role_row m.project_id m.role) roles

unfoldable pub resync_member : List RoleRow → ℕ → Member → Member
unfolding row_for is_out_of_step set_mask
resync_member roles now m =
    let row = row_for roles m in if is_out_of_step m row then set_mask now m row else m

-- AffectedScope
pub record AffectedScope : Type 0 where
  pub user_id : Text
  pub project_id : Text

unfoldable pub scopes_of : List Member → List AffectedScope
scopes_of [] = []
scopes_of (m ∷ ms) = record { user_id = m.user_id; project_id = m.project_id } ∷ scopes_of ms

unfoldable pub scope_key : AffectedScope → Text
unfolding trim_space
scope_key s = trim_space s.project_id ++ codes ":" ++ trim_space s.user_id

unfoldable pub collect_scopes : List Text → List AffectedScope → List AffectedScope
unfolding scope_key mem_text trim_space
collect_scopes seen [] = []
collect_scopes seen (s ∷ ss) =
    let user = trim_space s.user_id in
    let project = trim_space s.project_id in
    let skipped = is_empty user || is_empty project || mem_text (scope_key s) seen in
    let rest = collect_scopes (if skipped then seen else scope_key s ∷ seen) ss in
    if skipped then rest else record { user_id = user; project_id = project } ∷ rest

-- uniqueAffectedScopes
unfoldable pub unique_affected_scopes : List AffectedScope → List AffectedScope
unfolding collect_scopes
unique_affected_scopes ss = collect_scopes [] ss

-- ResyncNonCustomMemberMasks
unfoldable pub resync : Db → Db × List AffectedScope
unfolding resync_member unique_affected_scopes scopes_of row_for is_out_of_step
resync db = (
  record db { members = map (resync_member db.roles db.now) db.members },
  unique_affected_scopes
      (scopes_of (filter (λ m. is_out_of_step m (row_for db.roles m)) db.members)),
)

-- uniqueUserIDs
unfoldable pub unique_user_ids : List AffectedScope → List Text
unfolding unique
unique_user_ids ss = unique (map (λ s. s.user_id) ss)

unfoldable pub tags_of : List AffectedScope → List Text
unfolding permission_tags
tags_of [] = []
tags_of (s ∷ ss) = permission_tags s.user_id s.project_id ++ tags_of ss

-- uniquePermissionTags
unfoldable pub unique_permission_tags : List AffectedScope → List Text
unfolding unique tags_of
unique_permission_tags ss = unique (tags_of ss)

unfoldable pub bump : Deployment → List Text → List Effect
bump d [] = []
bump d (t ∷ ts) = if d.has_invalidator then bump_tags (t ∷ ts) ∷ [] else []

-- The invalidations at the end of RunStartup.
unfoldable pub startup_effects : Deployment → List AffectedScope → List Effect
unfolding unique_user_ids unique_permission_tags invalidate_user_cache bump
startup_effects d [] = []
startup_effects d (s ∷ ss) =
    invalidate_user_cache d (unique_user_ids (s ∷ ss)) ++ bump d (unique_permission_tags (s ∷ ss))

unfoldable pub after_seed : Deployment → World → Db → World
unfolding resync startup_effects
after_seed d w db =
    let (synced, scopes) = resync db in
    record w { db = synced; log = w.log ++ startup_effects d scopes }

-- RunStartup
unfoldable pub run_startup : Deployment → World → Result SeedError World
unfolding seed_role_masks after_seed
run_startup d w = seed_role_masks w.db >>= λ db. ok (after_seed d w db)
