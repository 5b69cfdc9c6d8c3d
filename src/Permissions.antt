-- ===== src/Permissions.antt =====
-- internal/core/permissions/resolver.go: the cache of permission masks in front of the database. A
-- user has one cached map from project ids to entries; its JSON is read by `decode`.
pub mod Staleness
pub mod Tags
pub mod Relational
mod Tests
use projectbook_backend.Base.{
  ℕ, ltb, Bool, true, false, not, ◌&&◌, ◌||◌, Option, none, some, List, [], ◌∷◌, if◌then◌else◌,
  Result, ok, err,
}
use projectbook_backend.Text.{Text, text_eq, is_empty, trim_space, equal_fold}
use projectbook_backend.Rbac.{lookup_text}
use projectbook_backend.Policy.Http.{Resolution, ResolveError, mask_inconsistent}

-- userMaskCacheEntry
pub record Entry : Type 0 where
  pub project_id : Text
  pub mask : ℕ
  pub role : Text
  pub is_custom : Bool
  pub updated_at_unix : ℕ

abbrev pub CacheMap : Type 0
CacheMap = List (Text × Entry)

-- `cacheMap[key] = entry`
unfoldable pub set_entry : Text → Entry → CacheMap → CacheMap
unfolding text_eq
set_entry k e [] = (k, e) ∷ []
set_entry k e ((j, d) ∷ m) = if text_eq j k then (k, e) ∷ m else (j, d) ∷ set_entry k e m

unfoldable pub entry_of : Resolution → Entry
unfolding trim_space
entry_of res = record {
  project_id = trim_space res.project_id;
  mask = res.mask;
  role = res.role;
  is_custom = res.is_custom;
  updated_at_unix = res.updated_at_unix;
}

-- The canonical id of the project, where it is another key.
unfoldable pub canonical_key : Text → Resolution → List Text
unfolding trim_space equal_fold
canonical_key project res =
    if not (is_empty (trim_space res.project_id))
      && not (equal_fold (trim_space res.project_id) project)
    then trim_space res.project_id ∷ []
    else []

-- The keys that backfillOnce writes.
unfoldable pub backfill_keys : Text → Resolution → List Text
unfolding canonical_key
backfill_keys project res = project ∷ canonical_key project res

-- Is there an entry that is newer than the resolution?
unfoldable pub is_newer : Option Entry → Resolution → Bool
is_newer none res = false
is_newer (some e) res = ltb res.updated_at_unix e.updated_at_unix

-- One round of the loop, on the map and `changed`.
unfoldable pub backfill_key : Resolution → Text → CacheMap × Bool → CacheMap × Bool
unfolding lookup_text set_entry is_newer entry_of trim_space
backfill_key res key (m, changed) =
    if is_empty (trim_space key) || is_newer (lookup_text (trim_space key) m) res
    then (m, changed)
    else (set_entry (trim_space key) (entry_of res) m, true)

unfoldable pub backfill_all : Resolution → List Text → CacheMap × Bool → CacheMap × Bool
unfolding backfill_key
backfill_all res [] st = st
backfill_all res (k ∷ ks) st = backfill_all res ks (backfill_key res k st)

-- The map after backfillOnce, and whether it is written back.
unfoldable pub backfill : Text → Resolution → CacheMap → CacheMap × Bool
unfolding backfill_all backfill_keys
backfill project res m = backfill_all res (backfill_keys project res) (m, false)

unfoldable pub resolved_project_id : Text → Text → Text
unfolding trim_space
resolved_project_id requested resolved =
    if is_empty (trim_space resolved) then trim_space requested else trim_space resolved

unfoldable pub of_entry : Text → Text → Option Entry → Option Resolution
unfolding resolved_project_id
of_entry user project none = none
of_entry user project (some e) = some (record {
  user_id = user;
  project_id = resolved_project_id project e.project_id;
  role = e.role;
  mask = e.mask;
  is_custom = e.is_custom;
  updated_at_unix = e.updated_at_unix;
})

-- resolveFromCache, from the decoded map of the user.
unfoldable pub resolve_from_map : Text → Text → CacheMap → Option Resolution
unfolding lookup_text of_entry
resolve_from_map user project m = of_entry user project (lookup_text project m)
