-- ===== src/Permissions/Tests.antt =====
-- Backfills at a concrete map.
use projectbook_backend.Base.{◌≤◌, ◌≡◌, ◌≢◌, refl, true, false, some, ok, [], ◌∷◌, arith}
use projectbook_backend.Text.{codes, trim_space}
use projectbook_backend.Policy.Http.{Resolution}
use projectbook_backend.Permissions.{Entry, CacheMap, backfill, entry_of, resolve_from_map}
use projectbook_backend.Permissions.Relational.{
  nonnegative, MembershipRow, found, resolve_answer, IsResolved, resolve_answer-IsResolved,
}
use projectbook_backend.Permissions.Staleness.{
  HasSince, backfill-HasSince, resolve_from_map-backfill,
}

runs : Unit {0}
unfolding backfill resolve_from_map entry_of
runs = tt

abbrev newer : Entry
newer = record {
  project_id = codes "p1";
  mask = 7;
  role = codes "Editor";
  is_custom = false;
  updated_at_unix = 20;
}

abbrev stored : CacheMap
stored = (codes "p1", newer) ∷ []

abbrev late : Resolution
late = record {
  user_id = codes "u1";
  project_id = codes "p1";
  role = codes "Viewer";
  mask = 1;
  is_custom = false;
  updated_at_unix = 10;
}

late_dropped :
    backfill (codes "slug") late stored
    ≡ ((codes "p1", newer) ∷ (codes "slug", entry_of late) ∷ [], true)
unfolding runs
late_dropped = refl

backfill-HasSince_example : HasSince (codes "p1") 20 (backfill (codes "slug") late stored).0
unfolding runs
backfill-HasSince_example =
    backfill-HasSince (codes "slug") late stored (codes "p1") 20 (newer, refl, omega arith)

not_blank : trim_space (codes "slug") ≢ []
unfolding trim_space
not_blank e = cc

resolve_from_map-backfill_example :
    (r : Resolution) × (resolve_from_map
        (codes "u1")
        (trim_space (codes "slug"))
        (backfill (codes "slug") late stored).0
      ≡ some r)
    × (late.updated_at_unix ≤ r.updated_at_unix)
resolve_from_map-backfill_example =
    resolve_from_map-backfill (codes "u1") (codes "slug") late stored not_blank

abbrev custom_row : MembershipRow
custom_row = record {
  project_id = codes "p1";
  role = codes "Viewer";
  is_custom = true;
  member_mask = nonnegative 9;
  role_mask = nonnegative 1;
  has_role_mask = true;
  member_updated = 4;
  role_updated = 8;
}

abbrev custom_resolution : Resolution
custom_resolution = record {
  user_id = codes "u1";
  project_id = codes "p1";
  role = codes "Viewer";
  mask = 9;
  is_custom = true;
  updated_at_unix = 4;
}

custom_resolved : resolve_answer 30 (codes "u1") (found custom_row) ≡ ok custom_resolution
unfolding resolve_answer
custom_resolved = refl

resolve_answer-IsResolved_example : IsResolved custom_row custom_resolution
resolve_answer-IsResolved_example =
    resolve_answer-IsResolved 30 (codes "u1") custom_row custom_resolution custom_resolved
