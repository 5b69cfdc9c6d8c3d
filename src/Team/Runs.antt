-- ===== src/Team/Runs.antt =====
-- What holds of the tables of internal/modules/team after any run of its service.
use projectbook_backend.Base.{ℕ, Option}
use projectbook_backend.Text.{Text}
use projectbook_backend.Team.Store.{Db}
use projectbook_backend.Team.Invariant.{
  IsValid, create_invite-IsValid, cancel_invite-IsValid, update_role_permissions-IsValid,
}
use projectbook_backend.Team.Assigned.{update_member_permissions-IsValid}
use projectbook_backend.Team.Service.{World}
use projectbook_backend.Team.Steps.{TeamRun, run_keeps}

pub wait-IsValid : (now : ℕ) (db : Db) → IsValid db → IsValid (record db { now = now })
wait-IsValid now db v = record {
  one_pending = v.one_pending;
  keyed = v.keyed;
  synced = v.synced;
  seeded = v.seeded;
  safe_roles = v.safe_roles;
  safe_members = v.safe_members;
  safe_invites = v.safe_invites;
}

-- Any sequence of invitations, batches, cancellations, changes of members and of roles, and passing
-- of time, from valid tables ends in valid tables: one pending invite for an address at most, one
-- member row for an id, every member without a mask of his own in step with his role's row, a row
-- for each role of a project, and only masks that fit their column and have the view bit of each
-- domain they have a bit of.
pub run-IsValid :
    (parse_address parse_uuid : Text → Option Text) (u v : World)
    → TeamRun parse_address parse_uuid u v
    → IsValid u.db
    → IsValid v.db
run-IsValid parse_address parse_uuid =
    run_keeps parse_address parse_uuid IsValid (create_invite-IsValid parse_uuid)
      cancel_invite-IsValid (update_member_permissions-IsValid parse_uuid)
      update_role_permissions-IsValid wait-IsValid
