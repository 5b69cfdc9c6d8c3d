-- ===== src/Team/Cancelled.antt =====
-- CancelInvite of internal/modules/team, and the address after it.
use projectbook_backend.Base.{
  ◌≡◌, refl, false, inl, inr, Bool-cases, List, [], ◌∷◌, any, rewrite, ok, ◌>>=◌, guard, arith,
}
use projectbook_backend.Base.Rows.{Yields, bind-Yields, guard-Yields, ok-Yields}
use projectbook_backend.Text.{Text}
use projectbook_backend.Team.{normalize_email, invite_missing}
use projectbook_backend.Team.Store.{
  cancelled, is_pending, Invite, Db, is_pending_for, has_pending, invite_status,
}
use projectbook_backend.Team.Repo.{resolve_project, cancel_rows, check_cancel, cancel_invite}

set_cancelled : Invite → Invite
set_cancelled i = record i { status = cancelled }

left_out : (p e : Text) (i : Invite) → is_pending_for p e (set_cancelled i) ≡ false
unfolding is_pending_for is_pending set_cancelled
left_out p e i = ground arith

all_left_out :
    (p e : Text) (is : List Invite)
    → any (is_pending_for p e) (rewrite (is_pending_for p e) set_cancelled is) ≡ false
all_left_out p e [] = refl
all_left_out p e (i ∷ is) = elim (Bool-cases (is_pending_for p e i)) [
  | inl h ↦ rw (h, left_out p e i) (all_left_out p e is)
  | inr h ↦ rw (h, h) (all_left_out p e is)
]

cancel_rows-has_pending :
    (id email : Text) (db : Db) → has_pending id email (cancel_rows id email db) ≡ false
unfolding has_pending cancel_rows set_cancelled
cancel_rows-has_pending id email db = all_left_out id (normalize_email email) db.invites

-- After CancelInvite has succeeded, the project has no pending invite of the address, whatever the
-- letter case, so that the test of CreateInvite for one lets the address be invited again.
pub cancel_invite-has_pending :
    (project email id : Text) (db db' : Db)
    → resolve_project project db ≡ ok id
    → cancel_invite project email db ≡ ok db'
    → has_pending id email db' ≡ false
unfolding cancel_invite
cancel_invite-has_pending project email id db db' here h = settled db' (rw here at h)
  where
    settled :
        Yields
          (λ d. has_pending id email d ≡ false)
          (check_cancel (invite_status id email db) >>= λ u.
            (guard (has_pending id email db) invite_missing >>= λ u. ok (cancel_rows id email db)))
    settled = bind-Yields _ (check_cancel (invite_status id email db)) _ (λ u checked.
        guard-Yields _ (has_pending id email db) _ _ (λ found.
          ok-Yields _ (cancel_rows id email db) _ refl (cancel_rows-has_pending id email db)))
