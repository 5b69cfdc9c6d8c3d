-- ===== src/Team/Pending.antt =====
-- The pending invites of internal/modules/team/repo.go.
use projectbook_backend.Base.{
  ◌≤◌, ◌≡◌, refl, ◌∙◌, inl, inr, Bool, true, false, Bool-cases, List, ◌∷◌, any, filter, length,
  rewrite, arith,
}
use projectbook_backend.Base.Rows.{filter-rewrite, filter-none, any_cong}
use projectbook_backend.Text.{Text, to_lower}
use projectbook_backend.Text.Laws.{text_eq_iff}
use projectbook_backend.Team.Store.{
  InviteStatus, expired, cancelled, is_pending, Invite, Db, is_pending_for, email_is, is_stale,
  expire_stale,
}
use projectbook_backend.Team.Repo.{is_pending_in, cancel_rows}

-- No project has two pending invites of one address, up to letter case.
abbrev pub IsOnePending : List Invite → Type 0
IsOnePending is = (project email : Text) → length (filter (is_pending_for project email) is) ≤ 1

rewrite-IsOnePending :
    (p : Invite → Bool) (f : Invite → Invite) (is : List Invite)
    → ((project email : Text) (i : Invite)
        → is_pending_for project email (f i) ≡ true
        → is_pending_for project email i ≡ true)
    → IsOnePending is
    → IsOnePending (rewrite p f is)
rewrite-IsOnePending p f is h one project email = omega (
  arith,
  filter-rewrite (is_pending_for project email) p f is (h project email),
  one project email,
)

-- An invite that is not pending in its new status is no pending one.
settled :
    (s : InviteStatus) (p e : Text) (i : Invite)
    → is_pending s ≡ false
    → is_pending_for p e (record i { status = s }) ≡ true
    → is_pending_for p e i ≡ true
unfolding is_pending_for
settled s p e i closed h = ground arith

pub expire_stale-IsOnePending :
    (project : Text) (db : Db)
    → IsOnePending db.invites
    → IsOnePending (expire_stale project db).invites
unfolding expire_stale is_pending
expire_stale-IsOnePending project db =
    rewrite-IsOnePending (is_stale project db.now) (λ i. record i { status = expired }) db.invites
      (λ p e i h. settled expired p e i refl h)

pub cancel_rows-IsOnePending :
    (project email : Text) (db : Db)
    → IsOnePending db.invites
    → IsOnePending (cancel_rows project email db).invites
unfolding cancel_rows is_pending
cancel_rows-IsOnePending project email db =
    rewrite-IsOnePending _ (λ i. record i { status = cancelled }) db.invites
      (λ p e i h. settled cancelled p e i refl h)

-- Two invites that are pending for the same project and address are pending for each other.
same_key :
    (p e : Text) (i j : Invite)
    → is_pending_for p e i ≡ true
    → is_pending_for p e j ≡ is_pending_in i j
unfolding is_pending_for is_pending_in email_is
same_key p e i j h = ground (
  arith,
  text_eq_iff i.project_id p,
  text_eq_iff (to_lower i.email) (to_lower e),
  text_eq_iff j.project_id p,
  text_eq_iff j.project_id i.project_id,
  text_eq_iff (to_lower j.email) (to_lower e),
  text_eq_iff (to_lower j.email) (to_lower i.email),
)

pub add_invite-IsOnePending :
    (i : Invite) (is : List Invite)
    → any (is_pending_in i) is ≡ false
    → IsOnePending is
    → IsOnePending (i ∷ is)
add_invite-IsOnePending i is free one p e = elim (Bool-cases (is_pending_for p e i)) [
  | inl h ↦
      let alone : any (is_pending_for p e) is ≡ false =
        any_cong (is_pending_for p e) (is_pending_in i) is (λ j. same_key p e i j h) ∙ free in
      rw h (omega (arith, filter-none (is_pending_for p e) is alone))
  | inr h ↦ rw h (one p e)
]
