-- ===== src/Team/Synced.antt =====
-- The masks of members against those of their roles in internal/modules/team/repo.go.
use projectbook_backend.Base.{
  ℕ, ◌≡◌, ◌⊎◌, refl, sym, ◌∙◌, inl, inr, true, false, ◌&&◌, Bool-cases, some, List, All, find,
  rewrite, arith,
}
use projectbook_backend.Base.Rows.{All-rewrite, find-rewrite_same, find-rewrite_other}
use projectbook_backend.Text.{Text, text_eq}
use projectbook_backend.Text.Laws.{text_eq_iff}
use projectbook_backend.Team.Store.{Member, RoleRow, Db, is_role_row}
use projectbook_backend.Team.Repo.{write_role, to_sync, sync_members, apply_role, RoleInput}

-- A member with no masks of his own has the mask of his role's row.
abbrev pub IsSynced : List RoleRow → Member → Type 0
IsSynced roles m =
    (m.is_custom ≡ true)
    ⊎ ((r : RoleRow) × (find (is_role_row m.project_id m.role) roles ≡ some r)
        × (r.permission_mask ≡ m.permission_mask))

new_row : ℕ → ℕ → RoleRow → RoleRow
new_row mask now r = record r { permission_mask = mask; updated_at = now }

same_row :
    (p r p' r' : Text) (x : RoleRow)
    → p ≡ p'
    → r ≡ r'
    → is_role_row p r x ≡ true
    → is_role_row p' r' x ≡ true
same_row p r p' r' x e d h = rw (sym e, sym d) h

other_row :
    (p r p' r' : Text) (x : RoleRow)
    → text_eq p p' && text_eq r r' ≡ false
    → is_role_row p r x ≡ true
    → is_role_row p' r' x ≡ false
unfolding is_role_row
other_row p r p' r' x h k = ground (
  arith,
  text_eq_iff p p',
  text_eq_iff r r',
  text_eq_iff x.project_id p,
  text_eq_iff x.role r,
  text_eq_iff x.project_id p',
  text_eq_iff x.role r',
)

-- The row of another role, or of the role itself, after the role's mask is written.
row_after :
    (p r : Text) (mask now : ℕ) (roles : List RoleRow) (x : Member) (row : RoleRow)
    → find (is_role_row x.project_id x.role) roles ≡ some row
    → (text_eq x.project_id p && text_eq x.role r ≡ true)
        × (find
              (is_role_row x.project_id x.role)
              (rewrite (is_role_row p r) (new_row mask now) roles)
            ≡ some (new_row mask now row))
      ⊎ (text_eq x.project_id p && text_eq x.role r ≡ false)
        × (find
              (is_role_row x.project_id x.role)
              (rewrite (is_role_row p r) (new_row mask now) roles)
            ≡ some row)
unfolding is_role_row new_row
row_after p r mask now roles x row h =
    elim (Bool-cases (text_eq x.project_id p && text_eq x.role r)) [
      | inl e ↦ inl (
        e,
        find-rewrite_same (is_role_row x.project_id x.role) (is_role_row p r) (new_row mask now)
            roles (λ y. refl)
            (λ y.
              same_row x.project_id x.role p r y (ground (arith, e, text_eq_iff x.project_id p))
                (ground (arith, e, text_eq_iff x.role r)))
            row h,
      )
      | inr e ↦ inr (
        e,
        find-rewrite_other (is_role_row x.project_id x.role) (is_role_row p r) (new_row mask now)
              roles (λ y. refl) (λ y. other_row x.project_id x.role p r y e)
            ∙ h,
      )
    ]

-- A row that is found again, with the mask of the member.
IsSynced-by :
    (roles : List RoleRow) (m : Member) (r : RoleRow)
    → find (is_role_row m.project_id m.role) roles ≡ some r
    → r.permission_mask ≡ m.permission_mask
    → IsSynced roles m
IsSynced-by roles m r h e = inr (r, h, e)

IsSynced-member :
    (p r : Text) (mask now : ℕ) (roles : List RoleRow) (x : Member)
    → IsSynced roles x
    → to_sync p r mask x ≡ true
    → IsSynced
        (rewrite (is_role_row p r) (new_row mask now) roles)
        (record x { permission_mask = mask; updated_at = now })
unfolding new_row to_sync
IsSynced-member p r mask now roles x (inl c) h = inl c
IsSynced-member p r mask now roles x (inr (row, found, e)) h =
    elim (row_after p r mask now roles x row found) [
      | inl (k, d) ↦ inr (new_row mask now row, d, refl)
      | inr (k, d) ↦ absurd (ground (arith, k, h))
    ]

left_member :
    (p r : Text) (mask now : ℕ) (roles : List RoleRow) (x : Member)
    → IsSynced roles x
    → to_sync p r mask x ≡ false
    → IsSynced (rewrite (is_role_row p r) (new_row mask now) roles) x
unfolding new_row to_sync
left_member p r mask now roles x (inl c) h = inl c
left_member p r mask now roles x (inr (row, found, e)) h = elim (Bool-cases x.is_custom) [
  | inl c ↦ inl c
  | inr c ↦ elim (row_after p r mask now roles x row found) [
    | inl (k, d) ↦ inr (new_row mask now row, d, ground (arith, k, c, h))
    | inr (k, d) ↦ inr (row, d, e)
  ]
]

-- Writing a role's mask and synchronizing its members keeps every member in step with his role.
pub apply_role-IsSynced :
    (project : Text) (input : RoleInput) (db : Db)
    → All (IsSynced db.roles) db.members
    → All (IsSynced (apply_role project input db).db.roles) (apply_role project input db).db.members
unfolding apply_role write_role sync_members new_row
apply_role-IsSynced project input db h =
    All-rewrite (IsSynced db.roles) _ (to_sync project input.role input.permission_mask) _
      db.members (IsSynced-member project input.role input.permission_mask db.now db.roles)
      (left_member project input.role input.permission_mask db.now db.roles) h
