-- ===== src/Rbac/Roles.antt =====
-- The default masks of the roles.
use projectbook_backend.Base.{
  ℕ, ◌^◌, ◌<◌, ◌≡◌, ◌↔◌, inl, inr, refl, if◌then◌else◌, true, Bool-cases, Option, none, some, List,
  [], ◌∷◌, Any, arith,
}
use projectbook_backend.Text.{Text, trim_space, to_lower, equal_fold}
use projectbook_backend.Text.Laws.{equal_fold_iff}
use projectbook_backend.Rbac.{
  Domain, Action, view, perm, has_perm, default_role_masks, default_role_mask,
}

-- A name is one of the canonical roles, up to letter case, with the mask of the table.
abbrev pub IsRoleWithMask : Text → ℕ → Text × ℕ → Type 0
IsRoleWithMask s m entry = (to_lower entry.0 ≡ to_lower s) × (m ≡ entry.1)

-- The first entry whose name matches.
find_mask : List (Text × ℕ) → Text → Option ℕ
find_mask [] s = none
find_mask ((r, v) ∷ t) s = if equal_fold r s then some v else find_mask t s

HasKey : Text → List (Text × ℕ) → Type 0
HasKey k t = Any (λ e. to_lower e.0 ≡ k) t

-- No two names agree up to letter case.
HasDistinctKeys : List (Text × ℕ) → Type 0
unfolding HasKey
HasDistinctKeys [] = Unit
HasDistinctKeys ((r, v) ∷ t) = ¬ HasKey (to_lower r) t × HasDistinctKeys t

HasKey-entry :
    (t : List (Text × ℕ)) (s : Text) (m : ℕ) → Any (IsRoleWithMask s m) t → HasKey (to_lower s) t
unfolding HasKey
HasKey-entry [] s m h = elim h [ ]
HasKey-entry (e ∷ t) s m (inl h) = inl h.0
HasKey-entry (e ∷ t) s m (inr h) = inr (HasKey-entry t s m h)

find_mask_sound :
    (t : List (Text × ℕ)) (s : Text) (m : ℕ) → find_mask t s ≡ some m → Any (IsRoleWithMask s m) t
unfolding find_mask
find_mask_sound [] s m h = cc
find_mask_sound ((r, v) ∷ t) s m h = elim (Bool-cases (equal_fold r s)) [
  | inl e ↦ inl ((equal_fold_iff r s).0 e, ground arith)
  | inr e ↦ inr (find_mask_sound t s m (rw e at h))
]

find_mask_complete :
    (t : List (Text × ℕ)) (s : Text) (m : ℕ)
    → HasDistinctKeys t
    → Any (IsRoleWithMask s m) t
    → find_mask t s ≡ some m
unfolding find_mask HasDistinctKeys
find_mask_complete [] s m d h = elim h [ ]
find_mask_complete ((r, v) ∷ t) s m d (inl (p, q)) = rw ((equal_fold_iff r s).1 p, q)
find_mask_complete ((r, v) ∷ t) s m d (inr h) = elim (Bool-cases (equal_fold r s)) [
  | inl e ↦ absurd (d.0 (rw ((equal_fold_iff r s).0 e) (HasKey-entry t s m h)))
  | inr e ↦ rw e (find_mask_complete t s m d.1 h)
]

table_distinct : HasDistinctKeys default_role_masks
unfolding HasDistinctKeys HasKey to_lower
table_distinct = (
  ground arith,
  (ground arith, (ground arith, (ground arith, (ground arith, (ground arith, tt))))),
)

loop_lem : (s : Text) → default_role_mask s ≡ find_mask default_role_masks (trim_space s)
unfolding default_role_mask find_mask
loop_lem s = refl

-- DefaultRoleMask returns a mask exactly when the trimmed name is, up to letter case, one of the
-- roles in the table of default masks, and the mask is the one that stands there.
pub default_role_mask_iff :
    (s : Text) (m : ℕ)
    → (default_role_mask s ≡ some m) ↔ Any (IsRoleWithMask (trim_space s) m) default_role_masks
default_role_mask_iff s m = rw (loop_lem s) (
  find_mask_sound default_role_masks (trim_space s) m,
  find_mask_complete default_role_masks (trim_space s) m table_distinct,
)

-- An action's bit with the view bit of its domain.
abbrev pub IsViewClosed : ℕ → Type 0
IsViewClosed m =
    (d : Domain) (a : Action) → has_perm m (perm d a) ≡ true → has_perm m (perm d view) ≡ true

owner_closed : IsViewClosed 1152921504606846975
unfolding has_perm perm
owner_closed d a h = ground arith

admin_closed : IsViewClosed 864691128455135229
unfolding has_perm perm
admin_closed d a h = ground arith

editor_closed : IsViewClosed 20016033248999873
unfolding has_perm perm
editor_closed d a h = ground arith

member_closed : IsViewClosed 875734824153537
unfolding has_perm perm
member_closed d a h = ground arith

viewer_closed : IsViewClosed 18300341342965825
unfolding has_perm perm
viewer_closed d a h = ground arith

limited_closed : IsViewClosed 0
unfolding has_perm perm
limited_closed d a h = ground arith

closed_of_entry :
    (s : Text) (m : ℕ) → Any (IsRoleWithMask s m) default_role_masks → IsViewClosed m × (m < 2 ^ 60)
closed_of_entry s m (inl h) = rw (h.1) (owner_closed, omega arith)
closed_of_entry s m (inr (inl h)) = rw (h.1) (admin_closed, omega arith)
closed_of_entry s m (inr (inr (inl h))) = rw (h.1) (editor_closed, omega arith)
closed_of_entry s m (inr (inr (inr (inl h)))) = rw (h.1) (member_closed, omega arith)
closed_of_entry s m (inr (inr (inr (inr (inl h))))) = rw (h.1) (viewer_closed, omega arith)
closed_of_entry s m (inr (inr (inr (inr (inr (inl h)))))) = rw (h.1) (limited_closed, omega arith)
closed_of_entry s m (inr (inr (inr (inr (inr (inr h)))))) = absurd h

-- Every default mask holds, with any action on a domain, the view permission of that domain, and
-- has no bit beyond the sixty permissions.
pub default_role_mask-IsViewClosed :
    (s : Text) (m : ℕ) → default_role_mask s ≡ some m → IsViewClosed m × (m < 2 ^ 60)
default_role_mask-IsViewClosed s m h =
    closed_of_entry (trim_space s) m ((default_role_mask_iff s m).0 h)
