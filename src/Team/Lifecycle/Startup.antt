-- ===== src/Team/Lifecycle/Startup.antt =====
-- What the start of the server establishes of the tables.
use projectbook_backend.Base.{
  ℕ, ◌≡◌, refl, sym, ap, ◌∙◌, inl, inr, Bool, true, false, ◌-◌, ◌^◌, ltb, Bool-cases, ◌&&◌, ◌⊎◌,
  Option, none, some, List, [], ◌∷◌, any, All, find, filter, map, if◌then◌else◌, ok, ◌>>=◌, arith,
}
use projectbook_backend.Base.Rows.{find-any}
use projectbook_backend.Text.{Text, text_eq, mem_text}
use projectbook_backend.Text.Laws.{text_eq_iff, text_eq_self}
use projectbook_backend.Rbac.{canonical_roles, default_role_mask}
use projectbook_backend.Permissions.Tags.{Deployment}
use projectbook_backend.Team.Store.{Member, RoleRow, Db, is_role_row}
use projectbook_backend.Team.Synced.{IsSynced}
use projectbook_backend.Team.Invariant.{IsSeeded}
use projectbook_backend.Team.Service.{World}
use projectbook_backend.Team.Lifecycle.{
  seed_row, seed_rows, seed_mask, seed_roles, seed_role_masks, row_for, is_out_of_step, set_mask,
  resync_member, resync, after_seed, run_startup,
}

seed_row-keeps :
    (q : RoleRow → Bool) (role : Text) (mask now : ℕ) (p : Text) (rows : List RoleRow)
    → any q rows ≡ true
    → any q (seed_row role mask now p rows) ≡ true
unfolding seed_row
seed_row-keeps q role mask now p rows h = elim (Bool-cases (any (is_role_row p role) rows)) [
  | inl e ↦ rw e h
  | inr e ↦ rw e (ground (arith, h))
]

seed_row-adds :
    (role : Text) (mask now : ℕ) (p : Text) (rows : List RoleRow)
    → any (is_role_row p role) (seed_row role mask now p rows) ≡ true
unfolding seed_row is_role_row
seed_row-adds role mask now p rows = elim (Bool-cases (any (is_role_row p role) rows)) [
  | inl e ↦ rw (e, e) refl
  | inr e ↦ rw (e, text_eq_self p, text_eq_self role) refl
]

seed_rows-keeps :
    (q : RoleRow → Bool) (role : Text) (mask now : ℕ) (ps : List Text) (rows : List RoleRow)
    → any q rows ≡ true
    → any q (seed_rows role mask now ps rows) ≡ true
unfolding seed_rows
seed_rows-keeps q role mask now [] rows h = h
seed_rows-keeps q role mask now (p ∷ ps) rows h =
    seed_rows-keeps q role mask now ps _ (seed_row-keeps q role mask now p rows h)

seed_rows-adds :
    (role : Text) (mask now : ℕ) (ps : List Text) (rows : List RoleRow) (p : Text)
    → mem_text p ps ≡ true
    → any (is_role_row p role) (seed_rows role mask now ps rows) ≡ true
unfolding seed_rows mem_text
seed_rows-adds role mask now [] rows p h = cc
seed_rows-adds role mask now (x ∷ xs) rows p h = elim (Bool-cases (text_eq p x)) [
  | inl e ↦
      seed_rows-keeps (is_role_row p role) role mask now xs _
        (rw ((text_eq_iff p x).0 e) (seed_row-adds role mask now x rows))
  | inr e ↦ seed_rows-adds role mask now xs _ p (rw e at h)
]

-- The role has a default mask that fits its column.
HasDefault : Text → Type 0
HasDefault role =
    (mask : ℕ) × (default_role_mask role ≡ some mask) × (ltb (2 ^ 63 - 1) mask ≡ false)

canonical-HasDefault : All HasDefault canonical_roles
unfolding HasDefault default_role_mask
canonical-HasDefault = (
  (_, refl, refl),
  ((_, refl, refl), ((_, refl, refl), ((_, refl, refl), ((_, refl, refl), ((_, refl, refl), tt))))),
)

-- What the seeding of these roles keeps and adds.
record IsSeededFrom (seeded_roles : List Text) (db db' : Db) : Type 0 where
  projects_kept : db'.projects ≡ db.projects
  members_kept : db'.members ≡ db.members
  rows_kept : (q : RoleRow → Bool) → any q db.roles ≡ true → any q db'.roles ≡ true
  rows_added :
      (p r : Text)
      → mem_text p db.projects ≡ true
      → mem_text r seeded_roles ≡ true
      → any (is_role_row p r) db'.roles ≡ true

seeded_with : Text → ℕ → Db → Db
seeded_with role mask db = record db { roles = seed_rows role mask db.now db.projects db.roles }

seed_mask_ok :
    (role : Text) (o : Option ℕ) (mask : ℕ) (db : Db)
    → o ≡ some mask
    → ltb (2 ^ 63 - 1) mask ≡ false
    → seed_mask role o db ≡ ok (seeded_with role mask db)
unfolding seed_mask seeded_with
seed_mask_ok role o mask db h fits = rw (h, fits) refl

seed_roles-IsSeededFrom :
    (roles : List Text) (db : Db)
    → All HasDefault roles
    → (db' : Db) × (seed_roles roles db ≡ ok db') × IsSeededFrom roles db db'
unfolding seed_roles mem_text HasDefault seeded_with
seed_roles-IsSeededFrom [] db h = (
  db,
  refl,
  record {
    projects_kept = refl;
    members_kept = refl;
    rows_kept = λ q k. k;
    rows_added = λ p r hp hr. cc;
  },
)
seed_roles-IsSeededFrom (role ∷ roles) db ((mask, found, fits), h) =
    let first = seeded_with role mask db in
    let (db', e, s) = seed_roles-IsSeededFrom roles first h in
    (
      db',
      ap (λ r. r >>= seed_roles roles) (seed_mask_ok role _ mask db found fits) ∙ e,
      record {
        projects_kept = s.projects_kept;
        members_kept = s.members_kept;
        rows_kept =
            λ q k. s.rows_kept q (seed_rows-keeps q role mask db.now db.projects db.roles k);
        rows_added = λ p r hp hr. elim (Bool-cases (text_eq r role)) [
          | inl same ↦ rw ((text_eq_iff r role).0 same) (
              s.rows_kept (is_role_row p role)
                (seed_rows-adds role mask db.now db.projects db.roles p hp))
          | inr other ↦ s.rows_added p r hp (rw other at hr)
        ];
      },
    )

-- The member is of a project that exists, in a role that exists.
unfoldable pub is_placed : List Text → Member → Bool
is_placed projects m = mem_text m.project_id projects && mem_text m.role canonical_roles

placed_parts : (a b : Bool) → a && b ≡ true → (a ≡ true) × (b ≡ true)
placed_parts a b h = ground arith

-- A member whose project and role exist is in step.
abbrev pub IsSyncedIfPlaced : Db → Member → Type 0
IsSyncedIfPlaced db m = (is_placed db.projects m ≡ false) ⊎ IsSynced db.roles m

same_mask :
    (m : Member) (r : RoleRow)
    → m.is_custom ≡ false
    → is_out_of_step m (some r) ≡ false
    → r.permission_mask ≡ m.permission_mask
unfolding is_out_of_step
same_mask m r c e = ground (arith, c, e)

step_with :
    (roles : List RoleRow) (now : ℕ) (m : Member) (r : RoleRow)
    → find (is_role_row m.project_id m.role) roles ≡ some r
    → IsSynced roles (resync_member roles now m)
unfolding resync_member row_for set_mask
step_with roles now m r found = elim (Bool-cases (is_out_of_step m (some r))) [
  | inl e ↦ rw (found, e) (inr (r, found, refl))
  | inr e ↦ rw (found, e) (synced_when m r found e)
]
  where
    synced_when :
        (m : Member) (r : RoleRow)
        → find (is_role_row m.project_id m.role) roles ≡ some r
        → is_out_of_step m (some r) ≡ false
        → IsSynced roles m
    synced_when m r found e = elim (Bool-cases m.is_custom) [
      | inl c ↦ inl c
      | inr c ↦ inr (r, found, same_mask m r c e)
    ]

resync_member-is_placed :
    (projects : List Text) (roles : List RoleRow) (now : ℕ) (m : Member)
    → is_placed projects (resync_member roles now m) ≡ is_placed projects m
unfolding resync_member set_mask is_placed
resync_member-is_placed projects roles now m = ground arith

resync-All :
    (db : Db) (ms : List Member)
    → IsSeeded db
    → All (IsSyncedIfPlaced db) (map (resync_member db.roles db.now) ms)
unfolding is_placed
resync-All db [] seeded = tt
resync-All db (m ∷ ms) seeded = (
  elim (Bool-cases (is_placed db.projects m)) [
    | inl e ↦
        let (hp, hr) = placed_parts _ _ e in
        let (r, found) = find-any (is_role_row m.project_id m.role) db.roles (seeded _ _ hp hr) in
        inr (step_with db.roles db.now m r found)
    | inr e ↦ inl (resync_member-is_placed db.projects db.roles db.now m ∙ e)
  ],
  resync-All db ms seeded,
)

custom_kept :
    (now : ℕ) (m : Member) (o : Option RoleRow) → m.is_custom ≡ true → is_out_of_step m o ≡ false
unfolding is_out_of_step
custom_kept now m none c = refl
custom_kept now m (some r) c = ground (arith, c)

-- The members with masks of their own.
abbrev pub customs : Db → List Member
customs db = filter (λ m. m.is_custom) db.members

shared_row :
    (now : ℕ) (m : Member) (o : Option RoleRow) (xs : List Member)
    → is_out_of_step m o ≡ true
    → (if (set_mask now m o).is_custom then set_mask now m o ∷ xs else xs)
      ≡ (if m.is_custom then m ∷ xs else xs)
unfolding is_out_of_step set_mask
shared_row now m none xs e = cc
shared_row now m (some r) xs e = ground (arith, e)

customs_kept :
    (roles : List RoleRow) (now : ℕ) (ms : List Member)
    → filter (λ m. m.is_custom) (map (resync_member roles now) ms) ≡ filter (λ m. m.is_custom) ms
unfolding resync_member
customs_kept roles now [] = refl
customs_kept roles now (m ∷ ms) = elim (Bool-cases (is_out_of_step m (row_for roles m))) [
  | inl e ↦ rw (e, customs_kept roles now ms) (shared_row now m (row_for roles m) _ e)
  | inr e ↦ rw (e, customs_kept roles now ms) refl
]

-- Whatever stands in the tables, RunStartup does not fail for a lack of a default mask or one that is
-- too large. It leaves a row for each role of each project; every member without a mask of his own,
-- of a project and a role that exist, in step with his role's row; and the rows of the members with
-- masks of their own, in order, as they were.
pub run_startup-IsSynced :
    (d : Deployment) (w : World)
    → (v : World) × (run_startup d w ≡ ok v)
      × IsSeeded v.db
      × All (IsSyncedIfPlaced v.db) v.db.members
      × (customs v.db ≡ customs w.db)
unfolding run_startup seed_role_masks after_seed resync
run_startup-IsSynced d w =
    let (db, e, s) = seed_roles-IsSeededFrom canonical_roles w.db canonical-HasDefault in
    let seeded : IsSeeded db =
      λ p r hp hr. s.rows_added p r (ap (mem_text p) (sym s.projects_kept) ∙ hp) hr in
    (
      after_seed d w db,
      ap (λ r. r >>= λ db. ok (after_seed d w db)) e,
      seeded,
      resync-All db db.members seeded,
      customs_kept db.roles db.now db.members ∙ ap (filter (λ m. m.is_custom)) s.members_kept,
    )
