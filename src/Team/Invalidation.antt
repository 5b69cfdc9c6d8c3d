-- ===== src/Team/Invalidation.antt =====
-- The caches that internal/modules/team forgets after it changed the mask of a role.
use projectbook_backend.Base.{
  ℕ, ◌≡◌, refl, sym, ap, ◌∙◌, inl, inr, Bool, true, false, not, ◌||◌, Bool-cases, Option, none,
  some, List, [], ◌∷◌, ◌++◌, any, ◌==◌, map, filter, find, Result, ok, err, arith,
}
use projectbook_backend.Base.Rows.{
  Yields, bind-Yields, guard-Yields, ok-Yields, if-Yields, All-find,
}
use projectbook_backend.Text.{Text, codes, text_eq, is_empty, trim_space, equal_fold, mem_text}
use projectbook_backend.Text.Laws.{text_eq_iff, text_eq_self, trim_space_idempotent}
use projectbook_backend.Text.Unique.{unique_strings, unique_strings_complete}
use projectbook_backend.Rbac.{role_owner, canonical_roles}
use projectbook_backend.Permissions.Tags.{
  rbac_key, Effect, Deployment, deletes, invalidate_user_cache, invalidate_user_cache-deletes,
}
use projectbook_backend.Team.{TeamError, Failure, RoleRequest}
use projectbook_backend.Team.Store.{
  Member, RoleRow, Db, is_role_row, mask_of_row, role_mask, storable,
}
use projectbook_backend.Team.Repo.{
  resolve_project, RoleInput, RoleUpdated, to_sync, synced_users, apply_role,
  update_role_permissions,
}
use projectbook_backend.Team.Synced.{IsSynced}
use projectbook_backend.Team.Invariant.{IsValid}
use projectbook_backend.Team.Service.{
  World, with_tx, invalidate_users, invalidate_scopes, check_role_request, role_input, after_role,
  run_role, update_role,
}

-- An effect of the log deletes the cached masks of the user.
pub IsForgotten : List Effect → Text → Type 0
IsForgotten log user = any (deletes (rbac_key user)) log ≡ true

any_later : (p : Effect → Bool) (xs ys : List Effect) → any p xs ≡ true → any p (ys ++ xs) ≡ true
any_later p xs [] h = h
any_later p xs (y ∷ ys) h = ground (arith, any_later p xs ys h)

any_sooner : (p : Effect → Bool) (xs ys : List Effect) → any p xs ≡ true → any p (xs ++ ys) ≡ true
any_sooner p [] ys h = cc
any_sooner p (x ∷ xs) ys h = ground (arith, any_sooner p xs ys)

or_later : (a b : Bool) → b ≡ true → a || b ≡ true
or_later a b h = ground arith

some_eq : (x y : Member) → some x ≡ some y → x ≡ y
some_eq x y h = cc

mem_trimmed :
    (s : Text) (vs : List Text)
    → trim_space s ≡ s
    → mem_text s vs ≡ true
    → any (λ v. text_eq s (trim_space v)) vs ≡ true
unfolding mem_text
mem_trimmed s [] h k = cc
mem_trimmed s (v ∷ vs) h k = elim (Bool-cases (text_eq s v)) [
  | inl e ↦ let same : s ≡ v = (text_eq_iff s v).0 e in rw (sym same, h, text_eq_self s) refl
  | inr e ↦ or_later (text_eq s (trim_space v)) _ (mem_trimmed s vs h (rw e at k))
]

-- The ids of the rows of a search are among the trimmed ids of a filter that keeps them.
listed :
    (q p : Member → Bool) (ms : List Member) (m : Member)
    → find q ms ≡ some m
    → p m ≡ true
    → any
        (λ v. text_eq (trim_space m.user_id) (trim_space v))
        (map (λ m. trim_space m.user_id) (filter p ms))
      ≡ true
listed q p [] m h k = cc
listed q p (x ∷ xs) m h k = elim (Bool-cases (q x)) [
  | inl e ↦
      let same : x ≡ m = some_eq x m (rw e at h) in
      rw (same, k, trim_space_idempotent m.user_id, text_eq_self (trim_space m.user_id)) refl
  | inr e ↦ elim (Bool-cases (p x)) [
    | inl d ↦ rw d (or_later _ _ (listed q p xs m (rw e at h) k))
    | inr d ↦ rw d (listed q p xs m (rw e at h) k)
  ]
]

rbac_key_trimmed : (user : Text) → rbac_key (trim_space user) ≡ rbac_key user
unfolding rbac_key
rbac_key_trimmed user = ap (λ t. codes "rbac:" ++ t) (trim_space_idempotent user)

invalidate_users_forgets :
    (d : Deployment) (project user : Text) (users : List Text)
    → d.has_redis ≡ true
    → mem_text user users ≡ true
    → IsForgotten (invalidate_users d project users) user
unfolding invalidate_users IsForgotten mem_text
invalidate_users_forgets d project user [] redis h = cc
invalidate_users_forgets d project user (u ∷ us) redis h =
    any_sooner (deletes (rbac_key user)) (invalidate_user_cache d (u ∷ us)) _
      (invalidate_user_cache-deletes d user (u ∷ us) redis h)

invalidate_scopes_forgets :
    (d : Deployment) (project user : Text) (users : List Text) (w : World)
    → d.has_redis ≡ true
    → is_empty (trim_space user) ≡ false
    → mem_text (trim_space user) users ≡ true
    → IsForgotten (invalidate_scopes d project users w).log user
unfolding invalidate_scopes IsForgotten
invalidate_scopes_forgets d project user users w redis full h =
    let kept =
      unique_strings_complete (trim_space user) users full
        (mem_trimmed (trim_space user) users (trim_space_idempotent user) h) in
    rw (sym (rbac_key_trimmed user)) (
      any_later (deletes (rbac_key (trim_space user)))
        (invalidate_users d project (unique_strings users)) w.log
        (invalidate_users_forgets d project (trim_space user) (unique_strings users) redis kept))

HasUsers : Text → RoleInput → Db → RoleUpdated → Type 0
HasUsers id input db u = u.users ≡ synced_users id input.role input.permission_mask db

update_role_permissions-HasUsers :
    (id : Text) (input : RoleInput) (db : Db)
    → resolve_project input.project_id db ≡ ok id
    → Yields (HasUsers id input db) (update_role_permissions input db)
unfolding update_role_permissions HasUsers apply_role
update_role_permissions-HasUsers id input db here = rw here (
    guard-Yields _ (not (equal_fold input.role role_owner)) _ _ (λ other.
      bind-Yields _ (role_mask id input.role db) _ (λ old h.
        guard-Yields _ (storable input.permission_mask) _ _
          (λ fits. ok-Yields _ (apply_role id input db) _ refl refl))))

-- The trimmed id of the user is among those that the update reports.
Reports : Text → RoleUpdated → Type 0
Reports user u = mem_text (trim_space user) u.users ≡ true

after_role_forgets :
    (d : Deployment) (project user : Text) (x : Result TeamError RoleUpdated) (w : World)
    (u : RoleUpdated)
    → Yields (Reports user) x
    → d.has_redis ≡ true
    → is_empty (trim_space user) ≡ false
    → (after_role d project (with_tx (λ u. u.db) x w)).0 ≡ ok u
    → IsForgotten (after_role d project (with_tx (λ u. u.db) x w)).1.log user
unfolding after_role with_tx Reports
after_role_forgets d project user (ok v) w u reports redis full h =
    invalidate_scopes_forgets d project user v.users (record w { db = v.db }) redis full
      (reports v refl)
after_role_forgets d project user (err e) w u reports redis full h = cc

synced_users_mem :
    (id : Text) (input : RoleInput) (db : Db) (q : Member → Bool) (m : Member)
    → is_empty (trim_space m.user_id) ≡ false
    → find q db.members ≡ some m
    → to_sync id input.role input.permission_mask m ≡ true
    → mem_text (trim_space m.user_id) (synced_users id input.role input.permission_mask db) ≡ true
unfolding synced_users
synced_users_mem id input db q m full hm stale =
    unique_strings_complete (trim_space m.user_id) _ full
      (listed q (to_sync id input.role input.permission_mask) db.members m hm stale)

run_role_forgets :
    (d : Deployment) (project id : Text) (input : RoleInput) (r : Result Failure (Unit {0}))
    (w : World) (q : Member → Bool) (m : Member) (u : RoleUpdated)
    → (run_role d project input r w).0 ≡ ok u
    → resolve_project input.project_id w.db ≡ ok id
    → d.has_redis ≡ true
    → is_empty (trim_space m.user_id) ≡ false
    → find q w.db.members ≡ some m
    → to_sync id input.role input.permission_mask m ≡ true
    → IsForgotten (run_role d project input r w).1.log m.user_id
unfolding run_role Reports HasUsers
run_role_forgets d project id input (err f) w q m u done here redis full hm stale = cc
run_role_forgets d project id input (ok t) w q m u done here redis full hm stale =
    after_role_forgets d project m.user_id (update_role_permissions input w.db) w u
      (λ v h.
        ap (mem_text (trim_space m.user_id))
          (update_role_permissions-HasUsers id input w.db here v h)
        ∙ synced_users_mem id input w.db q m full hm stale)
      redis full done

never_both : (b : Bool) → b ≡ true → b ≡ false → ⊥
never_both b h k = cc

to_sync_when :
    (id role : Text) (mask : ℕ) (m : Member)
    → m.project_id ≡ id
    → m.role ≡ role
    → m.is_custom ≡ false
    → (m.permission_mask == mask) ≡ false
    → to_sync id role mask m ≡ true
unfolding to_sync
to_sync_when id role mask m hp hr hc differs =
    rw (hp, hr, hc, differs, text_eq_self id, text_eq_self role) refl

found_mask :
    (o : Option RoleRow) (r : RoleRow) (old : ℕ)
    → o ≡ some r
    → mask_of_row o ≡ ok old
    → r.permission_mask ≡ old
unfolding mask_of_row
found_mask none r old h k = cc
found_mask (some x) r old h k = let e : x ≡ r = cc in rw (sym e) cc

role_mask_row :
    (id role : Text) (db : Db) (r : RoleRow) (old : ℕ)
    → find (is_role_row id role) db.roles ≡ some r
    → role_mask id role db ≡ ok old
    → r.permission_mask ≡ old
unfolding role_mask
role_mask_row id role db r old h k =
    if-Yields (λ mask. r.permission_mask ≡ mask) (mem_text role canonical_roles) _ _
      (λ mask e. found_mask _ r mask h e) old k

-- A member in step with a role of another mask is one that the update rewrites.
synced_stale :
    (id role : Text) (mask old : ℕ) (db : Db) (m : Member)
    → IsSynced db.roles m
    → role_mask id role db ≡ ok old
    → (old == mask) ≡ false
    → m.project_id ≡ id
    → m.role ≡ role
    → m.is_custom ≡ false
    → to_sync id role mask m ≡ true
synced_stale id role mask old db m (inl c) ho differs hp hr hc =
    absurd (never_both m.is_custom c hc)
synced_stale id role mask old db m (inr (r, found, e)) ho differs hp hr hc =
    let here : find (is_role_row id role) db.roles ≡ some r = rw (hp, hr) at found in
    to_sync_when id role mask m hp hr hc
      (ap (λ x. x == mask) (sym e ∙ role_mask_row id role db r old here ho) ∙ differs)

-- After UpdateRolePermissions has succeeded on valid tables, with a Redis client, the cached masks of
-- each user whose mask it changed are deleted: of every member of the role and the project, without
-- a mask of his own, where the role's mask was another one. The user's id is not blank.
pub update_role_forgets :
    (d : Deployment) (project path actor : Text) (req : RoleRequest) (w : World) (u : RoleUpdated)
    (id : Text) (old : ℕ) (q : Member → Bool) (m : Member)
    → IsValid w.db
    → (update_role d project path actor req w).0 ≡ ok u
    → resolve_project project w.db ≡ ok id
    → role_mask id path w.db ≡ ok old
    → (old == req.permission_mask) ≡ false
    → d.has_redis ≡ true
    → is_empty (trim_space m.user_id) ≡ false
    → find q w.db.members ≡ some m
    → m.project_id ≡ id
    → m.role ≡ path
    → m.is_custom ≡ false
    → IsForgotten (update_role d project path actor req w).1.log m.user_id
unfolding update_role role_input
update_role_forgets d project path actor req w u id old q m v done here ho differs redis full hm hp
      hr hc =
    run_role_forgets d project id (role_input project path req)
      (check_role_request project path actor req) w q m u done here redis full hm
      (synced_stale id path req.permission_mask old w.db m
        (All-find (IsSynced w.db.roles) q w.db.members m v.synced hm) ho differs hp hr hc)
