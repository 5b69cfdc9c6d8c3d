-- ===== src/Permissions/Tags.antt =====
-- internal/core/permissions/tags.go, and the cache keys of resolver.go: what a change of permissions
-- invalidates. The calls of Redis and of the cache manager are effects.
use projectbook_backend.Base.{
  ℕ, refl, Bool, true, false, ◌||◌, ◌≡◌, sym, ap, ◌∙◌, Bool-cases, inl, inr, List, [], ◌∷◌, ◌++◌,
  any, if◌then◌else◌, arith,
}
use projectbook_backend.Text.{
  Text, codes, text_eq, is_empty, is_space, trim_left, trim_right, keep, trim_space, mem_text,
}
use projectbook_backend.Text.Laws.{text_eq_iff, text_eq_self}

-- rbacKey, ResolverCacheKey
unfoldable pub rbac_key : Text → Text
unfolding trim_space
rbac_key user = codes "rbac:" ++ trim_space user

-- PermissionTags
unfoldable pub permission_tags : Text → Text → List Text
unfolding trim_space
permission_tags user_id project_id =
    let user = trim_space user_id in
    let project = trim_space project_id in
    if is_empty user || is_empty project
    then []
    else (codes "permissions:user=" ++ user)
      ∷ (codes "permissions:project=" ++ project)
      ∷ (codes "permissions:project_user=" ++ project ++ codes ":" ++ user)
      ∷ []

-- The loop of InvalidateResolverUserCache.
unfoldable pub collect_keys : List Text → List Text → List Text
unfolding mem_text rbac_key trim_space
collect_keys seen [] = []
collect_keys seen (user ∷ users) =
    let key = rbac_key user in
    let skipped = is_empty (trim_space key) || mem_text key seen in
    let rest = collect_keys (if skipped then seen else key ∷ seen) users in
    if skipped then rest else key ∷ rest

pub data Effect : Type 0 where
  delete_keys bump_tags : List Text → Effect

-- Whether a Redis client and a tag invalidator are configured.
pub record Deployment : Type 0 where
  pub has_redis : Bool
  pub has_invalidator : Bool

-- InvalidateResolverUserCache
unfoldable pub invalidate_user_cache : Deployment → List Text → List Effect
unfolding collect_keys
invalidate_user_cache d [] = []
invalidate_user_cache d (u ∷ us) =
    if d.has_redis then delete_keys (collect_keys [] (u ∷ us)) ∷ [] else []

-- The key is among those that an effect deletes.
abbrev pub deletes : Text → Effect → Bool
deletes k (delete_keys ks) = mem_text k ks
deletes k (bump_tags ts) = false

keep_left : (c : ℕ) (s : Text) → is_space c ≡ false → is_empty (trim_left (keep c s)) ≡ false
unfolding keep trim_left
keep_left c [] h = ground arith
keep_left c (d ∷ s) h = ground arith

never_blank : (user : Text) → is_empty (trim_space (rbac_key user)) ≡ false
unfolding rbac_key trim_space trim_right
never_blank user = keep_left 114 (trim_right (98 ∷ 97 ∷ 99 ∷ 58 ∷ trim_space user)) refl

collect_keys_complete :
    (k : Text) (seen users : List Text)
    → any (λ u. text_eq k (rbac_key u)) users ≡ true
    → mem_text k seen ≡ false
    → mem_text k (collect_keys seen users) ≡ true
unfolding collect_keys mem_text
collect_keys_complete k seen [] found new = cc
collect_keys_complete k seen (u ∷ us) found new = elim (Bool-cases (text_eq k (rbac_key u))) [
  | inl same ↦
      let eq : k ≡ rbac_key u = (text_eq_iff k (rbac_key u)).0 same in
      let e2 : mem_text (rbac_key u) seen ≡ false = ap (λ x. mem_text x seen) (sym eq) ∙ new in
      rw (never_blank u, e2) (ground (arith, same))
  | inr other ↦
      let later : any (λ u. text_eq k (rbac_key u)) us ≡ true = rw other at found in
      elim (Bool-cases (is_empty (trim_space (rbac_key u)) || mem_text (rbac_key u) seen)) [
        | inl e ↦ rw e (collect_keys_complete k seen us later new)
        | inr e ↦
            rw (e, other)
              (collect_keys_complete k (rbac_key u ∷ seen) us later (ground (arith, other, new)))
      ]
]

or_true : (b : Bool) → b || true ≡ true
or_true b = ground arith

empty_mem : (s : Text) → mem_text s [] ≡ true → ⊥
unfolding mem_text
empty_mem s h = cc

any_same :
    (user : Text) (users : List Text)
    → mem_text user users ≡ true
    → any (λ u. text_eq (rbac_key user) (rbac_key u)) users ≡ true
unfolding mem_text
any_same user [] h = cc
any_same user (u ∷ us) h = elim (Bool-cases (text_eq user u)) [
  | inl e ↦ rw (ap rbac_key ((text_eq_iff user u).0 e), text_eq_self (rbac_key u)) refl
  | inr e ↦ rw (any_same user us (rw e at h)) (or_true (text_eq (rbac_key user) (rbac_key u)))
]

-- With a Redis client, the cache of every listed user is deleted.
pub invalidate_user_cache-deletes :
    (d : Deployment) (user : Text) (users : List Text)
    → d.has_redis ≡ true
    → mem_text user users ≡ true
    → any (deletes (rbac_key user)) (invalidate_user_cache d users) ≡ true
unfolding invalidate_user_cache
invalidate_user_cache-deletes d user [] redis h = absurd (empty_mem user h)
invalidate_user_cache-deletes d user (u ∷ us) redis h =
    rw (redis, collect_keys_complete (rbac_key user) [] (u ∷ us) (any_same user (u ∷ us) h) refl)
      refl
