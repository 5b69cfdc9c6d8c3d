-- ===== src/Permissions/Relational.antt =====
-- internal/core/permissions/relational.go: the mask of a project member from the database, and the
-- resolver of resolver.go that asks the cache first. Times are seconds since 1970.
use projectbook_backend.Base.{
  ℕ, ◌-◌, ◌^◌, ◌%◌, ◌==◌, ◌≡◌, refl, Bool, true, false, not, ◌||◌, max, Option, none, some,
  if◌then◌else◌, Result, ok, err, ◌>>◌, guard, arith,
}
use projectbook_backend.Base.Rows.{Yields, bind-Yields, guard-Yields, ok-Yields}
use projectbook_backend.Text.{Text, is_empty, trim_space}
use projectbook_backend.Policy.Http.{
  Resolution, ResolveError, membership_not_found, mask_inconsistent, dependency_failure,
}
use projectbook_backend.Permissions.{CacheMap, resolve_from_map}

-- An int64 column: `negative n` is -n.
pub data Int64 : Type 0 where
  nonnegative negative : ℕ → Int64

unfoldable pub is_negative : Int64 → Bool
is_negative (nonnegative n) = false
is_negative (negative n) = true

-- `uint64(mask)`
unfoldable pub magnitude : Int64 → ℕ
magnitude (nonnegative n) = n
magnitude (negative n) = (2 ^ 64 - n) % 2 ^ 64

-- A row of queryResolveProjectMembership.
pub record MembershipRow : Type 0 where
  pub project_id : Text
  pub role : Text
  pub is_custom : Bool
  pub member_mask : Int64
  pub role_mask : Int64
  pub has_role_mask : Bool
  pub member_updated : ℕ
  pub role_updated : ℕ

-- What the query answers: a row, no row, or an error. A role mask that is NULL is an error, since the
-- row is scanned into an int64.
pub data Answer : Type 0 where
  found : MembershipRow → Answer
  no_rows failed : Answer

unfoldable pub check_role_mask : MembershipRow → Result ResolveError (Unit {0})
unfolding is_negative
check_role_mask r = do
  guard (r.is_custom || r.has_role_mask) mask_inconsistent
  guard (r.is_custom || not (is_negative r.role_mask)) mask_inconsistent

unfoldable pub effective_mask : MembershipRow → ℕ
unfolding magnitude
effective_mask r = if r.is_custom then magnitude r.member_mask else magnitude r.role_mask

unfoldable pub updated_at : ℕ → MembershipRow → ℕ
updated_at now r =
    let latest = if r.is_custom then r.member_updated else max r.member_updated r.role_updated in
    if latest == 0 then now else latest

unfoldable pub resolution_of : ℕ → Text → MembershipRow → Resolution
unfolding effective_mask updated_at trim_space
resolution_of now user r = record {
  user_id = user;
  project_id = trim_space r.project_id;
  role = r.role;
  mask = effective_mask r;
  is_custom = r.is_custom;
  updated_at_unix = updated_at now r;
}

unfoldable pub resolve_row : ℕ → Text → MembershipRow → Result ResolveError Resolution
unfolding check_role_mask resolution_of is_negative trim_space
resolve_row now user r = do
  guard (not (is_negative r.member_mask)) mask_inconsistent
  check_role_mask r
  guard (not (is_empty (trim_space r.project_id))) mask_inconsistent
  ok (resolution_of now user r)

unfoldable pub resolve_answer : ℕ → Text → Answer → Result ResolveError Resolution
unfolding resolve_row
resolve_answer now user (found r) = resolve_row now user r
resolve_answer now user no_rows = err membership_not_found
resolve_answer now user failed = err dependency_failure

-- RelationalResolver.Resolve, with the query of a trimmed project and user.
unfoldable pub resolve_relational :
    (Text → Text → Answer) → ℕ → Text → Text → Result ResolveError Resolution
unfolding resolve_answer trim_space
resolve_relational query now user project =
    if is_empty (trim_space user) || is_empty (trim_space project)
    then err mask_inconsistent
    else resolve_answer now (trim_space user) (query (trim_space project) (trim_space user))

unfoldable pub or_fallback :
    Option Resolution → Result ResolveError Resolution → Result ResolveError Resolution
or_fallback (some r) fallback = ok r
or_fallback none fallback = fallback

-- The map that resolveFromCache reads, if it can be read.
unfoldable pub of_cache : Text → Text → Option CacheMap → Option Resolution
unfolding resolve_from_map
of_cache user project none = none
of_cache user project (some m) = resolve_from_map user project m

-- HybridResolver.Resolve, with the fallback of a trimmed user and project.
unfoldable pub resolve_hybrid :
    Option CacheMap
    → (Text → Text → Result ResolveError Resolution)
    → Text
    → Text
    → Result ResolveError Resolution
unfolding or_fallback of_cache trim_space
resolve_hybrid cached fallback user project =
    if is_empty (trim_space user) || is_empty (trim_space project)
    then err mask_inconsistent
    else or_fallback (of_cache (trim_space user) (trim_space project) cached)
        (fallback (trim_space user) (trim_space project))

-- What a resolution tells of the row: the member's mask was not negative, a member without a mask of
-- his own has a role mask that is not negative and gets it, and a member with a mask of his own gets
-- that one.
pub record IsResolved (r : MembershipRow) (res : Resolution) : Type 0 where
  pub member_mask : is_negative r.member_mask ≡ false
  pub shared :
      r.is_custom ≡ false
      → (r.has_role_mask ≡ true)
        × (is_negative r.role_mask ≡ false)
        × (res.mask ≡ magnitude r.role_mask)
  pub own : r.is_custom ≡ true → res.mask ≡ magnitude r.member_mask

resolve_row-IsResolved :
    (now : ℕ) (user : Text) (r : MembershipRow) → Yields (IsResolved r) (resolve_row now user r)
unfolding resolve_row check_role_mask resolution_of effective_mask
resolve_row-IsResolved now user r =
    guard-Yields _ (not (is_negative r.member_mask)) _ _ (λ positive.
      bind-Yields _ (check_role_mask r) _ (λ u checked.
        guard-Yields _ (not (is_empty (trim_space r.project_id))) _ _ (λ full.
          ok-Yields _ (resolution_of now user r) _ refl (record {
            member_mask = ground (arith, positive);
            shared = λ c. (ground (arith, checked, c), ground (arith, checked, c), rw c refl);
            own = λ c. rw c refl;
          }))))

-- A resolution that the database's row of a member gives comes from a mask of the member that is not
-- negative. Where the member has no mask of his own, the row has a mask of the role, which is not
-- negative either, and the resolution has that one; otherwise it has the mask of the member.
pub resolve_answer-IsResolved :
    (now : ℕ) (user : Text) (r : MembershipRow) (res : Resolution)
    → resolve_answer now user (found r) ≡ ok res
    → IsResolved r res
unfolding resolve_answer
resolve_answer-IsResolved now user r res h = resolve_row-IsResolved now user r res h
