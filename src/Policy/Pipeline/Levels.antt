-- ===== src/Policy/Pipeline/Levels.antt =====
-- How far a request is known to be checked when it reaches each policy of a list: 0 nothing,
-- 1 authenticated, 2 scoped to a project, 3 with the permissions resolved.
use projectbook_backend.Base.{
  ℕ, zero, suc, ◌≤◌, ◌<◌, ◌≡◌, ap, ◌⊎◌, inl, inr, List, [], ◌∷◌, ◌++◌, All, arith,
}
use projectbook_backend.Policy.Metadata.{PolicyType, Metadata, Has}
use projectbook_backend.Policy.Rules.{policy_order_stage}
use projectbook_backend.Policy.Rules.Order.{IsOrdered}
use projectbook_backend.Policy.Rules.Safety.{IsSafeRoute, HasRbac}
use projectbook_backend.Text.{Text}

abbrev pub scoped_level : ℕ → ℕ
scoped_level zero = 0
scoped_level (suc l) = 2

abbrev pub resolved_level : ℕ → ℕ
resolved_level zero = 0
resolved_level (suc zero) = 0
resolved_level (suc (suc l)) = 3

unfoldable pub next_level : PolicyType → ℕ → ℕ
next_level PolicyType.auth_required l = 1
next_level PolicyType.project_required l = scoped_level l
next_level PolicyType.resolve_permissions l = resolved_level l
next_level _ l = l

unfoldable pub level_after : ℕ → List Metadata → ℕ
level_after l [] = l
level_after l (m ∷ ms) = level_after (next_level m.type l) ms

-- What is still to come is there, and what is done does not come again.
pub record IsOnTrack (l : ℕ) (ms : List Metadata) : Type 0 where
  pub ordered : IsOrdered ms
  pub bound : l ≤ 3
  pub auth : (1 ≤ l) ⊎ Has PolicyType.auth_required ms
  pub scope : (2 ≤ l) ⊎ Has PolicyType.project_required ms
  pub resolver : (3 ≤ l) ⊎ Has PolicyType.resolve_permissions ms
  pub auth_once : Has PolicyType.auth_required ms → l ≤ 1
  pub scope_once : Has PolicyType.project_required ms → l ≤ 2

-- Behind a policy, a type of a lower stage does not come.
pub not_later :
    (k : ℕ) (t : PolicyType) (ms : List Metadata)
    → All (λ n. (policy_order_stage n.type ≡ 0) ⊎ (k ≤ policy_order_stage n.type)) ms
    → 0 < policy_order_stage t
    → policy_order_stage t < k
    → ¬ Has t ms
not_later k t [] a pos lt h = h
not_later k t (m ∷ ms) (first, rest) pos lt (inl e) = ground (arith, ap policy_order_stage e)
not_later k t (m ∷ ms) (first, rest) pos lt (inr h) = not_later k t ms rest pos lt h

module _ (l : ℕ) (m : Metadata) (ms : List Metadata) (h : IsOnTrack l (m ∷ ms)) where
  auth_behind : 1 < policy_order_stage m.type → ¬ Has PolicyType.auth_required ms
  unfolding policy_order_stage
  auth_behind lt = not_later _ PolicyType.auth_required ms h.ordered.0 (omega arith) lt

  scope_behind : 2 < policy_order_stage m.type → ¬ Has PolicyType.project_required ms
  unfolding policy_order_stage
  scope_behind lt = not_later _ PolicyType.project_required ms h.ordered.0 (omega arith) lt

  next_auth : (1 ≤ next_level m.type l) ⊎ Has PolicyType.auth_required ms
  unfolding next_level policy_order_stage
  next_auth = ground (arith, h.auth, h.scope, auth_behind, scope_behind)

  next_scope : (2 ≤ next_level m.type l) ⊎ Has PolicyType.project_required ms
  unfolding next_level policy_order_stage
  next_scope = ground (arith, h.auth, h.scope, h.auth_once, auth_behind)

  next_resolver : (3 ≤ next_level m.type l) ⊎ Has PolicyType.resolve_permissions ms
  unfolding next_level policy_order_stage
  next_resolver =
      ground
        (arith, h.auth, h.scope, h.resolver, h.auth_once, h.scope_once, auth_behind, scope_behind)

  next_auth_once : Has PolicyType.auth_required ms → next_level m.type l ≤ 1
  unfolding next_level policy_order_stage
  next_auth_once has = ground (arith, h.auth_once, auth_behind)

  next_scope_once : Has PolicyType.project_required ms → next_level m.type l ≤ 2
  unfolding next_level policy_order_stage
  next_scope_once has = ground (arith, h.scope_once, scope_behind)

  next_bound : next_level m.type l ≤ 3
  unfolding next_level
  next_bound = ground (arith, h.bound)

  IsOnTrack-next : IsOnTrack (next_level m.type l) ms
  IsOnTrack-next = record {
    ordered = h.ordered.1;
    bound = next_bound;
    auth = next_auth;
    scope = next_scope;
    resolver = next_resolver;
    auth_once = next_auth_once;
    scope_once = next_scope_once;
  }

-- Where nothing is missing, the end of the list is reached with the permissions resolved.
pub level_after_of_IsOnTrack : (l : ℕ) (ms : List Metadata) → IsOnTrack l ms → level_after l ms ≡ 3
unfolding level_after
level_after_of_IsOnTrack l [] h = omega (arith, h.bound, h.resolver)
level_after_of_IsOnTrack l (m ∷ ms) h =
    level_after_of_IsOnTrack (next_level m.type l) ms (IsOnTrack-next l m ms h)

-- Parts of an ordered list.
All-prefix : (P : Metadata → Type 0) (xs ys : List Metadata) → All P (xs ++ ys) → All P xs
All-prefix P [] ys h = tt
All-prefix P (x ∷ xs) ys (h, hs) = (h, All-prefix P xs ys hs)

pub IsOrdered-prefix : (xs ys : List Metadata) → IsOrdered (xs ++ ys) → IsOrdered xs
IsOrdered-prefix [] ys h = tt
IsOrdered-prefix (x ∷ xs) ys (h, hs) = (All-prefix _ xs ys h, IsOrdered-prefix xs ys hs)

pub IsOrdered-suffix : (xs ys : List Metadata) → IsOrdered (xs ++ ys) → IsOrdered ys
IsOrdered-suffix [] ys h = h
IsOrdered-suffix (x ∷ xs) ys (h, hs) = IsOrdered-suffix xs ys hs

-- A type of a lower stage than a policy stands in front of it.
pub before_stage :
    (t : PolicyType) (xs : List Metadata) (m : Metadata) (ys : List Metadata)
    → 0 < policy_order_stage t
    → policy_order_stage t < policy_order_stage m.type
    → IsOrdered (xs ++ m ∷ ys)
    → Has t (xs ++ m ∷ ys)
    → Has t xs
before_stage t [] m ys pos lt ordered (inl here) = ground (arith, ap policy_order_stage here)
before_stage t [] m ys pos lt ordered (inr later) =
    absurd (not_later (policy_order_stage m.type) t ys ordered.0 pos lt later)
before_stage t (x ∷ xs) m ys pos lt ordered (inl here) = inl here
before_stage t (x ∷ xs) m ys pos lt ordered (inr later) =
    inr (before_stage t xs m ys pos lt ordered.1 later)

HasRbac-type :
    (m : Metadata) (xs ys : List Metadata) → policy_order_stage m.type ≡ 4 → HasRbac (xs ++ m ∷ ys)
unfolding policy_order_stage
HasRbac-type m [] ys e = ground arith
HasRbac-type m (x ∷ xs) ys e = ground (arith, HasRbac-type m xs ys e)

-- On a safe route the permissions are resolved in front of each permission policy.
pub level_before_permission :
    (pattern : Text) (xs : List Metadata) (m : Metadata) (ys : List Metadata)
    → IsSafeRoute pattern (xs ++ m ∷ ys)
    → policy_order_stage m.type ≡ 4
    → level_after 0 xs ≡ 3
unfolding policy_order_stage
level_before_permission pattern xs m ys safe e =
    let rbac = HasRbac-type m xs ys e in
    let resolver = safe.rbac_resolved rbac in
    level_after_of_IsOnTrack 0 xs (record {
      ordered = IsOrdered-prefix xs (m ∷ ys) safe.ordered;
      bound = omega arith;
      auth = inr (
          before_stage PolicyType.auth_required xs m ys (omega arith) (omega arith) safe.ordered
            (safe.authenticated (inl rbac)));
      scope = inr (
          before_stage PolicyType.project_required xs m ys (omega arith) (omega arith) safe.ordered
            (safe.resolver_scoped resolver));
      resolver = inr (
          before_stage PolicyType.resolve_permissions xs m ys (omega arith) (omega arith)
            safe.ordered resolver);
      auth_once = λ _. omega arith;
      scope_once = λ _. omega arith;
    })
