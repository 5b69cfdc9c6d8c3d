-- ===== src/Policy/Pipeline/Authorized.antt =====
-- What a validated route guarantees to its handler.
use mathlib.Core.Path.{fun_ext, subst}
use projectbook_backend.Base.{
  ℕ, zero, suc, ◌≤◌, ◌≡◌, refl, ap, ◌∙◌, ◌⊎◌, Bool, true, List, [], ◌∷◌, ◌++◌, All, ok, arith,
}
use projectbook_backend.Text.{Text}
use projectbook_backend.Rbac.{has_perm}
use projectbook_backend.Policy.Rules.{policy_order_stage, validate_route_rules}
use projectbook_backend.Policy.Rules.Safety.{IsSafeRoute, validate_route_rules_iff}
use projectbook_backend.Policy.Http.{Request, Headers, Handler, Services}
use projectbook_backend.Policy.Gates.{
  get_user_mask, has_any_perm, has_all_perms, normalize_required_permissions, noop_policy,
}
use projectbook_backend.Policy.Gates.Reach.{
  Agree, Authenticated, Scoped, Resolved, auth_reach, project_reach, resolve_reach,
}
use projectbook_backend.Policy.Gates.Keep.{
  require_json_keep, with_header_keep, project_match_keep, rate_limit_keep, require_permission_keep,
  require_any_keep, require_all_keep,
}
use projectbook_backend.Policy.Caching.{new_cache_read_runtime}
use projectbook_backend.Policy.Caching.Laws.{cache_read_keep, cache_invalidate_keep}
use projectbook_backend.Policy.Pipeline.{
  RoutePolicy, noop, require_json, with_header, auth_required, project_required,
  project_match_from_path, resolve_permissions, require_permission, require_any_permission,
  require_all_permissions, rate_limit, cache_read, cache_invalidate, cache_control, custom,
  describe, apply, chain,
}
use projectbook_backend.Policy.Metadata.{Metadata}
use projectbook_backend.Policy.CacheControl.{cache_control_policy}
use projectbook_backend.Policy.Pipeline.Registry.{
  annotate_all, describe_policies, HaveTypes, describe_policies-HaveTypes, HaveTypes-split,
}
use projectbook_backend.Policy.Pipeline.Levels.{
  next_level, level_after, IsOrdered-suffix, level_before_permission,
}

module _ {W : Type 0} where
  -- The test that a permission policy makes of the mask.
  abbrev pub permits : RoutePolicy W → ℕ → Bool
  permits (require_permission p) mask = has_perm mask p
  permits (require_any_permission ps) mask = has_any_perm mask (normalize_required_permissions ps)
  permits (require_all_permissions ps) mask = has_all_perms mask (normalize_required_permissions ps)
  permits _ mask = true

  -- It is one of the three permission policies.
  abbrev pub IsPermissionPolicy : RoutePolicy W → Type 0
  IsPermissionPolicy p = policy_order_stage (describe p).type ≡ 4

  Agree-all : {next next' : Handler W} → Agree (λ _. Unit {0}) next next' → next ≡ next'
  Agree-all agree = fun_ext (λ r. fun_ext (λ hs. fun_ext (λ w. agree r hs w tt)))

module _ {W : Type 0} where
  -- A custom policy hands on the request that it got: what it does depends on the next handler only
  -- through what that does at this request.
  abbrev pub HandsOn : RoutePolicy W → Type 0
  HandsOn (custom i name f) =
      (next next' : Handler W) (r : Request)
      → ((hs : Headers) (w : W) → next r hs w ≡ next' r hs w)
      → (hs : Headers) (w : W) → f next r hs w ≡ f next' r hs w
  HandsOn _ = Unit

  HandsOn-split :
      (ps qs : List (RoutePolicy W)) → All HandsOn (ps ++ qs) → All HandsOn ps × All HandsOn qs
  HandsOn-split [] qs h = (tt, h)
  HandsOn-split (p ∷ ps) qs (h, hs) =
      let (front, back) = HandsOn-split ps qs hs in ((h, front), back)

module _ {W : Type 0} (s : Services W) where
  -- What is known at a level.
  Knows : ℕ → Request → Type 0
  Knows zero r = Unit
  Knows (suc zero) r = Authenticated s r
  Knows (suc (suc zero)) r = Scoped s r
  Knows (suc (suc (suc l))) r = Resolved s r

  Scoped-Authenticated : (r : Request) → Scoped s r → Authenticated s r
  Scoped-Authenticated r (a, here, known, scope) = (a, here, known)

  Resolved-Scoped : (r : Request) → Resolved s r → Scoped s r
  Resolved-Scoped r (a, here, known, (path, project, leads, res)) =
      (a, here, known, (path, project, leads))

  module _ (next next' : Handler W) where
    same_all :
        (p : RoutePolicy W) (Q : Request → Type 0)
        → Agree (λ _. Unit {0}) next next'
        → Agree Q (apply s p next) (apply s p next')
    same_all p Q agree r hs w q = ap (λ (n : Handler W). apply s p n r hs w) (Agree-all agree)

    -- A policy of a later stage, or of none, keeps whatever is known.
    late_keep :
        (p : RoutePolicy W) (Q : Request → Type 0)
        → HandsOn p
        → (policy_order_stage (describe p).type ≡ 0) ⊎ (4 ≤ policy_order_stage (describe p).type)
        → Agree Q next next'
        → Agree Q (apply s p next) (apply s p next')
    unfolding apply describe policy_order_stage noop_policy cache_control_policy
    late_keep noop Q hands late agree = agree
    late_keep require_json Q hands late agree = require_json_keep s Q next next' agree
    late_keep (with_header k v) Q hands late agree = with_header_keep s Q next next' k v agree
    late_keep (auth_required mode) Q hands late agree = absurd (omega arith)
    late_keep project_required Q hands late agree = absurd (omega arith)
    late_keep (project_match_from_path param) Q hands late agree = absurd (omega arith)
    late_keep resolve_permissions Q hands late agree = absurd (omega arith)
    late_keep (require_permission p) Q hands late agree =
        require_permission_keep s Q next next' p (λ r hs w q. agree r hs w q.0)
    late_keep (require_any_permission ps) Q hands late agree =
        require_any_keep s Q next next' ps (λ r hs w q. agree r hs w q.0)
    late_keep (require_all_permissions ps) Q hands late agree =
        require_all_keep s Q next next' ps (λ r hs w q. agree r hs w q.0)
    late_keep (rate_limit rule) Q hands late agree = rate_limit_keep s Q next next' rule agree
    late_keep (cache_read m c) Q hands late agree =
        cache_read_keep s m Q next next' agree (new_cache_read_runtime c)
    late_keep (cache_invalidate m n) Q hands late agree =
        cache_invalidate_keep s m Q next next' agree
    late_keep (cache_control ds vary) Q hands late agree = λ r hs w q. agree r _ w q
    late_keep (custom i name f) Q hands late agree =
        λ r hs w q. hands next next' r (λ hs' w'. agree r hs' w' q) hs w

    -- Each policy takes what is known to the next level.
    level_step :
        (p : RoutePolicy W) (l : ℕ)
        → HandsOn p
        → Agree (Knows (next_level (describe p).type l)) next next'
        → Agree (Knows l) (apply s p next) (apply s p next')
    unfolding apply describe next_level Knows
    level_step (auth_required mode) l hands agree = auth_reach s next next' (Knows l) mode agree
    level_step project_required zero hands agree = same_all project_required (λ _. Unit) agree
    level_step project_required (suc zero) hands agree = project_reach s next next' agree
    level_step project_required (suc (suc zero)) hands agree =
        λ r hs w q. project_reach s next next' agree r hs w (Scoped-Authenticated r q)
    level_step project_required (suc (suc (suc l))) hands agree = λ r hs w q.
        project_reach s next next' agree r hs w (Scoped-Authenticated r (Resolved-Scoped r q))
    level_step resolve_permissions zero hands agree = same_all resolve_permissions (λ _. Unit) agree
    level_step resolve_permissions (suc zero) hands agree = same_all resolve_permissions _ agree
    level_step resolve_permissions (suc (suc zero)) hands agree = resolve_reach s next next' agree
    level_step resolve_permissions (suc (suc (suc l))) hands agree =
        λ r hs w q. resolve_reach s next next' agree r hs w (Resolved-Scoped r q)
    level_step (project_match_from_path param) l hands agree =
        project_match_keep s (Knows l) next next' param agree
    level_step p l hands agree =
        late_keep p (Knows l) hands (unfold policy_order_stage in omega arith) agree

  chain-append :
      (h : Handler W) (ps qs : List (RoutePolicy W))
      → chain s h (ps ++ qs) ≡ chain s (chain s h qs) ps
  unfolding chain
  chain-append h [] qs = refl
  chain-append h (p ∷ ps) qs = ap (apply s p) (chain-append h ps qs)

  -- A prefix of the policies takes what is known from level to level.
  chain_step :
      (h h' : Handler W) (l : ℕ) (ps : List (RoutePolicy W)) (ms : List Metadata)
      → HaveTypes ps ms
      → All HandsOn ps
      → Agree (Knows (level_after l ms)) h h'
      → Agree (Knows l) (chain s h ps) (chain s h' ps)
  unfolding chain level_after HaveTypes
  chain_step h h' l [] [] typed hands agree = agree
  chain_step h h' l [] (m ∷ ms) typed hands agree = absurd typed
  chain_step h h' l (p ∷ ps) [] typed hands agree = absurd typed
  chain_step h h' l (p ∷ ps) (m ∷ ms) (e, typed) (hand, hands) agree =
      level_step (chain s h ps) (chain s h' ps) p l hand (
        subst (λ t. Agree (Knows (next_level t l)) (chain s h ps) (chain s h' ps)) e
          (chain_step h h' (next_level m.type l) ps ms typed hands agree))

  -- A suffix of late policies keeps what is known.
  chain_keep :
      (h h' : Handler W) (Q : Request → Type 0) (ps : List (RoutePolicy W)) (ms : List Metadata)
      → HaveTypes ps ms
      → All HandsOn ps
      → All (λ m. (policy_order_stage m.type ≡ 0) ⊎ (4 ≤ policy_order_stage m.type)) ms
      → Agree Q h h'
      → Agree Q (chain s h ps) (chain s h' ps)
  unfolding chain HaveTypes
  chain_keep h h' Q [] [] typed hands late agree = agree
  chain_keep h h' Q [] (m ∷ ms) typed hands late agree = absurd typed
  chain_keep h h' Q (p ∷ ps) [] typed hands late agree = absurd typed
  chain_keep h h' Q (p ∷ ps) (m ∷ ms) (e, typed) (hand, hands) (first, rest) agree =
      late_keep (chain s h ps) (chain s h' ps) p Q hand (rw e at first)
        (chain_keep h h' Q ps ms typed hands rest agree)

  -- A permission policy adds its test.
  permission_step :
      (next next' : Handler W) (p : RoutePolicy W) (Q : Request → Type 0)
      → IsPermissionPolicy p
      → Agree (λ r. Q r × (permits p (get_user_mask r) ≡ true)) next next'
      → Agree Q (apply s p next) (apply s p next')
  unfolding apply describe policy_order_stage
  permission_step next next' (require_permission p) Q e agree =
      require_permission_keep s Q next next' p agree
  permission_step next next' (require_any_permission ps) Q e agree =
      require_any_keep s Q next next' ps agree
  permission_step next next' (require_all_permissions ps) Q e agree =
      require_all_keep s Q next next' ps agree
  permission_step next next' _ Q e agree = absurd (omega arith)

  -- The two parts of a route that its metadata prove ordered and resolved, around a permission policy.
  authorized_parts :
      (pattern : Text) (ps : List (RoutePolicy W)) (p : RoutePolicy W) (qs : List (RoutePolicy W))
      (h h' : Handler W) (front : List Metadata) (m : Metadata) (back : List Metadata)
      → IsSafeRoute pattern (front ++ m ∷ back)
      → HaveTypes ps front
      → m.type ≡ (describe p).type
      → HaveTypes qs back
      → All HandsOn (ps ++ p ∷ qs)
      → IsPermissionPolicy p
      → Agree (λ r. Resolved s r × (permits p (get_user_mask r) ≡ true)) h h'
      → Agree (λ _. Unit {0}) (chain s h (ps ++ p ∷ qs)) (chain s h' (ps ++ p ∷ qs))
  unfolding chain Knows
  authorized_parts pattern ps p qs h h' front m back safe hf he hb hands e agree =
      let stage : policy_order_stage m.type ≡ 4 = ap policy_order_stage he ∙ e in
      let level = level_before_permission pattern front m back safe stage in
      let (behind, _) = IsOrdered-suffix front (m ∷ back) safe.ordered in
      let (hands_front, (_, hands_back)) = HandsOn-split ps (p ∷ qs) hands in
      let inner = chain_keep h h' _ qs back hb hands_back (rw stage at behind) agree in
      let tested = permission_step (chain s h qs) (chain s h' qs) p (Resolved s) e inner in
      rw (chain-append h ps (p ∷ qs), chain-append h' ps (p ∷ qs))
        (chain_step (chain s h (p ∷ qs)) (chain s h' (p ∷ qs)) 0 ps front hf hands_front
          (rw level tested))

  -- Take a route that the validator accepts by the metadata that DescribePolicies finds for its
  -- policies, whatever policies were made and annotated before, where a permission policy is among
  -- its policies and each custom policy hands on the request that it got. Its handler has a say only
  -- at requests whose principal the guard accepted, whose mask is the resolver's answer for that user
  -- and the project in the path, and whose mask passes the policy's test: two handlers that agree on
  -- those requests give the same responses and the same effects on all.
  pub chain_authorized :
      (pattern : Text) (made ps : List (RoutePolicy W)) (p : RoutePolicy W)
      (qs : List (RoutePolicy W)) (ms : List Metadata) (h h' : Handler W)
      → describe_policies (annotate_all made) (ps ++ p ∷ qs) ≡ ok ms
      → validate_route_rules pattern ms ≡ ok tt
      → All HandsOn (ps ++ p ∷ qs)
      → IsPermissionPolicy p
      → Agree (λ r. Resolved s r × (permits p (get_user_mask r) ≡ true)) h h'
      → (r : Request) (hs : Headers) (w : W)
      → chain s h (ps ++ p ∷ qs) r hs w ≡ chain s h' (ps ++ p ∷ qs) r hs w
  chain_authorized pattern made ps p qs ms h h' found valid hands e agree r hs w =
      let typed = describe_policies-HaveTypes made (ps ++ p ∷ qs) ms found in
      let (front, m, back, same, hf, he, hb) = HaveTypes-split ps p qs ms typed in
      let accepted = (validate_route_rules_iff pattern ms).0 valid in
      let safe : IsSafeRoute pattern (front ++ m ∷ back) = rw same at accepted in
      authorized_parts pattern ps p qs h h' front m back safe hf he hb hands e agree r hs w tt
