-- ===== src/Policy/Gates/Keep.antt =====
-- The policies that pass a request on unchanged: what was known of it stays known behind them, and
-- a permission policy adds its test.
use projectbook_backend.Base.{
  ℕ, ◌≡◌, refl, true, Bool-cases, List, Result, ok, err, inl, inr, arith,
}
use projectbook_backend.Text.{Text}
use projectbook_backend.Rbac.{has_perm}
use projectbook_backend.Policy.Http.{Request, Handler, Decision, Services}
use projectbook_backend.Policy.Gates.{
  require_json_policy, with_header_policy, project_match_policy, get_user_mask, has_any_perm,
  has_all_perms, normalize_required_permissions, require_permission_policy,
  require_any_permission_policy, require_all_permissions_policy, on_decision, rate_limit_policy,
}
use projectbook_backend.Policy.Gates.Reach.{Agree}

module _ {W : Type 0} (s : Services W) (Q : Request → Type 0) (next next' : Handler W) where
  open s use {allow}

  pub require_json_keep :
      Agree Q next next' → Agree Q (require_json_policy s next) (require_json_policy s next')
  unfolding require_json_policy
  require_json_keep agree r hs w q = ground (arith, agree r hs w q)

  pub with_header_keep :
      (k v : Text)
      → Agree Q next next'
      → Agree Q (with_header_policy s k v next) (with_header_policy s k v next')
  unfolding with_header_policy
  with_header_keep k v agree r hs w q = agree r _ w q

  pub project_match_keep :
      (param : Text)
      → Agree Q next next'
      → Agree Q (project_match_policy s param next) (project_match_policy s param next')
  unfolding project_match_policy
  project_match_keep param agree r hs w q = ground (arith, agree r hs w q)

  on_decision_keep :
      (d : Result (Unit {0}) Decision)
      → Agree Q next next'
      → Agree Q (on_decision s d next) (on_decision s d next')
  unfolding on_decision
  on_decision_keep (err e) agree r hs w q = refl
  on_decision_keep (ok d) agree r hs w q = ground (arith, agree r hs w q)

  pub rate_limit_keep :
      (rule : ℕ)
      → Agree Q next next'
      → Agree Q (rate_limit_policy s rule next) (rate_limit_policy s rule next')
  unfolding rate_limit_policy
  rate_limit_keep rule agree r hs w q = on_decision_keep (allow rule r w).0 agree r hs _ q

  pub require_permission_keep :
      (p : ℕ)
      → Agree (λ r. Q r × (has_perm (get_user_mask r) p ≡ true)) next next'
      → Agree Q (require_permission_policy s p next) (require_permission_policy s p next')
  unfolding require_permission_policy
  require_permission_keep p agree r hs w q = elim (Bool-cases (has_perm (get_user_mask r) p)) [
    | inl granted ↦ rw granted (agree r hs w (q, granted))
    | inr denied ↦ rw denied refl
  ]

  pub require_any_keep :
      (ps : List ℕ)
      → Agree
          (λ r. Q r × (has_any_perm (get_user_mask r) (normalize_required_permissions ps) ≡ true))
          next
          next'
      → Agree Q (require_any_permission_policy s ps next) (require_any_permission_policy s ps next')
  unfolding require_any_permission_policy
  require_any_keep ps agree r hs w q =
      elim (Bool-cases (has_any_perm (get_user_mask r) (normalize_required_permissions ps))) [
        | inl granted ↦ rw granted (agree r hs w (q, granted))
        | inr denied ↦ rw denied refl
      ]

  pub require_all_keep :
      (ps : List ℕ)
      → Agree
          (λ r. Q r × (has_all_perms (get_user_mask r) (normalize_required_permissions ps) ≡ true))
          next
          next'
      → Agree Q
          (require_all_permissions_policy s ps next)
          (require_all_permissions_policy s ps next')
  unfolding require_all_permissions_policy
  require_all_keep ps agree r hs w q =
      elim (Bool-cases (has_all_perms (get_user_mask r) (normalize_required_permissions ps))) [
        | inl granted ↦ rw granted (agree r hs w (q, granted))
        | inr denied ↦ rw denied refl
      ]
