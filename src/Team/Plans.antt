-- ===== src/Team/Plans.antt =====
-- What the checks of UpdateMemberPermissions in internal/modules/team/service.go establish.
use projectbook_backend.Base.{
  ℕ, ◌≡◌, ◌⊎◌, refl, ap, ◌∙◌, inl, inr, Bool, true, false, not, ◌==◌, ◌&&◌, ◌||◌, Option, none,
  some, Result, ok, arith,
}
use projectbook_backend.Base.Rows.{Yields, bind-Yields, guard-Yields, ok-Yields}
use projectbook_backend.Text.{Text, text_eq, is_empty, trim_space, mem_text}
use projectbook_backend.Rbac.{role_owner, canonical_roles}
use projectbook_backend.Rbac.Roles.{IsViewClosed}
use projectbook_backend.Team.{Failure, canonical_role, MemberRequest, validate_mask_dependencies}
use projectbook_backend.Team.Store.{Db}
use projectbook_backend.Team.Repo.{MemberInput}
use projectbook_backend.Team.Roles.{IsAmong, canonical_role-IsAmong}
use projectbook_backend.Team.Masks.{validate_mask_dependencies_iff}
use projectbook_backend.Team.Service.{assignable, settle_custom, resolve_role_mask, plan_member}

-- The input that the checks let through.
pub record IsPlan (project : Text) (db : Db) (input : MemberInput) : Type 0 where
  pub of_project : input.project_id ≡ project
  pub canonical : mem_text input.role canonical_roles ≡ true
  pub not_owner : text_eq input.role role_owner ≡ false
  pub closed : IsViewClosed input.permission_mask
  pub settled :
      (input.is_custom ≡ true)
      ⊎ (resolve_role_mask project input.role db ≡ ok input.permission_mask)

pub IsAssignable : Text → Type 0
IsAssignable role = (mem_text role canonical_roles ≡ true) × (text_eq role role_owner ≡ false)

unset : (b : Bool) → not b ≡ true → b ≡ false
unset b h = ground arith

assignable-IsAssignable :
    (o : Option Text) → IsAmong canonical_roles o → Yields IsAssignable (assignable o)
unfolding assignable IsAssignable
assignable-IsAssignable none h = λ r e. cc
assignable-IsAssignable (some role) h =
    guard-Yields _ (not (text_eq role role_owner)) _ _
      (λ other. ok-Yields _ role _ refl (h role refl, unset _ other))

settle_custom-Yields :
    (custom : Bool) (mask role_mask : ℕ)
    → Yields (λ c. (c ≡ true) ⊎ (role_mask ≡ mask)) (settle_custom custom mask role_mask)
unfolding settle_custom
settle_custom-Yields custom mask role_mask =
    guard-Yields _ (custom || (mask == role_mask)) _ _
      (λ h. ok-Yields _ (custom && not (mask == role_mask)) _ refl (ground (arith, h)))

settled_by :
    (r : Result Failure ℕ) (c : Bool) (mask role_mask : ℕ)
    → r ≡ ok role_mask
    → (c ≡ true) ⊎ (role_mask ≡ mask)
    → (c ≡ true) ⊎ (r ≡ ok mask)
settled_by r c mask role_mask h (inl e) = inl e
settled_by r c mask role_mask h (inr e) = inr (h ∙ ap ok e)

pub plan_member-IsPlan :
    (project member : Text) (req : MemberRequest) (db : Db)
    → Yields (IsPlan project db) (plan_member project member req db)
unfolding plan_member IsAssignable
plan_member-IsPlan project member req db =
    guard-Yields _ (not (is_empty (trim_space project))) _ _ (λ h0.
      guard-Yields _ (not (is_empty (trim_space member))) _ _ (λ h1.
        bind-Yields _ (assignable (canonical_role req.role)) _ (λ role h2.
          bind-Yields _ (validate_mask_dependencies req.permission_mask) _ (λ u h3.
            bind-Yields _ (resolve_role_mask project role db) _ (λ role_mask h4.
              bind-Yields _ (settle_custom req.is_custom req.permission_mask role_mask) _
                (λ custom h5.
                  let a = assignable-IsAssignable _ (canonical_role-IsAmong req.role) role h2 in
                  ok-Yields _ _ _ refl (record {
                    of_project = refl;
                    canonical = a.0;
                    not_owner = a.1;
                    closed = (validate_mask_dependencies_iff req.permission_mask).0 h3;
                    settled = settled_by _ custom req.permission_mask role_mask h4 (
                        settle_custom-Yields req.is_custom req.permission_mask role_mask custom h5);
                  })))))))
