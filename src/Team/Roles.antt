-- ===== src/Team/Roles.antt =====
-- The names of roles that internal/modules/team/dto.go accepts.
use projectbook_backend.Base.{
  ◌≡◌, refl, sym, inl, inr, Bool, true, false, Bool-cases, Option, none, some, List, [], ◌∷◌,
  if◌then◌else◌, ◌||◌,
}
use projectbook_backend.Text.{
  Text, codes, text_eq, is_empty, trim_space, to_lower, equal_fold, mem_text,
}
use projectbook_backend.Text.Unique.{mem_text_here, mem_text_later}
use projectbook_backend.Rbac.{
  role_owner, role_admin, role_editor, role_member, role_viewer, role_limited_access,
  canonical_roles,
}
use projectbook_backend.Team.{
  match_role, role_of_slug, role_of_name, or_matched, canonical_role, canonical_role_from_slug,
}

-- Every role that may be answered is in the list.
abbrev pub IsAmong : List Text → Option Text → Type 0
IsAmong roles o = (r : Text) → o ≡ some r → mem_text r roles ≡ true

IsAmong-some : (roles : List Text) (r : Text) → mem_text r roles ≡ true → IsAmong roles (some r)
IsAmong-some roles r h s e = rw (sym (some_injective e)) h
  where
    some_injective : {a b : Text} → some a ≡ some b → a ≡ b
    some_injective p = cc

IsAmong-none : (roles : List Text) → IsAmong roles none
IsAmong-none roles s e = cc

IsAmong-if :
    (roles : List Text) (b : Bool) (o p : Option Text)
    → IsAmong roles o
    → IsAmong roles p
    → IsAmong roles (if b then o else p)
IsAmong-if roles true o p h k = h
IsAmong-if roles false o p h k = k

match_role-IsAmong : (roles : List Text) (s : Text) → IsAmong roles (match_role roles s)
unfolding match_role
match_role-IsAmong [] s = IsAmong-none []
match_role-IsAmong (r ∷ roles) s =
    IsAmong-if (r ∷ roles) (equal_fold r s) _ _ (IsAmong-some (r ∷ roles) r (mem_text_here r roles))
      (λ t e. mem_text_later t r roles (match_role-IsAmong roles s t e))

role_of_name-IsAmong : (s : Text) → IsAmong canonical_roles (role_of_name s)
unfolding role_of_name mem_text
role_of_name-IsAmong s =
    IsAmong-if canonical_roles _ _ _ (IsAmong-some canonical_roles role_owner refl) (
      IsAmong-if canonical_roles _ _ _ (IsAmong-some canonical_roles role_admin refl) (
        IsAmong-if canonical_roles _ _ _ (IsAmong-some canonical_roles role_editor refl) (
          IsAmong-if canonical_roles _ _ _ (IsAmong-some canonical_roles role_member refl) (
            IsAmong-if canonical_roles _ _ _ (IsAmong-some canonical_roles role_viewer refl) (
              IsAmong-if canonical_roles _ _ _
                (IsAmong-some canonical_roles role_limited_access refl)
                (IsAmong-none canonical_roles))))))

or_matched-IsAmong :
    (s : Text) (o : Option Text)
    → IsAmong canonical_roles o
    → IsAmong canonical_roles (or_matched s o)
unfolding or_matched
or_matched-IsAmong s (some r) h = h
or_matched-IsAmong s none h = match_role-IsAmong canonical_roles s

-- A role that is read from a request is one of the canonical roles.
pub canonical_role-IsAmong : (s : Text) → IsAmong canonical_roles (canonical_role s)
unfolding canonical_role
canonical_role-IsAmong s =
    IsAmong-if canonical_roles _ _ _ (IsAmong-none canonical_roles)
      (or_matched-IsAmong (trim_space s) _ (role_of_name-IsAmong (to_lower (trim_space s))))

or_matched_keeps : (s r : Text) (o : Option Text) → o ≡ some r → or_matched s o ≡ some r
unfolding or_matched
or_matched_keeps s r (some q) h = h
or_matched_keeps s r none h = cc

blank_slug : (s r : Text) → is_empty s ≡ true → role_of_slug (to_lower s) ≡ some r → ⊥
unfolding role_of_slug to_lower text_eq
blank_slug [] r h e = cc
blank_slug (c ∷ s) r h e = cc

same_branch :
    (b : Bool) (x p q : Option Text) (r : Text)
    → (p ≡ some r → q ≡ some r)
    → (if b then x else p) ≡ some r
    → (if b then x else q) ≡ some r
same_branch true x p q r next h = h
same_branch false x p q r next h = next h

wider_branch :
    (a b : Bool) (x q : Option Text) (r : Text)
    → (if a then x else none) ≡ some r
    → (if a || b then x else q) ≡ some r
wider_branch true b x q r h = h
wider_branch false b x q r h = cc

-- The tables of the two switches agree where the one for paths has a role.
role_of_slug-role_of_name : (s r : Text) → role_of_slug s ≡ some r → role_of_name s ≡ some r
unfolding role_of_slug role_of_name
role_of_slug-role_of_name s r = same_branch (text_eq s (codes "owner")) (some role_owner) _ _ r (
    same_branch (text_eq s (codes "admin")) (some role_admin) _ _ r (
      same_branch (text_eq s (codes "editor")) (some role_editor) _ _ r (
        same_branch (text_eq s (codes "member")) (some role_member) _ _ r (
          same_branch (text_eq s (codes "viewer")) (some role_viewer) _ _ r (
            wider_branch (text_eq s (codes "limited-access")) _ (some role_limited_access) none
              r)))))

-- A role that is read from a path is read as the same role from a body, though each reading has a
-- table of names of its own.
pub canonical_role_from_slug-canonical_role :
    (s r : Text) → canonical_role_from_slug s ≡ some r → canonical_role s ≡ some r
unfolding canonical_role canonical_role_from_slug
canonical_role_from_slug-canonical_role s r h = elim (Bool-cases (is_empty (trim_space s))) [
  | inl e ↦ absurd (blank_slug (trim_space s) r e h)
  | inr e ↦ rw e (
      or_matched_keeps (trim_space s) r _ (role_of_slug-role_of_name (to_lower (trim_space s)) r h))
]
