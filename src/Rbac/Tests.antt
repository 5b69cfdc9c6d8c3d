-- ===== src/Rbac/Tests.antt =====
-- The permission bits and the roles at concrete inputs.
use projectbook_backend.Base.{◌^◌, ◌<◌, ◌≡◌, ◌↔◌, refl, true, some, none, Any}
use projectbook_backend.Text.{codes, trim_space}
use projectbook_backend.Rbac.{
  story, task, edit, perm, has_perm, default_role_mask, default_role_masks,
}
use projectbook_backend.Rbac.Grants.{has_perm-perm_iff}
use projectbook_backend.Rbac.Roles.{
  IsRoleWithMask, IsViewClosed, default_role_mask_iff, default_role_mask-IsViewClosed,
}

story_edit : perm story edit ≡ 256
unfolding perm
story_edit = refl

editor_mask : default_role_mask (codes "  eDitor ") ≡ some 20016033248999873
unfolding default_role_mask
editor_mask = refl

no_such_role : default_role_mask (codes "guest") ≡ none
unfolding default_role_mask
no_such_role = refl

has_perm-perm_iff_example :
    (has_perm (perm story edit) (perm task edit) ≡ true) ↔ ((story ≡ task) × (edit ≡ edit))
has_perm-perm_iff_example = has_perm-perm_iff story task edit edit

default_role_mask_iff_example :
    (default_role_mask (codes " eDitor ") ≡ some 20016033248999873)
    ↔ Any (IsRoleWithMask (trim_space (codes " eDitor ")) 20016033248999873) default_role_masks
default_role_mask_iff_example = default_role_mask_iff (codes " eDitor ") 20016033248999873

default_role_mask-IsViewClosed_example :
    IsViewClosed 20016033248999873 × (20016033248999873 < 2 ^ 60)
default_role_mask-IsViewClosed_example =
    default_role_mask-IsViewClosed (codes "  eDitor ") 20016033248999873 editor_mask
