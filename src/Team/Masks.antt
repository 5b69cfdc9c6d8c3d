-- ===== src/Team/Masks.antt =====
-- The check of a mask's dependencies in internal/modules/team/service.go.
use projectbook_backend.Base.{
  ℕ, ◌+◌, ◌*◌, ◌^◌, ◌<◌, ◌≡◌, ◌↔◌, inl, inr, refl, true, false, bit_and, ok, guard_iff, suc, zero,
  sym, ap, ◌∙◌, ◌⊎◌, arith,
}
use projectbook_backend.Base.Bits.{
  bit, bit-lt_two, bit_and-pow, pow_pos, shift, shift-bit, bit_and-scaled, bit_and-five_iff,
}
use projectbook_backend.Rbac.{
  Domain, project, story, problem, idea, task, feedback, resource, page, calendar, member, Action,
  view, create, edit, delete, archive, status_change, domain_index, action_index, perm, has_perm,
}
use projectbook_backend.Rbac.Grants.{has_perm-perm}
use projectbook_backend.Rbac.Roles.{IsViewClosed}
use projectbook_backend.Team.{
  elevated_bits, actions, lacks_view, any_lacks_view, domains, validate_mask_dependencies,
}

elevated : (d : Domain) → elevated_bits (domain_index d) actions ≡ 62 * 2 ^ (domain_index d * 6)
unfolding elevated_bits domain_index
elevated d = ground arith

mul_zero : (x p : ℕ) → 0 < p → x * p ≡ 0 → x ≡ 0
mul_zero zero p h e = refl
mul_zero (suc x) p h e = absurd (omega arith)

zero_mul : (x p : ℕ) → x ≡ 0 → x * p ≡ 0
zero_mul x p h = rw h (omega arith)

-- The elevated digits of a domain, none of which is set.
NoElevated : ℕ → ℕ → Type 0
NoElevated m k =
    (bit m (k + 1) ≡ 0)
    × (bit m (k + 2) ≡ 0)
    × (bit m (k + 3) ≡ 0)
    × (bit m (k + 4) ≡ 0)
    × (bit m (k + 5) ≡ 0)

scaled_zero_iff : (m k : ℕ) → (bit_and m (62 * 2 ^ k) ≡ 0) ↔ (bit_and (shift m k) 62 ≡ 0)
scaled_zero_iff m k = (
  λ h. mul_zero _ (2 ^ k) (pow_pos k) (sym (bit_and-scaled m 62 k) ∙ h),
  λ h. bit_and-scaled m 62 k ∙ zero_mul _ (2 ^ k) h,
)

NoElevated-iff : (m k : ℕ) → (bit_and m (62 * 2 ^ k) ≡ 0) ↔ NoElevated m k
unfolding NoElevated
NoElevated-iff m k = (
  λ h.
      let (a, b, c, d, e) = (bit_and-five_iff (shift m k)).0 ((scaled_zero_iff m k).0 h) in
      (
        sym (shift-bit m k 1) ∙ a,
        sym (shift-bit m k 2) ∙ b,
        sym (shift-bit m k 3) ∙ c,
        sym (shift-bit m k 4) ∙ d,
        sym (shift-bit m k 5) ∙ e,
      ),
  λ (a, b, c, d, e). (scaled_zero_iff m k).1 (
      (bit_and-five_iff (shift m k)).1 (
        shift-bit m k 1 ∙ a,
        shift-bit m k 2 ∙ b,
        shift-bit m k 3 ∙ c,
        shift-bit m k 4 ∙ d,
        shift-bit m k 5 ∙ e,
      )),
)

view_zero_iff : (m k : ℕ) → (bit_and m (2 ^ k) ≡ 0) ↔ (bit m k ≡ 0)
view_zero_iff m k = (
  λ h. mul_zero _ (2 ^ k) (pow_pos k) (sym (bit_and-pow m k) ∙ h),
  λ h. bit_and-pow m k ∙ zero_mul _ (2 ^ k) h,
)

-- One round of the loop finds nothing exactly when no elevated digit is set or the first one is.
lacks_view_iff :
    (m : ℕ) (d : Domain)
    → (lacks_view m (domain_index d) ≡ false)
      ↔ (NoElevated m (domain_index d * 6) ⊎ (bit m (domain_index d * 6) ≡ 1))
unfolding lacks_view
lacks_view_iff m d =
    let k = domain_index d * 6 in
    let e : (bit_and m (elevated_bits (domain_index d) actions) ≡ 0) ↔ NoElevated m k =
      rw (elevated d) (NoElevated-iff m k) in
    ground (arith, e, view_zero_iff m k, bit-lt_two m k)

has_perm_at :
    (m : ℕ) (d : Domain) (a : Action)
    → (has_perm m (perm d a) ≡ true) ↔ (bit m (domain_index d * 6 + action_index a) ≡ 1)
has_perm_at m d a =
    let place : 6 * domain_index d + action_index a ≡ domain_index d * 6 + action_index a =
      omega arith in
    rw (sym place) (has_perm-perm m d a)

IsClosedAt : ℕ → Domain → Type 0
IsClosedAt m d = (a : Action) → has_perm m (perm d a) ≡ true → has_perm m (perm d view) ≡ true

first_digit : (m k : ℕ) → bit m (k + 0) ≡ bit m k
first_digit m k = let e : k + 0 ≡ k = omega arith in ap (bit m) e

view_at :
    (m : ℕ) (d : Domain) → (has_perm m (perm d view) ≡ true) ↔ (bit m (domain_index d * 6) ≡ 1)
unfolding action_index
view_at m d = rw (sym (first_digit m (domain_index d * 6))) (has_perm_at m d view)

elevated_case :
    (m k : ℕ) (a : Action) → NoElevated m k → bit m (k + action_index a) ≡ 1 → bit m k ≡ 1
unfolding action_index NoElevated
elevated_case m k view none_set e = sym (first_digit m k) ∙ e
elevated_case m k create (p, q, r, s, t) e = absurd (omega arith)
elevated_case m k edit (p, q, r, s, t) e = absurd (omega arith)
elevated_case m k delete (p, q, r, s, t) e = absurd (omega arith)
elevated_case m k archive (p, q, r, s, t) e = absurd (omega arith)
elevated_case m k status_change (p, q, r, s, t) e = absurd (omega arith)

bit_cases : (b : ℕ) → b < 2 → (b ≡ 0) ⊎ (b ≡ 1)
bit_cases b h = ground arith

passed : (m : ℕ) → validate_mask_dependencies m ≡ ok tt → any_lacks_view m domains ≡ false
unfolding validate_mask_dependencies
passed m h = ground (arith, (guard_iff _ _).0 h)

passes : (m : ℕ) → any_lacks_view m domains ≡ false → validate_mask_dependencies m ≡ ok tt
unfolding validate_mask_dependencies
passes m h = rw h refl

closed_of :
    (m : ℕ) (d : Domain)
    → NoElevated m (domain_index d * 6) ⊎ (bit m (domain_index d * 6) ≡ 1)
    → IsClosedAt m d
unfolding IsClosedAt
closed_of m d (inr e) a h = (view_at m d).1 e
closed_of m d (inl e) a h =
    (view_at m d).1 (elevated_case m (domain_index d * 6) a e ((has_perm_at m d a).0 h))

-- An elevated digit of a closed domain without its first digit is not set.
unset :
    (m : ℕ) (d : Domain) (a : Action)
    → IsClosedAt m d
    → bit m (domain_index d * 6) ≡ 0
    → bit m (domain_index d * 6 + action_index a) ≡ 0
unfolding IsClosedAt
unset m d a closed empty = ground (
  arith,
  (has_perm_at m d a).1,
  closed a,
  (view_at m d).0,
  bit-lt_two m (domain_index d * 6 + action_index a),
)

to_closed :
    (m : ℕ) (d : Domain)
    → IsClosedAt m d
    → NoElevated m (domain_index d * 6) ⊎ (bit m (domain_index d * 6) ≡ 1)
unfolding NoElevated action_index
to_closed m d closed = elim (bit_cases (bit m (domain_index d * 6)) (bit-lt_two m _)) [
  | inl e ↦ inl (
    unset m d create closed e,
    unset m d edit closed e,
    unset m d delete closed e,
    unset m d archive closed e,
    unset m d status_change closed e,
  )
  | inr e ↦ inr e
]

all_domains :
    (m : ℕ)
    → (any_lacks_view m domains ≡ false) ↔ ((d : Domain) → lacks_view m (domain_index d) ≡ false)
unfolding any_lacks_view domain_index
all_domains m = (
  λ h d. ground (arith, h),
  λ h. ground (
    arith,
    h project,
    h story,
    h problem,
    h idea,
    h task,
    h feedback,
    h resource,
    h page,
    h calendar,
    h member,
  ),
)

-- The check of a mask's dependencies passes exactly when each permission of the mask comes with the
-- view permission of its domain.
pub validate_mask_dependencies_iff :
    (m : ℕ) → (validate_mask_dependencies m ≡ ok tt) ↔ IsViewClosed m
unfolding validate_mask_dependencies IsClosedAt
validate_mask_dependencies_iff m = (
  λ h d. closed_of m d ((lacks_view_iff m d).0 ((all_domains m).0 (passed m h) d)),
  λ h. passes m ((all_domains m).1 (λ d. (lacks_view_iff m d).1 (to_closed m d (h d)))),
)
