-- ===== src/Rbac/Grants.antt =====
-- What a test of a permission bit tells of a mask.
use projectbook_backend.Base.{
  ℕ, ◌+◌, ◌*◌, ◌^◌, ◌<◌, ◌≡◌, ◌↔◌, ◌⊎◌, inl, inr, zero, suc, refl, true, arith,
}
use projectbook_backend.Base.Bits.{bit, bit-lt_two, bit_and-pow, pow_pos, pow-bit_self, pow-bit_eq}
use projectbook_backend.Rbac.{
  Domain, Action, domain_index, action_index, perm_index, perm, has_perm,
}

times_bit : (b p : ℕ) → b < 2 → (b ≡ 0) × (b * p ≡ 0) ⊎ (b ≡ 1) × (b * p ≡ p)
times_bit zero p h = inl (refl, omega arith)
times_bit (suc zero) p h = inr (refl, omega arith)
times_bit (suc (suc b)) p h = absurd (omega arith)

has_perm-pow : (m i : ℕ) → (has_perm m (2 ^ i) ≡ true) ↔ (bit m i ≡ 1)
unfolding has_perm
has_perm-pow m i =
    ground (arith, bit_and-pow m i, bit-lt_two m i, pow_pos i, times_bit (bit m i) (2 ^ i))

-- The permission constant of a domain and an action is in a mask exactly when the mask has the bit
-- at six times the domain's position plus the action's.
pub has_perm-perm :
    (m : ℕ) (d : Domain) (a : Action)
    → (has_perm m (perm d a) ≡ true) ↔ (bit m (6 * domain_index d + action_index a) ≡ 1)
unfolding perm
has_perm-perm m d a = has_perm-pow m (perm_index d a)

action_index-lt : (a : Action) → action_index a < 6
unfolding action_index
action_index-lt a = ground arith

domain_index-injective : (d e : Domain) → domain_index d ≡ domain_index e → d ≡ e
unfolding domain_index
domain_index-injective d e h = ground arith

action_index-injective : (a b : Action) → action_index a ≡ action_index b → a ≡ b
unfolding action_index
action_index-injective a b h = ground arith

pub perm_index-injective :
    (d e : Domain) (a b : Action) → perm_index d a ≡ perm_index e b → (d ≡ e) × (a ≡ b)
unfolding perm_index
perm_index-injective d e a b h = (
  domain_index-injective d e (omega (arith, action_index-lt a, action_index-lt b)),
  action_index-injective a b (omega (arith, action_index-lt a, action_index-lt b)),
)

-- A mask of one permission grants that permission and no other.
pub has_perm-perm_iff :
    (d e : Domain) (a b : Action) → (has_perm (perm d a) (perm e b) ≡ true) ↔ ((d ≡ e) × (a ≡ b))
unfolding perm
has_perm-perm_iff d e a b = (
  λ h. perm_index-injective d e a b (pow-bit_eq _ _ ((has_perm-pow _ _).0 h)),
  λ h. (has_perm-pow _ _).1 (rw (h.0, h.1) (pow-bit_self (perm_index e b))),
)
