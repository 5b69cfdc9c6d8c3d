-- ===== src/Text/Laws.antt =====
-- Laws of the string functions: trimming is idempotent, comparisons decide equality.
use projectbook_backend.Base.{
  ℕ, ◌≡◌, ◌↔◌, refl, ap, ◌∙◌, inl, inr, true, Bool-cases, [], ◌∷◌, arith,
}
use projectbook_backend.Text.{
  Text, text_eq, is_space, trim_left, keep, trim_right, trim_space, to_lower, equal_fold, is_empty,
}

pub text_eq_sound : (s t : Text) → text_eq s t ≡ true → s ≡ t
unfolding text_eq
text_eq_sound [] [] h = refl
text_eq_sound (a ∷ s) (b ∷ t) h = ground (arith, text_eq_sound s t)
text_eq_sound [] (b ∷ t) h = cc
text_eq_sound (a ∷ s) [] h = cc

pub text_eq_self : (s : Text) → text_eq s s ≡ true
unfolding text_eq
text_eq_self [] = refl
text_eq_self (a ∷ s) = ground (arith, text_eq_self s)

pub text_eq_iff : (s t : Text) → (text_eq s t ≡ true) ↔ (s ≡ t)
text_eq_iff s t = (text_eq_sound s t, λ p. rw p (text_eq_self t))

trim_left_fixed : (s : Text) → trim_left (trim_left s) ≡ trim_left s
unfolding trim_left
trim_left_fixed [] = refl
trim_left_fixed (c ∷ s) = ground (arith, trim_left_fixed s)

keep-trim_right : (c : ℕ) (s : Text) → trim_right s ≡ s → trim_right (keep c s) ≡ keep c s
unfolding trim_right
keep-trim_right c [] h = ground arith
keep-trim_right c (d ∷ s) h = ap (keep c) h

trim_right_fixed : (s : Text) → trim_right (trim_right s) ≡ trim_right s
unfolding trim_right
trim_right_fixed [] = refl
trim_right_fixed (c ∷ s) = keep-trim_right c (trim_right s) (trim_right_fixed s)

tail_fixed : (c : ℕ) (s : Text) → trim_right (c ∷ s) ≡ c ∷ s → trim_right s ≡ s
unfolding trim_right
tail_fixed c s h = ground arith

trim_left-trim_right : (s : Text) → trim_right s ≡ s → trim_right (trim_left s) ≡ trim_left s
unfolding trim_left trim_right
trim_left-trim_right [] h = refl
trim_left-trim_right (c ∷ s) h = elim (Bool-cases (is_space c)) [
  | inl e ↦ rw e (trim_left-trim_right s (tail_fixed c s h))
  | inr e ↦ rw e h
]

-- Trimming twice is trimming once.
pub trim_space_idempotent : (s : Text) → trim_space (trim_space s) ≡ trim_space s
unfolding trim_space
trim_space_idempotent s =
    ap trim_left (trim_left-trim_right (trim_right s) (trim_right_fixed s))
    ∙ trim_left_fixed (trim_right s)

pub equal_fold_iff : (s t : Text) → (equal_fold s t ≡ true) ↔ (to_lower s ≡ to_lower t)
unfolding equal_fold
equal_fold_iff s t = text_eq_iff (to_lower s) (to_lower t)

pub equal_fold_refl : (s : Text) → equal_fold s s ≡ true
unfolding equal_fold
equal_fold_refl s = text_eq_self (to_lower s)

pub is_empty_iff : (s : Text) → (is_empty s ≡ true) ↔ (s ≡ [])
is_empty_iff [] = ground arith
is_empty_iff (c ∷ s) = ground arith
