-- ===== src/Base/Rows.antt =====
-- Rows of a table: what a test, a search, a filter and a rewriting of rows tell of each other, and
-- what holds of every answer of a fallible computation.
use projectbook_backend.Base.Tests.{Result, ok, err, ◌>>=◌, guard, Bool-cases, if◌then◌else◌}
use projectbook_backend.Base.Lists.{length, any, All, find, filter, rewrite}
use Prim.Native.Nat.{◌≤◌, suc}
use native.Mathlib.Omega.{arith}
use mathlib.Core.Path.{◌≡◌, refl, ap, sym, ◌∙◌}
use mathlib.Core.Logic.{inl, inr}
use mathlib.Core.Bool.{Bool, true, false}
use mathlib.Core.Option.{some}
use mathlib.Core.List.{List, [], ◌∷◌}

-- Every answer of the computation satisfies P.
abbrev pub Yields {ℓ κ} : {E : Type ℓ} {A : Type κ} → (A → Type 0) → Result E A → Type (ℓ ⊔ κ)
Yields {A = A} P r = (a : A) → r ≡ ok a → P a

pub bind-Yields {ℓ κ μ} :
    {E : Type ℓ} {A : Type κ} {B : Type μ} (P : B → Type 0) (r : Result E A) (f : A → Result E B)
    → ((a : A) → r ≡ ok a → Yields P (f a))
    → Yields P (r >>= f)
bind-Yields P (ok a) f h = h a refl
bind-Yields P (err e) f h = λ b p. cc

pub guard-Yields {ℓ κ} :
    {E : Type ℓ} {B : Type κ} (P : B → Type 0) (b : Bool) (e : E) (r : Result E B)
    → (b ≡ true → Yields P r)
    → Yields P (guard b e >>= λ _. r)
guard-Yields P true e r h = h refl
guard-Yields P false e r h = λ b p. cc

pub if-Yields {ℓ κ} :
    {E : Type ℓ} {B : Type κ} (P : B → Type 0) (b : Bool) (e : E) (r : Result E B)
    → Yields P r
    → Yields P (if b then r else err e)
if-Yields P true e r h = h
if-Yields P false e r h = λ c p. cc

ok-injective {ℓ κ} :
    {E : Type ℓ} {A : Type κ} (r : Result E A) (a b : A) → r ≡ ok a → r ≡ ok b → a ≡ b
ok-injective r a b p q = cc

pub ok-Yields {ℓ κ} :
    {E : Type ℓ} {A : Type κ} (P : A → Type 0) (a : A) (r : Result E A)
    → r ≡ ok a
    → P a
    → Yields P r
ok-Yields P a r q h b p = rw (sym (ok-injective r a b q p)) h

some-injective {ℓ} : {A : Type ℓ} {a b : A} → some a ≡ some b → a ≡ b
some-injective p = cc

module _ {ℓ} {A : Type ℓ} where
  pub All-rewrite :
      (P Q : A → Type 0) (p : A → Bool) (f : A → A) (xs : List A)
      → ((x : A) → P x → p x ≡ true → Q (f x))
      → ((x : A) → P x → p x ≡ false → Q x)
      → All P xs
      → All Q (rewrite p f xs)
  All-rewrite P Q p f [] h k a = tt
  All-rewrite P Q p f (x ∷ xs) h k a = elim (Bool-cases (p x)) [
    | inl e ↦ rw e (h x a.0 e, All-rewrite P Q p f xs h k a.1)
    | inr e ↦ rw e (k x a.0 e, All-rewrite P Q p f xs h k a.1)
  ]

  pub any-rewrite :
      (q p : A → Bool) (f : A → A) (xs : List A)
      → ((x : A) → q (f x) ≡ q x)
      → any q (rewrite p f xs) ≡ any q xs
  any-rewrite q p f [] h = refl
  any-rewrite q p f (x ∷ xs) h = ground (arith, h x, any-rewrite q p f xs h)

  pub find-any : (q : A → Bool) (xs : List A) → any q xs ≡ true → (x : A) × (find q xs ≡ some x)
  find-any q [] h = cc
  find-any q (x ∷ xs) h = elim (Bool-cases (q x)) [
    | inl e ↦ (x, rw e refl)
    | inr e ↦ let (y, k) = find-any q xs (rw e at h) in (y, rw e k)
  ]

  pub All-find :
      (P : A → Type 0) (p : A → Bool) (xs : List A) (x : A) → All P xs → find p xs ≡ some x → P x
  All-find P p [] x a h = cc
  All-find P p (y ∷ ys) x a h = elim (Bool-cases (p y)) [
    | inl e ↦ rw (sym (some-injective (rw e at h))) a.0
    | inr e ↦ All-find P p ys x a.1 (rw e at h)
  ]

  pub find_passes : (p : A → Bool) (xs : List A) (x : A) → find p xs ≡ some x → p x ≡ true
  find_passes p [] x h = cc
  find_passes p (y ∷ ys) x h = elim (Bool-cases (p y)) [
    | inl e ↦ rw (sym (some-injective (rw e at h))) e
    | inr e ↦ find_passes p ys x (rw e at h)
  ]

  -- A rewriting that brings no row into a filter makes it no longer.
  pub filter-rewrite :
      (q p : A → Bool) (f : A → A) (xs : List A)
      → ((x : A) → q (f x) ≡ true → q x ≡ true)
      → length (filter q (rewrite p f xs)) ≤ length (filter q xs)
  filter-rewrite q p f [] h = omega arith
  filter-rewrite q p f (x ∷ xs) h = ground (arith, h x, filter-rewrite q p f xs h)

  -- Where no row passes, a filter is empty.
  pub filter-none : (q : A → Bool) (xs : List A) → any q xs ≡ false → length (filter q xs) ≡ 0
  filter-none q [] h = refl
  filter-none q (x ∷ xs) h = ground (arith, h, filter-none q xs)

  -- Tests that agree keep the same rows.
  pub any_cong : (p q : A → Bool) (xs : List A) → ((x : A) → p x ≡ q x) → any p xs ≡ any q xs
  any_cong p q [] h = refl
  any_cong p q (x ∷ xs) h = ground (arith, h x, any_cong p q xs h)

  -- A search after a rewriting that does not change its test.
  pub find-rewrite_same :
      (q p : A → Bool) (f : A → A) (xs : List A)
      → ((x : A) → q (f x) ≡ q x)
      → ((x : A) → q x ≡ true → p x ≡ true)
      → (x : A) → find q xs ≡ some x
      → find q (rewrite p f xs) ≡ some (f x)
  find-rewrite_same q p f [] k s x h = cc
  find-rewrite_same q p f (y ∷ ys) k s x h = elim (Bool-cases (q y)) [
    | inl e ↦ rw (s y e, k y, e, some-injective (rw e at h)) refl
    | inr e ↦
        let later = find-rewrite_same q p f ys k s x (rw e at h) in
        elim (Bool-cases (p y)) [ inl d ↦ rw (d, k y, e) later | inr d ↦ rw (d, e) later ]
  ]

  -- A search whose test the rewriting does not change finds the same row, rewritten or not.
  pub find-rewrite :
      (q p : A → Bool) (f : A → A) (xs : List A)
      → ((x : A) → q (f x) ≡ q x)
      → (x : A) → find q xs ≡ some x
      → find q (rewrite p f xs) ≡ some (if p x then f x else x)
  find-rewrite q p f [] k x h = cc
  find-rewrite q p f (y ∷ ys) k x h = elim (Bool-cases (q y)) [
    | inl e ↦
        let same : y ≡ x = some-injective (rw e at h) in
        elim (Bool-cases (p y)) [
          | inl d ↦ rw (d, k y, e, ap p (sym same) ∙ d, same) refl
          | inr d ↦ rw (d, e, ap p (sym same) ∙ d, same) refl
        ]
    | inr e ↦
        let later = find-rewrite q p f ys k x (rw e at h) in
        elim (Bool-cases (p y)) [ inl d ↦ rw (d, k y, e) later | inr d ↦ rw (d, e) later ]
  ]

  -- A search among rows that the rewriting leaves alone.
  pub find-rewrite_other :
      (q p : A → Bool) (f : A → A) (xs : List A)
      → ((x : A) → q (f x) ≡ q x)
      → ((x : A) → q x ≡ true → p x ≡ false)
      → find q (rewrite p f xs) ≡ find q xs
  find-rewrite_other q p f [] k s = refl
  find-rewrite_other q p f (y ∷ ys) k s = elim (Bool-cases (q y)) [
    | inl e ↦ rw (s y e, e) refl
    | inr e ↦
        let later = find-rewrite_other q p f ys k s in
        elim (Bool-cases (p y)) [ inl d ↦ rw (d, k y, e) later | inr d ↦ rw (d, e) later ]
  ]

  -- Rewriting rows that a filter leaves out, into rows that it leaves out.
  pub filter-rewrite_out :
      (q p : A → Bool) (f : A → A) (xs : List A)
      → ((x : A) → p x ≡ true → q x ≡ false)
      → ((x : A) → p x ≡ true → q (f x) ≡ false)
      → filter q (rewrite p f xs) ≡ filter q xs
  filter-rewrite_out q p f [] h k = refl
  filter-rewrite_out q p f (x ∷ xs) h k = elim (Bool-cases (p x)) [
    | inl e ↦ rw (e, k x e, h x e) (filter-rewrite_out q p f xs h k)
    | inr e ↦ rw (e, filter-rewrite_out q p f xs h k) refl
  ]

  pub rewrite-none :
      (p : A → Bool) (f : A → A) (xs : List A) → length (filter p xs) ≡ 0 → rewrite p f xs ≡ xs
  rewrite-none p f [] h = refl
  rewrite-none p f (x ∷ xs) h = elim (Bool-cases (p x)) [
    | inl e ↦ absurd (no_row (filter p xs) (rw e at h))
    | inr e ↦ rw (e, rewrite-none p f xs (rw e at h)) refl
  ]
    where
      no_row : (ys : List A) → suc (length ys) ≡ 0 → ⊥
      no_row ys e = omega arith

  -- The one row of a key, left out by a filter before and after it is rewritten.
  pub filter-rewrite_one :
      (q p : A → Bool) (f : A → A) (xs : List A) (m : A)
      → find p xs ≡ some m
      → length (filter p xs) ≤ 1
      → q m ≡ false
      → q (f m) ≡ false
      → filter q (rewrite p f xs) ≡ filter q xs
  filter-rewrite_one q p f [] m found one h k = cc
  filter-rewrite_one q p f (x ∷ xs) m found one h k = elim (Bool-cases (p x)) [
    | inl e ↦
        let same : x ≡ m = some-injective (rw e at found) in
        let rest : length (filter p xs) ≡ 0 = omega (arith, few (filter p xs) (rw e at one)) in
        rw (e, same, h, k, rewrite-none p f xs rest) refl
    | inr e ↦ rw (e, filter-rewrite_one q p f xs m (rw e at found) (rw e at one) h k) refl
  ]
    where
      few : (ys : List A) → suc (length ys) ≤ 1 → length ys ≡ 0
      few ys e = omega arith
