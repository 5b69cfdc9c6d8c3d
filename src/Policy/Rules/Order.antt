-- ===== src/Policy/Rules/Order.antt =====
-- What validatePolicyOrdering accepts.
use projectbook_backend.Base.{
  ℕ, zero, suc, ◌≤◌, ◌<◌, ◌≡◌, ◌↔◌, ◌⊎◌, inl, inr, refl, ◌∙◌, Bool-cases, Option, none, some, List,
  [], ◌∷◌, All, ok, >>=-eq-ok, Result-cases, if◌then◌else◌, arith,
}
use projectbook_backend.Policy.Metadata.{
  PolicyType, project_required, project_match_from_path, unknown, Metadata, type_eq, type_eq_iff,
  Has,
}
use projectbook_backend.Policy.Rules.{
  policy_order_stage, Scan, scan_policy, scan_policies, check_indices, validate_policy_ordering,
}

-- A policy with a stage comes after every policy with a lower one.
abbrev pub IsOrdered : List Metadata → Type 0
IsOrdered [] = Unit
IsOrdered (m ∷ ms) =
    All
      (λ n.
        (policy_order_stage n.type ≡ 0) ⊎ (policy_order_stage m.type ≤ policy_order_stage n.type))
      ms
    × IsOrdered ms

-- Up to the first ProjectRequired, no ProjectMatchFromPath has a ProjectRequired behind it.
abbrev pub MatchFollows : List Metadata → Type 0
MatchFollows [] = Unit
MatchFollows (m ∷ ms) =
    (m.type ≡ project_required)
    ⊎ ((m.type ≡ project_match_from_path → ¬ Has project_required ms) × MatchFollows ms)

-- The largest stage so far, as the loop carries it.
next_stage : ℕ → ℕ → ℕ
next_stage p zero = p
next_stage p (suc k) = suc k

IsFrom : ℕ → List Metadata → Type 0
IsFrom p [] = Unit
IsFrom p (m ∷ ms) =
    ((policy_order_stage m.type ≡ 0) ⊎ (p ≤ policy_order_stage m.type))
    × IsFrom (next_stage p (policy_order_stage m.type)) ms

position : PolicyType → List Metadata → ℕ → Option ℕ
position t [] i = none
position t (m ∷ ms) i = if type_eq m.type t then some i else position t ms (suc i)

-- An index found before, or else the next one.
merge : Option ℕ → Option ℕ → Option ℕ
merge none o = o
merge (some j) o = some j

module _ (m : Metadata) (ms : List Metadata) (i : ℕ) (s s' : Scan)
    (e : scan_policy m i s ≡ ok s') where
  scan_policy_stage :
      ((policy_order_stage m.type ≡ 0) ⊎ (s.previous_stage ≤ policy_order_stage m.type))
      × (s'.previous_stage ≡ next_stage s.previous_stage (policy_order_stage m.type))
  unfolding scan_policy next_stage
  scan_policy_stage = ground arith

  scan_policy_required :
      merge s'.required_index (position project_required ms (suc i))
      ≡ merge s.required_index (position project_required (m ∷ ms) i)
  unfolding scan_policy merge position
  scan_policy_required = ground (arith, type_eq_iff m.type project_required)

  scan_policy_match :
      merge s'.match_index (position project_match_from_path ms (suc i))
      ≡ merge s.match_index (position project_match_from_path (m ∷ ms) i)
  unfolding scan_policy merge position
  scan_policy_match = ground (arith, type_eq_iff m.type project_match_from_path)

merge-none : (o : Option ℕ) → merge o none ≡ o
unfolding merge
merge-none none = refl
merge-none (some j) = refl

scan_policies_sound :
    (ms : List Metadata) (i : ℕ) (s s' : Scan)
    → scan_policies ms i s ≡ ok s'
    → IsFrom s.previous_stage ms
      × (s'.required_index ≡ merge s.required_index (position project_required ms i))
      × (s'.match_index ≡ merge s.match_index (position project_match_from_path ms i))
unfolding scan_policies IsFrom position
scan_policies_sound [] i s s' e =
    (tt, ground (arith, merge-none s.required_index), ground (arith, merge-none s.match_index))
scan_policies_sound (m ∷ ms) i s s' e =
    let (t, first, rest) = >>=-eq-ok (scan_policy m i s) (scan_policies ms (suc i)) e in
    let (from, required, matched) = scan_policies_sound ms (suc i) t s' rest in
    let (stage, previous) = scan_policy_stage m ms i s t first in
    (
      (stage, rw previous at from),
      required ∙ scan_policy_required m ms i s t first,
      matched ∙ scan_policy_match m ms i s t first,
    )

scan_policy_total :
    (m : Metadata) (i : ℕ) (s : Scan)
    → (policy_order_stage m.type ≡ 0) ⊎ (s.previous_stage ≤ policy_order_stage m.type)
    → (s' : Scan) × (scan_policy m i s ≡ ok s')
unfolding scan_policy
scan_policy_total m i s h = elim (Result-cases (scan_policy m i s)) [
  | inl done ↦ done
  | inr (e, failed) ↦ absurd (ground (arith, failed))
]

scan_policies_total :
    (ms : List Metadata) (i : ℕ) (s : Scan)
    → IsFrom s.previous_stage ms
    → (s' : Scan) × (scan_policies ms i s ≡ ok s')
unfolding scan_policies IsFrom
scan_policies_total [] i s h = (s, refl)
scan_policies_total (m ∷ ms) i s h =
    let (t, first) = scan_policy_total m i s h.0 in
    let (stage, previous) = scan_policy_stage m ms i s t first in
    let (s', rest) = scan_policies_total ms (suc i) t (rw previous h.1) in (s', rw first rest)

-- The running maximum and the comparison of all pairs agree.
next_stage-cases : (p k : ℕ) → ((k ≡ 0) × (next_stage p k ≡ p)) ⊎ ((0 < k) × (next_stage p k ≡ k))
unfolding next_stage
next_stage-cases p zero = inl (refl, refl)
next_stage-cases p (suc k) = inr (omega arith, refl)

abbrev IsAbove : ℕ → List Metadata → Type 0
IsAbove p ms = All (λ n. (policy_order_stage n.type ≡ 0) ⊎ (p ≤ policy_order_stage n.type)) ms

IsAbove-mono : (p q : ℕ) (ms : List Metadata) → p ≤ q → IsAbove q ms → IsAbove p ms
IsAbove-mono p q [] h a = tt
IsAbove-mono p q (m ∷ ms) h a = (ground (arith, a.0), IsAbove-mono p q ms h a.1)

IsAbove-zero : (ms : List Metadata) → IsAbove 0 ms
IsAbove-zero [] = tt
IsAbove-zero (m ∷ ms) = (inr (omega arith), IsAbove-zero ms)

IsFrom-IsAbove : (p : ℕ) (ms : List Metadata) → IsFrom p ms → IsAbove p ms × IsOrdered ms
unfolding IsFrom
IsFrom-IsAbove p [] f = (tt, tt)
IsFrom-IsAbove p (m ∷ ms) (first, rest) = elim (next_stage-cases p (policy_order_stage m.type)) [
  | inl (none_here, same) ↦
      let (above, ordered) = IsFrom-IsAbove p ms (rw same at rest) in
      ((first, above), (rw none_here (IsAbove-zero ms), ordered))
  | inr (staged, same) ↦
      let (above, ordered) = IsFrom-IsAbove (policy_order_stage m.type) ms (rw same at rest) in
      (
        (first, IsAbove-mono p (policy_order_stage m.type) ms (ground (arith, first)) above),
        (above, ordered),
      )
]

IsFrom-IsOrdered : (p : ℕ) (ms : List Metadata) → IsAbove p ms → IsOrdered ms → IsFrom p ms
unfolding IsFrom
IsFrom-IsOrdered p [] a o = tt
IsFrom-IsOrdered p (m ∷ ms) (first, above) (later, ordered) =
    elim (next_stage-cases p (policy_order_stage m.type)) [
      | inl (none_here, same) ↦ (first, rw same (IsFrom-IsOrdered p ms above ordered))
      | inr (staged, same) ↦
          (first, rw same (IsFrom-IsOrdered (policy_order_stage m.type) ms later ordered))
    ]

-- Where the first policy of a type stands.
position-cases :
    (t : PolicyType) (ms : List Metadata) (i : ℕ)
    → ((position t ms i ≡ none) × ¬ Has t ms)
      ⊎ ((j : ℕ) × (position t ms i ≡ some j) × (i ≤ j) × Has t ms)
unfolding position
position-cases t [] i = inl (refl, λ h. h)
position-cases t (m ∷ ms) i = elim (Bool-cases (type_eq m.type t)) [
  | inl e ↦ inr (i, rw e, omega arith, inl ((type_eq_iff m.type t).0 e))
  | inr e ↦ elim (position-cases t ms (suc i)) [
    | inl (missing, none_here) ↦ inl (
      rw e missing,
      λ h. elim h [ inl here ↦ cc ((type_eq_iff m.type t).1 here) | inr later ↦ none_here later ],
    )
    | inr (j, found, after, has) ↦ inr (j, rw e found, omega arith, inr has)
  ]
]

check_indices_iff :
    (ms : List Metadata) (i : ℕ)
    → (check_indices (position project_required ms i) (position project_match_from_path ms i)
        ≡ ok tt)
      ↔ MatchFollows ms
unfolding check_indices position
check_indices_iff [] i = (λ _. tt, λ _. refl)
check_indices_iff (m ∷ ms) i = ground (
  arith,
  type_eq_iff m.type project_required,
  type_eq_iff m.type project_match_from_path,
  position-cases project_required ms (suc i),
  position-cases project_match_from_path ms (suc i),
  check_indices_iff ms (suc i),
)

start : Scan
start = record {
  previous_stage = 0;
  previous_type = unknown;
  required_index = none;
  match_index = none;
}

-- validatePolicyOrdering accepts a list of policies exactly when the stages that are not zero
-- never fall and, up to the first ProjectRequired, no ProjectMatchFromPath has a ProjectRequired
-- behind it.
pub validate_policy_ordering_iff :
    (ms : List Metadata) → (validate_policy_ordering ms ≡ ok tt) ↔ (IsOrdered ms × MatchFollows ms)
unfolding validate_policy_ordering start merge
validate_policy_ordering_iff ms = (
  λ e.
      let (s, scanned, checked) = >>=-eq-ok (scan_policies ms 0 start) _ e in
      let (from, required, matched) = scan_policies_sound ms 0 start s scanned in
      (
        (IsFrom-IsAbove 0 ms from).1,
        (check_indices_iff ms 0).0 (rw (required, matched) at checked),
      ),
  λ h.
      let (s, scanned) =
        scan_policies_total ms 0 start (IsFrom-IsOrdered 0 ms (IsAbove-zero ms) h.0) in
      let (from, required, matched) = scan_policies_sound ms 0 start s scanned in
      rw scanned (rw (required, matched) ((check_indices_iff ms 0).1 h.1)),
)
