-- ===== src/Policy/Pipeline/Registry.antt =====
-- internal/core/policy/metadata.go, the metadata of policies by the pointer to their code. All
-- closures of one function literal have one pointer, so what is stored for a policy is overwritten when
-- another policy of the same constructor is made. A custom policy has a function of its own.
use projectbook_backend.Base.{
  ℕ, suc, ◌≡◌, refl, sym, ap, ◌∙◌, ◌==◌, Bool, true, false, Bool-cases, inl, inr, Option, none,
  some, List, [], ◌∷◌, ◌++◌, All, if◌then◌else◌, Result, ok, err, ◌>>=◌, >>=-eq-ok,
}
use projectbook_backend.Policy.Metadata.{PolicyType, type_eq, type_eq_iff, Metadata}
use projectbook_backend.Policy.Pipeline.{
  RoutePolicy, noop, require_json, with_header, auth_required, project_required,
  project_match_from_path, resolve_permissions, require_permission, require_any_permission,
  require_all_permissions, rate_limit, cache_read, cache_invalidate, cache_control, custom,
  describe,
}

-- The function literal in the constructor of a type, or a function outside the package.
pub data Pointer : Type 0 where
  literal : PolicyType → Pointer
  function : ℕ → Pointer

unfoldable pub pointer_eq : Pointer → Pointer → Bool
unfolding type_eq
pointer_eq (literal t) (literal u) = type_eq t u
pointer_eq (function i) (function j) = i == j
pointer_eq (literal t) (function j) = false
pointer_eq (function i) (literal u) = false

-- policyMetadata, the last stored entry first.
abbrev pub Registry : Type 0
Registry = List (Pointer × Metadata)

unfoldable pub load_metadata : Pointer → Registry → Option Metadata
unfolding pointer_eq
load_metadata k [] = none
load_metadata k ((j, m) ∷ es) = if pointer_eq j k then some m else load_metadata k es

-- An index of a policy that is not annotated.
pub data DescribeError : Type 0 where
  not_annotated : ℕ → DescribeError

abbrev or_not_annotated : ℕ → Option Metadata → Result DescribeError Metadata
or_not_annotated i none = err (not_annotated i)
or_not_annotated i (some m) = ok m

module _ {W : Type 0} where
  -- policyPointer
  unfoldable pub policy_pointer : RoutePolicy W → Pointer
  policy_pointer noop = literal PolicyType.noop
  policy_pointer require_json = literal PolicyType.require_json
  policy_pointer (with_header k v) = literal PolicyType.with_header
  policy_pointer (auth_required mode) = literal PolicyType.auth_required
  policy_pointer project_required = literal PolicyType.project_required
  policy_pointer (project_match_from_path param) = literal PolicyType.project_match_from_path
  policy_pointer resolve_permissions = literal PolicyType.resolve_permissions
  policy_pointer (require_permission p) = literal PolicyType.require_permission
  policy_pointer (require_any_permission ps) = literal PolicyType.require_any_permission
  policy_pointer (require_all_permissions ps) = literal PolicyType.require_all_permissions
  policy_pointer (rate_limit rule) = literal PolicyType.rate_limit
  policy_pointer (cache_read m c) = literal PolicyType.cache_read
  policy_pointer (cache_invalidate m n) = literal PolicyType.cache_invalidate
  policy_pointer (cache_control ds vary) = literal PolicyType.cache_control
  policy_pointer (custom i name f) = function i

  -- annotatePolicy, as it runs when a policy is made.
  unfoldable pub annotate_policy : RoutePolicy W → Registry → Registry
  unfolding policy_pointer describe
  annotate_policy p es = (policy_pointer p, describe p) ∷ es

  -- What the policies that were made leave, the last of them first.
  unfoldable pub annotate_all : List (RoutePolicy W) → Registry
  unfolding annotate_policy
  annotate_all [] = []
  annotate_all (p ∷ ps) = annotate_policy p (annotate_all ps)

  unfoldable pub describe_from :
      Registry → ℕ → List (RoutePolicy W) → Result DescribeError (List Metadata)
  unfolding load_metadata policy_pointer
  describe_from es i [] = ok []
  describe_from es i (p ∷ ps) = do
    m ← or_not_annotated i (load_metadata (policy_pointer p) es)
    ms ← describe_from es (suc i) ps
    ok (m ∷ ms)

  -- DescribePolicies
  unfoldable pub describe_policies :
      Registry → List (RoutePolicy W) → Result DescribeError (List Metadata)
  unfolding describe_from
  describe_policies es ps = describe_from es 0 ps

-- The type that is stored under a pointer.
pointer_type : Pointer → PolicyType
pointer_type (literal t) = t
pointer_type (function i) = PolicyType.custom

pointer_eq-type : (j k : Pointer) → pointer_eq j k ≡ true → pointer_type j ≡ pointer_type k
unfolding pointer_eq pointer_type
pointer_eq-type (literal t) (literal u) h = (type_eq_iff t u).0 h
pointer_eq-type (function i) (function j) h = refl
pointer_eq-type (literal t) (function j) h = cc
pointer_eq-type (function i) (literal u) h = cc

-- Each entry has the type of its pointer.
IsTyped : Registry → Type 0
IsTyped es = All (λ e. e.1.type ≡ pointer_type e.0) es

load_metadata-type :
    (k : Pointer) (es : Registry) (m : Metadata)
    → IsTyped es
    → load_metadata k es ≡ some m
    → m.type ≡ pointer_type k
unfolding load_metadata IsTyped
load_metadata-type k [] m typed h = cc
load_metadata-type k ((j, n) ∷ es) m (first, rest) h = elim (Bool-cases (pointer_eq j k)) [
  | inl e ↦
      let same : n ≡ m = some_injective (rw e at h) in
      ap (λ x. x.type) (sym same) ∙ first ∙ pointer_eq-type j k e
  | inr e ↦ load_metadata-type k es m rest (rw e at h)
]
  where
    some_injective : {a b : Metadata} → some a ≡ some b → a ≡ b
    some_injective p = cc

loaded :
    (i : ℕ) (k : Pointer) (es : Registry) (m : Metadata)
    → or_not_annotated i (load_metadata k es) ≡ ok m
    → load_metadata k es ≡ some m
loaded i k es m h = found (load_metadata k es) h
  where
    found : (o : Option Metadata) → or_not_annotated i o ≡ ok m → o ≡ some m
    found none e = cc
    found (some n) e = cc

module _ {W : Type 0} where
  pointer_type-policy_pointer :
      (p : RoutePolicy W) → (describe p).type ≡ pointer_type (policy_pointer p)
  unfolding describe pointer_type policy_pointer
  pointer_type-policy_pointer noop = refl
  pointer_type-policy_pointer require_json = refl
  pointer_type-policy_pointer (with_header k v) = refl
  pointer_type-policy_pointer (auth_required mode) = refl
  pointer_type-policy_pointer project_required = refl
  pointer_type-policy_pointer (project_match_from_path param) = refl
  pointer_type-policy_pointer resolve_permissions = refl
  pointer_type-policy_pointer (require_permission p) = refl
  pointer_type-policy_pointer (require_any_permission ps) = refl
  pointer_type-policy_pointer (require_all_permissions ps) = refl
  pointer_type-policy_pointer (rate_limit rule) = refl
  pointer_type-policy_pointer (cache_read m c) = refl
  pointer_type-policy_pointer (cache_invalidate m n) = refl
  pointer_type-policy_pointer (cache_control ds vary) = refl
  pointer_type-policy_pointer (custom i name f) = refl

  annotate_all-IsTyped : (ps : List (RoutePolicy W)) → IsTyped (annotate_all ps)
  unfolding IsTyped annotate_all
  annotate_all-IsTyped [] = tt
  annotate_all-IsTyped (p ∷ ps) = (pointer_type-policy_pointer p, annotate_all-IsTyped ps)

  -- The metadata are those of policies of the same types.
  unfoldable pub HaveTypes : List (RoutePolicy W) → List Metadata → Type 0
  HaveTypes [] [] = Unit
  HaveTypes [] (m ∷ ms) = ⊥
  HaveTypes (p ∷ ps) [] = ⊥
  HaveTypes (p ∷ ps) (m ∷ ms) = (m.type ≡ (describe p).type) × HaveTypes ps ms

  describe_from-HaveTypes :
      (es : Registry) (i : ℕ) (ps : List (RoutePolicy W)) (ms : List Metadata)
      → IsTyped es
      → describe_from es i ps ≡ ok ms
      → HaveTypes ps ms
  unfolding describe_from HaveTypes
  describe_from-HaveTypes es i [] ms typed h = let e : [] ≡ ms = cc in rw (sym e) tt
  describe_from-HaveTypes es i (p ∷ ps) ms typed h =
      let (m, e1, h1) = >>=-eq-ok (or_not_annotated i (load_metadata (policy_pointer p) es)) _ h in
      let (rest, e2, h2) = >>=-eq-ok (describe_from es (suc i) ps) _ h1 in
      let e : m ∷ rest ≡ ms = cc in
      rw (sym e) (
        load_metadata-type (policy_pointer p) es m typed (loaded i (policy_pointer p) es m e1)
            ∙ sym (pointer_type-policy_pointer p),
        describe_from-HaveTypes es (suc i) ps rest typed e2,
      )

  -- Whatever was made before, and in whatever order, the metadata that DescribePolicies finds for a
  -- policy has the type of that policy.
  pub describe_policies-HaveTypes :
      (made ps : List (RoutePolicy W)) (ms : List Metadata)
      → describe_policies (annotate_all made) ps ≡ ok ms
      → HaveTypes ps ms
  unfolding describe_policies
  describe_policies-HaveTypes made ps ms h =
      describe_from-HaveTypes (annotate_all made) 0 ps ms (annotate_all-IsTyped made) h

  -- Metadata of a list of policies in two parts.
  pub HaveTypes-split :
      (ps : List (RoutePolicy W)) (p : RoutePolicy W) (qs : List (RoutePolicy W))
      (ms : List Metadata)
      → HaveTypes (ps ++ p ∷ qs) ms
      → (front : List Metadata) × (m : Metadata) × (back : List Metadata) × (ms ≡ front ++ m ∷ back)
        × HaveTypes ps front
        × (m.type ≡ (describe p).type)
        × HaveTypes qs back
  unfolding HaveTypes
  HaveTypes-split [] p qs [] h = absurd h
  HaveTypes-split [] p qs (m ∷ ms) (e, rest) = ([], m, ms, refl, tt, e, rest)
  HaveTypes-split (x ∷ ps) p qs [] h = absurd h
  HaveTypes-split (x ∷ ps) p qs (n ∷ ms) (e, rest) =
      let (front, m, back, same, hf, he, hb) = HaveTypes-split ps p qs ms rest in
      (n ∷ front, m, back, ap (λ ys. n ∷ ys) same, (e, hf), he, hb)
