-- ===== src/Artifacts/Workflow.antt =====
-- The checks of service.go and dto.go on one update. The six functions Update<Kind> differ in their
-- tables, which a Workflow holds.
use projectbook_backend.Base.{
  ℕ, suc, ◌==◌, Bool, false, not, ◌&&◌, ◌||◌, Option, none, some, List, [], ◌∷◌, if◌then◌else◌,
  Result, ok, err, ◌>>=◌, ◌>>◌, guard,
}
use projectbook_backend.Text.{Text, codes, text_eq, is_empty, trim_space, equal_fold, mem_text}
use projectbook_backend.Rbac.{lookup_text}
use projectbook_backend.Patchx.{
  Value, null, text, Fields, end, field, Rules, PatchFailure, validate_patch,
}

-- `patch[key]`, nil where the key is missing.
unfoldable pub lookup_field : Text → Fields → Value
unfolding text_eq
lookup_field k end = null
lookup_field k (field j v fs) = if text_eq j k then v else lookup_field k fs

-- `patch[key] = value`
unfoldable pub set_field : Text → Value → Fields → Fields
unfolding text_eq
set_field k v end = field k v end
set_field k v (field j u fs) = if text_eq j k then field k v fs else field j u (set_field k v fs)

-- `len(patch)`
unfoldable pub count_fields : Fields → ℕ
count_fields end = 0
count_fields (field k v fs) = suc (count_fields fs)

unfoldable pub to_string : Value → Text
unfolding trim_space
to_string (text t) = trim_space t
to_string _ = []

unfoldable pub string_at : Text → Fields → Text
unfolding lookup_field to_string
string_at k fs = to_string (lookup_field k fs)

abbrev pub status_key : Text
status_key = codes "status"

-- The second loop of normalizeAllowedStatus.
unfoldable pub fold_match : List Text → Text → Option Text
unfolding equal_fold
fold_match [] raw = none
fold_match (c ∷ cs) raw = if equal_fold c raw then some c else fold_match cs raw

unfoldable pub normalize_allowed_status : List Text → Text → Option Text
unfolding fold_match mem_text trim_space
normalize_allowed_status allowed raw =
    if is_empty (trim_space raw)
    then none
    else if mem_text (trim_space raw) allowed
    then some (trim_space raw)
    else fold_match allowed (trim_space raw)

-- `matrix[from][to]`
unfoldable pub is_allowed_transition : Text → Text → List (Text × List Text) → Bool
unfolding lookup_text mem_text trim_space
is_allowed_transition from to matrix =
    not (is_empty (trim_space from))
    && not (is_empty (trim_space to))
    && elim (lookup_text (trim_space from) matrix) [
      | none ↦ false
      | some allowed ↦ mem_text (trim_space to) allowed
    ]

unfoldable pub is_immutable_status : Text → List Text → Bool
unfolding mem_text trim_space
is_immutable_status status immutable =
    not (is_empty (trim_space status)) && mem_text (trim_space status) immutable

abbrev pub archived_text : Text
archived_text = codes "Archived"

unfoldable pub is_archive_only_patch : Fields → Bool
unfolding count_fields string_at equal_fold trim_space
is_archive_only_patch fs =
    (count_fields fs == 1) && equal_fold (trim_space (string_at status_key fs)) archived_text

unfoldable pub is_restore_only_patch : Text → Fields → Bool
unfolding count_fields string_at equal_fold trim_space
is_restore_only_patch from fs =
    equal_fold (trim_space from) archived_text
    && (count_fields fs == 1)
    && not (is_empty (trim_space (string_at status_key fs)))
    && not (equal_fold (trim_space (string_at status_key fs)) archived_text)

pub data UpdateError : Type 0 where
  invalid_patch : PatchFailure → UpdateError
  invalid_value : Text → UpdateError
  immutable_state : Text → UpdateError
  invalid_transition not_found : UpdateError

-- enforceArchiveOnlyForImmutableUpdate
unfoldable pub enforce_archive_only : Text → Fields → List Text → Result UpdateError (Unit {0})
unfolding is_immutable_status is_archive_only_patch is_restore_only_patch
enforce_archive_only from fs immutable =
    guard
      (not (is_immutable_status from immutable)
        || is_archive_only_patch fs
        || is_restore_only_patch from fs)
      (immutable_state from)

-- The tables of one kind: the rules of its patches, the fields with a fixed set of values, the
-- statuses that freeze it, and the transitions.
pub record Workflow : Type 0 where
  pub patch_rules : Rules
  pub choices : List (Text × List Text)
  pub immutable : List Text
  pub transitions : List (Text × List Text)

-- A field with a fixed set of values is replaced by the spelling of the set.
unfoldable pub canonical_field : Text → List Text → Fields → Result UpdateError Fields
unfolding string_at normalize_allowed_status set_field
canonical_field k allowed fs =
    if is_empty (string_at k fs)
    then ok fs
    else elim (normalize_allowed_status allowed (string_at k fs)) [
      | none ↦ err (invalid_value k)
      | some c ↦ ok (set_field k (text c) fs)
    ]

unfoldable pub canonical_fields : List (Text × List Text) → Fields → Result UpdateError Fields
unfolding canonical_field
canonical_fields [] fs = ok fs
canonical_fields ((k, allowed) ∷ rest) fs = canonical_field k allowed fs >>= canonical_fields rest

unfoldable pub of_patch : Option Fields → Result PatchFailure (Unit {0}) → Result UpdateError Fields
of_patch (some fs) (ok u) = ok fs
of_patch none (ok u) = ok end
of_patch o (err e) = err (invalid_patch e)

-- Validate of the request.
unfoldable pub validate_request : Workflow → Option Fields → Result UpdateError Fields
unfolding of_patch validate_patch canonical_fields
validate_request k o = of_patch o (validate_patch o k.patch_rules) >>= canonical_fields k.choices

unfoldable pub check_transition : Workflow → Text → Text → Result UpdateError (Unit {0})
unfolding is_allowed_transition
check_transition k from status =
    guard (is_empty status || is_allowed_transition from status k.transitions) invalid_transition

-- The patch that reaches the repository, from the stored status and the request.
unfoldable pub check_update : Workflow → Text → Option Fields → Result UpdateError Fields
unfolding validate_request enforce_archive_only check_transition
check_update k from o = do
  fs ← validate_request k o
  enforce_archive_only from fs k.immutable
  check_transition k from (string_at status_key fs)
  ok fs
