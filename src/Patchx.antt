-- ===== src/Patchx.antt =====
-- internal/core/patchx, ValidatePatch and, below, MergeShallow: the fields of a JSON patch against the rules of its kind. A
-- Go map is a list of its entries, in the order in which the loop meets them.
pub mod Occurrences
pub mod Merge
mod Tests
use projectbook_backend.Base.{
  ℕ, Bool, true, false, not, ◌&&◌, Option, none, some, ◌++◌, if◌then◌else◌, Result, ok, err, ◌>>=◌,
  ◌>>◌, guard,
}
use projectbook_backend.Text.{Text, codes, text_eq, is_empty}

-- A decoded JSON value, the `any` of Go.
mutual
  pub data Value : Type 0 where
    null : Value
    flag : Bool → Value
    number : ℕ → Value
    text : Text → Value
    array : Values → Value
    object : Fields → Value

  pub data Values : Type 0 where
    no_values : Values
    value : Value → Values → Values

  pub data Fields : Type 0 where
    end : Fields
    field : Text → Value → Fields → Fields

-- FieldRule: `allow_null`, the nested rules or nil, `allow_any_nested`.
mutual
  pub data FieldRule : Type 0 where
    rule : Bool → Nested → Bool → FieldRule

  pub data Nested : Type 0 where
    no_rules : Nested
    rules : Rules → Nested

  pub data Rules : Type 0 where
    no_more : Rules
    entry : Text → FieldRule → Rules → Rules

pub data PatchError : Type 0 where
  invalid_field null_field not_an_object : Text → PatchError

unfoldable pub lookup_rule : Text → Rules → Option FieldRule
unfolding text_eq
lookup_rule k no_more = none
lookup_rule k (entry j r rs) = if text_eq j k then some r else lookup_rule k rs

-- `parent + "." + key`
unfoldable pub field_path : Text → Text → Text
field_path parent key = if is_empty parent then key else parent ++ codes "." ++ key

unfoldable pub allows_null : FieldRule → Bool
allows_null (rule n nested any) = n

-- `rule.Nested == nil && !rule.AllowAnyNested`
unfoldable pub is_flat : FieldRule → Bool
is_flat (rule n no_rules any) = not any
is_flat (rule n (rules rs) any) = false

unfoldable mutual
  unfolding lookup_rule field_path allows_null is_flat

  pub validate_map : Fields → Rules → Text → Result PatchError (Unit {0})
  validate_map end rs parent = ok tt
  validate_map (field k v fs) rs parent =
      check_field v (lookup_rule k rs) (field_path parent k) >> validate_map fs rs parent

  -- One round of the loop.
  pub check_field : Value → Option FieldRule → Text → Result PatchError (Unit {0})
  check_field v none path = err (invalid_field path)
  check_field null (some r) path = guard (allows_null r) (null_field path)
  check_field (object fs) (some (rule n no_rules any)) path = ok tt
  check_field (object fs) (some (rule n (rules rs) true)) path = ok tt
  check_field (object fs) (some (rule n (rules rs) false)) path = validate_map fs rs path
  check_field (flag b) (some r) path = guard (is_flat r) (not_an_object path)
  check_field (number n) (some r) path = guard (is_flat r) (not_an_object path)
  check_field (text t) (some r) path = guard (is_flat r) (not_an_object path)
  check_field (array vs) (some r) path = guard (is_flat r) (not_an_object path)

pub data PatchFailure : Type 0 where
  payload_required : PatchFailure
  wrong_field : PatchError → PatchFailure

unfoldable pub of_map : Result PatchError (Unit {0}) → Result PatchFailure (Unit {0})
of_map (ok u) = ok tt
of_map (err e) = err (wrong_field e)

-- ValidatePatch; `none` is the nil map.
unfoldable pub validate_patch : Option Fields → Rules → Result PatchFailure (Unit {0})
unfolding validate_map of_map
validate_patch none rs = err payload_required
validate_patch (some fs) rs = of_map (validate_map fs rs (codes ""))
