-- ===== src/Patchx/Tests.antt =====
-- ValidatePatch at a concrete patch.
use projectbook_backend.Base.{◌≡◌, ◌↔◌, refl, true, false, some, none, [], ok, err}
use projectbook_backend.Text.{codes}
use projectbook_backend.Patchx.{
  null, text, object, Fields, end, field, rule, no_rules, rules, Rules, no_more, entry,
  invalid_field, wrong_field, validate_patch,
}
use projectbook_backend.Patchx.Merge.{
  find_field, merge_shallow, HasDistinctKeys, two_keys-HasDistinctKeys,
}
use projectbook_backend.Patchx.Merge.Shallow.{
  IsMerged, HasDistinctWithin, one_key-HasDistinctWithin, merge_shallow-find_field,
}
use projectbook_backend.Patchx.Occurrences.{Conforms, validate_patch_iff}

abbrev person : Rules
person = entry (codes "name") (rule true no_rules false) no_more

abbrev table : Rules
table = entry (codes "persona") (rule true (rules person) false) no_more

abbrev named : Fields
named = field (codes "persona") (object (field (codes "name") (text (codes "Ada")) end)) end

unknown_inside :
    validate_patch
      (some (field (codes "persona") (object (field (codes "age") (text []) end)) end))
      table
    ≡ err (wrong_field (invalid_field (codes "persona.age")))
unfolding validate_patch
unknown_inside = refl

validate_patch_iff_example :
    (validate_patch (some named) table ≡ ok tt)
    ↔ ((fs : Fields) × (some named ≡ some fs) × Conforms fs table)
validate_patch_iff_example = validate_patch_iff (some named) table

abbrev patch : Fields
patch =
    field (codes "title") null (field (codes "persona") (object (field (codes "age") null end)) end)

-- A null inside an object stays where the base has no object at that key.
null_kept :
    find_field (codes "persona") (merge_shallow none (some patch))
    ≡ some (object (field (codes "age") null end))
unfolding merge_shallow
null_kept = refl

distinct : HasDistinctKeys patch
unfolding find_field
distinct = two_keys-HasDistinctKeys (codes "title") (codes "persona") null _ refl

distinct_within : HasDistinctWithin (find_field (codes "persona") patch)
unfolding find_field
distinct_within = one_key-HasDistinctWithin (codes "age") null

merge_shallow-find_field_example :
    IsMerged
      (find_field (codes "persona") named)
      (find_field (codes "persona") patch)
      (find_field (codes "persona") (merge_shallow (some named) (some patch)))
merge_shallow-find_field_example =
    merge_shallow-find_field (some named) (some patch) (codes "persona") distinct distinct_within
