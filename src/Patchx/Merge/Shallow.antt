-- ===== src/Patchx/Merge/Shallow.antt =====
-- What MergeShallow of internal/core/patchx does at each key.
use projectbook_backend.Base.{
  ◌≡◌, refl, sym, ap, ◌∙◌, inl, inr, false, Bool-cases, Option, none, some,
}
use projectbook_backend.Text.{Text, text_eq}
use projectbook_backend.Text.Laws.{text_eq_iff}
use projectbook_backend.Patchx.{Value, null, flag, number, text, array, object, Fields, end, field}
use projectbook_backend.Patchx.Merge.{
  find_field, merge_nested, merged_object, merge_value, merge_fields, or_empty, merge_shallow,
  find_put_same, find_put_other, find_remove_same, find_remove_other, HasDistinctKeys,
  nested_result, merge_nested-find_field,
}

result : Option Value → Option Value → Option Value
result base none = base
result base (some null) = none
result base (some (flag b)) = some (flag b)
result base (some (number n)) = some (number n)
result base (some (text t)) = some (text t)
result base (some (array vs)) = some (array vs)
result base (some (object fs)) = some (object (merged_object base fs))

value_same :
    (k : Text) (v : Value) (out : Fields)
    → find_field k (merge_value k v out) ≡ result (find_field k out) (some v)
unfolding merge_value result
value_same k null out = find_remove_same k out
value_same k (flag b) out = find_put_same k _ out
value_same k (number n) out = find_put_same k _ out
value_same k (text t) out = find_put_same k _ out
value_same k (array vs) out = find_put_same k _ out
value_same k (object fs) out = find_put_same k _ out

value_other :
    (j k : Text) (v : Value) (out : Fields)
    → text_eq j k ≡ false
    → find_field k (merge_value j v out) ≡ find_field k out
unfolding merge_value
value_other j k null out h = find_remove_other j k out h
value_other j k (flag b) out h = find_put_other j k _ out h
value_other j k (number n) out h = find_put_other j k _ out h
value_other j k (text t) out h = find_put_other j k _ out h
value_other j k (array vs) out h = find_put_other j k _ out h
value_other j k (object fs) out h = find_put_other j k _ out h

merge_fields-find_field :
    (out patch : Fields) (k : Text)
    → HasDistinctKeys patch
    → find_field k (merge_fields out patch) ≡ result (find_field k out) (find_field k patch)
unfolding merge_fields HasDistinctKeys result find_field
merge_fields-find_field out end k d = refl
merge_fields-find_field out (field j v fs) k (new, d) = elim (Bool-cases (text_eq j k)) [
  | inl e ↦
      let same : j ≡ k = (text_eq_iff j k).0 e in
      rw e (
        merge_fields-find_field (merge_value j v out) fs k d
        ∙ ap (result _) (ap (λ x. find_field x fs) (sym same) ∙ new)
        ∙ ap (λ x. find_field k (merge_value x v out)) same
        ∙ value_same k v out)
  | inr e ↦ rw e (
      merge_fields-find_field (merge_value j v out) fs k d
      ∙ ap (λ x. result x (find_field k fs)) (value_other j k v out e))
]

-- The object at a key is the one in the patch, merged key by key into the one in the base.
IsMergedObject : Fields → Fields → Option Value → Type 0
unfolding find_field
IsMergedObject base patch out =
    (fs : Fields) × (out ≡ some (object fs))
    × ((j : Text) → find_field j fs ≡ nested_result (find_field j base) (find_field j patch))

-- What stands at a key, from the values of the base and of the patch.
pub IsMerged : Option Value → Option Value → Option Value → Type 0
IsMerged base none out = out ≡ base
IsMerged base (some null) out = out ≡ none
IsMerged base (some (flag b)) out = out ≡ some (flag b)
IsMerged base (some (number n)) out = out ≡ some (number n)
IsMerged base (some (text t)) out = out ≡ some (text t)
IsMerged base (some (array vs)) out = out ≡ some (array vs)
IsMerged none (some (object fs)) out = out ≡ some (object fs)
IsMerged (some null) (some (object fs)) out = out ≡ some (object fs)
IsMerged (some (flag b)) (some (object fs)) out = out ≡ some (object fs)
IsMerged (some (number n)) (some (object fs)) out = out ≡ some (object fs)
IsMerged (some (text t)) (some (object fs)) out = out ≡ some (object fs)
IsMerged (some (array vs)) (some (object fs)) out = out ≡ some (object fs)
IsMerged (some (object gs)) (some (object fs)) out = IsMergedObject gs fs out

-- The keys of an object stand once each, as those of a Go map do.
pub HasDistinctWithin : Option Value → Type 0
unfolding HasDistinctKeys
HasDistinctWithin none = Unit
HasDistinctWithin (some null) = Unit
HasDistinctWithin (some (flag b)) = Unit
HasDistinctWithin (some (number n)) = Unit
HasDistinctWithin (some (text t)) = Unit
HasDistinctWithin (some (array vs)) = Unit
HasDistinctWithin (some (object fs)) = HasDistinctKeys fs

pub one_key-HasDistinctWithin :
    (k : Text) (v : Value) → HasDistinctWithin (some (object (field k v end)))
unfolding HasDistinctWithin HasDistinctKeys find_field
one_key-HasDistinctWithin k v = (refl, tt)

result-IsMerged :
    (base patch : Option Value) → HasDistinctWithin patch → IsMerged base patch (result base patch)
unfolding result IsMerged IsMergedObject HasDistinctWithin merged_object
result-IsMerged base none d = refl
result-IsMerged base (some null) d = refl
result-IsMerged base (some (flag b)) d = refl
result-IsMerged base (some (number n)) d = refl
result-IsMerged base (some (text t)) d = refl
result-IsMerged base (some (array vs)) d = refl
result-IsMerged none (some (object fs)) d = refl
result-IsMerged (some null) (some (object fs)) d = refl
result-IsMerged (some (flag b)) (some (object fs)) d = refl
result-IsMerged (some (number n)) (some (object fs)) d = refl
result-IsMerged (some (text t)) (some (object fs)) d = refl
result-IsMerged (some (array vs)) (some (object fs)) d = refl
result-IsMerged (some (object gs)) (some (object fs)) d =
    (merge_nested gs fs, refl, λ j. merge_nested-find_field gs fs j d)

-- For a patch whose keys stand once each, also in the object at the key, what stands at a key of
-- MergeShallow's result: the value of the base where the patch has none,
-- nothing where the patch has null, and the value of the patch where that is no object or the base has
-- no object. Of two objects it is an object whose value at each key is that of the base's object
-- where the patch's has none, nothing where it has null, and otherwise that of the patch's.
pub merge_shallow-find_field :
    (base patch : Option Fields) (k : Text)
    → HasDistinctKeys (or_empty patch)
    → HasDistinctWithin (find_field k (or_empty patch))
    → IsMerged
        (find_field k (or_empty base))
        (find_field k (or_empty patch))
        (find_field k (merge_shallow base patch))
unfolding merge_shallow
merge_shallow-find_field base patch k d within =
    rw (merge_fields-find_field (or_empty base) (or_empty patch) k d)
      (result-IsMerged (find_field k (or_empty base)) (find_field k (or_empty patch)) within)
