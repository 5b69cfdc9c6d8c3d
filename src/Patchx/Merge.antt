-- ===== src/Patchx/Merge.antt =====
-- internal/core/patchx, MergeShallow. A copy of a value is the value, so that cloneMap and cloneValue
-- are not written; the map nil is none.
pub mod Shallow
use projectbook_backend.Base.{
  ◌≡◌, refl, sym, ap, ◌∙◌, inl, inr, false, Bool-cases, Option, none, some, if◌then◌else◌,
}
use projectbook_backend.Text.{Text, text_eq}
use projectbook_backend.Text.Laws.{text_eq_iff, text_eq_self}
use projectbook_backend.Patchx.{Value, null, flag, number, text, array, object, Fields, end, field}

-- `value, ok := fields[key]`
unfoldable pub find_field : Text → Fields → Option Value
unfolding text_eq
find_field k end = none
find_field k (field j v fs) = if text_eq j k then some v else find_field k fs

-- `fields[key] = value`
unfoldable pub put_field : Text → Value → Fields → Fields
unfolding text_eq
put_field k v end = field k v end
put_field k v (field j u fs) =
    let rest = put_field k v fs in if text_eq j k then field j v fs else field j u rest

-- `delete(fields, key)`
unfoldable pub remove_field : Text → Fields → Fields
unfolding text_eq
remove_field k end = end
remove_field k (field j u fs) =
    let rest = remove_field k fs in if text_eq j k then rest else field j u rest

-- One round of the inner loop.
unfoldable pub merge_nested_value : Text → Value → Fields → Fields
unfolding put_field remove_field
merge_nested_value k null out = remove_field k out
merge_nested_value k (flag b) out = put_field k (flag b) out
merge_nested_value k (number n) out = put_field k (number n) out
merge_nested_value k (text t) out = put_field k (text t) out
merge_nested_value k (array vs) out = put_field k (array vs) out
merge_nested_value k (object fs) out = put_field k (object fs) out

unfoldable pub merge_nested : Fields → Fields → Fields
unfolding merge_nested_value
merge_nested out end = out
merge_nested out (field k v fs) = merge_nested (merge_nested_value k v out) fs

-- What stands at a key after an object of the patch.
unfoldable pub merged_object : Option Value → Fields → Fields
unfolding merge_nested
merged_object none patch = patch
merged_object (some null) patch = patch
merged_object (some (flag b)) patch = patch
merged_object (some (number n)) patch = patch
merged_object (some (text t)) patch = patch
merged_object (some (array vs)) patch = patch
merged_object (some (object fs)) patch = merge_nested fs patch

-- One round of the outer loop.
unfoldable pub merge_value : Text → Value → Fields → Fields
unfolding find_field put_field remove_field merged_object
merge_value k null out = remove_field k out
merge_value k (flag b) out = put_field k (flag b) out
merge_value k (number n) out = put_field k (number n) out
merge_value k (text t) out = put_field k (text t) out
merge_value k (array vs) out = put_field k (array vs) out
merge_value k (object fs) out = put_field k (object (merged_object (find_field k out) fs)) out

unfoldable pub merge_fields : Fields → Fields → Fields
unfolding merge_value
merge_fields out end = out
merge_fields out (field k v fs) = merge_fields (merge_value k v out) fs

abbrev pub or_empty : Option Fields → Fields
or_empty none = end
or_empty (some fs) = fs

-- MergeShallow
unfoldable pub merge_shallow : Option Fields → Option Fields → Fields
unfolding merge_fields
merge_shallow base patch = merge_fields (or_empty base) (or_empty patch)

pub find_put_same : (k : Text) (v : Value) (fs : Fields) → find_field k (put_field k v fs) ≡ some v
unfolding find_field put_field
find_put_same k v end = rw (text_eq_self k) refl
find_put_same k v (field j u fs) = elim (Bool-cases (text_eq j k)) [
  | inl e ↦ rw (e, e) refl
  | inr e ↦ rw (e, e) (find_put_same k v fs)
]

pub find_put_other :
    (j k : Text) (v : Value) (fs : Fields)
    → text_eq j k ≡ false
    → find_field k (put_field j v fs) ≡ find_field k fs
unfolding find_field put_field
find_put_other j k v end h = rw h refl
find_put_other j k v (field i u fs) h = elim (Bool-cases (text_eq i j)) [
  | inl e ↦
      let other : text_eq i k ≡ false = ap (λ x. text_eq x k) ((text_eq_iff i j).0 e) ∙ h in
      rw (e, other) refl
  | inr e ↦ rw (e, find_put_other j k v fs h) refl
]

pub find_remove_same : (k : Text) (fs : Fields) → find_field k (remove_field k fs) ≡ none
unfolding find_field remove_field
find_remove_same k end = refl
find_remove_same k (field j u fs) = elim (Bool-cases (text_eq j k)) [
  | inl e ↦ rw e (find_remove_same k fs)
  | inr e ↦ rw (e, e) (find_remove_same k fs)
]

pub find_remove_other :
    (j k : Text) (fs : Fields)
    → text_eq j k ≡ false
    → find_field k (remove_field j fs) ≡ find_field k fs
unfolding find_field remove_field
find_remove_other j k end h = refl
find_remove_other j k (field i u fs) h = elim (Bool-cases (text_eq i j)) [
  | inl e ↦
      let other : text_eq i k ≡ false = ap (λ x. text_eq x k) ((text_eq_iff i j).0 e) ∙ h in
      rw (e, other) (find_remove_other j k fs h)
  | inr e ↦ rw (e, find_remove_other j k fs h) refl
]

-- The keys of a map stand once each.
pub HasDistinctKeys : Fields → Type 0
unfolding find_field
HasDistinctKeys end = Unit
HasDistinctKeys (field k v fs) = (find_field k fs ≡ none) × HasDistinctKeys fs

pub two_keys-HasDistinctKeys :
    (j k : Text) (u v : Value)
    → find_field j (field k v end) ≡ none
    → HasDistinctKeys (field j u (field k v end))
unfolding HasDistinctKeys find_field
two_keys-HasDistinctKeys j k u v h = (h, (refl, tt))

-- The value at a key of the result, from the values of the base and of the patch.
pub nested_result : Option Value → Option Value → Option Value
nested_result base none = base
nested_result base (some null) = none
nested_result base (some (flag b)) = some (flag b)
nested_result base (some (number n)) = some (number n)
nested_result base (some (text t)) = some (text t)
nested_result base (some (array vs)) = some (array vs)
nested_result base (some (object fs)) = some (object fs)

nested_same :
    (k : Text) (v : Value) (out : Fields)
    → find_field k (merge_nested_value k v out) ≡ nested_result (find_field k out) (some v)
unfolding merge_nested_value nested_result
nested_same k null out = find_remove_same k out
nested_same k (flag b) out = find_put_same k _ out
nested_same k (number n) out = find_put_same k _ out
nested_same k (text t) out = find_put_same k _ out
nested_same k (array vs) out = find_put_same k _ out
nested_same k (object fs) out = find_put_same k _ out

nested_other :
    (j k : Text) (v : Value) (out : Fields)
    → text_eq j k ≡ false
    → find_field k (merge_nested_value j v out) ≡ find_field k out
unfolding merge_nested_value
nested_other j k null out h = find_remove_other j k out h
nested_other j k (flag b) out h = find_put_other j k _ out h
nested_other j k (number n) out h = find_put_other j k _ out h
nested_other j k (text t) out h = find_put_other j k _ out h
nested_other j k (array vs) out h = find_put_other j k _ out h
nested_other j k (object fs) out h = find_put_other j k _ out h

pub merge_nested-find_field :
    (out patch : Fields) (k : Text)
    → HasDistinctKeys patch
    → find_field k (merge_nested out patch) ≡ nested_result (find_field k out) (find_field k patch)
unfolding merge_nested HasDistinctKeys nested_result find_field
merge_nested-find_field out end k d = refl
merge_nested-find_field out (field j v fs) k (new, d) = elim (Bool-cases (text_eq j k)) [
  | inl e ↦
      let same : j ≡ k = (text_eq_iff j k).0 e in
      rw e (
        merge_nested-find_field (merge_nested_value j v out) fs k d
        ∙ ap (nested_result _) (ap (λ x. find_field x fs) (sym same) ∙ new)
        ∙ ap (λ x. find_field k (merge_nested_value x v out)) same
        ∙ nested_same k v out)
  | inr e ↦ rw e (
      merge_nested-find_field (merge_nested_value j v out) fs k d
      ∙ ap (λ x. nested_result x (find_field k fs)) (nested_other j k v out e))
]
