-- ===== src/Patchx/Occurrences.antt =====
-- Which patches ValidatePatch accepts: a statement about each field that stands anywhere in the
-- patch, next to the rules that apply there.
use projectbook_backend.Base.{
  ◌≡◌, ◌↔◌, refl, ap, ◌∙◌, Bool, true, false, Option, none, some, Result, ok, err, seq_iff,
  guard_iff,
}
use projectbook_backend.Text.{Text, codes}
use projectbook_backend.Patchx.{
  Value, null, flag, number, text, array, object, Fields, end, field, FieldRule, rule, no_rules,
  rules, Rules, PatchError, lookup_rule, field_path, is_flat, allows_null, validate_map,
  check_field, validate_patch, of_map,
}

-- The field k with the value v stands in the patch, where the rules rs' apply; in an object only if
-- its rule names the fields of that object.
pub data Occurs (k : Text) (v : Value) (rs' : Rules) : Fields → Rules → Type 0 where
  here : {fs : Fields} → Occurs k v rs' (field k v fs) rs'
  later :
      {j : Text} {u : Value} {fs : Fields} {rs : Rules}
      → Occurs k v rs' fs rs
      → Occurs k v rs' (field j u fs) rs
  inside :
      {j : Text} {inner fs : Fields} {n : Bool} {rs nested : Rules}
      → lookup_rule j rs ≡ some (rule n (rules nested) false)
      → Occurs k v rs' inner nested
      → Occurs k v rs' (field j (object inner) fs) rs

-- A value fits a rule: null where that is allowed, an object anywhere, and any other value where no
-- object is asked for.
abbrev pub Fits : Value → FieldRule → Type 0
Fits null r = allows_null r ≡ true
Fits (object fs) r = Unit
Fits (flag b) r = is_flat r ≡ true
Fits (number n) r = is_flat r ≡ true
Fits (text t) r = is_flat r ≡ true
Fits (array vs) r = is_flat r ≡ true

abbrev pub Conforms : Fields → Rules → Type 0
Conforms fs rs =
    (k : Text) (v : Value) (rs' : Rules)
    → Occurs k v rs' fs rs
    → (r : FieldRule) × (lookup_rule k rs' ≡ some r) × Fits v r

accepted-Fits :
    (v : Value) (o : Option FieldRule) (path : Text)
    → check_field v o path ≡ ok tt
    → (r : FieldRule) × (o ≡ some r) × Fits v r
unfolding check_field
accepted-Fits v none path h = cc
accepted-Fits null (some r) path h = (r, refl, (guard_iff _ _).0 h)
accepted-Fits (object fs) (some r) path h = (r, refl, tt)
accepted-Fits (flag b) (some r) path h = (r, refl, (guard_iff _ _).0 h)
accepted-Fits (number n) (some r) path h = (r, refl, (guard_iff _ _).0 h)
accepted-Fits (text t) (some r) path h = (r, refl, (guard_iff _ _).0 h)
accepted-Fits (array vs) (some r) path h = (r, refl, (guard_iff _ _).0 h)

-- The parts of an accepted patch.
accepted_parts :
    (k : Text) (v : Value) (fs : Fields) (rs : Rules) (parent : Text)
    → (validate_map (field k v fs) rs parent ≡ ok tt) ↔ (
        (check_field v (lookup_rule k rs) (field_path parent k) ≡ ok tt)
        × (validate_map fs rs parent ≡ ok tt))
unfolding validate_map lookup_rule field_path
accepted_parts k v fs rs parent =
    seq_iff (check_field v (lookup_rule k rs) (field_path parent k)) (validate_map fs rs parent)

inner_accepted :
    (fs : Fields) (o : Option FieldRule) (path : Text) {n : Bool} {nested : Rules}
    → o ≡ some (rule n (rules nested) false)
    → check_field (object fs) o path ≡ ok tt
    → validate_map fs nested path ≡ ok tt
unfolding check_field
inner_accepted fs o path e h = rw e at h

accepted-Conforms :
    {k : Text} {v : Value} {rs' rs : Rules} {fs : Fields} (parent : Text)
    → validate_map fs rs parent ≡ ok tt
    → Occurs k v rs' fs rs
    → (r : FieldRule) × (lookup_rule k rs' ≡ some r) × Fits v r
accepted-Conforms parent h here = accepted-Fits _ _ _ ((accepted_parts _ _ _ _ parent).0 h).0
accepted-Conforms parent h (later o) =
    accepted-Conforms parent ((accepted_parts _ _ _ _ parent).0 h).1 o
accepted-Conforms parent h (inside e o) =
    accepted-Conforms _ (inner_accepted _ _ _ e ((accepted_parts _ _ _ _ parent).0 h).0) o

inside_object :
    {j k : Text} {u v : Value} {rs' rs nested : Rules} {inner fs : Fields} {n : Bool}
    → v ≡ object inner
    → lookup_rule j rs ≡ some (rule n (rules nested) false)
    → Occurs k u rs' inner nested
    → Occurs k u rs' (field j v fs) rs
inside_object is_object e o = rw is_object (inside e o)

mutual
  unfolding check_field

  Conforms-accepted :
      (fs : Fields) (rs : Rules) (parent : Text)
      → Conforms fs rs
      → validate_map fs rs parent ≡ ok tt
  Conforms-accepted end rs parent c = refl
  Conforms-accepted (field k v fs) rs parent c =
      let (r, e, fit) = c k v rs here in
      (accepted_parts k v fs rs parent).1 (
        rw e (
            Fits-accepted v r (field_path parent k) fit
              (λ inner n nested is_object has_rules j u rs' o.
                c j u rs' (inside_object is_object (e ∙ ap some has_rules) o))),
        Conforms-accepted fs rs parent (λ j u rs' o. c j u rs' (later o)),
      )

  Fits-accepted :
      (v : Value) (r : FieldRule) (path : Text)
      → Fits v r
      → ((inner : Fields) (n : Bool) (nested : Rules)
          → v ≡ object inner
          → r ≡ rule n (rules nested) false
          → Conforms inner nested)
      → check_field v (some r) path ≡ ok tt
  Fits-accepted null r path fit c = (guard_iff _ _).1 fit
  Fits-accepted (flag b) r path fit c = (guard_iff _ _).1 fit
  Fits-accepted (number n) r path fit c = (guard_iff _ _).1 fit
  Fits-accepted (text t) r path fit c = (guard_iff _ _).1 fit
  Fits-accepted (array vs) r path fit c = (guard_iff _ _).1 fit
  Fits-accepted (object fs) (rule n no_rules any) path fit c = refl
  Fits-accepted (object fs) (rule n (rules rs) true) path fit c = refl
  Fits-accepted (object fs) (rule n (rules rs) false) path fit c =
      Conforms-accepted fs rs path (c fs n rs refl refl)

unwrapped : (r : Result PatchError (Unit {0})) → of_map r ≡ ok tt → r ≡ ok tt
unfolding of_map
unwrapped (ok u) h = refl
unwrapped (err e) h = cc

-- ValidatePatch accepts exactly the patches that are present and in which every field, at any depth
-- where rules apply, has a rule that its value fits.
pub validate_patch_iff :
    (o : Option Fields) (rs : Rules)
    → (validate_patch o rs ≡ ok tt) ↔ ((fs : Fields) × (o ≡ some fs) × Conforms fs rs)
unfolding validate_patch
validate_patch_iff none rs = (λ h. cc, λ h. cc)
validate_patch_iff (some fs) rs = (
  λ h. (
    fs,
    refl,
    λ k v rs' o. accepted-Conforms (codes "") (unwrapped (validate_map fs rs (codes "")) h) o,
  ),
  λ h. let e : fs ≡ h.0 = cc in rw (Conforms-accepted fs rs (codes "") (rw (← e) at h.2)) refl,
)
