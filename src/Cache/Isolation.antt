-- ===== src/Cache/Isolation.antt =====
-- Keys of internal/core/cache/manager.go of two callers: a key tells the caller, as far as the template
-- asks for him. The values of a key are joined by "|" as they are, so this needs identifiers without
-- that character.
use projectbook_backend.Base.{
  ◌==◌, ◌≡◌, ◌⊎◌, refl, sym, ap, ◌∙◌, inl, inr, all, Bool, true, false, not, List, [], ◌∷◌, ◌++◌,
  arith, Bool-cases, ℕ,
}
use projectbook_backend.Text.{Text, codes, trim_space, to_upper, is_empty}
use projectbook_backend.Text.Join.{
  join_texts, after_part, IsFreeOf, join_texts-cons, after_part-EndsPart, first_part_eq,
  append_cancel, tail_eq,
}
use projectbook_backend.Cache.{ReadKeyTemplate}
use projectbook_backend.Cache.Tags.{KeyRequest, request_principal}
use projectbook_backend.Cache.Store.{Manager}
use projectbook_backend.Cache.Key.{
  when_asked, request_values, key_values, canonical_text, route_part_of, read_key,
}
use projectbook_backend.Cache.Digest.{Collides, read_key_eq}

-- What a template reads of the caller and the method.
pub record Caller : Type 0 where
  pub method : List Text
  pub project_id : List Text
  pub user_id : List Text
  pub role : List Text

unfoldable pub caller_of : ReadKeyTemplate → KeyRequest → Caller
unfolding to_upper trim_space
caller_of t r = record {
  method = when_asked t.vary_by.method (codes "method=") (to_upper (trim_space r.method));
  project_id =
      when_asked t.vary_by.project_id (codes "project=")
        (trim_space (request_principal r).project_id);
  user_id = when_asked t.vary_by.user_id (codes "user=") (trim_space (request_principal r).user_id);
  role = when_asked t.vary_by.role (codes "role=") (trim_space (request_principal r).role);
}

-- The method and the identifiers do not contain the separator.
pub record IsPlain (r : KeyRequest) : Type 0 where
  pub method : IsFreeOf 124 (to_upper (trim_space r.method))
  pub project_id : IsFreeOf 124 (trim_space (request_principal r).project_id)
  pub user_id : IsFreeOf 124 (trim_space (request_principal r).user_id)
  pub role : IsFreeOf 124 (trim_space (request_principal r).role)

abbrev is_free : Text → Bool
is_free = all (λ c. not (c == 124))

not_free : (c : ℕ) (s : Text) → (c == 124) ≡ true → is_free (c ∷ s) ≡ true → ⊥
not_free c s e h = ground arith

apart : (c : ℕ) → (c == 124) ≡ false → c ≡ 124 → ⊥
apart c e q = ground arith

is_free_sound : (s : Text) → is_free s ≡ true → IsFreeOf 124 s
is_free_sound [] h = tt
is_free_sound (c ∷ s) h = elim (Bool-cases (c == 124)) [
  | inl e ↦ absurd (not_free c s e h)
  | inr e ↦ ((λ q. apart c e q), is_free_sound s (rw e at h))
]

append-IsFreeOf : (s t : Text) → IsFreeOf 124 s → IsFreeOf 124 t → IsFreeOf 124 (s ++ t)
append-IsFreeOf [] t hs ht = ht
append-IsFreeOf (c ∷ s) t (hc, hs) ht = (hc, append-IsFreeOf s t hs ht)

after_cons :
    (x y : Text) (xs ys : List Text)
    → after_part 124 (x ∷ xs) ≡ after_part 124 (y ∷ ys)
    → join_texts 124 (x ∷ xs) ≡ join_texts 124 (y ∷ ys)
unfolding after_part
after_cons x y xs ys h = tail_eq h

-- Behind equal beginnings, an asked value is the same in both keys, and so is what follows.
same_value :
    (b : Bool) (label v w : Text) (xs ys us vs : List Text)
    → is_free label ≡ true
    → IsFreeOf 124 v
    → IsFreeOf 124 w
    → after_part 124 ((when_asked b label v ++ xs) ++ us)
      ≡ after_part 124 ((when_asked b label w ++ ys) ++ vs)
    → (when_asked b label v ≡ when_asked b label w)
      × (after_part 124 (xs ++ us) ≡ after_part 124 (ys ++ vs))
same_value false label v w xs ys us vs free hv hw h = (refl, h)
same_value true label v w xs ys us vs free hv hw h =
    let label_free = is_free_sound label free in
    let h1 : join_texts 124 ((label ++ v) ∷ (xs ++ us))
        ≡ join_texts 124 ((label ++ w) ∷ (ys ++ vs)) =
      after_cons (label ++ v) (label ++ w) (xs ++ us) (ys ++ vs) h in
    let (same, rest) =
      first_part_eq 124 (label ++ v) (label ++ w) (after_part 124 (xs ++ us))
        (after_part 124 (ys ++ vs)) (append-IsFreeOf label v label_free hv)
        (append-IsFreeOf label w label_free hw) (after_part-EndsPart 124 (xs ++ us))
        (after_part-EndsPart 124 (ys ++ vs))
        (sym (join_texts-cons 124 (label ++ v) (xs ++ us))
          ∙ h1
          ∙ join_texts-cons 124 (label ++ w) (ys ++ vs)) in
    (ap (λ s. s ∷ []) same, rest)

-- The values of a key from the role, the user, the project and the method on.
module _ (digest : Text → Text) (t : ReadKeyTemplate) where
  abbrev from_role : KeyRequest → List Text
  from_role r = (caller_of t r).role ++ request_values digest r t

  abbrev from_user : KeyRequest → List Text
  from_user r = (caller_of t r).user_id ++ from_role r

  abbrev from_project : KeyRequest → List Text
  from_project r = (caller_of t r).project_id ++ from_user r

  abbrev from_method : KeyRequest → List Text
  from_method r = (caller_of t r).method ++ from_project r

  route_first :
      (r : KeyRequest) (part : Text)
      → key_values digest r part t ≡ (codes "route=" ++ part) ∷ from_method r
  unfolding key_values caller_of
  route_first r part = refl

  behind_route :
      (r r' : KeyRequest) (part : Text) (us vs : List Text)
      → join_texts 124 (key_values digest r part t ++ us)
        ≡ join_texts 124 (key_values digest r' part t ++ vs)
      → after_part 124 (from_method r ++ us) ≡ after_part 124 (from_method r' ++ vs)
  behind_route r r' part us vs h =
      let route = codes "route=" ++ part in
      append_cancel route (
        sym (join_texts-cons 124 route (from_method r ++ us))
        ∙ ap (λ xs. join_texts 124 (xs ++ us)) (sym (route_first r part))
        ∙ h
        ∙ ap (λ xs. join_texts 124 (xs ++ vs)) (route_first r' part)
        ∙ join_texts-cons 124 route (from_method r' ++ vs))

  same_caller :
      (r r' : KeyRequest) (us vs : List Text)
      → IsPlain r
      → IsPlain r'
      → after_part 124 (from_method r ++ us) ≡ after_part 124 (from_method r' ++ vs)
      → caller_of t r ≡ caller_of t r'
  unfolding caller_of
  same_caller r r' us vs p q h =
      let (e1, h1) =
        same_value t.vary_by.method (codes "method=") (to_upper (trim_space r.method))
          (to_upper (trim_space r'.method)) (from_project r) (from_project r') us vs refl p.method
          q.method h in
      let (e2, h2) =
        same_value t.vary_by.project_id (codes "project=")
          (trim_space (request_principal r).project_id)
          (trim_space (request_principal r').project_id) (from_user r) (from_user r') us vs refl
          p.project_id q.project_id h1 in
      let (e3, h3) =
        same_value t.vary_by.user_id (codes "user=") (trim_space (request_principal r).user_id)
          (trim_space (request_principal r').user_id) (from_role r) (from_role r') us vs refl
          p.user_id q.user_id h2 in
      let (e4, _) =
        same_value t.vary_by.role (codes "role=") (trim_space (request_principal r).role)
          (trim_space (request_principal r').role) (request_values digest r t)
          (request_values digest r' t) us vs refl p.role q.role h3 in
      λ i. record { method = e1 i; project_id = e2 i; user_id = e3 i; role = e4 i }

  -- Two requests of one route with equal keys, at whatever versions of their tags, have the same
  -- method, project, user and role, as far as the template asks for each of them; or two texts have
  -- one digest. The method and the identifiers contain no "|".
  pub read_key-caller_of :
      (m : Manager) (route : Text) (r r' : KeyRequest) (a b : Text)
      → IsPlain r
      → IsPlain r'
      → read_key digest m r route t a ≡ read_key digest m r' route t b
      → (caller_of t r ≡ caller_of t r') ⊎ Collides digest
  unfolding canonical_text
  read_key-caller_of m route r r' a b p q h = elim (read_key_eq digest m route t r r' a b h) [
    | inl e ↦
        let us = when_asked (not (is_empty a)) (codes "tags=") a in
        let vs = when_asked (not (is_empty b)) (codes "tags=") b in
        inl (same_caller r r' us vs p q (behind_route r r' (route_part_of route t) us vs e))
    | inr c ↦ inr c
  ]
