-- ===== src/Cache/Digest.antt =====
-- Keys of internal/core/cache/manager.go whose tokens differ: the text that is hashed tells the token.
use projectbook_backend.Base.{
  ◌≡◌, ◌≢◌, ◌⊎◌, sym, ap, ◌∙◌, inl, inr, true, false, not, List, [], ◌∷◌, ◌++◌, Bool-cases,
}
use projectbook_backend.Text.{Text, codes, text_eq, is_empty}
use projectbook_backend.Text.Laws.{text_eq_iff}
use projectbook_backend.Text.Join.{append_cancel, tail_eq, join_texts, join_texts-snoc}
use projectbook_backend.Cache.{ReadKeyTemplate}
use projectbook_backend.Cache.Tags.{KeyRequest}
use projectbook_backend.Cache.Store.{Manager}
use projectbook_backend.Cache.Key.{when_asked, key_values, canonical_text, route_part_of, read_key}

true_is_not_false : true ≡ false → ⊥
true_is_not_false h = cc

last_value : (vs : List Text) (label a : Text) → List Text
last_value vs label a = vs ++ when_asked (not (is_empty a)) label a

join_texts-last_value :
    (vs : List Text) (label a : Text)
    → is_empty a ≡ false
    → join_texts 124 (last_value vs label a) ≡ join_texts 124 (vs ++ ((label ++ a) ∷ []))
unfolding last_value
join_texts-last_value vs label a full =
    ap (λ b. join_texts 124 (vs ++ when_asked (not b) label a)) full

snoc_eq :
    (vs : List Text) (x y : Text)
    → join_texts 124 (vs ++ (x ∷ [])) ≡ join_texts 124 (vs ++ (y ∷ []))
    → x ≡ y
unfolding join_texts
snoc_eq [] x y h = h
snoc_eq (p ∷ ps) x y h = tail_eq (
    append_cancel (join_texts 124 (p ∷ ps))
      (sym (join_texts-snoc 124 p ps x) ∙ h ∙ join_texts-snoc 124 p ps y))

last_value_eq :
    (vs : List Text) (label a b : Text)
    → is_empty a ≡ false
    → is_empty b ≡ false
    → join_texts 124 (last_value vs label a) ≡ join_texts 124 (last_value vs label b)
    → a ≡ b
last_value_eq vs label a b full_a full_b h = append_cancel label (
    snoc_eq vs (label ++ a) (label ++ b)
      (sym (join_texts-last_value vs label a full_a) ∙ h ∙ join_texts-last_value vs label b full_b))

distinct_texts : (a b : Text) → text_eq a b ≡ false → a ≡ b → ⊥
distinct_texts a b h e = true_is_not_false (sym ((text_eq_iff a b).1 e) ∙ h)

key_tail :
    (env part x y : Text)
    → codes "cache:" ++ (env ++ (58 ∷ (part ++ (58 ∷ x))))
      ≡ codes "cache:" ++ (env ++ (58 ∷ (part ++ (58 ∷ y))))
    → x ≡ y
key_tail env part x y h =
    tail_eq (append_cancel part (tail_eq (append_cancel env (append_cancel (codes "cache:") h))))

-- Two texts with one digest.
pub record Collides (digest : Text → Text) : Type 0 where
  pub one : Text
  pub other : Text
  pub different : one ≢ other
  pub collision : digest one ≡ digest other

module _ (digest : Text → Text) (m : Manager) (route : Text) (t : ReadKeyTemplate) where
  canonical_eq :
      (r : KeyRequest) (part a b : Text)
      → is_empty a ≡ false
      → is_empty b ≡ false
      → canonical_text digest r part t a ≡ canonical_text digest r part t b
      → a ≡ b
  unfolding canonical_text last_value
  canonical_eq r part a b full_a full_b h =
      last_value_eq (key_values digest r part t) (codes "tags=") a b full_a full_b h

  digests_eq :
      (r r' : KeyRequest) (a b : Text)
      → read_key digest m r route t a ≡ read_key digest m r' route t b
      → digest (canonical_text digest r (route_part_of route t) t a)
        ≡ digest (canonical_text digest r' (route_part_of route t) t b)
  unfolding read_key
  digests_eq r r' a b h =
      key_tail m.env (route_part_of route t)
        (digest (canonical_text digest r (route_part_of route t) t a))
        (digest (canonical_text digest r' (route_part_of route t) t b)) h

  -- Equal keys of a route are those of one text, unless the digest collides.
  pub read_key_eq :
      (r r' : KeyRequest) (a b : Text)
      → read_key digest m r route t a ≡ read_key digest m r' route t b
      → (canonical_text digest r (route_part_of route t) t a
          ≡ canonical_text digest r' (route_part_of route t) t b)
        ⊎ Collides digest
  read_key_eq r r' a b h =
      let x = canonical_text digest r (route_part_of route t) t a in
      let y = canonical_text digest r' (route_part_of route t) t b in
      elim (Bool-cases (text_eq x y)) [
        | inl same ↦ inl ((text_eq_iff x y).0 same)
        | inr other ↦ inr (record {
          one = x;
          other = y;
          different = distinct_texts x y other;
          collision = digests_eq r r' a b h;
        })
      ]

  -- Keys of one request with different tokens differ, unless the digest collides.
  pub read_key-differs :
      (r : KeyRequest) (a b : Text)
      → is_empty a ≡ false
      → is_empty b ≡ false
      → a ≢ b
      → (read_key digest m r route t a ≢ read_key digest m r route t b) ⊎ Collides digest
  read_key-differs r a b full_a full_b h =
      let x = read_key digest m r route t a in
      let y = read_key digest m r route t b in
      elim (Bool-cases (text_eq x y)) [
        | inr other ↦ inl (distinct_texts x y other)
        | inl same ↦ elim (read_key_eq r r a b ((text_eq_iff x y).0 same)) [
          | inl e ↦ absurd (h (canonical_eq r (route_part_of route t) a b full_a full_b e))
          | inr c ↦ inr c
        ]
      ]
