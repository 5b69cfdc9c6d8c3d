-- ===== src/Cache/Versions.antt =====
-- The token of a list of tags (tagVersionTokenNormalized of internal/core/cache/manager.go) tells the
-- version of each tag.
use projectbook_backend.Base.{
  ℕ, zero, suc, ◌≤◌, ◌≡◌, refl, sym, ap, ◌∙◌, inl, inr, map, true, false, List, [], ◌∷◌, ◌++◌, All,
  arith, Bool-cases,
}
use projectbook_backend.Text.{Text, text_eq, is_empty, mem_text}
use projectbook_backend.Text.Laws.{text_eq_iff}
use projectbook_backend.Text.Join.{
  append_assoc, join_texts, after_part, IsFreeOf, EndsPart, join_texts-cons, after_part-EndsPart,
  tail_eq, first_part_eq, append_cancel,
}
use projectbook_backend.Text.Decimal.{
  max_int, IsDigit, format_int, format_int-IsDigit, format_int-injective, parse_int,
  parse_int-format_int, trim_space-format_int,
}
use projectbook_backend.Cache.Store.{
  MgetValue, nil, string_value, parsed_version, version_of, version_part, version_parts,
}

-- What MGET answers for a counter that INCR has reached; a counter that was never incremented is
-- missing.
unfoldable pub counter_value : ℕ → MgetValue
counter_value zero = nil
counter_value (suc n) = string_value (format_int (suc n))

version_of-counter_value : (n : ℕ) → n ≤ max_int → version_of (counter_value n) ≡ n
unfolding version_of counter_value parsed_version
version_of-counter_value zero h = refl
version_of-counter_value (suc n) h =
    ap (λ s. parsed_version (parse_int s)) (trim_space-format_int (suc n))
    ∙ ap parsed_version (parse_int-format_int (suc n) h)

abbrev pub version_texts : (Text → ℕ) → List Text → List Text
version_texts v = map (λ t. version_part t (v t))

-- The token of the tags at the versions v.
unfoldable pub token_text : List Text → (Text → ℕ) → Text
unfolding join_texts
token_text ts v = join_texts 44 (version_texts v ts)

version_parts-counter_value :
    (key : Text → Text) (count : Text → ℕ)
    → ((k : Text) → count k ≤ max_int)
    → (ts : List Text)
    → version_parts ts (map (λ k. counter_value (count k)) (map key ts))
      ≡ version_texts (λ t. count (key t)) ts
unfolding version_parts
version_parts-counter_value key count bound [] = refl
version_parts-counter_value key count bound (t ∷ ts) =
    ap (λ n. version_part t n ∷ version_parts ts (map (λ k. counter_value (count k)) (map key ts)))
      (version_of-counter_value (count (key t)) (bound (key t)))
    ∙ ap (λ ps. version_part t (count (key t)) ∷ ps)
        (version_parts-counter_value key count bound ts)

-- The parts that the answer for counters makes are those of their numbers.
pub token-counter_value :
    (key : Text → Text) (count : Text → ℕ)
    → ((k : Text) → count k ≤ max_int)
    → (ts : List Text)
    → join_texts 44 (version_parts ts (map (λ k. counter_value (count k)) (map key ts)))
      ≡ token_text ts (λ t. count (key t))
unfolding token_text
token-counter_value key count bound ts =
    ap (join_texts 44) (version_parts-counter_value key count bound ts)

digits-IsFreeOf : (s : Text) → All IsDigit s → IsFreeOf 44 s
digits-IsFreeOf [] h = tt
digits-IsFreeOf (c ∷ s) (hc, hs) = (λ e. omega arith, digits-IsFreeOf s hs)

-- Equal tokens tell the same version of their first tag, and the rests are equal.
first_version :
    (t u w : Text) (n m : ℕ)
    → EndsPart 44 u
    → EndsPart 44 w
    → version_part t n ++ u ≡ version_part t m ++ w
    → (n ≡ m) × (u ≡ w)
first_version t u w n m hu hw h =
    let (e, rest) =
      first_part_eq 44 (format_int n) (format_int m) u w
        (digits-IsFreeOf (format_int n) (format_int-IsDigit n))
        (digits-IsFreeOf (format_int m) (format_int-IsDigit m)) hu hw
        (tail_eq (
          append_cancel t (
            append_assoc t (61 ∷ format_int n) u
            ∙ h
            ∙ sym (append_assoc t (61 ∷ format_int m) w)))) in
    (format_int-injective n m e, rest)

split_first :
    (t : Text) (ts : List Text) (v w : Text → ℕ)
    → token_text (t ∷ ts) v ≡ token_text (t ∷ ts) w
    → (v t ≡ w t) × (after_part 44 (version_texts v ts) ≡ after_part 44 (version_texts w ts))
unfolding token_text
split_first t ts v w h =
    first_version t (after_part 44 (version_texts v ts)) (after_part 44 (version_texts w ts)) (v t)
      (w t) (after_part-EndsPart 44 (version_texts v ts))
      (after_part-EndsPart 44 (version_texts w ts))
      (sym (join_texts-cons 44 (version_part t (v t)) (version_texts v ts))
        ∙ h
        ∙ join_texts-cons 44 (version_part t (w t)) (version_texts w ts))

rests_eq :
    (ts : List Text) (v w : Text → ℕ)
    → after_part 44 (version_texts v ts) ≡ after_part 44 (version_texts w ts)
    → token_text ts v ≡ token_text ts w
unfolding after_part token_text
rests_eq [] v w h = refl
rests_eq (t ∷ ts) v w h = tail_eq h

no_member : (s : Text) → mem_text s [] ≡ true → ⊥
unfolding mem_text
no_member s h = cc

other_member :
    (s t : Text) (ts : List Text)
    → text_eq s t ≡ false
    → mem_text s (t ∷ ts) ≡ true
    → mem_text s ts ≡ true
unfolding mem_text
other_member s t ts e h = ground (arith, e)

-- Equal tokens of the same tags tell the same version of every tag.
pub token_text-injective :
    (s : Text) (ts : List Text) (v w : Text → ℕ)
    → mem_text s ts ≡ true
    → token_text ts v ≡ token_text ts w
    → v s ≡ w s
token_text-injective s [] v w h e = absurd (no_member s h)
token_text-injective s (t ∷ ts) v w h e =
    let (same, rests) = split_first t ts v w e in
    elim (Bool-cases (text_eq s t)) [
      | inl f ↦ rw ((text_eq_iff s t).0 f) same
      | inr f ↦ token_text-injective s ts v w (other_member s t ts f h) (rests_eq ts v w rests)
    ]

part_full : (t : Text) (n : ℕ) (u : Text) → is_empty (version_part t n ++ u) ≡ false
part_full [] n u = refl
part_full (c ∷ t) n u = refl

-- The token of some tags is not empty.
pub token_text-is_empty :
    (t : Text) (ts : List Text) (v : Text → ℕ) → is_empty (token_text (t ∷ ts) v) ≡ false
unfolding token_text
token_text-is_empty t ts v =
    ap is_empty (join_texts-cons 44 (version_part t (v t)) (version_texts v ts))
    ∙ part_full t (v t) (after_part 44 (version_texts v ts))
