-- ===== src/Text/Unique.antt =====
-- The loops that collect trimmed strings once each, with a set of those seen (uniqueStrings of
-- internal/modules/team/repo.go, uniqueUserIDs of internal/core/permissions/lifecycle.go), and
-- sort.Strings.
use projectbook_backend.Base.{
  ltb, ◌==◌, Bool, true, false, ◌&&◌, ◌||◌, ◌≡◌, sym, inl, inr, refl, ap, ◌∙◌, Bool-cases, List, [],
  ◌∷◌, any, if◌then◌else◌, arith,
}
use projectbook_backend.Text.{Text, text_eq, is_empty, trim_space, mem_text}
use projectbook_backend.Text.Laws.{text_eq_iff, text_eq_self}

-- The rest of the loop, where the set `seen` has been met.
unfoldable pub collect : List Text → List Text → List Text
unfolding mem_text trim_space
collect seen [] = []
collect seen (v ∷ vs) =
    let skipped = is_empty (trim_space v) || mem_text (trim_space v) seen in
    let rest = collect (if skipped then seen else trim_space v ∷ seen) vs in
    if skipped then rest else trim_space v ∷ rest

unfoldable pub unique : List Text → List Text
unfolding collect
unique vs = collect [] vs

-- `a < b` on strings.
unfoldable pub text_lt : Text → Text → Bool
text_lt [] [] = false
text_lt [] (b ∷ t) = true
text_lt (a ∷ s) [] = false
text_lt (a ∷ s) (b ∷ t) = ltb a b || (a == b && text_lt s t)

unfoldable pub insert_text : Text → List Text → List Text
unfolding text_lt
insert_text s [] = s ∷ []
insert_text s (t ∷ ts) = let rest = insert_text s ts in if text_lt t s then t ∷ rest else s ∷ t ∷ ts

-- sort.Strings
unfoldable pub sort_texts : List Text → List Text
unfolding insert_text
sort_texts [] = []
sort_texts (t ∷ ts) = insert_text t (sort_texts ts)

-- uniqueStrings
unfoldable pub unique_strings : List Text → List Text
unfolding unique sort_texts
unique_strings vs = sort_texts (unique vs)

-- A member of a set of strings is equal to itself and may be looked for in any part.
pub mem_text_here : (s : Text) (ts : List Text) → mem_text s (s ∷ ts) ≡ true
unfolding mem_text
mem_text_here s ts = ground (arith, text_eq_self s)

pub mem_text_later :
    (s t : Text) (ts : List Text) → mem_text s ts ≡ true → mem_text s (t ∷ ts) ≡ true
unfolding mem_text
mem_text_later s t ts h = ground arith

-- Each kept string was not seen before, and no two are equal.
unfoldable pub HasNoRepeat : List Text → List Text → Type 0
HasNoRepeat seen [] = Unit
HasNoRepeat seen (t ∷ ts) = (mem_text t seen ≡ false) × HasNoRepeat (t ∷ seen) ts

pub collect-HasNoRepeat : (seen vs : List Text) → HasNoRepeat seen (collect seen vs)
unfolding collect HasNoRepeat
collect-HasNoRepeat seen [] = tt
collect-HasNoRepeat seen (v ∷ vs) =
    elim (Bool-cases (is_empty (trim_space v) || mem_text (trim_space v) seen)) [
      | inl e ↦ rw e (collect-HasNoRepeat seen vs)
      | inr e ↦ rw e (ground arith, collect-HasNoRepeat (trim_space v ∷ seen) vs)
    ]

collect_complete :
    (s : Text) (seen vs : List Text)
    → is_empty s ≡ false
    → any (λ v. text_eq s (trim_space v)) vs ≡ true
    → mem_text s seen ≡ false
    → mem_text s (collect seen vs) ≡ true
unfolding collect mem_text
collect_complete s seen [] full found new = cc
collect_complete s seen (v ∷ vs) full found new = elim (Bool-cases (text_eq s (trim_space v))) [
  | inl same ↦
      let eq : s ≡ trim_space v = (text_eq_iff s (trim_space v)).0 same in
      let e1 : is_empty (trim_space v) ≡ false = ap is_empty (sym eq) ∙ full in
      let e2 : mem_text (trim_space v) seen ≡ false = ap (λ x. mem_text x seen) (sym eq) ∙ new in
      rw (e1, e2) (ground (arith, same))
  | inr other ↦
      let later : any (λ v. text_eq s (trim_space v)) vs ≡ true = rw other at found in
      elim (Bool-cases (is_empty (trim_space v) || mem_text (trim_space v) seen)) [
        | inl e ↦ rw e (collect_complete s seen vs full later new)
        | inr e ↦
            rw (e, other)
              (collect_complete s (trim_space v ∷ seen) vs full later (ground (arith, other, new)))
      ]
]

insert_text_mem :
    (s t : Text) (ts : List Text) → mem_text s (insert_text t ts) ≡ mem_text s (t ∷ ts)
unfolding insert_text mem_text
insert_text_mem s t [] = refl
insert_text_mem s t (u ∷ ts) = elim (Bool-cases (text_lt u t)) [
  | inl e ↦ rw e (ground (arith, insert_text_mem s t ts))
  | inr e ↦ rw e (ground arith)
]

sort_texts_mem : (s : Text) (ts : List Text) → mem_text s (sort_texts ts) ≡ mem_text s ts
unfolding sort_texts mem_text
sort_texts_mem s [] = refl
sort_texts_mem s (t ∷ ts) =
    insert_text_mem s t (sort_texts ts) ∙ ap (λ b. text_eq s t || b) (sort_texts_mem s ts)

-- A string is kept when it is not blank and trims one of the list.
pub unique_complete :
    (s : Text) (vs : List Text)
    → is_empty s ≡ false
    → any (λ v. text_eq s (trim_space v)) vs ≡ true
    → mem_text s (unique vs) ≡ true
unfolding unique mem_text
unique_complete s vs full found = collect_complete s [] vs full found refl

pub unique_strings_complete :
    (s : Text) (vs : List Text)
    → is_empty s ≡ false
    → any (λ v. text_eq s (trim_space v)) vs ≡ true
    → mem_text s (unique_strings vs) ≡ true
unfolding unique_strings
unique_strings_complete s vs full found =
    sort_texts_mem s (unique vs) ∙ unique_complete s vs full found
