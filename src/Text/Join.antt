-- ===== src/Text/Join.antt =====
-- strings.Join with a separator of one byte: two joined lists whose parts do not contain the
-- separator are equal part by part.
use projectbook_backend.Base.{ℕ, ◌≡◌, ◌≢◌, refl, sym, ap, ◌∙◌, List, [], ◌∷◌, ◌++◌, All}
use projectbook_backend.Text.{Text}

pub append_assoc : (s t u : Text) → s ++ (t ++ u) ≡ (s ++ t) ++ u
append_assoc [] t u = refl
append_assoc (c ∷ s) t u = ap (λ x. c ∷ x) (append_assoc s t u)

-- strings.Join(parts, string(separator))
unfoldable pub join_texts : ℕ → List Text → Text
join_texts sep [] = []
join_texts sep (p ∷ []) = p
join_texts sep (p ∷ q ∷ ps) = p ++ (sep ∷ join_texts sep (q ∷ ps))

-- What follows a part of a joined list.
unfoldable pub after_part : ℕ → List Text → Text
unfolding join_texts
after_part sep [] = []
after_part sep (q ∷ ps) = sep ∷ join_texts sep (q ∷ ps)

abbrev pub IsFreeOf : ℕ → Text → Type 0
IsFreeOf sep = All (λ c. c ≢ sep)

-- A text is over, or the separator follows.
abbrev pub EndsPart : ℕ → Text → Type 0
EndsPart sep [] = Unit
EndsPart sep (c ∷ s) = c ≡ sep

pub join_texts-cons :
    (sep : ℕ) (p : Text) (ps : List Text) → join_texts sep (p ∷ ps) ≡ p ++ after_part sep ps
unfolding join_texts after_part
join_texts-cons sep p [] = append_nil p
  where
    append_nil : (s : Text) → s ≡ s ++ []
    append_nil [] = refl
    append_nil (c ∷ s) = ap (λ t. c ∷ t) (append_nil s)
join_texts-cons sep p (q ∷ ps) = refl

pub after_part-EndsPart : (sep : ℕ) (ps : List Text) → EndsPart sep (after_part sep ps)
unfolding after_part
after_part-EndsPart sep [] = tt
after_part-EndsPart sep (q ∷ ps) = refl

head_eq : {c d : ℕ} {s t : Text} → c ∷ s ≡ d ∷ t → c ≡ d
head_eq h = cc

pub tail_eq : {c d : ℕ} {s t : Text} → c ∷ s ≡ d ∷ t → s ≡ t
tail_eq h = cc

-- Two first parts that end in equal texts are equal, and so is what follows them.
pub first_part_eq :
    (sep : ℕ) (s t u v : Text)
    → IsFreeOf sep s
    → IsFreeOf sep t
    → EndsPart sep u
    → EndsPart sep v
    → s ++ u ≡ t ++ v
    → (s ≡ t) × (u ≡ v)
first_part_eq sep [] [] u v _ _ _ _ h = (refl, h)
first_part_eq sep [] (d ∷ t) [] v _ _ _ _ h = cc
first_part_eq sep [] (d ∷ t) (c ∷ u) v _ (hd, _) hu _ h = absurd (hd (sym (head_eq h) ∙ hu))
first_part_eq sep (c ∷ s) [] u [] _ _ _ _ h = cc
first_part_eq sep (c ∷ s) [] u (d ∷ v) (hc, _) _ _ hv h = absurd (hc (head_eq h ∙ hv))
first_part_eq sep (c ∷ s) (d ∷ t) u v (_, hs) (_, ht) hu hv h =
    let (e, rest) = first_part_eq sep s t u v hs ht hu hv (tail_eq h) in
    (ap (λ x. x ∷ s) (head_eq h) ∙ ap (λ x. d ∷ x) e, rest)

-- A shared beginning.
pub append_cancel : (p : Text) {s t : Text} → p ++ s ≡ p ++ t → s ≡ t
append_cancel [] h = h
append_cancel (c ∷ p) h = append_cancel p (tail_eq h)

-- A last part.
pub join_texts-snoc :
    (sep : ℕ) (p : Text) (ps : List Text) (x : Text)
    → join_texts sep ((p ∷ ps) ++ (x ∷ [])) ≡ join_texts sep (p ∷ ps) ++ (sep ∷ x)
unfolding join_texts
join_texts-snoc sep p [] x = refl
join_texts-snoc sep p (q ∷ ps) x =
    ap (λ t. p ++ (sep ∷ t)) (join_texts-snoc sep q ps x)
    ∙ append_assoc p (sep ∷ join_texts sep (q ∷ ps)) (sep ∷ x)
