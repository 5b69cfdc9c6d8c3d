-- ===== src/Cache/Old.antt =====
-- The entries of the map tagTokenCache of internal/core/cache/manager.go that tell versions which are
-- reached: what finding, storing and dropping of entries keeps.
use mathlib.Core.Path.{subst}
use projectbook_backend.Base.{
  ℕ, ◌≤◌, ◌≡◌, inl, inr, Bool, not, ◌==◌, ◌||◌, none, some, List, [], ◌∷◌, All, filter, ltb, arith,
  Bool-cases,
}
use projectbook_backend.Text.{Text, text_eq, is_empty, trim_space}
use projectbook_backend.Text.Laws.{text_eq_iff}
use projectbook_backend.Text.Join.{join_texts}
use projectbook_backend.Cache.Store.{
  TokenEntry, Manager, tag_token_from_cache, find_token, store_tag_token,
}
use projectbook_backend.Cache.Versions.{token_text}

-- The token tells versions that are at most those of `count`, of tags that join to the key.
pub record IsOld (count : Text → ℕ) (cache_key token : Text) : Type 0 where
  pub tags : List Text
  pub versions : Text → ℕ
  pub joined : cache_key ≡ join_texts 31 tags
  pub told_by : token ≡ token_text tags versions
  pub bounded : (t : Text) → versions t ≤ count t

older :
    (c d : Text → ℕ) (k token : Text) → ((t : Text) → c t ≤ d t) → IsOld c k token → IsOld d k token
older c d k token grows o = record {
  tags = o.tags;
  versions = o.versions;
  joined = o.joined;
  told_by = o.told_by;
  bounded = λ t. le_trans (o.bounded t) (grows t);
}
  where
    le_trans : {a b e : ℕ} → a ≤ b → b ≤ e → a ≤ e
    le_trans p q = omega arith

abbrev pub EntryIsOld : (Text → ℕ) → TokenEntry → Type 0
EntryIsOld c e = IsOld c e.cache_key e.token

pub entries_older :
    (c d : Text → ℕ) (entries : List TokenEntry)
    → ((t : Text) → c t ≤ d t)
    → All (EntryIsOld c) entries
    → All (EntryIsOld d) entries
entries_older c d [] grows h = tt
entries_older c d (e ∷ entries) grows (he, hs) =
    (older c d e.cache_key e.token grows he, entries_older c d entries grows hs)

entries_filtered :
    (c : Text → ℕ) (p : TokenEntry → Bool) (entries : List TokenEntry)
    → All (EntryIsOld c) entries
    → All (EntryIsOld c) (filter p entries)
entries_filtered c p [] h = tt
entries_filtered c p (e ∷ entries) (he, hs) = elim (Bool-cases (p e)) [
  | inl q ↦ rw q (he, entries_filtered c p entries hs)
  | inr q ↦ rw q (entries_filtered c p entries hs)
]

pub entries_stored :
    (c : Text → ℕ) (m : Manager) (now : ℕ) (key token : Text) (entries : List TokenEntry)
    → IsOld c key token
    → All (EntryIsOld c) entries
    → All (EntryIsOld c) (store_tag_token m now key token entries)
unfolding store_tag_token
entries_stored c m now key token entries o h =
    elim (Bool-cases (m.tag_token_ttl == 0 || is_empty (trim_space key))) [
      | inl e ↦ rw e h
      | inr e ↦ rw e (o, entries_filtered c (λ x. not (text_eq x.cache_key key)) entries h)
    ]

no_text : {a : Text} → none ≡ some a → ⊥
no_text h = cc

same_text : {a b : Text} → some a ≡ some b → a ≡ b
same_text h = cc

found_old :
    (c : Text → ℕ) (now : ℕ) (key token : Text) (entries : List TokenEntry)
    → All (EntryIsOld c) entries
    → find_token now key entries ≡ some token
    → IsOld c key token
unfolding find_token
found_old c now key token [] h found = absurd (no_text found)
found_old c now key token (e ∷ entries) (he, hs) found =
    elim (Bool-cases (text_eq e.cache_key key)) [
      | inl same ↦ elim (Bool-cases (ltb e.expires_at now)) [
        | inl expired ↦ absurd (no_text (rw (same, expired) at found))
        | inr fresh ↦
            let e1 : e.token ≡ token = same_text (rw (same, fresh) at found) in
            subst (λ t. IsOld c key t) e1
              (subst (λ k. IsOld c k e.token) ((text_eq_iff e.cache_key key).0 same) he)
      ]
      | inr other ↦ found_old c now key token entries hs (rw other at found)
    ]

pub cached_old :
    (c : Text → ℕ) (m : Manager) (now : ℕ) (key token : Text) (entries : List TokenEntry)
    → All (EntryIsOld c) entries
    → tag_token_from_cache m now key entries ≡ some token
    → IsOld c key token
unfolding tag_token_from_cache
cached_old c m now key token entries h found =
    elim (Bool-cases (m.tag_token_ttl == 0 || is_empty (trim_space key))) [
      | inl e ↦ absurd (no_text (rw e at found))
      | inr e ↦ found_old c now key token entries h (rw e at found)
    ]
