-- ===== src/Cache/Counters.antt =====
-- The versions of tags on the server: what internal/core/cache/manager.go needs of the counters of
-- Redis, and what BumpTags and tagVersionTokenNormalized do to them.
use mathlib.Core.Path.{subst}
use mathlib.Core.Option.{none}
use projectbook_backend.Base.{
  ℕ, suc, ◌+◌, ◌≤◌, ◌<◌, ◌≡◌, refl, sym, ap, ◌∙◌, inl, inr, ◌==◌, ◌||◌, if◌then◌else◌, map, true,
  false, List, [], ◌∷◌, Result, ok, err, arith, Bool-cases,
}
use projectbook_backend.Text.{Text, text_eq, is_empty, trim_space, mem_text}
use projectbook_backend.Text.Laws.{text_eq_iff, text_eq_self}
use projectbook_backend.Text.Unique.{unique_strings}
use projectbook_backend.Text.Decimal.{max_int}
use projectbook_backend.Text.Join.{join_texts}
use projectbook_backend.Cache.Tags.{KeyError}
use projectbook_backend.Cache.Store.{
  MgetValue, TokenEntry, RedisClient, Manager, CacheState, tag_version_key, tag_token_from_cache,
  version_parts, on_versions, on_token, tag_version_token, on_bump, bump_names, bump_tags,
}
use projectbook_backend.Cache.Versions.{
  counter_value, token_text, token-counter_value, token_text-is_empty,
}

-- How often a key is incremented by a pipeline.
unfoldable pub occurrences : Text → List Text → ℕ
unfolding text_eq
occurrences k [] = 0
occurrences k (j ∷ js) = let rest = occurrences k js in if text_eq k j then suc rest else rest

-- What Redis documents of counters: MGET answers the number that INCR has reached and changes
-- nothing, a pipeline lowers no count, one that succeeded has counted each of its keys, and a count
-- has 63 bits.
pub record CounterLaws {W : Type 0} (redis : RedisClient W) : Type 0 where
  pub count : W → Text → ℕ
  pub count-bound : (w : W) (k : Text) → count w k ≤ max_int
  pub mget-count :
      (ks : List Text) (w w' : W) (vals : List MgetValue)
      → redis.mget ks w ≡ (ok vals, w')
      → vals ≡ map (λ k. counter_value (count w k)) ks
  pub mget-keeps : (ks : List Text) (w : W) → count (redis.mget ks w).1 ≡ count w
  pub incr-grows :
      (ks : List Text) (w : W) (k : Text) → count w k ≤ count (redis.exec_incr ks w).1 k
  pub incr-count :
      (ks : List Text) (w w' : W) (k : Text)
      → redis.exec_incr ks w ≡ (ok tt, w')
      → count w' k ≡ count w k + occurrences k ks

counted :
    (key : Text → Text) (t : Text) (ts : List Text)
    → mem_text t ts ≡ true
    → 0 < occurrences (key t) (map key ts)
unfolding occurrences mem_text
counted key t [] h = cc
counted key t (u ∷ ts) h = elim (Bool-cases (text_eq t u)) [
  | inl e ↦ rw ((text_eq_iff t u).0 e, text_eq_self (key u)) (omega arith)
  | inr e ↦ elim (Bool-cases (text_eq (key t) (key u))) [
    | inl f ↦ rw f (omega arith)
    | inr f ↦ rw f (counted key t ts (rw e at h))
  ]
]

pub same_token : (x : Result KeyError Text) {a b : Text} → x ≡ ok a → x ≡ ok b → a ≡ b
same_token x p q = cc

uncached :
    (m : Manager) (now : ℕ) (key : Text) (entries : List TokenEntry)
    → entries ≡ []
    → tag_token_from_cache m now key entries ≡ none
unfolding tag_token_from_cache
uncached m now key [] h = elim (Bool-cases (m.tag_token_ttl == 0 || is_empty (trim_space key))) [
  | inl e ↦ rw e refl
  | inr e ↦ rw e refl
]
uncached m now key (e ∷ entries) h = cc

pub no_tag : (t : Text) → mem_text t [] ≡ true → ⊥
unfolding mem_text
no_tag t h = cc

module _ {W : Type 0} (redis : RedisClient W) (laws : CounterLaws redis) (m : Manager) where
  open laws use {count, count-bound, mget-count, incr-count}

  -- The version of a tag on the server.
  abbrev pub version_at : CacheState W → Text → ℕ
  version_at st t = count st.server (tag_version_key m t)

  pub bumped :
      (st st' : CacheState W) (r : Result (Unit {0}) (Unit {0})) (w : W)
      → on_bump redis m st r w ≡ (ok tt, st')
      → (r ≡ ok tt) × (st'.server ≡ w) × (st'.tokens ≡ [])
  unfolding on_bump
  bumped st st' (ok u) w h = (refl, ap (λ p. p.1.server) (sym h), ap (λ p. p.1.tokens) (sym h))
  bumped st st' (err e) w h = cc

  pub grown :
      (w w' : W) (t : Text) (ts : List Text)
      → redis.exec_incr (map (tag_version_key m) ts) w ≡ (ok tt, w')
      → mem_text t ts ≡ true
      → count w (tag_version_key m t) < count w' (tag_version_key m t)
  grown w w' t ts h found =
      let ks = map (tag_version_key m) ts in
      let more = incr-count ks w w' (tag_version_key m t) h in
      let some_time = counted (tag_version_key m) t ts found in omega arith

  bump_names-version :
      (st st' : CacheState W) (t : Text) (ts : List Text)
      → bump_names redis m ts st ≡ (ok tt, st')
      → mem_text t ts ≡ true
      → (version_at st t < version_at st' t) × (st'.tokens ≡ [])
  unfolding bump_names
  bump_names-version st st' t [] h found = absurd (no_tag t found)
  bump_names-version st st' t (u ∷ ts) h found =
      let answer = redis.exec_incr (map (tag_version_key m) (u ∷ ts)) st.server in
      let (success, server, dropped) = bumped st st' answer.0 answer.1 h in
      let more = grown st.server answer.1 t (u ∷ ts) (ap (λ r. (r, answer.1)) success) found in
      (
        subst (λ w. count st.server (tag_version_key m t) < count w (tag_version_key m t))
            (sym server) more,
        dropped,
      )

  pub told :
      (tags : List Text) (st st' : CacheState W) (r : Result (Unit {0}) (List MgetValue)) (w : W)
      (token : Text)
      → on_versions redis m tags st r w ≡ (ok token, st')
      → (vals : List MgetValue) × (r ≡ ok vals) × (token ≡ join_texts 44 (version_parts tags vals))
  unfolding on_versions
  told tags st st' (ok vals) w token h =
      (vals, refl, same_token (ok token) refl (sym (ap (λ p. p.0) h)))
  told tags st st' (err e) w token h = cc

  -- A token that is read from the server tells the versions there.
  pub read_token :
      (tags : List Text) (st st' : CacheState W) (token : Text)
      → on_token redis m tags st none ≡ (ok token, st')
      → token ≡ token_text tags (version_at st)
  unfolding on_token
  read_token tags st st' token h =
      let answer = redis.mget (map (tag_version_key m) tags) st.server in
      let (vals, answered, e) = told tags st st' answer.0 answer.1 token h in
      let counters =
        mget-count (map (tag_version_key m) tags) st.server answer.1 vals
          (ap (λ r. (r, answer.1)) answered) in
      e
      ∙ ap (λ vs. join_texts 44 (version_parts tags vs)) counters
      ∙ token-counter_value (tag_version_key m) (count st.server) (count-bound st.server) tags

  pub next_token :
      (tags : List Text) (st st' : CacheState W) (token s : Text)
      → st.tokens ≡ []
      → mem_text s tags ≡ true
      → tag_version_token redis m tags st ≡ (ok token, st')
      → (token ≡ token_text tags (version_at st)) × (is_empty token ≡ false)
  unfolding tag_version_token
  next_token [] st st' token s dropped found h = absurd (no_tag s found)
  next_token (u ∷ ts) st st' token s dropped found h =
      let e = read_token (u ∷ ts) st st' token (
        ap (on_token redis m (u ∷ ts) st)
          (sym (uncached m st.now (join_texts 31 (u ∷ ts)) st.tokens dropped))
        ∙ h) in
      (e, ap is_empty e ∙ token_text-is_empty u ts (version_at st))

  pub bumped_version :
      (bumped_tags : List Text) (tag : Text) (st st1 : CacheState W)
      → bump_tags redis m bumped_tags st ≡ (ok tt, st1)
      → mem_text tag (unique_strings bumped_tags) ≡ true
      → (version_at st tag < version_at st1 tag) × (st1.tokens ≡ [])
  unfolding bump_tags
  bumped_version bumped_tags tag st st1 h found =
      bump_names-version st st1 tag (unique_strings bumped_tags) h found
