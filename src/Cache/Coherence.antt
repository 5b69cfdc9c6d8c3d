-- ===== src/Cache/Coherence.antt =====
-- The map tagTokenCache of internal/core/cache/manager.go through any run of a process, while other
-- processes bump tags on the same server.
use mathlib.Core.Path.{subst}
use projectbook_backend.Base.{
  ℕ, ◌≤◌, ◌≡◌, refl, sym, ap, ◌∙◌, map, Option, none, some, List, [], ◌∷◌, Result, ok, err, All,
  arith,
}
use projectbook_backend.Text.{Text}
use projectbook_backend.Text.Join.{join_texts}
use projectbook_backend.Text.Unique.{unique_strings}
use projectbook_backend.Cache.Store.{
  MgetValue, RedisClient, Manager, CacheState, tag_version_key, tag_token_from_cache, version_parts,
  on_versions, on_token, tag_version_token, on_bump, bump_names, bump_tags,
}
use projectbook_backend.Cache.Versions.{counter_value, token-counter_value}
use projectbook_backend.Cache.Counters.{CounterLaws, version_at, same_token, read_token}
use projectbook_backend.Cache.Old.{IsOld, EntryIsOld, entries_older, entries_stored, cached_old}

module _ {W : Type 0} (redis : RedisClient W) (laws : CounterLaws redis) (m : Manager) where
  open laws use {count, count-bound, mget-count, mget-keeps, incr-grows}

  -- Every token in the map tells versions that the server has reached.
  unfoldable pub IsCoherent : CacheState W → Type 0
  IsCoherent st = All (EntryIsOld (version_at redis laws m st)) st.tokens

  -- What happens to the state: a call of BumpTags or of TagVersionToken, which may fail, the bumps
  -- of other processes on the same server, and passing time.
  pub data CacheStep : CacheState W → CacheState W → Type 0 where
    bump : (tags : List Text) (st : CacheState W) → CacheStep st (bump_tags redis m tags st).1
    read :
        (tags : List Text) (st : CacheState W) → CacheStep st (tag_version_token redis m tags st).1
    elsewhere :
        (st : CacheState W) (w : W)
        → ((k : Text) → count st.server k ≤ count w k)
        → CacheStep st (record st { server = w })
    wait : (st : CacheState W) (time : ℕ) → CacheStep st (record st { now = time })

  pub data CacheRun : CacheState W → CacheState W → Type 0 where
    start : (st : CacheState W) → CacheRun st st
    next : (st st' st'' : CacheState W) → CacheRun st st' → CacheStep st' st'' → CacheRun st st''

  grown_server :
      (st : CacheState W) (w : W)
      → ((k : Text) → count st.server k ≤ count w k)
      → IsCoherent st
      → All (EntryIsOld (λ t. count w (tag_version_key m t))) st.tokens
  unfolding IsCoherent
  grown_server st w grows h =
      entries_older (version_at redis laws m st) (λ t. count w (tag_version_key m t)) st.tokens
        (λ t. grows (tag_version_key m t)) h

  on_bump-IsCoherent :
      (st : CacheState W) (r : Result (Unit {0}) (Unit {0})) (w : W)
      → ((k : Text) → count st.server k ≤ count w k)
      → IsCoherent st
      → IsCoherent (on_bump redis m st r w).1
  unfolding on_bump IsCoherent
  on_bump-IsCoherent st (ok u) w grows h = tt
  on_bump-IsCoherent st (err e) w grows h = grown_server st w grows h

  bump_names-IsCoherent :
      (tags : List Text) (st : CacheState W)
      → IsCoherent st
      → IsCoherent (bump_names redis m tags st).1
  unfolding bump_names
  bump_names-IsCoherent [] st h = h
  bump_names-IsCoherent (t ∷ ts) st h =
      let ks = map (tag_version_key m) (t ∷ ts) in
      let answer = redis.exec_incr ks st.server in
      on_bump-IsCoherent st answer.0 answer.1 (incr-grows ks st.server) h

  bump_tags-IsCoherent :
      (tags : List Text) (st : CacheState W)
      → IsCoherent st
      → IsCoherent (bump_tags redis m tags st).1
  unfolding bump_tags
  bump_tags-IsCoherent tags st = bump_names-IsCoherent (unique_strings tags) st

  at_most : (c d : Text → ℕ) → d ≡ c → (k : Text) → c k ≤ d k
  at_most c d e k = let same = ap (λ f. f k) e in omega arith

  on_versions-IsCoherent :
      (tags : List Text) (st : CacheState W) (r : Result (Unit {0}) (List MgetValue)) (w : W)
      → count w ≡ count st.server
      → ((vals : List MgetValue)
          → r ≡ ok vals
          → vals ≡ map (λ k. counter_value (count st.server k)) (map (tag_version_key m) tags))
      → IsCoherent st
      → IsCoherent (on_versions redis m tags st r w).1
  unfolding on_versions IsCoherent
  on_versions-IsCoherent tags st (err e) w kept counters h =
      grown_server st w (at_most (count st.server) (count w) kept) h
  on_versions-IsCoherent tags st (ok vals) w kept counters h =
      let token = join_texts 44 (version_parts tags vals) in
      entries_stored (λ t. count w (tag_version_key m t)) m st.now (join_texts 31 tags) token
        st.tokens
        (record {
          tags = tags;
          versions = version_at redis laws m st;
          joined = refl;
          told_by =
              ap (λ vs. join_texts 44 (version_parts tags vs)) (counters vals refl)
              ∙ token-counter_value (tag_version_key m) (count st.server) (count-bound st.server)
                  tags;
          bounded = λ t. at_most (count st.server) (count w) kept (tag_version_key m t);
        })
        (grown_server st w (at_most (count st.server) (count w) kept) h)

  on_token-IsCoherent :
      (tags : List Text) (st : CacheState W) (o : Option Text)
      → IsCoherent st
      → IsCoherent (on_token redis m tags st o).1
  unfolding on_token
  on_token-IsCoherent tags st (some token) h = h
  on_token-IsCoherent tags st none h =
      let ks = map (tag_version_key m) tags in
      let answer = redis.mget ks st.server in
      on_versions-IsCoherent tags st answer.0 answer.1 (mget-keeps ks st.server)
        (λ vals e. mget-count ks st.server answer.1 vals (ap (λ r. (r, answer.1)) e)) h

  tag_version_token-IsCoherent :
      (tags : List Text) (st : CacheState W)
      → IsCoherent st
      → IsCoherent (tag_version_token redis m tags st).1
  unfolding tag_version_token
  tag_version_token-IsCoherent [] st h = h
  tag_version_token-IsCoherent (t ∷ ts) st h =
      on_token-IsCoherent (t ∷ ts) st
        (tag_token_from_cache m st.now (join_texts 31 (t ∷ ts)) st.tokens) h

  step-IsCoherent : (st st' : CacheState W) → CacheStep st st' → IsCoherent st → IsCoherent st'
  unfolding IsCoherent
  step-IsCoherent _ _ (bump tags st) h = bump_tags-IsCoherent tags st h
  step-IsCoherent _ _ (read tags st) h = tag_version_token-IsCoherent tags st h
  step-IsCoherent _ _ (elsewhere st w grows) h = grown_server st w grows h
  step-IsCoherent _ _ (wait st time) h = h

  run-IsCoherent : (st st' : CacheState W) → CacheRun st st' → IsCoherent st → IsCoherent st'
  run-IsCoherent _ _ (start st) h = h
  run-IsCoherent _ _ (next st st' st'' before step) h =
      step-IsCoherent st' st'' step (run-IsCoherent st st' before h)

  on_token-IsOld :
      (tags : List Text) (st st' : CacheState W) (o : Option Text) (token : Text)
      → ((s : Text) → o ≡ some s → IsOld (version_at redis laws m st) (join_texts 31 tags) s)
      → on_token redis m tags st o ≡ (ok token, st')
      → IsOld (version_at redis laws m st) (join_texts 31 tags) token
  unfolding on_token
  on_token-IsOld tags st st' none token cached h = record {
    tags = tags;
    versions = version_at redis laws m st;
    joined = refl;
    told_by = read_token redis laws m tags st st' token h;
    bounded = λ t. omega arith;
  }
  on_token-IsOld tags st st' (some s) token cached h =
      cached token (ap some (same_token (ok s) refl (ap (λ p. p.0) h)))

  no_tokens : (st : CacheState W) → st.tokens ≡ [] → IsCoherent st
  unfolding IsCoherent
  no_tokens st empty = subst (All (EntryIsOld (version_at redis laws m st))) (sym empty) tt

  -- After any run of a process from an empty map, a token that TagVersionToken hands out tells
  -- versions that the server has reached by then, of the tags that were asked for or of tags that
  -- join to the same key.
  pub tag_version_token-IsOld :
      (st0 st st' : CacheState W) (t : Text) (ts : List Text) (token : Text)
      → CacheRun st0 st
      → st0.tokens ≡ []
      → tag_version_token redis m (t ∷ ts) st ≡ (ok token, st')
      → IsOld (version_at redis laws m st) (join_texts 31 (t ∷ ts)) token
  unfolding tag_version_token IsCoherent
  tag_version_token-IsOld st0 st st' t ts token run empty h =
      let key = join_texts 31 (t ∷ ts) in
      on_token-IsOld (t ∷ ts) st st' (tag_token_from_cache m st.now key st.tokens) token
        (λ s.
          cached_old (version_at redis laws m st) m st.now key s st.tokens
            (run-IsCoherent st0 st run (no_tokens st0 empty)))
        h
