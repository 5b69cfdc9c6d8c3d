-- ===== src/Cache/Fresh.antt =====
-- What BumpTags of internal/core/cache/manager.go does to the keys of BuildReadKeyWithTemplate: a key
-- that is built with a bumped tag afterwards is none of those that were built before.
use mathlib.Core.Path.{subst}
use projectbook_backend.Base.{
  ℕ, ◌≤◌, ◌<◌, ◌≡◌, ◌≢◌, ◌⊎◌, refl, sym, ap, ◌∙◌, true, false, List, [], ◌∷◌, Result, ok, err,
  arith,
}
use projectbook_backend.Text.{Text, is_empty, mem_text}
use projectbook_backend.Text.Unique.{unique_strings}
use projectbook_backend.Cache.{ReadKeyTemplate}
use projectbook_backend.Cache.Tags.{KeyRequest, KeyError, resolve_tag_names}
use projectbook_backend.Cache.Store.{RedisClient, Manager, CacheState, tag_version_token, bump_tags}
use projectbook_backend.Cache.Key.{
  read_key, key_of_token, key_of_tags, build_read_key_with_template,
}
use projectbook_backend.Cache.Versions.{token_text, token_text-injective, token_text-is_empty}
use projectbook_backend.Cache.Counters.{
  CounterLaws, version_at, same_token, no_tag, next_token, bumped_version,
}
use projectbook_backend.Cache.Digest.{Collides, read_key-differs}

member_full :
    (s : Text) (ts : List Text) (v : Text → ℕ)
    → mem_text s ts ≡ true
    → is_empty (token_text ts v) ≡ false
member_full s [] v h = absurd (no_tag s h)
member_full s (t ∷ ts) v h = token_text-is_empty t ts v

module _ {W : Type 0} (redis : RedisClient W) (laws : CounterLaws redis) (m : Manager) where
  built :
      (digest : Text → Text) (r : KeyRequest) (route : Text) (t : ReadKeyTemplate)
      (p : Result KeyError Text × CacheState W) (st : CacheState W) (key : Text)
      → key_of_token digest redis m r route t p ≡ (ok key, st)
      → (token : Text) × (p ≡ (ok token, st)) × (key ≡ read_key digest m r route t token)
  built digest r route t (ok token, st') st key h =
      (token, ap (λ q. (ok token, q.1)) h, same_token (ok key) refl (sym (ap (λ q. q.0) h)))
  built digest r route t (err e, st') st key h = cc

  later :
      (tag : Text) (tags : List Text) (st : CacheState W) (older : Text → ℕ)
      → mem_text tag tags ≡ true
      → token_text tags (version_at redis laws m st) ≡ token_text tags older
      → older tag < version_at redis laws m st tag
      → ⊥
  later tag tags st older used e less =
      let same = token_text-injective tag tags (version_at redis laws m st) older used e in
      omega arith

  built_with_tags :
      (digest : Text → Text) (r : KeyRequest) (route : Text) (t : ReadKeyTemplate)
      (tags : List Text) (st st' : CacheState W) (key : Text)
      → resolve_tag_names r t.tag_specs ≡ ok tags
      → build_read_key_with_template digest redis m r route t st ≡ (ok key, st')
      → key_of_token digest redis m r route t (tag_version_token redis m tags st) ≡ (ok key, st')
  unfolding build_read_key_with_template
  built_with_tags digest r route t tags st st' key resolved h =
      ap (key_of_tags digest redis m r route t st) (sym resolved) ∙ h

  -- Once BumpTags succeeded, a key that is built with one of the bumped tags is different from every
  -- key that the same request could have before, at whatever versions of its tags, provided that the
  -- version of that tag was at most the one on the server; or two texts have one digest.
  pub bump_tags-build_read_key_with_template :
      (digest : Text → Text) (r : KeyRequest) (route : Text) (t : ReadKeyTemplate)
      (bumped_tags tags : List Text) (tag : Text) (st st1 st2 : CacheState W) (key : Text)
      (older : Text → ℕ)
      → bump_tags redis m bumped_tags st ≡ (ok tt, st1)
      → mem_text tag (unique_strings bumped_tags) ≡ true
      → resolve_tag_names r t.tag_specs ≡ ok tags
      → mem_text tag tags ≡ true
      → build_read_key_with_template digest redis m r route t st1 ≡ (ok key, st2)
      → older tag ≤ version_at redis laws m st tag
      → (key ≢ read_key digest m r route t (token_text tags older)) ⊎ Collides digest
  bump_tags-build_read_key_with_template digest r route t bumped_tags tags tag st st1 st2 key older
        bump found resolved used build before =
      let (more, dropped) = bumped_version redis laws m bumped_tags tag st st1 bump found in
      let (token, e, same) =
        built digest r route t (tag_version_token redis m tags st1) st2 key
          (built_with_tags digest r route t tags st1 st2 key resolved build) in
      let (fresh, full) = next_token redis laws m tags st1 st2 token tag dropped used e in
      let newer : token ≢ token_text tags older =
        λ q. later tag tags st1 older used (sym fresh ∙ q) (omega arith) in
      subst (λ k. (k ≢ read_key digest m r route t (token_text tags older)) ⊎ Collides digest)
        (sym same)
        (read_key-differs digest m route t r token (token_text tags older) full
          (member_full tag tags older used) newer)
