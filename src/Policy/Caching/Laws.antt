-- ===== src/Policy/Caching/Laws.antt =====
-- What CacheRead and CacheInvalidate do to the requests and the responses that pass them.
use mathlib.Core.List.{append-nil, append_assoc}
use projectbook_backend.Base.{
  length-append, ℕ, ◌+◌, ◌≤◌, ◌<◌, ltb, ◌==◌, length, any, ◌≡◌, refl, sym, ap, ◌∙◌, true, false,
  Bool-cases, Option, none, some, List, [], ◌∷◌, ◌++◌, Result, ok, err, inl, inr, arith,
}
use projectbook_backend.Text.{Text, codes}
use projectbook_backend.Policy.Http.{Request, Reply, Handler, Services}
use projectbook_backend.Policy.Caching.{
  CachedResponse, CacheManager, CacheReadRuntime, Buffer, write_chunk, write_chunks, buffer_of,
  has_header, cacheable, cached_of, serve_and_store, on_cache_error, on_lookup, on_key,
  cache_read_policy, cache_invalidate_policy,
}
use projectbook_backend.Policy.Gates.Reach.{Agree}

module _ {W : Type 0} (s : Services W) (m : CacheManager W) (Q : Request → Type 0)
    (next next' : Handler W) (agree : Agree Q next next') (c : CacheReadRuntime) where
  open m use {build_key, get}

  serve_keep :
      (key : Text) → Agree Q (serve_and_store s m c key next) (serve_and_store s m c key next')
  unfolding serve_and_store
  serve_keep key r hs w q = rw (agree r hs w q) refl

  lookup_keep :
      (key : Text) (o : Result (Unit {0}) (Option CachedResponse))
      → Agree Q (on_lookup s m c key o next) (on_lookup s m c key o next')
  unfolding on_lookup on_cache_error
  lookup_keep key (err e) r hs w q = ground (arith, serve_keep key r hs w q)
  lookup_keep key (ok none) r hs w q = serve_keep key r hs w q
  lookup_keep key (ok (some cached)) r hs w q = refl

  key_keep : (o : Result (Unit {0}) Text) → Agree Q (on_key s m c o next) (on_key s m c o next')
  unfolding on_key on_cache_error
  key_keep (err e) r hs w q = ground (arith, agree r hs w q)
  key_keep (ok key) r hs w q = lookup_keep key (get key w).0 r hs _ q

  pub cache_read_keep : Agree Q (cache_read_policy s m c next) (cache_read_policy s m c next')
  unfolding cache_read_policy
  cache_read_keep r hs w q =
      ground (arith, agree r hs w q, key_keep (build_key r w).0 r hs (build_key r w).1 q)

module _ {W : Type 0} (s : Services W) (m : CacheManager W) (Q : Request → Type 0)
    (next next' : Handler W) (agree : Agree Q next next') where
  pub cache_invalidate_keep :
      Agree Q (cache_invalidate_policy s m next) (cache_invalidate_policy s m next')
  unfolding cache_invalidate_policy
  cache_invalidate_keep r hs w q = rw (agree r hs w q) refl

-- All that a handler wrote.
abbrev pub join : List Text → Text
join [] = []
join (p ∷ ps) = p ++ join ps

too_large_step : (n : ℕ) (b : Buffer) (p : Text) → b.too_large ≡ true → write_chunk n b p ≡ b
unfolding write_chunk
too_large_step n b p e = ground arith

too_large_stays :
    (n : ℕ) (b : Buffer) (ps : List Text) → b.too_large ≡ true → write_chunks n b ps ≡ b
unfolding write_chunks
too_large_stays n b [] e = refl
too_large_stays n b (p ∷ ps) e = rw (too_large_step n b p e) (too_large_stays n b ps e)

module _ (n : ℕ) (body p : Text) (pos : 0 < n) where
  overflow_step :
      ltb n (length body + length p) ≡ true
      → write_chunk n (record { body = body; too_large = false }) p
        ≡ record { body = body; too_large = true }
  unfolding write_chunk
  overflow_step e = ground arith

  fitting_step :
      ltb n (length body + length p) ≡ false
      → write_chunk n (record { body = body; too_large = false }) p
        ≡ record { body = body ++ p; too_large = false }
  unfolding write_chunk
  fitting_step e = ground arith

-- From a buffer within the limit: it overflows exactly when the rest does not fit, and else it
-- holds everything.
write_chunks_lem :
    (n : ℕ) (body : Text) (ps : List Text)
    → 0 < n
    → length body ≤ n
    → let b = write_chunks n (record { body = body; too_large = false }) ps in
      (b.too_large ≡ ltb n (length body + length (join ps)))
      × (b.too_large ≡ false → b.body ≡ body ++ join ps)
unfolding write_chunks
write_chunks_lem n body [] pos fits = (ground arith, λ _. sym (append-nil body))
write_chunks_lem n body (p ∷ ps) pos fits = elim (Bool-cases (ltb n (length body + length p))) [
  | inl over ↦
      let stop : write_chunks n (record { body = body; too_large = false }) (p ∷ ps)
          ≡ record { body = body; too_large = true } =
        ap (λ b. write_chunks n b ps) (overflow_step n body p pos over)
        ∙ too_large_stays n _ ps refl in
      rw stop (ground (arith, length-append p (join ps)), λ e. cc)
  | inr room ↦
      let (large, kept) =
        write_chunks_lem n (body ++ p) ps pos (ground (arith, length-append body p)) in
      let step : write_chunks n (record { body = body; too_large = false }) (p ∷ ps)
          ≡ write_chunks n (record { body = body ++ p; too_large = false }) ps =
        ap (λ b. write_chunks n b ps) (fitting_step n body p pos room) in
      rw step (
        large ∙ ap (ltb n) (omega (arith, length-append {0} body p, length-append {0} p (join ps))),
        λ e. kept e ∙ append_assoc body p (join ps),
      )
]

-- With a positive limit, the stored copy of a response is never cut short: an answer that CacheRead
-- may store has one of the route's statuses, was not streamed, sets no cookie, fits the limit, and
-- is stored whole with its status.
pub cacheable_complete :
    (c : CacheReadRuntime) (rep : Reply)
    → 0 < c.max_bytes
    → cacheable c rep ≡ true
    → (any (λ code. code == rep.status) c.cache_statuses ≡ true)
      × (rep.streaming ≡ false)
      × (has_header (codes "Set-Cookie") rep.headers ≡ false)
      × (length (join rep.chunks) ≤ c.max_bytes)
      × ((cached_of c rep).body ≡ join rep.chunks)
      × ((cached_of c rep).status ≡ rep.status)
unfolding cacheable cached_of buffer_of
cacheable_complete c rep pos h =
    let (large, kept) = write_chunks_lem c.max_bytes [] rep.chunks pos (omega arith) in
    (ground arith, ground arith, ground arith, ground (arith, large), kept (ground arith), refl)
