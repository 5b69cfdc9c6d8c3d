-- ===== src/Policy/CacheControl/Sound.antt =====
-- What holds of the headers that buildCacheControl in internal/core/policy/cachecontrol.go builds.
use projectbook_backend.Base.{
  ℕ, ◌==◌, ◌≡◌, refl, sym, ◌∙◌, inl, inr, Bool, true, false, not, ◌&&◌, ◌||◌, Bool-cases, List, [],
  ◌∷◌, ◌++◌, all, any, length, ok, All, arith,
}
use projectbook_backend.Base.Rows.{guard-Yields, ok-Yields}
use projectbook_backend.Text.{Text, codes, is_empty, trim_space, to_lower, text_eq, mem_text}
use projectbook_backend.Text.Unique.{HasNoRepeat}
use projectbook_backend.Policy.CacheControl.{
  Duration, is_positive, whole_seconds, CacheControlConfig, Directive, plain, freshness,
  immutable_content, normalize_from, normalize_header_list, when, timed, join, pieces, directives,
  any_negative, any_freshness, build_cache_control,
}

-- The directive gives a lifetime to a stored response.
abbrev pub is_lifetime : Directive → Bool
is_lifetime (plain t) = false
is_lifetime (freshness t n) = true
is_lifetime immutable_content = true

all-append :
    (p : Directive → Bool) (xs ys : List Directive)
    → all p xs ≡ true
    → all p ys ≡ true
    → all p (xs ++ ys) ≡ true
all-append p [] ys h k = k
all-append p (x ∷ xs) ys h k = ground (arith, h, all-append p xs ys)

abbrev lifeless : Directive → Bool
lifeless d = not (is_lifetime d)

-- A directive that is kept under a condition, where the test holds of it under that condition.
all-when :
    (p : Directive → Bool) (b : Bool) (d : Directive)
    → (b ≡ true → p d ≡ true)
    → all p (when b d) ≡ true
all-when p true d h = ground (arith, h refl)
all-when p false d h = refl

-- It is the directive of this name, without a value.
abbrev pub is_plain : Text → Directive → Bool
is_plain t (plain u) = text_eq u t
is_plain t (freshness u n) = false
is_plain t immutable_content = false

abbrev without : Text → Directive → Bool
without t d = not (is_plain t d)

all-join :
    (p : Directive → Bool) (dss : List (List Directive))
    → All (λ ds. all p ds ≡ true) dss
    → all p (join dss) ≡ true
all-join p [] h = refl
all-join p (ds ∷ dss) h = all-append p ds (join dss) h.0 (all-join p dss h.1)

stored : (a b : Bool) → a && not b ≡ true → b ≡ false
stored a b h = ground arith

timed-all :
    (p : Directive → Bool) (cfg : CacheControlConfig) (t : Text) (d : Duration)
    → (cfg.no_store ≡ false → (n : ℕ) → p (freshness t n) ≡ true)
    → all p (timed cfg t d) ≡ true
unfolding timed
timed-all p cfg t d h =
    all-when p (is_positive d && not cfg.no_store) (freshness t (whole_seconds d))
      (λ e. h (stored _ _ e) (whole_seconds d))

-- What holds of each directive under the condition that it is appended under holds of all.
directives-all :
    (p : Directive → Bool) (cfg : CacheControlConfig)
    → (cfg.is_public ≡ true → p (plain (codes "public")) ≡ true)
    → (cfg.is_private ≡ true → p (plain (codes "private")) ≡ true)
    → p (plain (codes "no-store")) ≡ true
    → p (plain (codes "no-cache")) ≡ true
    → p (plain (codes "must-revalidate")) ≡ true
    → (cfg.no_store ≡ false → (t : Text) (n : ℕ) → p (freshness t n) ≡ true)
    → (cfg.no_store ≡ false → p immutable_content ≡ true)
    → all p (directives cfg) ≡ true
unfolding directives pieces
directives-all p cfg public_ok private_ok no_store_ok no_cache_ok revalidate_ok fresh_ok
      immutable_ok =
    all-join p (pieces cfg) (
      all-when p cfg.is_public _ public_ok,
      (
        all-when p cfg.is_private _ private_ok,
        (
          all-when p cfg.no_store _ (λ _. no_store_ok),
          (
            all-when p cfg.no_cache _ (λ _. no_cache_ok),
            (
              timed-all p cfg _ cfg.max_age (λ e n. fresh_ok e _ n),
              (
                timed-all p cfg _ cfg.shared_max_age (λ e n. fresh_ok e _ n),
                (
                  timed-all p cfg _ cfg.stale_while_revalidate (λ e n. fresh_ok e _ n),
                  (
                    timed-all p cfg _ cfg.stale_if_error (λ e n. fresh_ok e _ n),
                    (
                      all-when p cfg.must_revalidate _ (λ _. revalidate_ok),
                      (
                        all-when p (cfg.immutable && not cfg.no_store) immutable_content
                            (λ e. immutable_ok (stored _ _ e)),
                        tt,
                      ),
                    ),
                  ),
                ),
              ),
            ),
          ),
        ),
      ),
    )

differ : (b : Bool) {A : Type 0} → b ≡ false → b ≡ true → A
differ b h e = absurd (true_is_not_false (sym e ∙ h))
  where
    true_is_not_false : true ≡ false → ⊥
    true_is_not_false e = cc

directives-lifeless :
    (cfg : CacheControlConfig) → cfg.no_store ≡ true → all lifeless (directives cfg) ≡ true
directives-lifeless cfg h =
    directives-all lifeless cfg (λ _. refl) (λ _. refl) refl refl refl
      (λ e t n. differ cfg.no_store e h) (λ e. differ cfg.no_store e h)

directives-public :
    (cfg : CacheControlConfig)
    → cfg.is_public ≡ false
    → all (without (codes "public")) (directives cfg) ≡ true
unfolding text_eq
directives-public cfg h =
    directives-all (without (codes "public")) cfg (differ cfg.is_public h) (λ _. refl) refl refl
      refl (λ _ t n. refl) (λ _. refl)

directives-private :
    (cfg : CacheControlConfig)
    → cfg.is_private ≡ false
    → all (without (codes "private")) (directives cfg) ≡ true
unfolding text_eq
directives-private cfg h =
    directives-all (without (codes "private")) cfg (λ _. refl) (differ cfg.is_private h) refl refl
      refl (λ _ t n. refl) (λ _. refl)

any_of_all :
    (p : Directive → Bool) (ds : List Directive) → all (λ d. not (p d)) ds ≡ true → any p ds ≡ false
any_of_all p [] h = refl
any_of_all p (d ∷ ds) h = ground (arith, h, any_of_all p ds)

both_false :
    (a b c d : Bool)
    → a && b ≡ false
    → (a ≡ false → c ≡ false)
    → (b ≡ false → d ≡ false)
    → c && d ≡ false
both_false a b c d h f g = ground (arith, h, f, g)

-- No configuration with one audience at most gives both directives.
directives-one_audience :
    (cfg : CacheControlConfig)
    → cfg.is_public && cfg.is_private ≡ false
    → any (is_plain (codes "public")) (directives cfg)
        && any (is_plain (codes "private")) (directives cfg)
      ≡ false
directives-one_audience cfg h =
    both_false _ _ _ _ h
      (λ e. any_of_all (is_plain (codes "public")) (directives cfg) (directives-public cfg e))
      (λ e. any_of_all (is_plain (codes "private")) (directives cfg) (directives-private cfg e))

pub lowered : List Text → List Text
lowered [] = []
lowered (t ∷ ts) = to_lower t ∷ lowered ts

normalize_from-HasNoRepeat :
    (seen items : List Text) → HasNoRepeat seen (lowered (normalize_from seen items))
unfolding normalize_from HasNoRepeat lowered
normalize_from-HasNoRepeat seen [] = tt
normalize_from-HasNoRepeat seen (item ∷ items) =
    elim (Bool-cases (is_empty (trim_space item) || mem_text (to_lower (trim_space item)) seen)) [
      | inl e ↦ rw e (normalize_from-HasNoRepeat seen items)
      | inr e ↦
          rw e (
            ground (arith, e),
            normalize_from-HasNoRepeat (to_lower (trim_space item) ∷ seen) items,
          )
    ]

-- What holds of directives and header names that are built.
pub record IsSound (cfg : CacheControlConfig) (built : List Directive × List Text) : Type 0 where
  pub one_audience :
      any (is_plain (codes "public")) built.0 && any (is_plain (codes "private")) built.0 ≡ false
  pub not_stored : cfg.no_store ≡ true → all (λ d. not (is_lifetime d)) built.0 ≡ true
  pub distinct : HasNoRepeat [] (lowered built.1)
  pub some_set : (length built.0 == 0) && (length built.1 == 0) ≡ false

unset : (b : Bool) → not b ≡ true → b ≡ false
unset b h = ground arith

-- The directives that are built are not public and private at once; where no-store is set none of
-- them gives a stored response a lifetime; no name stands twice in Vary, up to letter case; and there is a
-- directive or a name.
pub build_cache_control-IsSound :
    (cfg : CacheControlConfig) (built : List Directive × List Text)
    → build_cache_control cfg ≡ ok built
    → IsSound cfg built
unfolding build_cache_control normalize_header_list
build_cache_control-IsSound cfg = guard-Yields _ (not (any_negative cfg)) _ _ (λ h0.
    guard-Yields _ (not (cfg.is_public && cfg.is_private)) _ _ (λ one.
      guard-Yields _ (not (cfg.no_store && any_freshness cfg)) _ _ (λ h1.
        guard-Yields _
          (not ((length (directives cfg) == 0) && (length (normalize_header_list cfg.vary) == 0))) _
          _
          (λ set.
            ok-Yields _ (directives cfg, normalize_header_list cfg.vary) _ refl
              (record {
                one_audience = directives-one_audience cfg (unset _ one);
                not_stored = directives-lifeless cfg;
                distinct = normalize_from-HasNoRepeat [] cfg.vary;
                some_set = unset _ set;
              })))))
