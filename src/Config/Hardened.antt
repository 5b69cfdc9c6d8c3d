-- ===== src/Config/Hardened.antt =====
-- What a production configuration is that Lint of internal/core/config/config.go accepts.
use projectbook_backend.Base.{
  ℕ, ◌≤◌, ◌<◌, ltb, length, ◌≡◌, ◌≢◌, ◌⊎◌, refl, sym, ◌∙◌, inl, inr, Bool, true, false, not, ◌&&◌,
  ◌||◌, List, ◌++◌, All, ok, arith,
}
use projectbook_backend.Text.{Text, codes, text_eq, trim_space, equal_fold}
use projectbook_backend.Text.Laws.{text_eq_iff}
use projectbook_backend.Text.Decimal.{ℤ, pos, negsuc}
use projectbook_backend.Config.{Config}
use projectbook_backend.Config.Env.{Environment, Parsers}
use projectbook_backend.Config.Rules.{LintRule, at_most_zero, is_below_zero, greater}
use projectbook_backend.Config.Fields.{
  http_rules, store_rules, mongo_rules, fail_open_rules, postgres_rules, redis_rules,
}
use projectbook_backend.Config.Sections.{NetParsers, has_no_host}
use projectbook_backend.Config.Production.{
  is_production_environment, requires_hardening, context_secret, dev_secret, is_local_url,
  required_variable_rules, secret_rules, base_url_rules, strong_token_rules, hardening_rules,
}
use projectbook_backend.Config.Lint.{
  lint_sections, lint, Passes, All-append, rules_if, all_rules, first_failure-All, All-sections,
}

-- Both are numbers from 0 on, and the first is at most the second.
pub record IsWithin (low high : ℤ) : Type 0 where
  pub bottom : ℕ
  pub top : ℕ
  pub low_eq : low ≡ pos bottom
  pub high_eq : high ≡ pos top
  pub ordered : bottom ≤ top
  pub positive : 0 < top

pub record IsHardened (p : NetParsers) (env : Environment) (c : Config) : Type 0 where
  pub long_secret : 32 ≤ length (context_secret env)
  pub own_secret : context_secret env ≢ dev_secret
  pub absolute_url : has_no_host (p.parse_url (trim_space c.email.web_app_base_url)) ≡ false
  pub public_url : is_local_url (p.parse_url (trim_space c.email.web_app_base_url)) ≡ false
  pub guarded_metrics :
      (c.metrics.enabled ≡ false) ⊎ (24 ≤ length (trim_space c.metrics.auth_token))
  pub limiter_closed : (c.rate_limit.enabled ≡ false) ⊎ (c.rate_limit.fail_open ≡ false)
  pub cache_closed : (c.cache.enabled ≡ false) ⊎ (c.cache.fail_open ≡ false)
  pub postgres_on : c.postgres.enabled ≡ true
  pub redis_on : c.redis.enabled ≡ true
  pub mongo_on : c.mongo.enabled ≡ true
  pub postgres_pool : IsWithin c.postgres.min_conns c.postgres.max_conns
  pub redis_pool : IsWithin c.redis.min_idle_conns c.redis.pool_size
  pub mongo_pool : IsWithin c.mongo.min_pool_size c.mongo.max_pool_size
  pub timeouts : IsWithin c.http.middleware.request_timeout c.http.write_timeout

pool-IsWithin :
    (low high : ℤ)
    → at_most_zero high ≡ false
    → is_below_zero low ≡ false
    → greater low high ≡ false
    → IsWithin low high
unfolding at_most_zero is_below_zero greater
pool-IsWithin (pos a) (pos b) h k g = record {
  bottom = a;
  top = b;
  low_eq = refl;
  high_eq = refl;
  ordered = ground arith;
  positive = ground arith;
}
pool-IsWithin (pos a) (negsuc b) h k g = cc
pool-IsWithin (negsuc a) high h k g = cc

timeout-IsWithin :
    (low high : ℤ)
    → at_most_zero high ≡ false
    → is_below_zero low ≡ false
    → not (at_most_zero low) && greater low high ≡ false
    → IsWithin low high
unfolding at_most_zero is_below_zero greater
timeout-IsWithin (pos a) (pos b) h k g = record {
  bottom = a;
  top = b;
  low_eq = refl;
  high_eq = refl;
  ordered = ground arith;
  positive = ground arith;
}
timeout-IsWithin (pos a) (negsuc b) h k g = cc
timeout-IsWithin (negsuc a) high h k g = cc

not_both : (a b : Bool) → a && b ≡ false → (a ≡ false) ⊎ (b ≡ false)
not_both false b h = inl refl
not_both true b h = inr h

is_on : (b : Bool) → not b ≡ false → b ≡ true
is_on true h = refl
is_on false h = cc

or_first : (a b : Bool) → a || b ≡ false → a ≡ false
or_first false b h = refl
or_first true b h = cc

or_second : (a b : Bool) → a || b ≡ false → b ≡ false
or_second false b h = h
or_second true b h = cc

at_least : (n m : ℕ) → ltb n m ≡ false → m ≤ n
at_least n m h = ground arith

http-IsWithin :
    (c : Config)
    → All Passes (http_rules c)
    → IsWithin c.http.middleware.request_timeout c.http.write_timeout
unfolding http_rules
http-IsWithin c (_, (h2, (_, (_, (_, (_, (h7, (h8, _)))))))) =
    timeout-IsWithin c.http.middleware.request_timeout c.http.write_timeout
      (or_second (at_most_zero c.http.read_timeout) (at_most_zero c.http.write_timeout) h2) h7 h8

mongo-IsWithin :
    (c : Config) → All Passes (mongo_rules c) → IsWithin c.mongo.min_pool_size c.mongo.max_pool_size
unfolding mongo_rules
mongo-IsWithin c (_, (_, (h3, (h4, (h5, _))))) =
    pool-IsWithin c.mongo.min_pool_size c.mongo.max_pool_size h3 h4 h5

postgres-IsWithin :
    (c : Config)
    → All Passes (postgres_rules c)
    → IsWithin c.postgres.min_conns c.postgres.max_conns
unfolding postgres_rules
postgres-IsWithin c (_, (h2, (h3, (h4, _)))) =
    pool-IsWithin c.postgres.min_conns c.postgres.max_conns h2 h3 h4

redis-IsWithin :
    (c : Config) → All Passes (redis_rules c) → IsWithin c.redis.min_idle_conns c.redis.pool_size
unfolding redis_rules
redis-IsWithin c (_, (_, (h3, (h4, (h5, _))))) =
    pool-IsWithin c.redis.min_idle_conns c.redis.pool_size h3 h4 h5

stores_on :
    (c : Config)
    → All Passes (store_rules c)
    → (c.postgres.enabled ≡ true) × (c.redis.enabled ≡ true) × (c.mongo.enabled ≡ true)
unfolding store_rules
stores_on c (h1, (h2, (h3, _))) =
    (is_on c.postgres.enabled h1, is_on c.redis.enabled h2, is_on c.mongo.enabled h3)

closed :
    (c : Config)
    → All Passes (fail_open_rules c)
    → ((c.rate_limit.enabled ≡ false) ⊎ (c.rate_limit.fail_open ≡ false))
      × ((c.cache.enabled ≡ false) ⊎ (c.cache.fail_open ≡ false))
unfolding fail_open_rules
closed c (h1, (h2, _)) = (
  not_both c.rate_limit.enabled c.rate_limit.fail_open h1,
  not_both c.cache.enabled c.cache.fail_open h2,
)

different : (a b : Text) → text_eq a b ≡ false → a ≢ b
different a b h e = true_false (sym ((text_eq_iff a b).1 e) ∙ h)
  where
    true_false : true ≡ false → ⊥
    true_false q = cc

secret_facts :
    (env : Environment)
    → All Passes (secret_rules env)
    → (32 ≤ length (context_secret env)) × (context_secret env ≢ dev_secret)
unfolding secret_rules
secret_facts env (h1, (h2, _)) =
    (at_least (length (context_secret env)) 32 h1, different (context_secret env) dev_secret h2)

url_facts :
    (p : NetParsers) (raw : Text)
    → All Passes (base_url_rules p raw)
    → (has_no_host (p.parse_url (trim_space raw)) ≡ false)
      × (is_local_url (p.parse_url (trim_space raw)) ≡ false)
unfolding base_url_rules
url_facts p raw (_, (h2, (h3, _))) = (h2, h3)

token_long : (raw : Text) → All Passes (strong_token_rules raw) → 24 ≤ length (trim_space raw)
unfolding strong_token_rules
token_long raw (_, (_, (h3, _))) = at_least (length (trim_space raw)) 24 h3

metrics_guarded :
    (b : Bool) (raw : Text)
    → All Passes (rules_if b (strong_token_rules raw))
    → (b ≡ false) ⊎ (24 ≤ length (trim_space raw))
metrics_guarded false raw h = inl refl
metrics_guarded true raw h = inr (token_long raw h)

hardening_sections :
    (p : NetParsers) (env : Environment) (c : Config)
    → All Passes (hardening_rules p env c)
    → All Passes (secret_rules env)
      × All Passes (base_url_rules p c.email.web_app_base_url)
      × All Passes (rules_if c.metrics.enabled (strong_token_rules c.metrics.auth_token))
unfolding hardening_rules
hardening_sections p env c h =
    let token = rules_if c.metrics.enabled (strong_token_rules c.metrics.auth_token) in
    let required = required_variable_rules env c in
    let url = base_url_rules p c.email.web_app_base_url in
    let (h1, rest) = All-append (secret_rules env) (url ++ (token ++ required)) h in
    let (h2, rest2) = All-append url (token ++ required) rest in
    let (h3, _) = All-append token required rest2 in (h1, h2, h3)

asked :
    (b : Bool) (rules : List LintRule) → b ≡ true → All Passes (rules_if b rules) → All Passes rules
asked true rules e h = h
asked false rules e h = cc

or_left : (a b : Bool) → a ≡ true → a || b ≡ true
or_left true b e = refl
or_left false b e = cc

hardened_in_production :
    (c : Config) → is_production_environment c.env ≡ true → requires_hardening c ≡ true
unfolding requires_hardening
hardened_in_production c e =
    or_left (is_production_environment c.env) (equal_fold (trim_space c.profile) (codes "prod")) e

sections_pass :
    (p : NetParsers) (q : Parsers) (env : Environment) (c : Config)
    → lint p q env c ≡ ok tt
    → All (All Passes) (lint_sections p q env c)
unfolding lint
sections_pass p q env c h =
    All-sections (lint_sections p q env c)
      (first_failure-All (all_rules (lint_sections p q env c)) h)

-- A configuration with the environment of production that Lint accepts has a context secret of 32 bytes
-- or more that is not the one for development, a web address that is absolute and not local, metrics
-- that are off or have a token of 24 bytes or more, a limiter and a cache that are off or fail closed,
-- all three stores, pools and a request timeout within their bounds.
pub lint-IsHardened :
    (p : NetParsers) (q : Parsers) (env : Environment) (c : Config)
    → lint p q env c ≡ ok tt
    → is_production_environment c.env ≡ true
    → IsHardened p env c
unfolding lint_sections
lint-IsHardened p q env c accepted production =
    let (
      _,
      (
        _,
        (http, (_, (_, (_, (hard, (stores, (mongo, (fail_open, (_, (postgres, (redis, _))))))))))),
      ),
    ) =
      sections_pass p q env c accepted in
    let (secrets, urls, metrics) = hardening_sections p env c (
      asked (requires_hardening c) (hardening_rules p env c) (hardened_in_production c production)
        hard) in
    let (limiter, cache) =
      closed c (asked (is_production_environment c.env) (fail_open_rules c) production fail_open) in
    let (on1, on2, on3) = stores_on c stores in
    record {
      long_secret = (secret_facts env secrets).0;
      own_secret = (secret_facts env secrets).1;
      absolute_url = (url_facts p c.email.web_app_base_url urls).0;
      public_url = (url_facts p c.email.web_app_base_url urls).1;
      guarded_metrics = metrics_guarded c.metrics.enabled c.metrics.auth_token metrics;
      limiter_closed = limiter;
      cache_closed = cache;
      postgres_on = on1;
      redis_on = on2;
      mongo_on = on3;
      postgres_pool = postgres-IsWithin c postgres;
      redis_pool = redis-IsWithin c redis;
      mongo_pool = mongo-IsWithin c mongo;
      timeouts = http-IsWithin c http;
    }
