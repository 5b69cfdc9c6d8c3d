-- ===== src/Config/Fields.antt =====
-- internal/core/config/config.go, Lint: the checks on single fields of the configuration.
use projectbook_backend.Base.{not, ◌&&◌, ◌||◌, List, [], ◌∷◌}
use projectbook_backend.Text.{is_empty, trim_space}
use projectbook_backend.Text.Decimal.{pos}
use projectbook_backend.Config.{Config}
use projectbook_backend.Config.Rules.{
  LintRule, failed, at_most_zero, is_below_zero, greater, is_outside_unit, is_blank,
  starts_with_slash, contains_wildcard,
}

-- The service and its address.
unfoldable pub identity_rules : Config → List LintRule
unfolding trim_space
identity_rules c =
    (is_empty c.service_name, failed "service name cannot be empty")
    ∷ (is_blank c.http.addr, failed "http addr cannot be empty")
    ∷ []

-- The HTTP server.
unfoldable pub http_rules : Config → List LintRule
unfolding at_most_zero is_below_zero greater is_outside_unit contains_wildcard
http_rules c =
    (at_most_zero c.http.read_header_timeout, failed "http read header timeout must be > 0")
    ∷ (
      at_most_zero c.http.read_timeout || at_most_zero c.http.write_timeout,
      failed "http read/write timeout must be > 0",
    )
    ∷ (at_most_zero c.http.idle_timeout, failed "http idle timeout must be > 0")
    ∷ (at_most_zero c.http.shutdown_timeout, failed "http shutdown timeout must be > 0")
    ∷ (greater (pos 4096) c.http.max_header_bytes, failed "http max header bytes too low")
    ∷ (
      is_below_zero c.http.middleware.max_body_bytes,
      failed "http middleware max body bytes must be >= 0",
    )
    ∷ (
      is_below_zero c.http.middleware.request_timeout,
      failed "http middleware request timeout must be >= 0",
    )
    ∷ (
      not (at_most_zero c.http.middleware.request_timeout)
          && greater c.http.middleware.request_timeout c.http.write_timeout,
      failed "http middleware request timeout cannot exceed http write timeout",
    )
    ∷ (
      is_outside_unit c.http.middleware.access_log.sample_rate,
      failed "http middleware access log sample rate must be in [0,1]",
    )
    ∷ (
      is_below_zero c.http.middleware.access_log.slow_threshold,
      failed "http middleware access log slow threshold must be >= 0",
    )
    ∷ (
      is_below_zero c.http.middleware.cors.max_age,
      failed "http middleware cors max age must be >= 0",
    )
    ∷ (
      c.http.middleware.cors.allow_credentials
          && contains_wildcard c.http.middleware.cors.allow_origins,
      failed "http middleware cors allow credentials cannot be used with wildcard allow origins",
    )
    ∷ (
      is_below_zero c.cache.tag_version_cache_ttl,
      failed "cache tag version cache ttl must be >= 0",
    )
    ∷ []

-- Which stores are enabled, limits, and the permission resolver.
unfoldable pub store_rules : Config → List LintRule
unfolding at_most_zero
store_rules c =
    (not c.postgres.enabled, failed "postgres must be enabled for api startup")
    ∷ (not c.redis.enabled, failed "redis must be enabled for api startup")
    ∷ (not c.mongo.enabled, failed "mongo must be enabled for api startup")
    ∷ (c.auth.enabled && not c.redis.enabled, failed "auth enabled requires redis enabled")
    ∷ (c.auth.enabled && not c.postgres.enabled, failed "auth enabled requires postgres enabled")
    ∷ (
      c.rate_limit.enabled && not c.redis.enabled,
      failed "ratelimit enabled requires redis enabled",
    )
    ∷ (c.cache.enabled && not c.redis.enabled, failed "cache enabled requires redis enabled")
    ∷ (at_most_zero c.rate_limit.default_limit, failed "ratelimit default limit must be > 0")
    ∷ (at_most_zero c.rate_limit.default_window, failed "ratelimit default window must be > 0")
    ∷ (at_most_zero c.cache.default_max_bytes, failed "cache default max bytes must be > 0")
    ∷ (
      c.permissions.enabled && not c.postgres.enabled,
      failed "permissions enabled requires postgres enabled",
    )
    ∷ (
      at_most_zero c.permissions.db_query_timeout,
      failed "permissions db query timeout must be > 0",
    )
    ∷ (at_most_zero c.permissions.redis_ttl, failed "permissions redis ttl must be > 0")
    ∷ (
      at_most_zero c.permissions.backfill_timeout,
      failed "permissions backfill timeout must be > 0",
    )
    ∷ []

-- MongoDB.
unfoldable pub mongo_rules : Config → List LintRule
unfolding at_most_zero is_below_zero greater trim_space
mongo_rules c =
    (is_blank c.mongo.url, failed "mongo url cannot be empty")
    ∷ (is_blank c.mongo.database, failed "mongo database cannot be empty")
    ∷ (at_most_zero c.mongo.max_pool_size, failed "mongo max pool size must be > 0")
    ∷ (is_below_zero c.mongo.min_pool_size, failed "mongo min pool size must be >= 0")
    ∷ (
      greater c.mongo.min_pool_size c.mongo.max_pool_size,
      failed "mongo min pool size cannot exceed max pool size",
    )
    ∷ (at_most_zero c.mongo.connect_timeout, failed "mongo connect timeout must be > 0")
    ∷ (at_most_zero c.mongo.startup_ping_timeout, failed "mongo startup ping timeout must be > 0")
    ∷ (at_most_zero c.mongo.health_check_timeout, failed "mongo health check timeout must be > 0")
    ∷ (at_most_zero c.mongo.bootstrap_timeout, failed "mongo bootstrap timeout must be > 0")
    ∷ []

-- In production a limiter or a cache that is enabled fails closed.
unfoldable pub fail_open_rules : Config → List LintRule
fail_open_rules c =
    (
      c.rate_limit.enabled && c.rate_limit.fail_open,
      failed "ratelimit fail-open cannot be enabled in prod",
    )
    ∷ (c.cache.enabled && c.cache.fail_open, failed "cache fail-open cannot be enabled in prod")
    ∷ []

-- PostgreSQL.
unfoldable pub postgres_rules : Config → List LintRule
unfolding at_most_zero is_below_zero greater trim_space
postgres_rules c =
    (is_blank c.postgres.url, failed "postgres url cannot be empty")
    ∷ (at_most_zero c.postgres.max_conns, failed "postgres max conns must be > 0")
    ∷ (is_below_zero c.postgres.min_conns, failed "postgres min conns must be >= 0")
    ∷ (
      greater c.postgres.min_conns c.postgres.max_conns,
      failed "postgres min conns cannot exceed max conns",
    )
    ∷ (is_below_zero c.postgres.conn_max_lifetime, failed "postgres conn max lifetime must be >= 0")
    ∷ (
      is_below_zero c.postgres.conn_max_idle_time,
      failed "postgres conn max idle time must be >= 0",
    )
    ∷ (
      at_most_zero c.postgres.startup_ping_timeout,
      failed "postgres startup ping timeout must be > 0",
    )
    ∷ (
      at_most_zero c.postgres.health_check_timeout,
      failed "postgres health check timeout must be > 0",
    )
    ∷ []

-- Redis.
unfoldable pub redis_rules : Config → List LintRule
unfolding at_most_zero is_below_zero greater trim_space
redis_rules c =
    (is_blank c.redis.addr, failed "redis addr cannot be empty")
    ∷ (is_below_zero c.redis.db, failed "redis db must be >= 0")
    ∷ (at_most_zero c.redis.pool_size, failed "redis pool size must be > 0")
    ∷ (is_below_zero c.redis.min_idle_conns, failed "redis min idle conns must be >= 0")
    ∷ (
      greater c.redis.min_idle_conns c.redis.pool_size,
      failed "redis min idle conns cannot exceed pool size",
    )
    ∷ (at_most_zero c.redis.dial_timeout, failed "redis dial timeout must be > 0")
    ∷ (at_most_zero c.redis.read_timeout, failed "redis read timeout must be > 0")
    ∷ (at_most_zero c.redis.write_timeout, failed "redis write timeout must be > 0")
    ∷ (at_most_zero c.redis.startup_ping_timeout, failed "redis startup ping timeout must be > 0")
    ∷ (at_most_zero c.redis.health_check_timeout, failed "redis health check timeout must be > 0")
    ∷ []

-- The path of the metrics.
unfoldable pub metrics_path_rules : Config → List LintRule
unfolding starts_with_slash
metrics_path_rules c =
    (is_empty c.metrics.path, failed "metrics path cannot be empty")
    ∷ (not (starts_with_slash c.metrics.path), failed "metrics path must start with '/'")
    ∷ []

-- In production the metrics have a token.
unfoldable pub metrics_token_rules : Config → List LintRule
unfolding trim_space
metrics_token_rules c =
    (
      c.metrics.enabled && is_blank c.metrics.auth_token,
      failed "metrics auth token cannot be empty in prod when metrics is enabled",
    )
    ∷ []

-- Limits of the authentication routes and times to live.
unfoldable pub tuning_rules : Config → List LintRule
unfolding at_most_zero
tuning_rules c =
    (
      at_most_zero c.tuning.auth_rate_limit.window,
      failed "tuning auth rate-limit window must be > 0",
    )
    ∷ (
      at_most_zero c.tuning.auth_rate_limit.signup_per_window
          || at_most_zero c.tuning.auth_rate_limit.login_per_window
          || at_most_zero c.tuning.auth_rate_limit.verify_per_window
          || at_most_zero c.tuning.auth_rate_limit.password_per_window
          || at_most_zero c.tuning.auth_rate_limit.refresh_per_window
          || at_most_zero c.tuning.auth_rate_limit.change_pass_per_window
          || at_most_zero c.tuning.auth_rate_limit.logout_per_window,
      failed "tuning auth rate-limit values must be > 0",
    )
    ∷ (
      at_most_zero c.tuning.cache_ttl.fast_read
          || at_most_zero c.tuning.cache_ttl.standard_read
          || at_most_zero c.tuning.cache_ttl.dashboard,
      failed "tuning cache ttl values must be > 0",
    )
    ∷ []
