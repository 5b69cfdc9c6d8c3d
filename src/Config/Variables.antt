-- ===== src/Config/Variables.antt =====
-- internal/core/config/config.go, Lint: the checks on the variables of the environment as they are set.
use projectbook_backend.Base.{Bool, false, Option, none, some, List, [], ◌∷◌, ◌++◌}
use projectbook_backend.Text.{Text, codes, trim_space}
use projectbook_backend.Text.Decimal.{ℤ, parse_int}
use projectbook_backend.Config.Env.{Environment, Parsers, parse_bool, parse_int_32, is_invalid}
use projectbook_backend.Config.Rules.{LintRule, failed, invalid_variable, is_blank, is_below_zero}

-- lintBoolEnv and its likes, for the parser of the type.
unfoldable pub variable_rule {ℓ} : {A : Type ℓ} → (Text → Option A) → Environment → Text → LintRule
unfolding is_invalid
variable_rule parse env key = (is_invalid parse env key, invalid_variable key)

abbrev is_negative_value : Option ℤ → Bool
is_negative_value none = false
is_negative_value (some d) = is_below_zero d

abbrev is_negative_duration : (Text → Option ℤ) → Option Text → Bool
is_negative_duration parse none = false
is_negative_duration parse (some v) = is_negative_value (parse v)

abbrev is_set_blank : Option Text → Bool
is_set_blank none = false
is_set_blank (some v) = is_blank v

-- The switches of the middleware.
unfoldable pub first_variables : Parsers → Environment → List LintRule
unfolding variable_rule parse_bool
first_variables p env =
    variable_rule parse_bool env (codes "HTTP_MIDDLEWARE_REQUEST_ID_ENABLED")
    ∷ variable_rule parse_bool env (codes "HTTP_MIDDLEWARE_RECOVERER_ENABLED")
    ∷ variable_rule parse_bool env (codes "HTTP_MIDDLEWARE_SECURITY_HEADERS_ENABLED")
    ∷ []

-- HTTP_MIDDLEWARE_REQUEST_TIMEOUT and HTTP_ADDR.
unfoldable pub timeout_variables : Parsers → Environment → List LintRule
unfolding variable_rule is_below_zero trim_space
timeout_variables p env =
    variable_rule p.parse_duration env (codes "HTTP_MIDDLEWARE_REQUEST_TIMEOUT")
    ∷ (
      is_negative_duration p.parse_duration (env.lookup (codes "HTTP_MIDDLEWARE_REQUEST_TIMEOUT")),
      failed "http middleware request timeout must be >= 0",
    )
    ∷ (is_set_blank (env.lookup (codes "HTTP_ADDR")), failed "http addr cannot be empty")
    ∷ []

-- The middleware, the switches of services, the server and the cache.
unfoldable pub server_variables : Parsers → Environment → List LintRule
unfolding variable_rule parse_bool parse_int
server_variables p env =
    variable_rule parse_bool env (codes "HTTP_MIDDLEWARE_ACCESS_LOG_ENABLED")
    ∷ variable_rule parse_bool env (codes "HTTP_MIDDLEWARE_CORS_ENABLED")
    ∷ variable_rule parse_bool env (codes "HTTP_MIDDLEWARE_CORS_ALLOW_CREDENTIALS")
    ∷ variable_rule parse_bool env (codes "HTTP_MIDDLEWARE_CORS_ALLOW_PRIVATE_NETWORK")
    ∷ variable_rule parse_bool env (codes "AUTH_ENABLED")
    ∷ variable_rule parse_bool env (codes "EMAIL_ENABLED")
    ∷ variable_rule parse_bool env (codes "RATELIMIT_ENABLED")
    ∷ variable_rule parse_bool env (codes "RATELIMIT_FAIL_OPEN")
    ∷ variable_rule parse_int env (codes "RATELIMIT_DEFAULT_LIMIT")
    ∷ variable_rule p.parse_duration env (codes "RATELIMIT_DEFAULT_WINDOW")
    ∷ variable_rule parse_int env (codes "HTTP_MAX_HEADER_BYTES")
    ∷ variable_rule parse_int env (codes "HTTP_MIDDLEWARE_MAX_BODY_BYTES")
    ∷ variable_rule p.parse_duration env (codes "HTTP_READ_HEADER_TIMEOUT")
    ∷ variable_rule p.parse_duration env (codes "HTTP_READ_TIMEOUT")
    ∷ variable_rule p.parse_duration env (codes "HTTP_WRITE_TIMEOUT")
    ∷ variable_rule p.parse_duration env (codes "HTTP_IDLE_TIMEOUT")
    ∷ variable_rule p.parse_duration env (codes "HTTP_SHUTDOWN_TIMEOUT")
    ∷ variable_rule p.parse_duration env (codes "HTTP_MIDDLEWARE_CORS_MAX_AGE")
    ∷ variable_rule p.parse_duration env (codes "CACHE_TAG_VERSION_CACHE_TTL")
    ∷ []

-- The permission resolver, MongoDB and the access log.
unfoldable pub service_variables : Parsers → Environment → List LintRule
unfolding variable_rule parse_bool parse_int
service_variables p env =
    variable_rule parse_bool env (codes "PERMISSIONS_ENABLED")
    ∷ variable_rule p.parse_duration env (codes "PERMISSIONS_DB_QUERY_TIMEOUT")
    ∷ variable_rule p.parse_duration env (codes "PERMISSIONS_REDIS_TTL")
    ∷ variable_rule p.parse_duration env (codes "PERMISSIONS_BACKFILL_TIMEOUT")
    ∷ variable_rule parse_bool env (codes "MONGO_ENABLED")
    ∷ variable_rule parse_int env (codes "MONGO_MAX_POOL_SIZE")
    ∷ variable_rule parse_int env (codes "MONGO_MIN_POOL_SIZE")
    ∷ variable_rule p.parse_duration env (codes "MONGO_CONNECT_TIMEOUT")
    ∷ variable_rule p.parse_duration env (codes "MONGO_STARTUP_PING_TIMEOUT")
    ∷ variable_rule p.parse_duration env (codes "MONGO_HEALTH_CHECK_TIMEOUT")
    ∷ variable_rule parse_bool env (codes "MONGO_BOOTSTRAP_ENABLED")
    ∷ variable_rule p.parse_duration env (codes "MONGO_BOOTSTRAP_TIMEOUT")
    ∷ variable_rule p.parse_float env (codes "HTTP_MIDDLEWARE_ACCESS_LOG_SAMPLE_RATE")
    ∷ variable_rule p.parse_duration env (codes "HTTP_MIDDLEWARE_ACCESS_LOG_SLOW_THRESHOLD")
    ∷ []

-- The access log, PostgreSQL and Redis.
unfoldable pub pool_variables : Parsers → Environment → List LintRule
unfolding variable_rule parse_bool parse_int_32 parse_int
pool_variables p env =
    variable_rule parse_bool env (codes "HTTP_MIDDLEWARE_ACCESS_LOG_INCLUDE_USER_AGENT")
    ∷ variable_rule parse_bool env (codes "HTTP_MIDDLEWARE_ACCESS_LOG_INCLUDE_REMOTE_IP")
    ∷ variable_rule parse_bool env (codes "POSTGRES_ENABLED")
    ∷ variable_rule parse_int_32 env (codes "POSTGRES_MAX_CONNS")
    ∷ variable_rule parse_int_32 env (codes "POSTGRES_MIN_CONNS")
    ∷ variable_rule p.parse_duration env (codes "POSTGRES_CONN_MAX_LIFETIME")
    ∷ variable_rule p.parse_duration env (codes "POSTGRES_CONN_MAX_IDLE_TIME")
    ∷ variable_rule p.parse_duration env (codes "POSTGRES_STARTUP_PING_TIMEOUT")
    ∷ variable_rule p.parse_duration env (codes "POSTGRES_HEALTH_CHECK_TIMEOUT")
    ∷ variable_rule parse_bool env (codes "REDIS_ENABLED")
    ∷ variable_rule parse_int env (codes "REDIS_DB")
    ∷ []

-- Redis, metrics and tracing.
unfoldable pub telemetry_variables : Parsers → Environment → List LintRule
unfolding variable_rule parse_bool parse_int
telemetry_variables p env =
    variable_rule parse_int env (codes "REDIS_POOL_SIZE")
    ∷ variable_rule parse_int env (codes "REDIS_MIN_IDLE_CONNS")
    ∷ variable_rule p.parse_duration env (codes "REDIS_DIAL_TIMEOUT")
    ∷ variable_rule p.parse_duration env (codes "REDIS_READ_TIMEOUT")
    ∷ variable_rule p.parse_duration env (codes "REDIS_WRITE_TIMEOUT")
    ∷ variable_rule p.parse_duration env (codes "REDIS_STARTUP_PING_TIMEOUT")
    ∷ variable_rule p.parse_duration env (codes "REDIS_HEALTH_CHECK_TIMEOUT")
    ∷ variable_rule parse_bool env (codes "METRICS_ENABLED")
    ∷ variable_rule parse_bool env (codes "TRACING_ENABLED")
    ∷ variable_rule p.parse_float env (codes "TRACING_SAMPLE_RATIO")
    ∷ variable_rule parse_bool env (codes "TRACING_INSECURE")
    ∷ []

-- Every variable that Lint checks, in its order.
unfoldable pub variable_rules : Parsers → Environment → List LintRule
unfolding first_variables timeout_variables server_variables service_variables pool_variables
    telemetry_variables
variable_rules p env =
    first_variables p env
    ++ (timeout_variables p env
        ++ (server_variables p env
            ++ (service_variables p env ++ (pool_variables p env ++ telemetry_variables p env))))
