-- ===== src/Config/Load.antt =====
-- internal/core/config/config.go, Load: every field with its variable and its fallback.
use projectbook_backend.Base.{
  Bool, true, false, Option, none, [], ◌∷◌, Result, ok, ◌>>=◌, if◌then◌else◌,
}
use projectbook_backend.Text.{Text, codes, is_empty, trim_space}
use projectbook_backend.Text.Decimal.{pos, parse_int}
use projectbook_backend.Config.{
  Config, unit_interval, AccessLogConfig, ClientIpConfig, CorsConfig, HttpMiddlewareConfig,
  HttpConfig, LogConfig, AuthConfig, EmailConfig,
}
use projectbook_backend.Config.Env.{
  Environment, Parsers, get_raw, get_env, get_csv, get_csv_alias, get_parsed, parse_bool,
}
use projectbook_backend.Config.Services.{
  load_rate_limit_config, load_cache_config, load_permissions_config, load_mongo_config,
  load_postgres_config, load_redis_config, load_metrics_config, load_tracing_config,
  load_tuning_config,
}
use projectbook_backend.Config.Rules.{LintError}
use projectbook_backend.Config.Profile.{profile_of}
use projectbook_backend.Config.Production.{is_production_environment}

unfoldable pub load_access_log_config : Parsers → Environment → Bool → AccessLogConfig
unfolding get_csv get_parsed parse_bool
load_access_log_config p env prod = record {
  enabled = get_parsed parse_bool env (codes "HTTP_MIDDLEWARE_ACCESS_LOG_ENABLED") true;
  sample_rate =
      get_parsed p.parse_float env (codes "HTTP_MIDDLEWARE_ACCESS_LOG_SAMPLE_RATE") unit_interval;
  exclude_paths =
      get_csv env (codes "HTTP_MIDDLEWARE_ACCESS_LOG_EXCLUDE_PATHS")
        (codes "/healthz" ∷ codes "/readyz" ∷ codes "/metrics" ∷ []);
  slow_threshold =
      get_parsed p.parse_duration env (codes "HTTP_MIDDLEWARE_ACCESS_LOG_SLOW_THRESHOLD")
        (pos 2000000000);
  include_user_agent =
      get_parsed parse_bool env (codes "HTTP_MIDDLEWARE_ACCESS_LOG_INCLUDE_USER_AGENT") false;
  include_remote_ip =
      get_parsed parse_bool env (codes "HTTP_MIDDLEWARE_ACCESS_LOG_INCLUDE_REMOTE_IP") false;
}

unfoldable pub load_client_ip_config : Parsers → Environment → Bool → ClientIpConfig
unfolding get_csv
load_client_ip_config p env prod = record {
  trusted_proxies = get_csv env (codes "HTTP_TRUSTED_PROXIES") [];
}

unfoldable pub load_cors_config : Parsers → Environment → Bool → CorsConfig
unfolding get_csv get_csv_alias get_parsed parse_bool
load_cors_config p env prod = record {
  enabled = get_parsed parse_bool env (codes "HTTP_MIDDLEWARE_CORS_ENABLED") true;
  allow_origins =
      get_csv_alias env (codes "allowedOrigins" ∷ codes "HTTP_MIDDLEWARE_CORS_ALLOW_ORIGINS" ∷ [])
        [];
  deny_origins =
      get_csv_alias env (codes "denyOrigins" ∷ codes "HTTP_MIDDLEWARE_CORS_DENY_ORIGINS" ∷ []) [];
  allow_methods = get_csv env (codes "HTTP_MIDDLEWARE_CORS_ALLOW_METHODS") [];
  allow_headers = get_csv env (codes "HTTP_MIDDLEWARE_CORS_ALLOW_HEADERS") [];
  expose_headers = get_csv env (codes "HTTP_MIDDLEWARE_CORS_EXPOSE_HEADERS") [];
  allow_credentials =
      get_parsed parse_bool env (codes "HTTP_MIDDLEWARE_CORS_ALLOW_CREDENTIALS") false;
  max_age = get_parsed p.parse_duration env (codes "HTTP_MIDDLEWARE_CORS_MAX_AGE") (pos 0);
  allow_private_network =
      get_parsed parse_bool env (codes "HTTP_MIDDLEWARE_CORS_ALLOW_PRIVATE_NETWORK") false;
}

unfoldable pub load_http_middleware_config : Parsers → Environment → Bool → HttpMiddlewareConfig
unfolding get_csv get_parsed parse_bool parse_int load_access_log_config load_client_ip_config
    load_cors_config
load_http_middleware_config p env prod = record {
  request_id_enabled = get_parsed parse_bool env (codes "HTTP_MIDDLEWARE_REQUEST_ID_ENABLED") true;
  recoverer_enabled = get_parsed parse_bool env (codes "HTTP_MIDDLEWARE_RECOVERER_ENABLED") true;
  max_body_bytes = get_parsed parse_int env (codes "HTTP_MIDDLEWARE_MAX_BODY_BYTES") (pos 1048576);
  security_headers_enabled =
      get_parsed parse_bool env (codes "HTTP_MIDDLEWARE_SECURITY_HEADERS_ENABLED") prod;
  request_timeout =
      get_parsed p.parse_duration env (codes "HTTP_MIDDLEWARE_REQUEST_TIMEOUT") (pos 10000000000);
  access_log = load_access_log_config p env prod;
  client_ip = load_client_ip_config p env prod;
  cors = load_cors_config p env prod;
  tracing_exclude_paths =
      get_csv env (codes "HTTP_MIDDLEWARE_TRACING_EXCLUDE_PATHS")
        (codes "/healthz" ∷ codes "/readyz" ∷ codes "/metrics" ∷ []);
}

unfoldable pub load_http_config : Parsers → Environment → Bool → HttpConfig
unfolding get_env get_parsed parse_int load_http_middleware_config
load_http_config p env prod = record {
  addr = get_env env (codes "HTTP_ADDR") (codes ":8080");
  read_header_timeout =
      get_parsed p.parse_duration env (codes "HTTP_READ_HEADER_TIMEOUT") (pos 5000000000);
  read_timeout = get_parsed p.parse_duration env (codes "HTTP_READ_TIMEOUT") (pos 15000000000);
  write_timeout = get_parsed p.parse_duration env (codes "HTTP_WRITE_TIMEOUT") (pos 15000000000);
  idle_timeout = get_parsed p.parse_duration env (codes "HTTP_IDLE_TIMEOUT") (pos 60000000000);
  shutdown_timeout =
      get_parsed p.parse_duration env (codes "HTTP_SHUTDOWN_TIMEOUT") (pos 10000000000);
  max_header_bytes = get_parsed parse_int env (codes "HTTP_MAX_HEADER_BYTES") (pos 1048576);
  middleware = load_http_middleware_config p env prod;
}

unfoldable pub load_log_config : Parsers → Environment → Bool → LogConfig
unfolding get_env
load_log_config p env prod = record {
  level = get_env env (codes "LOG_LEVEL") (codes "info");
  format = get_env env (codes "LOG_FORMAT") (codes "json");
}

unfoldable pub load_auth_config : Parsers → Environment → Bool → AuthConfig
unfolding get_env get_parsed parse_bool
load_auth_config p env prod = record {
  enabled = get_parsed parse_bool env (codes "AUTH_ENABLED") true;
  mode = get_env env (codes "AUTH_MODE") (codes "hybrid");
}

unfoldable pub load_email_config : Parsers → Environment → Bool → EmailConfig
unfolding get_env get_parsed parse_bool
load_email_config p env prod = record {
  enabled = get_parsed parse_bool env (codes "EMAIL_ENABLED") false;
  resend_api_key = get_env env (codes "RESEND_API_KEY") [];
  web_app_base_url = get_env env (codes "WEB_APP_BASE_URL") (codes "http://localhost:5173");
  transactional_sender_email =
      get_env env (codes "TRANSACTIONAL_SENDER_EMAIL") (codes "no-reply@projectbook.dev");
  transactional_sender_name = get_env env (codes "TRANSACTIONAL_SENDER_NAME") (codes "no-reply");
  verification_sender_email = get_env env (codes "VERIFICATION_SENDER_EMAIL") [];
  verification_sender_name = get_env env (codes "VERIFICATION_SENDER_NAME") [];
  password_reset_sender_email = get_env env (codes "PASSWORD_RESET_SENDER_EMAIL") [];
  password_reset_sender_name = get_env env (codes "PASSWORD_RESET_SENDER_NAME") [];
  password_change_sender_email = get_env env (codes "PASSWORD_CHANGE_SENDER_EMAIL") [];
  password_change_sender_name = get_env env (codes "PASSWORD_CHANGE_SENDER_NAME") [];
}

-- The service of traces is that of the process, unless it has a name.
unfoldable pub with_tracing_name : Config → Config
with_tracing_name c =
    if is_empty c.tracing.service_name
    then record c { tracing = record c.tracing { service_name = c.service_name } }
    else c

unfoldable pub load_config : Parsers → Text → Environment → Bool → Config
unfolding get_env load_http_config load_log_config load_auth_config load_email_config
    load_rate_limit_config load_cache_config load_permissions_config load_mongo_config
    load_postgres_config load_redis_config load_metrics_config load_tracing_config
    load_tuning_config
load_config p profile env prod = record {
  env = get_env env (codes "APP_ENV") (codes "dev");
  profile = profile;
  service_name = get_env env (codes "APP_SERVICE_NAME") (codes "api-template");
  http = load_http_config p env prod;
  log = load_log_config p env prod;
  auth = load_auth_config p env prod;
  email = load_email_config p env prod;
  rate_limit = load_rate_limit_config p env prod;
  cache = load_cache_config p env prod;
  permissions = load_permissions_config p env prod;
  mongo = load_mongo_config p env prod;
  postgres = load_postgres_config p env prod;
  redis = load_redis_config p env prod;
  metrics = load_metrics_config p env prod;
  tracing = load_tracing_config p env prod;
  tuning = load_tuning_config p env prod;
}

abbrev environment_of : (Text → Option Text) → (Text → Option Text) → Environment
environment_of lookup defaults = record { lookup = lookup; profile_default = defaults }

-- Load; os.LookupEnv is `lookup`.
unfoldable pub load : Parsers → (Text → Option Text) → Result LintError Config
unfolding get_raw get_env profile_of load_config with_tracing_name is_production_environment
    trim_space
load p lookup = do
  let profile = trim_space (get_raw (environment_of lookup (λ key. none)) (codes "APP_PROFILE"))
  defaults ← profile_of profile
  let env = environment_of lookup defaults
  let prod = is_production_environment (get_env env (codes "APP_ENV") (codes "dev"))
  ok (with_tracing_name (load_config p profile env prod))
