-- ===== src/Config.antt =====
-- internal/core/config/config.go: the configuration of the process, as Load fills it. A duration is a
-- number of nanoseconds.
pub mod Env
pub mod Rules
pub mod Fields
pub mod Variables
pub mod Sections
pub mod Production
pub mod Profile
pub mod Services
pub mod Load
pub mod Lint
pub mod Hardened
mod Tests
use projectbook_backend.Base.{Bool, List}
use projectbook_backend.Text.{Text}
use projectbook_backend.Text.Decimal.{ℤ}

-- A float64 as far as comparing with 0 and with 1 can tell: not a number, below 0, from 0 to 1, above 1.
pub data Ratio : Type 0 where
  not_a_number below_zero unit_interval above_one : Ratio

pub record AuthConfig : Type 0 where
  pub enabled : Bool
  pub mode : Text

pub record EmailConfig : Type 0 where
  pub enabled : Bool
  pub resend_api_key : Text
  pub web_app_base_url : Text
  pub transactional_sender_email : Text
  pub transactional_sender_name : Text
  pub verification_sender_email : Text
  pub verification_sender_name : Text
  pub password_reset_sender_email : Text
  pub password_reset_sender_name : Text
  pub password_change_sender_email : Text
  pub password_change_sender_name : Text

pub record AuthRateLimitTuning : Type 0 where
  pub window : ℤ
  pub signup_per_window : ℤ
  pub login_per_window : ℤ
  pub verify_per_window : ℤ
  pub password_per_window : ℤ
  pub refresh_per_window : ℤ
  pub change_pass_per_window : ℤ
  pub logout_per_window : ℤ

pub record CacheTtlTuning : Type 0 where
  pub fast_read : ℤ
  pub standard_read : ℤ
  pub dashboard : ℤ

pub record TuningConfig : Type 0 where
  pub auth_rate_limit : AuthRateLimitTuning
  pub cache_ttl : CacheTtlTuning

pub record RateLimitConfig : Type 0 where
  pub enabled : Bool
  pub fail_open : Bool
  pub default_limit : ℤ
  pub default_window : ℤ

pub record CacheConfig : Type 0 where
  pub enabled : Bool
  pub fail_open : Bool
  pub default_max_bytes : ℤ
  pub tag_version_cache_ttl : ℤ

pub record PermissionsConfig : Type 0 where
  pub enabled : Bool
  pub db_query_timeout : ℤ
  pub redis_ttl : ℤ
  pub backfill_timeout : ℤ

pub record MongoConfig : Type 0 where
  pub enabled : Bool
  pub url : Text
  pub database : Text
  pub max_pool_size : ℤ
  pub min_pool_size : ℤ
  pub connect_timeout : ℤ
  pub startup_ping_timeout : ℤ
  pub health_check_timeout : ℤ
  pub bootstrap_enabled : Bool
  pub bootstrap_timeout : ℤ

pub record LogConfig : Type 0 where
  pub level : Text
  pub format : Text

pub record AccessLogConfig : Type 0 where
  pub enabled : Bool
  pub sample_rate : Ratio
  pub exclude_paths : List Text
  pub slow_threshold : ℤ
  pub include_user_agent : Bool
  pub include_remote_ip : Bool

pub record ClientIpConfig : Type 0 where
  pub trusted_proxies : List Text

pub record CorsConfig : Type 0 where
  pub enabled : Bool
  pub allow_origins : List Text
  pub deny_origins : List Text
  pub allow_methods : List Text
  pub allow_headers : List Text
  pub expose_headers : List Text
  pub allow_credentials : Bool
  pub max_age : ℤ
  pub allow_private_network : Bool

pub record HttpMiddlewareConfig : Type 0 where
  pub request_id_enabled : Bool
  pub recoverer_enabled : Bool
  pub max_body_bytes : ℤ
  pub security_headers_enabled : Bool
  pub request_timeout : ℤ
  pub access_log : AccessLogConfig
  pub client_ip : ClientIpConfig
  pub cors : CorsConfig
  pub tracing_exclude_paths : List Text

pub record HttpConfig : Type 0 where
  pub addr : Text
  pub read_header_timeout : ℤ
  pub read_timeout : ℤ
  pub write_timeout : ℤ
  pub idle_timeout : ℤ
  pub shutdown_timeout : ℤ
  pub max_header_bytes : ℤ
  pub middleware : HttpMiddlewareConfig

pub record PostgresConfig : Type 0 where
  pub enabled : Bool
  pub url : Text
  pub max_conns : ℤ
  pub min_conns : ℤ
  pub conn_max_lifetime : ℤ
  pub conn_max_idle_time : ℤ
  pub startup_ping_timeout : ℤ
  pub health_check_timeout : ℤ

pub record RedisConfig : Type 0 where
  pub enabled : Bool
  pub addr : Text
  pub password : Text
  pub db : ℤ
  pub dial_timeout : ℤ
  pub read_timeout : ℤ
  pub write_timeout : ℤ
  pub pool_size : ℤ
  pub min_idle_conns : ℤ
  pub startup_ping_timeout : ℤ
  pub health_check_timeout : ℤ

pub record MetricsConfig : Type 0 where
  pub enabled : Bool
  pub path : Text
  pub auth_token : Text
  pub exclude_paths : List Text

pub record TracingConfig : Type 0 where
  pub enabled : Bool
  pub service_name : Text
  pub exporter : Text
  pub otlp_endpoint : Text
  pub sampler : Text
  pub sample_ratio : Ratio
  pub insecure : Bool

pub record Config : Type 0 where
  pub env : Text
  pub profile : Text
  pub service_name : Text
  pub http : HttpConfig
  pub log : LogConfig
  pub auth : AuthConfig
  pub email : EmailConfig
  pub rate_limit : RateLimitConfig
  pub cache : CacheConfig
  pub permissions : PermissionsConfig
  pub mongo : MongoConfig
  pub postgres : PostgresConfig
  pub redis : RedisConfig
  pub metrics : MetricsConfig
  pub tracing : TracingConfig
  pub tuning : TuningConfig
