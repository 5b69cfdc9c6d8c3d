-- ===== src/Config/Tests.antt =====
-- Lint at a concrete configuration.
use projectbook_backend.Base.{
  ◌≡◌, refl, if◌then◌else◌, true, false, Option, none, some, [], ◌∷◌, ok, err, ◌>>=◌,
}
use projectbook_backend.Text.{Text, codes, mem_text}
use projectbook_backend.Text.Decimal.{pos}
use projectbook_backend.Config.{Config, not_a_number}
use projectbook_backend.Config.Env.{Environment, Parsers, get_parsed, parse_bool}
use projectbook_backend.Config.Rules.{failed}
use projectbook_backend.Config.Sections.{NetParsers}
use projectbook_backend.Config.Load.{load}
use projectbook_backend.Config.Lint.{lint}
use projectbook_backend.Config.Hardened.{IsHardened, lint-IsHardened}

-- The variables that production requires, each with a text of 40 bytes.
abbrev required : Text → Option Text
required key =
    if mem_text key (
      codes "POSTGRES_URL"
      ∷ codes "REDIS_ADDR"
      ∷ codes "MONGO_URL"
      ∷ codes "MONGO_DB"
      ∷ codes "WEB_APP_BASE_URL"
      ∷ codes "PROJECTBOOK_PERMISSION_CONTEXT_SECRET"
      ∷ codes "METRICS_AUTH_TOKEN"
      ∷ codes "CACHE_FAIL_OPEN"
      ∷ [])
    then some (codes "0123456789abcdef0123456789abcdef01234567")
    else none

abbrev environment : Environment
environment = record { lookup = required; profile_default = λ key. none }

abbrev net_parsers : NetParsers
net_parsers = record {
  parse_url = λ s. some (record {
    scheme = codes "https";
    host = codes "app.test";
    hostname = codes "app.test";
    path = [];
    raw_query = [];
    fragment = [];
  });
  parse_address = λ s. none;
  is_cidr = λ s. false;
  is_ip = λ s. false;
}

abbrev parsers : Parsers
parsers = record { parse_duration = λ s. none; parse_float = λ s. none }

-- Its sample rates are not numbers.
abbrev production : Config
production = record {
  env = codes "prod";
  profile = codes "x";
  service_name = codes "x";
  http = record {
    addr = codes "x";
    read_header_timeout = pos 5;
    read_timeout = pos 5;
    write_timeout = pos 5;
    idle_timeout = pos 5;
    shutdown_timeout = pos 5;
    max_header_bytes = pos 5000;
    middleware = record {
      request_id_enabled = false;
      recoverer_enabled = false;
      max_body_bytes = pos 5;
      security_headers_enabled = false;
      request_timeout = pos 5;
      access_log = record {
        enabled = false;
        sample_rate = not_a_number;
        exclude_paths = [];
        slow_threshold = pos 5;
        include_user_agent = false;
        include_remote_ip = false;
      };
      client_ip = record { trusted_proxies = [] };
      cors = record {
        enabled = false;
        allow_origins = [];
        deny_origins = [];
        allow_methods = [];
        allow_headers = [];
        expose_headers = [];
        allow_credentials = false;
        max_age = pos 5;
        allow_private_network = false;
      };
      tracing_exclude_paths = [];
    };
  };
  log = record { level = codes "info"; format = codes "json" };
  auth = record { enabled = false; mode = codes "hybrid" };
  email = record {
    enabled = false;
    resend_api_key = codes "x";
    web_app_base_url = codes "x";
    transactional_sender_email = codes "x";
    transactional_sender_name = codes "x";
    verification_sender_email = codes "x";
    verification_sender_name = codes "x";
    password_reset_sender_email = codes "x";
    password_reset_sender_name = codes "x";
    password_change_sender_email = codes "x";
    password_change_sender_name = codes "x";
  };
  rate_limit = record {
    enabled = false;
    fail_open = false;
    default_limit = pos 5;
    default_window = pos 5;
  };
  cache = record {
    enabled = false;
    fail_open = false;
    default_max_bytes = pos 5;
    tag_version_cache_ttl = pos 5;
  };
  permissions = record {
    enabled = false;
    db_query_timeout = pos 5;
    redis_ttl = pos 5;
    backfill_timeout = pos 5;
  };
  mongo = record {
    enabled = true;
    url = codes "x";
    database = codes "x";
    max_pool_size = pos 5;
    min_pool_size = pos 5;
    connect_timeout = pos 5;
    startup_ping_timeout = pos 5;
    health_check_timeout = pos 5;
    bootstrap_enabled = false;
    bootstrap_timeout = pos 5;
  };
  postgres = record {
    enabled = true;
    url = codes "x";
    max_conns = pos 5;
    min_conns = pos 5;
    conn_max_lifetime = pos 5;
    conn_max_idle_time = pos 5;
    startup_ping_timeout = pos 5;
    health_check_timeout = pos 5;
  };
  redis = record {
    enabled = true;
    addr = codes "x";
    password = codes "x";
    db = pos 5;
    dial_timeout = pos 5;
    read_timeout = pos 5;
    write_timeout = pos 5;
    pool_size = pos 5;
    min_idle_conns = pos 5;
    startup_ping_timeout = pos 5;
    health_check_timeout = pos 5;
  };
  metrics = record {
    enabled = true;
    path = codes "/metrics";
    auth_token = codes "0123456789abcdef01234567";
    exclude_paths = [];
  };
  tracing = record {
    enabled = false;
    service_name = codes "x";
    exporter = codes "x";
    otlp_endpoint = codes "x";
    sampler = codes "x";
    sample_ratio = not_a_number;
    insecure = false;
  };
  tuning = record {
    auth_rate_limit = record {
      window = pos 5;
      signup_per_window = pos 5;
      login_per_window = pos 5;
      verify_per_window = pos 5;
      password_per_window = pos 5;
      refresh_per_window = pos 5;
      change_pass_per_window = pos 5;
      logout_per_window = pos 5;
    };
    cache_ttl = record { fast_read = pos 5; standard_read = pos 5; dashboard = pos 5 };
  };
}

accepted : lint net_parsers parsers environment production ≡ ok tt
unfolding lint
accepted = refl

fails_open :
    lint net_parsers parsers environment
      (record production { cache = record production.cache { enabled = true; fail_open = true } })
    ≡ err (failed "cache fail-open cannot be enabled in prod")
unfolding lint
fails_open = refl

-- What Load makes of an empty environment, Lint accepts.
defaults_accepted :
    (load parsers (λ key. none) >>= λ c.
    lint net_parsers parsers (record { lookup = λ key. none; profile_default = λ key. none }) c)
    ≡ ok tt
unfolding load lint
defaults_accepted = refl

-- CACHE_FAIL_OPEN is set to a text that is no Boolean; Lint accepts it and Load takes the fallback.
ignored : get_parsed parse_bool environment (codes "CACHE_FAIL_OPEN") true ≡ true
unfolding get_parsed parse_bool mem_text
ignored = refl

lint-IsHardened_example : IsHardened net_parsers environment production
unfolding lint
lint-IsHardened_example = lint-IsHardened net_parsers parsers environment production refl refl
