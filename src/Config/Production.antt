-- ===== src/Config/Production.antt =====
-- internal/core/config/config.go: what Lint demands of a production deployment.
use projectbook_backend.Base.{
  ltb, length, if◌then◌else◌, Bool, true, false, not, ◌&&◌, ◌||◌, Option, none, some, List, [], ◌∷◌,
  ◌++◌,
}
use projectbook_backend.Text.{Text, codes, text_eq, is_empty, trim_space, equal_fold}
use projectbook_backend.Config.{Config}
use projectbook_backend.Config.Env.{Environment, get_raw, has_non_empty_env}
use projectbook_backend.Config.Rules.{LintRule, failed, is_blank}
use projectbook_backend.Config.Sections.{NetParsers, Url, has_no_host}

-- isProductionEnvironment
unfoldable pub is_production_environment : Text → Bool
unfolding equal_fold trim_space
is_production_environment env =
    equal_fold (trim_space env) (codes "prod") || equal_fold (trim_space env) (codes "production")

-- requiresProductionHardening
unfoldable pub requires_hardening : Config → Bool
unfolding is_production_environment equal_fold trim_space
requires_hardening c =
    is_production_environment c.env || equal_fold (trim_space c.profile) (codes "prod")

-- permissionContextSecretEnvKey
abbrev pub secret_key : Text
secret_key = codes "PROJECTBOOK_PERMISSION_CONTEXT_SECRET"

-- The secret of the environment.
unfoldable pub context_secret : Environment → Text
unfolding get_raw trim_space
context_secret env = trim_space (get_raw env secret_key)

-- permissionContextDevFallbackSecret
abbrev pub dev_secret : Text
dev_secret = codes "projectbook-dev-permission-context-secret"

-- lintProductionPermissionContextSecret
unfoldable pub secret_rules : Environment → List LintRule
unfolding context_secret text_eq
secret_rules env =
    (
      ltb (length (context_secret env)) 32,
      failed
          "PROJECTBOOK_PERMISSION_CONTEXT_SECRET must be set to at least 32 characters in production",
    )
    ∷ (
      text_eq (context_secret env) dev_secret,
      failed
          "PROJECTBOOK_PERMISSION_CONTEXT_SECRET must not use the development fallback secret in production",
    )
    ∷ []

-- isLocalhost
unfoldable pub is_localhost : Text → Bool
unfolding trim_space equal_fold text_eq
is_localhost host =
    equal_fold (trim_space host) (codes "localhost")
    || text_eq (trim_space host) (codes "127.0.0.1")
    || text_eq (trim_space host) (codes "::1")

abbrev pub is_local_url : Option Url → Bool
is_local_url none = false
is_local_url (some u) = is_localhost (trim_space u.hostname)

-- lintProductionWebAppBaseURL
unfoldable pub base_url_rules : NetParsers → Text → List LintRule
unfolding trim_space is_localhost
base_url_rules p raw =
    (is_blank raw, failed "web app base url cannot be empty in production")
    ∷ (
      has_no_host (p.parse_url (trim_space raw)),
      failed "web app base url must be an absolute url in production",
    )
    ∷ (
      is_local_url (p.parse_url (trim_space raw)),
      failed "web app base url must not target localhost in production",
    )
    ∷ []

-- lintStrongMetricsAuthToken
unfoldable pub strong_token_rules : Text → List LintRule
unfolding trim_space equal_fold
strong_token_rules raw =
    (is_blank raw, failed "metrics auth token cannot be empty in production")
    ∷ (
      equal_fold (trim_space raw) (codes "change-me"),
      failed "metrics auth token must not use placeholder values in production",
    )
    ∷ (
      ltb (length (trim_space raw)) 24,
      failed "metrics auth token must be at least 24 characters in production",
    )
    ∷ []

-- lintRequiredProductionEnvironmentVariables
unfoldable pub required_variable_rules : Environment → Config → List LintRule
unfolding has_non_empty_env
required_variable_rules env c =
    (
      not (
          has_non_empty_env env (codes "POSTGRES_URL")
          || has_non_empty_env env (codes "DATABASE_URL")),
      failed "POSTGRES_URL or DATABASE_URL must be explicitly set in production",
    )
    ∷ (
      not (has_non_empty_env env (codes "REDIS_ADDR") || has_non_empty_env env (codes "REDIS_URL")),
      failed "REDIS_ADDR or REDIS_URL must be explicitly set in production",
    )
    ∷ (
      not (has_non_empty_env env (codes "MONGO_URL")),
      failed "MONGO_URL must be explicitly set in production",
    )
    ∷ (
      not (has_non_empty_env env (codes "MONGO_DB")),
      failed "MONGO_DB must be explicitly set in production",
    )
    ∷ (
      not (has_non_empty_env env secret_key),
      failed "PROJECTBOOK_PERMISSION_CONTEXT_SECRET must be explicitly set in production",
    )
    ∷ (
      not (has_non_empty_env env (codes "WEB_APP_BASE_URL")),
      failed "WEB_APP_BASE_URL must be explicitly set in production",
    )
    ∷ (
      c.email.enabled && not (has_non_empty_env env (codes "RESEND_API_KEY")),
      failed "RESEND_API_KEY must be explicitly set when email is enabled in production",
    )
    ∷ (
      c.metrics.enabled && not (has_non_empty_env env (codes "METRICS_AUTH_TOKEN")),
      failed "METRICS_AUTH_TOKEN must be explicitly set when metrics is enabled in production",
    )
    ∷ []

unfoldable pub hardening_rules : NetParsers → Environment → Config → List LintRule
unfolding secret_rules base_url_rules strong_token_rules required_variable_rules
hardening_rules p env c =
    secret_rules env
    ++ (base_url_rules p c.email.web_app_base_url
        ++ ((if c.metrics.enabled then strong_token_rules c.metrics.auth_token else [])
            ++ required_variable_rules env c))

abbrev pub is_unset : Option Text → Bool
is_unset none = true
is_unset (some v) = false

-- SensitiveFallbackWarnings, each by the variable that it is about.
unfoldable pub sensitive_fallback_warnings : Environment → Config → List Text
unfolding context_secret text_eq
sensitive_fallback_warnings env c =
    (if is_empty (context_secret env) || text_eq (context_secret env) dev_secret
      then secret_key ∷ []
      else [])
    ++ ((if c.metrics.enabled && is_unset (env.lookup (codes "METRICS_AUTH_TOKEN"))
          then codes "METRICS_AUTH_TOKEN" ∷ []
          else [])
        ++ (if c.email.enabled && is_unset (env.lookup (codes "RESEND_API_KEY"))
            then codes "RESEND_API_KEY" ∷ []
            else []))
