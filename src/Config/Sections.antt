-- ===== src/Config/Sections.antt =====
-- internal/core/config/config.go, Lint: the checks on lists of the configuration, on mail, tracing and
-- logging, and the demands on a production deployment. The parsers of packages net and net/mail and
-- net/url are parameters.
use projectbook_backend.Base.{
  ℕ, ◌==◌, any, if◌then◌else◌, Bool, true, false, not, ◌&&◌, ◌||◌, Option, none, some, List, [],
  ◌∷◌, ◌++◌,
}
use Prim.Native.String.{String}
use projectbook_backend.Text.{
  Text, codes, text_eq, is_empty, trim_space, to_lower, equal_fold, mem_text, contains_text,
}
use projectbook_backend.Config.{Config}
use projectbook_backend.Config.Rules.{
  LintRule, failed, failed_at, is_blank, starts_with_slash, is_outside_unit,
}

-- The parts of *url.URL that are read.
pub record Url : Type 0 where
  pub scheme : Text
  pub host : Text
  pub hostname : Text
  pub path : Text
  pub raw_query : Text
  pub fragment : Text

-- url.Parse, the address of mail.ParseAddress, and whether net.ParseCIDR and net.ParseIP succeed.
pub record NetParsers : Type 0 where
  pub parse_url : Text → Option Url
  pub parse_address : Text → Option Text
  pub is_cidr : Text → Bool
  pub is_ip : Text → Bool

-- A loop over a list that returns at the first error.
abbrev pub for_each : (Text → List LintRule) → List Text → List LintRule
for_each rules [] = []
for_each rules (x ∷ xs) = rules x ++ for_each rules xs

abbrev pub has_no_host : Option Url → Bool
has_no_host none = true
has_no_host (some u) = is_empty u.scheme || is_empty u.host

abbrev has_more : Option Url → Bool
has_more none = false
has_more (some u) = not (is_empty u.path) || not (is_empty u.raw_query) || not (is_empty u.fragment)

-- validateOrigins
unfoldable pub origin_rules : NetParsers → String → String → Text → List LintRule
unfolding trim_space text_eq equal_fold
origin_rules p invalid with_path origin =
    let trimmed = trim_space origin in
    if is_empty trimmed || text_eq trimmed (codes "*") || equal_fold trimmed (codes "null")
    then []
    else (has_no_host (p.parse_url trimmed), failed_at invalid origin)
      ∷ (has_more (p.parse_url trimmed), failed_at with_path origin)
      ∷ []

abbrev is_separator : ℕ → Bool
is_separator c = c == 32 || c == 9 || c == 13 || c == 10 || c == 44

-- validateTokens
unfoldable pub token_rules : String → Text → List LintRule
unfolding trim_space
token_rules invalid item = (any is_separator (trim_space item), failed_at invalid item) ∷ []

-- validateTrustedProxies
unfoldable pub proxy_rules : NetParsers → Text → List LintRule
unfolding trim_space contains_text
proxy_rules p item =
    let trimmed = trim_space item in
    if is_empty trimmed
    then []
    else if contains_text trimmed (codes "/")
    then (not (p.is_cidr trimmed), failed_at "http trusted proxy is invalid cidr" item) ∷ []
    else (not (p.is_ip trimmed), failed_at "http trusted proxy is invalid ip" item) ∷ []

unfoldable pub tracing_path_rules : Text → List LintRule
unfolding trim_space starts_with_slash
tracing_path_rules p =
    (is_blank p, failed "http middleware tracing exclude path cannot be empty")
    ∷ (
      not (starts_with_slash p),
      failed_at "http middleware tracing exclude path must start with '/'" p,
    )
    ∷ []

unfoldable pub log_path_rules : Text → List LintRule
unfolding starts_with_slash
log_path_rules p =
    (is_empty p, failed "http middleware access log exclude path cannot be empty")
    ∷ (
      not (starts_with_slash p),
      failed_at "http middleware access log exclude path must start with '/'" p,
    )
    ∷ []

unfoldable pub metrics_exclude_rules : Text → List LintRule
unfolding trim_space starts_with_slash
metrics_exclude_rules p =
    (is_blank p, failed "metrics exclude path cannot be empty")
    ∷ (not (starts_with_slash p), failed_at "metrics exclude path must start with '/'" p)
    ∷ []

-- The lists of the middleware.
unfoldable pub list_rules : NetParsers → Config → List LintRule
unfolding origin_rules token_rules proxy_rules tracing_path_rules
list_rules p c =
    let cors = c.http.middleware.cors in
    for_each
      (origin_rules p "http middleware cors allow origins contains invalid origin"
        "http middleware cors allow origins origin must not include path, query, or fragment")
      cors.allow_origins
    ++ (for_each
          (origin_rules p "http middleware cors deny origins contains invalid origin"
            "http middleware cors deny origins origin must not include path, query, or fragment")
          cors.deny_origins
        ++ (for_each (token_rules "http middleware cors allow methods contains invalid token")
              cors.allow_methods
            ++ (for_each (token_rules "http middleware cors allow headers contains invalid token")
                  cors.allow_headers
                ++ (for_each
                      (token_rules "http middleware cors expose headers contains invalid token")
                      cors.expose_headers
                    ++ (for_each (proxy_rules p) c.http.middleware.client_ip.trusted_proxies
                        ++ for_each tracing_path_rules c.http.middleware.tracing_exclude_paths)))))

-- The switch on the mode of authentication.
unfoldable pub auth_mode_rules : Config → List LintRule
unfolding mem_text to_lower trim_space
auth_mode_rules c =
    (
      not (
          mem_text (to_lower (trim_space c.auth.mode)) (
            codes "jwt_only"
            ∷ codes "jwt-only"
            ∷ codes "jwtonly"
            ∷ codes "hybrid"
            ∷ codes "strict"
            ∷ []
            ∷ [])),
      failed_at "invalid auth mode" c.auth.mode,
    )
    ∷ []

abbrev is_other_address : Option Text → Text → Bool
is_other_address none email = true
is_other_address (some a) email = not (equal_fold a email)

-- lintSenderIdentity
unfoldable pub sender_rules : NetParsers → Text → Text → Text → Bool → List LintRule
unfolding trim_space equal_fold
sender_rules p label name email required =
    (required && is_blank email, failed_at "email is required" label)
    ∷ (required && is_blank name, failed_at "name is required" label)
    ∷ (if is_blank email
        then []
        else (
          is_other_address (p.parse_address (trim_space email)) (trim_space email),
          failed_at "email must be a valid address" label,
        )
          ∷ [])

unfoldable pub email_rules : NetParsers → Config → List LintRule
unfolding sender_rules trim_space
email_rules p c =
    if c.email.enabled
    then (
      is_blank c.email.resend_api_key,
      failed "resend api key cannot be empty when email is enabled",
    )
      ∷ (
        is_blank c.email.web_app_base_url,
        failed "web app base url cannot be empty when email is enabled",
      )
      ∷ (
        has_no_host (p.parse_url (trim_space c.email.web_app_base_url)),
        failed "web app base url must be an absolute url when email is enabled",
      )
      ∷ (sender_rules p (codes "transactional sender invalid") c.email.transactional_sender_name
            c.email.transactional_sender_email true
          ++ (sender_rules p (codes "verification sender invalid") c.email.verification_sender_name
                c.email.verification_sender_email false
              ++ (sender_rules p (codes "password reset sender invalid")
                    c.email.password_reset_sender_name c.email.password_reset_sender_email false
                  ++ sender_rules p (codes "password change sender invalid")
                      c.email.password_change_sender_name c.email.password_change_sender_email
                      false)))
    else []

unfoldable pub tracing_rules : Config → List LintRule
unfolding text_eq mem_text is_outside_unit
tracing_rules c =
    if c.tracing.enabled
    then (
      is_empty c.tracing.service_name,
      failed "tracing service name cannot be empty when enabled",
    )
      ∷ (
        is_empty c.tracing.otlp_endpoint,
        failed "tracing otlp endpoint cannot be empty when enabled",
      )
      ∷ (
        not (text_eq c.tracing.exporter (codes "otlpgrpc")),
        failed_at "invalid tracing exporter" c.tracing.exporter,
      )
      ∷ (
        not (
            mem_text c.tracing.sampler
              (codes "always_on" ∷ codes "always_off" ∷ codes "traceidratio" ∷ [])),
        failed_at "invalid tracing sampler" c.tracing.sampler,
      )
      ∷ (is_outside_unit c.tracing.sample_ratio, failed "tracing sample ratio must be in [0,1]")
      ∷ []
    else []

unfoldable pub log_rules : Config → List LintRule
unfolding mem_text
log_rules c =
    (
      not (
          mem_text c.log.level (
            codes "debug"
            ∷ codes "info"
            ∷ codes "warn"
            ∷ codes "warning"
            ∷ codes "error"
            ∷ codes "fatal"
            ∷ []
            ∷ [])),
      failed_at "invalid log level" c.log.level,
    )
    ∷ (
      not (mem_text c.log.format (codes "json" ∷ codes "text" ∷ [] ∷ [])),
      failed_at "invalid log format" c.log.format,
    )
    ∷ []
