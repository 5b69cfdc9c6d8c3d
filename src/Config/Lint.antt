-- ===== src/Config/Lint.antt =====
-- internal/core/config/config.go, Lint as a whole.
use projectbook_backend.Base.{
  ◌≡◌, refl, if◌then◌else◌, Bool, true, false, not, List, [], ◌∷◌, ◌++◌, All, Result, ok,
}
use projectbook_backend.Text.{codes, trim_space, to_lower, mem_text}
use projectbook_backend.Config.{Config}
use projectbook_backend.Config.Env.{Environment, Parsers, get_raw}
use projectbook_backend.Config.Rules.{LintError, failed_at, LintRule, first_failure, is_blank}
use projectbook_backend.Config.Fields.{
  identity_rules, http_rules, store_rules, mongo_rules, fail_open_rules, postgres_rules,
  redis_rules, metrics_path_rules, metrics_token_rules, tuning_rules,
}
use projectbook_backend.Config.Variables.{variable_rules}
use projectbook_backend.Config.Sections.{
  NetParsers, for_each, list_rules, log_path_rules, metrics_exclude_rules, auth_mode_rules,
  email_rules, tracing_rules, log_rules,
}
use projectbook_backend.Config.Production.{
  is_production_environment, requires_hardening, hardening_rules,
}

-- resolveProfileDefaults on APP_PROFILE, which is one of the three profiles.
unfoldable pub profile_rules : Environment → List LintRule
unfolding get_raw trim_space to_lower mem_text
profile_rules env =
    let profile = get_raw env (codes "APP_PROFILE") in
    if is_blank profile
    then []
    else (
      not (
          mem_text (to_lower (trim_space profile))
            (codes "minimal" ∷ codes "dev" ∷ codes "prod" ∷ [])),
      failed_at "invalid APP_PROFILE" profile,
    )
      ∷ []

abbrev pub all_rules : List (List LintRule) → List LintRule
all_rules [] = []
all_rules (rules ∷ sections) = rules ++ all_rules sections

abbrev pub rules_if : Bool → List LintRule → List LintRule
rules_if b rules = if b then rules else []

module _ (p : NetParsers) (q : Parsers) (env : Environment) (c : Config) where
  unfoldable pub lint_sections : List (List LintRule)
  unfolding profile_rules identity_rules http_rules list_rules auth_mode_rules email_rules
      requires_hardening hardening_rules store_rules mongo_rules fail_open_rules log_path_rules
      postgres_rules redis_rules metrics_path_rules metrics_exclude_rules metrics_token_rules
      tuning_rules tracing_rules variable_rules log_rules is_production_environment
  lint_sections =
      profile_rules env
      ∷ identity_rules c
      ∷ http_rules c
      ∷ list_rules p c
      ∷ auth_mode_rules c
      ∷ email_rules p c
      ∷ rules_if (requires_hardening c) (hardening_rules p env c)
      ∷ store_rules c
      ∷ mongo_rules c
      ∷ rules_if (is_production_environment c.env) (fail_open_rules c)
      ∷ for_each log_path_rules c.http.middleware.access_log.exclude_paths
      ∷ postgres_rules c
      ∷ redis_rules c
      ∷ metrics_path_rules c
      ∷ for_each metrics_exclude_rules c.metrics.exclude_paths
      ∷ rules_if (is_production_environment c.env) (metrics_token_rules c)
      ∷ tuning_rules c
      ∷ tracing_rules c
      ∷ variable_rules q env
      ∷ log_rules c
      ∷ []

  -- Lint
  unfoldable pub lint : Result LintError (Unit {0})
  unfolding lint_sections first_failure
  lint = first_failure (all_rules lint_sections)

abbrev pub Passes : LintRule → Type 0
Passes r = r.0 ≡ false

pub first_failure-All : (rules : List LintRule) → first_failure rules ≡ ok tt → All Passes rules
unfolding first_failure
first_failure-All [] h = tt
first_failure-All ((true, e) ∷ rules) h = cc
first_failure-All ((false, e) ∷ rules) h = (refl, first_failure-All rules h)

pub All-append : (xs ys : List LintRule) → All Passes (xs ++ ys) → All Passes xs × All Passes ys
All-append [] ys h = (tt, h)
All-append (x ∷ xs) ys (hx, h) = let (hs, rest) = All-append xs ys h in ((hx, hs), rest)

pub All-sections : (xss : List (List LintRule)) → All Passes (all_rules xss) → All (All Passes) xss
All-sections [] h = tt
All-sections (xs ∷ xss) h =
    let (hx, rest) = All-append xs (all_rules xss) h in (hx, All-sections xss rest)
