-- ===== src/RateLimit/Tests.antt =====
-- The limiter over a counter, at a limit of two requests in a second.
use projectbook_backend.Base.{ℕ, suc, ◌<◌, min, ◌-◌, ◌≡◌, refl, false, none, some, ok, arith}
use projectbook_backend.Text.{codes}
use projectbook_backend.Policy.Http.{Decision, blocked}
use projectbook_backend.Policy.Gates.{retry_after_seconds}
use projectbook_backend.RateLimit.{LimitRequest, user, token, Redis, Limiter, allow, build_key}
use projectbook_backend.RateLimit.Identity.{
  Source, Rule, resolve_scope_and_identifier, IsBounded, resolve_scope_and_identifier-IsBounded,
}
use projectbook_backend.RateLimit.Window.{IsLive, allowed_count, window_budget, allow-retry_after}

abbrev counter : Redis ℕ
counter = record {
  incr = λ key n. (ok (suc n), suc n);
  pexpire = λ key ms n. (ok tt, n);
  pttl = λ key n. (ok none, n);
}

abbrev limiter : Limiter
limiter = record { env = codes "prod"; fail_open = false }

abbrev request : LimitRequest
request = record {
  route = codes "/a b";
  scope = user;
  identifier = codes " u 1 ";
  limit = 2;
  window = 1000000000;
}

abbrev turned_away : Decision
turned_away = record { allowed = false; remaining = 0; retry_after = 1000000000; outcome = blocked }

key_text :
    build_key (codes "prod") request.route user request.identifier ≡ codes "rl:prod:/a_b:user:u_1"
unfolding build_key
key_text = refl

third_request : (allow counter limiter request 2).0 ≡ ok turned_away
unfolding allow
third_request = refl

counter-IsLive :
    IsLive counter (build_key limiter.env request.route user request.identifier) (λ n. n)
counter-IsLive = record {
  counts = λ w. refl;
  counted = λ w. refl;
  expires = λ ms w. refl;
  expire_keeps = λ ms w long. refl;
  answers = λ w. (none, refl);
  ttl_keeps = λ w. refl;
}

window_budget_example : allowed_count counter limiter request 5 1 ≡ min 5 (2 - 1)
window_budget_example =
    window_budget counter limiter request (λ n. n) counter-IsLive (omega arith) (omega arith) 5 1

allow-retry_after_example :
    (0 < turned_away.retry_after) × (0 < retry_after_seconds turned_away.retry_after)
allow-retry_after_example =
    allow-retry_after counter limiter request 2 turned_away third_request refl

-- A bearer token that hashes to a short text.
abbrev source : Source
source = record {
  principal = none;
  client_ip = none;
  remote_addr = codes "10.0.0.1:80";
  authorization = codes " bearer  abc ";
}

abbrev limited_user : Rule
limited_user = record { scope = user; keyer = none }

token_counted :
    resolve_scope_and_identifier (λ t. some t) (λ t. t) source limited_user ≡ (token, codes "abc")
unfolding resolve_scope_and_identifier
token_counted = refl

resolve_scope_and_identifier-IsBounded_example :
    IsBounded (resolve_scope_and_identifier (λ t. some t) (λ t. t) source limited_user)
resolve_scope_and_identifier-IsBounded_example =
    resolve_scope_and_identifier-IsBounded (λ t. some t) (λ t. t) source limited_user
