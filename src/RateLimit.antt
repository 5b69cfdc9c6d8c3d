-- ===== src/RateLimit.antt =====
-- internal/core/ratelimit/ratelimit.go: the fixed-window limiter, its Lua script and its keys. A
-- duration is a number of nanoseconds.
pub mod Window
pub mod Identity
mod Tests
use projectbook_backend.Base.{
  ℕ, ◌-◌, ◌*◌, ◌/◌, ltb, leb, ◌==◌, take, Bool, true, false, ◌||◌, Option, none, some, List, [],
  ◌∷◌, ◌++◌, if◌then◌else◌, Result, ok, err,
}
use projectbook_backend.Text.{Text, codes, is_empty, trim_space}
use projectbook_backend.Policy.Http.{Decision, LimitOutcome, allowed, blocked, fail_open, error}

-- Scope, a string: `unset` is the empty one, and `other` any that is none of the declared constants.
pub data Scope : Type 0 where
  unset auto anon ip user project token : Scope
  other : Text → Scope

unfoldable pub scope_text : Scope → Text
scope_text unset = []
scope_text auto = codes "auto"
scope_text anon = codes "anon"
scope_text ip = codes "ip"
scope_text user = codes "user"
scope_text project = codes "project"
scope_text token = codes "token"
scope_text (other t) = t

pub record LimitRequest : Type 0 where
  pub route : Text
  pub scope : Scope
  pub identifier : Text
  pub limit : ℕ
  pub window : ℕ

-- strings.ReplaceAll of single bytes.
unfoldable pub replace_bytes : (ℕ → Bool) → Text → Text
replace_bytes p [] = []
replace_bytes p (c ∷ s) = (if p c then 95 else c) ∷ replace_bytes p s

unfoldable pub normalize_route : Text → Text
unfolding replace_bytes trim_space
normalize_route route =
    if is_empty (trim_space route)
    then codes "unknown"
    else take 240 (replace_bytes (λ c. c == 32) (trim_space route))

unfoldable pub sanitize_identifier : Text → Text
unfolding replace_bytes trim_space
sanitize_identifier id =
    take 128 (replace_bytes (λ c. (c == 32) || (c == 10) || (c == 13) || (c == 9)) (trim_space id))

unfoldable pub normalize_scope : Scope → Scope
normalize_scope unset = anon
normalize_scope auto = anon
normalize_scope ip = ip
normalize_scope user = user
normalize_scope project = project
normalize_scope token = token
normalize_scope anon = anon
normalize_scope (other t) = other t

abbrev or_text : Text → Text → Text
or_text s d = if is_empty s then d else s

unfoldable pub build_key : Text → Text → Scope → Text → Text
unfolding normalize_route sanitize_identifier normalize_scope scope_text trim_space
build_key env route scope id =
    codes "rl:"
    ++ or_text (trim_space env) (codes "dev")
    ++ codes ":"
    ++ normalize_route route
    ++ codes ":"
    ++ scope_text (normalize_scope scope)
    ++ codes ":"
    ++ or_text (sanitize_identifier id) (codes "anonymous")

-- The Redis commands of the script over the state W of the server; `pttl` answers nothing where Redis
-- answers a negative number.
pub record Redis (W : Type 0) : Type 0 where
  pub incr : Text → W → Result (Unit {0}) ℕ × W
  pub pexpire : Text → ℕ → W → Result (Unit {0}) (Unit {0}) × W
  pub pttl : Text → W → Result (Unit {0}) (Option ℕ) × W

-- The answer of the script: whether the request is allowed, the count and the time to live.
pub record Reply : Type 0 where
  pub allowed : Bool
  pub current : ℕ
  pub ttl : ℕ

pub record Limiter : Type 0 where
  pub env : Text
  pub fail_open : Bool

-- validateRequest
pub data LimitError : Type 0 where
  limit_not_positive window_not_positive : LimitError

abbrev pub milliseconds : ℕ → ℕ
milliseconds d = d / 1000000

unfoldable pub ttl_or : ℕ → Option ℕ → ℕ
ttl_or window_ms none = window_ms
ttl_or window_ms (some t) = t

module _ {W : Type 0} (s : Redis W) where
  open s use {incr, pexpire, pttl}

  -- The lines of the script after the count.
  unfoldable pub on_ttl : ℕ → ℕ → ℕ → Result (Unit {0}) (Option ℕ) → W → Result (Unit {0}) Reply × W
  unfolding ttl_or
  on_ttl limit window_ms current (err e) w = (err e, w)
  on_ttl limit window_ms current (ok t) w =
      (ok (record { allowed = leb current limit; current = current; ttl = ttl_or window_ms t }), w)

  unfoldable pub on_expire :
      Text → ℕ → ℕ → ℕ → Result (Unit {0}) (Unit {0}) → W → Result (Unit {0}) Reply × W
  unfolding on_ttl
  on_expire key limit window_ms current (err e) w = (err e, w)
  on_expire key limit window_ms current (ok u) w =
      let (t, w') = pttl key w in on_ttl limit window_ms current t w'

  unfoldable pub on_count : Text → ℕ → ℕ → Result (Unit {0}) ℕ → W → Result (Unit {0}) Reply × W
  unfolding on_expire
  on_count key limit window_ms (err e) w = (err e, w)
  on_count key limit window_ms (ok current) w =
      let (u, w') = if current == 1 then pexpire key window_ms w else (ok tt, w) in
      on_expire key limit window_ms current u w'

  -- fixedWindowScript
  unfoldable pub fixed_window : Text → ℕ → ℕ → W → Result (Unit {0}) Reply × W
  unfolding on_count
  fixed_window key limit window_ms w =
      let (current, w') = incr key w in on_count key limit window_ms current w'

-- The decision on the script's answer, or on its failure.
unfoldable pub decide : Limiter → LimitRequest → Result (Unit {0}) Reply → Decision
decide l q (err e) =
    if l.fail_open
    then record { allowed = true; remaining = 0; retry_after = 0; outcome = LimitOutcome.fail_open }
    else record { allowed = false; remaining = 0; retry_after = q.window; outcome = error }
decide l q (ok r) =
    if r.allowed
    then record {
      allowed = true;
      remaining = q.limit - r.current;
      retry_after = 0;
      outcome = LimitOutcome.allowed;
    }
    else record {
      allowed = false;
      remaining = q.limit - r.current;
      retry_after = if ltb 0 r.ttl then r.ttl * 1000000 else q.window;
      outcome = blocked;
    }

module _ {W : Type 0} (s : Redis W) where
  -- Allow
  unfoldable pub allow : Limiter → LimitRequest → W → Result LimitError Decision × W
  unfolding build_key fixed_window decide
  allow l q w =
      if q.limit == 0
      then (err limit_not_positive, w)
      else if q.window == 0
      then (err window_not_positive, w)
      else (let (r, w') =
            fixed_window s (build_key l.env q.route q.scope q.identifier) q.limit
              (milliseconds q.window) w in
          (ok (decide l q r), w'))
