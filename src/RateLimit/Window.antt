-- ===== src/RateLimit/Window.antt =====
-- The budget of a window.
use projectbook_backend.Base.{
  ℕ, zero, suc, ◌+◌, ◌-◌, ◌≤◌, ◌<◌, leb, ◌==◌, min, ◌≡◌, refl, ap, ◌∙◌, false, Bool-cases, inl, inr,
  Option, if◌then◌else◌, Result, ok, err, arith,
}
use projectbook_backend.Text.{Text}
use projectbook_backend.Policy.Http.{Decision}
use projectbook_backend.Policy.Gates.{retry_after_seconds}
use projectbook_backend.RateLimit.{
  LimitRequest, LimitError, Redis, Limiter, Reply, fixed_window, on_count, on_expire, on_ttl,
  build_key, decide, allow, milliseconds,
}

-- The commands of Redis on one key while it does not expire: INCR counts, PEXPIRE with a positive
-- time and PTTL leave the count alone, and none of them fails.
pub record IsLive {W : Type 0} (s : Redis W) (key : Text) (count : W → ℕ) : Type 0 where
  pub counts : (w : W) → (s.incr key w).0 ≡ ok (suc (count w))
  pub counted : (w : W) → count (s.incr key w).1 ≡ suc (count w)
  pub expires : (ms : ℕ) (w : W) → (s.pexpire key ms w).0 ≡ ok tt
  pub expire_keeps : (ms : ℕ) (w : W) → 0 < ms → count (s.pexpire key ms w).1 ≡ count w
  pub answers : (w : W) → (t : Option ℕ) × ((s.pttl key w).0 ≡ ok t)
  pub ttl_keeps : (w : W) → count (s.pttl key w).1 ≡ count w

module _ {W : Type 0} (s : Redis W) (key : Text) (count : W → ℕ) (live : IsLive s key count)
    (limit ms : ℕ) (long : 0 < ms) where
  open s use {incr, pexpire, pttl}

  -- What the script did: it answered with the count, and counted.
  abbrev Answered : ℕ → Result (Unit {0}) Reply × W → Type 0
  Answered n out =
      ((r : Reply) × (out.0 ≡ ok r) × (r.allowed ≡ leb n limit) × (r.current ≡ n))
      × (count out.1 ≡ n)

  ttl-Answered :
      (n : ℕ) (o : Result (Unit {0}) (Option ℕ)) (w : W)
      → (t : Option ℕ) × (o ≡ ok t)
      → count w ≡ n
      → Answered n (on_ttl s limit ms n o w)
  unfolding on_ttl
  ttl-Answered n o w (t, e) c = rw e ((_, refl, refl, refl), c)

  expire-Answered :
      (n : ℕ) (w : W) → count w ≡ n → Answered n (on_expire s key limit ms n (ok tt) w)
  unfolding on_expire
  expire-Answered n w c =
      ttl-Answered n (pttl key w).0 (pttl key w).1 (live.answers w) (live.ttl_keeps w ∙ c)

  count-Answered : (n : ℕ) (w : W) → count w ≡ n → Answered n (on_count s key limit ms (ok n) w)
  unfolding on_count
  count-Answered n w c = elim (Bool-cases (n == 1)) [
    | inl first ↦
        rw (first, live.expires ms w)
          (expire-Answered n (pexpire key ms w).1 (live.expire_keeps ms w long ∙ c))
    | inr later ↦ rw later (expire-Answered n w c)
  ]

  fixed_window-Answered : (w : W) → Answered (suc (count w)) (fixed_window s key limit ms w)
  unfolding fixed_window
  fixed_window-Answered w =
      rw (live.counts w) (count-Answered (suc (count w)) (incr key w).1 (live.counted w))

-- The decisions on the same request made n times in a row, counting the ones that allow it.
unfoldable pub one_allowed : Result LimitError Decision → ℕ
one_allowed (ok d) = if d.allowed then 1 else 0
one_allowed (err e) = 0

module _ {W : Type 0} (s : Redis W) (l : Limiter) (q : LimitRequest) where
  unfoldable pub allowed_count : ℕ → W → ℕ
  unfolding one_allowed
  allowed_count zero w = 0
  allowed_count (suc n) w = let (d, w') = allow s l q w in one_allowed d + allowed_count n w'

abbrev key_of : Limiter → LimitRequest → Text
key_of l q = build_key l.env q.route q.scope q.identifier

decided : (l : Limiter) (q : LimitRequest) (r : Reply) → (decide l q (ok r)).allowed ≡ r.allowed
unfolding decide
decided l q r = elim (Bool-cases r.allowed) [ inl e ↦ rw e refl | inr e ↦ rw e refl ]

module _ {W : Type 0} (s : Redis W) (l : Limiter) (q : LimitRequest) (count : W → ℕ)
    (live : IsLive s (key_of l q) count) (some_limit : 0 < q.limit)
    (long : 1000000 ≤ q.window) where
  allow_answered :
      (w : W)
      → (one_allowed (allow s l q w).0 ≡ (if leb (suc (count w)) q.limit then 1 else 0))
        × (count (allow s l q w).1 ≡ suc (count w))
  unfolding allow one_allowed
  allow_answered w =
      let ms = milliseconds q.window in
      let out = fixed_window s (key_of l q) q.limit ms w in
      let ((r, answer, verdict, _), counted) =
        fixed_window-Answered s (key_of l q) count live q.limit ms (omega arith) w in
      let limited : (q.limit == 0) ≡ false = ground arith in
      let windowed : (q.window == 0) ≡ false = ground arith in
      rw (limited, windowed, answer, decided l q r, verdict) (refl, counted)

  -- While the window lasts, n requests with the same key are allowed exactly as long as the limit is
  -- not used up: those allowed are the smaller of n and what is left of the limit at the start. The
  -- limit is positive, the window at least a millisecond, and Redis does not fail or expire the key.
  pub window_budget : (n : ℕ) (w : W) → allowed_count s l q n w ≡ min n (q.limit - count w)
  unfolding allowed_count
  window_budget zero w = omega arith
  window_budget (suc n) w =
      let (one, counted) = allow_answered w in
      let rest = window_budget n (allow s l q w).1 in
      elim (Bool-cases (leb (suc (count w)) q.limit)) [
        | inl under ↦ ground (arith, one, counted, rest, under)
        | inr over ↦ ground (arith, one, counted, rest, over)
      ]

decide-retry_after :
    (l : Limiter) (q : LimitRequest) (o : Result (Unit {0}) Reply)
    → 0 < q.window
    → (decide l q o).allowed ≡ false
    → 0 < (decide l q o).retry_after
unfolding decide
decide-retry_after l q (err e) pos turned = ground arith
decide-retry_after l q (ok r) pos turned = ground arith

ok_is_no_error :
    {d : Decision} {e : LimitError} → ◌≡◌ {A = Result LimitError Decision} (err e) (ok d) → ⊥
ok_is_no_error h = cc

ok_same : {c d : Decision} → ◌≡◌ {A = Result LimitError Decision} (ok c) (ok d) → c ≡ d
ok_same h = ground arith

-- A request that the limiter turns away is told to wait a positive time: the delay is positive, and
-- so is the number of seconds in the Retry-After header.
pub allow-retry_after :
    {W : Type 0} (s : Redis W) (l : Limiter) (q : LimitRequest) (w : W) (d : Decision)
    → (allow s l q w).0 ≡ ok d
    → d.allowed ≡ false
    → (0 < d.retry_after) × (0 < retry_after_seconds d.retry_after)
unfolding allow retry_after_seconds
allow-retry_after s l q w d h turned = elim (Bool-cases (q.limit == 0)) [
  | inl none_left ↦ absurd (ok_is_no_error (rw none_left at h))
  | inr limited ↦ elim (Bool-cases (q.window == 0)) [
    | inl no_window ↦ absurd (ok_is_no_error (rw (limited, no_window) at h))
    | inr windowed ↦
        let made : decide l q _ ≡ d = ok_same (rw (limited, windowed) at h) in
        let wait = decide-retry_after l q _ (ground arith) (ap (λ x. x.allowed) made ∙ turned) in
        let positive : 0 < d.retry_after = rw (← made) wait in (positive, omega arith)
  ]
]
