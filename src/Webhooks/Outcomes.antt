-- ===== src/Webhooks/Outcomes.antt =====
-- services/webhooks.py: the outcomes of an attempt, the retry schedule and the automatic switch-off.
use native.Mathlib.Nat.{pow-suc}
use native.Mathlib.Numerals.{unary_clauses}
use seskit.Base.{
  ℕ, zero, suc, ◌+◌, ◌-◌, ◌*◌, ◌^◌, ◌≤◌, ◌<◌, max, ltb, String, true, false, Option, if◌then◌else◌,
  is_some, Bool-cases, ◌≡◌, inl, inr, refl, arith,
}
use seskit.Webhooks.{
  active, disabled_after_failures, WebhookEndpoint, is_enabled, WebhookDelivery, status_is_pending,
  is_settled, second, tenth, jitter_tenths, interval, backoff, Limits, Finding,
  record_delivery_success, record_delivery_failure, count_failure,
}

-- A delivery row between two attempts: it has a due time exactly while it is pending, a pending one
-- has attempts left, and no row has had more than the limit.
pub record IsWellFormed (limits : Limits) (d : WebhookDelivery) : Type 0 where
  pub due_iff_pending : is_some d.next_attempt_at ≡ status_is_pending d.status
  pub attempts_left : status_is_pending d.status ≡ true → d.attempt_count < limits.max_attempts
  pub bounded : d.attempt_count ≤ limits.max_attempts

-- An endpoint that is on has not reached the limit.
abbrev pub IsBelowLimit : Limits → WebhookEndpoint → Type 0
IsBelowLimit limits e = is_enabled e ≡ true → e.consecutive_failures < limits.failure_limit

-- `random.uniform` answers within its bounds.
abbrev pub IsUniform : (ℕ → ℕ → ℕ) → Type 0
IsUniform uniform = (lo hi : ℕ) → lo ≤ hi → (lo ≤ uniform lo hi) × (uniform lo hi ≤ hi)

two_pow_pos : (k : ℕ) → 0 < 2 ^ k
two_pow_pos zero = simp unary_clauses (omega arith)
two_pow_pos (suc k) = rw pow-suc (omega (arith, two_pow_pos k))

interval_pos : (attempt base : ℕ) → 0 < base → 0 < interval attempt base
unfolding interval
interval_pos attempt base h = grind (arith, two_pow_pos (attempt - 1))

-- The wait doubles from one attempt to the next.
interval_suc :
    (attempt base : ℕ) → 0 < attempt → interval (attempt + 1) base ≡ 2 * interval attempt base
unfolding interval
interval_suc zero base h = absurd (omega arith)
interval_suc (suc k) base h =
    let over : suc k + 1 - 1 ≡ suc k = omega arith in
    let back : suc k - 1 ≡ k = omega arith in rw (over, back, pow-suc) (omega arith)

-- The two ends of the range that is drawn from.
spread_ordered : (n : ℕ) → n * (10 - jitter_tenths) * tenth ≤ n * (10 + jitter_tenths) * tenth
spread_ordered n = omega arith

drawn : (ℕ → ℕ → ℕ) → ℕ → ℕ
drawn uniform n =
    max second (uniform (n * (10 - jitter_tenths) * tenth) (n * (10 + jitter_tenths) * tenth))

module _ (uniform : ℕ → ℕ → ℕ) (fair : IsUniform uniform) where
  -- A wait lies within three tenths of the interval, and is never under a second.
  pub backoff_bounds :
      (attempt base : ℕ)
      → (max second (interval attempt base * 7 * tenth) ≤ backoff uniform attempt base)
        × (backoff uniform attempt base ≤ max second (interval attempt base * 13 * tenth))
  unfolding backoff
  backoff_bounds attempt base =
      let (low, high) = fair _ _ (spread_ordered (interval attempt base)) in
      (omega arith, omega arith)

  drawn_lt :
      (draw : ℕ → ℕ → ℕ) (n m : ℕ)
      → IsUniform draw
      → 0 < n
      → m ≡ 2 * n
      → drawn uniform n < drawn draw m
  unfolding drawn
  drawn_lt draw n m even pos double =
      let (_, high) = fair _ _ (spread_ordered n) in
      let (low, _) = even _ _ (spread_ordered m) in omega arith

  -- Whatever is drawn, each wait is longer than the one before it.
  pub backoff-lt-backoff :
      (draw : ℕ → ℕ → ℕ) (attempt base : ℕ)
      → IsUniform draw
      → 0 < base
      → 0 < attempt
      → backoff uniform attempt base < backoff draw (attempt + 1) base
  backoff-lt-backoff draw attempt base even some_base some_attempt =
      unfold backoff drawn in
      drawn_lt draw (interval attempt base) (interval (attempt + 1) base) even
        (interval_pos attempt base some_base) (interval_suc attempt base some_attempt)

module _ (limits : Limits) (d : WebhookDelivery) (e : WebhookEndpoint) where
  -- A delivery that succeeds is settled, and its endpoint starts counting again from zero.
  pub record_delivery_success-IsWellFormed :
      (now status : ℕ) (body : Option String)
      → IsWellFormed limits d
      → is_settled d ≡ false
      → IsWellFormed limits (record_delivery_success now d e status body).0
  unfolding record_delivery_success
  record_delivery_success-IsWellFormed now status body well open_ = record {
    due_iff_pending = refl;
    attempts_left = λ h. absurd (cc);
    bounded = ground (arith, well.attempts_left);
  }

  pub record_delivery_failure-IsWellFormed :
      (uniform : ℕ → ℕ → ℕ) (now later : ℕ) (f : Finding)
      → IsWellFormed limits d
      → is_settled d ≡ false
      → IsWellFormed limits (record_delivery_failure uniform now later limits d e f).1
  unfolding record_delivery_failure
  record_delivery_failure-IsWellFormed uniform now later f well open_ =
      ground (arith, well.attempts_left)

  -- An endpoint that is on stays below the limit, or is switched off.
  pub record_delivery_failure-IsBelowLimit :
      (uniform : ℕ → ℕ → ℕ) (now later : ℕ) (f : Finding)
      → IsBelowLimit limits e
      → IsBelowLimit limits (record_delivery_failure uniform now later limits d e f).2
  unfolding record_delivery_failure count_failure
  record_delivery_failure-IsBelowLimit uniform now later f below = ground (arith, below)

-- A number of terminal failures in a row.
pub fail_times : ℕ → ℕ → WebhookEndpoint → WebhookEndpoint
fail_times limit zero e = e
fail_times limit (suc n) e = fail_times limit n (count_failure limit e)

-- An endpoint that is off, for whatever reason, keeps that reason.
pub count_failure_off :
    (limit : ℕ) (e : WebhookEndpoint)
    → is_enabled e ≡ false
    → (count_failure limit e).status ≡ e.status
unfolding count_failure
count_failure_off limit e off = ground arith

count_failure_on :
    (limit : ℕ) (e : WebhookEndpoint)
    → is_enabled e ≡ true
    → ((count_failure limit e).status
        ≡ (if ltb (e.consecutive_failures + 1) limit then active else disabled_after_failures))
      × ((count_failure limit e).consecutive_failures ≡ e.consecutive_failures + 1)
unfolding count_failure
count_failure_on limit e on = ground arith

fail_times_off :
    (limit n : ℕ) (e : WebhookEndpoint)
    → is_enabled e ≡ false
    → (fail_times limit n e).status ≡ e.status
unfolding fail_times
fail_times_off limit zero e off = refl
fail_times_off limit (suc n) e off =
    ground (arith, fail_times_off limit n (count_failure limit e), count_failure_off limit e off)

-- An endpoint that is on is switched off by exactly the failure that makes the count reach the
-- limit, and stays as it was until then.
pub fail_times_status :
    (limit n : ℕ) (e : WebhookEndpoint)
    → is_enabled e ≡ true
    → e.consecutive_failures < limit
    → (fail_times limit n e).status
      ≡ (if ltb (e.consecutive_failures + n) limit then active else disabled_after_failures)
unfolding fail_times
fail_times_status limit zero e on below = ground arith
fail_times_status limit (suc n) e on below =
    let (status, counted) = count_failure_on limit e on in
    elim (Bool-cases (ltb (e.consecutive_failures + 1) limit)) [
      | inl more ↦
          ground (arith, status, counted, more, fail_times_status limit n (count_failure limit e))
      | inr last ↦
          ground (arith, status, counted, last, fail_times_off limit n (count_failure limit e))
    ]
