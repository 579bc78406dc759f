-- ===== src/Webhooks.antt =====
-- models/webhook.py and services/webhooks.py: endpoints, delivery rows, and what an attempt's outcome
-- does to them. A moment is a number of microseconds; rows and projects are named by numbers.
pub mod Outcomes
pub mod Endpoints
pub mod Queue
mod Tests
use seskit.Base.{
  ℕ, ◌+◌, ◌-◌, ◌*◌, ◌^◌, max, leb, ltb, String, Bool, true, false, ◌&&◌, not, Option, none, some,
  List, if◌then◌else◌,
}

pub data WebhookStatus : Type 0 where
  active disabled_by_user disabled_after_failures : WebhookStatus

pub data DeliveryStatus : Type 0 where
  pending delivered failed : DeliveryStatus

pub record WebhookEndpoint : Type 0 where
  pub id : ℕ
  pub project_id : ℕ
  pub url : String
  pub secret : String
  pub status : WebhookStatus
  pub consecutive_failures : ℕ

abbrev pub status_is_active : WebhookStatus → Bool
status_is_active active = true
status_is_active disabled_by_user = false
status_is_active disabled_after_failures = false

abbrev pub is_enabled : WebhookEndpoint → Bool
is_enabled e = status_is_active e.status

pub record WebhookDelivery : Type 0 where
  pub id : ℕ
  pub webhook_endpoint_id : ℕ
  pub event_id : ℕ
  pub status : DeliveryStatus
  pub attempt_count : ℕ
  pub response_status : Option ℕ
  pub response_body : Option String
  pub error : Option String
  pub last_attempt_at : Option ℕ
  pub next_attempt_at : Option ℕ

abbrev pub status_is_pending : DeliveryStatus → Bool
status_is_pending pending = true
status_is_pending delivered = false
status_is_pending failed = false

abbrev pub is_settled : WebhookDelivery → Bool
is_settled d = not (status_is_pending d.status)

-- One second. `JITTER` is three tenths.
abbrev pub second : ℕ
second = 1000000

abbrev pub tenth : ℕ
tenth = 100000

abbrev pub jitter_tenths : ℕ
jitter_tenths = 3

-- `base * 2 ** max(0, attempt - 1)` in seconds; `-` on ℕ stops at 0, as the `max` does.
unfoldable pub interval : ℕ → ℕ → ℕ
interval attempt base = base * 2 ^ (attempt - 1)

-- `uniform lo hi` is `random.uniform`, rounded to a microsecond.
unfoldable pub backoff : (uniform : ℕ → ℕ → ℕ) → ℕ → ℕ → ℕ
unfolding interval
backoff uniform attempt base = max second (
    uniform (interval attempt base * (10 - jitter_tenths) * tenth)
      (interval attempt base * (10 + jitter_tenths) * tenth))

-- The settings that decide when to give up.
pub record Limits : Type 0 where
  pub max_attempts : ℕ
  pub base_seconds : ℕ
  pub failure_limit : ℕ

-- What one attempt found out.
pub record Finding : Type 0 where
  pub response_status : Option ℕ
  pub response_body : Option String
  pub error : Option String
  pub retryable : Bool

unfoldable pub record_delivery_success :
    (now : ℕ)
    → WebhookDelivery
    → WebhookEndpoint
    → (response_status : ℕ) → (response_body : Option String) → WebhookDelivery × WebhookEndpoint
record_delivery_success now delivery endpoint response_status response_body = (
  record delivery {
    status = delivered;
    attempt_count = delivery.attempt_count + 1;
    response_status = some response_status;
    response_body = response_body;
    error = none;
    last_attempt_at = some now;
    next_attempt_at = none;
  },
  record endpoint { consecutive_failures = 0 },
)

-- A terminal failure counts, and switches an active endpoint off at the limit.
unfoldable pub count_failure : ℕ → WebhookEndpoint → WebhookEndpoint
count_failure failure_limit endpoint =
    let counted = record endpoint { consecutive_failures = endpoint.consecutive_failures + 1 } in
    if leb failure_limit (endpoint.consecutive_failures + 1) && is_enabled endpoint
    then record counted { status = disabled_after_failures }
    else counted

-- `now` and `later` are the two readings of the clock.
unfoldable pub record_delivery_failure :
    (uniform : ℕ → ℕ → ℕ)
    → (now later : ℕ) → Limits
    → WebhookDelivery
    → WebhookEndpoint
    → Finding
    → DeliveryStatus × WebhookDelivery × WebhookEndpoint
unfolding count_failure
record_delivery_failure uniform now later limits delivery endpoint finding =
    let tried = record delivery {
      attempt_count = delivery.attempt_count + 1;
      response_status = finding.response_status;
      response_body = finding.response_body;
      error = finding.error;
      last_attempt_at = some now;
    } in
    if finding.retryable && ltb (delivery.attempt_count + 1) limits.max_attempts
    then (
      pending,
      record tried {
        next_attempt_at =
            some (later + backoff uniform (delivery.attempt_count + 1) limits.base_seconds);
      },
      endpoint,
    )
    else (
      failed,
      record tried { status = failed; next_attempt_at = none },
      count_failure limits.failure_limit endpoint,
    )
