-- ===== src/RateLimit.antt =====
-- security/ratelimit.py: the allowance of a project in a fixed window. The clock is in whole seconds.
pub mod Admitted
pub mod Counted
mod Tests
use seskit.Base.{
  ℕ, zero, suc, ◌+◌, ◌-◌, ◌*◌, ◌/◌, max, leb, ◌==◌, Bool, true, false, ◌&&◌, Option, none, some,
  if◌then◌else◌,
}
use seskit.Redis.{Slot, Store, live, get, write, expire_nx, at}

pub record RateLimitStatus : Type 0 where
  pub allowed : Bool
  pub limit : ℕ
  pub remaining : ℕ
  pub reset_at : ℕ

-- `ratelimit:{project}:{window start}`.
pub record RateKey : Type 0 where
  pub project_id : ℕ
  pub window_start : ℕ

abbrev pub Counters : Type 0
Counters = Store {0, 0} RateKey ℕ

unfoldable pub same_key : RateKey → RateKey → Bool
same_key a b = (a.project_id == b.project_id) && (a.window_start == b.window_start)

unfoldable pub window_start_of : (now window_seconds : ℕ) → ℕ
window_start_of now window_seconds = now / window_seconds * window_seconds

-- `INCR`.
abbrev pub incremented : Option ℕ → ℕ
incremented none = 1
incremented (some n) = suc n

abbrev pub or_zero : Option ℕ → ℕ
or_zero none = 0
or_zero (some n) = n

-- One pipeline: `INCR`, then `EXPIRE … NX`.
unfoldable pub counted : (now window_seconds : ℕ) → Slot ℕ → Slot ℕ
counted now window_seconds slot = expire_nx now window_seconds (write now incremented slot)

unfoldable pub retry_after : (now : ℕ) → RateLimitStatus → ℕ
retry_after now status = max 1 (status.reset_at - now)

-- `reached`: whether the pipeline reaches Redis; if it does not, the request is let through.
unfoldable pub check_rate_limit :
    (reached : Bool)
    → (now project_id limit window_seconds : ℕ) → Counters
    → RateLimitStatus × Counters
unfolding window_start_of counted same_key
check_rate_limit reached now project_id limit window_seconds counters =
    let start = window_start_of now window_seconds in
    let after =
      at same_key (record { project_id = project_id; window_start = start })
        (counted now window_seconds) counters in
    let used =
      or_zero (get now (after (record { project_id = project_id; window_start = start }))) in
    if reached
    then (
      record {
        allowed = leb used limit;
        limit = limit;
        remaining = limit - used;
        reset_at = start + window_seconds;
      },
      after,
    )
    else (
      record {
        allowed = true;
        limit = limit;
        remaining = limit;
        reset_at = start + window_seconds;
      },
      counters,
    )

unfoldable pub reset_rate_limit : (now project_id window_seconds : ℕ) → Counters → Counters
unfolding window_start_of same_key
reset_rate_limit now project_id window_seconds counters =
    at same_key
      (record { project_id = project_id; window_start = window_start_of now window_seconds })
      (λ slot. none) counters
