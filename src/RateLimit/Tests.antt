-- ===== src/RateLimit/Tests.antt =====
-- security/ratelimit.py: the theorems at concrete histories.
use seskit.Base.{ℕ, ◌-◌, ◌+◌, ◌≤◌, suc, leb, true, false, List, [], ◌∷◌, ◌≡◌, arith}
use seskit.RateLimit.{window_start_of, check_rate_limit}
use seskit.RateLimit.Counted.{Act, request, run, tally, no_counters, check_rate_limit_exact}
use seskit.RateLimit.Admitted.{admitted, IsUnreset, admitted_bounded}

abbrev burst : List (ℕ × Act)
burst =
    (120, request 7 true)
    ∷ (121, request 8 true)
    ∷ (125, request 7 false)
    ∷ (130, request 7 true)
    ∷ (170, request 7 true)
    ∷ []

check_rate_limit_exact_example :
    let start = window_start_of 175 60 in
    let used = tally 2 60 7 start burst 0 in
    (check_rate_limit true 175 7 2 60 (run 2 60 burst no_counters)).0 ≡ record {
      allowed = leb (suc used) 2;
      limit = 2;
      remaining = 2 - suc used;
      reset_at = start + 60;
    }
check_rate_limit_exact_example = check_rate_limit_exact 2 60 burst 175 7 (omega arith)

burst-IsUnreset : IsUnreset 2 60 7 2 burst
unfolding IsUnreset
burst-IsUnreset = tt

admitted_bounded_example : admitted 2 60 7 2 burst no_counters ≤ 2
admitted_bounded_example = admitted_bounded 2 60 7 2 burst (omega arith) burst-IsUnreset
