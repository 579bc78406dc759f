-- ===== src/Delivery/Tests.antt =====
-- The worker's attempts in a small world.
use seskit.Base.{ℕ, suc, ◌+◌, ◌≤◌, true, some, List, [], ◌∷◌, ok, err, length, ◌≡◌, refl, arith}
use seskit.Destinations.{refused, pinned, validate}
use seskit.Destinations.Tests.{
  toy_net, bad_hook, strict, public_answer, hook, hook_destination, run_check,
}
use seskit.Webhooks.{WebhookEndpoint, WebhookDelivery, active, is_settled}
use seskit.Webhooks.Outcomes.{IsWellFormed}
use seskit.Webhooks.Queue.{new_delivery}
use seskit.Delivery.{answered, uncaught, raised, Settings, World, deliver_one, chunks_read}
use seskit.Delivery.Bound.{calls, calls_bounded}

abbrev settings : Settings toy_net
settings = record {
  policy = strict;
  limits = record { max_attempts = 6; base_seconds = 5; failure_limit = 10 };
  capture_bytes = 4096;
}

abbrev world : World toy_net
world = record {
  resolve = public_answer;
  post = λ request. answered 503 "text/plain" ((b'n' ∷ b'o' ∷ []) ∷ []);
  payload = λ event_id. b'{' ∷ b'}' ∷ [];
  mac = λ secret bytes. secret;
  lower = λ t. t;
  decode = λ bytes. "no";
  uniform = λ lo hi. hi;
  unix_seconds = 1756800000;
  now = 10;
  later = 11;
}

-- The same world after the name has been pointed at the loopback address.
abbrev rebound : World toy_net
rebound = record world { resolve = λ host. ok ("127.0.0.1" ∷ []) }

abbrev endpoint : WebhookEndpoint
endpoint = record {
  id = 3;
  project_id = 7;
  url = hook;
  secret = "whsec_a";
  status = active;
  consecutive_failures = 0;
}

abbrev row : WebhookDelivery
row = new_delivery 60 5 3 50

row-IsWellFormed : IsWellFormed settings.limits row
row-IsWellFormed = record {
  due_iff_pending = refl;
  attempts_left = λ _. omega arith;
  bounded = omega arith;
}

rebound_refused : validate toy_net strict (λ host. ok ("127.0.0.1" ∷ [])) hook ≡ err refused
unfolding run_check
rebound_refused = refl

pinned_hook : pinned toy_net hook_destination ≡ some 93
unfolding run_check
pinned_hook = refl

chunks : List (List ℕ)
chunks = (1 ∷ 2 ∷ 3 ∷ []) ∷ (4 ∷ 5 ∷ []) ∷ (6 ∷ []) ∷ []

two_chunks : chunks_read 4 0 chunks ≡ suc 1
unfolding chunks chunks_read
two_chunks = refl

-- The endpoint answers, and then the HTTP client raises.
abbrev two_calls : List (World toy_net × WebhookEndpoint)
two_calls = (world, endpoint) ∷ (record world { post = λ request. uncaught }, endpoint) ∷ []

calls_bounded_example :
    let called = calls toy_net settings two_calls row in
    (length called.requests + 0 ≤ 6 + called.raises)
    × (6 + called.raises ≤ 2 + 0 → is_settled called.row ≡ true)
calls_bounded_example = calls_bounded toy_net settings two_calls row row-IsWellFormed

-- The same endpoint with a port out of range: no request is made, and nothing is counted.
raised_bad_port :
    deliver_one toy_net world settings row (record endpoint { url = bad_hook }) ≡ raised []
unfolding deliver_one run_check
raised_bad_port = refl
