-- ===== src/Webhooks/Tests.antt =====
-- services/webhooks.py on small tables.
use seskit.Base.{ℕ, ◌+◌, true, none, some, List, [], ◌∷◌, ◌++◌, ok, any, All, ◌≡◌, arith}
use seskit.Members.{In}
use seskit.Events.{EmailEvent, bounced}
use seskit.Destinations.Tests.{toy_net, strict, public_answer, hook, validate-hook}
use seskit.Webhooks.{WebhookEndpoint, WebhookDelivery, active, disabled_by_user, Limits}
use seskit.Webhooks.Outcomes.{IsUniform}
use seskit.Webhooks.Endpoints.{Webhooks, update_endpoint_url, change_url, Act, disable, succeed}
use seskit.Webhooks.Queue.{Owned, queue_deliveries, is_for, new_delivery}
use seskit.Webhooks.Queue.Unique.{queue_deliveries_twice}
use seskit.Webhooks.Queue.Whom.{IsWanted, queue_deliveries-whom}

abbrev limits : Limits
limits = record { max_attempts = 6; base_seconds = 5; failure_limit = 10 }

abbrev lowest : ℕ → ℕ → ℕ
lowest lo hi = lo

lowest-IsUniform : IsUniform lowest
lowest-IsUniform lo hi h = (omega arith, h)

abbrev endpoint : WebhookEndpoint
endpoint = record {
  id = 3;
  project_id = 7;
  url = "https://old.example";
  secret = "whsec_a";
  status = active;
  consecutive_failures = 8;
}

abbrev event : EmailEvent
event = record {
  id = 50;
  email_id = some 20;
  inbound_email_id = none;
  event_type = bounced;
  provider_event_id = none;
  payload = record { id = 50; event_type = bounced; subject = 20; created_at = 0; fields = [] };
  occurred_at = 0;
}

abbrev emails : List Owned
emails = record { id = 20; project_id = 7 } ∷ []

abbrev hooks : Webhooks
hooks = record {
  endpoints = endpoint ∷ record endpoint { id = 4; status = disabled_by_user } ∷ [];
  deliveries = [];
}

moved_endpoint :
    update_endpoint_url toy_net (λ t. t) strict public_answer endpoint hook
    ≡ ok (record endpoint { url = hook; consecutive_failures = 0 }, true)
unfolding update_endpoint_url change_url
moved_endpoint = rw validate-hook

abbrev row : WebhookDelivery
row = new_delivery 60 1000 3 50

abbrev acts : List Act
acts = succeed 1 200 none row ∷ disable ∷ succeed 2 200 none row ∷ []

queue_deliveries-whom_example :
    let (created, queued) = queue_deliveries emails [] (λ n. n + 60) 1000 event hooks in
    All
      (λ d.
        (e : WebhookEndpoint) × (In e hooks.endpoints × IsWanted emails [] event e)
        × (d ≡ new_delivery (e.id + 60) 1000 e.id 50))
      created
    × ((e : WebhookEndpoint)
        → In e hooks.endpoints
        → IsWanted emails [] event e
        → any (is_for e.id 50) queued.deliveries ≡ true)
    × (queued.deliveries ≡ [] ++ created)
queue_deliveries-whom_example = queue_deliveries-whom emails [] event hooks (λ n. n + 60) 1000

queue_deliveries_twice_example :
    let queued = (queue_deliveries emails [] (λ n. n + 60) 1000 event hooks).1 in
    queue_deliveries emails [] (λ n. n + 80) 2000 event queued ≡ ([], queued)
queue_deliveries_twice_example =
    queue_deliveries_twice emails [] event hooks (λ n. n + 60) (λ n. n + 80) 1000 2000
