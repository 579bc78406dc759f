-- ===== src/Webhooks/Queue.antt =====
-- services/webhooks.py: queueing an event's deliveries, and finding the ones that are due.
pub mod Unique
pub mod Whom
pub mod Due
use seskit.Base.{
  ℕ, ◌==◌, leb, Bool, true, false, ◌&&◌, not, Option, none, some, List, [], ◌∷◌, ◌++◌, map,
  if◌then◌else◌, find, select, any, take,
}
use seskit.Events.{EmailEvent, is_public_type}
use seskit.Webhooks.{WebhookEndpoint, WebhookDelivery, pending, is_enabled, status_is_pending}
use seskit.Webhooks.Endpoints.{Webhooks}

-- A message row, as far as its owner: `Email` and `InboundEmail` both have these two columns.
pub record Owned : Type 0 where
  pub id : ℕ
  pub project_id : ℕ

owner_of : ℕ → List Owned → Option ℕ
owner_of id rows = elim (find (λ row. row.id == id) rows) [
  | none ↦ none
  | some row ↦ some row.project_id
]

-- `_project_of`: through whichever parent the event has.
unfoldable pub project_of : (emails inbound_emails : List Owned) → EmailEvent → Option ℕ
unfolding owner_of
project_of emails inbound_emails event = elim event.email_id [
  | some id ↦ owner_of id emails
  | none ↦ elim event.inbound_email_id [ some id ↦ owner_of id inbound_emails | none ↦ none ]
]

-- The unique constraint `uq_webhook_delivery_event`.
abbrev pub is_for : (endpoint_id event_id : ℕ) → WebhookDelivery → Bool
is_for endpoint_id event_id d = d.webhook_endpoint_id == endpoint_id && d.event_id == event_id

abbrev pub new_delivery : (fresh now endpoint_id event_id : ℕ) → WebhookDelivery
new_delivery fresh now endpoint_id event_id = record {
  id = fresh;
  webhook_endpoint_id = endpoint_id;
  event_id = event_id;
  status = pending;
  attempt_count = 0;
  response_status = none;
  response_body = none;
  error = none;
  last_attempt_at = none;
  next_attempt_at = some now;
}

-- The loop over the endpoints: what is created, and the table after it. A row that the constraint
-- refuses is rolled back to its savepoint and skipped. `fresh` names the row made for an endpoint.
unfoldable pub queue_each :
    (fresh : ℕ → ℕ)
    → (now event_id : ℕ) → List WebhookEndpoint
    → List WebhookDelivery
    → List WebhookDelivery × List WebhookDelivery
queue_each fresh now event_id [] table = ([], table)
queue_each fresh now event_id (e ∷ endpoints) table =
    let row = new_delivery (fresh e.id) now e.id event_id in
    let refused = any (is_for e.id event_id) table in
    let (created, table') =
      queue_each fresh now event_id endpoints (if refused then table else table ++ row ∷ []) in
    (if refused then created else row ∷ created, table')

-- The endpoints that an event of this project goes to.
unfoldable pub targets : ℕ → List WebhookEndpoint → List WebhookEndpoint
targets project_id = select (λ e. e.project_id == project_id && is_enabled e)

unfoldable pub queue_deliveries :
    (emails inbound_emails : List Owned)
    → (fresh : ℕ → ℕ) → (now : ℕ) → EmailEvent
    → Webhooks
    → List WebhookDelivery × Webhooks
unfolding project_of queue_each targets
queue_deliveries emails inbound_emails fresh now event hooks =
    if not (is_public_type event.event_type)
    then ([], hooks)
    else elim (project_of emails inbound_emails event) [
      | none ↦ ([], hooks)
      | some project_id ↦
          let (created, table) =
            queue_each fresh now event.id (targets project_id hooks.endpoints) hooks.deliveries in
          (created, record hooks { deliveries = table })
    ]

unfoldable pub pending_delivery_ids : (event_id : ℕ) → List WebhookDelivery → List ℕ
pending_delivery_ids event_id table =
    map (λ d. d.id) (select (λ d. d.event_id == event_id && status_is_pending d.status) table)

-- `order_by(next_attempt_at)`: insertion after the rows that are due as early.
abbrev pub due_time : WebhookDelivery → ℕ
due_time d = elim d.next_attempt_at [ none ↦ 0 | some t ↦ t ]

unfoldable pub insert_due : WebhookDelivery → List WebhookDelivery → List WebhookDelivery
insert_due d [] = d ∷ []
insert_due d (x ∷ xs) =
    let rest = insert_due d xs in if leb (due_time d) (due_time x) then d ∷ x ∷ xs else x ∷ rest

unfoldable pub sort_due : List WebhookDelivery → List WebhookDelivery
unfolding insert_due
sort_due [] = []
sort_due (d ∷ ds) = insert_due d (sort_due ds)

-- A NULL due time is never at or before now.
abbrev pub is_due : ℕ → WebhookDelivery → Bool
is_due now d =
    status_is_pending d.status && elim d.next_attempt_at [ none ↦ false | some t ↦ leb t now ]

abbrev pub due_limit : ℕ
due_limit = 100

unfoldable pub deliveries_due : (limit now : ℕ) → List WebhookDelivery → List WebhookDelivery
unfolding sort_due
deliveries_due limit now table = take limit (sort_due (select (is_due now) table))
