-- ===== src/Polling/Tests.antt =====
-- The worker's events.py: the bounce of events/ingest.py read from a queue, twice.
use seskit.Base.{Bool, true, false, Option, none, some, [], ◌∷◌, ok, ◌≡◌, ◌≢◌, refl, ◌⊎◌}
use seskit.Events.{EmailEvent}
use seskit.Normalise.{Payload}
use seskit.Ingest.{Outcome, ingest_event}
use seskit.Ingest.Tests.{times, id_text, payload, before, ids, event, after, ingest_bounce}
use seskit.Polling.{
  JsonTools, SnsEnvelope, Surroundings, is_notification, unwrap, returned, provider_event_id,
  handle, handle_envelope, handle_event, after_ingest, after_commit, delivery_ids, enqueue_all,
  remove,
}
use seskit.Polling.Settled.{is_unanswerable, handle_deleted, handle_again}

abbrev json : JsonTools
json = record {
  read_body = λ raw. some (record {
    type = some "Notification";
    message_id = some "sns-1";
    topic_arn = none;
    message = some "event";
    subscribe_url = none;
  });
  read_event = λ message. some payload;
}

abbrev envelope : SnsEnvelope
envelope = record {
  message_type = "Notification";
  message_id = "sns-1";
  topic_arn = "";
  event = some payload;
  subscribe_url = "";
}

-- The commit goes through and the deletion does not.
abbrev around : (deletes : Bool) → Surroundings
around deletes = record {
  ids = ids;
  now = 100;
  raced = [];
  commits = true;
  enqueues = λ id. true;
  deletes = deletes;
}

opened : unwrap json "body" ≡ ok envelope
unfolding unwrap
opened = refl

handle_again_example :
    let first = handle (λ a. a) times id_text json (7 ∷ []) false (around false) "body" before in
    let second =
      handle (λ a. a) times id_text json (7 ∷ 8 ∷ []) false (around true) "body" first.ledger in
    (first.ledger ≡ after) × (second.ledger ≡ after) × (second.verdict ≢ returned true)
handle_again_example =
    handle_again (λ a. a) times id_text json (7 ∷ []) (7 ∷ 8 ∷ []) false (around false)
      (around true) "body" "body" before after envelope envelope payload (some event) opened
      (unfold is_notification in refl) refl refl ingest_bounce refl opened refl

deleted :
    (handle (λ a. a) times id_text json (7 ∷ []) false (around true) "body" before).deleted ≡ true
unfolding handle handle_envelope handle_event is_notification provider_event_id after_ingest
    after_commit delivery_ids enqueue_all remove
deleted = rw ingest_bounce refl

handle_deleted_example :
    (is_unanswerable (unwrap json "body") ≡ true)
    ⊎ ((envelope : SnsEnvelope) × (payload : Payload) × (o : Outcome) × (event : Option EmailEvent)
        × (unwrap json "body" ≡ ok envelope)
        × (envelope.event ≡ some payload)
        × (ingest_event
              (λ a. a)
              times
              id_text
              ids
              100
              payload
              (provider_event_id envelope)
              (7 ∷ [])
              []
              before
            ≡ ok (
              o,
              event,
              (handle
                  (λ a. a)
                  times
                  id_text
                  json
                  (7 ∷ [])
                  false
                  (around true)
                  "body"
                  before).ledger,
            )))
handle_deleted_example =
    handle_deleted (λ a. a) times id_text json (7 ∷ []) false (around true) "body" before deleted
