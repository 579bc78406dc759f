-- ===== src/Ingest/Tests.antt =====
-- events/ingest.py on one message that bounced.
use seskit.Base.{
  ℕ, ◌==◌, String, str_eq, true, Option, none, some, [], ◌∷◌, ok, find, any, select, amend, ◌≡◌,
  ◌≢◌, refl, ◌⊎◌, if◌then◌else◌,
}
use seskit.Suppression.{
  SuppressedAddress, bounce, keep_or_insert, find_suppression, suppress, suppressed_among,
}
use seskit.Events.{is_public_type, bounced, suppressed, text, texts, EmailEvent}
use seskit.Webhooks.Queue.{queue_deliveries}
use seskit.Emails.{Email, sent, ses, recipients}
use seskit.Normalise.{
  Detail, Payload, TimeTools, parse_event_type, provider_message_id, occurred_at,
  suppression_reason, concerned,
}
use seskit.Ingest.{recorded, Outcome, Ledger, Ids, has_message, find_sent, new_event, ingest_event}
use seskit.Ingest.Scope.{listed, ingest_event-elsewhere}
use seskit.Ingest.Again.{ingest_event_again}

abbrev pub times : TimeTools
times = record {
  lower = λ name. if str_eq name "Bounce" then "bounce" else name;
  parse_timestamp = λ t. some 90;
}

abbrev pub id_text : ℕ → String
id_text n = "ev1"

-- Only bounces have a detail here.
abbrev detail : Detail
detail = record {
  timestamp = some "2026-01-01T00:00:00Z";
  bounce_type = some "Permanent";
  bounce_sub_type = none;
  bounced_recipients =
      record { email_address = some "a@b.example"; diagnostic_code = none }
      ∷ record { email_address = some "eve@c.example"; diagnostic_code = none }
      ∷ [];
  complained_recipients = [];
  complaint_feedback_type = none;
  recipients = [];
  link = none;
  reason = none;
  delay_type = none;
}

abbrev pub payload : Payload
payload = record {
  event_type = some "Bounce";
  notification_type = none;
  mail = record { message_id = some "ses-1"; timestamp = none; destination = [] };
  detail = λ key. detail;
}

abbrev email : Email
email = record {
  id = 1;
  project_id = 7;
  provider_message_id = some "ses-1";
  provider = some ses;
  configuration_set = none;
  from_address = "me@b.example";
  from_domain = some "b.example";
  to_addresses = "a@b.example" ∷ [];
  cc_addresses = [];
  bcc_addresses = [];
  reply_to = [];
  subject = "Hello";
  html_body = none;
  text_body = some "Hi";
  headers = [];
  status = sent;
  idempotency_key = none;
  last_error = none;
  sent_at = some 80;
  delivered_at = none;
  attachments = [];
}

abbrev pub before : Ledger
before = record {
  emails = email ∷ [];
  inbound_emails = [];
  events = [];
  suppressions = [];
  hooks = record { endpoints = []; deliveries = [] };
}

abbrev pub ids : Ids
ids = record {
  event = 1;
  notice = 2;
  suppression = λ k. k;
  delivery = λ e. e;
  notice_delivery = λ e. e;
}

abbrev row : SuppressedAddress
row = record {
  id = 0;
  project_id = 7;
  address = "a@b.example";
  reason = bounce;
  source_event_id = some 1;
  note = none;
  removed_at = none;
}

abbrev notice : EmailEvent
notice = record {
  id = 2;
  email_id = some 1;
  inbound_email_id = none;
  event_type = suppressed;
  provider_event_id = none;
  occurred_at = 100;
  payload = record {
    id = 2;
    event_type = suppressed;
    subject = 1;
    created_at = 100;
    fields =
        ("to", texts ("a@b.example" ∷ []))
        ∷ ("reason", text "bounce")
        ∷ ("caused_by", text "ev1")
        ∷ [];
  };
}

abbrev pub event : EmailEvent
event = new_event (λ a. a) times id_text ids 100 payload (some "sns-1") email bounced

abbrev pub after : Ledger
after = record before { events = event ∷ notice ∷ []; suppressions = row ∷ [] }

-- The address that bounced is suppressed; the one that the message never went to is not.
pub ingest_bounce :
    ingest_event (λ a. a) times id_text ids 100 payload (some "sns-1") (7 ∷ []) [] before
    ≡ ok (recorded, some event, after)
unfolding ingest_event parse_event_type provider_message_id occurred_at suppression_reason concerned
    suppress suppressed_among queue_deliveries recipients find any select keep_or_insert
    find_suppression amend is_public_type
ingest_bounce = refl

ingest_event-elsewhere_example :
    (listed (λ a. a) times id_text ids 100 payload (some "sns-1") 7 "a@b.example" after
      ≡ listed (λ a. a) times id_text ids 100 payload (some "sns-1") 7 "a@b.example" before)
    ⊎ ((email : Email) × (find_sent before.emails (provider_message_id payload) (7 ∷ [])
          ≡ some email)
        × (has_message (provider_message_id payload) email ≡ true)
        × (any (λ p. p == 7) (7 ∷ []) ≡ true)
        × (email.project_id ≡ 7)
        × (any (λ a. str_eq a "a@b.example") (recipients email) ≡ true))
ingest_event-elsewhere_example =
    ingest_event-elsewhere (λ a. a) times id_text ids 100 payload (some "sns-1") (7 ∷ []) [] before
      recorded (some event) after 7 "a@b.example" ingest_bounce

ingest_event_again_example :
    (o : Outcome) × (event' : Option EmailEvent) × (ingest_event
        (λ a. a)
        times
        id_text
        ids
        200
        payload
        (some "sns-1")
        (7 ∷ 8 ∷ [])
        []
        after
      ≡ ok (o, event', after))
    × (o ≢ recorded)
ingest_event_again_example =
    ingest_event_again (λ a. a) times id_text "sns-1" ids ids 100 200 payload payload (7 ∷ [])
      (7 ∷ 8 ∷ []) [] [] before after (some event) ingest_bounce
