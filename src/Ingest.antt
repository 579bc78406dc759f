-- ===== src/Ingest.antt =====
-- events/ingest.py and events/emit.py: what one provider notification does to the rows. `raced` are
-- the event rows that another transaction commits between the look-up and the flush. The clock is
-- read once, as `now`.
pub mod Scope
pub mod Again
pub mod Tests
use seskit.Base.{
  ℕ, suc, ◌==◌, String, str_eq, Bool, true, false, ◌&&◌, not, Option, none, some, List, [], ◌∷◌,
  ◌++◌, map, Result, ok, err, ◌>>=◌, if◌then◌else◌, find, select, any, amend, is_some,
}
use seskit.Address.{TextTools, bare_address}
use seskit.Suppression.{
  SuppressionReason, bounce, complaint, unsubscribe, manual, Table, DatabaseError, contains,
  suppress, suppressed_among,
}
use seskit.Events.{EventType, delivered, suppressed, Json, null, text, texts, EmailEvent}
use seskit.Webhooks.Endpoints.{Webhooks}
use seskit.Webhooks.Queue.{Owned, queue_deliveries}
use seskit.Emails.{Email, recipients}
use seskit.Normalise.{
  Payload, TimeTools, parse_event_type, provider_message_id, occurred_at, suppression_reason,
  concerned, summarise, to_public,
}

pub data Outcome : Type 0 where
  recorded duplicate unknown_message ignored : Outcome

pub record Ledger : Type 0 where
  pub emails : List Email
  pub inbound_emails : List Owned
  pub events : List EmailEvent
  pub suppressions : Table
  pub hooks : Webhooks

-- The ids that are generated on the way.
pub record Ids : Type 0 where
  pub event : ℕ
  pub notice : ℕ
  pub suppression : ℕ → ℕ
  pub delivery : ℕ → ℕ
  pub notice_delivery : ℕ → ℕ

unfoldable pub reason_text : SuppressionReason → String
reason_text bounce = "bounce"
reason_text complaint = "complaint"
reason_text unsubscribe = "unsubscribe"
reason_text manual = "manual"

unfoldable pub has_notification : String → EmailEvent → Bool
has_notification id event = elim event.provider_event_id [ none ↦ false | some own ↦ str_eq own id ]

-- The look-up by `provider_event_id`; a null collides with nothing.
unfoldable pub find_notification : List EmailEvent → Option String → Option EmailEvent
unfolding has_notification
find_notification events none = none
find_notification events (some id) = find (has_notification id) events

unfoldable pub has_message : String → Email → Bool
has_message id email = elim email.provider_message_id [ none ↦ false | some own ↦ str_eq own id ]

-- The message that the notification is about, if one of these projects sent it.
unfoldable pub find_sent :
    List Email → (message_id : String) → (project_ids : List ℕ) → Option Email
unfolding has_message
find_sent emails message_id project_ids =
    find (λ email. has_message message_id email && any (λ p. p == email.project_id) project_ids)
      emails

unfoldable pub is_delivered : EventType → Bool
is_delivered delivered = true
is_delivered _ = false

unfoldable pub apply_to_email : TimeTools → (now : ℕ) → Email → EventType → Payload → Email
unfolding is_delivered
apply_to_email times now email event_type payload =
    if is_delivered event_type && not (is_some email.delivered_at)
    then record email { delivered_at = some (occurred_at times now payload event_type) }
    else email

abbrev pub owned : List Email → List Owned
owned = map (λ email. record { id = email.id; project_id = email.project_id })

unfoldable pub caused_json : (ℕ → String) → Option ℕ → Json
caused_json id_text none = null
caused_json id_text (some id) = text (id_text id)

-- `record_suppression_event`.
unfoldable pub record_suppression_event :
    (id_text : ℕ → String)
    → Ids
    → (now email_id : ℕ) → List String
    → SuppressionReason
    → (caused_by : Option ℕ) → Ledger
    → Ledger
unfolding reason_text to_public caused_json
record_suppression_event id_text ids now email_id addresses reason caused_by ledger =
    let event : EmailEvent = record {
      id = ids.notice;
      email_id = some email_id;
      inbound_email_id = none;
      event_type = suppressed;
      provider_event_id = none;
      occurred_at = now;
      payload = to_public ids.notice suppressed email_id now (
          ("to", texts addresses)
          ∷ ("reason", text (reason_text reason))
          ∷ ("caused_by", caused_json id_text caused_by)
          ∷ []);
    } in
    let (_, hooks) =
      queue_deliveries (owned ledger.emails) ledger.inbound_emails ids.notice_delivery now event
        ledger.hooks in
    record ledger { events = ledger.events ++ event ∷ []; hooks = hooks }

module _ (bare : String → String) where
  -- The loop over the named addresses: the table, and the addresses that were not on the list.
  unfoldable pub suppress_each :
      (fresh : ℕ → ℕ)
      → (k project_id : ℕ) → SuppressionReason
      → (event_id : ℕ) → (already named : List String) → Table
      → Result DatabaseError (Table × List String)
  suppress_each fresh k project_id reason event_id already [] table = ok (table, [])
  suppress_each fresh k project_id reason event_id already (address ∷ named) table = do
    (table', row) ← suppress bare table (fresh k) project_id address reason (some event_id) none
    (table'', added) ← suppress_each fresh (suc k) project_id reason event_id already named table'
    ok (table'', if contains row.address already then added else row.address ∷ added)

  -- Only the addresses that the message went to.
  unfoldable pub named_recipients : Email → List String → List String
  unfolding recipients
  named_recipients email =
      select (λ address. any (λ a. str_eq (bare address) (bare a)) (recipients email))

  unfoldable pub report_added :
      (id_text : ℕ → String)
      → Ids
      → (now : ℕ) → Email
      → SuppressionReason
      → (event_id : ℕ) → (added : List String) → Ledger
      → Ledger
  unfolding record_suppression_event
  report_added id_text ids now email reason event_id [] ledger = ledger
  report_added id_text ids now email reason event_id (a ∷ added) ledger =
      record_suppression_event id_text ids now email.id (a ∷ added) reason (some event_id) ledger

  unfoldable pub suppress_named :
      (id_text : ℕ → String)
      → Ids
      → (now : ℕ) → Email
      → SuppressionReason
      → (event_id : ℕ) → (named : List String) → Ledger
      → Result DatabaseError Ledger
  unfolding suppress_each report_added
  suppress_named id_text ids now email reason event_id named ledger = do
    (table, added) ←
        suppress_each ids.suppression 0 email.project_id reason event_id
          (suppressed_among bare ledger.suppressions email.project_id named) named
          ledger.suppressions
    ok (
        report_added id_text ids now email reason event_id added
          (record ledger { suppressions = table }))

  -- `_apply_suppression`; with nobody named, `suppress_named` writes nothing.
  unfoldable pub apply_suppression :
      (id_text : ℕ → String)
      → Ids
      → (now : ℕ) → Email
      → (event_id : ℕ) → EventType
      → Payload
      → Ledger
      → Result DatabaseError Ledger
  unfolding suppress_named named_recipients
  apply_suppression id_text ids now email event_id event_type payload ledger =
      elim (suppression_reason payload event_type) [
        | none ↦ ok ledger
        | some reason ↦
            suppress_named id_text ids now email reason event_id
              (named_recipients email (concerned payload event_type)) ledger
      ]

  module _ (times : TimeTools) (id_text : ℕ → String) (ids : Ids) (now : ℕ) (payload : Payload)
      (provider_event_id : Option String) where
    abbrev pub new_event : Email → EventType → EmailEvent
    new_event email event_type =
        let occurred = occurred_at times now payload event_type in
        record {
          id = ids.event;
          email_id = some email.id;
          inbound_email_id = none;
          event_type = event_type;
          provider_event_id = provider_event_id;
          occurred_at = occurred;
          payload = to_public ids.event event_type email.id occurred (summarise payload event_type);
        }

    -- After the flush: the row is there, its deliveries are queued, then the addresses that it
    -- condemns are suppressed.
    unfoldable pub record_event :
        Ledger → Email → EventType → Result DatabaseError (Outcome × Option EmailEvent × Ledger)
    unfolding apply_to_email apply_suppression
    record_event ledger email event_type = do
      let event = new_event email event_type
      let updated = apply_to_email times now email event_type payload
      let emails = amend (λ row. row.id == email.id) (λ _. updated) ledger.emails
      let (_, hooks) =
          queue_deliveries (owned emails) ledger.inbound_emails ids.delivery now event ledger.hooks
      let flushed : Ledger = record ledger {
        emails = emails;
        events = ledger.events ++ event ∷ [];
        hooks = hooks;
      }
      final ← apply_suppression id_text ids now email event.id event_type payload flushed
      ok (recorded, some event, final)

    -- The message is known: is the notification new, and does it still win the insert?
    unfoldable pub ingest_for :
        (raced : List EmailEvent)
        → Ledger
        → Email
        → EventType
        → Result DatabaseError (Outcome × Option EmailEvent × Ledger)
    unfolding record_event find_notification
    ingest_for raced ledger email event_type =
        elim (find_notification ledger.events provider_event_id) [
          | some existing ↦ ok (duplicate, some existing, ledger)
          | none ↦
              let seen : Ledger = record ledger { events = ledger.events ++ raced } in
              elim (find_notification raced provider_event_id) [
                | some existing ↦ ok (duplicate, some existing, seen)
                | none ↦ record_event seen email event_type
              ]
        ]

    unfoldable pub ingest_event :
        (project_ids : List ℕ)
        → (raced : List EmailEvent) → Ledger
        → Result DatabaseError (Outcome × Option EmailEvent × Ledger)
    unfolding ingest_for find_sent
    ingest_event project_ids raced ledger = elim (parse_event_type times payload) [
      | none ↦ ok (ignored, none, ledger)
      | some event_type ↦
          if str_eq (provider_message_id payload) ""
          then ok (unknown_message, none, ledger)
          else elim (find_sent ledger.emails (provider_message_id payload) project_ids) [
            | none ↦ ok (unknown_message, none, ledger)
            | some email ↦ ingest_for raced ledger email event_type
          ]
    ]
