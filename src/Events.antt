-- ===== src/Events.antt =====
-- models/email_event.py: what happened to a message after it was handed over. An event's payload is
-- the normalised one; a row has exactly one parent.
use seskit.Base.{ℕ, String, Bool, true, false, ◌&&◌, ◌||◌, not, Option, List, is_some}

pub data EventType : Type 0 where
  sent delivered bounced complained opened clicked : EventType
  suppressed received : EventType
  rejected delivery_delayed rendering_failed : EventType

-- `PUBLIC_EVENT_TYPES`.
unfoldable pub is_public_type : EventType → Bool
is_public_type rejected = false
is_public_type delivery_delayed = false
is_public_type rendering_failed = false
is_public_type _ = true

-- `FAILURE_EVENT_TYPES`.
unfoldable pub is_failure_type : EventType → Bool
is_failure_type bounced = true
is_failure_type rejected = true
is_failure_type rendering_failed = true
is_failure_type _ = false

-- A JSON value as far as the payloads of this program go.
pub data Json : Type 0 where
  null : Json
  text : String → Json
  texts : List String → Json

-- `to_public`: the envelope of an event, with `email_id` or `inbound_id` as its subject.
pub record PublicEvent : Type 0 where
  pub id : ℕ
  pub event_type : EventType
  pub subject : ℕ
  pub created_at : ℕ
  pub fields : List (String × Json)

pub record EmailEvent : Type 0 where
  pub id : ℕ
  pub email_id : Option ℕ
  pub inbound_email_id : Option ℕ
  pub event_type : EventType
  pub provider_event_id : Option String
  pub payload : PublicEvent
  pub occurred_at : ℕ

-- The check constraint `ck_email_events_one_parent`.
unfoldable pub has_one_parent : EmailEvent → Bool
has_one_parent e =
    (is_some e.email_id && not (is_some e.inbound_email_id))
    || (not (is_some e.email_id) && is_some e.inbound_email_id)
