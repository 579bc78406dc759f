-- ===== src/Normalise.antt =====
-- events/normalise.py: what is read out of a provider's notification. A notification is the part of
-- its JSON that the code reads, with texts where it expects texts; `lower` is `str.lower`, and
-- `parse_timestamp` is `datetime.fromisoformat` with its `ValueError` as `none`.
use Prim.Native.Char.{code}
use Prim.Native.String.{[] as empty, ◌∷◌ as cons}
use seskit.Base.{
  ℕ, ◌==◌, ◌||◌, String, str_eq, Bool, false, Option, none, some, List, [], ◌∷◌, if◌then◌else◌,
}
use seskit.Suppression.{SuppressionReason, bounce, complaint}
use seskit.Events.{
  EventType, sent, delivered, bounced, complained, opened, clicked, suppressed, received, rejected,
  delivery_delayed, rendering_failed, Json, text, texts, PublicEvent,
}

pub record Mail : Type 0 where
  pub message_id : Option String
  pub timestamp : Option String
  pub destination : List String

-- An entry of `bouncedRecipients` or `complainedRecipients`.
pub record Named : Type 0 where
  pub email_address : Option String
  pub diagnostic_code : Option String

-- One object for all the details, each of which has some of these keys.
pub record Detail : Type 0 where
  pub timestamp : Option String
  pub bounce_type : Option String
  pub bounce_sub_type : Option String
  pub bounced_recipients : List Named
  pub complained_recipients : List Named
  pub complaint_feedback_type : Option String
  pub recipients : List String
  pub link : Option String
  pub reason : Option String
  pub delay_type : Option String

pub record Payload : Type 0 where
  pub event_type : Option String
  pub notification_type : Option String
  pub mail : Mail
  pub detail : String → Detail

pub record TimeTools : Type 0 where
  pub lower : String → String
  pub parse_timestamp : String → Option ℕ

-- `a or b` on optional texts, and with "" at the end.
unfoldable pub or_else : Option String → String → String
or_else none other = other
or_else (some value) other = if str_eq value "" then other else value

unfoldable pub event_name : Payload → String
unfolding or_else
event_name payload = or_else payload.event_type (or_else payload.notification_type "")

-- `name.replace(" ", "").replace("_", "")`.
unfoldable pub squeeze : String → String
squeeze empty = ""
squeeze (cons c name) =
    let rest = squeeze name in if code c == b' ' || code c == b'_' then rest else cons c rest

-- `_TYPE_BY_NAME`.
unfoldable pub type_by_name : String → Option EventType
type_by_name key =
    if str_eq key "send"
    then some sent
    else if str_eq key "delivery"
    then some delivered
    else if str_eq key "bounce"
    then some bounced
    else if str_eq key "complaint"
    then some complained
    else if str_eq key "open"
    then some opened
    else if str_eq key "click"
    then some clicked
    else if str_eq key "reject"
    then some rejected
    else if str_eq key "deliverydelay"
    then some delivery_delayed
    else if str_eq key "renderingfailure"
    then some rendering_failed
    else none

-- `none` is `UnknownEventType`.
unfoldable pub parse_event_type : TimeTools → Payload → Option EventType
unfolding event_name squeeze type_by_name
parse_event_type tools payload = type_by_name (tools.lower (squeeze (event_name payload)))

-- `_DETAIL_KEY`, with "" for the types that it lacks.
unfoldable pub detail_key : EventType → String
detail_key sent = "send"
detail_key delivered = "delivery"
detail_key bounced = "bounce"
detail_key complained = "complaint"
detail_key opened = "open"
detail_key clicked = "click"
detail_key rejected = "reject"
detail_key delivery_delayed = "deliveryDelay"
detail_key rendering_failed = "failure"
detail_key suppressed = ""
detail_key received = ""

abbrev pub detail_of : Payload → EventType → Detail
detail_of payload event_type = payload.detail (detail_key event_type)

unfoldable pub provider_message_id : Payload → String
unfolding or_else
provider_message_id payload = or_else payload.mail.message_id ""

-- A missing text and "" are no timestamp.
unfoldable pub read_timestamp : TimeTools → Option String → Option ℕ
read_timestamp tools none = none
read_timestamp tools (some value) = if str_eq value "" then none else tools.parse_timestamp value

unfoldable pub or_time : Option ℕ → ℕ → ℕ
or_time none other = other
or_time (some time) other = time

unfoldable pub occurred_at : TimeTools → (now : ℕ) → Payload → EventType → ℕ
unfolding read_timestamp or_time detail_key
occurred_at tools now payload event_type =
    or_time (read_timestamp tools (detail_of payload event_type).timestamp)
      (or_time (read_timestamp tools payload.mail.timestamp) now)

unfoldable pub is_permanent : Option String → Bool
is_permanent none = false
is_permanent (some kind) = str_eq kind "Permanent"

unfoldable pub suppression_reason : Payload → EventType → Option SuppressionReason
unfolding is_permanent detail_key
suppression_reason payload bounced =
    if is_permanent (detail_of payload bounced).bounce_type then some bounce else none
suppression_reason payload complained = some complaint
suppression_reason payload _ = none

unfoldable pub addresses_of : List Named → List String
addresses_of [] = []
addresses_of (item ∷ items) =
    let rest = addresses_of items in
    elim item.email_address [
      | none ↦ rest
      | some address ↦ if str_eq address "" then rest else address ∷ rest
    ]

unfoldable pub concerned : Payload → EventType → List String
unfolding addresses_of detail_key
concerned payload bounced = addresses_of (detail_of payload bounced).bounced_recipients
concerned payload complained = addresses_of (detail_of payload complained).complained_recipients
concerned payload delivered = (detail_of payload delivered).recipients
concerned payload _ = payload.mail.destination

-- A key with its value, unless the value is missing.
unfoldable pub field : String → Option String → List (String × Json) → List (String × Json)
field key none rest = rest
field key (some value) rest = (key, text value) ∷ rest

unfoldable pub first_diagnostic : List Named → Option String
first_diagnostic [] = none
first_diagnostic (item ∷ _) = item.diagnostic_code

unfoldable pub extra_fields : Detail → EventType → List (String × Json)
unfolding field first_diagnostic
extra_fields detail bounced = field "bounce_type" detail.bounce_type (
    field "bounce_subtype" detail.bounce_sub_type
      (field "diagnostic" (first_diagnostic detail.bounced_recipients) []))
extra_fields detail complained = field "complaint_type" detail.complaint_feedback_type []
extra_fields detail clicked = field "link" detail.link []
extra_fields detail rejected = field "reason" detail.reason []
extra_fields detail delivery_delayed = field "delay_type" detail.delay_type []
extra_fields detail _ = []

unfoldable pub summarise : Payload → EventType → List (String × Json)
unfolding concerned extra_fields detail_key
summarise payload event_type =
    ("to", texts (concerned payload event_type))
    ∷ extra_fields (detail_of payload event_type) event_type

unfoldable pub to_public :
    (event_id : ℕ) → EventType → (email_id occurred : ℕ) → List (String × Json) → PublicEvent
to_public event_id event_type email_id occurred fields = record {
  id = event_id;
  event_type = event_type;
  subject = email_id;
  created_at = occurred;
  fields = fields;
}
