-- ===== src/Polling.antt =====
-- events/envelope.py and the worker's events.py: notifications that are read from a queue. JSON is a
-- parameter, the queue's answers and what fails are arguments.
pub mod Settled
mod Tests
use seskit.Base.{
  ℕ, zero, suc, ◌+◌, max, ◌==◌, String, str_eq, Bool, true, false, ◌&&◌, not, Option, none, some,
  List, [], ◌∷◌, if◌then◌else◌, Result, ok, err,
}
use seskit.Suppression.{DatabaseError}
use seskit.Events.{EmailEvent}
use seskit.Normalise.{Payload, TimeTools}
use seskit.Ingest.{
  Outcome, recorded, duplicate, unknown_message, ignored, Ledger, Ids, ingest_event,
}
use seskit.Webhooks.Endpoints.{Webhooks}
use seskit.Webhooks.Queue.{pending_delivery_ids}

-- The part of the envelope's JSON that is read, with texts where it expects texts.
pub record Body : Type 0 where
  pub type : Option String
  pub message_id : Option String
  pub topic_arn : Option String
  pub message : Option String
  pub subscribe_url : Option String

-- `json.loads`: of a body that is an object, and of a message that is an object and not empty.
pub record JsonTools : Type 0 where
  pub read_body : String → Option Body
  pub read_event : String → Option Payload

pub record SnsEnvelope : Type 0 where
  pub message_type : String
  pub message_id : String
  pub topic_arn : String
  pub event : Option Payload
  pub subscribe_url : String

pub data MalformedEnvelope : Type 0 where
  malformed : MalformedEnvelope

-- `str(value or "")`.
abbrev pub text_or_empty : Option String → String
text_or_empty none = ""
text_or_empty (some value) = value

unfoldable pub is_notification : SnsEnvelope → Bool
is_notification envelope = str_eq envelope.message_type "Notification"

unfoldable pub is_settled : Outcome → Bool
is_settled recorded = true
is_settled duplicate = true
is_settled unknown_message = true
is_settled ignored = true

abbrev pub is_recorded : Outcome → Bool
is_recorded recorded = true
is_recorded duplicate = false
is_recorded unknown_message = false
is_recorded ignored = false

module _ (json : JsonTools) where
  unfoldable pub inner_event : Option String → Option Payload
  inner_event none = none
  inner_event (some message) = if str_eq message "" then none else json.read_event message

  unfoldable pub envelope_of : Option Body → Result MalformedEnvelope SnsEnvelope
  unfolding inner_event
  envelope_of none = err malformed
  envelope_of (some body) =
      if str_eq (text_or_empty body.type) ""
      then err malformed
      else ok (record {
        message_type = text_or_empty body.type;
        message_id = text_or_empty body.message_id;
        topic_arn = text_or_empty body.topic_arn;
        event = inner_event body.message;
        subscribe_url = text_or_empty body.subscribe_url;
      })

  unfoldable pub unwrap : (raw : String) → Result MalformedEnvelope SnsEnvelope
  unfolding envelope_of
  unwrap raw = envelope_of (json.read_body raw)

pub data Verdict : Type 0 where
  returned : (is_new : Bool) → Verdict
  raised : Verdict

pub record Handled : Type 0 where
  pub ledger : Ledger
  pub enqueued : List ℕ
  pub deleted : Bool
  pub verdict : Verdict

-- What one handling finds around it: fresh ids, the clock, rows of another transaction, and whether
-- the commit, the enqueuing of each job and the deletion succeed.
pub record Surroundings : Type 0 where
  pub ids : Ids
  pub now : ℕ
  pub raced : List EmailEvent
  pub commits : Bool
  pub enqueues : ℕ → Bool
  pub deletes : Bool

-- Jobs are enqueued in order up to one that fails.
unfoldable pub enqueue_all : (ℕ → Bool) → List ℕ → List ℕ × Bool
enqueue_all enqueues [] = ([], true)
enqueue_all enqueues (id ∷ ids) =
    let (rest, all_done) = enqueue_all enqueues ids in
    if enqueues id then (id ∷ rest, all_done) else ([], false)

-- The last call: the message goes, or the call raises.
unfoldable pub remove : (deletes is_new : Bool) → List ℕ → Ledger → Handled
remove deletes is_new enqueued ledger = record {
  ledger = ledger;
  enqueued = enqueued;
  deleted = deletes;
  verdict = if deletes then returned is_new else raised;
}

unfoldable pub keep : List ℕ → Ledger → Handled
keep enqueued ledger = record {
  ledger = ledger;
  enqueued = enqueued;
  deleted = false;
  verdict = raised;
}

-- After the commit.
unfoldable pub after_commit : Surroundings → Outcome → List ℕ → Ledger → Handled
unfolding enqueue_all remove keep is_settled
after_commit around outcome ids ledger =
    let (enqueued, all_done) = enqueue_all around.enqueues ids in
    if all_done
    then (if is_settled outcome
        then remove around.deletes (is_recorded outcome) enqueued ledger
        else record {
          ledger = ledger;
          enqueued = enqueued;
          deleted = false;
          verdict = returned (is_recorded outcome);
        })
    else keep enqueued ledger

unfoldable pub delivery_ids : (can_enqueue : Bool) → Option EmailEvent → Ledger → List ℕ
delivery_ids can_enqueue none ledger = []
delivery_ids can_enqueue (some event) ledger =
    if can_enqueue then pending_delivery_ids event.id ledger.hooks.deliveries else []

-- What the ingestion gave is committed, or nothing is.
unfoldable pub after_ingest :
    (can_enqueue : Bool)
    → Surroundings
    → Result DatabaseError (Outcome × Option EmailEvent × Ledger)
    → Ledger
    → Handled
unfolding after_commit delivery_ids keep
after_ingest can_enqueue around (err e) ledger = keep [] ledger
after_ingest can_enqueue around (ok (outcome, event, after)) ledger =
    if around.commits
    then after_commit around outcome (delivery_ids can_enqueue event after) after
    else keep [] ledger

pub record Drained : Type 0 where
  pub ledger : Ledger
  pub recorded : ℕ
  pub failed : Bool

-- What raises ends the pass.
unfoldable pub next_verdict : Verdict → (found : ℕ) → Ledger → (ℕ → Drained) → Drained
next_verdict raised found ledger go_on = record { ledger = ledger; recorded = found; failed = true }
next_verdict (returned is_new) found ledger go_on = go_on (if is_new then suc found else found)

unfoldable pub next_batch : Drained → (ℕ → Ledger → Drained) → Drained
next_batch drained go_on = if drained.failed then drained else go_on drained.recorded drained.ledger

unfoldable pub provider_event_id : SnsEnvelope → Option String
provider_event_id envelope =
    if str_eq envelope.message_id "" then none else some envelope.message_id

module _ (bare : String → String) (times : TimeTools) (id_text : ℕ → String) (json : JsonTools)
    (project_ids : List ℕ) (can_enqueue : Bool) where
  unfoldable pub handle_event : Surroundings → SnsEnvelope → Option Payload → Ledger → Handled
  unfolding after_ingest remove provider_event_id
  handle_event around envelope none ledger = remove around.deletes false [] ledger
  handle_event around envelope (some payload) ledger =
      after_ingest can_enqueue around
        (ingest_event bare times id_text around.ids around.now payload (provider_event_id envelope)
          project_ids around.raced ledger)
        ledger

  unfoldable pub handle_envelope :
      Surroundings → Result MalformedEnvelope SnsEnvelope → Ledger → Handled
  unfolding handle_event remove is_notification
  handle_envelope around (err e) ledger = remove around.deletes false [] ledger
  handle_envelope around (ok envelope) ledger =
      if is_notification envelope
      then handle_event around envelope envelope.event ledger
      else remove around.deletes false [] ledger

  unfoldable pub handle : Surroundings → (body : String) → Ledger → Handled
  unfolding handle_envelope unwrap
  handle around body ledger = handle_envelope around (unwrap json body) ledger

  -- The messages of one batch, up to one whose handling raises.
  unfoldable pub drain_batch : List (Surroundings × String) → (found : ℕ) → Ledger → Drained
  unfolding handle next_verdict
  drain_batch [] found ledger = record { ledger = ledger; recorded = found; failed = false }
  drain_batch ((around, body) ∷ batch) found ledger =
      let handled = handle around body ledger in
      next_verdict handled.verdict found handled.ledger
        (λ total. drain_batch batch total handled.ledger)

  -- `batches` are the queue's answers, one for each call of `receive`; after them it is empty.
  unfoldable pub drain_up_to :
      (budget : ℕ)
      → (batches : List (List (Surroundings × String))) → (found : ℕ) → Ledger
      → Drained
  unfolding drain_batch next_batch
  drain_up_to zero batches found ledger = record {
    ledger = ledger;
    recorded = found;
    failed = false;
  }
  drain_up_to (suc budget) [] found ledger = record {
    ledger = ledger;
    recorded = found;
    failed = false;
  }
  drain_up_to (suc budget) ([] ∷ batches) found ledger = record {
    ledger = ledger;
    recorded = found;
    failed = false;
  }
  drain_up_to (suc budget) ((first ∷ batch) ∷ batches) found ledger =
      next_batch (drain_batch (first ∷ batch) found ledger)
        (λ total after. drain_up_to budget batches total after)

  unfoldable pub drain :
      (max_batches : ℕ) → (batches : List (List (Surroundings × String))) → Ledger → Drained
  unfolding drain_up_to
  drain max_batches batches ledger = drain_up_to (max 1 max_batches) batches 0 ledger
