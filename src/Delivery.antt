-- ===== src/Delivery.antt =====
-- The worker's webhooks.py (apps/worker/src/seskit_worker): one delivery, from the due row to the
-- recorded outcome. HTTP, TLS, DNS, the clock and the random draw are parameters.
pub mod Capture
pub mod Attempt
pub mod Bound
mod Tests
use mathlib.Core.Option
use Prim.Native.String.{◌++◌ as append}
use text.Mathlib.Text.{starts_with}
use seskit.Base.{
  ℕ, suc, ◌+◌, ◌<◌, ltb, leb, ◌==◌, String, str_eq, Bool, true, false, ◌&&◌, ◌||◌, not, Option,
  none, some, List, [], ◌∷◌, ◌++◌, Result, ok, err, ◌>>=◌, if◌then◌else◌, length, take, any,
}
use seskit.Destinations.{
  NetTools, PortError, bad_port, ValidateError, refused, unicode_error, DestinationPolicy,
  Destination, pinned, validate,
}
use seskit.Signing.{sign}
use seskit.Webhooks.{
  WebhookEndpoint, WebhookDelivery, DeliveryStatus, delivered, is_settled, Limits, Finding,
  record_delivery_success, record_delivery_failure,
}

-- ------------------------------------------------------------- the response

-- The loop of `_read_capped`: it stops once the bytes read so far reach the limit.
unfoldable pub read_chunks : (limit total : ℕ) → List (List ℕ) → List ℕ
read_chunks limit total [] = []
read_chunks limit total (chunk ∷ chunks) =
    let rest = read_chunks limit (total + length chunk) chunks in
    if leb limit (total + length chunk) then chunk else chunk ++ rest

-- `_is_textual` of a content type that is already in lower case.
unfoldable pub is_textual : String → Bool
is_textual lowered =
    starts_with lowered "text/"
    || starts_with lowered "application/json"
    || starts_with lowered "application/xml"
    || starts_with lowered "application/problem+json"

-- How many chunks the loop takes from the stream.
unfoldable pub chunks_read : (limit total : ℕ) → List (List ℕ) → ℕ
chunks_read limit total [] = 0
chunks_read limit total (chunk ∷ chunks) =
    let rest = chunks_read limit (total + length chunk) chunks in
    if leb limit (total + length chunk) then 1 else suc rest

-- The bytes that are kept of a textual response, before they are decoded.
unfoldable pub read_capped : (lowered : String) → (limit : ℕ) → List (List ℕ) → Option (List ℕ)
unfolding read_chunks is_textual
read_capped lowered limit chunks =
    if is_textual lowered then some (take limit (read_chunks limit 0 chunks)) else none

abbrev pub too_many_requests : ℕ
too_many_requests = 429

unfoldable pub is_retryable : ℕ → Bool
is_retryable status = if status == too_many_requests then true else leb 500 status

-- The message of `DestinationError`.
abbrev pub refused_message : String
refused_message =
    "That URL cannot be used for webhooks. It must be an https:// address that resolves to a public host."

-- Terminal, deliberately: a refused destination must not be retried.
abbrev pub refusal : Finding
refusal = record {
  response_status = none;
  response_body = none;
  error = some refused_message;
  retryable = false;
}

-- ------------------------------------------------------------- the request

-- What goes out. `address` is the host of the pinned URL and `sni_hostname` the name that the
-- certificate is checked for.
module _ (net : NetTools) where
  open net use {Address, is_v6, address_text, urlsplit, port_text, urlunsplit}

  -- The original URL with its host replaced by the validated address.
  abbrev netloc_of : (literal : String) → (port : Option String) → String
  netloc_of literal none = literal
  netloc_of literal (some port) = append literal (append ":" port)

  -- Reading the port of the URL may raise.
  unfoldable pub pinned_url : String → Address → Result PortError String
  pinned_url url address = do
    port ← port_text url
    ok (
        let shown = address_text address in
        let literal = if is_v6 address then append "[" (append shown "]") else shown in
        urlunsplit (record (urlsplit url) { netloc = netloc_of literal port }))

  pub record Request : Type 0 where
    pub url : String
    pub address : Address
    pub sni_hostname : String
    pub host_header : String
    pub signature : String
    pub timestamp : ℕ
    pub event_id : ℕ
    pub delivery_id : ℕ
    pub body : List ℕ

  -- What the response looks like to `_post`: `httpx.HTTPError` by its class name, another exception of
  -- building or sending the request, or the status, the content type and the stream of the chunks.
  pub data Response : Type 0 where
    http_error : String → Response
    uncaught : Response
    answered : (status : ℕ) → (content_type : String) → (chunks : List (List ℕ)) → Response

  pub record Settings : Type 0 where
    pub policy : DestinationPolicy net
    pub limits : Limits
    pub capture_bytes : ℕ

  -- One attempt's surroundings. `payload` is `payload_bytes` of the event; `lower` is
  -- `str.lower`, and `decode` is UTF-8 with replacement; the clock is read in seconds for the signature and twice for the row.
  pub record World : Type 0 where
    pub resolve : String → Result ValidateError (List String)
    pub post : Request → Response
    pub payload : ℕ → List ℕ
    pub mac : String → List ℕ → String
    pub lower : String → String
    pub decode : List ℕ → String
    pub uniform : ℕ → ℕ → ℕ
    pub unix_seconds : ℕ
    pub now : ℕ
    pub later : ℕ

  -- The result of `deliver_one`, the objects it wrote to, and the requests it made.
  pub record Attempted : Type 0 where
    pub outcome : DeliveryStatus
    pub delivery : WebhookDelivery
    pub endpoint : WebhookEndpoint
    pub requests : List Request

  -- How `deliver_one` ends. With an exception nothing is written to the row and its endpoint.
  pub data Ended : Type 0 where
    raised : (requests : List Request) → Ended
    returned : Attempted → Ended

  abbrev pub failure_with :
      World → Settings → WebhookDelivery → WebhookEndpoint → List Request → Finding → Attempted
  failure_with w s d e requests finding =
      let (outcome, d', e') =
        record_delivery_failure w.uniform w.now w.later s.limits d e finding in
      record { outcome = outcome; delivery = d'; endpoint = e'; requests = requests }

  abbrev pub success_with :
      World → WebhookDelivery → WebhookEndpoint → List Request → ℕ → Option String → Attempted
  success_with w d e requests status captured =
      let (d', e') = record_delivery_success w.now d e status captured in
      record { outcome = delivered; delivery = d'; endpoint = e'; requests = requests }

  -- `_post`'s answer and what `deliver_one` makes of it.
  unfoldable pub settle :
      World → Settings → WebhookDelivery → WebhookEndpoint → Request → Response → Ended
  unfolding read_capped is_retryable
  settle w s d e request uncaught = raised (request ∷ [])
  settle w s d e request (http_error name) = returned (
      failure_with w s d e (request ∷ []) (record {
        response_status = none;
        response_body = none;
        error = some name;
        retryable = true;
      }))
  settle w s d e request (answered status content_type chunks) =
      let captured =
        Option.map w.decode (read_capped (w.lower content_type) s.capture_bytes chunks) in
      returned (
        if leb 200 status && ltb status 300
        then success_with w d e (request ∷ []) status captured
        else failure_with w s d e (request ∷ []) (record {
          response_status = some status;
          response_body = captured;
          error = none;
          retryable = is_retryable status;
        }))

  unfoldable pub build_request :
      World
      → WebhookDelivery
      → WebhookEndpoint
      → Destination net
      → Address
      → (url : String) → Request
  build_request w d e destination address url =
      let body = w.payload d.event_id in
      let (signature, timestamp) = sign w.mac e.secret body w.unix_seconds in
      record {
        url = url;
        address = address;
        sni_hostname = destination.host;
        host_header = destination.host;
        signature = signature;
        timestamp = timestamp;
        event_id = d.event_id;
        delivery_id = d.id;
        body = body;
      }

  -- `_post`, once its URL is made.
  unfoldable pub post_to :
      World
      → Settings
      → WebhookDelivery
      → WebhookEndpoint
      → Destination net
      → Address
      → Result PortError String
      → Ended
  unfolding settle build_request
  post_to w s d e destination address (err bad_port) = raised []
  post_to w s d e destination address (ok url) =
      let request = build_request w d e destination address url in
      settle w s d e request (w.post request)

  -- `none` is the `IndexError` of a destination with no address.
  unfoldable pub connect :
      World
      → Settings
      → WebhookDelivery
      → WebhookEndpoint
      → Destination net
      → Option Address
      → Ended
  unfolding post_to pinned_url
  connect w s d e destination none = raised []
  connect w s d e destination (some address) =
      post_to w s d e destination address (pinned_url destination.url address)

  -- What follows the validation. A refusal is terminal and makes no request.
  unfoldable pub send_to :
      World
      → Settings
      → WebhookDelivery
      → WebhookEndpoint
      → Result ValidateError (Destination net)
      → Ended
  unfolding connect
  send_to w s d e (err refused) = returned (failure_with w s d e [] refusal)
  send_to w s d e (err unicode_error) = raised []
  send_to w s d e (ok destination) = connect w s d e destination (pinned net destination)

  -- A settled row is left alone: the immediate attempt and the sweep may both pick it up.
  unfoldable pub deliver_one : World → Settings → WebhookDelivery → WebhookEndpoint → Ended
  unfolding send_to
  deliver_one w s d e =
      if is_settled d
      then returned (record { outcome = d.status; delivery = d; endpoint = e; requests = [] })
      else send_to w s d e (validate net s.policy w.resolve e.url)
