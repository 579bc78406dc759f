-- ===== src/Webhooks/Endpoints.antt =====
-- services/webhooks.py: managing endpoints by hand. The tables of a session are lists of rows.
use seskit.Base.{
  ℕ, ◌==◌, ◌<◌, String, str_eq, eq_iff, Bool, true, false, ◌&&◌, not, Option, some, List, [], ◌∷◌,
  ◌++◌, Result, ok, ◌>>◌, >>=-ok, if◌then◌else◌, find, find-test, select, any, ◌≡◌, refl, arith,
}
use seskit.Destinations.{NetTools, ValidateError, DestinationPolicy, Destination, validate}
use seskit.Webhooks.{
  active, disabled_by_user, WebhookEndpoint, WebhookDelivery, is_enabled, Limits,
  record_delivery_success, record_delivery_failure, Finding, count_failure,
}
use seskit.Webhooks.Outcomes.{IsBelowLimit}

pub record Webhooks : Type 0 where
  pub endpoints : List WebhookEndpoint
  pub deliveries : List WebhookDelivery

unfoldable pub policy_from :
    (net : NetTools) → (is_local : Bool) → List (NetTools.Network net) → DestinationPolicy net
policy_from net is_local allowed_networks = record {
  allow_private = is_local;
  allowed_networks = allowed_networks;
  require_https = not is_local;
}

-- An address that has passed the checks is written, unless it is the old one. The returned row is
-- the loaded object after the assignments; the flag says if anything changed.
unfoldable pub change_url : WebhookEndpoint → String → WebhookEndpoint × Bool
change_url endpoint url =
    if str_eq url endpoint.url
    then (endpoint, false)
    else (record endpoint { url = url; consecutive_failures = 0 }, true)

change_url-url : (endpoint : WebhookEndpoint) (url : String) → (change_url endpoint url).0.url ≡ url
unfolding change_url
change_url-url endpoint url = ground (arith, eq_iff url endpoint.url)

-- `strip` is `str.strip`; `secret` is what `generate_secret` returned, `fresh` the row's new id.
module _ (net : NetTools) (strip : String → String) where
  unfoldable pub create_endpoint :
      DestinationPolicy net
      → (resolve : String → Result ValidateError (List String)) → (fresh : ℕ) → (secret : String)
      → (project_id : ℕ) → (url : String) → Webhooks
      → Result ValidateError (Webhooks × WebhookEndpoint)
  create_endpoint policy resolve fresh secret project_id url hooks = do
    validate net policy resolve (strip url)
    let endpoint : WebhookEndpoint = record {
      id = fresh;
      project_id = project_id;
      url = strip url;
      secret = secret;
      status = active;
      consecutive_failures = 0;
    }
    ok (record hooks { endpoints = hooks.endpoints ++ endpoint ∷ [] }, endpoint)

  unfoldable pub update_endpoint_url :
      DestinationPolicy net
      → (resolve : String → Result ValidateError (List String)) → WebhookEndpoint
      → (url : String) → Result ValidateError (WebhookEndpoint × Bool)
  update_endpoint_url policy resolve endpoint url = do
    validate net policy resolve (strip url)
    ok (change_url endpoint (strip url))

unfoldable pub set_enabled : Bool → WebhookEndpoint → WebhookEndpoint
set_enabled enabled endpoint =
    if enabled
    then record endpoint { status = active; consecutive_failures = 0 }
    else record endpoint { status = disabled_by_user }

unfoldable pub rotate_secret : (secret : String) → WebhookEndpoint → WebhookEndpoint
rotate_secret secret endpoint = record endpoint { secret = secret }

-- The deliveries of a deleted endpoint go with it (`cascade="all, delete-orphan"`).
unfoldable pub delete_endpoint : WebhookEndpoint → Webhooks → Webhooks
delete_endpoint endpoint hooks = record {
  endpoints = select (λ e. not (e.id == endpoint.id)) hooks.endpoints;
  deliveries = select (λ d. not (d.webhook_endpoint_id == endpoint.id)) hooks.deliveries;
}

unfoldable pub get_owned_endpoint : (project_id endpoint_id : ℕ) → Webhooks → Option WebhookEndpoint
get_owned_endpoint project_id endpoint_id hooks =
    find (λ e. e.id == endpoint_id && e.project_id == project_id) hooks.endpoints

-- Only the owner's own project and the id that was asked for come back.
pub get_owned_endpoint-owner :
    (project_id endpoint_id : ℕ) (hooks : Webhooks) (e : WebhookEndpoint)
    → get_owned_endpoint project_id endpoint_id hooks ≡ some e
    → (e.project_id ≡ project_id) × (e.id ≡ endpoint_id)
unfolding get_owned_endpoint
get_owned_endpoint-owner p i hooks e h =
    ground (arith, find-test (λ e. e.id == i && e.project_id == p) hooks.endpoints e)

module _ (net : NetTools) (strip : String → String) (policy : DestinationPolicy net)
    (resolve : String → Result ValidateError (List String)) where
  -- Moving an endpoint keeps its secret, its status and its owner; the new address has passed the
  -- checks, and the count of failures is dropped exactly if the address changed.
  pub update_endpoint_url_keeps :
      (endpoint e : WebhookEndpoint) (url : String) (changed : Bool)
      → update_endpoint_url net strip policy resolve endpoint url ≡ ok (e, changed)
      → (e.secret ≡ endpoint.secret)
        × (e.status ≡ endpoint.status)
        × (e.project_id ≡ endpoint.project_id)
        × (e.url ≡ strip url)
        × (e.consecutive_failures ≡ (if changed then 0 else endpoint.consecutive_failures))
        × (changed ≡ not (str_eq (strip url) endpoint.url))
        × ((d : Destination net) × (validate net policy resolve e.url ≡ ok d))
  unfolding update_endpoint_url change_url
  update_endpoint_url_keeps endpoint e url changed h =
      let (d, valid, rest) = >>=-ok (validate net policy resolve (strip url)) _ h in
      let moved : e.url ≡ strip url = ground (arith, rest, change_url-url endpoint (strip url)) in
      (
        ground arith,
        ground arith,
        ground arith,
        moved,
        ground arith,
        ground arith,
        (d, rw moved valid),
      )

-- What an endpoint goes through: the owner's acts, and the outcomes of its deliveries.
pub data Act : Type 0 where
  enable disable : Act
  succeed : (now status : ℕ) → Option String → WebhookDelivery → Act
  fail : (uniform : ℕ → ℕ → ℕ) → (now later : ℕ) → WebhookDelivery → Finding → Act

unfoldable pub act : Limits → WebhookEndpoint → Act → WebhookEndpoint
act limits e enable = set_enabled true e
act limits e disable = set_enabled false e
act limits e (succeed now status body d) = (record_delivery_success now d e status body).1
act limits e (fail uniform now later d f) =
    (record_delivery_failure uniform now later limits d e f).2

unfoldable pub history : Limits → WebhookEndpoint → List Act → WebhookEndpoint
unfolding act
history limits e [] = e
history limits e (a ∷ acts) = history limits (act limits e a) acts

abbrev is_enabling : Act → Bool
is_enabling enable = true
is_enabling disable = false
is_enabling (succeed _ _ _ _) = false
is_enabling (fail _ _ _ _ _) = false

act-IsBelowLimit :
    (limits : Limits) (e : WebhookEndpoint) (a : Act)
    → 0 < limits.failure_limit
    → IsBelowLimit limits e
    → IsBelowLimit limits (act limits e a)
unfolding act set_enabled record_delivery_success record_delivery_failure count_failure
act-IsBelowLimit limits e enable pos below = λ _. pos
act-IsBelowLimit limits e disable pos below = λ h. absurd (cc)
act-IsBelowLimit limits e (succeed now status body d) pos below = λ _. pos
act-IsBelowLimit limits e (fail uniform now later d f) pos below = ground (arith, below)

act_off :
    (limits : Limits) (e : WebhookEndpoint) (a : Act)
    → is_enabling a ≡ false
    → is_enabled e ≡ false
    → is_enabled (act limits e a) ≡ false
unfolding act set_enabled record_delivery_success record_delivery_failure count_failure
act_off limits e enable other off = absurd (cc)
act_off limits e disable other off = refl
act_off limits e (succeed now status body d) other off = off
act_off limits e (fail uniform now later d f) other off = ground arith

-- Through any history an endpoint that is on has fewer failures in a row than the limit.
pub history-IsBelowLimit :
    (limits : Limits) (e : WebhookEndpoint) (acts : List Act)
    → 0 < limits.failure_limit
    → IsBelowLimit limits e
    → IsBelowLimit limits (history limits e acts)
unfolding history
history-IsBelowLimit limits e [] pos below = below
history-IsBelowLimit limits e (a ∷ acts) pos below =
    history-IsBelowLimit limits (act limits e a) acts pos (act-IsBelowLimit limits e a pos below)

-- An endpoint that is off comes back on only by its owner's hand.
pub history_off :
    (limits : Limits) (e : WebhookEndpoint) (acts : List Act)
    → any is_enabling acts ≡ false
    → is_enabled e ≡ false
    → is_enabled (history limits e acts) ≡ false
unfolding history any
history_off limits e [] none_enable off = off
history_off limits e (a ∷ acts) none_enable off =
    history_off limits (act limits e a) acts (ground arith) (act_off limits e a (ground arith) off)
