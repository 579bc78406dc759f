-- ===== src/Delivery/Attempt.antt =====
-- The worker's `deliver_one`: what one attempt does on every path.
use seskit.Base.{
  ℕ, ◌+◌, ◌≤◌, ◌<◌, ltb, leb, String, true, false, ◌&&◌, Option, none, some, List, [], ◌∷◌, Result,
  ok, err, length, All, all, is_some, ◌≡◌, refl, sym, ap, ◌∙◌, arith, Bool-cases, inl, inr, ◌⊎◌,
}
use seskit.Destinations.{
  NetTools, PortError, bad_port, ValidateError, refused, unicode_error, Destination, pinned,
  validate, address_allowed,
}
use seskit.Destinations.Sound.{validate_sound}
use seskit.Webhooks.{
  WebhookEndpoint, WebhookDelivery, is_settled, Finding, record_delivery_success,
  record_delivery_failure, count_failure,
}
use seskit.Webhooks.Outcomes.{
  IsWellFormed, IsBelowLimit, record_delivery_success-IsWellFormed,
  record_delivery_failure-IsWellFormed, record_delivery_failure-IsBelowLimit,
}
use seskit.Delivery.{
  Request, Response, http_error, uncaught, answered, Settings, Ended, raised, returned, pinned_url,
  post_to, connect, World, Attempted, failure_with, success_with, settle, build_request, send_to,
  deliver_one,
}

module _ (net : NetTools) (w : World net) (s : Settings net) (d : WebhookDelivery)
    (e : WebhookEndpoint) where
  open net use {Address}

  -- What an attempt on a pending row leaves behind, whatever happened.
  pub record Tried (r : Attempted net) : Type 0 where
    pub counted : r.delivery.attempt_count ≡ d.attempt_count + 1
    pub reported : r.outcome ≡ r.delivery.status
    pub one_request : length r.requests ≤ 1
    pub same_row :
        (r.delivery.id ≡ d.id)
        × (r.delivery.webhook_endpoint_id ≡ d.webhook_endpoint_id)
        × (r.delivery.event_id ≡ d.event_id)
    pub same_endpoint :
        (r.endpoint.id ≡ e.id) × (r.endpoint.url ≡ e.url) × (r.endpoint.secret ≡ e.secret)
    pub well_formed : IsWellFormed s.limits d → IsWellFormed s.limits r.delivery
    pub below_limit :
        0 < s.limits.failure_limit → IsBelowLimit s.limits e → IsBelowLimit s.limits r.endpoint

  module _ (open_ : is_settled d ≡ false) where
    failure-Tried :
        (requests : List (Request net)) (f : Finding)
        → length requests ≤ 1
        → Tried (failure_with net w s d e requests f)
    failure-Tried requests f one = record {
      counted = unfold record_delivery_failure in ground arith;
      reported = unfold record_delivery_failure in ground arith;
      one_request = one;
      same_row = unfold record_delivery_failure in ground arith;
      same_endpoint = unfold record_delivery_failure count_failure in ground arith;
      well_formed = λ well.
          record_delivery_failure-IsWellFormed s.limits d e w.uniform w.now w.later f well open_;
      below_limit = λ pos below.
          record_delivery_failure-IsBelowLimit s.limits d e w.uniform w.now w.later f below;
    }

    success-Tried :
        (requests : List (Request net)) (status : ℕ) (body : Option String)
        → length requests ≤ 1
        → Tried (success_with net w d e requests status body)
    success-Tried requests status body one = record {
      counted = unfold record_delivery_success in refl;
      reported = unfold record_delivery_success in refl;
      one_request = one;
      same_row = unfold record_delivery_success in (refl, refl, refl);
      same_endpoint = unfold record_delivery_success in (refl, refl, refl);
      well_formed =
          λ well. record_delivery_success-IsWellFormed s.limits d e w.now status body well open_;
      below_limit = λ pos below. unfold record_delivery_success in λ _. pos;
    }

  -- Every request of an attempt goes to an address that the policy allows now, under the name that
  -- was checked, and the certificate is verified for that name.
  pub record IsSafe (request : Request net) : Type 0 where
    pub destination : Destination net
    pub validated : validate net s.policy w.resolve e.url ≡ ok destination
    pub first_address : pinned net destination ≡ some request.address
    pub allowed : address_allowed net s.policy request.address ≡ true
    pub at_address : pinned_url net destination.url request.address ≡ ok request.url
    pub named : request.host_header ≡ destination.host
    pub verified : request.sni_hostname ≡ destination.host

  -- What makes an attempt raise: the resolver, the port of the URL, or the HTTP client.
  pub HasFault : Type 0
  HasFault =
      (validate net s.policy w.resolve e.url ≡ err unicode_error)
      ⊎ (net.port_text e.url ≡ err bad_port)
      ⊎ ((request : Request net) × IsSafe request × (w.post request ≡ uncaught))

  -- How an attempt on a pending row may end.
  unfoldable pub EndsWell : Ended net → Type 0
  EndsWell (raised requests) = HasFault × (length requests ≤ 1) × All IsSafe requests
  EndsWell (returned r) = Tried r × All IsSafe r.requests

  pinned-allowed :
      (found : List Address) (url host : String) (a : Address)
      → all (address_allowed net s.policy) found ≡ true
      → pinned net (record { url = url; host = host; addresses = found }) ≡ some a
      → address_allowed net s.policy a ≡ true
  unfolding pinned all
  pinned-allowed [] url host a h p = absurd (cc)
  pinned-allowed (x ∷ found) url host a h p = ground arith

  build_request-IsSafe :
      (destination : Destination net) (a : Address) (url : String)
      → validate net s.policy w.resolve e.url ≡ ok destination
      → pinned net destination ≡ some a
      → pinned_url net destination.url a ≡ ok url
      → IsSafe (build_request net w d e destination a url)
  unfolding build_request
  build_request-IsSafe destination a url v p at =
      let (_, _, (_, _, answers)) = validate_sound net s.policy w.resolve e.url destination v in
      record {
        destination = destination;
        validated = v;
        first_address = p;
        allowed =
            pinned-allowed destination.addresses destination.url destination.host a answers.allowed
              p;
        at_address = at;
        named = refl;
        verified = refl;
      }

  bad_port-pinned_url :
      (url : String) (a : Address)
      → pinned_url net url a ≡ err bad_port
      → net.port_text url ≡ err bad_port
  unfolding pinned_url
  bad_port-pinned_url url a h = by_port (net.port_text url) refl h
    where
      by_port :
          (port : Result PortError (Option String))
          → net.port_text url ≡ port
          → pinned_url net url a ≡ err bad_port
          → net.port_text url ≡ err bad_port
      by_port (err bad_port) read h = read
      by_port (ok port) read h = absurd (ground (arith, h, read))

  module _ (open_ : is_settled d ≡ false) where
    settle-EndsWell :
        (request : Request net) (answer : Response net)
        → IsSafe request
        → w.post request ≡ answer
        → EndsWell (settle net w s d e request answer)
    unfolding settle EndsWell HasFault
    settle-EndsWell request uncaught safe gave =
        (inr (inr (request, safe, gave)), omega arith, (safe, tt))
    settle-EndsWell request (http_error name) safe gave =
        (failure-Tried open_ (request ∷ []) _ (omega arith), (safe, tt))
    settle-EndsWell request (answered status content_type chunks) safe gave =
        elim (Bool-cases (leb 200 status && ltb status 300)) [
          | inl fine ↦
              rw fine (success-Tried open_ (request ∷ []) status _ (omega arith), (safe, tt))
          | inr bad ↦ rw bad (failure-Tried open_ (request ∷ []) _ (omega arith), (safe, tt))
        ]

    post_to-EndsWell :
        (destination : Destination net) (a : Address) (made : Result PortError String)
        → validate net s.policy w.resolve e.url ≡ ok destination
        → pinned net destination ≡ some a
        → pinned_url net destination.url a ≡ made
        → EndsWell (post_to net w s d e destination a made)
    unfolding post_to
    post_to-EndsWell destination a (err bad_port) v p at =
        let (same, _, _) = validate_sound net s.policy w.resolve e.url destination v in
        unfold EndsWell HasFault in
        (
          inr (inl (ap net.port_text (sym same) ∙ bad_port-pinned_url destination.url a at)),
          omega arith,
          tt,
        )
    post_to-EndsWell destination a (ok url) v p at =
        settle-EndsWell (build_request net w d e destination a url) _
          (build_request-IsSafe destination a url v p at) refl

    connect-EndsWell :
        (destination : Destination net) (found : Option Address)
        → validate net s.policy w.resolve e.url ≡ ok destination
        → pinned net destination ≡ found
        → EndsWell (connect net w s d e destination found)
    unfolding connect
    connect-EndsWell destination none v p =
        let (_, _, (_, _, answers)) = validate_sound net s.policy w.resolve e.url destination v in
        absurd (nowhere answers.connects)
      where
        nowhere : is_some (pinned net destination) ≡ true → ⊥
        nowhere connects = ground (arith, p, connects)
    connect-EndsWell destination (some a) v p = post_to-EndsWell destination a _ v p refl

    send_to-EndsWell :
        (v : Result ValidateError (Destination net))
        → validate net s.policy w.resolve e.url ≡ v
        → EndsWell (send_to net w s d e v)
    unfolding send_to
    send_to-EndsWell (err refused) h =
        unfold EndsWell in (failure-Tried open_ [] _ (omega arith), tt)
    send_to-EndsWell (err unicode_error) h = unfold EndsWell HasFault in (inl h, omega arith, tt)
    send_to-EndsWell (ok destination) h =
        connect-EndsWell destination (pinned net destination) h refl

    pub deliver_one_pending : EndsWell (deliver_one net w s d e)
    unfolding deliver_one
    deliver_one_pending = rw open_ (send_to-EndsWell _ refl)
