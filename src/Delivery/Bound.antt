-- ===== src/Delivery/Bound.antt =====
-- The worker's `deliver_one`, called again and again on one row by the immediate job and the sweep:
-- how often the endpoint is called, and that it ends.
use seskit.Base.{
  ℕ, suc, ◌+◌, ◌≤◌, true, false, Option, none, some, List, [], ◌∷◌, ◌++◌, length, ok, err, ◌≡◌,
  refl, ap, ◌∙◌, arith, Bool-cases, inl, inr,
}
use seskit.Destinations.{NetTools, bad_port, Destination, pinned, validate}
use seskit.Destinations.Sound.{validate_sound}
use seskit.Webhooks.{WebhookEndpoint, WebhookDelivery, is_settled}
use seskit.Webhooks.Outcomes.{IsWellFormed}
use seskit.Delivery.{
  Request, Settings, World, Ended, raised, returned, pinned_url, post_to, connect, send_to,
  deliver_one,
}
use seskit.Delivery.Attempt.{EndsWell, deliver_one_pending}

module _ (net : NetTools) (s : Settings net) where
  -- The row after some calls, all their requests, and how many of them raised.
  pub record Called : Type 0 where
    pub row : WebhookDelivery
    pub requests : List (Request net)
    pub raises : ℕ

  -- A call that raises leaves the row as it was.
  unfoldable pub resume : (rest : WebhookDelivery → Called) → WebhookDelivery → Ended net → Called
  resume rest d (raised requests) =
      let later = rest d in
      record later { requests = requests ++ later.requests; raises = suc later.raises }
  resume rest d (returned r) =
      let later = rest r.delivery in record later { requests = r.requests ++ later.requests }

  -- Some calls on one row, each in its own surroundings and with the endpoint as it is then.
  unfoldable pub calls : List (World net × WebhookEndpoint) → WebhookDelivery → Called
  unfolding resume
  calls [] d = record { row = d; requests = []; raises = 0 }
  calls ((w, e) ∷ rest) d = resume (calls rest) d (deliver_one net w s d e)

  settled_stays :
      (ws : List (World net × WebhookEndpoint)) (d : WebhookDelivery)
      → is_settled d ≡ true
      → calls ws d ≡ record { row = d; requests = []; raises = 0 }
  unfolding calls deliver_one
  settled_stays [] d h = refl
  settled_stays ((w, e) ∷ ws) d h = rw (h, settled_stays ws d h) refl

  length-append : (xs ys : List (Request net)) → length (xs ++ ys) ≡ length xs + length ys
  length-append [] ys = omega arith
  length-append (x ∷ xs) ys = omega (arith, length-append xs ys)

  -- The bound for what some calls did, `n` of them, from a row with `attempts`.
  IsBounded : (n attempts : ℕ) → Called → Type 0
  IsBounded n attempts called =
      (length called.requests + attempts ≤ s.limits.max_attempts + called.raises)
      × (s.limits.max_attempts + called.raises ≤ n + attempts → is_settled called.row ≡ true)

  settled-IsBounded :
      (ws : List (World net × WebhookEndpoint)) (d : WebhookDelivery)
      → is_settled d ≡ true
      → IsWellFormed s.limits d
      → IsBounded (length ws) d.attempt_count (calls ws d)
  unfolding IsBounded
  settled-IsBounded ws d done well =
      rw (settled_stays ws d done) (omega (arith, well.bounded), λ _. done)

  resume-IsBounded :
      (w : World net) (e : WebhookEndpoint) (ws : List (World net × WebhookEndpoint))
      (d : WebhookDelivery) (ended : Ended net)
      → IsWellFormed s.limits d
      → EndsWell net w s d e ended
      → ((d' : WebhookDelivery)
          → IsWellFormed s.limits d'
          → IsBounded (length ws) d'.attempt_count (calls ws d'))
      → IsBounded (suc (length ws)) d.attempt_count (resume (calls ws) d ended)
  unfolding IsBounded EndsWell resume
  resume-IsBounded w e ws d (raised requests) well (fault, one, safe) later =
      let (bound, ends) = later d well in
      (
        omega (arith, bound, one, length-append requests (calls ws d).requests),
        λ h. ends (omega (arith, h)),
      )
  resume-IsBounded w e ws d (returned r) well (tried, safe) later =
      let (bound, ends) = later r.delivery (tried.well_formed well) in
      (
        omega (
          arith,
          bound,
          tried.counted,
          tried.one_request,
          length-append r.requests (calls ws r.delivery).requests,
        ),
        λ h. ends (omega (arith, h, tried.counted)),
      )

  -- However often a row is picked up, and whatever the endpoint answers: the requests made for it are
  -- no more than the attempts that it had left and the calls that raised, and once there were as
  -- many calls as that, the row is settled.
  pub calls_bounded :
      (ws : List (World net × WebhookEndpoint)) (d : WebhookDelivery)
      → IsWellFormed s.limits d
      → let called = calls ws d in
        (length called.requests + d.attempt_count ≤ s.limits.max_attempts + called.raises)
        × (s.limits.max_attempts + called.raises ≤ length ws + d.attempt_count
            → is_settled called.row ≡ true)
  unfolding calls IsBounded
  calls_bounded [] d well =
      (omega (arith, well.bounded), λ h. ground (arith, h, well.attempts_left))
  calls_bounded ((w, e) ∷ ws) d well = elim (Bool-cases (is_settled d)) [
    | inl done ↦ settled-IsBounded ((w, e) ∷ ws) d done well
    | inr open_ ↦
        resume-IsBounded w e ws d (deliver_one net w s d e) well
          (deliver_one_pending net w s d e open_) (calls_bounded ws)
  ]

  -- Endpoints whose URL passes the check and has a port that cannot be read.
  unfoldable pub HaveBadPort : List (World net × WebhookEndpoint) → Type 0
  HaveBadPort [] = Unit {0}
  HaveBadPort ((w, e) ∷ rest) =
      ((destination : Destination net) × (validate net s.policy w.resolve e.url ≡ ok destination))
      × (net.port_text e.url ≡ err bad_port)
      × HaveBadPort rest

  connect_bad_port :
      (w : World net) (e : WebhookEndpoint) (d : WebhookDelivery) (destination : Destination net)
      (found : Option net.Address)
      → net.port_text destination.url ≡ err bad_port
      → connect net w s d e destination found ≡ raised []
  unfolding connect post_to pinned_url
  connect_bad_port w e d destination none bad = refl
  connect_bad_port w e d destination (some a) bad = rw bad refl

  deliver_one_bad_port :
      (w : World net) (e : WebhookEndpoint) (d : WebhookDelivery) (destination : Destination net)
      → is_settled d ≡ false
      → validate net s.policy w.resolve e.url ≡ ok destination
      → net.port_text e.url ≡ err bad_port
      → deliver_one net w s d e ≡ raised []
  unfolding deliver_one send_to
  deliver_one_bad_port w e d destination open_ passed bad =
      let (same, _, _) = validate_sound net s.policy w.resolve e.url destination passed in
      rw (open_, passed)
        (connect_bad_port w e d destination (pinned net destination) (ap net.port_text same ∙ bad))

  -- A pending row whose endpoint's URL passes the check with a port that cannot be read stays as it
  -- is, however often it is picked up: each call raises, no request is made and no attempt counted.
  pub calls_bad_port :
      (ws : List (World net × WebhookEndpoint)) (d : WebhookDelivery)
      → is_settled d ≡ false
      → HaveBadPort ws
      → calls ws d ≡ record { row = d; requests = []; raises = length ws }
  unfolding calls HaveBadPort
  calls_bad_port [] d open_ h = refl
  calls_bad_port ((w, e) ∷ ws) d open_ ((destination, passed), bad, rest) =
      rw (deliver_one_bad_port w e d destination open_ passed bad, calls_bad_port ws d open_ rest)
        refl
