-- ===== src/Webhooks/Queue/Unique.antt =====
-- services/webhooks.py: one delivery per event and endpoint, however often an event is queued.
use seskit.Base.{
  ℕ, ◌==◌, ==_iff, ◌≤◌, Bool, true, false, ◌||◌, none, some, List, [], ◌∷◌, ◌++◌, if◌then◌else◌,
  any, count, count-append, ◌≡◌, refl, arith, ◌∙◌, ==_refl, Bool-cases, inl, inr, All,
}
use mathlib.Core.List.{append-nil, append_assoc}
use seskit.Events.{EmailEvent, is_public_type}
use seskit.Webhooks.{WebhookEndpoint, WebhookDelivery}
use seskit.Webhooks.Endpoints.{Webhooks}
use seskit.Webhooks.Queue.{
  Owned, project_of, is_for, new_delivery, queue_each, targets, queue_deliveries,
}

any-append {ℓ} :
    {A : Type ℓ} (test : A → Bool) (xs ys : List A)
    → any test (xs ++ ys) ≡ (any test xs || any test ys)
unfolding any
any-append test [] ys = refl
any-append test (x ∷ xs) ys = ground (arith, any-append test xs ys)

count_none {ℓ} :
    {A : Type ℓ} (test : A → Bool) (xs : List A) → any test xs ≡ false → count test xs ≡ 0
unfolding count any
count_none test [] h = refl
count_none test (x ∷ xs) h = ground (arith, count_none test xs)

-- Every endpoint and event have at most one delivery row.
abbrev pub OneEach : List WebhookDelivery → Type 0
OneEach table = (k v : ℕ) → count (is_for k v) table ≤ 1

module _ (fresh : ℕ → ℕ) (now v : ℕ) where
  -- The table after one round.
  abbrev after : WebhookEndpoint → List WebhookDelivery → List WebhookDelivery
  after e table =
      if any (is_for e.id v) table
      then table
      else table ++ new_delivery (fresh e.id) now e.id v ∷ []

  after-has :
      (e : WebhookEndpoint) (table : List WebhookDelivery) (k : ℕ)
      → any (is_for k v) (after e table) ≡ (any (is_for k v) table || e.id == k)
  unfolding any
  after-has e table k = ground (
    arith,
    ==_iff e.id k,
    any-append (is_for k v) table (new_delivery (fresh e.id) now e.id v ∷ []),
  )

  queue_each-has :
      (es : List WebhookEndpoint) (table : List WebhookDelivery) (k : ℕ)
      → any (is_for k v) (queue_each fresh now v es table).1
        ≡ (any (is_for k v) table || any (λ e. e.id == k) es)
  unfolding queue_each any
  queue_each-has [] table k = ground arith
  queue_each-has (e ∷ es) table k =
      ground (arith, queue_each-has es (after e table) k, after-has e table k)

  after-OneEach :
      (e : WebhookEndpoint) (table : List WebhookDelivery) → OneEach table → OneEach (after e table)
  unfolding count
  after-OneEach e table one k w = ground (
    arith,
    one k w,
    ==_iff e.id k,
    ==_iff v w,
    count-append (is_for k w) table (new_delivery (fresh e.id) now e.id v ∷ []),
    count_none (is_for e.id v) table,
  )

  queue_each-OneEach :
      (es : List WebhookEndpoint) (table : List WebhookDelivery)
      → OneEach table
      → OneEach (queue_each fresh now v es table).1
  unfolding queue_each
  queue_each-OneEach [] table one = one
  queue_each-OneEach (e ∷ es) table one =
      queue_each-OneEach es (after e table) (after-OneEach e table one)

  queue_each-append :
      (es : List WebhookEndpoint) (table : List WebhookDelivery)
      → (queue_each fresh now v es table).1 ≡ table ++ (queue_each fresh now v es table).0
  unfolding queue_each
  queue_each-append [] table = rw append-nil
  queue_each-append (e ∷ es) table = elim (Bool-cases (any (is_for e.id v) table)) [
    | inl old ↦ rw old (queue_each-append es table)
    | inr new ↦ rw new (
        queue_each-append es (table ++ new_delivery (fresh e.id) now e.id v ∷ [])
        ∙ append_assoc table (new_delivery (fresh e.id) now e.id v ∷ []) _)
  ]

  -- With a row for each of the endpoints there is nothing to create.
  queue_each_full :
      (es : List WebhookEndpoint) (table : List WebhookDelivery)
      → All (λ e. any (is_for e.id v) table ≡ true) es
      → queue_each fresh now v es table ≡ ([], table)
  unfolding queue_each
  queue_each_full [] table full = refl
  queue_each_full (e ∷ es) table full = ground (arith, full.0, queue_each_full es table full.1)

has_each :
    (v : ℕ) (es : List WebhookEndpoint) (table : List WebhookDelivery)
    → ((k : ℕ) → any (λ e. e.id == k) es ≡ true → any (is_for k v) table ≡ true)
    → All (λ e. any (is_for e.id v) table ≡ true) es
unfolding any
has_each v [] table h = tt
has_each v (e ∷ es) table h =
    (h e.id (ground (arith, ==_refl e.id)), has_each v es table (λ k m. h k (ground (arith, m))))

module _ (emails inbound_emails : List Owned) (event : EmailEvent) (hooks : Webhooks) where
  -- Whom an event is for: the active endpoints of the project that its message belongs to, if the
  -- type is a public one.
  unfoldable pub recipients_of : List WebhookEndpoint
  recipients_of =
      if is_public_type event.event_type
      then elim (project_of emails inbound_emails event) [
        | none ↦ []
        | some p ↦ targets p hooks.endpoints
      ]
      else []

  pub queue_deliveries_lem :
      (fresh : ℕ → ℕ) (now : ℕ)
      → queue_deliveries emails inbound_emails fresh now event hooks ≡ (
        (queue_each fresh now event.id recipients_of hooks.deliveries).0,
        record hooks {
          deliveries = (queue_each fresh now event.id recipients_of hooks.deliveries).1;
        },
      )
  unfolding queue_deliveries recipients_of queue_each
  queue_deliveries_lem fresh now = ground arith

  -- After an event has been queued, an endpoint has a row for it exactly if it had one before or is
  -- one of the event's recipients; the other rows are the old ones, in place, and the new rows are
  -- returned.
  pub queue_deliveries-has :
      (fresh : ℕ → ℕ) (now k : ℕ)
      → let (created, queued) = queue_deliveries emails inbound_emails fresh now event hooks in
        (any (is_for k event.id) queued.deliveries
          ≡ (any (is_for k event.id) hooks.deliveries || any (λ e. e.id == k) recipients_of))
        × (queued.deliveries ≡ hooks.deliveries ++ created)
        × (queued.endpoints ≡ hooks.endpoints)
  queue_deliveries-has fresh now k = rw (queue_deliveries_lem fresh now) (
    queue_each-has fresh now event.id recipients_of hooks.deliveries k,
    queue_each-append fresh now event.id recipients_of hooks.deliveries,
    refl,
  )

  -- Queueing keeps one row for an event and an endpoint.
  pub queue_deliveries-OneEach :
      (fresh : ℕ → ℕ) (now : ℕ)
      → OneEach hooks.deliveries
      → OneEach (queue_deliveries emails inbound_emails fresh now event hooks).1.deliveries
  queue_deliveries-OneEach fresh now one =
      rw (queue_deliveries_lem fresh now)
        (queue_each-OneEach fresh now event.id recipients_of hooks.deliveries one)

module _ (emails inbound_emails : List Owned) (event : EmailEvent) (hooks : Webhooks) where
  after_queueing : (fresh : ℕ → ℕ) → ℕ → List WebhookDelivery
  after_queueing fresh now =
      (queue_each fresh now event.id (recipients_of emails inbound_emails event hooks)
        hooks.deliveries).1

  nothing_left :
      (fresh fresh' : ℕ → ℕ) (now later : ℕ)
      → queue_each fresh' later event.id
          (recipients_of emails inbound_emails event hooks)
          (after_queueing fresh now)
        ≡ ([], after_queueing fresh now)
  unfolding after_queueing
  nothing_left fresh fresh' now later =
      let es = recipients_of emails inbound_emails event hooks in
      queue_each_full fresh' later event.id es (queue_each fresh now event.id es hooks.deliveries).1
        (has_each event.id es (queue_each fresh now event.id es hooks.deliveries).1
          (λ k m. ground (arith, m, queue_each-has fresh now event.id es hooks.deliveries k)))

  queued_again :
      (fresh : ℕ → ℕ) (later : ℕ) (table : List WebhookDelivery)
      → queue_each fresh later event.id (recipients_of emails inbound_emails event hooks) table
        ≡ ([], table)
      → queue_deliveries emails inbound_emails fresh later event
          (record hooks { deliveries = table })
        ≡ ([], record hooks { deliveries = table })
  unfolding recipients_of
  queued_again fresh later table none_left =
      rw (queue_deliveries_lem emails inbound_emails event (record hooks { deliveries = table }))
        (rw none_left)

  -- A notification that is delivered again queues nothing: the second call creates no row and
  -- leaves the tables as they are, whatever the first one found.
  pub queue_deliveries_twice :
      (fresh fresh' : ℕ → ℕ) (now later : ℕ)
      → let queued = (queue_deliveries emails inbound_emails fresh now event hooks).1 in
        queue_deliveries emails inbound_emails fresh' later event queued ≡ ([], queued)
  queue_deliveries_twice fresh fresh' now later =
      rw (queue_deliveries_lem emails inbound_emails event hooks) (
        unfold after_queueing in
        queued_again fresh' later (after_queueing fresh now) (nothing_left fresh fresh' now later))
