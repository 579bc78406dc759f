-- ===== src/Webhooks/Queue/Whom.antt =====
-- services/webhooks.py: which endpoints an event is queued for.
use seskit.Base.{
  ℕ, ◌==◌, ==_iff, ==_refl, Bool, true, none, some, List, [], ◌∷◌, ◌++◌, find, select, any, ◌≡◌,
  refl, sym, ap, ◌∙◌, arith, Bool-cases, Option-cases, inl, inr, ◌⊎◌, All,
}
use seskit.Members.{In}
use seskit.Events.{EmailEvent, is_public_type}
use seskit.Webhooks.{WebhookEndpoint, WebhookDelivery, WebhookStatus, active, status_is_active}
use seskit.Webhooks.Endpoints.{Webhooks}
use seskit.Webhooks.Queue.{
  Owned, owner_of, project_of, is_for, new_delivery, queue_each, targets, queue_deliveries,
}
use seskit.Webhooks.Queue.Unique.{recipients_of, queue_deliveries-has, queue_deliveries_lem}

In-select :
    (test : WebhookEndpoint → Bool) (e : WebhookEndpoint) (es : List WebhookEndpoint)
    → In e es
    → test e ≡ true
    → any (λ x. x.id == e.id) (select test es) ≡ true
unfolding In any select
In-select test e [] here passes = absurd here
In-select test e (x ∷ es) (inl same) passes =
    ground (arith, ap test same ∙ passes, ap (λ y. y.id) same, ==_refl e.id)
In-select test e (x ∷ es) (inr later) passes = ground (arith, In-select test e es later passes)

module _ (P : WebhookEndpoint → Type 0) where
  select-All :
      (test : WebhookEndpoint → Bool) (es : List WebhookEndpoint)
      → ((e : WebhookEndpoint) → In e es → test e ≡ true → P e)
      → All P (select test es)
  unfolding In select
  select-All test [] h = tt
  select-All test (e ∷ es) h = elim (Bool-cases (test e)) [
    | inl passes ↦
        rw passes (h e (inl refl) passes, select-All test es (λ x later good. h x (inr later) good))
    | inr fails ↦ rw fails (select-All test es (λ x later good. h x (inr later) good))
  ]

  queue_each-All :
      (fresh : ℕ → ℕ) (now v : ℕ) (es : List WebhookEndpoint) (table : List WebhookDelivery)
      → All P es
      → All
          (λ d. (e : WebhookEndpoint) × P e × (d ≡ new_delivery (fresh e.id) now e.id v))
          (queue_each fresh now v es table).0
  unfolding queue_each
  queue_each-All fresh now v [] table h = tt
  queue_each-All fresh now v (e ∷ es) table (own, h) =
      elim (Bool-cases (any (is_for e.id v) table)) [
        | inl old ↦ rw old (queue_each-All fresh now v es table h)
        | inr new ↦ rw new ((e, own, refl), queue_each-All fresh now v es _ h)
      ]

module _ (emails inbound_emails : List Owned) (event : EmailEvent) where
  -- The message that the event is about, sent or received, belongs to the project.
  pub IsOwner : ℕ → Type 0
  IsOwner p =
      ((id : ℕ) × (row : Owned) × (event.email_id ≡ some id)
        × (find (λ x. x.id == id) emails ≡ some row)
        × (row.project_id ≡ p))
      ⊎ ((id : ℕ) × (row : Owned) × (event.email_id ≡ none)
          × (event.inbound_email_id ≡ some id)
          × (find (λ x. x.id == id) inbound_emails ≡ some row)
          × (row.project_id ≡ p))

  -- An endpoint that is to hear of the event.
  pub IsWanted : WebhookEndpoint → Type 0
  IsWanted e = (is_public_type event.event_type ≡ true) × (e.status ≡ active) × IsOwner e.project_id

  owner_of-some :
      (id p : ℕ) (rows : List Owned)
      → owner_of id rows ≡ some p
      → (row : Owned) × (find (λ x. x.id == id) rows ≡ some row) × (row.project_id ≡ p)
  unfolding owner_of
  owner_of-some id p rows h = elim (Option-cases (find (λ x. x.id == id) rows)) [
    | inl lost ↦ absurd (ground (arith, h, lost))
    | inr (row, found) ↦ (row, found, ground (arith, h, found))
  ]

  project_of-IsOwner : (p : ℕ) → project_of emails inbound_emails event ≡ some p → IsOwner p
  unfolding project_of IsOwner
  project_of-IsOwner p h = elim (Option-cases event.email_id) [
    | inr (id, named) ↦
        let (row, found, own) = owner_of-some id p emails (ground (arith, h, named)) in
        inl (id, row, named, found, own)
    | inl unnamed ↦ elim (Option-cases event.inbound_email_id) [
      | inl nowhere ↦ absurd (ground (arith, h, unnamed, nowhere))
      | inr (id, received) ↦
          let (row, found, own) =
            owner_of-some id p inbound_emails (ground (arith, h, unnamed, received)) in
          inr (id, row, unnamed, received, found, own)
    ]
  ]

  IsOwner-project_of : (p : ℕ) → IsOwner p → project_of emails inbound_emails event ≡ some p
  unfolding project_of IsOwner owner_of
  IsOwner-project_of p (inl (id, row, named, found, own)) = ground (arith, named, found, own)
  IsOwner-project_of p (inr (id, row, unnamed, received, found, own)) =
      ground (arith, unnamed, received, found, own)

  is_active : (status : WebhookStatus) → status_is_active status ≡ true → status ≡ active
  is_active status h = ground (arith, h)

  project_of-IsWanted :
      (e : WebhookEndpoint) (p : ℕ)
      → is_public_type event.event_type ≡ true
      → project_of emails inbound_emails event ≡ some p
      → (e.project_id == p) ≡ true
      → status_is_active e.status ≡ true
      → IsWanted e
  unfolding IsWanted
  project_of-IsWanted e p public found own on = (
    public,
    is_active e.status on,
    project_of-IsOwner e.project_id (found ∙ ap some (sym ((==_iff e.project_id p).0 own))),
  )

  module _ (hooks : Webhooks) where
    recipients_of-All :
        All
          (λ e. In e hooks.endpoints × IsWanted e)
          (recipients_of emails inbound_emails event hooks)
    unfolding recipients_of
    recipients_of-All = elim (Bool-cases (is_public_type event.event_type)) [
      | inr closed ↦ rw closed tt
      | inl public ↦ elim (Option-cases (project_of emails inbound_emails event)) [
        | inl lost ↦ rw (public, lost) tt
        | inr (p, found) ↦
            rw (public, found)
              (unfold targets in
                select-All (λ e. In e hooks.endpoints × IsWanted e) _ hooks.endpoints
                  (λ e here passes. (
                    here,
                    project_of-IsWanted e p public found (ground (arith, passes))
                        (ground (arith, passes)),
                  )))
      ]
    ]

    IsWanted-recipients_of :
        (e : WebhookEndpoint)
        → In e hooks.endpoints
        → IsWanted e
        → any (λ x. x.id == e.id) (recipients_of emails inbound_emails event hooks) ≡ true
    unfolding recipients_of targets IsWanted
    IsWanted-recipients_of e here (public, on, owner) =
        rw (public, IsOwner-project_of e.project_id owner)
          (In-select _ e hooks.endpoints here
            (ground (arith, ==_refl e.project_id, ap status_is_active on)))

    -- An event of a public type is queued for the active endpoints of the project that its message
    -- belongs to, and for no others: each new row is that of such an endpoint, and each of them has a
    -- row for the event afterwards. The other rows are the old ones, in place.
    pub queue_deliveries-whom :
        (fresh : ℕ → ℕ) (now : ℕ)
        → let (created, queued) = queue_deliveries emails inbound_emails fresh now event hooks in
          All
            (λ d.
              (e : WebhookEndpoint) × (In e hooks.endpoints × IsWanted e)
              × (d ≡ new_delivery (fresh e.id) now e.id event.id))
            created
          × ((e : WebhookEndpoint)
              → In e hooks.endpoints
              → IsWanted e
              → any (is_for e.id event.id) queued.deliveries ≡ true)
          × (queued.deliveries ≡ hooks.deliveries ++ created)
    queue_deliveries-whom fresh now =
        let (_, kept, _) = queue_deliveries-has emails inbound_emails event hooks fresh now 0 in
        (
          rw (queue_deliveries_lem emails inbound_emails event hooks fresh now) (
              queue_each-All (λ e. In e hooks.endpoints × IsWanted e) fresh now event.id
                (recipients_of emails inbound_emails event hooks) hooks.deliveries
                recipients_of-All),
          λ e here wanted.
              let (has, _, _) =
                queue_deliveries-has emails inbound_emails event hooks fresh now e.id in
              ground (arith, has, IsWanted-recipients_of e here wanted),
          kept,
        )
