-- ===== src/Polling/Settled.antt =====
-- The worker's events.py: what takes a message off the queue, and what a message that comes again does.
use seskit.Base.{
  ℕ, String, str_eq, Bool, true, false, ◌||◌, not, Option, none, some, List, Result, ok, err, ◌≡◌,
  ◌≢◌, refl, sym, ap, ◌∙◌, arith, Bool-cases, inl, inr, ◌⊎◌,
}
use seskit.Suppression.{DatabaseError}
use seskit.Events.{EmailEvent}
use seskit.Normalise.{Payload, TimeTools}
use seskit.Ingest.{Outcome, recorded, duplicate, unknown_message, ignored, Ledger, ingest_event}
use seskit.Ingest.Again.{ingest_event_again}
use seskit.Polling.{
  JsonTools, SnsEnvelope, MalformedEnvelope, is_notification, is_settled, unwrap, returned, raised,
  Handled, Surroundings, remove, keep, after_commit, delivery_ids, after_ingest, provider_event_id,
  handle_event, handle_envelope, handle,
}

-- A message that nothing can be made of: unreadable, no notification, or without an event.
unfoldable pub is_unanswerable : Result MalformedEnvelope SnsEnvelope → Bool
is_unanswerable (err e) = true
is_unanswerable (ok envelope) =
    not (is_notification envelope) || (elim envelope.event [ none ↦ true | some payload ↦ false ])

-- Deleted exactly if the call returns.
unfoldable pub agrees : Handled → Bool
agrees handled = elim handled.verdict [
  | raised ↦ not handled.deleted
  | returned is_new ↦ handled.deleted
]

after_commit-agrees :
    (around : Surroundings) (outcome : Outcome) (ids : List ℕ) (ledger : Ledger)
    → (agrees (after_commit around outcome ids ledger) ≡ true)
      × ((after_commit around outcome ids ledger).ledger ≡ ledger)
unfolding agrees after_commit is_settled remove keep
after_commit-agrees around recorded ids ledger = ground arith
after_commit-agrees around duplicate ids ledger = ground arith
after_commit-agrees around unknown_message ids ledger = ground arith
after_commit-agrees around ignored ids ledger = ground arith

after_ingest-committed :
    (can_enqueue : Bool) (around : Surroundings) (o : Outcome) (event : Option EmailEvent)
    → (after ledger : Ledger) → around.commits ≡ true
    → (after_ingest can_enqueue around (ok (o, event, after)) ledger).ledger ≡ after
unfolding after_ingest
after_ingest-committed can_enqueue around o event after ledger commits =
    rw commits (after_commit-agrees around o (delivery_ids can_enqueue event after) after).1

after_ingest_deleted :
    (can_enqueue : Bool) (around : Surroundings)
    → (result : Result DatabaseError (Outcome × Option EmailEvent × Ledger)) (ledger : Ledger)
    → (after_ingest can_enqueue around result ledger).deleted ≡ true
    → (o : Outcome) × (event : Option EmailEvent) × (result
        ≡ ok (o, event, (after_ingest can_enqueue around result ledger).ledger))
unfolding after_ingest keep
after_ingest_deleted can_enqueue around (err e) ledger h = absurd (ground (arith, h))
after_ingest_deleted can_enqueue around (ok (o, event, after)) ledger h =
    elim (Bool-cases around.commits) [
      | inl commits ↦ (
        o,
        event,
        ap (λ l. ok (o, event, l))
            (sym (after_ingest-committed can_enqueue around o event after ledger commits)),
      )
      | inr fails ↦ absurd (ground (arith, h, fails))
    ]

provider_event_id-named :
    (envelope : SnsEnvelope) (id : String)
    → envelope.message_id ≡ id
    → str_eq id "" ≡ false
    → provider_event_id envelope ≡ some id
unfolding provider_event_id
provider_event_id-named envelope id same named = rw (same, named) refl

-- A notification that is not new leaves the rows alone, whatever fails after it.
after_ingest_idle :
    (can_enqueue : Bool) (around : Surroundings) (o : Outcome) (event : Option EmailEvent)
    → (ledger : Ledger) → o ≢ recorded
    → ((after_ingest can_enqueue around (ok (o, event, ledger)) ledger).ledger ≡ ledger)
      × ((after_ingest can_enqueue around (ok (o, event, ledger)) ledger).verdict ≢ returned true)
unfolding after_ingest after_commit keep remove is_settled
after_ingest_idle can_enqueue around recorded event ledger h = absurd (h refl)
after_ingest_idle can_enqueue around duplicate event ledger h = ground arith
after_ingest_idle can_enqueue around unknown_message event ledger h = ground arith
after_ingest_idle can_enqueue around ignored event ledger h = ground arith

module _ (bare : String → String) (times : TimeTools) (id_text : ℕ → String)
    (json : JsonTools) where
  module _ (project_ids : List ℕ) (can_enqueue : Bool) (around : Surroundings)
      (ledger : Ledger) where
    handle_envelope-event :
        (envelope : SnsEnvelope) (has : Option Payload)
        → is_notification envelope ≡ true
        → envelope.event ≡ has
        → handle_envelope bare times id_text json project_ids can_enqueue around
            (ok envelope)
            ledger
          ≡ handle_event bare times id_text json project_ids can_enqueue around envelope has ledger
    unfolding handle_envelope
    handle_envelope-event envelope has notifies carries = rw (notifies, carries) refl

    -- What is known of a message that was deleted.
    Accounted : Result MalformedEnvelope SnsEnvelope → Ledger → Type 0
    Accounted opened after =
        (is_unanswerable opened ≡ true)
        ⊎ ((envelope : SnsEnvelope) × (payload : Payload) × (o : Outcome) × (event : Option
              EmailEvent)
            × (opened ≡ ok envelope)
            × (envelope.event ≡ some payload)
            × (ingest_event bare times id_text around.ids around.now payload
                  (provider_event_id envelope) project_ids around.raced ledger
                ≡ ok (o, event, after)))

    handle_event_deleted :
        (envelope : SnsEnvelope) (has : Option Payload)
        → envelope.event ≡ has
        → (handle_event bare times id_text json project_ids can_enqueue around envelope has
            ledger).deleted
          ≡ true
        → Accounted
            (ok envelope)
            (handle_event bare times id_text json project_ids can_enqueue around envelope has
              ledger).ledger
    unfolding handle_event Accounted is_unanswerable
    handle_event_deleted envelope none carries h = inl (ground (arith, carries))
    handle_event_deleted envelope (some payload) carries h =
        let (o, event, ingested) =
          after_ingest_deleted can_enqueue around
            (ingest_event bare times id_text around.ids around.now payload
              (provider_event_id envelope) project_ids around.raced ledger)
            ledger h in
        inr (envelope, payload, o, event, refl, carries, ingested)

    handle_envelope_deleted :
        (opened : Result MalformedEnvelope SnsEnvelope)
        → (handle_envelope bare times id_text json project_ids can_enqueue around opened
            ledger).deleted
          ≡ true
        → Accounted opened
            (handle_envelope bare times id_text json project_ids can_enqueue around opened
              ledger).ledger
    handle_envelope_deleted (err e) h = unfold Accounted is_unanswerable in inl refl
    handle_envelope_deleted (ok envelope) h = elim (Bool-cases (is_notification envelope)) [
      | inl notifies ↦ rw (handle_envelope-event envelope envelope.event notifies refl) (
          handle_event_deleted envelope envelope.event refl (
            ap (λ handled. handled.deleted)
              (sym (handle_envelope-event envelope envelope.event notifies refl))
            ∙ h))
      | inr other ↦ unfold Accounted is_unanswerable in inl (ground (arith, other))
    ]

  -- A message that comes again leaves the rows as they are if its notification is held.
  handle_envelope_idle :
      (project_ids : List ℕ) (can_enqueue : Bool) (around : Surroundings) (resent : SnsEnvelope)
      (ledger : Ledger)
      → ((payload : Payload)
          → (o : Outcome) × (event : Option EmailEvent) × (ingest_event bare times id_text
                around.ids around.now payload
                (provider_event_id resent)
                project_ids
                around.raced
                ledger
              ≡ ok (o, event, ledger))
            × (o ≢ recorded))
      → ((handle_envelope bare times id_text json project_ids can_enqueue around
            (ok resent)
            ledger).ledger
          ≡ ledger)
        × ((handle_envelope bare times id_text json project_ids can_enqueue around
              (ok resent)
              ledger).verdict
            ≢ returned true)
  handle_envelope_idle project_ids can_enqueue around resent ledger idle =
      elim (Bool-cases (is_notification resent)) [
        | inl notifies ↦
            rw
              (handle_envelope-event project_ids can_enqueue around ledger resent resent.event
                notifies refl)
              (by_event resent.event)
        | inr other ↦ unfold handle_envelope remove in ground (arith, other)
      ]
    where
      by_event :
          (has : Option Payload)
          → ((handle_event bare times id_text json project_ids can_enqueue around resent has
                ledger).ledger
              ≡ ledger)
            × ((handle_event bare times id_text json project_ids can_enqueue around resent has
                  ledger).verdict
                ≢ returned true)
      by_event none = unfold handle_event remove in ground arith
      by_event (some payload) =
          let (o, event, ingested, old) = idle payload in
          unfold handle_event in
          rw ingested (after_ingest_idle can_enqueue around o event ledger old)

  -- A message is taken off the queue only if nothing can be made of it, or if its ingestion came to
  -- an end and what it did to the rows is committed.
  pub handle_deleted :
      (project_ids : List ℕ) (can_enqueue : Bool) (around : Surroundings) (body : String)
      (ledger : Ledger)
      → (handle bare times id_text json project_ids can_enqueue around body ledger).deleted ≡ true
      → (is_unanswerable (unwrap json body) ≡ true)
        ⊎ ((envelope : SnsEnvelope) × (payload : Payload) × (o : Outcome) × (event : Option
              EmailEvent)
            × (unwrap json body ≡ ok envelope)
            × (envelope.event ≡ some payload)
            × (ingest_event bare times id_text around.ids around.now payload
                  (provider_event_id envelope)
                  project_ids
                  around.raced
                  ledger
                ≡ ok (
                  o,
                  event,
                  (handle bare times id_text json project_ids can_enqueue around body
                      ledger).ledger,
                )))
  handle_deleted project_ids can_enqueue around body ledger h =
      unfold handle Accounted in
      handle_envelope_deleted project_ids can_enqueue around ledger (unwrap json body) h

  handle_recorded :
      (project_ids : List ℕ) (can_enqueue : Bool) (around : Surroundings) (body : String)
      (ledger out : Ledger) (envelope : SnsEnvelope) (payload : Payload) (event : Option EmailEvent)
      → unwrap json body ≡ ok envelope
      → is_notification envelope ≡ true
      → envelope.event ≡ some payload
      → str_eq envelope.message_id "" ≡ false
      → ingest_event bare times id_text around.ids around.now payload
          (some envelope.message_id)
          project_ids
          around.raced
          ledger
        ≡ ok (recorded, event, out)
      → around.commits ≡ true
      → (handle_envelope bare times id_text json project_ids can_enqueue around
          (unwrap json body)
          ledger).ledger
        ≡ out
  handle_recorded project_ids can_enqueue around body ledger out envelope payload event opened
        notifies has named ingested commits =
      rw
        (
          opened,
          handle_envelope-event project_ids can_enqueue around ledger envelope (some payload)
              notifies has,
        )
        (unfold handle_event in
          rw (provider_event_id-named envelope envelope.message_id refl named, ingested)
            (after_ingest-committed can_enqueue around recorded event out ledger commits))

  -- A notification that was recorded and committed, after which a job could not be enqueued or the
  -- message not be deleted, so that it comes again: whatever its body is then, and whatever else
  -- has changed around it, the rows stay as they are, and it is not counted as recorded again.
  pub handle_again :
      (project_ids sources : List ℕ) (can_enqueue : Bool) (around later : Surroundings)
      (body again : String) (ledger out : Ledger) (envelope resent : SnsEnvelope)
      (payload : Payload) (event : Option EmailEvent)
      → unwrap json body ≡ ok envelope
      → is_notification envelope ≡ true
      → envelope.event ≡ some payload
      → str_eq envelope.message_id "" ≡ false
      → ingest_event bare times id_text around.ids around.now payload
          (some envelope.message_id)
          project_ids
          around.raced
          ledger
        ≡ ok (recorded, event, out)
      → around.commits ≡ true
      → unwrap json again ≡ ok resent
      → resent.message_id ≡ envelope.message_id
      → let first = handle bare times id_text json project_ids can_enqueue around body ledger in
        let second = handle bare times id_text json sources can_enqueue later again first.ledger in
        (first.ledger ≡ out) × (second.ledger ≡ out) × (second.verdict ≢ returned true)
  handle_again project_ids sources can_enqueue around later body again ledger out envelope resent
        payload event opened notifies has named ingested commits reopened same =
      let (kept, quiet) = handle_envelope_idle sources can_enqueue later resent out (λ other.
        rw (provider_event_id-named resent envelope.message_id same named) (
          ingest_event_again bare times id_text envelope.message_id around.ids later.ids around.now
            later.now payload other project_ids sources around.raced later.raced ledger out event
            ingested)) in
      let first =
        handle_recorded project_ids can_enqueue around body ledger out envelope payload event opened
          notifies has named ingested commits in
      unfold handle in (first, rw (first, reopened) kept, rw (first, reopened) quiet)
