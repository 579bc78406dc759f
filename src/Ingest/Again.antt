-- ===== src/Ingest/Again.antt =====
-- events/ingest.py: a notification that is delivered again.
use seskit.Base.{
  ℕ, String, str_eq, eq_refl, Bool, true, ◌||◌, Option, none, some, List, [], ◌∷◌, ◌++◌, ok, >>=-ok,
  find, find-append, is_some, ◌≡◌, ◌≢◌, sym, ◌∙◌, ap, arith, Option-cases, Bool-cases, inl, inr,
}
use seskit.Suppression.{SuppressionReason, suppressed_among}
use seskit.Events.{EventType, EmailEvent}
use seskit.Emails.{Email}
use seskit.Normalise.{
  Payload, TimeTools, parse_event_type, provider_message_id, suppression_reason, concerned,
}
use seskit.Ingest.{
  Outcome, recorded, duplicate, unknown_message, ignored, Ledger, Ids, has_notification, find_sent,
  find_notification, record_suppression_event, suppress_each, named_recipients, report_added,
  suppress_named, apply_suppression, record_event, ingest_for, ingest_event,
}

module _ (test : EmailEvent → Bool) where
  held : List EmailEvent → Bool
  held events = is_some (find test events)

  held-append : (a b : List EmailEvent) → held (a ++ b) ≡ (held a || held b)
  unfolding held
  held-append a b = rw find-append (ground arith)

  module _ (bare : String → String) (id_text : ℕ → String) (ids : Ids) (now : ℕ) where
    held-report_added :
        (email : Email) (r : SuppressionReason) (e : ℕ) (added : List String) (ledger : Ledger)
        → held ledger.events ≡ true
        → held (report_added bare id_text ids now email r e added ledger).events ≡ true
    unfolding report_added record_suppression_event
    held-report_added email r e [] ledger is = is
    held-report_added email r e (a ∷ added) ledger is = rw held-append (ground (arith, is))

    held-suppress_named :
        (email : Email) (r : SuppressionReason) (e : ℕ) (named : List String) (ledger out : Ledger)
        → suppress_named bare id_text ids now email r e named ledger ≡ ok out
        → held ledger.events ≡ true
        → held out.events ≡ true
    unfolding suppress_named
    held-suppress_named email r e named ledger out h is =
        let ((table, added), _, h') =
          >>=-ok
            (suppress_each bare ids.suppression 0 email.project_id r e
              (suppressed_among bare ledger.suppressions email.project_id named) named
              ledger.suppressions)
            _ h in
        let final : report_added bare id_text ids now email r e added
              (record ledger { suppressions = table })
            ≡ out =
          cc in
        ap (λ l. held l.events) (sym final)
        ∙ held-report_added email r e added (record ledger { suppressions = table }) is

    held-apply_suppression :
        (email : Email) (e : ℕ) (event_type : EventType) (payload : Payload) (ledger out : Ledger)
        → apply_suppression bare id_text ids now email e event_type payload ledger ≡ ok out
        → held ledger.events ≡ true
        → held out.events ≡ true
    unfolding apply_suppression
    held-apply_suppression email e event_type payload ledger out h is =
        elim (Option-cases (suppression_reason payload event_type)) [
          | inl nothing ↦ ground (arith, h, nothing, is)
          | inr (reason, found) ↦
              held-suppress_named email reason e
                (named_recipients bare email (concerned payload event_type)) ledger out
                (ground (arith, h, found)) is
        ]

module _ (bare : String → String) (times : TimeTools) (id_text : ℕ → String) (id : String) where
  is_held : List EmailEvent → Bool
  is_held = held (has_notification id)

  record_event-held :
      (ids : Ids) (now : ℕ) (payload : Payload) (ledger : Ledger) (email : Email)
      (event_type : EventType) (o : Outcome) (event : Option EmailEvent) (out : Ledger)
      → record_event bare times id_text ids now payload (some id) ledger email event_type
        ≡ ok (o, event, out)
      → is_held out.events ≡ true
  unfolding record_event is_held
  record_event-held ids now payload ledger email event_type o event out h =
      let (final, applied, h') =
        >>=-ok (apply_suppression bare id_text ids now email _ event_type payload _) _ h in
      let kept =
        held-apply_suppression (has_notification id) bare id_text ids now email _ event_type payload
          _ final applied
          (rw held-append (unfold held has_notification find in ground (arith, eq_refl id))) in
      ground (arith, kept, h')

  -- A notification that was recorded is in the table afterwards.
  recorded-held :
      (ids : Ids) (now : ℕ) (payload : Payload) (project_ids : List ℕ) (raced : List EmailEvent)
      (ledger out : Ledger) (event : Option EmailEvent)
      → ingest_event bare times id_text ids now payload (some id) project_ids raced ledger
        ≡ ok (recorded, event, out)
      → is_held out.events ≡ true
  unfolding ingest_event ingest_for
  recorded-held ids now payload project_ids raced ledger out event h =
      elim (Option-cases (parse_event_type times payload)) [
        | inl unread ↦ absurd (ground (arith, h, unread))
        | inr (event_type, read) ↦ elim (Bool-cases (str_eq (provider_message_id payload) "")) [
          | inl unnamed ↦ absurd (ground (arith, h, read, unnamed))
          | inr named ↦
              elim (Option-cases
                (find_sent ledger.emails (provider_message_id payload) project_ids)) [
                  | inl lost ↦ absurd (ground (arith, h, read, named, lost))
                  | inr (email, found) ↦
                      elim (Option-cases (find_notification ledger.events (some id))) [
                        | inr (old, known) ↦ absurd (ground (arith, h, read, named, found, known))
                        | inl new ↦ elim (Option-cases (find_notification raced (some id))) [
                          | inr (old, lost) ↦
                              absurd (ground (arith, h, read, named, found, new, lost))
                          | inl won ↦
                              record_event-held ids now payload
                                (record ledger { events = ledger.events ++ raced }) email event_type
                                recorded event out (ground (arith, h, read, named, found, new, won))
                        ]
                      ]
                ]
        ]
      ]

  not_recorded :
      (ids : Ids) (now : ℕ) (payload : Payload) (project_ids : List ℕ) (raced : List EmailEvent)
      (ledger : Ledger)
      → is_held ledger.events ≡ true
      → (o : Outcome) × (event : Option EmailEvent) × (ingest_event bare times id_text ids now
            payload
            (some id)
            project_ids
            raced
            ledger
          ≡ ok (o, event, ledger))
        × (o ≢ recorded)
  unfolding ingest_event ingest_for find_notification is_held held
  not_recorded ids now payload project_ids raced ledger is =
      elim (Option-cases (parse_event_type times payload)) [
        | inl unread ↦ (ignored, none, ground (arith, unread), λ e. absurd (cc))
        | inr (event_type, read) ↦ elim (Bool-cases (str_eq (provider_message_id payload) "")) [
          | inl unnamed ↦ (unknown_message, none, ground (arith, read, unnamed), λ e. absurd (cc))
          | inr named ↦
              elim (Option-cases
                (find_sent ledger.emails (provider_message_id payload) project_ids)) [
                  | inl lost ↦
                      (unknown_message, none, ground (arith, read, named, lost), λ e. absurd (cc))
                  | inr (email, found) ↦
                      elim (Option-cases (find (has_notification id) ledger.events)) [
                        | inr (old, known) ↦ (
                          duplicate,
                          some old,
                          ground (arith, read, named, found, known),
                          λ e. absurd (cc),
                        )
                        | inl new ↦ absurd (ground (arith, is, new))
                      ]
                ]
        ]
      ]

  -- A notification that was recorded and is delivered again, by whatever transport and with
  -- whatever body, is not recorded again: it changes no row.
  pub ingest_event_again :
      (ids ids' : Ids) (now later : ℕ) (payload body : Payload) (project_ids sources : List ℕ)
      (raced raced' : List EmailEvent) (ledger out : Ledger) (event : Option EmailEvent)
      → ingest_event bare times id_text ids now payload (some id) project_ids raced ledger
        ≡ ok (recorded, event, out)
      → (o : Outcome) × (event' : Option EmailEvent) × (ingest_event bare times id_text ids' later
            body
            (some id)
            sources
            raced'
            out
          ≡ ok (o, event', out))
        × (o ≢ recorded)
  ingest_event_again ids ids' now later payload body project_ids sources raced raced' ledger out
        event h =
      not_recorded ids' later body sources raced' out
        (recorded-held ids now payload project_ids raced ledger out event h)
