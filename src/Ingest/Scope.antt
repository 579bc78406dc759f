-- ===== src/Ingest/Scope.antt =====
-- events/ingest.py: whose suppression list a notification can write to, and with which addresses.
use seskit.Base.{
  ℕ, suc, ◌==◌, ==_iff, String, str_eq, eq_iff, true, false, ◌&&◌, Option, none, some, List, [],
  ◌∷◌, ◌++◌, ok, >>=-ok, find, find-test, select, any, ◌≡◌, refl, sym, ◌∙◌, ap, arith, Option-cases,
  Bool-cases, inl, inr, ◌⊎◌,
}
use seskit.Suppression.{
  SuppressionReason, SuppressedAddress, Table, is_live, keep_or_insert, insert_row, suppress,
  suppressed_among,
}
use seskit.Suppression.Laws.{find-snoc}
use seskit.Events.{EventType, EmailEvent}
use seskit.Emails.{Email, recipients}
use seskit.Normalise.{
  Payload, TimeTools, parse_event_type, provider_message_id, suppression_reason, concerned,
}
use seskit.Ingest.{
  Outcome, Ledger, Ids, has_message, find_sent, find_notification, record_suppression_event,
  suppress_each, named_recipients, report_added, suppress_named, apply_suppression, record_event,
  ingest_for, ingest_event,
}

-- Only the row that is inserted can be found in addition.
kept-elsewhere :
    (t : Table) (new : SuppressedAddress) (old : Option SuppressedAddress) (t' : Table)
    (row : SuppressedAddress) (q : ℕ) (x : String)
    → keep_or_insert t new old ≡ ok (t', row)
    → (new.project_id == q && str_eq new.address x) ≡ false
    → find (is_live q x) t' ≡ find (is_live q x) t
unfolding keep_or_insert insert_row
kept-elsewhere t new (some old) t' row q x h other = ground (arith, h)
kept-elsewhere t new none t' row q x h other =
    ground (arith, find-snoc (is_live q x) new t, h, other)

module _ (bare : String → String) where
  -- Nothing that is read for a project and an address differs, unless it is named there.
  pub suppress-elsewhere :
      (t : Table) (fresh p : ℕ) (a : String) (r : SuppressionReason) (e : Option ℕ)
      (n : Option String) (t' : Table) (row : SuppressedAddress) (q : ℕ) (x : String)
      → suppress bare t fresh p a r e n ≡ ok (t', row)
      → (p == q && str_eq (bare a) x) ≡ false
      → find (is_live q x) t' ≡ find (is_live q x) t
  unfolding suppress
  suppress-elsewhere t fresh p a r e n t' row q x h other = kept-elsewhere t _ _ t' row q x h other

  suppress_each-elsewhere :
      (fresh : ℕ → ℕ) (k p : ℕ) (r : SuppressionReason) (e : ℕ) (already named : List String)
      (t t' : Table) (added : List String) (q : ℕ) (x : String)
      → suppress_each bare fresh k p r e already named t ≡ ok (t', added)
      → (p == q && any (λ a. str_eq (bare a) x) named) ≡ false
      → find (is_live q x) t' ≡ find (is_live q x) t
  unfolding suppress_each any
  suppress_each-elsewhere fresh k p r e already [] t t' added q x h other = ground (arith, h)
  suppress_each-elsewhere fresh k p r e already (a ∷ named) t t' added q x h other =
      let ((t1, row), first, h') = >>=-ok (suppress bare t (fresh k) p a r (some e) none) _ h in
      let ((t2, more), second, h'') =
        >>=-ok (suppress_each bare fresh (suc k) p r e already named t1) _ h' in
      let here =
        suppress-elsewhere t (fresh k) p a r (some e) none t1 row q x first (ground arith) in
      let later =
        suppress_each-elsewhere fresh (suc k) p r e already named t1 t2 more q x second
          (ground arith) in
      ground (arith, here, later, h'')

  among_recipients :
      (everyone : List String) (y x : String)
      → str_eq y x ≡ true
      → any (λ b. str_eq y (bare b)) everyone ≡ true
      → any (λ b. str_eq (bare b) x) everyone ≡ true
  unfolding any
  among_recipients [] y x same h = absurd (cc)
  among_recipients (b ∷ everyone) y x same h = ground (
    arith,
    among_recipients everyone y x same,
    eq_iff y x,
    eq_iff y (bare b),
    eq_iff (bare b) x,
    same,
    h,
  )

  any-select :
      (everyone l : List String) (x : String)
      → any (λ a. str_eq (bare a) x) (select (λ a. any (λ b. str_eq (bare a) (bare b)) everyone) l)
        ≡ true
      → any (λ a. str_eq (bare a) x) everyone ≡ true
  unfolding any select
  any-select everyone [] x h = absurd (cc)
  any-select everyone (a ∷ l) x h =
      ground (arith, h, among_recipients everyone (bare a) x, any-select everyone l x)

  -- The named addresses are the message's recipients.
  named-recipients :
      (email : Email) (l : List String) (x : String)
      → any (λ a. str_eq (bare a) x) (named_recipients bare email l) ≡ true
      → any (λ a. str_eq (bare a) x) (recipients email) ≡ true
  unfolding named_recipients
  named-recipients email l x h = any-select (recipients email) l x h

  module _ (id_text : ℕ → String) (ids : Ids) (now : ℕ) where
    suppressions-report_added :
        (email : Email) (r : SuppressionReason) (e : ℕ) (added : List String) (ledger : Ledger)
        → (report_added bare id_text ids now email r e added ledger).suppressions
          ≡ ledger.suppressions
    unfolding report_added record_suppression_event
    suppressions-report_added email r e [] ledger = refl
    suppressions-report_added email r e (a ∷ added) ledger = refl

    suppress_named-elsewhere :
        (email : Email) (r : SuppressionReason) (e : ℕ) (named : List String) (ledger out : Ledger)
        (q : ℕ) (x : String)
        → suppress_named bare id_text ids now email r e named ledger ≡ ok out
        → (email.project_id == q && any (λ a. str_eq (bare a) x) named) ≡ false
        → find (is_live q x) out.suppressions ≡ find (is_live q x) ledger.suppressions
    unfolding suppress_named
    suppress_named-elsewhere email r e named ledger out q x h other =
        let ((table, added), each, h') =
          >>=-ok
            (suppress_each bare ids.suppression 0 email.project_id r e
              (suppressed_among bare ledger.suppressions email.project_id named) named
              ledger.suppressions)
            _ h in
        let kept =
          suppress_each-elsewhere ids.suppression 0 email.project_id r e
            (suppressed_among bare ledger.suppressions email.project_id named) named
            ledger.suppressions table added q x each other in
        let same =
          suppressions-report_added email r e added (record ledger { suppressions = table }) in
        let final : report_added bare id_text ids now email r e added
              (record ledger { suppressions = table })
            ≡ out =
          cc in
        ap (λ l. find (is_live q x) l.suppressions) (sym final)
        ∙ ap (find (is_live q x)) same
        ∙ kept

    apply_suppression-elsewhere :
        (email : Email) (e : ℕ) (event_type : EventType) (payload : Payload) (ledger out : Ledger)
        (q : ℕ) (x : String)
        → apply_suppression bare id_text ids now email e event_type payload ledger ≡ ok out
        → (email.project_id == q && any (λ a. str_eq (bare a) x) (recipients email)) ≡ false
        → find (is_live q x) out.suppressions ≡ find (is_live q x) ledger.suppressions
    unfolding apply_suppression
    apply_suppression-elsewhere email e event_type payload ledger out q x h other =
        elim (Option-cases (suppression_reason payload event_type)) [
          | inl nothing ↦ ground (arith, h, nothing)
          | inr (reason, found) ↦
              suppress_named-elsewhere email reason e
                (named_recipients bare email (concerned payload event_type)) ledger out q x
                (ground (arith, h, found))
                (ground (arith, other, named-recipients email (concerned payload event_type) x))
        ]

  module _ (times : TimeTools) (id_text : ℕ → String) (ids : Ids) (now : ℕ) (payload : Payload)
      (provider_event_id : Option String) where
    -- A live row of the list, as it is found for a project and a reduced address.
    pub listed : ℕ → String → Ledger → Option SuppressedAddress
    listed q x ledger = find (is_live q x) ledger.suppressions

    record_event-elsewhere :
        (ledger : Ledger) (email : Email) (event_type : EventType) (o : Outcome)
        (event : Option EmailEvent) (out : Ledger) (q : ℕ) (x : String)
        → record_event bare times id_text ids now payload provider_event_id ledger email event_type
          ≡ ok (o, event, out)
        → (email.project_id == q && any (λ a. str_eq (bare a) x) (recipients email)) ≡ false
        → listed q x out ≡ listed q x ledger
    unfolding record_event listed
    record_event-elsewhere ledger email event_type o event out q x h other =
        let (final, applied, h') =
          >>=-ok (apply_suppression bare id_text ids now email _ event_type payload _) _ h in
        let kept =
          apply_suppression-elsewhere id_text ids now email _ event_type payload _ final q x applied
            other in
        ground (arith, kept, h')

    ingest_for-elsewhere :
        (raced : List EmailEvent) (ledger : Ledger) (email : Email) (event_type : EventType)
        (o : Outcome) (event : Option EmailEvent) (out : Ledger) (q : ℕ) (x : String)
        → ingest_for bare times id_text ids now payload provider_event_id raced ledger email
            event_type
          ≡ ok (o, event, out)
        → (email.project_id == q && any (λ a. str_eq (bare a) x) (recipients email)) ≡ false
        → listed q x out ≡ listed q x ledger
    unfolding ingest_for listed
    ingest_for-elsewhere raced ledger email event_type o event out q x h other =
        elim (Option-cases (find_notification ledger.events provider_event_id)) [
          | inr (old, found) ↦ ground (arith, h, found)
          | inl new ↦ elim (Option-cases (find_notification raced provider_event_id)) [
            | inr (old, found) ↦ ground (arith, h, new, found)
            | inl won ↦
                record_event-elsewhere (record ledger { events = ledger.events ++ raced }) email
                  event_type o event out q x (ground (arith, h, new, won)) other
          ]
        ]

    -- A notification changes what a project's suppression list says of an address only if the
    -- message that it names was sent by that project, the project is one that the notification may
    -- speak for, and the address is one that the message went to.
    pub ingest_event-elsewhere :
        (project_ids : List ℕ) (raced : List EmailEvent) (ledger : Ledger) (o : Outcome)
        (event : Option EmailEvent) (out : Ledger) (q : ℕ) (x : String)
        → ingest_event bare times id_text ids now payload provider_event_id project_ids raced ledger
          ≡ ok (o, event, out)
        → (listed q x out ≡ listed q x ledger)
          ⊎ ((email : Email) × (find_sent ledger.emails (provider_message_id payload) project_ids
                ≡ some email)
              × (has_message (provider_message_id payload) email ≡ true)
              × (any (λ p. p == q) project_ids ≡ true)
              × (email.project_id ≡ q)
              × (any (λ a. str_eq (bare a) x) (recipients email) ≡ true))
    unfolding ingest_event
    ingest_event-elsewhere project_ids raced ledger o event out q x h =
        elim (Option-cases (parse_event_type times payload)) [
          | inl unread ↦ inl (unfold listed in ground (arith, h, unread))
          | inr (event_type, read) ↦ elim (Bool-cases (str_eq (provider_message_id payload) "")) [
            | inl unnamed ↦ inl (unfold listed in ground (arith, h, read, unnamed))
            | inr named ↦
                elim (Option-cases
                  (find_sent ledger.emails (provider_message_id payload) project_ids)) [
                    | inl lost ↦ inl (unfold listed in ground (arith, h, read, named, lost))
                    | inr (email, found) ↦
                        by_scope email event_type found (ground (arith, h, read, named, found))
                          (find-test _ ledger.emails email (unfold find_sent in found))
                          (Bool-cases (
                            email.project_id == q
                            && any (λ a. str_eq (bare a) x) (recipients email)))
                  ]
          ]
        ]
      where
        by_scope :
            (email : Email) (event_type : EventType)
            → find_sent ledger.emails (provider_message_id payload) project_ids ≡ some email
            → ingest_for bare times id_text ids now payload provider_event_id raced ledger email
                event_type
              ≡ ok (o, event, out)
            → (has_message (provider_message_id payload) email
                && any (λ p. p == email.project_id) project_ids)
              ≡ true
            → ((email.project_id == q && any (λ a. str_eq (bare a) x) (recipients email)) ≡ true)
              ⊎ ((email.project_id == q && any (λ a. str_eq (bare a) x) (recipients email)) ≡ false)
            → (listed q x out ≡ listed q x ledger)
              ⊎ ((email : Email) × (find_sent ledger.emails
                      (provider_message_id payload)
                      project_ids
                    ≡ some email)
                  × (has_message (provider_message_id payload) email ≡ true)
                  × (any (λ p. p == q) project_ids ≡ true)
                  × (email.project_id ≡ q)
                  × (any (λ a. str_eq (bare a) x) (recipients email) ≡ true))
        by_scope email event_type found h' mine (inr other) =
            inl (ingest_for-elsewhere raced ledger email event_type o event out q x h' other)
        by_scope email event_type found h' mine (inl ours) =
            let same : email.project_id ≡ q = ground (arith, ours, ==_iff email.project_id q) in
            inr (
              email,
              found,
              ground (arith, mine),
              ap (λ v. any (λ p. p == v) project_ids) (sym same) ∙ ground (arith, mine),
              same,
              ground (arith, ours),
            )
