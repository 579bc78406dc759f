-- ===== src/SendRoute/Again.antt =====
-- routes/v1/emails.py: a request that is repeated with its key.
use seskit.Base.{
  ℕ, ◌==◌, String, str_eq, eq_iff, Bool, true, false, ◌&&◌, Option, none, some, List, [], ◌∷◌, any,
  find, Result, ok, err, >>=-ok, ◌≡◌, refl, arith, inl, inr, ◌⊎◌,
}
use seskit.Address.{TextTools}
use seskit.Errors.{ApiError}
use seskit.Emails.{Email, assign_from}
use seskit.Accepting.{
  Outgoing, AcceptTools, Project, accept_email, queued_row, refuse_suppressed, assert_within_size,
  assembled,
}
use seskit.Sending.{find_by_idempotency_key, choose_provider}
use seskit.SendRoute.{
  accepted, refused, raised, Outbox, same_key, collides, commit_row, after_commit, is_given,
  find_keyed, answer_collision, commit_and_enqueue, commit_accepted, answer_known, send_email,
}

same_key-held :
    (key : String) (held : Option String)
    → (elim held [ none ↦ false | some own ↦ str_eq own key ]) ≡ true
    → same_key (some key) held ≡ true
unfolding same_key
same_key-held key none h = h
same_key-held key (some own) h = ground (arith, h, eq_iff own key, eq_iff key own)

keyed_collides :
    (fresh row : Email) (project_id : ℕ) (key : String)
    → fresh.project_id ≡ project_id
    → fresh.idempotency_key ≡ some key
    → ((row.project_id == project_id)
        && (elim row.idempotency_key [ none ↦ false | some own ↦ str_eq own key ]))
      ≡ true
    → collides fresh row ≡ true
unfolding collides
keyed_collides fresh row project_id key own keyed hit =
    rw (own, keyed) (ground (arith, hit, same_key-held key row.idempotency_key))

-- A row that holds the key of another row of its project stands in that row's way.
any-keyed :
    (fresh : Email) (project_id : ℕ) (key : String) (table : List Email) (existing : Email)
    → fresh.project_id ≡ project_id
    → fresh.idempotency_key ≡ some key
    → find_by_idempotency_key table project_id key ≡ some existing
    → any (collides fresh) table ≡ true
unfolding find_by_idempotency_key find any
any-keyed fresh project_id key [] existing own keyed found = ground (arith, found)
any-keyed fresh project_id key (row ∷ table) existing own keyed found = ground (
  arith,
  found,
  any-keyed fresh project_id key table existing own keyed,
  keyed_collides fresh row project_id key own keyed,
)

commit_and_enqueue_again :
    (queued : Bool) (project_id : ℕ) (key : String) (email existing : Email) (outbox : Outbox)
    → is_given (some key) ≡ true
    → find_by_idempotency_key outbox.table project_id key ≡ some existing
    → any (collides email) outbox.table ≡ true
    → commit_and_enqueue queued project_id (some key) email outbox
      ≡ (accepted existing.id existing.status, outbox)
unfolding commit_and_enqueue commit_row after_commit answer_collision find_keyed
commit_and_enqueue_again true project_id key email existing outbox given found taken =
    rw (taken, given, found) refl
commit_and_enqueue_again false project_id key email existing outbox given found taken =
    rw (taken, given, found) refl

module _ (tools : TextTools) (accept : AcceptTools) (project : Project) (message : Outgoing)
    (smtp_configured : Bool) (max_message_bytes fresh : ℕ) (queued : Bool) where
  accept_email-keyed :
      (key : Option String) (email : Email)
      → accept_email tools accept project message smtp_configured max_message_bytes fresh key
        ≡ ok email
      → (email.project_id ≡ project.id) × (email.idempotency_key ≡ key)
  unfolding accept_email
  accept_email-keyed key email h =
      let (_, clear, h') = >>=-ok (refuse_suppressed tools accept project message) _ h in
      let (provider, chosen, h'') =
        >>=-ok
          (choose_provider tools project.connections project.identities project.id message.sender
            smtp_configured)
          _ h' in
      let (size, fits, made) =
        >>=-ok (assert_within_size accept (assembled message) max_message_bytes) _ h'' in
      unfold queued_row assign_from in ground (arith, made)

  unseen :
      (key : String) (result : Result ApiError Email) (outbox : Outbox) (existing : Email)
      → is_given (some key) ≡ true
      → find_by_idempotency_key outbox.table project.id key ≡ some existing
      → ((email : Email)
          → result ≡ ok email
          → (email.project_id ≡ project.id) × (email.idempotency_key ≡ some key))
      → ((commit_accepted queued project.id (some key) result outbox).1 ≡ outbox)
        × (((commit_accepted queued project.id (some key) result outbox).0
              ≡ accepted existing.id existing.status)
            ⊎ ((e : ApiError) × ((commit_accepted queued project.id (some key) result outbox).0
                  ≡ refused e)))
  unfolding commit_accepted
  unseen key (err e) outbox existing given found keyed = (refl, inr (e, refl))
  unseen key (ok email) outbox existing given found keyed =
      let (own, held) = keyed email refl in
      rw
        (commit_and_enqueue_again queued project.id key email existing outbox given found
          (any-keyed email project.id key outbox.table existing own held found))
        (refl, inl refl)

  -- A repeated request whose key a committed row of the project holds sends nothing further: the
  -- rows and the jobs stay, also if the request had not seen that row. It is answered with that
  -- row's id and status, unless it is refused for its own sake.
  pub send_email_again :
      (key : String) (saw : List Email) (outbox : Outbox) (existing : Email)
      → is_given (some key) ≡ true
      → find_by_idempotency_key outbox.table project.id key ≡ some existing
      → (find_by_idempotency_key saw project.id key ≡ none)
        ⊎ (find_by_idempotency_key saw project.id key ≡ some existing)
      → let (answer, after) =
          send_email tools accept queued project message smtp_configured max_message_bytes fresh
            (some key)
            saw
            outbox in
        (after ≡ outbox)
        × ((answer ≡ accepted existing.id existing.status)
            ⊎ ((e : ApiError) × (answer ≡ refused e)))
  unfolding send_email answer_known find_keyed
  send_email_again key saw outbox existing given found (inr known) =
      rw (given, known) (refl, inl refl)
  send_email_again key saw outbox existing given found (inl unknown) =
      rw (given, unknown)
        (unseen key
          (accept_email tools accept project message smtp_configured max_message_bytes fresh
            (some key))
          outbox existing given found (accept_email-keyed (some key)))

  -- Two accepted messages of one project with an empty key: the second is not stored and fails with
  -- the integrity error, although an empty key is treated as no key before and after the commit.
  pub send_email_empty_key :
      (saw : List Email) (outbox : Outbox) (first second : Email)
      → find_by_idempotency_key outbox.table project.id "" ≡ some first
      → accept_email tools accept project message smtp_configured max_message_bytes fresh (some "")
        ≡ ok second
      → send_email tools accept queued project message smtp_configured max_message_bytes fresh
          (some "")
          saw
          outbox
        ≡ (raised, outbox)
  unfolding send_email answer_known find_keyed commit_accepted commit_and_enqueue commit_row
      after_commit answer_collision is_given
  send_email_empty_key saw outbox first second found passed =
      let (own, held) = accept_email-keyed (some "") second passed in
      rw (passed, any-keyed second project.id "" outbox.table first own held found) refl
