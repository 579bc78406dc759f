-- ===== src/Accepting/Laws.antt =====
-- services/accepting.py: a message that is accepted is aimed at nobody on the suppression list, and
-- what the worker hands over is what was validated.
use seskit.Base.{
  ℕ, String, str_eq, eq_iff, eq_refl, Bool, true, false, ◌&&◌, not, Option, List, [], ◌∷◌, map, ok,
  err, >>=-ok, ◌≡◌, refl, sym, ◌∙◌, ap, arith, is_some, find, any, All,
}
use seskit.Errors.{ApiError, suppressed_recipient}
use seskit.Address.{TextTools, bare_address}
use seskit.Suppression.{is_live, contains, suppressed_among}
use seskit.Suppression.Among.{contains-suppressed_among}
use seskit.Emails.{Email, EmailProvider, is_sendable, status_is_sendable, assign_from, recipients}
use seskit.Sending.{
  choose_provider, configuration_set_for, attachment_rows, to_outbound, to_attachment,
}
use seskit.Sending.Job.{provider_name}
use seskit.Accepting.{
  Outgoing, AcceptTools, Project, refuse_blocked, all_recipients, refuse_suppressed, assembled,
  assert_within_size, queued_row, accept_email,
}

-- A recipient whose reduced address is held by a live row of the project.
abbrev pub blocks : (bare : String → String) → Project → String → Bool
blocks bare project a =
    not (str_eq (bare a) "") && is_some (find (is_live project.id (bare a)) project.suppressions)

none_blocks :
    (bare : String → String) (project : Project) (addresses : List String)
    → ((x : String)
        → ((any (λ a. str_eq x (bare a)) addresses && not (str_eq x ""))
            && is_some (find (is_live project.id x) project.suppressions))
          ≡ false)
    → All (λ a. blocks bare project a ≡ false) addresses
unfolding any
none_blocks bare project [] clear = tt
none_blocks bare project (a ∷ addresses) clear = (
  ground (arith, clear (bare a), eq_refl (bare a)),
  none_blocks bare project addresses (λ x. ground (arith, clear x)),
)

some_blocks :
    (bare : String → String) (project : Project) (addresses : List String) (a : String)
    → contains a addresses ≡ true
    → any (λ b. str_eq (bare a) (bare b)) addresses ≡ true
unfolding any contains
some_blocks bare project [] a among = absurd (cc)
some_blocks bare project (b ∷ addresses) a among = ground (
  arith,
  among,
  some_blocks bare project addresses a,
  eq_iff a b,
  eq_refl (bare a),
  ap (λ c. str_eq (bare a) (bare c)),
)

module _ (tools : TextTools) (accept : AcceptTools) (project : Project) (message : Outgoing)
    (smtp_configured : Bool) (max_message_bytes fresh : ℕ) (key : Option String) where
  refuse_blocked-ok : (l : List String) → refuse_blocked accept l ≡ ok tt → l ≡ []
  unfolding refuse_blocked
  refuse_blocked-ok [] h = refl
  refuse_blocked-ok (a ∷ l) h = absurd (cc)

  refuse_blocked-err :
      (x : String) (l : List String)
      → contains x l ≡ true
      → (e : ApiError) × (refuse_blocked accept l ≡ err e) × (e.error_type ≡ suppressed_recipient)
  unfolding refuse_blocked contains any
  refuse_blocked-err x [] h = absurd (cc)
  refuse_blocked-err x (a ∷ l) h = (_, refl, refl)

  -- The addresses that the query reports for the message.
  blocked_addresses : List String
  blocked_addresses =
      suppressed_among (bare_address tools) project.suppressions project.id (all_recipients message)

  reports :
      (x : String)
      → contains x blocked_addresses ≡ (
          (any (λ a. str_eq x (bare_address tools a)) (all_recipients message) && not (str_eq x ""))
          && is_some (find (is_live project.id x) project.suppressions))
  unfolding blocked_addresses
  reports =
      contains-suppressed_among (bare_address tools) project.suppressions project.id
        (all_recipients message)

  contains-nothing : (x : String) → contains x [] ≡ false
  unfolding contains any
  contains-nothing x = refl

  -- Acceptance as its steps.
  accepted :
      (email : Email)
      → accept_email tools accept project message smtp_configured max_message_bytes fresh key
        ≡ ok email
      → (refuse_suppressed tools accept project message ≡ ok tt)
        × (provider : EmailProvider) × (choose_provider tools project.connections project.identities
              project.id message.sender smtp_configured
            ≡ ok provider)
        × (size : ℕ) × (assert_within_size accept (assembled message) max_message_bytes ≡ ok size)
        × (email ≡ queued_row tools accept project message fresh key provider)
  unfolding accept_email
  accepted email h =
      let (_, refused, h') = >>=-ok (refuse_suppressed tools accept project message) _ h in
      let (provider, chosen, h'') =
        >>=-ok
          (choose_provider tools project.connections project.identities project.id message.sender
            smtp_configured)
          _ h' in
      let (size, fits, made) =
        >>=-ok (assert_within_size accept (assembled message) max_message_bytes) _ h'' in
      (refused, provider, chosen, size, fits, cc)

  -- No recipient of an accepted message, blind copies included, is on the project's suppression
  -- list.
  pub accept_email-clear :
      (email : Email)
      → accept_email tools accept project message smtp_configured max_message_bytes fresh key
        ≡ ok email
      → All (λ a. blocks (bare_address tools) project a ≡ false) (recipients email)
  unfolding recipients queued_row assign_from refuse_suppressed all_recipients blocked_addresses
  accept_email-clear email h =
      let (refused, provider, _, _, _, made) = accepted email h in
      let empty = refuse_blocked-ok blocked_addresses refused in
      rw made (
        none_blocks (bare_address tools) project (all_recipients message)
          (λ x. sym (reports x) ∙ ap (contains x) empty ∙ contains-nothing x))

  -- A message to an address on the list is refused as a whole, with `suppressed_recipient`.
  pub accept_email_blocked :
      (a : String)
      → contains a (all_recipients message) ≡ true
      → blocks (bare_address tools) project a ≡ true
      → (e : ApiError) × (accept_email tools accept project message smtp_configured
            max_message_bytes fresh key
          ≡ err e)
        × (e.error_type ≡ suppressed_recipient)
  unfolding accept_email refuse_suppressed blocked_addresses
  accept_email_blocked a among blocked =
      let among_bare = some_blocks (bare_address tools) project (all_recipients message) a among in
      let (e, refused, kind) =
        refuse_blocked-err (bare_address tools a) blocked_addresses
          (reports (bare_address tools a) ∙ ground (arith, among_bare, blocked)) in
      (e, rw refused refl, kind)

  attachments-kept :
      (l : List (String × String × List ℕ))
      → map to_attachment (attachment_rows l)
        ≡ map
            (λ (name, content_type, content). record {
              filename = name;
              content = content;
              content_type = content_type;
            })
            l
  unfolding to_attachment attachment_rows
  attachments-kept [] = refl
  attachments-kept ((name, content_type, content) ∷ l) = rw (attachments-kept l) refl

  -- An accepted row is queued for the provider that was chosen, and what the worker hands to that
  -- provider is the message that was validated, with the project's configuration set and the link.
  pub accept_email-to_outbound :
      (email : Email) (url : Option String)
      → accept_email tools accept project message smtp_configured max_message_bytes fresh key
        ≡ ok email
      → (is_sendable email ≡ true)
        × (choose_provider tools project.connections project.identities project.id message.sender
              smtp_configured
            ≡ ok (provider_name email))
        × (to_outbound email url ≡ record (assembled message) {
          configuration_set =
              configuration_set_for project.connections project.id (provider_name email);
          unsubscribe_url = url;
        })
  unfolding queued_row assign_from is_sendable status_is_sendable provider_name to_outbound
      assembled
  accept_email-to_outbound email url h =
      let (_, provider, chosen, _, _, made) = accepted email h in
      rw made (refl, chosen, rw attachments-kept refl)
