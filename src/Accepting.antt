-- ===== src/Accepting.antt =====
-- services/accepting.py: from a caller's request to a queued row, or to the error that says why not.
-- The assembly of the MIME message (`message_bytes`) and Python's `sorted` are parameters.
pub mod Laws
pub mod Tests
use Prim.Native.String.{◌++◌ as append}
use seskit.Base.{
  ℕ, ltb, ◌/◌, String, Bool, true, false, Option, none, some, List, [], ◌∷◌, ◌++◌, map, Result, ok,
  err, ◌>>=◌, if◌then◌else◌,
}
use seskit.Errors.{ApiError, suppressed_recipient, attachment_too_large}
use seskit.Address.{TextTools, bare_address}
use seskit.Suppression.{Table, suppressed_among}
use seskit.Aws.{AwsConnection, Identity}
use seskit.Emails.{EmailStatus, queued, EmailProvider, Email, assign_from}
use seskit.Sending.{
  Attachment, OutboundEmail, choose_provider, configuration_set_for, attachment_rows,
}

pub record Outgoing : Type 0 where
  pub sender : String
  pub to : List String
  pub subject : String
  pub html : Option String
  pub text : Option String
  pub cc : List String
  pub bcc : List String
  pub reply_to : List String
  pub headers : List (String × String)
  -- (filename, content_type, content)
  pub attachments : List (String × String × List ℕ)

-- `decimal` writes a number as an f-string does.
pub record AcceptTools : Type 0 where
  pub sorted : List String → List String
  pub decimal : ℕ → String
  pub message_size : OutboundEmail → Result ApiError ℕ

-- What the transaction reads.
pub record Project : Type 0 where
  pub id : ℕ
  pub suppressions : Table
  pub connections : List AwsConnection
  pub identities : List Identity

-- `", ".join(names)`.
unfoldable pub join_names : List String → String
join_names [] = ""
join_names (a ∷ []) = a
join_names (a ∷ b ∷ names) = append a (append ", " (join_names (b ∷ names)))

-- All names but the last, and the last.
unfoldable pub split_last : String → List String → List String × String
split_last a [] = ([], a)
split_last a (b ∷ names) = let (most, last) = split_last b names in (a ∷ most, last)

abbrev pub suppressed_message : (named verb pronoun : String) → String
suppressed_message named verb pronoun = append named (
    append " " (
      append verb (
        append
          " on this project's suppression list, so nothing was sent. An address lands there after a hard bounce or a complaint, when the recipient unsubscribes, or by hand. The Suppressions page says which, and can take "
          (append pronoun " off if you believe mail can be delivered there again."))))

-- `sorted` keeps the length of a list that is not empty, so the first clause is not reached.
unfoldable pub refusal_text : List String → String
unfolding join_names split_last
refusal_text [] = suppressed_message " and " "are" "them"
refusal_text (a ∷ []) = suppressed_message a "is" "it"
refusal_text (a ∷ b ∷ names) =
    let (most, last) = split_last a (b ∷ names) in
    suppressed_message (append (join_names most) (append " and " last)) "are" "them"

unfoldable pub refuse_blocked : AcceptTools → List String → Result ApiError (Unit {0})
unfolding refusal_text
refuse_blocked accept [] = ok tt
refuse_blocked accept (a ∷ blocked) = err (record {
  error_type = suppressed_recipient;
  message = refusal_text (accept.sorted (a ∷ blocked));
})

unfoldable pub all_recipients : Outgoing → List String
all_recipients message = message.to ++ (message.cc ++ message.bcc)

unfoldable pub too_large : AcceptTools → (size max_bytes : ℕ) → ApiError
too_large accept size max_bytes = record {
  error_type = attachment_too_large;
  message = append "The assembled message is " (
      append (accept.decimal (size / 1024)) (
        append " KB, over the " (
          append (accept.decimal (max_bytes / 1024))
            " KB limit. Note that attachments grow by about a third once encoded.")));
}

unfoldable pub assert_within_size :
    AcceptTools → OutboundEmail → (max_bytes : ℕ) → Result ApiError ℕ
unfolding too_large
assert_within_size accept outbound max_bytes = do
  size ← accept.message_size outbound
  if ltb max_bytes size then err (too_large accept size max_bytes) else ok size

-- Assembled once to validate: without a configuration set and without a link.
unfoldable pub assembled : Outgoing → OutboundEmail
assembled message = record {
  sender = message.sender;
  to = message.to;
  subject = message.subject;
  html = message.html;
  text = message.text;
  cc = message.cc;
  bcc = message.bcc;
  reply_to = message.reply_to;
  headers = message.headers;
  attachments =
      map
        (λ (name, content_type, content). record {
          filename = name;
          content = content;
          content_type = content_type;
        })
        message.attachments;
  configuration_set = none;
  unsubscribe_url = none;
}

module _ (tools : TextTools) (accept : AcceptTools) where
  unfoldable pub refuse_suppressed : Project → Outgoing → Result ApiError (Unit {0})
  unfolding refuse_blocked all_recipients
  refuse_suppressed project message = refuse_blocked accept (
      suppressed_among (bare_address tools) project.suppressions project.id
        (all_recipients message))

  -- The new row; its `from_domain` is derived from the sender.
  unfoldable pub queued_row :
      Project → Outgoing → (fresh : ℕ) → (key : Option String) → EmailProvider → Email
  unfolding attachment_rows configuration_set_for assign_from
  queued_row project message fresh key provider = assign_from tools message.sender (record {
    id = fresh;
    project_id = project.id;
    provider_message_id = none;
    provider = some provider;
    configuration_set = configuration_set_for project.connections project.id provider;
    from_address = message.sender;
    from_domain = none;
    to_addresses = message.to;
    cc_addresses = message.cc;
    bcc_addresses = message.bcc;
    reply_to = message.reply_to;
    subject = message.subject;
    html_body = message.html;
    text_body = message.text;
    headers = message.headers;
    status = queued;
    idempotency_key = key;
    last_error = none;
    sent_at = none;
    delivered_at = none;
    attachments = attachment_rows message.attachments;
  })

  unfoldable pub accept_email :
      Project
      → Outgoing
      → (smtp_configured : Bool) → (max_message_bytes fresh : ℕ) → (key : Option String)
      → Result ApiError Email
  unfolding refuse_suppressed queued_row assembled assert_within_size
  accept_email project message smtp_configured max_message_bytes fresh key = do
    _ ← refuse_suppressed project message
    provider ←
        choose_provider tools project.connections project.identities project.id message.sender
          smtp_configured
    _ ← assert_within_size accept (assembled message) max_message_bytes
    ok (queued_row project message fresh key provider)
