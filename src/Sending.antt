-- ===== src/Sending.antt =====
-- services/sending.py: who carries a message, what is handed over, and how the result is recorded.
pub mod Job
pub mod Choice
pub mod Tests
use Prim.Native.String.{◌++◌ as append}
use seskit.Base.{
  ℕ, String, str_eq, Bool, true, false, Option, none, some, List, [], ◌∷◌, map, Result, ok, err,
  if◌then◌else◌, find, length, ◌==◌, ◌&&◌,
}
use seskit.Errors.{ErrorType, provider_error, invalid_request, domain_not_verified, ApiError}
use seskit.Address.{TextTools, bare_address}
use seskit.Aws.{AwsConnection, Identity, is_connected, get_connection, sender_is_verified, is_given}
use seskit.Emails.{
  EmailStatus, sent, failed, EmailProvider, ses, smtp, EmailAttachment, Email, recipients,
}
use seskit.Unsubscribe.{TokenTools, unsubscribe_token}

abbrev pub no_provider : ApiError
no_provider = record {
  error_type = invalid_request;
  message =
      "This project cannot send yet. Connect an AWS account, or set SMTP_HOST to deliver locally.";
}

pub record Attachment : Type 0 where
  pub filename : String
  pub content : List ℕ
  pub content_type : String

pub record OutboundEmail : Type 0 where
  pub sender : String
  pub to : List String
  pub subject : String
  pub html : Option String
  pub text : Option String
  pub cc : List String
  pub bcc : List String
  pub reply_to : List String
  pub headers : List (String × String)
  pub attachments : List Attachment
  pub configuration_set : Option String
  pub unsubscribe_url : Option String

-- `connected`: a connection whose last check succeeded.
unfoldable pub has_connected : Option AwsConnection → Bool
has_connected none = false
has_connected (some connection) = is_connected connection

module _ (tools : TextTools) where
  unfoldable pub not_verified : (sender : String) → ApiError
  not_verified sender =
      let address = bare_address tools sender in
      record {
        error_type = domain_not_verified;
        message =
            append (if str_eq address "" then tools.repr sender else address)
              " is not a verified sender for this project. Verify the address or its domain on the Domains page before sending.";
      }

  unfoldable pub choose_provider :
      List AwsConnection
      → List Identity
      → (project_id : ℕ) → (sender : String) → (smtp_configured : Bool)
      → Result ApiError EmailProvider
  unfolding get_connection has_connected
  choose_provider connections identities project_id sender smtp_configured =
      if has_connected (get_connection connections project_id)
      then if sender_is_verified tools identities project_id sender
        then ok ses
        else err (not_verified sender)
      else if smtp_configured
      then ok smtp
      else err no_provider

unfoldable pub configuration_set_for : List AwsConnection → ℕ → EmailProvider → Option String
configuration_set_for connections project_id smtp = none
configuration_set_for connections project_id ses = elim (get_connection connections project_id) [
  | none ↦ none
  | some connection ↦ connection.configuration_set
]

module _ (tools : TextTools) (tokens : TokenTools) where
  -- The link of the only recipient.
  unfoldable pub link_for : Email → (secret base_url : String) → List String → Option String
  link_for email secret base_url [] = none
  link_for email secret base_url (one ∷ another ∷ rest) = none
  link_for email secret base_url (one ∷ []) =
      let address = bare_address tools one in
      let (_, at, _) = tools.rpartition_at address in
      if at
      then some (
          append (tools.rstrip_slash base_url)
            (append "/" (unsubscribe_token tokens secret email.project_id email.id address)))
      else none

  unfoldable pub unsubscribe_link :
      Email → (secret : String) → (base_url : Option String) → Option String
  unfolding link_for recipients
  unsubscribe_link email secret none = none
  unsubscribe_link email secret (some base_url) =
      if str_eq base_url "" then none else link_for email secret base_url (recipients email)

unfoldable pub to_attachment : EmailAttachment → Attachment
to_attachment item = record {
  filename = item.filename;
  content = item.content;
  content_type = item.content_type;
}

unfoldable pub to_outbound : Email → (unsubscribe_url : Option String) → OutboundEmail
unfolding to_attachment
to_outbound email unsubscribe_url = record {
  sender = email.from_address;
  to = email.to_addresses;
  subject = email.subject;
  html = email.html_body;
  text = email.text_body;
  cc = email.cc_addresses;
  bcc = email.bcc_addresses;
  reply_to = email.reply_to;
  headers = email.headers;
  attachments = map to_attachment email.attachments;
  configuration_set = email.configuration_set;
  unsubscribe_url = unsubscribe_url;
}

unfoldable pub find_by_idempotency_key : List Email → ℕ → (key : String) → Option Email
find_by_idempotency_key emails project_id key =
    find
      (λ email.
        email.project_id == project_id
        && (elim email.idempotency_key [ none ↦ false | some own ↦ str_eq own key ]))
      emails

unfoldable pub record_sent : (now : ℕ) → Email → EmailProvider → (message_id : String) → Email
record_sent now email provider message_id = record email {
  status = sent;
  provider = some provider;
  provider_message_id = some message_id;
  sent_at = some now;
  last_error = none;
}

unfoldable pub record_failure : Email → ApiError → Email
record_failure email error = record email { status = failed; last_error = some error.message }

unfoldable pub is_retryable : ApiError → Bool
is_retryable error = is_provider_error error.error_type
  where
    is_provider_error : ErrorType → Bool
    is_provider_error provider_error = true
    is_provider_error _ = false

-- Attachment rows from (filename, content_type, content) triples.
unfoldable pub attachment_rows : List (String × String × List ℕ) → List EmailAttachment
attachment_rows [] = []
attachment_rows ((filename, content_type, content) ∷ rest) =
    record {
      filename = filename;
      content_type = content_type;
      content = content;
      size_bytes = length content;
    }
    ∷ attachment_rows rest
