-- ===== src/Emails.antt =====
-- models/email.py and models/email_attachment.py: one row per message that was accepted.
use seskit.Base.{ℕ, String, Bool, true, false, Option, List, ◌++◌}
use seskit.Address.{TextTools, domain_of}

pub data EmailStatus : Type 0 where
  queued sending sent failed : EmailStatus

pub data EmailProvider : Type 0 where
  ses smtp : EmailProvider

-- `SENDABLE_STATUSES`.
unfoldable pub status_is_sendable : EmailStatus → Bool
status_is_sendable queued = true
status_is_sendable sending = true
status_is_sendable sent = false
status_is_sendable failed = false

pub record EmailAttachment : Type 0 where
  pub filename : String
  pub content_type : String
  pub content : List ℕ
  pub size_bytes : ℕ

pub record Email : Type 0 where
  pub id : ℕ
  pub project_id : ℕ
  pub provider_message_id : Option String
  pub provider : Option EmailProvider
  pub configuration_set : Option String
  pub from_address : String
  pub from_domain : Option String
  pub to_addresses : List String
  pub cc_addresses : List String
  pub bcc_addresses : List String
  pub reply_to : List String
  pub subject : String
  pub html_body : Option String
  pub text_body : Option String
  pub headers : List (String × String)
  pub status : EmailStatus
  pub idempotency_key : Option String
  pub last_error : Option String
  pub sent_at : Option ℕ
  pub delivered_at : Option ℕ
  pub attachments : List EmailAttachment

unfoldable pub is_sendable : Email → Bool
unfolding status_is_sendable
is_sendable email = status_is_sendable email.status

-- Everyone the message went to, blind copies included.
unfoldable pub recipients : Email → List String
recipients email = email.to_addresses ++ (email.cc_addresses ++ email.bcc_addresses)

-- The validator `_derive_from_domain`, which runs on every assignment of `from_address`.
unfoldable pub assign_from : TextTools → String → Email → Email
unfolding domain_of
assign_from tools value email = record email {
  from_address = value;
  from_domain = domain_of tools value;
}
