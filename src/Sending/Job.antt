-- ===== src/Sending/Job.antt =====
-- The worker's sending.py (apps/worker/src/seskit_worker): one run of the send job on one row, with
-- what it commits and whom it calls. An adapter's network call is a parameter.
pub mod Runs
pub mod Attempts
pub mod Calls
pub mod Own
use seskit.Base.{
  ℕ, ◌*◌, ◌+◌, suc, ltb, ◌==◌, String, str_eq, Bool, true, false, ◌&&◌, Option, none, some, List,
  [], ◌∷◌, ◌++◌, Result, ok, err, ◌>>=◌, if◌then◌else◌, find, amend,
}
use seskit.Errors.{ApiError, invalid_request}
use seskit.Address.{TextTools}
use seskit.Aws.{AwsConnection, AwsCredentials, get_connection, stored_credentials, no_access_key}
use seskit.Emails.{EmailStatus, sending, sent, failed, EmailProvider, ses, smtp, Email, is_sendable}
use seskit.Unsubscribe.{TokenTools}
use seskit.Sending.{
  OutboundEmail, unsubscribe_link, to_outbound, record_sent, record_failure, is_retryable,
}

-- `RETRY_BACKOFF_SECONDS`.
abbrev pub retry_backoff_seconds : ℕ
retry_backoff_seconds = 30

-- The settings that the job reads, in the order of their use.
pub record JobSettings : Type 0 where
  pub secret_key : String
  pub aws_default_region : String
  pub smtp_host : Option String
  pub smtp_port : ℕ
  pub smtp_tls : Bool
  pub smtp_user : Option String
  pub smtp_password : Option String
  pub unsubscribe_base_url : Option String

pub record SmtpSettings : Type 0 where
  pub host : String
  pub port : ℕ
  pub use_tls : Bool
  pub username : Option String
  pub password : Option String

-- `SESProvider(region, credentials)` or `SMTPProvider(settings)`.
pub data Adapter : Type 0 where
  ses_adapter : (region : String) → AwsCredentials → Adapter
  smtp_adapter : SmtpSettings → Adapter

-- `value or default`: "" is no value.
unfoldable pub or_default : Option String → String → String
or_default none default = default
or_default (some value) default = if str_eq value "" then default else value

unfoldable pub build_provider :
    EmailProvider
    → (region : String) → JobSettings
    → Option AwsCredentials
    → Result ApiError Adapter
unfolding or_default
build_provider ses region s none = err no_access_key
build_provider ses region s (some credentials) = ok (ses_adapter region credentials)
build_provider smtp region s credentials = ok (
    smtp_adapter (record {
      host = or_default s.smtp_host "localhost";
      port = s.smtp_port;
      use_tls = s.smtp_tls;
      username = s.smtp_user;
      password = s.smtp_password;
    }))

-- What an adapter's `send_email` does: the provider's message id, a normalised error, or an
-- exception that the job does not catch.
pub data Answer : Type 0 where
  accepted : (provider_message_id : String) → Answer
  refused : ApiError → Answer
  crashed : Answer

-- What happens outside the process, in order.
pub data Step : Type 0 where
  commit : Email → Step
  call : Adapter → OutboundEmail → Answer → Step

-- The status returned, `arq.Retry` with its delay, or an exception or the loss of the process.
pub data Outcome : Type 0 where
  returned : EmailStatus → Outcome
  retry : (defer : ℕ) → Outcome
  raised : Outcome

pub record Run : Type 0 where
  pub outcome : Outcome
  pub email : Email
  pub steps : List Step

pub record JobWorld : Type 0 where
  pub connections : List AwsConnection
  pub decrypt : String → String → Result String String
  pub transport : Adapter → OutboundEmail → Answer
  pub now : ℕ
  -- Whether the process or the database is lost between the provider's answer and the commit of it.
  pub is_lost : Bool

unfoldable pub credentials_of :
    JobWorld → JobSettings → Option AwsConnection → Result ApiError (String × Option AwsCredentials)
credentials_of w s none = ok (s.aws_default_region, none)
credentials_of w s (some connection) = do
  credentials ← stored_credentials w.decrypt connection s.secret_key
  ok (connection.region, some credentials)

unfoldable pub aws_for :
    JobWorld → JobSettings → Email → Result ApiError (String × Option AwsCredentials)
unfolding credentials_of
aws_for w s email = credentials_of w s (get_connection w.connections email.project_id)

-- `email.provider or "smtp"`.
unfoldable pub provider_name : Email → EmailProvider
provider_name email = elim email.provider [ none ↦ smtp | some name ↦ name ]

-- The first `try` block.
unfoldable pub prepare : JobWorld → JobSettings → Email → Result ApiError Adapter
unfolding aws_for build_provider provider_name
prepare w s email = do
  (region, credentials) ← aws_for w s email
  build_provider (provider_name email) region s credentials

-- The second `try` block's outcomes, after `sending` has been committed and the call was made.
unfoldable pub record_answer :
    JobWorld → JobSettings → (attempt max_attempts : ℕ) → Email → List Step → Answer → Run
unfolding record_sent record_failure is_retryable provider_name
record_answer w s attempt max_attempts email steps (accepted id) =
    let email' = record_sent w.now email (provider_name email) id in
    record { outcome = returned sent; email = email'; steps = steps ++ commit email' ∷ [] }
record_answer w s attempt max_attempts email steps (refused error) =
    if is_retryable error && ltb attempt max_attempts
    then (let email' = record email { last_error = some error.message } in
        record {
          outcome = retry (attempt * retry_backoff_seconds);
          email = email';
          steps = steps ++ commit email' ∷ [];
        })
    else (let email' = record_failure email error in
        record { outcome = returned failed; email = email'; steps = steps ++ commit email' ∷ [] })
record_answer w s attempt max_attempts email steps crashed = record {
  outcome = raised;
  email = email;
  steps = steps;
}

-- What a run that is lost leaves is the row that it committed as `sending`.
unfoldable pub finish :
    JobWorld → JobSettings → (attempt max_attempts : ℕ) → Email → List Step → Answer → Run
unfolding record_answer
finish w s attempt max_attempts email steps answer =
    if w.is_lost
    then record { outcome = raised; email = email; steps = steps }
    else record_answer w s attempt max_attempts email steps answer

module _ (tools : TextTools) (tokens : TokenTools) where
  unfoldable pub outbound_for : JobSettings → Email → OutboundEmail
  unfolding unsubscribe_link to_outbound
  outbound_for s email =
      to_outbound email (unsubscribe_link tools tokens email s.secret_key s.unsubscribe_base_url)

  -- What follows the first `try` block.
  unfoldable pub send_with :
      JobWorld → JobSettings → (attempt max_attempts : ℕ) → Email → Result ApiError Adapter → Run
  unfolding outbound_for finish record_failure
  send_with w s attempt max_attempts email (err error) =
      let email' = record_failure email error in
      record { outcome = returned failed; email = email'; steps = commit email' ∷ [] }
  send_with w s attempt max_attempts email (ok adapter) =
      let email' = record email { status = sending } in
      let outbound = outbound_for s email' in
      let answer = w.transport adapter outbound in
      finish w s attempt max_attempts email' (commit email' ∷ call adapter outbound answer ∷ [])
        answer

  -- `send_one` once the row has been found.
  unfoldable pub send_found : JobWorld → JobSettings → (attempt max_attempts : ℕ) → Email → Run
  unfolding send_with prepare is_sendable
  send_found w s attempt max_attempts email =
      if is_sendable email
      then send_with w s attempt max_attempts email (prepare w s email)
      else record { outcome = returned email.status; email = email; steps = [] }

  -- `send_one` over the table of messages.
  unfoldable pub send_one :
      JobWorld
      → JobSettings
      → (attempt max_attempts : ℕ) → List Email
      → (email_id : ℕ) → Outcome × List Email × List Step
  unfolding send_found
  send_one w s attempt max_attempts emails email_id =
      elim (find (λ email. email.id == email_id) emails) [
        | none ↦ (returned failed, emails, [])
        | some email ↦
            let run = send_found w s attempt max_attempts email in
            (run.outcome, amend (λ row. row.id == email_id) (λ _. run.email) emails, run.steps)
      ]
