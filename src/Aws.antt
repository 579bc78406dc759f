-- ===== src/Aws.antt =====
-- models/aws_connection.py, models/identity.py and services/credentials.py: what a project has set
-- up to send with. Statuses and regions keep their own types; decryption is a parameter.
use seskit.Base.{
  ℕ, String, str_eq, Bool, true, false, ◌&&◌, not, Option, none, some, List, Result, ok, err,
  if◌then◌else◌, find, any, ◌==◌,
}
use seskit.Errors.{ApiError, invalid_request}
use seskit.Address.{TextTools, bare_address}

pub data ConnectionStatus : Type 0 where
  connected error : ConnectionStatus

pub record AwsConnection : Type 0 where
  pub project_id : ℕ
  pub region : String
  pub aws_access_key_id : Option String
  pub aws_secret_access_key_encrypted : Option String
  pub status : ConnectionStatus
  pub configuration_set : Option String

pub record AwsCredentials : Type 0 where
  pub access_key_id : String
  pub secret_access_key : String

pub data IdentityType : Type 0 where
  domain email_address : IdentityType

pub data VerificationStatus : Type 0 where
  pending success failed temporary_failure not_started : VerificationStatus

pub record Identity : Type 0 where
  pub project_id : ℕ
  pub identity_type : IdentityType
  pub value : String
  pub verification_status : VerificationStatus

unfoldable pub is_connected : AwsConnection → Bool
is_connected connection = elim connection.status [ connected ↦ true | error ↦ false ]

unfoldable pub is_success : Identity → Bool
is_success identity = elim identity.verification_status [
  | success ↦ true
  | pending ↦ false
  | failed ↦ false
  | temporary_failure ↦ false
  | not_started ↦ false
]

-- The column is unique, so the query of `get_connection` has at most one answer.
unfoldable pub get_connection : List AwsConnection → ℕ → Option AwsConnection
get_connection connections project_id = find (λ c. c.project_id == project_id) connections

-- The truth value of an optional text: `None` and "" are both false.
unfoldable pub is_given : Option String → Bool
is_given none = false
is_given (some text) = not (str_eq text "")

unfoldable pub or_empty : Option String → String
or_empty none = ""
or_empty (some text) = text

unfoldable pub has_credentials : AwsConnection → Bool
unfolding is_given
has_credentials c = is_given c.aws_access_key_id && is_given c.aws_secret_access_key_encrypted

abbrev pub no_access_key : ApiError
no_access_key = record {
  error_type = invalid_request;
  message = "This project has no AWS access key. Connect it on the AWS page.";
}

-- `decrypt` is `decrypt_secret_access_key` with its text of `CredentialsUnreadable`.
unfoldable pub stored_credentials :
    (decrypt : String → String → Result String String)
    → AwsConnection
    → (secret_key : String) → Result ApiError AwsCredentials
unfolding has_credentials or_empty
stored_credentials decrypt connection secret_key =
    if not (has_credentials connection)
    then err no_access_key
    else elim (decrypt (or_empty connection.aws_secret_access_key_encrypted) secret_key) [
      | err unreadable ↦ err (record { error_type = invalid_request; message = unreadable })
      | ok secret ↦ ok (record {
        access_key_id = or_empty connection.aws_access_key_id;
        secret_access_key = secret;
      })
    ]

module _ (tools : TextTools) where
  open tools use {parseaddr, lower, rpartition_at}

  -- `_domain_of` of services/sending.py: without an "@", `rpartition` leaves the whole text in
  -- its last part.
  unfoldable pub sender_domain : String → String
  sender_domain address = lower (rpartition_at (parseaddr address).1).2

  unfoldable pub identity_covers : (address host : String) → Identity → Bool
  identity_covers address host identity = elim identity.identity_type [
    | email_address ↦ str_eq (lower identity.value) address
    | domain ↦ str_eq (lower identity.value) host
  ]

  unfoldable pub sender_is_verified : List Identity → ℕ → (sender : String) → Bool
  unfolding sender_domain identity_covers is_success
  sender_is_verified identities project_id sender =
      let address = bare_address tools sender in
      let host = sender_domain sender in
      if str_eq host ""
      then false
      else any
          (λ identity.
            (identity.project_id == project_id && is_success identity)
            && identity_covers address host identity)
          identities
