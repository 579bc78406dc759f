-- ===== src/Errors.antt =====
-- errors.py: the public API's error vocabulary.
use seskit.Base.{ℕ, String}

pub data ErrorType : Type 0 where
  invalid_request authentication_failed authorization_failed domain_not_verified : ErrorType
  sending_limit_exceeded rate_limit_exceeded provider_error invalid_recipient : ErrorType
  suppressed_recipient attachment_too_large email_rejected not_found internal_error : ErrorType

-- `STATUS_FOR_TYPE`.
unfoldable pub status_for_type : ErrorType → ℕ
status_for_type invalid_request = 400
status_for_type authentication_failed = 401
status_for_type authorization_failed = 403
status_for_type not_found = 404
status_for_type domain_not_verified = 422
status_for_type invalid_recipient = 422
status_for_type suppressed_recipient = 422
status_for_type attachment_too_large = 413
status_for_type email_rejected = 422
status_for_type rate_limit_exceeded = 429
status_for_type sending_limit_exceeded = 429
status_for_type provider_error = 502
status_for_type internal_error = 500

-- Every raise in the modelled code takes the status of its type.
pub record ApiError : Type 0 where
  pub error_type : ErrorType
  pub message : String

unfoldable pub status_code : ApiError → ℕ
unfolding status_for_type
status_code e = status_for_type e.error_type
