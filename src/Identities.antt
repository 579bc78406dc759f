-- ===== src/Identities.antt =====
-- services/identities.py and the columns of models/identity.py that it writes: the domains and
-- addresses that projects verify with SES. What the provider answers is an argument, and the calls
-- that change something there are recorded, newest first.
pub mod Rows
pub mod Release
pub mod Backed
mod Tests
use seskit.Base.{
  ℕ, ◌+◌, leb, ltb, ◌==◌, String, str_eq, Bool, true, false, ◌&&◌, ◌||◌, not, Option, none, some,
  List, [], ◌∷◌, ◌++◌, find, select, map, any, count, if◌then◌else◌, is_some, Result, ok, err,
  ◌>>=◌,
}
use seskit.Errors.{ApiError, invalid_request}
use seskit.Aws.{
  IdentityType, domain, email_address, VerificationStatus, success, pending, failed,
  temporary_failure, not_started, AwsCredentials,
}

-- Python's strings: `has at "@"` is `"@" in value`.
pub record NameTools : Type 0 where
  pub strip : String → String
  pub lower : String → String
  pub len : String → ℕ
  pub has : String → (part : String) → Bool
  pub starts_with : String → String → Bool
  pub ends_with : String → String → Bool
  -- What stands before the first "@" and what follows it.
  pub partition_at : String → String × String

pub record IdentityStatus : Type 0 where
  pub identity_type : IdentityType
  pub verification_status : VerificationStatus
  pub dkim_status : Option VerificationStatus
  pub mail_from_status : Option VerificationStatus
  pub mail_from_domain : Option String
  pub dkim_tokens : List String

pub record SenderIdentity : Type 0 where
  pub id : ℕ
  pub project_id : ℕ
  pub value : String
  pub region : String
  pub status : Option IdentityStatus
  pub last_checked_at : Option ℕ
  pub last_error : Option String

-- A call that changed what SES holds.
pub data Call : Type 0 where
  created : (value region : String) → Call
  deleted : (value region : String) → Call

pub record Registry : Type 0 where
  pub rows : List SenderIdentity
  pub calls : List Call

unfoldable pub names : (value region : String) → SenderIdentity → Bool
names value region row = str_eq row.value value && str_eq row.region region

abbrev pub invalid_identity : ApiError
invalid_identity = record {
  error_type = invalid_request;
  message = "Enter a domain like example.com, or an email address like you@example.com.";
}

abbrev pub max_identity_length : ℕ
max_identity_length = 255

unfoldable pub get_owned_identity :
    (identity_id project_id : ℕ) → List SenderIdentity → Option SenderIdentity
get_owned_identity identity_id project_id rows =
    find (λ row. (row.id == identity_id) && (row.project_id == project_id)) rows

unfoldable pub find_identity :
    (project_id : ℕ) → (value region : String) → List SenderIdentity → Option SenderIdentity
unfolding names
find_identity project_id value region rows =
    find (λ row. (row.project_id == project_id) && names value region row) rows

unfoldable pub count_other_references : SenderIdentity → List SenderIdentity → ℕ
unfolding names
count_other_references identity rows =
    count (λ row. names identity.value identity.region row && not (row.id == identity.id)) rows

-- `_apply`.
unfoldable pub apply_status : (now : ℕ) → IdentityStatus → SenderIdentity → SenderIdentity
apply_status now status identity = record identity {
  status = some status;
  last_checked_at = some now;
  last_error = none;
}

abbrev pub new_identity : (fresh project_id : ℕ) → (value region : String) → SenderIdentity
new_identity fresh project_id value region = record {
  id = fresh;
  project_id = project_id;
  value = value;
  region = region;
  status = none;
  last_checked_at = none;
  last_error = none;
}

unfoldable pub add_row :
    (now fresh project_id : ℕ)
    → (value region : String) → IdentityStatus
    → Option SenderIdentity
    → List SenderIdentity
    → List SenderIdentity
unfolding apply_status
add_row now fresh project_id value region status none rows =
    rows ++ (apply_status now status (new_identity fresh project_id value region) ∷ [])
add_row now fresh project_id value region status (some existing) rows =
    map (λ row. if row.id == existing.id then apply_status now status row else row) rows

module _ (tools : NameTools) where
  open tools use {strip, lower, len, has, starts_with, ends_with, partition_at}

  unfoldable pub is_address : String → Bool
  is_address cleaned =
      let (local, name) = partition_at cleaned in
      not (str_eq local "")
      && has name "."
      && not (starts_with name ".")
      && not (ends_with name ".")

  unfoldable pub is_name : String → Bool
  is_name cleaned = has cleaned "." && not (starts_with cleaned ".") && not (ends_with cleaned ".")

  unfoldable pub classify : String → Result ApiError (String × IdentityType)
  unfolding is_address is_name
  classify value =
      let cleaned = lower (strip value) in
      if str_eq cleaned "" || ltb max_identity_length (len cleaned) || has cleaned " "
      then err invalid_identity
      else if has cleaned "@"
      then (if is_address cleaned then ok (cleaned, email_address) else err invalid_identity)
      else if is_name cleaned
      then ok (cleaned, domain)
      else err invalid_identity

  -- `answer`: what SES says to the request to create the identity. A call that fails creates nothing.
  unfoldable pub add_identity :
      (now fresh project_id : ℕ)
      → (value region : String) → (credentials : Result ApiError AwsCredentials)
      → (answer : Result ApiError IdentityStatus) → Registry
      → Result ApiError Registry
  unfolding classify find_identity add_row
  add_identity now fresh project_id value region credentials answer registry = do
    (cleaned, kind) ← classify value
    _ ← credentials
    status ← answer
    ok (record {
      rows =
          add_row now fresh project_id cleaned region status
            (find_identity project_id cleaned region registry.rows) registry.rows;
      calls = created cleaned region ∷ registry.calls;
    })

-- A failure is written onto the row.
unfoldable pub checked :
    (now : ℕ) → Result ApiError IdentityStatus → SenderIdentity → SenderIdentity
unfolding apply_status
checked now (err e) identity = record identity {
  last_error = some e.message;
  last_checked_at = some now;
}
checked now (ok status) identity = apply_status now status identity

unfoldable pub check_identity :
    (now : ℕ)
    → (credentials : Result ApiError AwsCredentials) → (answer : Result ApiError IdentityStatus)
    → SenderIdentity
    → List SenderIdentity
    → Result ApiError (List SenderIdentity)
unfolding checked
check_identity now credentials answer identity rows = do
  _ ← credentials
  ok (map (λ row. if row.id == identity.id then checked now answer row else row) rows)

unfoldable pub without : SenderIdentity → List SenderIdentity → List SenderIdentity
without identity rows = select (λ row. not (row.id == identity.id)) rows

-- SES is only asked to delete what no other row names.
unfoldable pub release :
    (others : ℕ)
    → (answer : Result ApiError (Unit {0})) → SenderIdentity
    → Registry
    → Result ApiError (Bool × Registry)
release others (ok done) identity kept =
    if ltb 0 others
    then ok (false, kept)
    else ok (true, record kept { calls = deleted identity.value identity.region ∷ kept.calls })
release others (err e) identity kept = if ltb 0 others then ok (false, kept) else err e

-- The row of a domain that receives no mail, or none any more. `answer`: what SES says to the request
-- to delete; an error rolls everything back.
unfoldable pub remove_identity :
    (credentials : Result ApiError AwsCredentials)
    → (answer : Result ApiError (Unit {0})) → SenderIdentity
    → Registry
    → Result ApiError (Bool × Registry)
unfolding count_other_references without release
remove_identity credentials answer identity registry = do
  _ ← credentials
  release (count_other_references identity registry.rows) answer identity
      (record registry { rows = without identity registry.rows })

abbrev pub is_verified : Option IdentityStatus → Bool
is_verified none = false
is_verified (some status) = elim status.verification_status [
  | success ↦ true
  | pending ↦ false
  | failed ↦ false
  | temporary_failure ↦ false
  | not_started ↦ false
]

unfoldable pub is_recheck_due :
    (unverified_seconds verified_seconds now : ℕ) → SenderIdentity → Bool
is_recheck_due unverified_seconds verified_seconds now identity = elim identity.last_checked_at [
  | none ↦ true
  | some checked_at ↦
      leb
        (checked_at
          + (if is_verified identity.status then verified_seconds else unverified_seconds))
        now
]

unfoldable pub identities_due :
    (unverified_seconds verified_seconds now : ℕ) → List SenderIdentity → List SenderIdentity
unfolding is_recheck_due
identities_due unverified_seconds verified_seconds now rows =
    select (is_recheck_due unverified_seconds verified_seconds now) rows
