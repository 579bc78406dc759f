-- ===== src/OneClick.antt =====
-- The API's routes/unsubscribe.py (apps/api/src/seskit_api): from a token to a row of the
-- suppression list.
pub mod Works
pub mod Checked
mod Tests
use seskit.Base.{
  ℕ, String, str_eq, Bool, true, false, Option, none, some, List, [], ◌∷◌, map, Result, ok, err,
  ◌>>=◌, if◌then◌else◌, find, is_some,
}
use seskit.Address.{TextTools, bare_address}
use seskit.Suppression.{
  unsubscribe, DatabaseError, contains, find_suppression, suppress, Table, SuppressedAddress,
}
use seskit.Emails.{Email, recipients}
use seskit.Unsubscribe.{TokenTools, read_token, token_matches}
use seskit.Ingest.{Ledger, Ids, record_suppression_event}

-- What a request is answered with, or what ends it: `type_error` is raised by the token check.
pub data Page : Type 0 where
  invalid : Page
  shown : (address : String) → (done : Bool) → Page

pub data Raised : Type 0 where
  type_error : Raised
  database : DatabaseError → Raised

unfoldable pub from_database {ℓ} : {A : Type ℓ} → Result DatabaseError A → Result Raised A
from_database (err e) = err (database e)
from_database (ok a) = ok a

module _ (tools : TextTools) (tokens : TokenTools) (secret : String) where
  unfoldable pub is_recipient : Email → String → Bool
  unfolding contains recipients
  is_recipient email address = contains address (map (bare_address tools) (recipients email))

  unfoldable pub check_owner :
      Email → String → Option Bool → Result Raised (Option (Email × String))
  unfolding is_recipient
  check_owner email address none = err type_error
  check_owner email address (some false) = ok none
  check_owner email address (some true) =
      if is_recipient email address then ok (some (email, address)) else ok none

  -- `_resolve`. An id that no row has, written out, names no message.
  unfoldable pub resolve : List Email → (token : String) → Result Raised (Option (Email × String))
  unfolding check_owner
  resolve emails token = elim (read_token tokens token) [
    | none ↦ ok none
    | some (id, address) ↦ elim (find (λ email. str_eq (tokens.id_text email.id) id) emails) [
      | none ↦ ok none
      | some email ↦ check_owner email address (token_matches tokens secret email.project_id token)
    ]
  ]

  unfoldable pub confirm : Ledger → (token : String) → Result Raised Page
  unfolding resolve
  confirm ledger token = do
    resolved ← resolve ledger.emails token
    ok (elim resolved [
      | none ↦ invalid
      | some (email, address) ↦ shown address (
          is_some
            (find_suppression (bare_address tools) ledger.suppressions email.project_id address))
    ])

  -- What follows once the message and the address are known.
  unfoldable pub press_for :
      Ids
      → (now : ℕ) → Ledger
      → Email
      → (address : String) → Option SuppressedAddress
      → Result Raised (Page × Ledger)
  unfolding record_suppression_event from_database
  press_for ids now ledger email address (some already) = ok (shown address true, ledger)
  press_for ids now ledger email address none = do
    (table, row) ← from_database (
        suppress (bare_address tools) ledger.suppressions (ids.suppression 0) email.project_id
          address unsubscribe none (some "Unsubscribed from an email."))
    ok (
      shown address true,
      record_suppression_event tokens.id_text ids now email.id (address ∷ []) unsubscribe none
          (record ledger { suppressions = table }),
    )

  -- The handler of the POST.
  unfoldable pub press : Ids → (now : ℕ) → Ledger → (token : String) → Result Raised (Page × Ledger)
  unfolding resolve press_for
  press ids now ledger token = do
    resolved ← resolve ledger.emails token
    elim resolved [
      | none ↦ ok (invalid, ledger)
      | some (email, address) ↦
          press_for ids now ledger email address
            (find_suppression (bare_address tools) ledger.suppressions email.project_id address)
    ]
