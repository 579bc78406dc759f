-- ===== src/Pages.antt =====
-- The API's routes/v1/emails.py: the pages of a project's messages, and one message. FastAPI has
-- checked that a limit is from 1 to 100.
pub mod Order
pub mod Walk
pub mod Shown
mod Tests
use seskit.Base.{
  ℕ, zero, suc, ltb, ◌==◌, Bool, true, false, ◌&&◌, Option, none, some, List, [], ◌∷◌, length, take,
  find, select, if◌then◌else◌, Result, ok, err,
}
use seskit.Errors.{ApiError, not_found}
use seskit.Emails.{EmailStatus, queued, sending, sent, failed, Email}

abbrev pub default_page : ℕ
default_page = 25

abbrev pub max_page : ℕ
max_page = 100

pub record EmailPage : Type 0 where
  pub «data» : List Email
  pub has_more : Bool

abbrev pub same_status : EmailStatus → EmailStatus → Bool
same_status queued queued = true
same_status sending sending = true
same_status sent sent = true
same_status failed failed = true
same_status queued sending = false
same_status queued sent = false
same_status queued failed = false
same_status sending queued = false
same_status sending sent = false
same_status sending failed = false
same_status sent queued = false
same_status sent sending = false
same_status sent failed = false
same_status failed queued = false
same_status failed sending = false
same_status failed sent = false

-- The filters of the query, each of which may be absent.
unfoldable pub has_status : Option EmailStatus → Email → Bool
has_status none email = true
has_status (some status) email = same_status email.status status

unfoldable pub is_older : Option ℕ → Email → Bool
is_older none email = true
is_older (some cursor) email = ltb email.id cursor

-- `ORDER BY id DESC`.
unfoldable pub insert_desc : Email → List Email → List Email
insert_desc email [] = email ∷ []
insert_desc email (row ∷ rows) =
    let rest = insert_desc email rows in
    if ltb row.id email.id then email ∷ row ∷ rows else row ∷ rest

unfoldable pub by_id_desc : List Email → List Email
unfolding insert_desc
by_id_desc [] = []
by_id_desc (email ∷ rows) = insert_desc email (by_id_desc rows)

-- One row more than asked for is fetched, to know whether there are more.
unfoldable pub page_of : (limit : ℕ) → List Email → EmailPage
page_of limit ordered = record {
  «data» = take limit (take (suc limit) ordered);
  has_more = ltb limit (length (take (suc limit) ordered));
}

unfoldable pub query :
    (project_id : ℕ) → (older_than : Option ℕ) → Option EmailStatus → List Email → List Email
unfolding has_status is_older by_id_desc
query project_id older_than status table = by_id_desc (
    select (has_status status)
      (select (is_older older_than) (select (λ row. row.project_id == project_id) table)))

unfoldable pub owned : (email_id project_id : ℕ) → List Email → Option Email
owned email_id project_id table =
    find (λ row. (row.id == email_id) && (row.project_id == project_id)) table

unfoldable pub get_email : (email_id project_id : ℕ) → List Email → Result ApiError Email
unfolding owned
get_email email_id project_id table = elim (owned email_id project_id table) [
  | none ↦ err (record { error_type = not_found; message = "No email with that id." })
  | some email ↦ ok email
]

-- An id of another project, or of none, is no place to page from.
unfoldable pub list_emails :
    (project_id limit : ℕ)
    → (starting_after : Option ℕ) → Option EmailStatus
    → List Email
    → Result ApiError EmailPage
unfolding owned query page_of
list_emails project_id limit none status table =
    ok (page_of limit (query project_id none status table))
list_emails project_id limit (some cursor) status table = elim (owned cursor project_id table) [
  | none ↦ err (record { error_type = not_found; message = "No email with that id to page from." })
  | some email ↦ ok (page_of limit (query project_id (some email.id) status table))
]
