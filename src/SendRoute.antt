-- ===== src/SendRoute.antt =====
-- The API's routes/v1/emails.py: accepting a message over HTTP, and the pages of a project's messages.
-- A request looks its key up in the rows that it `saw`, and commits to the `table` of that moment,
-- which others may have written to in between. The fresh id is an argument.
pub mod Again
pub mod Once
mod Tests
use seskit.Base.{
  ℕ, ◌==◌, String, str_eq, Bool, true, false, ◌&&◌, ◌||◌, not, Option, none, some, List, [], ◌∷◌,
  ◌++◌, any, find, if◌then◌else◌, Result, ok, err,
}
use seskit.Address.{TextTools}
use seskit.Errors.{ApiError}
use seskit.Emails.{EmailStatus, Email}
use seskit.Accepting.{Outgoing, AcceptTools, Project, accept_email}
use seskit.Sending.{find_by_idempotency_key}

pub data Answer : Type 0 where
  -- The id and the status of the message.
  accepted : (id : ℕ) → EmailStatus → Answer
  refused : ApiError → Answer
  -- The integrity error is raised again.
  raised : Answer
  -- The row with this id is committed, and the enqueueing raises.
  unqueued : (id : ℕ) → Answer

-- The committed rows, oldest first, and the ids that have been enqueued, oldest first.
pub record Outbox : Type 0 where
  pub table : List Email
  pub queue : List ℕ

pub data IntegrityError : Type 0 where
  integrity_error : IntegrityError

unfoldable pub same_key : Option String → Option String → Bool
same_key (some a) (some b) = str_eq a b
same_key (some a) none = false
same_key none other = false

-- The primary key and `uq_emails_project_idempotency`, in which a missing key is equal to none.
unfoldable pub collides : Email → Email → Bool
unfolding same_key
collides fresh row =
    (fresh.id == row.id)
    || ((fresh.project_id == row.project_id) && same_key fresh.idempotency_key row.idempotency_key)

unfoldable pub commit_row : Email → List Email → Result IntegrityError (List Email)
unfolding collides
commit_row email table =
    if any (collides email) table then err integrity_error else ok (table ++ (email ∷ []))

-- `if idempotency_key`: an empty key is no key.
unfoldable pub is_given : Option String → Bool
is_given none = false
is_given (some key) = not (str_eq key "")

unfoldable pub find_keyed : (project_id : ℕ) → (key : Option String) → List Email → Option Email
find_keyed project_id none rows = none
find_keyed project_id (some key) rows = find_by_idempotency_key rows project_id key

-- After a collision: the winner's row, if there is a key and a row for it.
unfoldable pub answer_collision : (project_id : ℕ) → (key : Option String) → List Email → Answer
unfolding is_given find_keyed
answer_collision project_id key table =
    if is_given key
    then (elim (find_keyed project_id key table) [
      | none ↦ raised
      | some existing ↦ accepted existing.id existing.status
    ])
    else raised

-- The job is enqueued only for a row that was committed. `queued`: whether that reaches Redis.
unfoldable pub after_commit :
    (queued : Bool)
    → (project_id : ℕ) → (key : Option String) → Email
    → Result IntegrityError (List Email)
    → Outbox
    → Answer × Outbox
unfolding answer_collision
after_commit true project_id key email (ok table) outbox = (
  accepted email.id email.status,
  record { table = table; queue = outbox.queue ++ (email.id ∷ []) },
)
after_commit false project_id key email (ok table) outbox =
    (unqueued email.id, record { table = table; queue = outbox.queue })
after_commit queued project_id key email (err e) outbox =
    (answer_collision project_id key outbox.table, outbox)

unfoldable pub commit_and_enqueue :
    (queued : Bool) → (project_id : ℕ) → (key : Option String) → Email → Outbox → Answer × Outbox
unfolding commit_row after_commit
commit_and_enqueue queued project_id key email outbox =
    after_commit queued project_id key email (commit_row email outbox.table) outbox

unfoldable pub commit_accepted :
    (queued : Bool)
    → (project_id : ℕ) → (key : Option String) → Result ApiError Email
    → Outbox
    → Answer × Outbox
unfolding commit_and_enqueue
commit_accepted queued project_id key (ok email) outbox =
    commit_and_enqueue queued project_id key email outbox
commit_accepted queued project_id key (err e) outbox = (refused e, outbox)

unfoldable pub answer_known : Option Email → Answer × Outbox → Outbox → Answer × Outbox
answer_known none other outbox = other
answer_known (some existing) other outbox = (accepted existing.id existing.status, outbox)

module _ (tools : TextTools) (accept : AcceptTools) where
  unfoldable pub send_email :
      (queued : Bool)
      → (project : Project) → Outgoing
      → (smtp_configured : Bool) → (max_message_bytes fresh : ℕ) → (key : Option String)
      → (saw : List Email) → Outbox
      → Answer × Outbox
  unfolding is_given find_keyed commit_accepted answer_known
  send_email queued project message smtp_configured max_message_bytes fresh key saw outbox =
      answer_known (if is_given key then find_keyed project.id key saw else none)
        (commit_accepted queued project.id key
          (accept_email tools accept project message smtp_configured max_message_bytes fresh key)
          outbox)
        outbox
