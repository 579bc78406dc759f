-- ===== src/SendRoute/Once.antt =====
-- routes/v1/emails.py: one message for one key, and one job for one message that reaches the queue.
-- Each request is one step.
use mathlib.Core.List.{append-nil}
use seskit.Base.{
  ℕ, String, eq_iff, Bool, false, Option, none, some, List, [], ◌∷◌, ◌++◌, any, count, ◌==◌, ◌+◌,
  true, if◌then◌else◌, Bool-cases, Option-cases, inl, inr, Result, ok, err, ◌≡◌, refl, arith,
}
use seskit.Address.{TextTools}
use seskit.Errors.{ApiError}
use seskit.Emails.{Email}
use seskit.Accepting.{Outgoing, AcceptTools, Project, accept_email}
use seskit.SendRoute.{
  Answer, accepted, refused, raised, unqueued, answer_collision, Outbox, IntegrityError, same_key,
  collides, commit_row, after_commit, is_given, find_keyed, commit_and_enqueue, commit_accepted,
  answer_known, send_email,
}

-- A request, with the rows that it saw.
pub record Request : Type 0 where
  pub project : Project
  pub message : Outgoing
  pub smtp_configured : Bool
  pub max_message_bytes : ℕ
  pub fresh : ℕ
  pub key : Option String
  pub saw : List Email
  pub queued : Bool

-- No two rows have one id, or one key in one project.
unfoldable pub OneEach : List Email → Type 0
OneEach [] = Unit {0}
OneEach (email ∷ rows) = (any (collides email) rows ≡ false) × OneEach rows

-- The id that a request failed to enqueue.
unfoldable pub lost_by : Answer → List ℕ
lost_by (unqueued id) = id ∷ []
lost_by (accepted id status) = []
lost_by (refused e) = []
lost_by raised = []

-- How often an id occurs.
abbrev pub times : (id : ℕ) → List ℕ → ℕ
times id l = count (λ other. other == id) l

abbrev pub rows_of : (id : ℕ) → List Email → ℕ
rows_of id rows = count (λ email. email.id == id) rows

-- What is committed has been enqueued or is one of the ids `lost`, once, and nothing else has.
unfoldable pub IsServed : Outbox → (lost : List ℕ) → Type 0
IsServed outbox lost =
    OneEach outbox.table
    × ((id : ℕ) → times id outbox.queue + times id lost ≡ rows_of id outbox.table)

same_key_sym : (a b : Option String) → same_key a b ≡ same_key b a
unfolding same_key
same_key_sym none none = refl
same_key_sym none (some b) = refl
same_key_sym (some a) none = refl
same_key_sym (some a) (some b) = ground (arith, eq_iff a b, eq_iff b a)

collides_sym : (a b : Email) → collides a b ≡ collides b a
unfolding collides
collides_sym a b = ground (arith, same_key_sym a.idempotency_key b.idempotency_key)

count-snoc :
    {A : Type 0} (test : A → Bool) (l : List A) (a : A)
    → count test (l ++ (a ∷ [])) ≡ count test l + (if test a then 1 else 0)
unfolding count
count-snoc test [] a = ground arith
count-snoc test (b ∷ l) a = ground (arith, count-snoc test l a)

any-append :
    (fresh row : Email) (rows : List Email)
    → any (collides row) rows ≡ false
    → collides row fresh ≡ false
    → any (collides row) (rows ++ (fresh ∷ [])) ≡ false
unfolding any
any-append fresh row [] h apart = ground (arith, apart)
any-append fresh row (other ∷ rows) h apart = ground (arith, h, any-append fresh row rows, apart)

OneEach-append :
    (fresh : Email) (rows : List Email)
    → any (collides fresh) rows ≡ false
    → OneEach rows
    → OneEach (rows ++ (fresh ∷ []))
unfolding OneEach any
OneEach-append fresh [] h each = (refl, tt)
OneEach-append fresh (row ∷ rows) h (apart, each) = (
  any-append fresh row rows apart (ground (arith, h, collides_sym fresh row)),
  OneEach-append fresh rows (ground (arith, h)) each,
)

appended-IsServed :
    (email : Email) (outbox : Outbox) (lost : List ℕ)
    → IsServed outbox lost
    → any (collides email) outbox.table ≡ false
    → IsServed
        (record { table = outbox.table ++ (email ∷ []); queue = outbox.queue ++ (email.id ∷ []) })
        (lost ++ [])
unfolding IsServed
appended-IsServed email outbox lost (each, served) free = (
  OneEach-append email outbox.table free each,
  λ id. rw append-nil (
      ground (
        arith,
        served id,
        count-snoc (λ other. other == id) outbox.queue email.id,
        count-snoc (λ row. row.id == id) outbox.table email,
      )),
)

lost-IsServed :
    (email : Email) (outbox : Outbox) (lost : List ℕ)
    → IsServed outbox lost
    → any (collides email) outbox.table ≡ false
    → IsServed
        (record { table = outbox.table ++ (email ∷ []); queue = outbox.queue })
        (lost ++ (email.id ∷ []))
unfolding IsServed
lost-IsServed email outbox lost (each, served) free = (
  OneEach-append email outbox.table free each,
  λ id. ground (
    arith,
    served id,
    count-snoc (λ other. other == id) lost email.id,
    count-snoc (λ row. row.id == id) outbox.table email,
  ),
)

-- An answer that loses nothing and changes nothing.
kept-IsServed :
    (outbox : Outbox) (lost : List ℕ) → IsServed outbox lost → IsServed outbox (lost ++ [])
kept-IsServed outbox lost h = rw append-nil h

commit_row-ok :
    (email : Email) (table after : List Email)
    → commit_row email table ≡ ok after
    → (any (collides email) table ≡ false) × (after ≡ table ++ (email ∷ []))
unfolding commit_row
commit_row-ok email table after done = ground (arith, done)

lost_by-answer_collision :
    (project_id : ℕ) (key : Option String) (table : List Email)
    → lost_by (answer_collision project_id key table) ≡ []
unfolding answer_collision lost_by
lost_by-answer_collision project_id key table = elim (Bool-cases (is_given key)) [
  | inr none_given ↦ rw none_given refl
  | inl given ↦ elim (Option-cases (find_keyed project_id key table)) [
    | inl missing ↦ rw (given, missing) refl
    | inr (existing, found) ↦ rw (given, found) refl
  ]
]

-- What an answer and what it leaves are, after what had been lost.
Serves : (lost : List ℕ) → Answer × Outbox → Type 0
Serves lost (answer, after) = IsServed after (lost ++ lost_by answer)

after_commit-Serves :
    (queued : Bool) (project_id : ℕ) (key : Option String) (email : Email)
    → (committed : Result IntegrityError (List Email)) (outbox : Outbox) (lost : List ℕ)
    → commit_row email outbox.table ≡ committed
    → IsServed outbox lost
    → Serves lost (after_commit queued project_id key email committed outbox)
unfolding after_commit Serves lost_by
after_commit-Serves true project_id key email (ok table) outbox lost done h =
    let (free, grown) = commit_row-ok email outbox.table table done in
    rw grown (appended-IsServed email outbox lost h free)
after_commit-Serves false project_id key email (ok table) outbox lost done h =
    let (free, grown) = commit_row-ok email outbox.table table done in
    rw grown (lost-IsServed email outbox lost h free)
after_commit-Serves true project_id key email (err e) outbox lost done h =
    rw (lost_by-answer_collision project_id key outbox.table) (kept-IsServed outbox lost h)
after_commit-Serves false project_id key email (err e) outbox lost done h =
    rw (lost_by-answer_collision project_id key outbox.table) (kept-IsServed outbox lost h)

commit_accepted-Serves :
    (queued : Bool) (project_id : ℕ) (key : Option String) (result : Result ApiError Email)
    (outbox : Outbox) (lost : List ℕ)
    → IsServed outbox lost
    → Serves lost (commit_accepted queued project_id key result outbox)
unfolding commit_accepted commit_and_enqueue Serves
commit_accepted-Serves queued project_id key (ok email) outbox lost h =
    after_commit-Serves queued project_id key email (commit_row email outbox.table) outbox lost refl
      h
commit_accepted-Serves queued project_id key (err e) outbox lost h =
    unfold lost_by in kept-IsServed outbox lost h

answer_known-Serves :
    (known : Option Email) (other : Answer × Outbox) (outbox : Outbox) (lost : List ℕ)
    → IsServed outbox lost
    → Serves lost other
    → Serves lost (answer_known known other outbox)
unfolding answer_known Serves
answer_known-Serves none other outbox lost h next = next
answer_known-Serves (some existing) other outbox lost h next =
    unfold lost_by in kept-IsServed outbox lost h

module _ (tools : TextTools) (accept : AcceptTools) where
  unfoldable pub answer : Request → Outbox → Answer × Outbox
  answer request outbox =
      send_email tools accept request.queued request.project request.message request.smtp_configured
        request.max_message_bytes request.fresh request.key request.saw outbox

  -- The outbox after some requests, and the ids that they failed to enqueue.
  unfoldable pub run : List Request → Outbox → (lost : List ℕ) → Outbox × List ℕ
  run [] outbox lost = (outbox, lost)
  run (request ∷ requests) outbox lost =
      let (said, after) = answer request outbox in run requests after (lost ++ lost_by said)

  answer-Serves :
      (request : Request) (outbox : Outbox) (lost : List ℕ)
      → IsServed outbox lost
      → Serves lost (answer request outbox)
  unfolding answer send_email
  answer-Serves request outbox lost h =
      answer_known-Serves
        (if is_given request.key
          then find_keyed request.project.id request.key request.saw
          else none)
        (commit_accepted request.queued request.project.id request.key
          (accept_email tools accept request.project request.message request.smtp_configured
            request.max_message_bytes request.fresh request.key)
          outbox)
        outbox lost h
        (commit_accepted-Serves request.queued request.project.id request.key
          (accept_email tools accept request.project request.message request.smtp_configured
            request.max_message_bytes request.fresh request.key)
          outbox lost h)

  -- However many requests come, one after another, from whatever projects, with whatever keys, and
  -- however old the rows are that each of them looked its key up in: no two messages have one id, or
  -- one key in one project, and each message has one job and no other message has any, except that
  -- one whose enqueueing failed has none. This holds after the requests if it held before them.
  pub run-IsServed :
      (requests : List Request) (outbox : Outbox) (lost : List ℕ)
      → IsServed outbox lost
      → let (after, missing) = run requests outbox lost in IsServed after missing
  unfolding run Serves
  run-IsServed [] outbox lost h = h
  run-IsServed (request ∷ requests) outbox lost h =
      let (said, after) = answer request outbox in
      run-IsServed requests after (lost ++ lost_by said) (answer-Serves request outbox lost h)
