-- ===== src/SendRoute/Tests.antt =====
-- routes/v1/emails.py: the theorems for requests of a small project.
use seskit.Base.{
  ℕ, String, Bool, true, count, List, false, Option, none, some, [], ◌∷◌, find, any, select, inl,
  ◌⊎◌, ◌≡◌, refl,
}
use seskit.Address.{bare_address}
use seskit.Errors.{ApiError}
use seskit.Suppression.{suppressed_among}
use seskit.Aws.{sender_is_verified, get_connection, is_connected}
use seskit.Emails.{Email, ses}
use seskit.Sending.{choose_provider, find_by_idempotency_key}
use seskit.Sending.Tests.{toy_text}
use seskit.Accepting.{queued_row, accept_email}
use seskit.Accepting.Tests.{toy_accept, project, to_eve}
use seskit.SendRoute.{accepted, refused, raised, Outbox, is_given, send_email}
use seskit.SendRoute.Once.{Request, IsServed, OneEach, run, run-IsServed}
use seskit.SendRoute.Again.{send_email_again, send_email_empty_key}

abbrev request : ℕ → Option String → Bool → Request
request fresh key queued = record {
  project = project;
  message = to_eve;
  smtp_configured = false;
  max_message_bytes = 1000;
  fresh = fresh;
  key = key;
  saw = [];
  queued = queued;
}

abbrev nothing : Outbox
nothing = record { table = []; queue = [] }

nothing-IsServed : IsServed nothing []
unfolding IsServed OneEach count
nothing-IsServed = (tt, λ id. refl)

-- A repeated key, and a request whose job does not reach the queue.
abbrev requests : List Request
requests = request 1 (some "a") true ∷ request 2 (some "a") true ∷ request 3 none false ∷ []

run-IsServed_example :
    let (after, missing) = run toy_text toy_accept requests nothing [] in IsServed after missing
run-IsServed_example = run-IsServed toy_text toy_accept requests nothing [] nothing-IsServed

abbrev row : ℕ → String → Email
row fresh key = queued_row toy_text toy_accept project to_eve fresh (some key) ses

abbrev one_row : String → Outbox
one_row key = record { table = row 1 key ∷ []; queue = 1 ∷ [] }

send_email_again_example :
    let (answer, after) =
      send_email toy_text toy_accept true project to_eve false 1000 2 (some "a") [] (one_row "a") in
    (after ≡ one_row "a")
    × ((answer ≡ accepted (row 1 "a").id (row 1 "a").status)
        ⊎ ((e : ApiError) × (answer ≡ refused e)))
send_email_again_example =
    send_email_again toy_text toy_accept project to_eve false 1000 2 true "a" [] (one_row "a")
      (row 1 "a") (unfold is_given in refl) (unfold find_by_idempotency_key find queued_row in refl)
      (inl (unfold find_by_idempotency_key find in refl))

send_email_empty_key_example :
    send_email toy_text toy_accept true project to_eve false 1000 2 (some "") [] (one_row "")
    ≡ (raised, one_row "")
send_email_empty_key_example =
    send_email_empty_key toy_text toy_accept project to_eve false 1000 2 true [] (one_row "")
      (row 1 "") (row 2 "") (unfold find_by_idempotency_key find queued_row in refl)
      (unfold accept_email suppressed_among select any find bare_address choose_provider
          get_connection sender_is_verified is_connected in
        refl)
