-- ===== src/Accepting/Tests.antt =====
-- services/accepting.py in a small project with one suppressed address.
use seskit.Base.{true, false, none, some, [], ◌∷◌, ok, find, any, select, All, ◌≡◌, refl}
use seskit.Address.{bare_address}
use seskit.Suppression.{SuppressedAddress, bounce, suppressed_among}
use seskit.Aws.{sender_is_verified, get_connection, is_connected}
use seskit.Emails.{Email, ses, is_sendable, recipients}
use seskit.Sending.{choose_provider, configuration_set_for, to_outbound}
use seskit.Sending.Job.{provider_name}
use seskit.Sending.Tests.{toy_text, connection, identity}
use seskit.Accepting.{Outgoing, AcceptTools, Project, assembled, queued_row, accept_email}
use seskit.Accepting.Laws.{blocks, accept_email-clear, accept_email-to_outbound}

abbrev pub toy_accept : AcceptTools
toy_accept = record { sorted = λ l. l; decimal = λ n. "1"; message_size = λ outbound. ok 600 }

abbrev bob : SuppressedAddress
bob = record {
  id = 1;
  project_id = 7;
  address = "bob@b.example";
  reason = bounce;
  source_event_id = some 4;
  note = none;
  removed_at = none;
}

abbrev pub project : Project
project = record {
  id = 7;
  suppressions = bob ∷ [];
  connections = connection ∷ [];
  identities = identity ∷ [];
}

abbrev pub to_eve : Outgoing
to_eve = record {
  sender = "me@b.example";
  to = "eve@b.example" ∷ [];
  subject = "Hello";
  html = none;
  text = some "Hi";
  cc = [];
  bcc = [];
  reply_to = [];
  headers = [];
  attachments = ("a.txt", "text/plain", b'h' ∷ b'i' ∷ []) ∷ [];
}

-- Bob only gets a blind copy.
abbrev copy_to_bob : Outgoing
copy_to_bob = record to_eve { bcc = "bob@b.example" ∷ [] }

abbrev eve_row : Email
eve_row = queued_row toy_text toy_accept project to_eve 1 none ses

accept_eve : accept_email toy_text toy_accept project to_eve false 1000 1 none ≡ ok eve_row
unfolding accept_email suppressed_among select any find bare_address choose_provider get_connection
    sender_is_verified is_connected
accept_eve = refl

accept_email-clear_example :
    All (λ a. blocks (bare_address toy_text) project a ≡ false) (recipients eve_row)
accept_email-clear_example =
    accept_email-clear toy_text toy_accept project to_eve false 1000 1 none eve_row accept_eve

accept_email-to_outbound_example :
    (is_sendable eve_row ≡ true)
    × (choose_provider toy_text project.connections project.identities project.id "me@b.example"
          false
        ≡ ok (provider_name eve_row))
    × (to_outbound eve_row none ≡ record (assembled to_eve) {
      configuration_set =
          configuration_set_for project.connections project.id (provider_name eve_row);
      unsubscribe_url = none;
    })
accept_email-to_outbound_example =
    accept_email-to_outbound toy_text toy_accept project to_eve false 1000 1 none eve_row none
      accept_eve
