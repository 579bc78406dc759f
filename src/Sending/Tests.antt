-- ===== src/Sending/Tests.antt =====
-- The worker's sending.py and services/sending.py in a small project.
use Prim.Native.String.{◌++◌ as append}
use seskit.Base.{
  ℕ, suc, ◌≤◌, String, true, false, none, some, List, [], ◌∷◌, ok, find, ◌≡◌, ◌≢◌, refl, arith,
}
use seskit.Members.{In}
use seskit.Errors.{ApiError, provider_error}
use seskit.Address.{TextTools, bare_address}
use seskit.Aws.{
  AwsConnection, AwsCredentials, Identity, connected, domain, success, get_connection,
  stored_credentials,
}
use seskit.Emails.{queued, failed, ses, Email, recipients}
use seskit.Unsubscribe.{unsubscribe_token}
use seskit.Unsubscribe.Tests.{toy_tokens}
use seskit.Sending.{choose_provider, unsubscribe_link}
use seskit.Sending.Choice.{Chosen, choose_provider-Chosen, unsubscribe_link-one}
use seskit.Sending.Job.{
  JobSettings, JobWorld, ses_adapter, accepted, refused, Outcome, returned, retry, prepare,
  send_found, send_one,
}
use seskit.Sending.Job.Runs.{
  Agrees, send_found-Agrees, accepted_calls, calls_committed, history, history_once, losses,
}
use seskit.Sending.Job.Attempts.{attempts, HasEnded, attempts_end}
use seskit.Sending.Job.Calls.{history-committed}
use seskit.Sending.Job.Own.{IsKeyOf, prepare-own}

-- Every address here is at one domain.
abbrev pub toy_text : TextTools
toy_text = record {
  parseaddr = λ a. ("", a);
  strip = λ a. a;
  lower = λ a. a;
  rpartition_at = λ a. ("me", true, "b.example");
  rstrip_dot = λ a. a;
  rstrip_slash = λ a. a;
  repr = λ a. a;
}

abbrev pub connection : AwsConnection
connection = record {
  project_id = 7;
  region = "eu-west-1";
  aws_access_key_id = some "AKIA1";
  aws_secret_access_key_encrypted = some "gAAAAA";
  status = connected;
  configuration_set = some "seskit-7";
}

abbrev pub identity : Identity
identity = record {
  project_id = 7;
  identity_type = domain;
  value = "b.example";
  verification_status = success;
}

abbrev email : Email
email = record {
  id = 1;
  project_id = 7;
  provider_message_id = none;
  provider = some ses;
  configuration_set = some "seskit-7";
  from_address = "me@b.example";
  from_domain = some "b.example";
  to_addresses = "a@b.example" ∷ [];
  cc_addresses = [];
  bcc_addresses = [];
  reply_to = [];
  subject = "Hello";
  html_body = none;
  text_body = some "Hi";
  headers = [];
  status = queued;
  idempotency_key = none;
  last_error = none;
  sent_at = none;
  delivered_at = none;
  attachments = [];
}

abbrev settings : JobSettings
settings = record {
  secret_key = "key";
  aws_default_region = "us-east-1";
  smtp_host = none;
  smtp_port = 1025;
  smtp_tls = false;
  smtp_user = none;
  smtp_password = none;
  unsubscribe_base_url = some "https://b.example/u";
}

abbrev throttled : ApiError
throttled = record { error_type = provider_error; message = "Throttled." }

-- The provider is busy, and then it takes the message.
abbrev busy : JobWorld
busy = record {
  connections = connection ∷ [];
  decrypt = λ text key. ok "secret";
  transport = λ adapter outbound. refused throttled;
  now = 10;
  is_lost = false;
}

abbrev open_world : JobWorld
open_world = record busy { transport = λ adapter outbound. accepted "ses-1" }

abbrev key_pair : AwsCredentials
key_pair = record { access_key_id = "AKIA1"; secret_access_key = "secret" }

prepare_email : prepare open_world settings email ≡ ok (ses_adapter "eu-west-1" key_pair)
unfolding prepare get_connection stored_credentials find
prepare_email = refl

first_attempt : (send_found toy_text toy_tokens busy settings 1 3 email).outcome ≡ retry 30
unfolding send_found get_connection stored_credentials find
first_attempt = refl

missing : send_one toy_text toy_tokens busy settings 1 3 [] 1 ≡ (returned failed, [], [])
unfolding send_one find
missing = refl

-- The provider takes the message, and the process is lost before that is recorded.
abbrev lost_world : JobWorld
lost_world = record open_world { is_lost = true }

abbrev three_runs : List (JobWorld × ℕ × ℕ)
three_runs = (busy, 1, 3) ∷ (lost_world, 2, 3) ∷ (open_world, 3, 3) ∷ (open_world, 4, 3) ∷ []

history_once_example :
    accepted_calls (history toy_text toy_tokens settings three_runs email).1
    ≤ suc (losses toy_text toy_tokens settings three_runs)
history_once_example = history_once toy_text toy_tokens settings three_runs email

history-committed_example :
    calls_committed false (history toy_text toy_tokens settings three_runs email).1 ≡ true
history-committed_example = history-committed toy_text toy_tokens settings three_runs email false

send_found-Agrees_example : Agrees 1 3 (send_found toy_text toy_tokens busy settings 1 3 email)
send_found-Agrees_example = send_found-Agrees toy_text toy_tokens settings busy 1 3 email

attempts_end_example :
    (end : Outcome × Email) × (attempts toy_text toy_tokens settings 3 (λ _. busy) 1 3 email
      ≡ some end)
    × HasEnded toy_text toy_tokens settings end
attempts_end_example = attempts_end toy_text toy_tokens settings (λ _. busy) 3 email (omega arith)

prepare-own_example :
    (c : AwsConnection) × In c open_world.connections
    × (c.project_id ≡ 7)
    × ("eu-west-1" ≡ c.region)
    × IsKeyOf open_world.decrypt "key" c key_pair
prepare-own_example = prepare-own settings open_world email "eu-west-1" key_pair prepare_email

choose_provider-Chosen_example :
    Chosen toy_text
      (connection ∷ [])
      (identity ∷ [])
      7
      "me@b.example"
      true
      (choose_provider toy_text (connection ∷ []) (identity ∷ []) 7 "me@b.example" true)
choose_provider-Chosen_example =
    choose_provider-Chosen toy_text (connection ∷ []) (identity ∷ []) 7 "me@b.example" true

abbrev link : String
link =
    append "https://b.example/u" (append "/" (unsubscribe_token toy_tokens "key" 7 1 "a@b.example"))

link_email :
    unsubscribe_link toy_text toy_tokens email "key" (some "https://b.example/u") ≡ some link
unfolding unsubscribe_link bare_address
link_email = refl

unsubscribe_link-one_example :
    (one base : String) × (recipients email ≡ one ∷ [])
    × (some "https://b.example/u" ≡ some base)
    × (base ≢ "")
    × (link
        ≡ append (toy_text.rstrip_slash base) (
            append "/" (
              unsubscribe_token toy_tokens "key" email.project_id email.id
                (bare_address toy_text one))))
unsubscribe_link-one_example =
    unsubscribe_link-one toy_text toy_tokens email "key" (some "https://b.example/u") link
      link_email
