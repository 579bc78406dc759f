-- ===== src/OneClick/Tests.antt =====
-- The API's routes/unsubscribe.py on one stored message.
use seskit.Base.{
  ℕ, ◌==◌, ◌&&◌, str_eq, false, String, true, none, some, [], ◌∷◌, ok, err, find, any, ◌≡◌, refl,
  ◌⊎◌,
}
use seskit.Address.{bare_address}
use seskit.Emails.{Email, sent, ses}
use seskit.Unsubscribe.{unsubscribe_token, read_token, token_matches, is_ascii, sign}
use seskit.Unsubscribe.Tests.{toy_tokens, toy-IsReadable, odd_token}
use seskit.Sending.Tests.{toy_text}
use seskit.Ingest.{Ledger, Ids}
use seskit.OneClick.{invalid, shown, type_error, is_recipient, resolve, press}
use seskit.OneClick.Works.{IsListed, press-token}
use seskit.OneClick.Checked.{listed, IsGenuine, press-IsGenuine}

abbrev email : Email
email = record {
  id = 1;
  project_id = 7;
  provider_message_id = some "ses-1";
  provider = some ses;
  configuration_set = none;
  from_address = "me@b.example";
  from_domain = some "b.example";
  to_addresses = "a@b.example" ∷ [];
  cc_addresses = [];
  bcc_addresses = [];
  reply_to = [];
  subject = "News";
  html_body = none;
  text_body = some "Hi";
  headers = [];
  status = sent;
  idempotency_key = none;
  last_error = none;
  sent_at = some 80;
  delivered_at = some 81;
  attachments = [];
}

abbrev ledger : Ledger
ledger = record {
  emails = email ∷ [];
  inbound_emails = [];
  events = [];
  suppressions = [];
  hooks = record { endpoints = []; deliveries = [] };
}

abbrev ids : Ids
ids = record {
  event = 1;
  notice = 2;
  suppression = λ k. k;
  delivery = λ e. e;
  notice_delivery = λ e. e;
}

bare_address_twice :
    bare_address toy_text (bare_address toy_text "a@b.example")
    ≡ bare_address toy_text "a@b.example"
unfolding bare_address
bare_address_twice = refl

press-token_example :
    (out : Ledger) × (press toy_text toy_tokens "key" ids 100 ledger
        (unsubscribe_token toy_tokens "key" 7 1 "a@b.example")
      ≡ ok (shown "a@b.example" true, out))
    × IsListed toy_text out 7 "a@b.example"
press-token_example =
    press-token toy_text toy_tokens "key" ids 100 ledger email "a@b.example" bare_address_twice
      (unfold find in refl) (unfold is_recipient bare_address any in refl) toy-IsReadable
      (unfold is_ascii in refl) (unfold sign is_ascii in refl)

-- A token that cannot be read changes nothing.
abbrev no_token : String
no_token = "ZW0x"

press_nothing : press toy_text toy_tokens "key" ids 100 ledger no_token ≡ ok (invalid, ledger)
unfolding press read_token
press_nothing = refl

press-IsGenuine_example :
    (ledger ≡ ledger)
    ⊎ ((email : Email) × (address : String) × IsGenuine toy_text toy_tokens "key" ledger.emails
          no_token email address
        × ((q : ℕ) (x : String)
            → (email.project_id == q && str_eq (bare_address toy_text address) x) ≡ false
            → listed toy_text toy_tokens "key" q x ledger
              ≡ listed toy_text toy_tokens "key" q x ledger))
press-IsGenuine_example =
    press-IsGenuine toy_text toy_tokens "key" ids 100 ledger ledger no_token invalid press_nothing

-- For a message that is stored, an odd token is told apart from one of no message.
resolve_odd : resolve toy_text toy_tokens "key" ledger.emails odd_token ≡ err type_error
unfolding resolve find read_token token_matches
resolve_odd = refl

resolve_unknown : resolve toy_text toy_tokens "key" [] odd_token ≡ ok none
unfolding resolve find read_token
resolve_unknown = refl
