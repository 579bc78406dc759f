-- ===== src/Destinations/Tests.antt =====
-- security/destinations.py over a small network: an address is a number, its text is one of four.
use seskit.Base.{
  ℕ, ◌==◌, String, str_eq, true, false, Option, none, some, List, [], ◌∷◌, Result, ok, err,
  if◌then◌else◌, all, any, All, ◌≡◌, refl,
}
use seskit.Destinations.{
  NetTools, ParsedUrl, ValidateError, refused, bad_port, DestinationPolicy, Destination, validate,
  check_url, parse_addresses, is_public, address_allowed, pinned,
}
use seskit.Destinations.Sound.{validate-IsOutside, IsOutside}

-- 127 stands for the loopback address, 1127 for its IPv4-mapped form.
abbrev address_of : String → Option ℕ
address_of t =
    if str_eq t "127.0.0.1"
    then some 127
    else if str_eq t "::ffff:127.0.0.1"
    then some 1127
    else if str_eq t "93.184.216.34"
    then some 93
    else none

abbrev parsed_of : String → Option ParsedUrl
parsed_of url = some (record {
  scheme = if str_eq url "http://hook.example" then "http" else "https";
  username = none;
  password = none;
  hostname = some "hook.example";
})

-- Its port is out of range, which nothing checks before the URL is pinned.
abbrev pub bad_hook : String
bad_hook = "https://hook.example:99999"

abbrev pub toy_net : NetTools
toy_net = record {
  Address = ℕ;
  Network = ℕ;
  ip_address = address_of;
  in_network = λ a n. a == n;
  ipv4_mapped = λ a. if a == 1127 then some 127 else none;
  is_loopback = λ a. a == 127;
  is_private = λ _. false;
  is_link_local = λ _. false;
  is_multicast = λ _. false;
  is_reserved = λ _. false;
  is_unspecified = λ _. false;
  urlparse = parsed_of;
  text_length = λ _. 20;
  is_v6 = λ a. a == 1127;
  address_text = λ a. if a == 93 then "93.184.216.34" else "127.0.0.1";
  urlsplit = λ url. record {
    scheme = "https";
    netloc = "hook.example";
    path = "";
    query = "";
    fragment = "";
  };
  port_text = λ url. if str_eq url bad_hook then err bad_port else ok none;
  urlunsplit = λ parts. parts.netloc;
}

abbrev pub strict : DestinationPolicy toy_net
strict = record { allow_private = false; allowed_networks = []; require_https = true }

abbrev pub public_answer : String → Result ValidateError (List String)
public_answer host = ok ("93.184.216.34" ∷ [])

-- What a rebinding name answers: one public address, and the loopback in disguise.
abbrev mixed_answer : String → Result ValidateError (List String)
mixed_answer host = ok ("93.184.216.34" ∷ "::ffff:127.0.0.1" ∷ [])

abbrev pub hook : String
hook = "https://hook.example"

abbrev pub hook_destination : Destination toy_net
hook_destination = record { url = hook; host = "hook.example"; addresses = 93 ∷ [] }

unfoldable pub run_check : Unit {0}
unfolding validate check_url parse_addresses address_allowed is_public all any pinned
run_check = tt

pub validate-hook : validate toy_net strict public_answer hook ≡ ok hook_destination
unfolding run_check
validate-hook = refl

validate_mixed : validate toy_net strict mixed_answer hook ≡ err refused
unfolding run_check
validate_mixed = refl

validate_plain_http : validate toy_net strict public_answer "http://hook.example" ≡ err refused
unfolding run_check
validate_plain_http = refl

check_hook : check_url toy_net strict hook ≡ ok "hook.example"
unfolding run_check
check_hook = refl

mixed_parsed :
    parse_addresses toy_net ("93.184.216.34" ∷ "::ffff:127.0.0.1" ∷ []) ≡ ok (93 ∷ 1127 ∷ [])
unfolding run_check
mixed_parsed = refl

validate-IsOutside_example : All (IsOutside toy_net strict refl refl) (93 ∷ [])
validate-IsOutside_example =
    validate-IsOutside toy_net strict refl refl public_answer hook hook_destination validate-hook
