-- ===== src/Destinations.antt =====
-- security/destinations.py: whether the instance may POST to a URL that a user typed. The standard
-- library's `ipaddress` and `urlparse`, the names of the network and DNS are a parameter.
pub mod Sound
pub mod Tests
use seskit.Base.{
  ℕ, leb, ltb, String, str_eq, Bool, true, false, ◌&&◌, ◌||◌, not, Option, none, some, List, [],
  ◌∷◌, Result, ok, err, ◌>>=◌, ◌>>◌, if◌then◌else◌, is_some, any, all,
}

-- What `urlparse` gives; a missing part is `none`.
pub record ParsedUrl : Type 0 where
  pub scheme : String
  pub username : Option String
  pub password : Option String
  pub hostname : Option String

-- What `urlsplit` gives, and `urlunsplit` takes.
pub record UrlParts : Type 0 where
  pub scheme : String
  pub netloc : String
  pub path : String
  pub query : String
  pub fragment : String

-- `parts.port` raises a `ValueError`.
pub data PortError : Type 0 where
  bad_port : PortError

-- `ipaddress` and `urllib.parse`. `text_length` is `len` of a text; `none` is a `ValueError`.
pub record NetTools : Type 1 where
  pub Address : Type 0
  pub Network : Type 0
  pub ip_address : String → Option Address
  pub in_network : Address → Network → Bool
  -- `None` for every IPv4 address, and for an IPv6 address that maps none.
  pub ipv4_mapped : Address → Option Address
  pub is_loopback : Address → Bool
  pub is_private : Address → Bool
  pub is_link_local : Address → Bool
  pub is_multicast : Address → Bool
  pub is_reserved : Address → Bool
  pub is_unspecified : Address → Bool
  pub urlparse : String → Option ParsedUrl
  pub text_length : String → ℕ
  pub is_v6 : Address → Bool
  pub address_text : Address → String
  pub urlsplit : String → UrlParts
  -- `parts.port` of a split URL, in decimal; `none` where it is missing or zero.
  pub port_text : String → Result PortError (Option String)
  pub urlunsplit : UrlParts → String

-- `DestinationError`, or the `UnicodeError` that the default resolver lets through.
pub data ValidateError : Type 0 where
  refused unicode_error : ValidateError

abbrev pub max_url_length : ℕ
max_url_length = 2048

-- An empty text is false.
abbrev pub truthy : Option String → Bool
truthy none = false
truthy (some s) = not (str_eq s "")

module _ (net : NetTools) where
  open net use {
    Address, Network, ip_address, in_network, ipv4_mapped, is_loopback, is_private, is_link_local,
    is_multicast, is_reserved, is_unspecified, urlparse, text_length,
  }

  pub record DestinationPolicy : Type 0 where
    pub allow_private : Bool
    pub allowed_networks : List Network
    pub require_https : Bool

  pub record Destination : Type 0 where
    pub url : String
    pub host : String
    pub addresses : List Address

  -- `addresses[0]`, which raises on an empty list.
  unfoldable pub pinned : Destination → Option Address
  pinned d = elim d.addresses [ [] ↦ none | a ∷ _ ↦ some a ]

  abbrev pub unmapped : Address → Address
  unmapped address = elim (ipv4_mapped address) [ none ↦ address | some v4 ↦ v4 ]

  unfoldable pub is_public : Address → Bool
  is_public address =
      let a = unmapped address in
      not (
        is_loopback a
        || is_private a
        || is_link_local a
        || is_multicast a
        || is_reserved a
        || is_unspecified a)

  unfoldable pub address_allowed : DestinationPolicy → Address → Bool
  unfolding is_public
  address_allowed policy address =
      if any (in_network address) policy.allowed_networks
      then true
      else if is_public address
      then true
      else policy.allow_private

  check_parsed : DestinationPolicy → ParsedUrl → Result ValidateError String
  check_parsed policy parsed =
      if not (str_eq parsed.scheme "http" || str_eq parsed.scheme "https")
      then err refused
      else if policy.require_https && not (str_eq parsed.scheme "https")
      then err refused
      else if truthy parsed.username || truthy parsed.password
      then err refused
      else elim parsed.hostname [
        | none ↦ err refused
        | some host ↦ if str_eq host "" then err refused else ok host
      ]

  -- Everything that is decidable from the text alone.
  unfoldable pub check_url : DestinationPolicy → String → Result ValidateError String
  unfolding check_parsed
  check_url policy url =
      if str_eq url "" || ltb max_url_length (text_length url)
      then err refused
      else elim (urlparse url) [ none ↦ err refused | some parsed ↦ check_parsed policy parsed ]

  -- The loop over `ip_address(item)`.
  unfoldable pub parse_addresses : List String → Result ValidateError (List Address)
  parse_addresses [] = ok []
  parse_addresses (item ∷ raw) =
      let rest = parse_addresses raw in
      elim (ip_address item) [
        | none ↦ err refused
        | some a ↦ elim rest [ ok more ↦ ok (a ∷ more) | err e ↦ err e ]
      ]

  -- One disallowed answer refuses the whole name.
  check_answers :
      DestinationPolicy → String → String → List String → Result ValidateError Destination
  unfolding parse_addresses address_allowed
  check_answers policy url host [] = err refused
  check_answers policy url host (r ∷ raw) = do
    addresses ← parse_addresses (r ∷ raw)
    if all (address_allowed policy) addresses
        then ok (record { url = url; host = host; addresses = addresses })
        else err refused

  -- `resolve` is the injected resolver, or `getaddrinfo`, whose `OSError` is a refusal and
  -- whose `UnicodeError` is not caught.
  unfoldable pub validate :
      DestinationPolicy
      → (resolve : String → Result ValidateError (List String)) → String
      → Result ValidateError Destination
  unfolding check_url check_answers
  validate policy resolve url = do
    host ← check_url policy url
    raw ← resolve host
    check_answers policy url host raw
