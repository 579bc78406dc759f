-- ===== src/Destinations/Sound.antt =====
-- security/destinations.py: what a URL that passed `validate` is known to be.
use seskit.Base.{
  ◌≤◌, String, eq_iff, Bool, true, false, ◌&&◌, not, none, some, List, [], ◌∷◌, Result, ok, err,
  >>=-ok, if◌then◌else◌, is_some, any, all, All, ◌≡◌, ◌≢◌, refl, arith, ◌⊎◌, inl, inr, Option-cases,
}
use seskit.Destinations.{
  NetTools, ParsedUrl, ValidateError, refused, DestinationPolicy, Destination, pinned, is_public,
  address_allowed, check_url, check_parsed, check_answers, parse_addresses, validate, truthy,
  max_url_length,
}

abbrev pub is_nil {ℓ} : {A : Type ℓ} → List A → Bool
is_nil [] = true
is_nil (_ ∷ _) = false

module _ (net : NetTools) (policy : DestinationPolicy net) where
  open net use {Address, urlparse, text_length, ipv4_mapped}

  -- What the checks of the text guarantee.
  pub record TextPassed (parsed : ParsedUrl) (host : String) : Type 0 where
    pub scheme_allowed :
        (parsed.scheme ≡ "https") ⊎ ((parsed.scheme ≡ "http") × (policy.require_https ≡ false))
    pub no_username : truthy parsed.username ≡ false
    pub no_password : truthy parsed.password ≡ false
    pub host_given : parsed.hostname ≡ some host
    pub host_ne : host ≢ ""

  check_parsed_ok :
      (parsed : ParsedUrl) (host : String)
      → check_parsed net policy parsed ≡ ok host
      → TextPassed parsed host
  unfolding check_parsed
  check_parsed_ok parsed host h =
      ground (arith, eq_iff parsed.scheme "http", eq_iff parsed.scheme "https", eq_iff host "")

  -- A URL whose text passed is short, has a scheme that the policy permits, no credentials, and the
  -- returned host, which is not empty.
  pub check_url_ok :
      (url host : String)
      → check_url net policy url ≡ ok host
      → (text_length url ≤ max_url_length)
        × ((parsed : ParsedUrl) × (urlparse url ≡ some parsed) × TextPassed parsed host)
  unfolding check_url
  check_url_ok url host h = elim (Option-cases (urlparse url)) [
    | inl e ↦ absurd (ground (arith, e))
    | inr (parsed, e) ↦
        (ground (arith, e), (parsed, e, check_parsed_ok parsed host (ground (arith, e))))
  ]

  -- What the checks of the resolver's answers guarantee.
  pub record AnswersPassed (raw : List String) (d : Destination net) : Type 0 where
    pub parsed : parse_addresses net raw ≡ ok d.addresses
    pub allowed : all (address_allowed net policy) d.addresses ≡ true
    pub connects : is_some (pinned net d) ≡ true

  parse_addresses_cons :
      (r : String) (raw : List String) (found : List Address)
      → parse_addresses net (r ∷ raw) ≡ ok found
      → (a : Address) × (rest : List Address) × (found ≡ a ∷ rest)
  unfolding parse_addresses
  parse_addresses_cons r raw [] h = absurd (ground arith)
  parse_addresses_cons r raw (a ∷ rest) h = (a, rest, refl)

  pinned_some :
      (d : Destination net) (a : Address) (rest : List Address)
      → d.addresses ≡ a ∷ rest
      → is_some (pinned net d) ≡ true
  unfolding pinned
  pinned_some d a rest h = ground arith

  check_answers_ok :
      (url host : String) (raw : List String) (d : Destination net)
      → check_answers net policy url host raw ≡ ok d
      → (d.url ≡ url) × (d.host ≡ host) × AnswersPassed raw d
  unfolding check_answers
  check_answers_ok url host [] d h = absurd (cc)
  check_answers_ok url host (r ∷ raw) d h =
      let (found, parsed, rest) = >>=-ok (parse_addresses net (r ∷ raw)) _ h in
      let (a, more, cons) = parse_addresses_cons r raw found parsed in
      (
        ground arith,
        ground arith,
        record {
          parsed = ground arith;
          allowed = ground arith;
          connects = pinned_some d a more (ground arith);
        },
      )

  -- Whatever the resolver answers, a URL that passed has a permitted text, the resolver's addresses
  -- are all allowed by the policy, and there is one to connect to.
  pub validate_sound :
      (resolve : String → Result ValidateError (List String)) (url : String) (d : Destination net)
      → validate net policy resolve url ≡ ok d
      → (d.url ≡ url)
        × (check_url net policy url ≡ ok d.host)
        × ((raw : List String) × (resolve d.host ≡ ok raw) × AnswersPassed raw d)
  unfolding validate
  validate_sound resolve url d h =
      let (host, checked, later) = >>=-ok (check_url net policy url) _ h in
      let (raw, resolved, last) = >>=-ok (resolve host) _ later in
      let (same_url, same_host, answers) = check_answers_ok url host raw d last in
      (same_url, rw same_host checked, (raw, rw same_host resolved, answers))

  answers_none :
      (url host : String) (found : List Address)
      → parse_addresses net [] ≡ ok found
      → check_answers net policy url host [] ≡ (
          if all (address_allowed net policy) found && not (is_nil found)
          then ok (record { url = url; host = host; addresses = found })
          else err refused)
  unfolding check_answers parse_addresses
  answers_none url host found p = ground (arith)

  answers_some :
      (url host r : String) (raw : List String) (found : List Address)
      → parse_addresses net (r ∷ raw) ≡ ok found
      → check_answers net policy url host (r ∷ raw) ≡ (
          if all (address_allowed net policy) found && not (is_nil found)
          then ok (record { url = url; host = host; addresses = found })
          else err refused)
  unfolding check_answers
  answers_some url host r raw found p = ground (arith, parse_addresses_cons r raw found p)

  -- A name is accepted or refused by exactly this test of what it resolves to: one disallowed
  -- answer among any number of allowed ones refuses it, and so does an empty or unreadable answer.
  pub validate_exact :
      (resolve : String → Result ValidateError (List String)) (url host : String)
      (raw : List String) (found : List Address)
      → check_url net policy url ≡ ok host
      → resolve host ≡ ok raw
      → parse_addresses net raw ≡ ok found
      → validate net policy resolve url ≡ (
          if all (address_allowed net policy) found && not (is_nil found)
          then ok (record { url = url; host = host; addresses = found })
          else err refused)
  unfolding validate
  validate_exact resolve url host raw found checked resolved parsed =
      rw (checked, resolved) (answers raw found parsed)
    where
      answers :
          (raw : List String) (found : List Address)
          → parse_addresses net raw ≡ ok found
          → check_answers net policy url host raw ≡ (
              if all (address_allowed net policy) found && not (is_nil found)
              then ok (record { url = url; host = host; addresses = found })
              else err refused)
      answers [] found p = answers_none url host found p
      answers (r ∷ more) found p = answers_some url host r more found p

module _ (net : NetTools) (policy : DestinationPolicy net)
    (private_closed : policy.allow_private ≡ false) (no_ranges : policy.allowed_networks ≡ []) where
  open net use {Address}

  -- What a connection to an address reaches: an IPv4-mapped address is the IPv4 one.
  pub reached : Address → Address
  reached a = elim (net.ipv4_mapped a) [ none ↦ a | some v4 ↦ v4 ]

  -- An address that no rule keeps inside.
  pub record IsOutside (a : Address) : Type 0 where
    pub not_loopback : net.is_loopback (reached a) ≡ false
    pub not_private : net.is_private (reached a) ≡ false
    pub not_link_local : net.is_link_local (reached a) ≡ false
    pub not_multicast : net.is_multicast (reached a) ≡ false
    pub not_reserved : net.is_reserved (reached a) ≡ false
    pub not_unspecified : net.is_unspecified (reached a) ≡ false

  is_public-IsOutside : (a : Address) → is_public net a ≡ true → IsOutside a
  unfolding is_public reached
  is_public-IsOutside a h = record {
    not_loopback = ground (arith, h);
    not_private = ground (arith, h);
    not_link_local = ground (arith, h);
    not_multicast = ground (arith, h);
    not_reserved = ground (arith, h);
    not_unspecified = ground (arith, h);
  }

  allowed-IsOutside :
      (found : List Address) → all (address_allowed net policy) found ≡ true → All IsOutside found
  unfolding all address_allowed any
  allowed-IsOutside [] h = tt
  allowed-IsOutside (a ∷ found) h =
      (is_public-IsOutside a (ground (arith, h)), allowed-IsOutside found (ground (arith, h)))

  -- Under a policy without private addresses and without permitted ranges, every address of an
  -- accepted destination is outside: what it reaches, which is the IPv4 address that it maps or else
  -- itself, is no loopback, private, link-local, multicast, reserved or unspecified address.
  pub validate-IsOutside :
      (resolve : String → Result ValidateError (List String)) (url : String) (d : Destination net)
      → validate net policy resolve url ≡ ok d
      → All IsOutside d.addresses
  validate-IsOutside resolve url d h =
      let (_, _, (_, _, answers)) = validate_sound net policy resolve url d h in
      allowed-IsOutside d.addresses answers.allowed
