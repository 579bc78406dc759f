-- ===== src/Sending/Choice.antt =====
-- services/sending.py: who carries a message, and whom a one-click link is for.
use Prim.Native.String.{◌++◌ as append}
use seskit.Base.{
  ℕ, ◌==◌, ==_iff, ◌&&◌, String, str_eq, eq_iff, Bool, true, false, Option, none, some, List, [],
  ◌∷◌, find, Result, ok, err, ◌≡◌, ◌≢◌, refl, sym, ◌∙◌, arith, Bool-cases, inl, inr, ◌⊎◌,
}
use seskit.Members.{In, In-any, any-In}
use seskit.Errors.{ApiError}
use seskit.Address.{TextTools, bare_address}
use seskit.Aws.{
  AwsConnection, connected, Identity, IdentityType, domain, email_address, success, is_connected,
  is_success, get_connection, sender_domain, identity_covers, sender_is_verified,
}
use seskit.Emails.{EmailProvider, ses, smtp, Email, recipients}
use seskit.Unsubscribe.{TokenTools, unsubscribe_token}
use seskit.Sending.{
  has_connected, choose_provider, no_provider, not_verified, link_for, unsubscribe_link,
}

-- The project's connection, and that its last check succeeded.
unfoldable pub IsConnected : List AwsConnection → ℕ → Type 0
IsConnected connections project_id =
    (c : AwsConnection) × (find (λ row. row.project_id == project_id) connections ≡ some c)
    × (c.status ≡ connected)

IsConnected-or :
    (connections : List AwsConnection) (project_id : ℕ) (found : Option AwsConnection)
    → find (λ row. row.project_id == project_id) connections ≡ found
    → ((has_connected found ≡ true) × IsConnected connections project_id)
      ⊎ ((has_connected found ≡ false) × (¬ IsConnected connections project_id))
unfolding has_connected IsConnected is_connected
IsConnected-or connections project_id none h = inr (refl, λ (c, found, _). absurd (cc))
IsConnected-or connections project_id (some c) h = elim (Bool-cases (is_connected c)) [
  | inl is_on ↦ inl (is_on, (c, h, ground (arith, is_on)))
  | inr is_off ↦ inr (is_off, λ (d, found, is_on). absurd (ground (arith, h, found, is_on, is_off)))
]

module _ (tools : TextTools) (identities : List Identity) (project_id : ℕ) (sender : String) where
  -- An identity of the project that SES has verified, for the sender's address or its domain.
  unfoldable pub IsVerified : Type 0
  IsVerified =
      (sender_domain tools sender ≢ "")
      × ((identity : Identity) × In identity identities
          × (identity.project_id ≡ project_id)
          × (identity.verification_status ≡ success)
          × (((identity.identity_type ≡ email_address)
                × (tools.lower identity.value ≡ bare_address tools sender))
              ⊎ ((identity.identity_type ≡ domain)
                  × (tools.lower identity.value ≡ sender_domain tools sender))))

  abbrev test : Identity → Bool
  test identity =
      (identity.project_id == project_id && is_success identity)
      && identity_covers tools (bare_address tools sender) (sender_domain tools sender) identity

  covers-or :
      (identity : Identity)
      → identity_covers tools (bare_address tools sender) (sender_domain tools sender) identity
        ≡ true
      → ((identity.identity_type ≡ email_address)
          × (tools.lower identity.value ≡ bare_address tools sender))
        ⊎ ((identity.identity_type ≡ domain)
            × (tools.lower identity.value ≡ sender_domain tools sender))
  unfolding identity_covers
  covers-or identity h = by_type identity.identity_type refl
    where
      by_type :
          (kind : IdentityType)
          → identity.identity_type ≡ kind
          → ((identity.identity_type ≡ email_address)
              × (tools.lower identity.value ≡ bare_address tools sender))
            ⊎ ((identity.identity_type ≡ domain)
                × (tools.lower identity.value ≡ sender_domain tools sender))
      by_type email_address is = inl (
        is,
        (eq_iff (tools.lower identity.value) (bare_address tools sender)).0 (ground (arith, h, is)),
      )
      by_type domain is = inr (
        is,
        (eq_iff (tools.lower identity.value) (sender_domain tools sender)).0
            (ground (arith, h, is)),
      )

  success-is :
      (identity : Identity) → is_success identity ≡ true → identity.verification_status ≡ success
  unfolding is_success
  success-is identity h = ground (arith, h)

  verified-IsVerified : sender_is_verified tools identities project_id sender ≡ true → IsVerified
  unfolding sender_is_verified IsVerified
  verified-IsVerified h = elim (Bool-cases (str_eq (sender_domain tools sender) "")) [
    | inl empty ↦ absurd (ground (arith, h, empty))
    | inr given ↦
        let (identity, here, passes) = any-In test identities (ground (arith, h, given)) in
        (
          ground (arith, given, eq_iff (sender_domain tools sender) ""),
          (
            identity,
            here,
            (==_iff identity.project_id project_id).0 (ground (arith, passes)),
            success-is identity (ground (arith, passes)),
            covers-or identity (ground (arith, passes)),
          ),
        )
  ]

  IsVerified-test :
      (identity : Identity)
      → identity.project_id ≡ project_id
      → identity.verification_status ≡ success
      → ((identity.identity_type ≡ email_address)
          × (tools.lower identity.value ≡ bare_address tools sender))
        ⊎ ((identity.identity_type ≡ domain)
            × (tools.lower identity.value ≡ sender_domain tools sender))
      → test identity ≡ true
  unfolding is_success identity_covers
  IsVerified-test identity own good (inl (is, covers)) = ground (
    arith,
    (==_iff identity.project_id project_id).1 own,
    good,
    is,
    (eq_iff (tools.lower identity.value) (bare_address tools sender)).1 covers,
  )
  IsVerified-test identity own good (inr (is, covers)) = ground (
    arith,
    (==_iff identity.project_id project_id).1 own,
    good,
    is,
    (eq_iff (tools.lower identity.value) (sender_domain tools sender)).1 covers,
  )

  IsVerified-verified : IsVerified → sender_is_verified tools identities project_id sender ≡ true
  unfolding sender_is_verified IsVerified
  IsVerified-verified (given, (identity, here, own, good, covers)) = ground (
    arith,
    given,
    eq_iff (sender_domain tools sender) "",
    In-any test identity identities here (IsVerified-test identity own good covers),
  )

module _ (tools : TextTools) (connections : List AwsConnection) (identities : List Identity)
    (project_id : ℕ) (sender : String) (smtp_configured : Bool) where
  -- What an answer of `choose_provider` means.
  pub Chosen : Result ApiError EmailProvider → Type 0
  Chosen (ok ses) =
      IsConnected connections project_id × IsVerified tools identities project_id sender
  Chosen (ok smtp) = (¬ IsConnected connections project_id) × (smtp_configured ≡ true)
  Chosen (err error) =
      (IsConnected connections project_id
        × (¬ IsVerified tools identities project_id sender)
        × (error ≡ not_verified tools sender))
      ⊎ ((¬ IsConnected connections project_id) × (smtp_configured ≡ false) × (error ≡ no_provider))

  -- SES carries a message exactly for a project whose own connection passed its last check and that
  -- has a verified identity for the sender's address or domain; SMTP exactly for a project without
  -- such a connection on an instance with SMTP. A connected project's unverified sender is refused,
  -- never handed to SMTP.
  pub choose_provider-Chosen :
      Chosen (choose_provider tools connections identities project_id sender smtp_configured)
  unfolding choose_provider Chosen get_connection
  choose_provider-Chosen =
      elim (IsConnected-or connections project_id
        (find (λ row. row.project_id == project_id) connections) refl) [
          | inl (is_on, is) ↦
              elim (Bool-cases (sender_is_verified tools identities project_id sender)) [
                | inl good ↦
                    rw (is_on, good)
                      (is, verified-IsVerified tools identities project_id sender good)
                | inr bad ↦
                    rw (is_on, bad)
                      (inl (
                        is,
                        λ v.
                            false_true
                              (sym bad ∙ IsVerified-verified tools identities project_id sender v),
                        refl,
                      ))
              ]
          | inr (is_off, isnt) ↦ elim (Bool-cases smtp_configured) [
            | inl smtp_on ↦ rw (is_off, smtp_on) (isnt, refl)
            | inr smtp_off ↦ rw (is_off, smtp_off) (inr (isnt, refl, refl))
          ]
        ]
    where
      false_true : false ≡ true → ⊥
      false_true h = ground (arith, h)

module _ (tools : TextTools) (tokens : TokenTools) where
  link_for-one :
      (email : Email) (secret base : String) (everyone : List String) (link : String)
      → link_for tools tokens email secret base everyone ≡ some link
      → (one : String) × (everyone ≡ one ∷ [])
        × (link
            ≡ append (tools.rstrip_slash base) (
                append "/" (
                  unsubscribe_token tokens secret email.project_id email.id
                    (bare_address tools one))))
  unfolding link_for
  link_for-one email secret base [] link h = absurd (cc)
  link_for-one email secret base (one ∷ another ∷ rest) link h = absurd (cc)
  link_for-one email secret base (one ∷ []) link h = (one, refl, ground arith)

  -- A link is given only for a message to one person, blind copies counted, on an instance with a
  -- public URL, and it carries the token of that person and this message.
  pub unsubscribe_link-one :
      (email : Email) (secret : String) (base_url : Option String) (link : String)
      → unsubscribe_link tools tokens email secret base_url ≡ some link
      → (one base : String) × (recipients email ≡ one ∷ [])
        × (base_url ≡ some base)
        × (base ≢ "")
        × (link
            ≡ append (tools.rstrip_slash base) (
                append "/" (
                  unsubscribe_token tokens secret email.project_id email.id
                    (bare_address tools one))))
  unfolding unsubscribe_link
  unsubscribe_link-one email secret none link h = absurd (cc)
  unsubscribe_link-one email secret (some base) link h = elim (Bool-cases (str_eq base "")) [
    | inl empty ↦ absurd (ground (arith, h, empty))
    | inr given ↦
        let (one, only, is) =
          link_for-one email secret base (recipients email) link (ground (arith, h, given)) in
        (one, base, only, refl, ground (arith, eq_iff base "", given), is)
  ]
