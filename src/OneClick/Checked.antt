-- ===== src/OneClick/Checked.antt =====
-- The API's routes/unsubscribe.py: nothing is written for a token that this instance did not sign.
use seskit.Base.{
  ℕ, ◌==◌, ◌&&◌, String, str_eq, Bool, true, false, Option, none, some, List, [], ◌∷◌, map, any,
  Result, ok, err, >>=-ok, find, ◌≡◌, refl, sym, ap, ◌∙◌, arith, Option-cases, Bool-cases, inl, inr,
  ◌⊎◌,
}
use seskit.Address.{TextTools, bare_address}
use seskit.Emails.{Email, recipients}
use seskit.Suppression.{
  unsubscribe, contains, find_suppression, is_live, DatabaseError, SuppressedAddress,
}
use seskit.Unsubscribe.{TokenTools, read_token, token_matches}
use seskit.Ingest.{Ledger, Ids, record_suppression_event}
use seskit.Ingest.Scope.{suppress-elsewhere}
use seskit.OneClick.{Page, from_database, is_recipient, check_owner, resolve, press_for, press}

module _ (tools : TextTools) (tokens : TokenTools) (secret : String) where
  -- What is known of the message and the address that a token led to: the token names both, the
  -- message is stored, the signature is this instance's for its project, and it went to the address.
  pub record IsGenuine (emails : List Email) (token : String) (email : Email) (address : String)
      : Type 0 where
    pub named :
        (id : String) × (read_token tokens token ≡ some (id, address))
        × (find (λ e. str_eq (tokens.id_text e.id) id) emails ≡ some email)
    pub signed : token_matches tokens secret email.project_id token ≡ some true
    pub received : any (λ one. str_eq address (bare_address tools one)) (recipients email) ≡ true

  received-contains :
      (address : String) (everyone : List String)
      → contains address (map (bare_address tools) everyone) ≡ true
      → any (λ one. str_eq address (bare_address tools one)) everyone ≡ true
  unfolding contains any
  received-contains address [] h = h
  received-contains address (one ∷ everyone) h =
      ground (arith, h, received-contains address everyone)

  checked-owner :
      (emails : List Email) (token id : String) (owner : Email) (named : String)
      (answer : Option Bool)
      → token_matches tokens secret owner.project_id token ≡ answer
      → read_token tokens token ≡ some (id, named)
      → find (λ e. str_eq (tokens.id_text e.id) id) emails ≡ some owner
      → (email : Email) (address : String)
      → check_owner tools tokens secret owner named answer ≡ ok (some (email, address))
      → IsGenuine emails token email address
  unfolding check_owner
  checked-owner emails token id owner named none matches read found email address h = absurd (cc)
  checked-owner emails token id owner named (some false) matches read found email address h =
      absurd (cc)
  checked-owner emails token id owner named (some true) matches read found email address h =
      elim (Bool-cases (is_recipient tools tokens secret owner named)) [
        | inl is ↦
            let same : owner ≡ email = ground (arith, h, is) in
            let same_address : named ≡ address = ground (arith, h, is) in
            rw (sym same, sym same_address)
              (record {
                named = (id, read, found);
                signed = matches;
                received = received-contains named (recipients owner) (unfold is_recipient in is);
              })
        | inr isnt ↦ absurd (ground (arith, h, isnt))
      ]

  resolve-IsGenuine :
      (emails : List Email) (token : String) (email : Email) (address : String)
      → resolve tools tokens secret emails token ≡ ok (some (email, address))
      → IsGenuine emails token email address
  unfolding resolve
  resolve-IsGenuine emails token email address h = elim (Option-cases (read_token tokens token)) [
    | inl unread ↦ absurd (ground (arith, h, unread))
    | inr ((id, named), read) ↦
        elim (Option-cases (find (λ e. str_eq (tokens.id_text e.id) id) emails)) [
          | inl lost ↦ absurd (ground (arith, h, read, lost))
          | inr (owner, found) ↦
              checked-owner emails token id owner named _ refl read found email address
                (ground (arith, h, read, found))
        ]
  ]

  -- Which live row is found for a project and a reduced address.
  abbrev pub listed : ℕ → String → Ledger → Option SuppressedAddress
  listed q x ledger = find (is_live q x) ledger.suppressions

  from_database-ok :
      {A : Type 0} (result : Result DatabaseError A) (a : A)
      → from_database result ≡ ok a
      → result ≡ ok a
  unfolding from_database
  from_database-ok (ok b) a h = ground (arith, h)
  from_database-ok (err e) a h = absurd (cc)

  press_for-elsewhere :
      (ids : Ids) (now : ℕ) (ledger out : Ledger) (email : Email) (address : String)
      (found : Option SuppressedAddress) (page : Page) (q : ℕ) (x : String)
      → press_for tools tokens secret ids now ledger email address found ≡ ok (page, out)
      → (email.project_id == q && str_eq (bare_address tools address) x) ≡ false
      → listed q x out ≡ listed q x ledger
  unfolding press_for record_suppression_event
  press_for-elsewhere ids now ledger out email address (some already) page q x h other =
      ground (arith, h)
  press_for-elsewhere ids now ledger out email address none page q x h other =
      let ((table, row), made, h') = >>=-ok (from_database _) _ h in
      let kept =
        suppress-elsewhere (bare_address tools) ledger.suppressions (ids.suppression 0)
          email.project_id address unsubscribe none (some "Unsubscribed from an email.") table row q
          x (from_database-ok _ (table, row) made) other in
      let same : table ≡ out.suppressions = ground (arith, h') in
      ap (find (is_live q x)) (sym same) ∙ kept

  -- A request changes nothing unless its token names a stored message and an address that the
  -- message went to, with this instance's signature for the message's project. Then it changes what
  -- the suppression lists say of that address in that project, and of no other.
  pub press-IsGenuine :
      (ids : Ids) (now : ℕ) (ledger out : Ledger) (token : String) (page : Page)
      → press tools tokens secret ids now ledger token ≡ ok (page, out)
      → (out ≡ ledger)
        ⊎ ((email : Email) × (address : String) × IsGenuine ledger.emails token email address
            × ((q : ℕ) (x : String)
                → (email.project_id == q && str_eq (bare_address tools address) x) ≡ false
                → listed q x out ≡ listed q x ledger))
  unfolding press
  press-IsGenuine ids now ledger out token page h =
      let (resolved, found, _) = >>=-ok (resolve tools tokens secret ledger.emails token) _ h in
      by_resolved resolved found
    where
      by_resolved :
          (resolved : Option (Email × String))
          → resolve tools tokens secret ledger.emails token ≡ ok resolved
          → (out ≡ ledger)
            ⊎ ((email : Email) × (address : String) × IsGenuine ledger.emails token email address
                × ((q : ℕ) (x : String)
                    → (email.project_id == q && str_eq (bare_address tools address) x) ≡ false
                    → listed q x out ≡ listed q x ledger))
      by_resolved none found = inl (ground (arith, h, found))
      by_resolved (some (email, address)) found = inr (
        email,
        address,
        resolve-IsGenuine ledger.emails token email address found,
        λ q x other.
            press_for-elsewhere ids now ledger out email address
              (find_suppression (bare_address tools) ledger.suppressions email.project_id address)
              page q x (ground (arith, h, found)) other,
      )
