-- ===== src/OneClick/Works.antt =====
-- The API's routes/unsubscribe.py: a link that the send path made does what it says.
use seskit.Base.{
  ℕ, String, str_eq, true, Option, none, some, [], ◌∷◌, ok, find, is_some, ◌≡◌, refl, ap, arith,
  eq_refl,
}
use seskit.Address.{TextTools, bare_address}
use seskit.Suppression.{unsubscribe, Table, SuppressedAddress, is_live, find_suppression, suppress}
use seskit.Suppression.Laws.{suppress_cases, find-snoc}
use seskit.Emails.{Email}
use seskit.Unsubscribe.{TokenTools, unsubscribe_token, is_ascii}
use seskit.Unsubscribe.Token.{
  IsReadable, plain, signature, read_token-unsubscribe_token, token_matches-unsubscribe_token,
}
use seskit.Ingest.{Ledger, Ids, record_suppression_event}
use seskit.OneClick.{shown, from_database, is_recipient, check_owner, resolve, press_for, press}

-- The address is found on the project's list.
pub IsListed : TextTools → Ledger → ℕ → String → Type 0
IsListed tools ledger project_id address =
    is_some (find_suppression (bare_address tools) ledger.suppressions project_id address) ≡ true

module _ (tools : TextTools) (tokens : TokenTools) (secret : String) (ids : Ids) (now : ℕ) where
  -- The row that a new entry gets.
  abbrev unsubscribed : (fresh p : ℕ) → String → Option String → SuppressedAddress
  unsubscribed fresh p a n = record {
    id = fresh;
    project_id = p;
    address = bare_address tools a;
    reason = unsubscribe;
    source_event_id = none;
    note = n;
    removed_at = none;
  }

  suppress-IsListed :
      (t : Table) (fresh p : ℕ) (a : String) (n : Option String)
      → bare_address tools (bare_address tools a) ≡ bare_address tools a
      → (t' : Table) × (row : SuppressedAddress) × (suppress
            (bare_address tools)
            t
            fresh
            p
            a
            unsubscribe
            none
            n
          ≡ ok (t', row))
        × (is_some (find_suppression (bare_address tools) t' p a) ≡ true)
  suppress-IsListed t fresh p a n idempotent =
      suppress_cases (bare_address tools) t fresh p a unsubscribe none n idempotent
        (λ res.
          (t' : Table) × (row : SuppressedAddress) × (res ≡ ok (t', row))
          × (is_some (find_suppression (bare_address tools) t' p a) ≡ true))
        (λ old h. (t, old, refl, ap is_some h))
        (λ h. (
          _,
          _,
          refl,
          unfold find_suppression in
              ground (
                arith,
                h,
                find-snoc (is_live p (bare_address tools a)) (unsubscribed fresh p a n) t,
                eq_refl (bare_address tools a),
              ),
        ))

  module _ (ledger : Ledger) (email : Email) (address : String)
      (idempotent : bare_address tools (bare_address tools address) ≡ bare_address tools address)
      (stored : find (λ row. str_eq (tokens.id_text row.id) (tokens.id_text email.id)) ledger.emails
        ≡ some email)
      (recipient : is_recipient tools tokens secret email address ≡ true)
      (readable : IsReadable tokens secret email.project_id email.id address)
      (encoded : is_ascii (tokens.b64encode (plain tokens secret email.project_id email.id address))
        ≡ true)
      (signed : is_ascii (signature tokens secret email.project_id email.id address) ≡ true) where
    -- The token that is made for the message and the recipient.
    token : String
    token = unsubscribe_token tokens secret email.project_id email.id address

    resolve-token : resolve tools tokens secret ledger.emails token ≡ ok (some (email, address))
    unfolding resolve check_owner token
    resolve-token = ground (
      arith,
      read_token-unsubscribe_token tokens secret email.project_id email.id address readable,
      token_matches-unsubscribe_token tokens secret email.project_id email.id address
          readable.no_dot encoded signed,
      stored,
      recipient,
    )

    press_for-IsListed :
        (found : Option SuppressedAddress)
        → find_suppression (bare_address tools) ledger.suppressions email.project_id address ≡ found
        → (out : Ledger) × (press_for tools tokens secret ids now ledger email address found
            ≡ ok (shown address true, out))
          × IsListed tools out email.project_id address
    unfolding press_for IsListed from_database record_suppression_event
    press_for-IsListed (some already) h = (ledger, refl, ap is_some h)
    press_for-IsListed none h =
        let (table, row, made, is) =
          suppress-IsListed ledger.suppressions (ids.suppression 0) email.project_id address
            (some "Unsubscribed from an email.") idempotent in
        (
          record_suppression_event tokens.id_text ids now email.id (address ∷ []) unsubscribe none
              (record ledger { suppressions = table }),
          rw made refl,
          is,
        )

    -- Pressing the link that was made for a stored message and one of its recipients puts them on the
    -- project's list, or finds them there, and says so; it does not fail. The recipient's address is
    -- one that the token can carry, the encoded texts are ASCII, and reducing the address a second
    -- time changes nothing.
    pub press-token :
        (out : Ledger) × (press tools tokens secret ids now ledger
            (unsubscribe_token tokens secret email.project_id email.id address)
          ≡ ok (shown address true, out))
        × IsListed tools out email.project_id address
    unfolding press token
    press-token = rw resolve-token (press_for-IsListed _ refl)
