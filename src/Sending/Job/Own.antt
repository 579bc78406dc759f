-- ===== src/Sending/Job/Own.antt =====
-- The worker's sending.py: whose access key SES is called with.
use seskit.Base.{
  ◌==◌, ==_iff, String, eq_iff, Option, none, some, Result, ok, err, ◌>>=◌, find, find-test, ◌≡◌,
  ◌≢◌, refl, arith,
}
use seskit.Members.{In, find-In}
use seskit.Errors.{ApiError}
use seskit.Aws.{
  AwsConnection, AwsCredentials, get_connection, is_given, or_empty, has_credentials,
  stored_credentials,
}
use seskit.Emails.{EmailProvider, ses, smtp, Email}
use seskit.Sending.Job.{
  JobSettings, JobWorld, ses_adapter, aws_for, credentials_of, build_provider, provider_name,
  prepare,
}

-- The key that a connection stores: an id and a secret, both given, the secret encrypted.
pub record IsKeyOf (decrypt : String → String → Result String String) (secret_key : String)
    (c : AwsConnection) (credentials : AwsCredentials) : Type 0 where
  pub id_stored : c.aws_access_key_id ≡ some credentials.access_key_id
  pub id_given : credentials.access_key_id ≢ ""
  pub secret_stored :
      (encrypted : String) × (c.aws_secret_access_key_encrypted ≡ some encrypted)
      × (encrypted ≢ "")
      × (decrypt encrypted secret_key ≡ ok credentials.secret_access_key)

stored_credentials-IsKeyOf :
    (decrypt : String → String → Result String String) (secret_key : String) (c : AwsConnection)
    (credentials : AwsCredentials)
    → stored_credentials decrypt c secret_key ≡ ok credentials
    → IsKeyOf decrypt secret_key c credentials
unfolding stored_credentials has_credentials is_given or_empty
stored_credentials-IsKeyOf decrypt secret_key c credentials h =
    by_columns c.aws_access_key_id c.aws_secret_access_key_encrypted refl refl
  where
    by_columns :
        (id encrypted : Option String)
        → c.aws_access_key_id ≡ id
        → c.aws_secret_access_key_encrypted ≡ encrypted
        → IsKeyOf decrypt secret_key c credentials
    by_columns none encrypted no_id held = absurd (ground (arith, h, no_id))
    by_columns (some id) none named unheld = absurd (ground (arith, h, named, unheld))
    by_columns (some id) (some encrypted) named held = by_secret (decrypt encrypted secret_key) refl
      where
        by_secret :
            (secret : Result String String)
            → decrypt encrypted secret_key ≡ secret
            → IsKeyOf decrypt secret_key c credentials
        by_secret (err e) opened = absurd (ground (arith, h, named, held, opened))
        by_secret (ok secret) opened = record {
          id_stored = ground (arith, h, named, held, opened);
          id_given = ground (arith, h, named, held, opened, eq_iff id "");
          secret_stored = (
            encrypted,
            held,
            ground (arith, h, named, held, opened, eq_iff encrypted ""),
            ground (arith, h, named, held, opened),
          );
        }

module _ (s : JobSettings) where
  own-build_provider :
      (w : JobWorld) (name : EmailProvider) (found : Option AwsConnection) (region : String)
      (credentials : AwsCredentials)
      → (credentials_of w s found >>= λ (place, key). build_provider name place s key)
        ≡ ok (ses_adapter region credentials)
      → (connection : AwsConnection) × (found ≡ some connection)
        × (region ≡ connection.region)
        × (stored_credentials w.decrypt connection s.secret_key ≡ ok credentials)
  unfolding credentials_of build_provider
  own-build_provider w ses none region credentials h = absurd (cc)
  own-build_provider w smtp none region credentials h = absurd (cc)
  own-build_provider w name (some connection) region credentials h =
      by_key name (stored_credentials w.decrypt connection s.secret_key) refl h
    where
      by_key :
          (name : EmailProvider) (key : Result ApiError AwsCredentials)
          → stored_credentials w.decrypt connection s.secret_key ≡ key
          → ((key >>= λ c. ok (connection.region, some c)) >>= λ (place, k).
              build_provider name place s k)
            ≡ ok (ses_adapter region credentials)
          → (c : AwsConnection) × (some connection ≡ some c)
            × (region ≡ c.region)
            × (stored_credentials w.decrypt c s.secret_key ≡ ok credentials)
      by_key ses (err e) k h = absurd (cc)
      by_key smtp (err e) k h = absurd (cc)
      by_key ses (ok key) k h = (connection, refl, cc, cc)
      by_key smtp (ok key) k h = absurd (cc)

  -- SES is called only in the region of a stored connection of the message's own project, with the
  -- access key id that this connection holds and the secret that its encrypted column decrypts to:
  -- never with another project's key, and never with one of the host.
  pub prepare-own :
      (w : JobWorld) (email : Email) (region : String) (credentials : AwsCredentials)
      → prepare w s email ≡ ok (ses_adapter region credentials)
      → (c : AwsConnection) × In c w.connections
        × (c.project_id ≡ email.project_id)
        × (region ≡ c.region)
        × IsKeyOf w.decrypt s.secret_key c credentials
  unfolding prepare aws_for
  prepare-own w email region credentials h =
      let (c, found, here, stored) =
        own-build_provider w (provider_name email) (get_connection w.connections email.project_id)
          region credentials h in
      let found' : find (λ row. row.project_id == email.project_id) w.connections ≡ some c =
        unfold get_connection in found in
      (
        c,
        find-In (λ row. row.project_id == email.project_id) c w.connections found',
        (==_iff c.project_id email.project_id).0
            (find-test (λ row. row.project_id == email.project_id) w.connections c found'),
        here,
        stored_credentials-IsKeyOf w.decrypt s.secret_key c credentials stored,
      )
