-- ===== src/ApiKeys/Acts.antt =====
-- services/api_keys.py as its callers use it: the authentication of a request, which then marks the
-- key as used, and the dashboard's routes that create and revoke a key (apps/api, routes/api_keys.py).
-- A revocation is one act, or two with other requests between the eviction and the commit.
use seskit.Base.{ℕ, String, Bool, true, Option, none, some, List, [], ◌∷◌, Result, ok, err}
use seskit.ApiKeys.{
  KeyTools, ApiKey, IssuedKey, KeyCache, IntegrityError, get_owned_api_key, create_api_key,
  verify_api_key, touch_last_used, revoke_api_key, save_revoked,
}

-- The committed rows and the cache.
pub record Keys : Type 0 where
  pub rows : List ApiKey
  pub cache : KeyCache

pub data Act : Type 0 where
  authenticate : (raw_key : String) → (reads writes : Bool) → Act
  mark_used : (raw_key : String) → (reached : Bool) → Act
  issue : (id project_id : ℕ) → (name raw : String) → Act
  revoke : (key_id project_id : ℕ) → (reached : Bool) → Act
  begin_revoke : (key_id project_id : ℕ) → (reached : Bool) → Act
  commit_revoke : (key_id project_id : ℕ) → Act

unfoldable pub rows_after :
    List ApiKey → Result IntegrityError (List ApiKey × IssuedKey) → List ApiKey
rows_after rows (ok (after, issued)) = after
rows_after rows (err e) = rows

-- The row that the route found is revoked and committed.
unfoldable pub revoked : (reached : Bool) → (now : ℕ) → Option ApiKey → Keys → Keys
revoked reached now none keys = keys
revoked reached now (some api_key) keys =
    let (changed, cache) = revoke_api_key reached now api_key keys.cache in
    record { rows = save_revoked changed.id changed.revoked_at keys.rows; cache = cache }

-- Only the cache has changed for others.
unfoldable pub begun : (reached : Bool) → (now : ℕ) → Option ApiKey → Keys → Keys
begun reached now none keys = keys
begun reached now (some api_key) keys = record keys {
  cache = (revoke_api_key reached now api_key keys.cache).1;
}

-- Only the rows change.
unfoldable pub committed : (now : ℕ) → Option ApiKey → Keys → Keys
committed now none keys = keys
committed now (some api_key) keys = record keys {
  rows =
      save_revoked api_key.id (revoke_api_key true now api_key keys.cache).0.revoked_at keys.rows;
}

module _ (tools : KeyTools) (ttl interval : ℕ) where
  unfoldable pub step : (now : ℕ) → Act → Keys → Keys
  unfolding rows_after revoked begun committed
  step now (authenticate raw_key reads writes) keys = record keys {
    cache = (verify_api_key tools reads writes now raw_key ttl keys.rows keys.cache).1;
  }
  step now (mark_used raw_key reached) keys =
      let (rows, cache) = touch_last_used tools reached now raw_key interval keys.rows keys.cache in
      record { rows = rows; cache = cache }
  step now (issue id project_id name raw) keys = record keys {
    rows = rows_after keys.rows (create_api_key tools id project_id name raw keys.rows);
  }
  step now (revoke key_id project_id reached) keys =
      revoked reached now (get_owned_api_key key_id project_id keys.rows) keys
  step now (begin_revoke key_id project_id reached) keys =
      begun reached now (get_owned_api_key key_id project_id keys.rows) keys
  step now (commit_revoke key_id project_id) keys =
      committed now (get_owned_api_key key_id project_id keys.rows) keys

  unfoldable pub run : List (ℕ × Act) → Keys → Keys
  run [] keys = keys
  run ((now, act) ∷ acts) keys = run acts (step now act keys)
