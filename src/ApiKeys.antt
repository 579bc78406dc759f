-- ===== src/ApiKeys.antt =====
-- security/api_keys.py, models/api_key.py and services/api_keys.py: keys of the public API, with the
-- cache of Redis in front of the table.
pub mod Acts
pub mod Table
pub mod Bounded
pub mod Cached
pub mod Ends
pub mod Revoked
mod Tests
use seskit.Base.{
  ℕ, ◌+◌, ◌-◌, ltb, ◌==◌, String, str_eq, Bool, true, false, Option, none, some, List, [], ◌∷◌,
  if◌then◌else◌, is_some, find, select, any, map, not, ◌&&◌, ◌||◌, Result, ok, err, ◌++◌,
}
use seskit.Redis.{Slot, Store, live, get, set_ex, at}
use text.Mathlib.Text.{starts_with}

-- What Python's strings, hashlib and redis are used for.
pub record KeyTools : Type 0 where
  pub sha256_hex : String → String
  pub len : String → ℕ
  pub prefix : ℕ → String → String
  pub lower : String → String
  pub strip : String → String
  -- What stands before the first space and what follows it.
  pub partition_space : String → String × String

pub record ApiKey : Type 0 where
  pub id : ℕ
  pub project_id : ℕ
  pub name : String
  pub key_prefix : String
  pub hashed_key : String
  pub last_used_at : Option ℕ
  pub revoked_at : Option ℕ

pub record IssuedKey : Type 0 where
  pub api_key : ApiKey
  pub raw_key : String

-- `apikey:{hash}` and `apikey_used:{id}`.
pub record KeyCache : Type 0 where
  pub projects : Store String ℕ
  pub used : Store {0, 0} ℕ Unit

pub data IntegrityError : Type 0 where
  integrity_error : IntegrityError

abbrev pub key_prefix_text : String
key_prefix_text = "sk_"

abbrev pub display_prefix_length : ℕ
display_prefix_length = 11

abbrev pub bearer_scheme : String
bearer_scheme = "bearer"

unfoldable pub is_active : ApiKey → Bool
is_active api_key = not (is_some api_key.revoked_at)

-- The primary key and the unique index on the hash.
unfoldable pub is_taken : ApiKey → ApiKey → Bool
is_taken fresh old = (fresh.id == old.id) || str_eq fresh.hashed_key old.hashed_key

-- The table is the list of its rows, newest first.
unfoldable pub insert_key : ApiKey → List ApiKey → Result IntegrityError (List ApiKey)
unfolding is_taken
insert_key fresh rows = if any (is_taken fresh) rows then err integrity_error else ok (fresh ∷ rows)

unfoldable pub list_api_keys : (project_id : ℕ) → List ApiKey → List ApiKey
list_api_keys project_id rows = select (λ row. row.project_id == project_id) rows

unfoldable pub get_owned_api_key : (key_id project_id : ℕ) → List ApiKey → Option ApiKey
get_owned_api_key key_id project_id rows =
    find (λ row. (row.id == key_id) && (row.project_id == project_id)) rows

-- The active row with a hash, and its project.
unfoldable pub active_key : (hashed : String) → List ApiKey → Option ApiKey
unfolding is_active
active_key hashed rows = find (λ row. str_eq row.hashed_key hashed && is_active row) rows

abbrev pub project_of : Option ApiKey → Option ℕ
project_of none = none
project_of (some api_key) = some api_key.project_id

-- The column that an update writes.
unfoldable pub save_used : (key_id now : ℕ) → List ApiKey → List ApiKey
save_used key_id now rows =
    map (λ row. if row.id == key_id then record row { last_used_at = some now } else row) rows

unfoldable pub save_revoked : (key_id : ℕ) → (revoked_at : Option ℕ) → List ApiKey → List ApiKey
save_revoked key_id revoked_at rows =
    map (λ row. if row.id == key_id then record row { revoked_at = revoked_at } else row) rows

-- Whether a command reaches Redis; one that does not raises RedisError, which is caught.
unfoldable pub read_cache : (reached : Bool) → (now : ℕ) → String → KeyCache → Option ℕ
read_cache reached now hashed cache = if reached then get now (cache.projects hashed) else none

unfoldable pub write_cache :
    (reached : Bool) → (now : ℕ) → String → (project_id ttl : ℕ) → KeyCache → KeyCache
write_cache reached now hashed project_id ttl cache =
    if reached
    then record cache {
      projects = at str_eq hashed (λ slot. set_ex now ttl project_id) cache.projects;
    }
    else cache

unfoldable pub evict : (reached : Bool) → String → KeyCache → KeyCache
evict reached hashed cache =
    if reached
    then record cache { projects = at str_eq hashed (λ slot. none) cache.projects }
    else cache

-- A key that the cache does not know is looked up, and a row that is found is remembered.
unfoldable pub looked_up :
    (writes : Bool) → (now ttl : ℕ) → String → Option ApiKey → KeyCache → Option ℕ × KeyCache
unfolding write_cache
looked_up writes now ttl hashed none cache = (none, cache)
looked_up writes now ttl hashed (some api_key) cache =
    (some api_key.project_id, write_cache writes now hashed api_key.project_id ttl cache)

-- `SET … EX … NX` of the marker: it succeeds only if there is none.
unfoldable pub first_in_interval :
    (reached : Bool) → (now interval key_id : ℕ) → KeyCache → Bool × KeyCache
first_in_interval reached now interval key_id cache =
    if reached && not (is_some (live now (cache.used key_id)))
    then (true, record cache { used = at ◌==◌ key_id (λ slot. set_ex now interval tt) cache.used })
    else (false, cache)

unfoldable pub touched :
    (reached : Bool)
    → (now interval : ℕ) → Option ApiKey
    → List ApiKey
    → KeyCache
    → List ApiKey × KeyCache
unfolding save_used first_in_interval
touched reached now interval none rows cache = (rows, cache)
touched reached now interval (some api_key) rows cache =
    let (first, after) = first_in_interval reached now interval api_key.id cache in
    (if first then save_used api_key.id now rows else rows, after)

-- The cache entry goes before the caller commits the row that is returned. A key that was revoked
-- keeps its time.
unfoldable pub revoke_api_key : (reached : Bool) → (now : ℕ) → ApiKey → KeyCache → ApiKey × KeyCache
unfolding evict
revoke_api_key reached now api_key cache = (
  record api_key {
    revoked_at = if is_some api_key.revoked_at then api_key.revoked_at else some now;
  },
  evict reached api_key.hashed_key cache,
)

module _ (tools : KeyTools) where
  open tools use {sha256_hex, len, prefix, lower, strip, partition_space}

  unfoldable pub looks_like_key : String → Bool
  looks_like_key value = starts_with value key_prefix_text && ltb (len key_prefix_text) (len value)

  unfoldable pub parse_authorization : Option String → Option String
  unfolding looks_like_key
  parse_authorization none = none
  parse_authorization (some header) =
      let (scheme, credential) = partition_space header in
      if str_eq header "" || not (str_eq (lower scheme) bearer_scheme)
      then none
      else if looks_like_key (strip credential)
      then some (strip credential)
      else none

  unfoldable pub hash_key : String → String
  hash_key raw_key = sha256_hex raw_key

  unfoldable pub display_prefix : String → String
  display_prefix raw_key = prefix display_prefix_length raw_key

  unfoldable pub new_key : (id project_id : ℕ) → (name raw : String) → ApiKey
  unfolding hash_key display_prefix
  new_key id project_id name raw = record {
    id = id;
    project_id = project_id;
    name = name;
    key_prefix = display_prefix raw;
    hashed_key = hash_key raw;
    last_used_at = none;
    revoked_at = none;
  }

  -- The raw key that was generated and the fresh id are arguments.
  unfoldable pub create_api_key :
      (id project_id : ℕ)
      → (name raw : String) → List ApiKey
      → Result IntegrityError (List ApiKey × IssuedKey)
  unfolding insert_key new_key
  create_api_key id project_id name raw rows =
      let api_key = new_key id project_id name raw in
      elim (insert_key api_key rows) [
        | ok after ↦ ok (after, record { api_key = api_key; raw_key = raw })
        | err e ↦ err e
      ]

  -- `reads` and `writes`: whether the two commands reach Redis.
  unfoldable pub verify_api_key :
      (reads writes : Bool)
      → (now : ℕ) → (raw_key : String) → (cache_ttl_seconds : ℕ) → List ApiKey
      → KeyCache
      → Option ℕ × KeyCache
  unfolding read_cache looked_up active_key hash_key
  verify_api_key reads writes now raw_key cache_ttl_seconds rows cache =
      elim (read_cache reads now (hash_key raw_key) cache) [
        | some cached ↦ (some cached, cache)
        | none ↦
            looked_up writes now cache_ttl_seconds (hash_key raw_key)
              (active_key (hash_key raw_key) rows) cache
      ]

  unfoldable pub touch_last_used :
      (reached : Bool)
      → (now : ℕ) → (raw_key : String) → (interval_seconds : ℕ) → List ApiKey
      → KeyCache
      → List ApiKey × KeyCache
  unfolding touched hash_key
  touch_last_used reached now raw_key interval_seconds rows cache =
      touched reached now interval_seconds
        (find (λ row. str_eq row.hashed_key (hash_key raw_key)) rows) rows cache
