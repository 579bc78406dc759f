-- ===== src/ApiKeys/Ends.antt =====
-- services/api_keys.py: a revocation that reached the cache, one that did not, and one that another
-- request came into.
use seskit.Base.{
  ℕ, ◌+◌, ◌≤◌, ◌<◌, ◌==◌, String, str_eq, eq_refl, Bool, true, Option, none, some, List,
  if◌then◌else◌, is_some, find, ◌&&◌, ◌≡◌, refl, sym, arith, inl, inr, ◌⊎◌,
}
use seskit.ApiKeys.{
  KeyTools, ApiKey, KeyCache, get_owned_api_key, verify_api_key, revoke_api_key, save_revoked,
  active_key, hash_key, looked_up, read_cache, write_cache, evict,
}
use seskit.ApiKeys.Table.{IsKeyed, any-found, names_only-found, active_key-save_revoked}
use seskit.ApiKeys.Acts.{
  Keys, Act, authenticate, revoke, begin_revoke, commit_revoke, revoked, begun, committed, step,
  run,
}
use seskit.ApiKeys.Cached.{no_keys}
use seskit.ApiKeys.Revoked.{
  expires_by, holds_hash, IsGone, verify_api_key-gone, run-IsGone, holds_hash-save_revoked,
}
use seskit.ApiKeys.Bounded.{IsBounded, By, run-IsBounded, no_keys-IsBounded}

-- The row that a route found for a key.
owned_row : (key_id project_id : ℕ) → ApiKey → Bool
owned_row key_id project_id row = (row.id == key_id) && (row.project_id == project_id)

saved-IsGone :
    (t : ℕ) (test : ApiKey → Bool) (api_key : ApiKey) (revoked_at : Option ℕ) (rows : List ApiKey)
    → (cache : KeyCache) → IsKeyed rows
    → find test rows ≡ some api_key
    → is_some revoked_at ≡ true
    → expires_by t (cache.projects api_key.hashed_key) ≡ true
    → IsGone t api_key.hashed_key
        (record { rows = save_revoked api_key.id revoked_at rows; cache = cache })
unfolding IsGone
saved-IsGone t test api_key revoked_at rows cache keyed found gone forgotten = (
  active_key-save_revoked api_key.id api_key.hashed_key revoked_at rows
      (names_only-found test api_key rows keyed found) gone,
  rw (holds_hash-save_revoked api_key.hashed_key api_key.id revoked_at rows) (
      unfold holds_hash in
      any-found test (λ row. str_eq row.hashed_key api_key.hashed_key) api_key rows found
        (eq_refl api_key.hashed_key)),
  forgotten,
)

revoked_time : (now : ℕ) (t : Option ℕ) → is_some (if is_some t then t else some now) ≡ true
revoked_time now none = refl
revoked_time now (some t) = refl

revoked-saved :
    (t : ℕ) (test : ApiKey → Bool) (api_key : ApiKey) (reached : Bool) (now : ℕ) (keys : Keys)
    → IsKeyed keys.rows
    → find test keys.rows ≡ some api_key
    → expires_by t ((evict reached api_key.hashed_key keys.cache).projects api_key.hashed_key)
      ≡ true
    → IsGone t api_key.hashed_key (revoked reached now (some api_key) keys)
unfolding revoked revoke_api_key
revoked-saved t test api_key reached now keys keyed found forgotten =
    saved-IsGone t test api_key
      (if is_some api_key.revoked_at then api_key.revoked_at else some now) keys.rows
      (evict reached api_key.hashed_key keys.cache) keyed found
      (revoked_time now api_key.revoked_at) forgotten

committed-saved :
    (t : ℕ) (test : ApiKey → Bool) (api_key : ApiKey) (now : ℕ) (keys : Keys)
    → IsKeyed keys.rows
    → find test keys.rows ≡ some api_key
    → expires_by t (keys.cache.projects api_key.hashed_key) ≡ true
    → IsGone t api_key.hashed_key (committed now (some api_key) keys)
unfolding committed revoke_api_key
committed-saved t test api_key now keys keyed found forgotten =
    saved-IsGone t test api_key
      (if is_some api_key.revoked_at then api_key.revoked_at else some now) keys.rows keys.cache
      keyed found (revoked_time now api_key.revoked_at) forgotten

-- When the cache has forgotten the hash after a revocation that it may not have heard of.
expires_by-revoked :
    (reached : Bool) (hashed : String) (cache : KeyCache) (t now : ℕ)
    → (reached ≡ true) ⊎ (t ≤ now)
    → expires_by t (cache.projects hashed) ≡ true
    → (s : ℕ) × (expires_by s ((evict reached hashed cache).projects hashed) ≡ true) × (s ≤ now)
unfolding expires_by evict
expires_by-revoked reached hashed cache t now (inl heard) h =
    (0, ground (arith, heard, eq_refl hashed), omega arith)
expires_by-revoked reached hashed cache t now (inr late) h = (t, ground (arith, h), late)

module _ (tools : KeyTools) (ttl interval : ℕ) where
  gone_after :
      (after : List (ℕ × Act)) (t now : ℕ) (reads writes : Bool) (raw : String) (keys : Keys)
      → IsGone t (hash_key tools raw) keys
      → t ≤ now
      → let later = run tools ttl interval after keys in
        (verify_api_key tools reads writes now raw ttl later.rows later.cache).0 ≡ none
  gone_after after t now reads writes raw keys gone late =
      verify_api_key-gone tools ttl t now reads writes raw (run tools ttl interval after keys)
        (run-IsGone tools ttl interval t (hash_key tools raw) after keys gone) late

  step-revoke :
      (t key_id project_id : ℕ) (api_key : ApiKey) (reached : Bool) (now : ℕ) (keys : Keys)
      → IsKeyed keys.rows
      → get_owned_api_key key_id project_id keys.rows ≡ some api_key
      → expires_by t ((evict reached api_key.hashed_key keys.cache).projects api_key.hashed_key)
        ≡ true
      → IsGone t api_key.hashed_key
          (step tools ttl interval now (revoke key_id project_id reached) keys)
  unfolding step get_owned_api_key
  step-revoke t key_id project_id api_key reached now keys keyed found forgotten = rw found (
      revoked-saved t (λ row. (row.id == key_id) && (row.project_id == project_id)) api_key reached
        now keys keyed found forgotten)

  step-commit_revoke :
      (t key_id project_id : ℕ) (api_key : ApiKey) (now : ℕ) (keys : Keys)
      → IsKeyed keys.rows
      → get_owned_api_key key_id project_id keys.rows ≡ some api_key
      → expires_by t (keys.cache.projects api_key.hashed_key) ≡ true
      → IsGone t api_key.hashed_key
          (step tools ttl interval now (commit_revoke key_id project_id) keys)
  unfolding step get_owned_api_key
  step-commit_revoke t key_id project_id api_key now keys keyed found forgotten = rw found (
      committed-saved t (λ row. (row.id == key_id) && (row.project_id == project_id)) api_key now
        keys keyed found forgotten)

-- A key that its project's route revokes, in one go: whatever came before and whatever comes later,
-- it opens nothing any more, at once if the eviction reached Redis, and otherwise as soon as one
-- lifetime of a cache entry has passed.
pub revoke-ends :
    (tools : KeyTools) (ttl interval : ℕ) (before after : List (ℕ × Act)) (revoked_at : ℕ)
    → By revoked_at before
    → (key_id project_id : ℕ) (api_key : ApiKey) (raw : String)
    → let keys = run tools ttl interval before no_keys in
      get_owned_api_key key_id project_id keys.rows ≡ some api_key
      → api_key.hashed_key ≡ hash_key tools raw
      → (reached : Bool) (now : ℕ) → (reached ≡ true) ⊎ (revoked_at + ttl ≤ now)
      → (reads writes : Bool)
      → let ended = step tools ttl interval revoked_at (revoke key_id project_id reached) keys in
        let later = run tools ttl interval after ended in
        (verify_api_key tools reads writes now raw ttl later.rows later.cache).0 ≡ none
unfolding IsBounded
revoke-ends tools ttl interval before after revoked_at by key_id project_id api_key raw found names
      reached now heard reads writes =
    let keys = run tools ttl interval before no_keys in
    let (keyed, bounded) =
      run-IsBounded tools ttl interval revoked_at before no_keys by
        (no_keys-IsBounded (revoked_at + ttl)) in
    let (t, forgotten, late) =
      expires_by-revoked reached api_key.hashed_key keys.cache (revoked_at + ttl) now heard
        (bounded api_key.hashed_key) in
    gone_after tools ttl interval after t now reads writes raw
      (step tools ttl interval revoked_at (revoke key_id project_id reached) keys)
      (rw (sym names) (
        step-revoke tools ttl interval t key_id project_id api_key reached revoked_at keys keyed
          found forgotten))
      late

-- Whatever requests come between the eviction and the commit: one lifetime of a cache entry after
-- the commit the key opens nothing.
pub commit_revoke-ends :
    (tools : KeyTools) (ttl interval : ℕ) (before after : List (ℕ × Act)) (committed_at : ℕ)
    → By committed_at before
    → (key_id project_id : ℕ) (api_key : ApiKey) (raw : String)
    → let keys = run tools ttl interval before no_keys in
      get_owned_api_key key_id project_id keys.rows ≡ some api_key
      → api_key.hashed_key ≡ hash_key tools raw
      → (now : ℕ) → committed_at + ttl ≤ now
      → (reads writes : Bool)
      → let ended = step tools ttl interval committed_at (commit_revoke key_id project_id) keys in
        let later = run tools ttl interval after ended in
        (verify_api_key tools reads writes now raw ttl later.rows later.cache).0 ≡ none
unfolding IsBounded
commit_revoke-ends tools ttl interval before after committed_at by key_id project_id api_key raw
      found names now late reads writes =
    let keys = run tools ttl interval before no_keys in
    let (keyed, bounded) =
      run-IsBounded tools ttl interval committed_at before no_keys by
        (no_keys-IsBounded (committed_at + ttl)) in
    gone_after tools ttl interval after (committed_at + ttl) now reads writes raw
      (step tools ttl interval committed_at (commit_revoke key_id project_id) keys)
      (rw (sym names) (
        step-commit_revoke tools ttl interval (committed_at + ttl) key_id project_id api_key
          committed_at keys keyed found (bounded api_key.hashed_key)))
      late

-- A request that comes between the eviction and the commit of a revocation puts the key back into
-- the cache: after the commit, with no active row left, the key still opens its project until the
-- entry expires.
pub begin_revoke-readmits :
    (tools : KeyTools) (ttl interval : ℕ) (keys : Keys)
    → IsKeyed keys.rows
    → (key_id project_id : ℕ) (api_key : ApiKey) (raw : String)
    → get_owned_api_key key_id project_id keys.rows ≡ some api_key
    → active_key (hash_key tools raw) keys.rows ≡ some api_key
    → api_key.hashed_key ≡ hash_key tools raw
    → (begun_at used_at committed_at now : ℕ) → now < used_at + ttl
    → (writes : Bool)
    → let evicted = step tools ttl interval begun_at (begin_revoke key_id project_id true) keys in
      let used = step tools ttl interval used_at (authenticate raw true true) evicted in
      let later = step tools ttl interval committed_at (commit_revoke key_id project_id) used in
      (active_key (hash_key tools raw) later.rows ≡ none)
      × ((verify_api_key tools true writes now raw ttl later.rows later.cache).0
          ≡ some api_key.project_id)
unfolding step begun committed revoke_api_key evict verify_api_key read_cache looked_up write_cache
begin_revoke-readmits tools ttl interval keys keyed key_id project_id api_key raw found active names
      begun_at used_at committed_at now early writes =
    ground (
      arith,
      found,
      active,
      names,
      early,
      eq_refl (hash_key tools raw),
      revoked_time committed_at api_key.revoked_at,
      active_key-save_revoked api_key.id api_key.hashed_key
          (if is_some api_key.revoked_at then api_key.revoked_at else some committed_at) keys.rows
          (names_only-found (λ row. (row.id == key_id) && (row.project_id == project_id)) api_key
            keys.rows keyed (unfold get_owned_api_key in found)),
    )
