-- ===== src/ApiKeys/Bounded.antt =====
-- services/api_keys.py: how long the cache can hold what it holds.
use seskit.Base.{
  ℕ, ◌+◌, ◌≤◌, String, str_eq, Bool, true, Option, none, some, List, [], ◌∷◌, if◌then◌else◌,
  is_some, find, ◌≡◌, refl, arith,
}
use seskit.ApiKeys.{
  KeyTools, ApiKey, KeyCache, get_owned_api_key, verify_api_key, touch_last_used, revoke_api_key,
  active_key, hash_key, looked_up, write_cache, evict, new_key, touched, first_in_interval,
}
use seskit.ApiKeys.Table.{IsKeyed, insert_key-IsKeyed, save_revoked-IsKeyed}
use seskit.ApiKeys.Acts.{
  Keys, Act, authenticate, mark_used, issue, revoke, begin_revoke, commit_revoke, revoked, begun,
  committed, step, run,
}
use seskit.ApiKeys.Cached.{
  rows_after-create_api_key, projects-first_in_interval, marked-IsKeyed, no_keys,
}
use seskit.ApiKeys.Revoked.{expires_by}

-- Everything that the cache holds is forgotten by `t`.
unfoldable pub IsBounded : (t : ℕ) → Keys → Type 0
IsBounded t keys =
    IsKeyed keys.rows × ((hashed : String) → expires_by t (keys.cache.projects hashed) ≡ true)

looked_up-bounded :
    (t now ttl : ℕ) (writes : Bool) (hashed other : String) (found : Option ApiKey)
    (cache : KeyCache)
    → now + ttl ≤ t
    → expires_by t (cache.projects other) ≡ true
    → expires_by t ((looked_up writes now ttl hashed found cache).1.projects other) ≡ true
unfolding looked_up write_cache expires_by
looked_up-bounded t now ttl writes hashed other none cache early h = h
looked_up-bounded t now ttl writes hashed other (some api_key) cache early h =
    ground (arith, h, early)

touched-IsBounded :
    (t : ℕ) (reached : Bool) (now interval : ℕ) (found : Option ApiKey) (keys : Keys)
    → IsBounded t keys
    → let (rows, cache) = touched reached now interval found keys.rows keys.cache in
      IsBounded t (record { rows = rows; cache = cache })
unfolding IsBounded touched
touched-IsBounded t reached now interval none keys h = h
touched-IsBounded t reached now interval (some api_key) keys (keyed, bounded) = (
  marked-IsKeyed (first_in_interval reached now interval api_key.id keys.cache).0 api_key.id now
      keys.rows keyed,
  λ hashed.
      rw (projects-first_in_interval reached now interval api_key.id keys.cache hashed)
        (bounded hashed),
)

expires_by-evict :
    (t : ℕ) (reached : Bool) (hashed other : String) (cache : KeyCache)
    → expires_by t (cache.projects other) ≡ true
    → expires_by t ((evict reached hashed cache).projects other) ≡ true
unfolding expires_by evict
expires_by-evict t reached hashed other cache h = ground (arith, h)

module _ (t now : ℕ) where
  revoked-IsBounded :
      (reached : Bool) (found : Option ApiKey) (keys : Keys)
      → IsBounded t keys
      → IsBounded t (revoked reached now found keys)
  unfolding IsBounded revoked revoke_api_key
  revoked-IsBounded reached none keys h = h
  revoked-IsBounded reached (some api_key) keys (keyed, bounded) = (
    save_revoked-IsKeyed api_key.id
        (if is_some api_key.revoked_at then api_key.revoked_at else some now) keys.rows keyed,
    λ hashed. expires_by-evict t reached api_key.hashed_key hashed keys.cache (bounded hashed),
  )

  begun-IsBounded :
      (reached : Bool) (found : Option ApiKey) (keys : Keys)
      → IsBounded t keys
      → IsBounded t (begun reached now found keys)
  unfolding IsBounded begun revoke_api_key
  begun-IsBounded reached none keys h = h
  begun-IsBounded reached (some api_key) keys (keyed, bounded) = (
    keyed,
    λ hashed. expires_by-evict t reached api_key.hashed_key hashed keys.cache (bounded hashed),
  )

  committed-IsBounded :
      (found : Option ApiKey) (keys : Keys)
      → IsBounded t keys
      → IsBounded t (committed now found keys)
  unfolding IsBounded committed revoke_api_key
  committed-IsBounded none keys h = h
  committed-IsBounded (some api_key) keys (keyed, bounded) = (
    save_revoked-IsKeyed api_key.id
        (if is_some api_key.revoked_at then api_key.revoked_at else some now) keys.rows keyed,
    bounded,
  )

-- Every request so far came by `last`.
unfoldable pub By : (last : ℕ) → List (ℕ × Act) → Type 0
By last [] = Unit {0}
By last ((now, act) ∷ acts) = (now ≤ last) × By last acts

module _ (tools : KeyTools) (ttl interval : ℕ) where
  step-IsBounded :
      (t now : ℕ) (act : Act) (keys : Keys)
      → now + ttl ≤ t
      → IsBounded t keys
      → IsBounded t (step tools ttl interval now act keys)
  unfolding step IsBounded verify_api_key
  step-IsBounded t now (authenticate raw reads writes) keys early (keyed, bounded) = (
    keyed,
    λ hashed. ground (
      arith,
      bounded hashed,
      looked_up-bounded t now ttl writes (hash_key tools raw) hashed
          (active_key (hash_key tools raw) keys.rows) keys.cache early,
    ),
  )
  step-IsBounded t now (mark_used raw reached) keys early h =
      unfold touch_last_used in
      touched-IsBounded t reached now interval
        (find (λ row. str_eq row.hashed_key (hash_key tools raw)) keys.rows) keys h
  step-IsBounded t now (issue id project_id name raw) keys early (keyed, bounded) =
      rw (rows_after-create_api_key tools id project_id name raw keys.rows)
        (insert_key-IsKeyed (new_key tools id project_id name raw) keys.rows keyed, bounded)
  step-IsBounded t now (revoke key_id project_id reached) keys early h =
      revoked-IsBounded t now reached (get_owned_api_key key_id project_id keys.rows) keys h
  step-IsBounded t now (begin_revoke key_id project_id reached) keys early h =
      begun-IsBounded t now reached (get_owned_api_key key_id project_id keys.rows) keys h
  step-IsBounded t now (commit_revoke key_id project_id) keys early h =
      committed-IsBounded t now (get_owned_api_key key_id project_id keys.rows) keys h

  pub run-IsBounded :
      (last : ℕ) (acts : List (ℕ × Act)) (keys : Keys)
      → By last acts
      → IsBounded (last + ttl) keys
      → IsBounded (last + ttl) (run tools ttl interval acts keys)
  unfolding By run
  run-IsBounded last [] keys by h = h
  run-IsBounded last ((now, act) ∷ acts) keys (early, by) h =
      run-IsBounded last acts (step tools ttl interval now act keys) by
        (step-IsBounded (last + ttl) now act keys (omega arith) h)

pub no_keys-IsBounded : (t : ℕ) → IsBounded t no_keys
unfolding IsBounded IsKeyed expires_by
no_keys-IsBounded t = (tt, λ hashed. refl)
