-- ===== src/ApiKeys/Cached.antt =====
-- services/api_keys.py: the cache never says more than the table.
use seskit.Base.{
  ℕ, ◌==◌, String, str_eq, eq_iff, Bool, true, false, Option, none, some, List, [], ◌∷◌,
  if◌then◌else◌, is_some, find, all, ◌&&◌, ◌≡◌, refl, arith, Option-cases, inl, inr, ◌⊎◌,
}
use seskit.Redis.{Slot, get, value_of}
use seskit.ApiKeys.{
  KeyTools, ApiKey, KeyCache, get_owned_api_key, create_api_key, verify_api_key, touch_last_used,
  revoke_api_key, save_used, active_key, project_of, hash_key, looked_up, read_cache, write_cache,
  evict, touched, first_in_interval, insert_key, new_key,
}
use seskit.ApiKeys.Table.{
  IsKeyed, rows_or, insert_key-keeps, insert_key-IsKeyed, project_of-save_used, save_used-IsKeyed,
  save_revoked-IsKeyed, names_only, names_only-found, project_of-save_revoked,
}
use seskit.ApiKeys.Acts.{
  Keys, Act, authenticate, mark_used, issue, revoke, begin_revoke, commit_revoke, rows_after,
  revoked, step, run,
}

-- What the cache holds for a hash, expired or not, is what the table says.
unfoldable pub IsCoherent : Keys → Type 0
IsCoherent keys =
    IsKeyed keys.rows
    × ((hashed : String) (project : ℕ)
        → value_of (keys.cache.projects hashed) ≡ some project
        → project_of (active_key hashed keys.rows) ≡ some project)

-- A revocation reaches the cache, and no request comes between its eviction and its commit.
unfoldable pub IsOrderly : Act → Type 0
IsOrderly (authenticate raw_key reads writes) = Unit {0}
IsOrderly (mark_used raw_key reached) = Unit {0}
IsOrderly (issue id project_id name raw) = Unit {0}
IsOrderly (revoke key_id project_id reached) = reached ≡ true
IsOrderly (begin_revoke key_id project_id reached) = ⊥
IsOrderly (commit_revoke key_id project_id) = ⊥

unfoldable pub AreOrderly : List (ℕ × Act) → Type 0
unfolding IsOrderly
AreOrderly [] = Unit {0}
AreOrderly ((now, act) ∷ acts) = IsOrderly act × AreOrderly acts

get-value_of :
    {V : Type 0} (now : ℕ) (slot : Slot V) (v : V) → get now slot ≡ some v → value_of slot ≡ some v
get-value_of now none v h = h
get-value_of now (some held) v h = ground (arith, h)

read_cache-value_of :
    (reads : Bool) (now : ℕ) (hashed : String) (cache : KeyCache) (project : ℕ)
    → read_cache reads now hashed cache ≡ some project
    → value_of (cache.projects hashed) ≡ some project
unfolding read_cache
read_cache-value_of true now hashed cache project h =
    get-value_of now (cache.projects hashed) project h
read_cache-value_of false now hashed cache project h = ground (arith, h)

-- What the three writes of a route do to the rows and to the cache.
pub rows_after-create_api_key :
    (tools : KeyTools) (id project_id : ℕ) (name raw : String) (rows : List ApiKey)
    → rows_after rows (create_api_key tools id project_id name raw rows)
      ≡ rows_or rows (insert_key (new_key tools id project_id name raw) rows)
unfolding create_api_key rows_after
rows_after-create_api_key tools id project_id name raw rows = ground arith

pub projects-first_in_interval :
    (reached : Bool) (now interval key_id : ℕ) (cache : KeyCache) (hashed : String)
    → (first_in_interval reached now interval key_id cache).1.projects hashed
      ≡ cache.projects hashed
unfolding first_in_interval
projects-first_in_interval reached now interval key_id cache hashed = ground arith

pub marked-IsKeyed :
    (first : Bool) (key_id now : ℕ) (rows : List ApiKey)
    → IsKeyed rows
    → IsKeyed (if first then save_used key_id now rows else rows)
marked-IsKeyed true key_id now rows h = save_used-IsKeyed key_id now rows h
marked-IsKeyed false key_id now rows h = h

marked-project_of :
    (first : Bool) (key_id now : ℕ) (hashed : String) (rows : List ApiKey)
    → project_of (active_key hashed (if first then save_used key_id now rows else rows))
      ≡ project_of (active_key hashed rows)
marked-project_of true key_id now hashed rows = project_of-save_used key_id now hashed rows
marked-project_of false key_id now hashed rows = refl

touched-IsCoherent :
    (reached : Bool) (now interval : ℕ) (found : Option ApiKey) (keys : Keys)
    → IsCoherent keys
    → let (rows, cache) = touched reached now interval found keys.rows keys.cache in
      IsCoherent (record { rows = rows; cache = cache })
unfolding IsCoherent touched
touched-IsCoherent reached now interval none keys h = h
touched-IsCoherent reached now interval (some api_key) keys (keyed, coherent) = (
  marked-IsKeyed (first_in_interval reached now interval api_key.id keys.cache).0 api_key.id now
      keys.rows keyed,
  λ hashed project h.
      rw
        (marked-project_of (first_in_interval reached now interval api_key.id keys.cache).0
          api_key.id now hashed keys.rows)
        (coherent hashed project (
          ground (
            arith,
            h,
            projects-first_in_interval reached now interval api_key.id keys.cache hashed,
          ))),
)

revoked-IsCoherent :
    (now : ℕ) (found : Option ApiKey) (keys : Keys)
    → ((api_key : ApiKey)
        → found ≡ some api_key
        → all (names_only api_key.id api_key.hashed_key) keys.rows ≡ true)
    → IsCoherent keys
    → IsCoherent (revoked true now found keys)
unfolding IsCoherent revoked revoke_api_key evict
revoked-IsCoherent now none keys names h = h
revoked-IsCoherent now (some api_key) keys names (keyed, coherent) = (
  save_revoked-IsKeyed api_key.id
      (if is_some api_key.revoked_at then api_key.revoked_at else some now) keys.rows keyed,
  λ hashed project h. ground (
    arith,
    h,
    coherent hashed project,
    project_of-save_revoked api_key.id api_key.hashed_key hashed
        (if is_some api_key.revoked_at then api_key.revoked_at else some now) keys.rows
        (names api_key refl),
  ),
)

looked_up-project_of :
    (writes : Bool) (now ttl : ℕ) (hashed : String) (found : Option ApiKey) (cache : KeyCache)
    → (looked_up writes now ttl hashed found cache).0 ≡ project_of found
unfolding looked_up
looked_up-project_of writes now ttl hashed none cache = refl
looked_up-project_of writes now ttl hashed (some api_key) cache = refl

-- What is remembered is what was found.
looked_up-projects :
    (writes : Bool) (now ttl : ℕ) (hashed : String) (found : Option ApiKey) (cache : KeyCache)
    → (other : String) (project : ℕ)
    → value_of ((looked_up writes now ttl hashed found cache).1.projects other) ≡ some project
    → (value_of (cache.projects other) ≡ some project)
      ⊎ ((hashed ≡ other) × (project_of found ≡ some project))
unfolding looked_up write_cache
looked_up-projects writes now ttl hashed none cache other project h = inl h
looked_up-projects writes now ttl hashed (some api_key) cache other project h =
    ground (arith, h, eq_iff hashed other)

module _ (tools : KeyTools) (ttl interval : ℕ) where
  -- While the cache is coherent, a request is answered as the table answers, whichever commands
  -- reach Redis.
  pub verify_api_key-project_of :
      (reads writes : Bool) (now : ℕ) (raw : String) (keys : Keys)
      → IsCoherent keys
      → (verify_api_key tools reads writes now raw ttl keys.rows keys.cache).0
        ≡ project_of (active_key (hash_key tools raw) keys.rows)
  unfolding verify_api_key IsCoherent
  verify_api_key-project_of reads writes now raw keys (keyed, coherent) =
      elim (Option-cases (read_cache reads now (hash_key tools raw) keys.cache)) [
        | inl missed ↦ ground (
          arith,
          missed,
          looked_up-project_of writes now ttl (hash_key tools raw)
              (active_key (hash_key tools raw) keys.rows) keys.cache,
        )
        | inr (project, hit) ↦ ground (
          arith,
          hit,
          coherent (hash_key tools raw) project
              (read_cache-value_of reads now (hash_key tools raw) keys.cache project hit),
        )
      ]

  authenticate-IsCoherent :
      (now : ℕ) (raw : String) (reads writes : Bool) (keys : Keys)
      → IsCoherent keys
      → IsCoherent (step tools ttl interval now (authenticate raw reads writes) keys)
  unfolding IsCoherent step verify_api_key
  authenticate-IsCoherent now raw reads writes keys (keyed, coherent) = (
    keyed,
    λ hashed project h. ground (
      arith,
      coherent hashed project,
      looked_up-projects writes now ttl (hash_key tools raw)
          (active_key (hash_key tools raw) keys.rows) keys.cache hashed project,
      h,
    ),
  )

  issue-IsCoherent :
      (now id project_id : ℕ) (name raw : String) (keys : Keys)
      → IsCoherent keys
      → IsCoherent (step tools ttl interval now (issue id project_id name raw) keys)
  unfolding IsCoherent step
  issue-IsCoherent now id project_id name raw keys (keyed, coherent) = (
    rw (rows_after-create_api_key tools id project_id name raw keys.rows)
        (insert_key-IsKeyed (new_key tools id project_id name raw) keys.rows keyed),
    λ hashed project h. rw (rows_after-create_api_key tools id project_id name raw keys.rows) (
        insert_key-keeps (new_key tools id project_id name raw) keys.rows hashed project
          (coherent hashed project h)),
  )

  mark_used-IsCoherent :
      (now : ℕ) (raw : String) (reached : Bool) (keys : Keys)
      → IsCoherent keys
      → IsCoherent (step tools ttl interval now (mark_used raw reached) keys)
  unfolding step touch_last_used
  mark_used-IsCoherent now raw reached keys h =
      touched-IsCoherent reached now interval
        (find (λ row. str_eq row.hashed_key (hash_key tools raw)) keys.rows) keys h

  revoke-IsCoherent :
      (now key_id project_id : ℕ) (keys : Keys)
      → IsCoherent keys
      → IsCoherent (step tools ttl interval now (revoke key_id project_id true) keys)
  unfolding IsCoherent step get_owned_api_key
  revoke-IsCoherent now key_id project_id keys (keyed, coherent) =
      revoked-IsCoherent now (get_owned_api_key key_id project_id keys.rows) keys
        (λ api_key found.
          names_only-found (λ row. (row.id == key_id) && (row.project_id == project_id)) api_key
            keys.rows keyed found)
        (keyed, coherent)

  step-IsCoherent :
      (now : ℕ) (act : Act) (keys : Keys)
      → IsOrderly act
      → IsCoherent keys
      → IsCoherent (step tools ttl interval now act keys)
  unfolding IsOrderly
  step-IsCoherent now (authenticate raw reads writes) keys orderly h =
      authenticate-IsCoherent now raw reads writes keys h
  step-IsCoherent now (mark_used raw reached) keys orderly h =
      mark_used-IsCoherent now raw reached keys h
  step-IsCoherent now (issue id project_id name raw) keys orderly h =
      issue-IsCoherent now id project_id name raw keys h
  step-IsCoherent now (revoke key_id project_id reached) keys orderly h =
      rw orderly (revoke-IsCoherent now key_id project_id keys h)
  step-IsCoherent now (begin_revoke key_id project_id reached) keys orderly h = absurd orderly
  step-IsCoherent now (commit_revoke key_id project_id) keys orderly h = absurd orderly

  run-IsCoherent :
      (acts : List (ℕ × Act)) (keys : Keys)
      → AreOrderly acts
      → IsCoherent keys
      → IsCoherent (run tools ttl interval acts keys)
  unfolding AreOrderly run
  run-IsCoherent [] keys orderly h = h
  run-IsCoherent ((now, act) ∷ acts) keys (orderly, later) h =
      run-IsCoherent acts (step tools ttl interval now act keys) later
        (step-IsCoherent now act keys orderly h)

-- An instance before its first key.
abbrev pub no_keys : Keys
no_keys = record { rows = []; cache = record { projects = λ hashed. none; used = λ key_id. none } }

no_keys-IsCoherent : IsCoherent no_keys
unfolding IsCoherent IsKeyed
no_keys-IsCoherent = (tt, λ hashed project h. ground (arith, h))

-- Whatever requests have been made, at whatever times, and whichever of their other commands
-- reached Redis: if each revocation reached the cache and was committed before the next request, a
-- request is answered with the project of the active row that holds the hash of its key, and with
-- nothing if no active row does.
pub verify_api_key-current :
    (tools : KeyTools) (ttl interval : ℕ) (acts : List (ℕ × Act))
    → AreOrderly acts
    → (reads writes : Bool) (now : ℕ) (raw : String)
    → let keys = run tools ttl interval acts no_keys in
      (verify_api_key tools reads writes now raw ttl keys.rows keys.cache).0
      ≡ project_of (active_key (hash_key tools raw) keys.rows)
verify_api_key-current tools ttl interval acts orderly reads writes now raw =
    verify_api_key-project_of tools ttl interval reads writes now raw
      (run tools ttl interval acts no_keys)
      (run-IsCoherent tools ttl interval acts no_keys orderly no_keys-IsCoherent)
