-- ===== src/ApiKeys/Revoked.antt =====
-- services/api_keys.py: how long a key that has been revoked still opens the API.
use seskit.Base.{
  ℕ, ◌≤◌, leb, String, str_eq, eq_iff, Bool, true, false, Option, none, some, List, [], ◌∷◌,
  is_some, find, any, ◌≡◌, refl, arith, Bool-cases, inl, inr,
}
use seskit.Redis.{Slot, get}
use seskit.ApiKeys.{
  KeyTools, ApiKey, KeyCache, get_owned_api_key, verify_api_key, touch_last_used, revoke_api_key,
  save_revoked, save_used, active_key, is_taken, is_active, hash_key, looked_up, read_cache,
  write_cache, evict, touched, insert_key, new_key,
}
use seskit.ApiKeys.Table.{rows_or}
use seskit.ApiKeys.Acts.{
  Keys, Act, authenticate, mark_used, issue, revoke, begin_revoke, commit_revoke, revoked, begun,
  committed, step, run,
}
use seskit.ApiKeys.Cached.{rows_after-create_api_key, projects-first_in_interval}

-- The slot is gone from `t` on.
unfoldable pub expires_by : (t : ℕ) → Slot ℕ → Bool
expires_by t none = true
expires_by t (some held) = elim held.expires_at [ none ↦ false | some e ↦ leb e t ]

unfoldable pub holds_hash : String → List ApiKey → Bool
holds_hash hashed rows = any (λ row. str_eq row.hashed_key hashed) rows

-- No active row holds the hash, which is in use, and the cache forgets it by `t`.
unfoldable pub IsGone : (t : ℕ) → String → Keys → Type 0
IsGone t hashed keys =
    (active_key hashed keys.rows ≡ none)
    × (holds_hash hashed keys.rows ≡ true)
    × (expires_by t (keys.cache.projects hashed) ≡ true)

pub get-expired :
    (t now : ℕ) (slot : Slot ℕ) → expires_by t slot ≡ true → t ≤ now → get now slot ≡ none
unfolding expires_by
get-expired t now none h late = refl
get-expired t now (some held) h late = ground (arith, h, late)

active_key-save_used :
    (hashed : String) (key_id now : ℕ) (rows : List ApiKey)
    → active_key hashed rows ≡ none
    → active_key hashed (save_used key_id now rows) ≡ none
unfolding active_key save_used find is_active
active_key-save_used hashed key_id now [] h = refl
active_key-save_used hashed key_id now (row ∷ rows) h =
    ground (arith, h, active_key-save_used hashed key_id now rows)

active_key-save_again :
    (hashed : String) (key_id : ℕ) (revoked_at : Option ℕ) (rows : List ApiKey)
    → is_some revoked_at ≡ true
    → active_key hashed rows ≡ none
    → active_key hashed (save_revoked key_id revoked_at rows) ≡ none
unfolding active_key save_revoked find is_active
active_key-save_again hashed key_id revoked_at [] gone h = refl
active_key-save_again hashed key_id revoked_at (row ∷ rows) gone h =
    ground (arith, h, gone, active_key-save_again hashed key_id revoked_at rows)

holds_hash-save_used :
    (hashed : String) (key_id now : ℕ) (rows : List ApiKey)
    → holds_hash hashed (save_used key_id now rows) ≡ holds_hash hashed rows
unfolding holds_hash save_used any
holds_hash-save_used hashed key_id now [] = refl
holds_hash-save_used hashed key_id now (row ∷ rows) =
    ground (arith, holds_hash-save_used hashed key_id now rows)

pub holds_hash-save_revoked :
    (hashed : String) (key_id : ℕ) (revoked_at : Option ℕ) (rows : List ApiKey)
    → holds_hash hashed (save_revoked key_id revoked_at rows) ≡ holds_hash hashed rows
unfolding holds_hash save_revoked any
holds_hash-save_revoked hashed key_id revoked_at [] = refl
holds_hash-save_revoked hashed key_id revoked_at (row ∷ rows) =
    ground (arith, holds_hash-save_revoked hashed key_id revoked_at rows)

-- A hash in use is not given to a second row.
taken-holds_hash :
    (fresh : ApiKey) (rows : List ApiKey)
    → holds_hash fresh.hashed_key rows ≡ true
    → any (is_taken fresh) rows ≡ true
unfolding holds_hash any is_taken
taken-holds_hash fresh [] h = h
taken-holds_hash fresh (row ∷ rows) h = ground (
  arith,
  h,
  taken-holds_hash fresh rows,
  eq_iff row.hashed_key fresh.hashed_key,
  eq_iff fresh.hashed_key row.hashed_key,
)

active_key-behind :
    (fresh : ApiKey) (hashed : String) (rows : List ApiKey)
    → active_key hashed rows ≡ none
    → str_eq fresh.hashed_key hashed ≡ false
    → active_key hashed (fresh ∷ rows) ≡ none
unfolding active_key find
active_key-behind fresh hashed rows gone differs = rw differs gone

insert_key-gone :
    (fresh : ApiKey) (hashed : String) (rows : List ApiKey)
    → active_key hashed rows ≡ none
    → holds_hash hashed rows ≡ true
    → active_key hashed (rows_or rows (insert_key fresh rows)) ≡ none
insert_key-gone fresh hashed rows gone used = elim (Bool-cases (any (is_taken fresh) rows)) [
  | inl taken ↦ unfold insert_key in rw taken gone
  | inr free ↦
      unfold insert_key in
      rw free (
        active_key-behind fresh hashed rows gone
          (ground (arith, used, free, taken-holds_hash fresh rows, eq_iff fresh.hashed_key hashed)))
]

insert_key-holds_hash :
    (fresh : ApiKey) (hashed : String) (rows : List ApiKey)
    → holds_hash hashed rows ≡ true
    → holds_hash hashed (rows_or rows (insert_key fresh rows)) ≡ true
unfolding insert_key holds_hash any
insert_key-holds_hash fresh hashed rows used = ground (arith, used)

looked_up-slot :
    (now ttl : ℕ) (writes : Bool) (hashed other : String) (found : Option ApiKey) (cache : KeyCache)
    → ((hashed ≡ other) → found ≡ none)
    → (looked_up writes now ttl hashed found cache).1.projects other ≡ cache.projects other
unfolding looked_up write_cache
looked_up-slot now ttl writes hashed other none cache h = refl
looked_up-slot now ttl writes hashed other (some api_key) cache h =
    ground (arith, h, eq_iff hashed other)

-- From the first time on at which the cache has forgotten it, the key opens nothing.
pub verify_api_key-gone :
    (tools : KeyTools) (ttl t now : ℕ) (reads writes : Bool) (raw : String) (keys : Keys)
    → IsGone t (hash_key tools raw) keys
    → t ≤ now
    → (verify_api_key tools reads writes now raw ttl keys.rows keys.cache).0 ≡ none
unfolding verify_api_key IsGone read_cache looked_up
verify_api_key-gone tools ttl t now reads writes raw keys (gone, used, forgotten) late =
    ground
      (arith, gone, get-expired t now (keys.cache.projects (hash_key tools raw)) forgotten late)

touched-IsGone :
    (t : ℕ) (hashed : String) (reached : Bool) (now interval : ℕ) (found : Option ApiKey)
    → (keys : Keys) → IsGone t hashed keys
    → let (rows, cache) = touched reached now interval found keys.rows keys.cache in
      IsGone t hashed (record { rows = rows; cache = cache })
unfolding IsGone touched
touched-IsGone t hashed reached now interval none keys h = h
touched-IsGone t hashed reached now interval (some api_key) keys (gone, used, forgotten) = ground (
  arith,
  gone,
  used,
  forgotten,
  active_key-save_used hashed api_key.id now keys.rows,
  holds_hash-save_used hashed api_key.id now keys.rows,
  projects-first_in_interval reached now interval api_key.id keys.cache hashed,
)

-- A revocation of whatever key, in one act or by its parts.
module _ (t now : ℕ) (hashed : String) where
  revoked-IsGone :
      (reached : Bool) (found : Option ApiKey) (keys : Keys)
      → IsGone t hashed keys
      → IsGone t hashed (revoked reached now found keys)
  unfolding IsGone revoked revoke_api_key evict expires_by
  revoked-IsGone reached none keys h = h
  revoked-IsGone reached (some api_key) keys (gone, used, forgotten) = ground (
    arith,
    gone,
    used,
    forgotten,
    active_key-save_again hashed api_key.id api_key.revoked_at keys.rows,
    active_key-save_again hashed api_key.id (some now) keys.rows,
    holds_hash-save_revoked hashed api_key.id api_key.revoked_at keys.rows,
    holds_hash-save_revoked hashed api_key.id (some now) keys.rows,
  )

  begun-IsGone :
      (reached : Bool) (found : Option ApiKey) (keys : Keys)
      → IsGone t hashed keys
      → IsGone t hashed (begun reached now found keys)
  unfolding IsGone begun revoke_api_key evict expires_by
  begun-IsGone reached none keys h = h
  begun-IsGone reached (some api_key) keys (gone, used, forgotten) =
      ground (arith, gone, used, forgotten)

  committed-IsGone :
      (found : Option ApiKey) (keys : Keys)
      → IsGone t hashed keys
      → IsGone t hashed (committed now found keys)
  unfolding IsGone committed revoke_api_key
  committed-IsGone none keys h = h
  committed-IsGone (some api_key) keys (gone, used, forgotten) = ground (
    arith,
    gone,
    used,
    forgotten,
    active_key-save_again hashed api_key.id api_key.revoked_at keys.rows,
    active_key-save_again hashed api_key.id (some now) keys.rows,
    holds_hash-save_revoked hashed api_key.id api_key.revoked_at keys.rows,
    holds_hash-save_revoked hashed api_key.id (some now) keys.rows,
  )

module _ (tools : KeyTools) (ttl interval t : ℕ) (hashed : String) where
  authenticate-IsGone :
      (now : ℕ) (raw : String) (reads writes : Bool) (keys : Keys)
      → IsGone t hashed keys
      → IsGone t hashed (step tools ttl interval now (authenticate raw reads writes) keys)
  unfolding IsGone step verify_api_key
  authenticate-IsGone now raw reads writes keys (gone, used, forgotten) = ground (
    arith,
    gone,
    used,
    forgotten,
    looked_up-slot now ttl writes (hash_key tools raw) hashed
        (active_key (hash_key tools raw) keys.rows) keys.cache (λ same. rw same gone),
  )

  issue-IsGone :
      (now id project_id : ℕ) (name raw : String) (keys : Keys)
      → IsGone t hashed keys
      → IsGone t hashed (step tools ttl interval now (issue id project_id name raw) keys)
  unfolding IsGone step
  issue-IsGone now id project_id name raw keys (gone, used, forgotten) =
      rw (rows_after-create_api_key tools id project_id name raw keys.rows) (
        insert_key-gone (new_key tools id project_id name raw) hashed keys.rows gone used,
        insert_key-holds_hash (new_key tools id project_id name raw) hashed keys.rows used,
        forgotten,
      )

  -- No request of any kind brings a revoked key back.
  step-IsGone :
      (now : ℕ) (act : Act) (keys : Keys)
      → IsGone t hashed keys
      → IsGone t hashed (step tools ttl interval now act keys)
  unfolding step
  step-IsGone now (authenticate raw reads writes) keys h =
      authenticate-IsGone now raw reads writes keys h
  step-IsGone now (mark_used raw reached) keys h =
      unfold touch_last_used in
      touched-IsGone t hashed reached now interval
        (find (λ row. str_eq row.hashed_key (hash_key tools raw)) keys.rows) keys h
  step-IsGone now (issue id project_id name raw) keys h =
      issue-IsGone now id project_id name raw keys h
  step-IsGone now (revoke key_id project_id reached) keys h =
      revoked-IsGone t now hashed reached (get_owned_api_key key_id project_id keys.rows) keys h
  step-IsGone now (begin_revoke key_id project_id reached) keys h =
      begun-IsGone t now hashed reached (get_owned_api_key key_id project_id keys.rows) keys h
  step-IsGone now (commit_revoke key_id project_id) keys h =
      committed-IsGone t now hashed (get_owned_api_key key_id project_id keys.rows) keys h

  pub run-IsGone :
      (acts : List (ℕ × Act)) (keys : Keys)
      → IsGone t hashed keys
      → IsGone t hashed (run tools ttl interval acts keys)
  unfolding run
  run-IsGone [] keys h = h
  run-IsGone ((now, act) ∷ acts) keys h =
      run-IsGone acts (step tools ttl interval now act keys) (step-IsGone now act keys h)
