-- ===== src/Sessions.antt =====
-- security/sessions.py: dashboard sessions in Redis. A token is a text, a user a number; the fresh
-- token, the CSRF token and the time as text are arguments.
pub mod Acts
pub mod Deleting
pub mod Ending
pub mod Outlived
pub mod Tracked
mod Tests
use seskit.Base.{
  ℕ, suc, ◌+◌, ◌==◌, String, str_eq, Bool, true, false, Option, none, some, List, [], ◌∷◌,
  if◌then◌else◌, is_some, select, any, not, ◌&&◌, Result, ok, err,
}
use seskit.Redis.{Held, Slot, Store, live, get, value_of, write, expire, at}

-- The hash of a session; a field that was never set is not there.
pub record Hash : Type 0 where
  pub user_id : Option ℕ
  pub csrf_token : Option String
  pub created_at : Option String
  pub current_project_id : Option ℕ

pub record SessionData : Type 0 where
  pub user_id : ℕ
  pub csrf_token : String
  pub created_at : String
  pub current_project_id : Option ℕ

-- `session:{token}` and `user_sessions:{user_id}`. A set is a list without repetitions.
pub record Sessions : Type 0 where
  pub sessions : Store String Hash
  pub user_sessions : Store ℕ (List String)

-- `raw["user_id"]` of a hash without it.
pub data KeyError : Type 0 where
  key_error : KeyError

abbrev pub holds : String → List String → Bool
holds token tokens = any (str_eq token) tokens

unfoldable pub add_member : String → Option (List String) → List String
add_member token none = token ∷ []
add_member token (some tokens) = if holds token tokens then tokens else token ∷ tokens

unfoldable pub remove_member : String → List String → List String
remove_member token = select (λ t. not (str_eq token t))

-- A set without members is no key.
unfoldable pub kept_members : Option ℕ → List String → Slot (List String)
kept_members expires_at [] = none
kept_members expires_at (t ∷ rest) = some (record { value = t ∷ rest; expires_at = expires_at })

unfoldable pub without : String → Slot (List String) → Slot (List String)
unfolding kept_members remove_member
without token none = none
without token (some held) = kept_members held.expires_at (remove_member token held.value)

-- `SREM`.
unfoldable pub srem : (now : ℕ) → String → Slot (List String) → Slot (List String)
unfolding without
srem now token slot = without token (live now slot)

abbrev pub project_of : Option Hash → Option ℕ
project_of none = none
project_of (some hash) = hash.current_project_id

abbrev pub with_project : ℕ → Option Hash → Hash
with_project project_id none = record {
  user_id = none;
  csrf_token = none;
  created_at = none;
  current_project_id = some project_id;
}
with_project project_id (some hash) = record hash { current_project_id = some project_id }

unfoldable pub create_session :
    (now : ℕ)
    → (token csrf_token created_at : String) → (user_id ttl_seconds : ℕ) → Sessions
    → Sessions × String × SessionData
unfolding add_member
create_session now token csrf_token created_at user_id ttl_seconds store = (
  record {
    sessions =
        at str_eq token
          (λ slot. expire now ttl_seconds (
            write now
              (λ old. record {
                user_id = some user_id;
                csrf_token = some csrf_token;
                created_at = some created_at;
                current_project_id = project_of old;
              })
              slot))
          store.sessions;
    user_sessions =
        at ◌==◌ user_id (λ slot. expire now ttl_seconds (write now (add_member token) slot))
          store.user_sessions;
  },
  token,
  record {
    user_id = user_id;
    csrf_token = csrf_token;
    created_at = created_at;
    current_project_id = none;
  },
)

unfoldable pub from_fields :
    Option ℕ → Option String → Option String → Option ℕ → Result KeyError SessionData
from_fields (some user) (some csrf) (some created) project = ok (record {
  user_id = user;
  csrf_token = csrf;
  created_at = created;
  current_project_id = project;
})
from_fields none csrf created project = err key_error
from_fields (some user) none created project = err key_error
from_fields (some user) (some csrf) none project = err key_error

unfoldable pub session_data : Hash → Result KeyError SessionData
unfolding from_fields
session_data hash = from_fields hash.user_id hash.csrf_token hash.created_at hash.current_project_id

-- What is returned for the hash of a live session, after its expiry has been put off.
unfoldable pub found_session : Option Hash → Result KeyError (Option SessionData)
unfolding session_data
found_session none = ok none
found_session (some hash) = elim (session_data hash) [
  | ok session ↦ ok (some session)
  | err e ↦ err e
]

unfoldable pub read_session :
    (now : ℕ)
    → (token : String) → (ttl_seconds : ℕ) → Sessions
    → Result KeyError (Option SessionData) × Sessions
unfolding found_session
read_session now token ttl_seconds store = if str_eq token "" then (ok none, store) else (
  found_session (get now (store.sessions token)),
  record store { sessions = at str_eq token (expire now ttl_seconds) store.sessions },
)

-- The callers have checked that the user owns the project.
unfoldable pub set_current_project :
    (now : ℕ) → (token : String) → (project_id ttl_seconds : ℕ) → Sessions → Sessions
set_current_project now token project_id ttl_seconds store = record store {
  sessions =
      at str_eq token (λ slot. expire now ttl_seconds (write now (with_project project_id) slot))
        store.sessions;
}

unfoldable pub forget :
    (now : ℕ) → String → Option ℕ → Store ℕ (List String) → Store ℕ (List String)
unfolding srem
forget now token none indexes = indexes
forget now token (some user_id) indexes = at ◌==◌ user_id (srem now token) indexes

unfoldable pub owner_of : Option Hash → Option ℕ
owner_of none = none
owner_of (some hash) = hash.user_id

-- A hash without a user raises before anything is deleted.
unfoldable pub delete_session : (now : ℕ) → (token : String) → Sessions → Result KeyError Sessions
unfolding forget owner_of
delete_session now token store =
    let raw = get now (store.sessions token) in
    if str_eq token ""
    then ok store
    else if is_some raw && not (is_some (owner_of raw))
    then err key_error
    else ok (record {
      sessions = at str_eq token (λ slot. none) store.sessions;
      user_sessions = forget now token (owner_of raw) store.user_sessions;
    })

-- The deletions of one pipeline, with how many keys were there.
unfoldable pub delete_all : (now : ℕ) → List String → Store String Hash → Store String Hash × ℕ
delete_all now [] sessions = (sessions, 0)
delete_all now (token ∷ tokens) sessions =
    let (rest, deleted) = delete_all now tokens (at str_eq token (λ slot. none) sessions) in
    (rest, if is_some (get now (sessions token)) then suc deleted else deleted)

unfoldable pub members : Option (List String) → List String
members none = []
members (some tokens) = tokens

unfoldable pub delete_tokens : (now user_id : ℕ) → List String → Sessions → Sessions × ℕ
unfolding delete_all
delete_tokens now user_id [] store = (store, 0)
delete_tokens now user_id (token ∷ tokens) store =
    let (sessions, deleted) = delete_all now (token ∷ tokens) store.sessions in
    (
      record {
        sessions = sessions;
        user_sessions = at ◌==◌ user_id (λ slot. none) store.user_sessions;
      },
      deleted,
    )

unfoldable pub delete_user_sessions : (now user_id : ℕ) → Sessions → Sessions × ℕ
unfolding delete_tokens members
delete_user_sessions now user_id store =
    delete_tokens now user_id (members (get now (store.user_sessions user_id))) store
