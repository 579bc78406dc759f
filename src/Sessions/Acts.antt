-- ===== src/Sessions/Acts.antt =====
-- security/sessions.py: histories of what the dashboard does with sessions.
use seskit.Base.{ℕ, ◌+◌, ◌≤◌, ◌<◌, String, str_eq, false, List, [], ◌∷◌, ◌≡◌, Result, ok, err}
use seskit.Sessions.{
  Sessions, KeyError, create_session, read_session, set_current_project, delete_session,
  delete_user_sessions,
}

-- What the dashboard does with sessions.
pub data Act : Type 0 where
  sign_in : (token csrf_token created_at : String) → (user_id : ℕ) → Act
  visit : (token : String) → Act
  switch : (token : String) → (project_id : ℕ) → Act
  sign_out : (token : String) → Act
  end_all : (user_id : ℕ) → Act

abbrev pub kept_or : Sessions → Result KeyError Sessions → Sessions
kept_or store (ok after) = after
kept_or store (err e) = store

module _ (ttl : ℕ) where
  unfoldable pub step : (now : ℕ) → Act → Sessions → Sessions
  step now (sign_in token csrf created user) store =
      (create_session now token csrf created user ttl store).0
  step now (visit token) store = (read_session now token ttl store).1
  step now (switch token project) store = set_current_project now token project ttl store
  step now (sign_out token) store = kept_or store (delete_session now token store)
  step now (end_all user) store = (delete_user_sessions now user store).0

  unfoldable pub run : List (ℕ × Act) → Sessions → Sessions
  run [] store = store
  run ((now, act) ∷ acts) store = run acts (step now act store)

-- A login makes a token of its own.
unfoldable pub IsOther : String → Act → Type 0
IsOther token (sign_in other csrf created user) = str_eq other token ≡ false
IsOther token (visit other) = Unit {0}
IsOther token (switch other project) = Unit {0}
IsOther token (sign_out other) = Unit {0}
IsOther token (end_all user) = Unit {0}

-- Every act happens at a time from the login to the end of the first lifetime, and no later login
-- makes the same token.
unfoldable pub Within : (login ttl : ℕ) → String → List (ℕ × Act) → Type 0
Within login ttl token [] = Unit {0}
Within login ttl token ((now, act) ∷ acts) =
    (login ≤ now) × (now < login + ttl) × IsOther token act × Within login ttl token acts
