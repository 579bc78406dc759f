-- ===== src/Sessions/Outlived.antt =====
-- security/sessions.py: the index of a user's sessions can be gone while a session of theirs is not.
use seskit.Base.{
  ℕ, ◌+◌, ◌≤◌, ◌<◌, ==_refl, String, eq_iff, eq_refl, none, some, ◌≡◌, ◌≢◌, arith, ok,
}
use seskit.Sessions.{
  Sessions, create_session, read_session, delete_user_sessions, found_session, session_data,
  from_fields,
}

-- A user with no other login signs in, uses the session before it expires, and has all sessions
-- ended one lifetime after the login: nothing is ended, and the session is still good.
pub read_session_outlives :
    (store : Sessions) (token csrf created : String) (user ttl login used_at ended_at : ℕ)
    → token ≢ ""
    → store.sessions token ≡ none
    → store.user_sessions user ≡ none
    → used_at < login + ttl
    → login + ttl ≤ ended_at
    → ended_at < used_at + ttl
    → let (signed_in, _, session) = create_session login token csrf created user ttl store in
      let used = (read_session used_at token ttl signed_in).1 in
      let (ended, count) = delete_user_sessions ended_at user used in
      (count ≡ 0) × ((read_session ended_at token ttl ended).0 ≡ ok (some session))
unfolding create_session read_session delete_user_sessions found_session session_data from_fields
read_session_outlives store token csrf created user ttl login used_at ended_at given fresh alone u l
      e =
    ground (arith, eq_iff token "", eq_refl token, ==_refl user)
