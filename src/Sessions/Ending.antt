-- ===== src/Sessions/Ending.antt =====
-- security/sessions.py: ending all sessions of a user.
use seskit.Base.{
  ℕ, ◌+◌, ◌≤◌, ◌<◌, ==_refl, String, eq_iff, eq_refl, false, some, List, [], ◌∷◌, is_some, any, ◌≡◌,
  arith, ok, inl, inr, Bool-cases,
}
use seskit.Redis.{value_of}
use seskit.Sessions.{
  Sessions, SessionData, add_member, create_session, read_session, set_current_project, owner_of,
  delete_user_sessions, found_session, session_data, from_fields,
}
use seskit.Sessions.Acts.{
  Act, sign_in, visit, switch, sign_out, end_all, step, run, IsOther, Within,
}
use seskit.Sessions.Tracked.{
  tracks, IsTracked, usable-expire, usable-switch, sign_in-IsTracked, sign_out-IsTracked,
  end_all-IsTracked, sessions-end_all, usable-end_all,
}

-- One act of the dashboard keeps a token tracked.
step-IsTracked :
    (until ttl now : ℕ) (token : String)
    → now < until
    → (user : ℕ) (act : Act) (store : Sessions) → until ≤ now + ttl
    → IsOther token act
    → IsTracked until token user store
    → IsTracked until token user (step ttl now act store)
unfolding IsTracked IsOther step read_session set_current_project
step-IsTracked until ttl now token early user (sign_in other csrf created owner) store late differs
      h =
    sign_in-IsTracked until ttl now token early user owner other csrf created store late differs h
step-IsTracked until ttl now token early user (visit other) store late differs h =
    ground
      (arith, h, usable-expire until ttl now token early (store.sessions token), eq_iff other token)
step-IsTracked until ttl now token early user (switch other project) store late differs h = ground (
  arith,
  h,
  usable-switch until ttl now token early project (store.sessions token),
  eq_iff other token,
)
step-IsTracked until ttl now token early user (sign_out other) store late differs h =
    sign_out-IsTracked until ttl now token early user other store h
step-IsTracked until ttl now token early user (end_all owner) store late differs h =
    end_all-IsTracked until ttl now token early user owner store h

run-IsTracked :
    (login ttl : ℕ) (token : String) (user : ℕ) (acts : List (ℕ × Act)) (store : Sessions)
    → Within login ttl token acts
    → IsTracked (login + ttl) token user store
    → IsTracked (login + ttl) token user (run ttl acts store)
unfolding run Within
run-IsTracked login ttl token user [] store within h = h
run-IsTracked login ttl token user ((now, act) ∷ acts) store (late, early, differs, within) h =
    run-IsTracked login ttl token user acts (step ttl now act store) within
      (step-IsTracked (login + ttl) ttl now token early user act store (omega arith) differs h)

create_session-IsTracked :
    (login ttl : ℕ) (token csrf created : String) (user : ℕ) (store : Sessions)
    → IsTracked (login + ttl) token user (create_session login token csrf created user ttl store).0
unfolding create_session IsTracked tracks add_member any
create_session-IsTracked login ttl token csrf created user store =
    ground (arith, eq_refl token, ==_refl user)

read_session-unusable :
    (token : String) (now ttl : ℕ) (store : Sessions)
    → is_some (owner_of (value_of (store.sessions token))) ≡ false
    → (session : SessionData) → ¬ ((read_session now token ttl store).0 ≡ ok (some session))
unfolding read_session found_session session_data from_fields owner_of
read_session-unusable token now ttl store f session = ground (arith, f)

-- No session of the token that can be read is left.
read_session-ended :
    (until ttl now : ℕ) (token : String) (user : ℕ) (store : Sessions)
    → now < until
    → IsTracked until token user store
    → (session : SessionData)
    → ¬ ((read_session now token ttl (delete_user_sessions now user store).0).0 ≡ ok (some session))
read_session-ended until ttl now token user store early h session =
    read_session-unusable token now ttl (delete_user_sessions now user store).0
      (elim (Bool-cases (tracks until token (store.user_sessions user))) [
        | inl t ↦
            unfold owner_of in
            ground (arith, sessions-end_all until ttl now token early user store t)
        | inr f ↦
            usable-end_all until ttl now token early user store
              (unfold IsTracked in ground (arith, h, f))
      ])
      session

-- Whatever the dashboard does with this and other sessions between a login and the end of the
-- session's first lifetime, ending all sessions of the user in that time ends this one: the token
-- is not good for a session any more.
pub delete_user_sessions-ends :
    (store : Sessions) (token csrf created : String) (user ttl login ended_at : ℕ)
    → (acts : List (ℕ × Act)) → Within login ttl token acts
    → ended_at < login + ttl
    → (session : SessionData)
    → let signed_in = (create_session login token csrf created user ttl store).0 in
      let ended = (delete_user_sessions ended_at user (run ttl acts signed_in)).0 in
      ¬ ((read_session ended_at token ttl ended).0 ≡ ok (some session))
delete_user_sessions-ends store token csrf created user ttl login ended_at acts within early
      session =
    let signed_in = (create_session login token csrf created user ttl store).0 in
    read_session-ended (login + ttl) ttl ended_at token user (run ttl acts signed_in) early
      (run-IsTracked login ttl token user acts signed_in within
        (create_session-IsTracked login ttl token csrf created user store))
      session
