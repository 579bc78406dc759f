-- ===== src/Sessions/Tests.antt =====
-- security/sessions.py: the theorems at concrete histories.
use seskit.Base.{ℕ, eq_iff, none, some, List, [], ◌∷◌, ◌≡◌, refl, arith, ok}
use seskit.Sessions.{Sessions, SessionData, create_session, read_session, delete_user_sessions}
use seskit.Sessions.Acts.{Act, sign_in, visit, switch, IsOther, Within, run}
use seskit.Sessions.Ending.{delete_user_sessions-ends}
use seskit.Sessions.Outlived.{read_session_outlives}

abbrev no_sessions : Sessions
no_sessions = record { sessions = λ token. none; user_sessions = λ user. none }

abbrev ada : SessionData
ada = record { user_id = 7; csrf_token = "csrf"; created_at = "monday"; current_project_id = none }

abbrev history : List (ℕ × Act)
history =
    (110, visit "first") ∷ (120, sign_in "second" "c" "monday" 7) ∷ (130, switch "first" 3) ∷ []

history-Within : Within 100 60 "first" history
unfolding Within IsOther
history-Within = ground arith

delete_user_sessions-ends_example :
    let signed_in = (create_session 100 "first" "csrf" "monday" 7 60 no_sessions).0 in
    let ended = (delete_user_sessions 140 7 (run 60 history signed_in)).0 in
    ¬ ((read_session 140 "first" 60 ended).0 ≡ ok (some ada))
delete_user_sessions-ends_example =
    delete_user_sessions-ends no_sessions "first" "csrf" "monday" 7 60 100 140 history
      history-Within (omega arith) ada

read_session_outlives_example :
    let (signed_in, _, session) = create_session 100 "first" "csrf" "monday" 7 60 no_sessions in
    let used = (read_session 150 "first" 60 signed_in).1 in
    let (ended, count) = delete_user_sessions 170 7 used in
    (count ≡ 0) × ((read_session 170 "first" 60 ended).0 ≡ ok (some session))
read_session_outlives_example =
    read_session_outlives no_sessions "first" "csrf" "monday" 7 60 100 150 170
      (ground (arith, eq_iff "first" "")) refl refl (omega arith) (omega arith) (omega arith)
