-- ===== src/Sending/Job/Calls.antt =====
-- The worker's sending.py: when a provider is called.
use seskit.Base.{
  ℕ, ltb, Bool, true, false, ◌&&◌, List, [], ◌∷◌, ◌++◌, Result, ok, err, ◌≡◌, refl, arith,
  Bool-cases, inl, inr,
}
use seskit.Errors.{ApiError}
use seskit.Address.{TextTools}
use seskit.Emails.{sending, Email, is_sendable}
use seskit.Unsubscribe.{TokenTools}
use seskit.Sending.{is_retryable}
use seskit.Sending.Job.{
  JobSettings, JobWorld, Adapter, Answer, accepted, refused, crashed, Step, commit, call, prepare,
  record_answer, finish, outbound_for, send_with, send_found,
}
use seskit.Sending.Job.Runs.{calls_committed, is_sending, history}

calls_committed-append :
    (a b : List Step) (before : Bool)
    → ((any : Bool) → calls_committed any b ≡ true)
    → calls_committed before a ≡ true
    → calls_committed before (a ++ b) ≡ true
unfolding calls_committed
calls_committed-append [] b before all h = all before
calls_committed-append (commit email ∷ a) b before all h =
    calls_committed-append a b (is_sending email) all h
calls_committed-append (call adapter outbound answer ∷ a) b before all h =
    ground (arith, calls_committed-append a b false all)

module _ (tools : TextTools) (tokens : TokenTools) (s : JobSettings) where
  record_answer-committed :
      (w : JobWorld) (a m : ℕ) (email : Email) (adapter : Adapter) (before : Bool) (answer : Answer)
      → is_sending email ≡ true
      → calls_committed before
          (record_answer w s a m email
            (commit email ∷ call adapter (outbound_for tools tokens s email) answer ∷ [])
            answer).steps
        ≡ true
  unfolding record_answer calls_committed
  record_answer-committed w a m email adapter before (accepted id) is = rw is refl
  record_answer-committed w a m email adapter before (refused error) is =
      elim (Bool-cases (is_retryable error && ltb a m)) [
        | inl again ↦ rw (again, is) refl
        | inr last ↦ rw (last, is) refl
      ]
  record_answer-committed w a m email adapter before crashed is = rw is refl

  finish-committed :
      (w : JobWorld) (a m : ℕ) (email : Email) (adapter : Adapter) (before : Bool) (answer : Answer)
      → is_sending email ≡ true
      → calls_committed before
          (finish w s a m email
            (commit email ∷ call adapter (outbound_for tools tokens s email) answer ∷ [])
            answer).steps
        ≡ true
  unfolding finish
  finish-committed w a m email adapter before answer is = elim (Bool-cases w.is_lost) [
    | inl lost ↦ rw lost (unfold calls_committed in rw is refl)
    | inr kept ↦ rw kept (record_answer-committed w a m email adapter before answer is)
  ]

  send_with-committed :
      (w : JobWorld) (a m : ℕ) (email : Email) (prepared : Result ApiError Adapter) (before : Bool)
      → calls_committed before (send_with tools tokens w s a m email prepared).steps ≡ true
  unfolding send_with
  send_with-committed w a m email (err error) before = unfold calls_committed in refl
  send_with-committed w a m email (ok adapter) before =
      finish-committed w a m (record email { status = sending }) adapter before _
        (unfold is_sending in refl)

  send_found-committed :
      (w : JobWorld) (a m : ℕ) (email : Email) (before : Bool)
      → calls_committed before (send_found tools tokens w s a m email).steps ≡ true
  unfolding send_found
  send_found-committed w a m email before = elim (Bool-cases (is_sendable email)) [
    | inl open_ ↦ rw open_ (send_with-committed w a m email (prepare w s email) before)
    | inr settled ↦ rw settled (unfold calls_committed in refl)
  ]

  -- Over any sequence of runs on a row, every call of a provider comes directly after a commit of
  -- the row as `sending`.
  pub history-committed :
      (runs : List (JobWorld × ℕ × ℕ)) (email : Email) (before : Bool)
      → calls_committed before (history tools tokens s runs email).1 ≡ true
  unfolding history
  history-committed [] email before = unfold calls_committed in refl
  history-committed ((w, a, m) ∷ runs) email before =
      calls_committed-append _ _ before
        (history-committed runs (send_found tools tokens w s a m email).email)
        (send_found-committed w a m email before)
