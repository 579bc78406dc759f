-- ===== src/Sending/Job/Runs.antt =====
-- The worker's sending.py: what holds of one run of the job, and of any sequence of runs on a row.
use seskit.Base.{
  ℕ, suc, ◌*◌, ◌+◌, ◌≤◌, ◌<◌, ltb, Bool, true, false, ◌&&◌, List, [], ◌∷◌, ◌++◌, Result, ok, err,
  if◌then◌else◌, ◌≡◌, refl, arith, Bool-cases, inl, inr, ◌⊎◌,
}
use seskit.Errors.{ApiError}
use seskit.Address.{TextTools}
use seskit.Emails.{sending, queued, sent, failed, Email, is_sendable, status_is_sendable}
use seskit.Unsubscribe.{TokenTools}
use seskit.Sending.{is_retryable, record_sent, record_failure}
use seskit.Sending.Job.{
  retry_backoff_seconds, JobSettings, JobWorld, Adapter, Answer, accepted, refused, crashed, Step,
  commit, call, returned, retry, raised, Run, prepare, record_answer, finish, outbound_for,
  send_with, send_found,
}

-- How many messages a provider took.
unfoldable pub accepted_calls : List Step → ℕ
accepted_calls [] = 0
accepted_calls (commit email ∷ steps) = accepted_calls steps
accepted_calls (call adapter outbound (accepted id) ∷ steps) = suc (accepted_calls steps)
accepted_calls (call adapter outbound (refused error) ∷ steps) = accepted_calls steps
accepted_calls (call adapter outbound crashed ∷ steps) = accepted_calls steps

unfoldable pub is_sending : Email → Bool
is_sending email = elim email.status [
  | sending ↦ true
  | queued ↦ false
  | sent ↦ false
  | failed ↦ false
]

-- Every call comes directly after a commit of the row as `sending`.
unfoldable pub calls_committed : (after_commit : Bool) → List Step → Bool
unfolding is_sending
calls_committed after_commit [] = true
calls_committed after_commit (commit email ∷ steps) = calls_committed (is_sending email) steps
calls_committed after_commit (call adapter outbound answer ∷ steps) =
    let rest = calls_committed false steps in after_commit && rest

accepted_calls-append :
    (a b : List Step) → accepted_calls (a ++ b) ≡ accepted_calls a + accepted_calls b
unfolding accepted_calls
accepted_calls-append [] b = ground arith
accepted_calls-append (commit email ∷ a) b = accepted_calls-append a b
accepted_calls-append (call adapter outbound (accepted id) ∷ a) b =
    ground (arith, accepted_calls-append a b)
accepted_calls-append (call adapter outbound (refused error) ∷ a) b = accepted_calls-append a b
accepted_calls-append (call adapter outbound crashed ∷ a) b = accepted_calls-append a b

-- What the outcome of a run says about the row that it leaves.
unfoldable pub Agrees : (attempt max_attempts : ℕ) → Run → Type 0
Agrees attempt max_attempts run = elim run.outcome [
  | returned status ↦ (run.email.status ≡ status) × (is_sendable run.email ≡ false)
  | retry defer ↦
      (attempt < max_attempts)
      × (defer ≡ attempt * retry_backoff_seconds)
      × (is_sending run.email ≡ true)
  | raised ↦ is_sending run.email ≡ true
]

module _ (tools : TextTools) (tokens : TokenTools) (s : JobSettings) where
  -- A run of the job on a message that is sent or failed does nothing.
  send_found_settled :
      (w : JobWorld) (a m : ℕ) (email : Email)
      → is_sendable email ≡ false
      → send_found tools tokens w s a m email
        ≡ record { outcome = returned email.status; email = email; steps = [] }
  unfolding send_found
  send_found_settled w a m email settled = rw settled refl

  record_answer-Agrees :
      (w : JobWorld) (a m : ℕ) (email : Email) (steps : List Step) (answer : Answer)
      → is_sending email ≡ true
      → Agrees a m (record_answer w s a m email steps answer)
  unfolding record_answer Agrees is_sendable status_is_sendable record_sent record_failure
      is_sending
  record_answer-Agrees w a m email steps (accepted id) is = (refl, refl)
  record_answer-Agrees w a m email steps (refused error) is =
      elim (Bool-cases (is_retryable error && ltb a m)) [
        | inl again ↦ rw again (ground (arith, again), refl, is)
        | inr last ↦ rw last (refl, refl)
      ]
  record_answer-Agrees w a m email steps crashed is = is

  finish-Agrees :
      (w : JobWorld) (a m : ℕ) (email : Email) (steps : List Step) (answer : Answer)
      → is_sending email ≡ true
      → Agrees a m (finish w s a m email steps answer)
  unfolding finish
  finish-Agrees w a m email steps answer is = elim (Bool-cases w.is_lost) [
    | inl lost ↦ rw lost (unfold Agrees in is)
    | inr kept ↦ rw kept (record_answer-Agrees w a m email steps answer is)
  ]

  sending_now : (email : Email) → is_sending (record email { status = sending }) ≡ true
  unfolding is_sending
  sending_now email = refl

  send_with-Agrees :
      (w : JobWorld) (a m : ℕ) (email : Email) (prepared : Result ApiError Adapter)
      → Agrees a m (send_with tools tokens w s a m email prepared)
  unfolding send_with Agrees
  send_with-Agrees w a m email (err error) =
      unfold record_failure is_sendable status_is_sendable in (refl, refl)
  send_with-Agrees w a m email (ok adapter) =
      finish-Agrees w a m (record email { status = sending })
        (commit (record email { status = sending })
          ∷ call adapter (outbound_for tools tokens s (record email { status = sending })) (
              w.transport adapter (outbound_for tools tokens s (record email { status = sending })))
          ∷ [])
        _ (sending_now email)

  -- A run that returns a status leaves the row with that status and settled. A run that asks for
  -- another attempt has attempts left, waits 30 seconds for each attempt so far, and
  -- leaves the row as `sending`; so does a run that an adapter's exception or the loss of the
  -- process ends.
  pub send_found-Agrees :
      (w : JobWorld) (a m : ℕ) (email : Email) → Agrees a m (send_found tools tokens w s a m email)
  unfolding send_found
  send_found-Agrees w a m email = elim (Bool-cases (is_sendable email)) [
    | inl open_ ↦ rw open_ (send_with-Agrees w a m email (prepare w s email))
    | inr settled ↦ rw settled (unfold Agrees in (refl, settled))
  ]

  -- The job over one row, again and again: each run has its own surroundings and attempt number.
  unfoldable pub history : List (JobWorld × ℕ × ℕ) → Email → Email × List Step
  history [] email = (email, [])
  history ((w, a, m) ∷ rest) email =
      let run = send_found tools tokens w s a m email in
      let (last, steps) = history rest run.email in (last, run.steps ++ steps)

  -- One run has at most one message accepted, and then the row is settled.
  pub IsOnce : Run → Type 0
  IsOnce run =
      (accepted_calls run.steps ≡ 0)
      ⊎ ((accepted_calls run.steps ≡ 1) × (is_sendable run.email ≡ false))

  -- The same of a run that may be lost before it records the acceptance.
  pub IsOnceIn : JobWorld → Run → Type 0
  IsOnceIn w run = IsOnce run ⊎ ((w.is_lost ≡ true) × (accepted_calls run.steps ≤ 1))

  -- How many runs of a sequence are lost.
  unfoldable pub losses : List (JobWorld × ℕ × ℕ) → ℕ
  losses [] = 0
  losses ((w, a, m) ∷ rest) = let more = losses rest in if w.is_lost then suc more else more

  record_answer-IsOnce :
      (w : JobWorld) (a m : ℕ) (email : Email) (adapter : Adapter) (answer : Answer)
      → IsOnce (
          record_answer w s a m email
            (commit email ∷ call adapter (outbound_for tools tokens s email) answer ∷ [])
            answer)
  unfolding record_answer IsOnce accepted_calls record_sent is_sendable status_is_sendable
  record_answer-IsOnce w a m email adapter (accepted id) = inr (refl, refl)
  record_answer-IsOnce w a m email adapter (refused error) =
      elim (Bool-cases (is_retryable error && ltb a m)) [
        | inl again ↦ rw again (inl refl)
        | inr last ↦ rw last (inl refl)
      ]
  record_answer-IsOnce w a m email adapter crashed = inl refl

  one_call :
      (email : Email) (adapter : Adapter) (answer : Answer)
      → accepted_calls (commit email ∷ call adapter (outbound_for tools tokens s email) answer ∷ [])
        ≤ 1
  unfolding accepted_calls
  one_call email adapter (accepted id) = omega arith
  one_call email adapter (refused error) = omega arith
  one_call email adapter crashed = omega arith

  finish-IsOnceIn :
      (w : JobWorld) (a m : ℕ) (email : Email) (adapter : Adapter) (answer : Answer)
      → IsOnceIn w (
          finish w s a m email
            (commit email ∷ call adapter (outbound_for tools tokens s email) answer ∷ [])
            answer)
  unfolding finish IsOnceIn
  finish-IsOnceIn w a m email adapter answer = elim (Bool-cases w.is_lost) [
    | inl lost ↦ rw lost (inr (refl, one_call email adapter answer))
    | inr kept ↦ rw kept (inl (record_answer-IsOnce w a m email adapter answer))
  ]

  send_with-IsOnceIn :
      (w : JobWorld) (a m : ℕ) (email : Email) (prepared : Result ApiError Adapter)
      → IsOnceIn w (send_with tools tokens w s a m email prepared)
  unfolding send_with
  send_with-IsOnceIn w a m email (err error) =
      unfold IsOnceIn IsOnce accepted_calls in inl (inl refl)
  send_with-IsOnceIn w a m email (ok adapter) =
      finish-IsOnceIn w a m (record email { status = sending }) adapter _

  send_found-IsOnceIn :
      (w : JobWorld) (a m : ℕ) (email : Email) → IsOnceIn w (send_found tools tokens w s a m email)
  unfolding send_found
  send_found-IsOnceIn w a m email = elim (Bool-cases (is_sendable email)) [
    | inl open_ ↦ rw open_ (send_with-IsOnceIn w a m email (prepare w s email))
    | inr settled ↦ rw settled (unfold IsOnceIn IsOnce accepted_calls in inl (inl refl))
  ]

  -- However often the job runs on a settled row, it changes nothing and calls nobody.
  pub history_settled :
      (runs : List (JobWorld × ℕ × ℕ)) (email : Email)
      → is_sendable email ≡ false
      → history runs email ≡ (email, [])
  unfolding history
  history_settled [] email settled = refl
  history_settled ((w, a, m) ∷ runs) email settled =
      rw (send_found_settled w a m email settled, history_settled runs email settled) refl

  -- However often the job runs on a row, in whatever surroundings and with whatever answers, the
  -- providers take its message once at most, and once more at most for each run that is lost between
  -- the provider's answer and the commit of it.
  pub history_once :
      (runs : List (JobWorld × ℕ × ℕ)) (email : Email)
      → accepted_calls (history runs email).1 ≤ suc (losses runs)
  unfolding history IsOnce IsOnceIn losses
  history_once [] email = unfold accepted_calls in omega arith
  history_once ((w, a, m) ∷ runs) email =
      let run = send_found tools tokens w s a m email in
      elim (send_found-IsOnceIn w a m email) [
        | inl (inl nothing) ↦
            rw accepted_calls-append (ground (arith, nothing, history_once runs run.email))
        | inl (inr (one, settled)) ↦
            rw (history_settled runs run.email settled, accepted_calls-append)
              (unfold accepted_calls in ground (arith, one))
        | inr (lost, one) ↦
            rw accepted_calls-append (ground (arith, lost, one, history_once runs run.email))
      ]
