-- ===== src/Sending/Job/Attempts.antt =====
-- The worker's sending.py under ARQ: the job is run again, with the next attempt number, exactly if
-- it asked for that.
use seskit.Base.{
  ℕ, suc, zero, ◌+◌, ◌≤◌, ◌<◌, Option, none, some, List, ◌≡◌, refl, arith, false, true,
}
use seskit.Address.{TextTools}
use seskit.Emails.{Email, is_sendable}
use seskit.Unsubscribe.{TokenTools}
use seskit.Sending.Job.{JobSettings, JobWorld, Step, Outcome, returned, retry, raised, send_found}
use seskit.Sending.Job.Runs.{Agrees, send_found-Agrees, is_sending}

module _ (tools : TextTools) (tokens : TokenTools) (s : JobSettings) where
  -- The runs of one job until it no longer asks for another; `none` when the fuel is used up. The
  -- surroundings of each attempt are its own.
  pub attempts :
      (fuel : ℕ) → (ℕ → JobWorld) → (attempt max_attempts : ℕ) → Email → Option (Outcome × Email)
  attempts zero worlds a m email = none
  attempts (suc fuel) worlds a m email =
      let run = send_found tools tokens (worlds a) s a m email in
      elim run.outcome [
        | returned status ↦ some (returned status, run.email)
        | raised ↦ some (raised, run.email)
        | retry defer ↦ attempts fuel worlds (suc a) m run.email
      ]

  -- How a job ends: with a settled row, or with an adapter's exception or the loss
  -- of the process.
  pub HasEnded : Outcome × Email → Type 0
  HasEnded (returned status, email) = (email.status ≡ status) × (is_sendable email ≡ false)
  HasEnded (retry defer, email) = ⊥
  HasEnded (raised, email) = is_sending email ≡ true

  EndsWell : Option (Outcome × Email) → Type 0
  EndsWell result = (end : Outcome × Email) × (result ≡ some end) × HasEnded end

  ends_after :
      (fuel : ℕ) (worlds : ℕ → JobWorld) (a m : ℕ) (o : Outcome) (email : Email) (steps : List Step)
      → Agrees a m (record { outcome = o; email = email; steps = steps })
      → (a < m → EndsWell (attempts fuel worlds (suc a) m email))
      → EndsWell (elim o [
        | returned status ↦ some (returned status, email)
        | raised ↦ some (raised, email)
        | retry defer ↦ attempts fuel worlds (suc a) m email
      ])
  unfolding Agrees EndsWell HasEnded
  ends_after fuel worlds a m (returned status) email steps agrees next =
      ((returned status, email), refl, agrees)
  ends_after fuel worlds a m raised email steps agrees next = ((raised, email), refl, agrees)
  ends_after fuel worlds a m (retry defer) email steps agrees next = next agrees.0

  attempts_end_from :
      (fuel : ℕ) (worlds : ℕ → JobWorld) (a m : ℕ) (email : Email)
      → m < a + fuel
      → a ≤ m
      → EndsWell (attempts fuel worlds a m email)
  unfolding attempts
  attempts_end_from zero worlds a m email enough within = absurd (omega arith)
  attempts_end_from (suc fuel) worlds a m email enough within =
      let run = send_found tools tokens (worlds a) s a m email in
      ends_after fuel worlds a m run.outcome run.email run.steps
        (send_found-Agrees tools tokens s (worlds a) a m email)
        (λ left. attempts_end_from fuel worlds (suc a) m run.email (omega arith) (omega arith))

  -- From the first attempt on, `max_attempts` runs are enough: the job ends with its row settled
  -- as the status that it returned, unless an adapter raised something else than an ApiError
  -- or the process was lost after the provider's answer.
  pub attempts_end :
      (worlds : ℕ → JobWorld) (m : ℕ) (email : Email)
      → 1 ≤ m
      → (end : Outcome × Email) × (attempts m worlds 1 m email ≡ some end) × HasEnded end
  unfolding EndsWell
  attempts_end worlds m email least = attempts_end_from m worlds 1 m email (omega arith) least
