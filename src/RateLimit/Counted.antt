-- ===== src/RateLimit/Counted.antt =====
-- security/ratelimit.py: what a history of requests leaves in the counters.
use seskit.Base.{
  ℕ, suc, ◌+◌, ◌-◌, ◌≤◌, ◌<◌, leb, ◌==◌, ==_refl, Bool, true, false, ◌&&◌, none, some, List, [],
  ◌∷◌, if◌then◌else◌, ◌≡◌, refl, ap, arith, Bool-cases, inl, inr,
}
use seskit.Redis.{Slot, get, at}
use seskit.RateLimit.{
  RateKey, Counters, same_key, window_start_of, or_zero, counted, check_rate_limit,
  reset_rate_limit,
}
use native.Mathlib.Omega.{div_any}
use native.Mathlib.Nat.{mod-lt}

pub data Act : Type 0 where
  request : (project_id : ℕ) → (reached : Bool) → Act
  reset : (project_id : ℕ) → Act

module _ (limit window : ℕ) where
  unfoldable pub step : (now : ℕ) → Act → Counters → Counters
  step now (request project_id reached) counters =
      (check_rate_limit reached now project_id limit window counters).1
  step now (reset project_id) counters = reset_rate_limit now project_id window counters

  unfoldable pub run : List (ℕ × Act) → Counters → Counters
  run [] counters = counters
  run ((now, act) ∷ acts) counters = run acts (step now act counters)

  -- The requests of a project that a window has counted, after `n` that it had before.
  unfoldable pub tally_act : (project_id start now : ℕ) → Act → ℕ → ℕ
  tally_act project_id start now (request project true) n =
      if (project == project_id) && (window_start_of now window == start) then suc n else n
  tally_act project_id start now (request project false) n = n
  tally_act project_id start now (reset project) n =
      if (project == project_id) && (window_start_of now window == start) then 0 else n

  unfoldable pub tally : (project_id start : ℕ) → List (ℕ × Act) → ℕ → ℕ
  tally project_id start [] n = n
  tally project_id start ((now, act) ∷ acts) n =
      tally project_id start acts (tally_act project_id start now act n)

-- A slot that counts `n` until the window is over.
unfoldable pub Counts : (until n : ℕ) → Slot ℕ → Type 0
Counts until n none = n ≡ 0
Counts until n (some held) =
    (held.value ≡ n) × (elim held.expires_at [ none ↦ ⊥ | some e ↦ until ≤ e ])

window_start_le : (now window : ℕ) → window_start_of now window ≤ now
unfolding window_start_of
window_start_le now window = ground (arith, div_any now window)

window_end : (now window : ℕ) → 0 < window → now < window_start_of now window + window
unfolding window_start_of
window_end now window h = ground (arith, div_any now window, mod-lt now h)

get-Counts :
    (until n now : ℕ) (slot : Slot ℕ)
    → now < until
    → Counts until n slot
    → or_zero (get now slot) ≡ n
unfolding Counts
get-Counts until n now none early h = ground (arith, h)
get-Counts until n now (some held) early h = ground (arith, h, early)

counted-Counts :
    (until n now window : ℕ) (slot : Slot ℕ)
    → now < until
    → until ≤ now + window
    → Counts until n slot
    → Counts until (suc n) (counted now window slot)
unfolding Counts counted
counted-Counts until n now window none early late h = ground (arith, h, late)
counted-Counts until n now window (some held) early late h = ground (arith, h, early)

-- Both commands of a request that is counted see the slot as it will be.
pub step-Counts :
    (limit window now project start n : ℕ) (act : Act) (counters : Counters)
    → 0 < window
    → Counts (start + window) n (counters (record { project_id = project; window_start = start }))
    → Counts
        (start + window)
        (tally_act limit window project start now act n)
        (step limit window now act counters (record { project_id = project; window_start = start }))
unfolding tally_act step check_rate_limit reset_rate_limit same_key
step-Counts limit window now project start n (request owner true) counters wide h =
    elim (Bool-cases ((owner == project) && (window_start_of now window == start))) [
      | inl same ↦ rw same (
          counted-Counts (start + window) n now window
            (counters (record { project_id = project; window_start = start }))
            (ground (arith, same, window_end now window wide))
            (ground (arith, same, window_start_le now window)) h)
      | inr differs ↦ rw differs h
    ]
step-Counts limit window now project start n (request owner false) counters wide h = h
step-Counts limit window now project start n (reset owner) counters wide h =
    elim (Bool-cases ((owner == project) && (window_start_of now window == start))) [
      | inl same ↦ rw same (unfold Counts in refl)
      | inr differs ↦ rw differs h
    ]

run-Counts :
    (limit window project start n : ℕ) (acts : List (ℕ × Act)) (counters : Counters)
    → 0 < window
    → Counts (start + window) n (counters (record { project_id = project; window_start = start }))
    → Counts
        (start + window)
        (tally limit window project start acts n)
        (run limit window acts counters (record { project_id = project; window_start = start }))
unfolding run tally
run-Counts limit window project start n [] counters wide h = h
run-Counts limit window project start n ((now, act) ∷ acts) counters wide h =
    run-Counts limit window project start (tally_act limit window project start now act n) acts
      (step limit window now act counters) wide
      (step-Counts limit window now project start n act counters wide h)

abbrev pub no_counters : Counters
no_counters = λ key. none

-- What the request sees after its own increment.
used-Counts :
    (now window project n : ℕ) (counters : Counters)
    → 0 < window
    → Counts
        (window_start_of now window + window)
        n
        (counters (record { project_id = project; window_start = window_start_of now window }))
    → or_zero (
        get now (
          counted now window (
            counters (record { project_id = project; window_start = window_start_of now window }))))
      ≡ suc n
used-Counts now window project n counters wide h =
    get-Counts (window_start_of now window + window) (suc n) now
      (counted now window
        (counters (record { project_id = project; window_start = window_start_of now window })))
      (window_end now window wide)
      (counted-Counts (window_start_of now window + window) n now window
        (counters (record { project_id = project; window_start = window_start_of now window }))
        (window_end now window wide) (ground (arith, window_start_le now window)) h)

-- The same, of the store that the pipeline leaves.
pub used-at :
    (now window project n : ℕ) (counters : Counters)
    → 0 < window
    → Counts
        (window_start_of now window + window)
        n
        (counters (record { project_id = project; window_start = window_start_of now window }))
    → or_zero (
        get now (
          at same_key
            (record { project_id = project; window_start = window_start_of now window })
            (counted now window)
            counters
            (record { project_id = project; window_start = window_start_of now window })))
      ≡ suc n
unfolding same_key
used-at now window project n counters wide h = ground (
  arith,
  used-Counts now window project n counters wide h,
  ==_refl project,
  ==_refl (window_start_of now window),
)

pub no_counters-Counts : (until : ℕ) (key : RateKey) → Counts until 0 (no_counters key)
unfolding Counts
no_counters-Counts until key = refl

-- Whatever has been asked before, by this project and by others, in this window and in others: a
-- request that is counted is allowed exactly while the window's earlier counted requests of its
-- project, since the last reset of that window, are fewer than the limit, and the status says how
-- many are left and when the window ends.
pub check_rate_limit_exact :
    (limit window : ℕ) (acts : List (ℕ × Act)) (now project : ℕ)
    → 0 < window
    → let start = window_start_of now window in
      let used = tally limit window project start acts 0 in
      (check_rate_limit true now project limit window (run limit window acts no_counters)).0
      ≡ record {
        allowed = leb (suc used) limit;
        limit = limit;
        remaining = limit - suc used;
        reset_at = start + window;
      }
unfolding check_rate_limit
check_rate_limit_exact limit window acts now project wide =
    ap
      (λ used. (record {
        allowed = leb used limit;
        limit = limit;
        remaining = limit - used;
        reset_at = window_start_of now window + window;
      }))
      (used-at now window project (tally limit window project (window_start_of now window) acts 0)
        (run limit window acts no_counters) wide
        (run-Counts limit window project (window_start_of now window) 0 acts no_counters wide (
          no_counters-Counts (window_start_of now window + window)
            (record { project_id = project; window_start = window_start_of now window }))))
