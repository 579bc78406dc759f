-- ===== src/RateLimit/Admitted.antt =====
-- security/ratelimit.py: how many requests of a project one window lets through.
use seskit.Base.{
  ℕ, suc, ◌+◌, ◌-◌, ◌*◌, ◌/◌, ltb, inl, inr, Bool-cases, ◌≤◌, ◌<◌, leb, ◌==◌, Bool, true, false,
  ◌&&◌, List, [], ◌∷◌, if◌then◌else◌, ◌≡◌, ap, arith,
}
use native.Mathlib.Nat.{le-div_iff_mul-le}
use seskit.RateLimit.{Counters, window_start_of, check_rate_limit}
use seskit.RateLimit.Counted.{
  Act, request, reset, step, tally_act, Counts, step-Counts, used-at, no_counters,
  no_counters-Counts,
}

-- Every second from the first one of a window up to the next window is counted in it.
window_start_of_within :
    (now window k : ℕ)
    → 0 < window
    → (leb (k * window) now && ltb now (k * window + window)) ≡ true
    → window_start_of now window ≡ k * window
unfolding window_start_of
window_start_of_within now window k wide within =
    let first : k * window ≤ now = ground (arith, within) in
    let last : now < k * window + window = ground (arith, within) in
    let above : k ≤ now / window =
      (le-div_iff_mul-le {k = window} {x = k} {y = now} wide).1 first in
    let below : now / window < suc k = elim (Bool-cases (leb (suc k) (now / window))) [
      | inr small ↦ ground (arith, small)
      | inl large ↦
          let over : suc k * window ≤ now =
            (le-div_iff_mul-le {k = window} {x = suc k} {y = now} wide).0 (ground (arith, large)) in
          absurd (omega (arith, over, last))
    ] in
    let same : now / window ≡ k = omega (arith, above, below) in ap (λ q. q * window) same

module _ (limit window project k : ℕ) where
  -- The first second of the window.
  abbrev start : ℕ
  start = k * window

  -- Whether an act is a request of the project in the window that is counted and let through.
  unfoldable pub admits : (now : ℕ) → Act → Counters → Bool
  admits now (request owner true) counters =
      (owner == project)
      && (leb start now && ltb now (start + window))
      && (check_rate_limit true now owner limit window counters).0.allowed
  admits now (request owner false) counters = false
  admits now (reset owner) counters = false

  unfoldable pub admitted : List (ℕ × Act) → Counters → ℕ
  admitted [] counters = 0
  admitted ((now, act) ∷ acts) counters =
      let rest = admitted acts (step limit window now act counters) in
      if admits now act counters then suc rest else rest

  -- Nobody resets the project's window.
  unfoldable pub IsUnreset : List (ℕ × Act) → Type 0
  IsUnreset [] = Unit {0}
  IsUnreset ((now, request owner reached) ∷ acts) = IsUnreset acts
  IsUnreset ((now, reset owner) ∷ acts) = ((owner == project) ≡ false) × IsUnreset acts

  allowed-Counts :
      (now n : ℕ) (counters : Counters)
      → 0 < window
      → window_start_of now window ≡ start
      → Counts (start + window) n (counters (record { project_id = project; window_start = start }))
      → (check_rate_limit true now project limit window counters).0.allowed ≡ leb (suc n) limit
  unfolding check_rate_limit
  allowed-Counts now n counters wide same h =
      ap (λ used. leb used limit) (used-at now window project n counters wide (rw same h))

  admits_parts :
      (now owner : ℕ) (counters : Counters)
      → 0 < window
      → admits now (request owner true) counters ≡ true
      → (owner ≡ project)
        × (window_start_of now window ≡ start)
        × ((check_rate_limit true now owner limit window counters).0.allowed ≡ true)
  unfolding admits
  admits_parts now owner counters wide admit = (
    ground (arith, admit),
    window_start_of_within now window k wide (ground (arith, admit)),
    ground (arith, admit),
  )

  -- A request that is let through is one that the slot counts, below the limit.
  admits-Counts :
      (now n : ℕ) (act : Act) (counters : Counters)
      → 0 < window
      → Counts (start + window) n (counters (record { project_id = project; window_start = start }))
      → admits now act counters ≡ true
      → (suc n ≤ limit) × (tally_act limit window project start now act n ≡ suc n)
  unfolding admits tally_act
  admits-Counts now n (request owner true) counters wide h admit =
      let (own, here, allowed) = admits_parts now owner counters wide admit in
      ground (
        arith,
        own,
        here,
        ap (λ o. (check_rate_limit true now o limit window counters).0.allowed) own,
        allowed,
        allowed-Counts now n counters wide here h,
      )
  admits-Counts now n (request owner false) counters wide h admit = ground (arith, admit)
  admits-Counts now n (reset owner) counters wide h admit = ground (arith, admit)

  tally_act_le :
      (now n : ℕ) (act : Act) (acts : List (ℕ × Act))
      → IsUnreset ((now, act) ∷ acts)
      → (n ≤ tally_act limit window project start now act n) × IsUnreset acts
  unfolding tally_act IsUnreset
  tally_act_le now n (request owner true) acts h = ground (arith, h)
  tally_act_le now n (request owner false) acts h = ground (arith, h)
  tally_act_le now n (reset owner) acts h = ground (arith, h)

  admitted-Counts :
      (n : ℕ) (acts : List (ℕ × Act)) (counters : Counters)
      → 0 < window
      → IsUnreset acts
      → Counts (start + window) n (counters (record { project_id = project; window_start = start }))
      → admitted acts counters ≤ limit - n
  unfolding admitted
  admitted-Counts n [] counters wide unreset h = omega arith
  admitted-Counts n ((now, act) ∷ acts) counters wide unreset h =
      let (grows, later) = tally_act_le now n act acts unreset in
      ground (
        arith,
        grows,
        admits-Counts now n act counters wide h,
        admitted-Counts (tally_act limit window project start now act n) acts
            (step limit window now act counters) wide later
            (step-Counts limit window now project start n act counters wide h),
      )

-- However the requests of a project and of others are spread, and at whatever times they come: of
-- those that reach Redis in the seconds from a multiple of the window up to the next one, no more
-- than the limit are let through for a project, unless the project's counter is reset.
pub admitted_bounded :
    (limit window project k : ℕ) (acts : List (ℕ × Act))
    → 0 < window
    → IsUnreset limit window project k acts
    → admitted limit window project k acts no_counters ≤ limit
admitted_bounded limit window project k acts wide unreset = ground (
  arith,
  admitted-Counts limit window project k 0 acts no_counters wide unreset (
      no_counters-Counts (k * window + window)
        (record { project_id = project; window_start = k * window })),
)
