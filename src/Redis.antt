-- ===== src/Redis.antt =====
-- The keys of Redis that the program uses: a value with the second at which it is gone. A store maps
-- a key to its slot, and every command reads the clock as `now`.
use seskit.Base.{ℕ, ◌+◌, leb, Bool, false, Option, none, some, if◌then◌else◌, is_some}

pub record Held {ℓ} (V : Type ℓ) : Type ℓ where
  pub value : V
  pub expires_at : Option ℕ

abbrev pub Slot {ℓ} : Type ℓ → Type ℓ
Slot V = Option (Held V)

abbrev pub is_gone : (now : ℕ) → Option ℕ → Bool
is_gone now none = false
is_gone now (some t) = leb t now

module _ {ℓ} {V : Type ℓ} where
  -- What a command sees of a key.
  abbrev pub live : (now : ℕ) → Slot V → Slot V
  live now none = none
  live now (some held) = if is_gone now held.expires_at then none else some held

  abbrev pub value_of : Slot V → Option V
  value_of none = none
  value_of (some held) = some held.value

  -- `GET`, `HGETALL`, `SMEMBERS`.
  abbrev pub get : (now : ℕ) → Slot V → Option V
  get now slot = value_of (live now slot)

  -- A write of part of a value: it keeps the key's expiry, and makes a key that is not there.
  abbrev pub amended : (Option V → V) → Slot V → Slot V
  amended f none = some (record { value = f none; expires_at = none })
  amended f (some held) =
      some (record { value = f (some held.value); expires_at = held.expires_at })

  abbrev pub write : (now : ℕ) → (Option V → V) → Slot V → Slot V
  write now f slot = amended f (live now slot)

  abbrev pub timed : (expires_at : ℕ) → Slot V → Slot V
  timed t none = none
  timed t (some held) = some (record { value = held.value; expires_at = some t })

  -- `EXPIRE`: a key that is not there stays away.
  abbrev pub expire : (now seconds : ℕ) → Slot V → Slot V
  expire now seconds slot = timed (now + seconds) (live now slot)

  abbrev pub timed_once : (expires_at : ℕ) → Slot V → Slot V
  timed_once t none = none
  timed_once t (some held) = some (record {
    value = held.value;
    expires_at = if is_some held.expires_at then held.expires_at else some t;
  })

  -- `EXPIRE … NX`: only a key without an expiry gets one.
  abbrev pub expire_nx : (now seconds : ℕ) → Slot V → Slot V
  expire_nx now seconds slot = timed_once (now + seconds) (live now slot)

  -- `SET … EX`.
  abbrev pub set_ex : (now seconds : ℕ) → V → Slot V
  set_ex now seconds v = some (record { value = v; expires_at = some (now + seconds) })

abbrev pub Store {ℓ κ} : Type ℓ → Type κ → Type (ℓ ⊔ κ)
Store K V = K → Slot V

-- One key's slot is replaced.
abbrev pub at {ℓ κ} :
    {K : Type ℓ} {V : Type κ} → (K → K → Bool) → K → (Slot V → Slot V) → Store K V → Store K V
at same key f store other = if same key other then f (store other) else store other
