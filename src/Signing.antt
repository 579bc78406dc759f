-- ===== src/Signing.antt =====
-- security/webhooks.py: signing a delivery. Bytes are numbers; `mac` is the hex digest of HMAC-SHA256
-- under the secret, a parameter.
pub mod Binding
mod Tests
use seskit.Base.{
  ℕ, zero, suc, ◌+◌, ◌-◌, ◌/◌, ◌%◌, ltb, String, str_eq, Bool, true, false, List, [], ◌∷◌, ◌++◌,
  if◌then◌else◌,
}
use Prim.Native.String.{◌++◌ as append}

-- The decimal text of a number, the last digit first onto what follows it. Each step divides by
-- ten, so as much fuel as the number is enough.
digits_onto : ℕ → ℕ → List ℕ → List ℕ
digits_onto zero n rest = (b'0' + n) ∷ rest
digits_onto (suc fuel) n rest =
    let more = digits_onto fuel (n / 10) ((b'0' + n % 10) ∷ rest) in
    if ltb n 10 then (b'0' + n) ∷ rest else more

unfoldable pub decimal : ℕ → List ℕ → List ℕ
unfolding digits_onto
decimal n rest = digits_onto n n rest

-- `f"{timestamp}.".encode() + body`
unfoldable pub signed_payload : ℕ → List ℕ → List ℕ
unfolding decimal
signed_payload timestamp body = decimal timestamp (b'.' ∷ body)

abbrev pub default_tolerance_seconds : ℕ
default_tolerance_seconds = 300

abbrev pub signature_version : String
signature_version = "v1"

module _ (mac : String → List ℕ → String) where
  -- `timestamp` is the given one, or the whole seconds of the clock.
  unfoldable pub sign : String → List ℕ → (timestamp : ℕ) → String × ℕ
  sign secret body timestamp = (
    append (append signature_version "=") (mac secret (signed_payload timestamp body)),
    timestamp,
  )

  -- `abs(current - timestamp)`; one of the two differences is zero. The signature is ASCII: for
  -- another text `compare_digest` raises.
  unfoldable pub verify :
      String → List ℕ → (signature : String) → (timestamp tolerance_seconds now : ℕ) → Bool
  unfolding sign
  verify secret body signature timestamp tolerance_seconds now =
      if ltb tolerance_seconds ((now - timestamp) + (timestamp - now))
      then false
      else str_eq (sign secret body timestamp).0 signature
