-- ===== src/Signing/Tests.antt =====
-- security/webhooks.py on small inputs, with a digest that shows the bytes' number.
use seskit.Base.{ℕ, ◌+◌, ◌≤◌, ◌≢◌, String, true, List, [], ◌∷◌, ◌≡◌, refl}
use seskit.Signing.{signed_payload, sign, verify}
use seskit.Signing.Binding.{verify-sign}

abbrev mac : String → List ℕ → String
mac secret bytes = secret

signed_payload_bytes :
    signed_payload 1756800000 (b'{' ∷ b'}' ∷ [])
    ≡ b'1' ∷ b'7' ∷ b'5' ∷ b'6' ∷ b'8' ∷ b'0' ∷ b'0' ∷ b'0' ∷ b'0' ∷ b'0' ∷ b'.' ∷ b'{' ∷ b'}' ∷ []
unfolding signed_payload
signed_payload_bytes = refl

-- This digest is the same for all bytes, so that the body can be exchanged.
abbrev brace : List ℕ
brace = b'{' ∷ []

abbrev bracket : List ℕ
bracket = b'[' ∷ []

abbrev time : ℕ
time = 1000

verify-sign_example :
    let verified = verify mac "k" bracket (sign mac "k" brace time).0 time 300 1300 in
    (verified ≡ true
      → (1300 ≤ time + 300)
        × (time ≤ 1300 + 300)
        × (mac "k" (signed_payload time brace) ≡ mac "k" (signed_payload time bracket)))
    × ((¬ ((time ≡ time) × (brace ≡ bracket)))
        → signed_payload time brace ≢ signed_payload time bracket)
    × (1300 ≤ time + 300 → time ≤ 1300 + 300 → time ≡ time → brace ≡ bracket → verified ≡ true)
verify-sign_example = verify-sign mac "k" brace bracket time time 300 1300

accepted : verify mac "k" (b'{' ∷ []) "v1=k" 1000 300 1300 ≡ true
unfolding verify
accepted = refl
