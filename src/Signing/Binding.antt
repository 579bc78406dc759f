-- ===== src/Signing/Binding.antt =====
-- security/webhooks.py: a signature binds the time and the body, and goes out of date.
use seskit.Base.{
  ℕ, zero, suc, ◌+◌, ◌-◌, ◌*◌, ◌/◌, ◌%◌, ◌≤◌, ◌<◌, ltb, leb, String, eq_iff, eq_refl, true, ◌&&◌,
  ◌≢◌, List, [], ◌∷◌, if◌then◌else◌, ◌≡◌, refl, Bool-cases, inl, inr, ap, ◌∙◌, arith,
}
use text.Mathlib.TextLemmas.{append_cancel_left}
use seskit.Signing.{digits_onto, signed_payload, sign, verify}

-- Reading a number off the front of some bytes.
read : ℕ → List ℕ → ℕ × List ℕ
read n [] = (n, [])
read n (c ∷ cs) =
    let more = read (n * 10 + (c - b'0')) cs in
    if leb b'0' c && leb c b'9' then more else (n, c ∷ cs)

read_digit : (n d : ℕ) (cs : List ℕ) → d < 10 → read n ((b'0' + d) ∷ cs) ≡ read (n * 10 + d) cs
unfolding read
read_digit n d cs h = let back : b'0' + d - b'0' ≡ d = omega arith in rw back (ground arith)

read-digits_onto :
    (fuel n : ℕ) (rest : List ℕ) → n ≤ fuel → read 0 (digits_onto fuel n rest) ≡ read n rest
unfolding digits_onto
read-digits_onto zero n rest h =
    read_digit 0 n rest (omega arith) ∙ ap (λ m. read m rest) (omega arith)
read-digits_onto (suc fuel) n rest h = elim (Bool-cases (ltb n 10)) [
  | inl small ↦ rw small (read_digit 0 n rest (ground arith) ∙ ap (λ m. read m rest) (omega arith))
  | inr large ↦ rw large (
      read-digits_onto fuel (n / 10) ((b'0' + n % 10) ∷ rest) (ground arith)
      ∙ read_digit (n / 10) (n % 10) rest (omega arith)
      ∙ ap (λ m. read m rest) (omega arith))
]

read-signed_payload :
    (timestamp : ℕ) (body : List ℕ)
    → read 0 (signed_payload timestamp body) ≡ (timestamp, b'.' ∷ body)
unfolding signed_payload
read-signed_payload timestamp body =
    read-digits_onto timestamp timestamp (b'.' ∷ body) (omega arith) ∙ unfold read in refl

-- The signed bytes determine the time and the body: no other request has the same ones, so a
-- signature cannot be moved to another time or another body.
pub signed_payload_injective :
    (t t' : ℕ) (body body' : List ℕ)
    → signed_payload t body ≡ signed_payload t' body'
    → (t ≡ t') × (body ≡ body')
signed_payload_injective t t' body body' h =
    let seen : read 0 (signed_payload t body) ≡ (t', b'.' ∷ body') =
      ap (read 0) h ∙ read-signed_payload t' body' in
    ground (arith, seen, read-signed_payload t body)

module _ (mac : String → List ℕ → String) where
  -- What is accepted was signed for this body at this time, which is within the tolerance of now.
  pub verify_sound :
      (secret : String) (body : List ℕ) (signature : String) (timestamp tolerance now : ℕ)
      → verify mac secret body signature timestamp tolerance now ≡ true
      → (signature ≡ (sign mac secret body timestamp).0)
        × (now ≤ timestamp + tolerance)
        × (timestamp ≤ now + tolerance)
  unfolding verify
  verify_sound secret body signature timestamp tolerance now h =
      ground (arith, eq_iff (sign mac secret body timestamp).0 signature)

  -- A signature that was made for one body and time is accepted for another only if the digests of
  -- two different texts are the same, and never if the clocks differ by more than the tolerance;
  -- for its own body and time it is accepted within the tolerance.
  pub verify-sign :
      (secret : String) (body body' : List ℕ) (t t' tolerance now : ℕ)
      → let verified = verify mac secret body' (sign mac secret body t).0 t' tolerance now in
        (verified ≡ true
          → (now ≤ t' + tolerance)
            × (t' ≤ now + tolerance)
            × (mac secret (signed_payload t body) ≡ mac secret (signed_payload t' body')))
        × ((¬ ((t ≡ t') × (body ≡ body'))) → signed_payload t body ≢ signed_payload t' body')
        × (now ≤ t' + tolerance → t' ≤ now + tolerance → t ≡ t' → body ≡ body' → verified ≡ true)
  verify-sign secret body body' t t' tolerance now = (
    λ h.
        let (same, early, late) =
          verify_sound secret body' (sign mac secret body t).0 t' tolerance now h in
        (early, late, append_cancel_left "v1=" _ _ (unfold sign in same)),
    λ other same. other (signed_payload_injective t t' body body' same),
    λ early late same_time same_body.
        unfold verify in
        rw (same_time, same_body)
          (ground (arith, early, late, eq_refl (sign mac secret body' t').0)),
  )
