-- ===== src/Base/Fallible.antt =====
-- A value, or what was raised in its place.
use mathlib.Core.Path.{◌≡◌, refl}

pub data Result {ℓ κ} (Raised : Type ℓ) (Value : Type κ) : Type (ℓ ⊔ κ) where
  err : Raised → Result Raised Value
  ok : Value → Result Raised Value

module _ {ℓ κ μ} {Raised : Type ℓ} {Value : Type κ} {Next : Type μ} where
  infixl 5 ◌>>=◌ ◌>>◌
  abbrev pub ◌>>=◌ : Result Raised Value → (Value → Result Raised Next) → Result Raised Next
  err raised >>= next = err raised
  ok value >>= next = next value

  abbrev pub ◌>>◌ : Result Raised Value → Result Raised Next → Result Raised Next
  first >> second = first >>= λ _. second

  -- What a chain returned came from a first step that returned.
  pub >>=-ok :
      (first : Result Raised Value) (next : Value → Result Raised Next) {out : Next}
      → (first >>= next) ≡ ok out
      → (value : Value) × (first ≡ ok value) × (next value ≡ ok out)
  >>=-ok (err raised) next returned = absurd (cc)
  >>=-ok (ok value) next returned = (value, refl, returned)
