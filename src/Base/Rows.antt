-- ===== src/Base/Rows.antt =====
-- Tables as lists of rows: a query is a Boolean test of a row.
use Prim.Native.Nat.{ℕ, zero, suc, ◌+◌, ◌<◌}
use mathlib.Core.Path.{◌≡◌, refl}
use mathlib.Core.Bool.{Bool, true, false, ◌&&◌, ◌||◌}
use mathlib.Core.Option.{Option, none, some}
use mathlib.Core.List.{List, [], ◌∷◌, ◌++◌}
use native.Mathlib.Omega.{arith}
use seskit.Base.Tests.{if◌then◌else◌, is_some}

module _ {ℓ} {A : Type ℓ} where
  abbrev pub length : List A → ℕ
  length [] = 0
  length (x ∷ xs) = suc (length xs)

  abbrev pub take : ℕ → List A → List A
  take zero xs = []
  take (suc n) [] = []
  take (suc n) (x ∷ xs) = x ∷ take n xs

  -- `session.scalar(select(…).where(test))`: the first row that passes.
  unfoldable pub find : (A → Bool) → List A → Option A
  find test [] = none
  find test (x ∷ xs) = if test x then some x else find test xs

  -- `session.scalars(select(…).where(test))`: every row that passes.
  unfoldable pub select : (A → Bool) → List A → List A
  select test [] = []
  select test (x ∷ xs) = let rest = select test xs in if test x then x ∷ rest else rest

  -- The first row that passes is the loaded object, and its fields are assigned.
  unfoldable pub amend : (A → Bool) → (A → A) → List A → List A
  amend test f [] = []
  amend test f (x ∷ xs) = let rest = amend test f xs in if test x then f x ∷ xs else x ∷ rest

  unfoldable pub count : (A → Bool) → List A → ℕ
  count test [] = 0
  count test (x ∷ xs) = if test x then suc (count test xs) else count test xs

  unfoldable pub any : (A → Bool) → List A → Bool
  any test [] = false
  any test (x ∷ xs) = test x || any test xs

  unfoldable pub all : (A → Bool) → List A → Bool
  all test [] = true
  all test (x ∷ xs) = test x && all test xs

module _ {ℓ κ} {A : Type ℓ} where
  abbrev pub All : (A → Type κ) → List A → Type κ
  All P [] = Unit
  All P (x ∷ xs) = P x × All P xs

module _ {ℓ} {A : Type ℓ} (test : A → Bool) where
  pub find-test : (xs : List A) (a : A) → find test xs ≡ some a → test a ≡ true
  unfolding find
  find-test [] a h = ground arith
  find-test (x ∷ xs) a h = ground (arith, find-test xs a)

  pub find-append :
      (xs ys : List A)
      → find test (xs ++ ys) ≡ (if is_some (find test xs) then find test xs else find test ys)
  unfolding find
  find-append [] ys = refl
  find-append (x ∷ xs) ys = ground (arith, find-append xs ys)

  pub count-append : (xs ys : List A) → count test (xs ++ ys) ≡ count test xs + count test ys
  unfolding count
  count-append [] ys = omega arith
  count-append (x ∷ xs) ys = ground (arith, count-append xs ys)

  pub count_zero : (xs : List A) → find test xs ≡ none → count test xs ≡ 0
  unfolding find count
  count_zero [] h = refl
  count_zero (x ∷ xs) h = ground (arith, count_zero xs)

  pub find-none : (xs : List A) → count test xs ≡ 0 → find test xs ≡ none
  unfolding find count
  find-none [] h = refl
  find-none (x ∷ xs) h = ground (arith, find-none xs)

  pub count_pos : (xs : List A) (a : A) → find test xs ≡ some a → 0 < count test xs
  unfolding find count
  count_pos [] a h = ground arith
  count_pos (x ∷ xs) a h = ground (arith, count_pos xs a)
