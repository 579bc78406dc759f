-- ===== src/Members.antt =====
-- Membership of a list, and what tests and searches over the list say of it.
use seskit.Base.{
  Bool, true, false, some, List, [], ◌∷◌, find, any, select, ◌≡◌, refl, sym, ap, ◌∙◌, arith,
  Bool-cases, inl, inr, ◌⊎◌,
}

module _ {A : Type 0} where
  unfoldable pub In : A → List A → Type 0
  In a [] = ⊥
  In a (x ∷ l) = (x ≡ a) ⊎ In a l

  pub In-any : (test : A → Bool) (a : A) (l : List A) → In a l → test a ≡ true → any test l ≡ true
  unfolding In any
  In-any test a [] here passes = absurd here
  In-any test a (x ∷ l) (inl same) passes = ground (arith, ap test same ∙ passes)
  In-any test a (x ∷ l) (inr later) passes = ground (arith, In-any test a l later passes)

  pub any-In :
      (test : A → Bool) (l : List A) → any test l ≡ true → (a : A) × In a l × (test a ≡ true)
  unfolding In any
  any-In test [] h = absurd (ground (arith, h))
  any-In test (x ∷ l) h = elim (Bool-cases (test x)) [
    | inl passes ↦ (x, inl refl, passes)
    | inr fails ↦
        let (a, later, passes) = any-In test l (ground (arith, h, fails)) in (a, inr later, passes)
  ]

  pub find-In : (test : A → Bool) (a : A) (l : List A) → find test l ≡ some a → In a l
  unfolding In find
  find-In test a [] h = absurd (ground (arith, h))
  find-In test a (x ∷ l) h = elim (Bool-cases (test x)) [
    | inl passes ↦ inl (ground (arith, h, passes))
    | inr fails ↦ inr (find-In test a l (ground (arith, h, fails)))
  ]

  pub In-select :
      (test : A → Bool) (a : A) (l : List A) → In a l → test a ≡ true → In a (select test l)
  unfolding In select
  In-select test a [] here passes = absurd here
  In-select test a (x ∷ l) (inl same) passes = rw (ap test same ∙ passes) (inl same)
  In-select test a (x ∷ l) (inr later) passes = elim (Bool-cases (test x)) [
    | inl kept ↦ rw kept (inr (In-select test a l later passes))
    | inr dropped ↦ rw dropped (In-select test a l later passes)
  ]

  pub select-In :
      (test : A → Bool) (a : A) (l : List A) → In a (select test l) → In a l × (test a ≡ true)
  unfolding In select
  select-In test a [] here = absurd here
  select-In test a (x ∷ l) here = by_test (test x) refl (select-In test a l)
    where
      behind :
          test x ≡ true
          → (In a (select test l) → In a l × (test a ≡ true))
          → (x ≡ a) ⊎ In a (select test l)
          → ((x ≡ a) ⊎ In a l) × (test a ≡ true)
      behind kept rest (inl same) = (inl same, sym (ap test same) ∙ kept)
      behind kept rest (inr later) = let (stored, passes) = rest later in (inr stored, passes)

      by_test :
          (b : Bool)
          → test x ≡ b
          → (In a (select test l) → In a l × (test a ≡ true))
          → ((x ≡ a) ⊎ In a l) × (test a ≡ true)
      by_test true kept rest = behind kept rest (rw kept at here)
      by_test false dropped rest =
          let (stored, passes) = rest (rw dropped at here) in (inr stored, passes)
