-- ===== src/Suppression/Laws.antt =====
-- services/suppression.py: what a caller sees after the list has been written.
use seskit.Base.{
  ℕ, ◌==◌, String, str_eq, eq_iff, Bool, true, ◌&&◌, Option, none, some, List, [], ◌∷◌, ◌++◌,
  Result, ok, ◌≡◌, refl, ap, arith, if◌then◌else◌, is_some, find, find-append, any, Option-cases,
  ==_iff, sym, inl, inr,
}
use seskit.Suppression.{
  SuppressionReason, SuppressedAddress, Table, is_live, find_suppression, keep_or_insert,
  DatabaseError, suppress,
}

any_of_find {ℓ} :
    {A : Type ℓ} (test : A → Bool) (xs : List A) → any test xs ≡ is_some (find test xs)
unfolding any find
any_of_find test [] = refl
any_of_find test (x ∷ xs) = ground (arith, any_of_find test xs)

pub find-snoc {ℓ} :
    {A : Type ℓ} (test : A → Bool) (x : A) (xs : List A)
    → find test (xs ++ x ∷ [])
      ≡ (if is_some (find test xs) then find test xs else if test x then some x else none)
unfolding find
find-snoc test x xs = rw find-append refl

module _ (bare : String → String) (t : Table) (fresh p : ℕ) (a : String) (r : SuppressionReason)
    (e : Option ℕ) (n : Option String) (same : bare (bare a) ≡ bare a) where
  abbrev new_row : SuppressedAddress
  new_row = record {
    id = fresh;
    project_id = p;
    address = bare a;
    reason = r;
    source_event_id = e;
    note = n;
    removed_at = none;
  }

  lookup_again : find_suppression bare t p (bare a) ≡ find_suppression bare t p a
  unfolding find_suppression
  lookup_again = ap (λ v. find (is_live p v) t) same

  insert_new :
      find_suppression bare t p a ≡ none
      → keep_or_insert t new_row none ≡ ok (t ++ new_row ∷ [], new_row)
  unfolding keep_or_insert find_suppression
  insert_new h = ground (arith, any_of_find (is_live p (bare a)) t)

  -- The two ways that `suppress` can go.
  pub suppress_cases {ℓ} :
      (P : Result DatabaseError (Table × SuppressedAddress) → Type ℓ)
      → ((old : SuppressedAddress) → find_suppression bare t p a ≡ some old → P (ok (t, old)))
      → (find_suppression bare t p a ≡ none → P (ok (t ++ new_row ∷ [], new_row)))
      → P (suppress bare t fresh p a r e n)
  unfolding suppress
  suppress_cases P kept added = elim (Option-cases (find_suppression bare t p a)) [
    | inl h ↦ rw (lookup_again, h, insert_new h) (added h)
    | inr (old, h) ↦ rw (lookup_again, h) (unfold keep_or_insert in kept old h)
  ]

-- A live row is found under one project and one address.
pub is_live_same :
    (p q : ℕ) (a b : String) → (p == q && str_eq a b) ≡ true → is_live p a ≡ is_live q b
is_live_same p q a b h = ground (arith, eq_iff a b, ==_iff p q)

module _ (bare : String → String) (t : Table) (p q : ℕ) (a b : String) where
  find_same :
      (p == q && str_eq (bare a) (bare b)) ≡ true
      → find_suppression bare t q b ≡ find_suppression bare t p a
  unfolding find_suppression
  find_same h = ap (λ test. find test t) (sym (is_live_same p q (bare a) (bare b) h))

-- After an address has been suppressed, its row is the one found for it, under every spelling that
-- reduces to it, and every other address and project is answered as before.
pub find_suppression-suppress :
    (bare : String → String) (t : Table) (fresh p : ℕ) (a : String) (r : SuppressionReason)
    (e : Option ℕ) (n : Option String) (q : ℕ) (b : String) (t' : Table) (row : SuppressedAddress)
    → bare (bare a) ≡ bare a
    → suppress bare t fresh p a r e n ≡ ok (t', row)
    → find_suppression bare t' q b
      ≡ (if p == q && str_eq (bare a) (bare b) then some row else find_suppression bare t q b)
find_suppression-suppress bare t fresh p a r e n q b t' row same =
    suppress_cases bare t fresh p a r e n same
      (λ res.
        res ≡ ok (t', row)
        → find_suppression bare t' q b
          ≡ (if p == q && str_eq (bare a) (bare b) then some row else find_suppression bare t q b))
      (λ old h d. ground (arith, find_same bare t p q a b))
      (λ h d.
        unfold find_suppression in
        ground (arith, find-snoc (is_live q (bare b)) row t, eq_iff (bare a) (bare b)))
