-- ===== src/Suppression/Unique.antt =====
-- services/suppression.py and the index `uq_suppressed_live`: at most one row is live for a project
-- and an address, and no row is ever lost.
use seskit.Base.{
  ℕ, ◌-◌, ◌≤◌, ◌==◌, String, str_eq, eq_iff, Bool, true, false, ◌&&◌, Option, none, some, List, [],
  ◌∷◌, ok, ◌≡◌, refl, arith, if◌then◌else◌, is_some, find, amend, any, count, count-append,
  find-none, length, Bool-cases, ==_iff, inl, inr,
}
use seskit.Suppression.{
  SuppressionReason, SuppressedAddress, is_live, insert_row, find_suppression, keep_or_insert,
  suppress, remove_suppression,
}
use seskit.Suppression.Laws.{is_live_same}

-- Of each project's addresses, at most one row is live.
abbrev pub OneLive : List SuppressedAddress → Type 0
OneLive t = (p : ℕ) (a : String) → count (is_live p a) t ≤ 1

module _ {ℓ} {A : Type ℓ} (test : A → Bool) (f : A → A) where
  count-amend-le :
      (other : A → Bool) (xs : List A)
      → ((x : A) → other (f x) ≡ false)
      → count other (amend test f xs) ≤ count other xs
  unfolding count amend
  count-amend-le other [] gone = omega arith
  count-amend-le other (x ∷ xs) gone = ground (arith, gone x, count-amend-le other xs gone)

  count-amend :
      (xs : List A)
      → ((x : A) → test (f x) ≡ false)
      → count test (amend test f xs) ≡ count test xs - 1
  unfolding count amend
  count-amend [] gone = omega arith
  count-amend (x ∷ xs) gone = ground (arith, gone x, count-amend xs gone)

  find-amend_other :
      (other : A → Bool) (xs : List A)
      → ((x : A) → other (f x) ≡ false)
      → ((x : A) → test x ≡ true → other x ≡ false)
      → find other (amend test f xs) ≡ find other xs
  unfolding find amend
  find-amend_other other [] gone apart = refl
  find-amend_other other (x ∷ xs) gone apart =
      ground (arith, gone x, apart x, find-amend_other other xs gone apart)

  length-amend : (xs : List A) → length (amend test f xs) ≡ length xs
  unfolding amend
  length-amend [] = refl
  length-amend (x ∷ xs) = ground (arith, length-amend xs)

count-any {ℓ} :
    {A : Type ℓ} (test : A → Bool) (xs : List A) → any test xs ≡ false → count test xs ≡ 0
unfolding count any
count-any test [] h = refl
count-any test (x ∷ xs) h = ground (arith, count-any test xs)

-- The index keeps live rows unique, whatever row is inserted.
pub insert_row-OneLive :
    (t t' : List SuppressedAddress) (row : SuppressedAddress)
    → OneLive t
    → insert_row t row ≡ ok t'
    → OneLive t'
unfolding insert_row count
insert_row-OneLive t t' row one h p a = ground (
  arith,
  one p a,
  count-append (is_live p a) t (row ∷ []),
  count-any (is_live row.project_id row.address) t,
  eq_iff row.address a,
  ==_iff row.project_id p,
)

abbrev mark : ℕ → SuppressedAddress → SuppressedAddress
mark now row = record row { removed_at = some now }

-- Neither writing to the list nor taking an address off it makes two rows live at once.
pub remove_suppression-OneLive :
    (bare : String → String) (t : List SuppressedAddress) (now p : ℕ) (a : String)
    → OneLive t
    → OneLive (remove_suppression bare t now p a).0
unfolding remove_suppression find_suppression
remove_suppression-OneLive bare t now p a one q b = ground (
  arith,
  one q b,
  count-amend-le (is_live p (bare a)) (mark now) (is_live q b) t (λ row. ground arith),
)

insert_then :
    (t t' : List SuppressedAddress) (new row : SuppressedAddress)
    → OneLive t
    → keep_or_insert t new none ≡ ok (t', row)
    → OneLive t'
unfolding keep_or_insert
insert_then t t' new row one h = insert_row-OneLive t t' new one (ground arith)

-- What `suppress` returns is the table with the unique index obeyed.
pub suppress-OneLive :
    (bare : String → String) (t t' : List SuppressedAddress) (fresh p : ℕ) (a : String)
    (r : SuppressionReason) (e : Option ℕ) (n : Option String) (row : SuppressedAddress)
    → OneLive t
    → suppress bare t fresh p a r e n ≡ ok (t', row)
    → OneLive t'
unfolding suppress
suppress-OneLive bare t t' fresh p a r e n row one = go (find_suppression bare t p (bare a))
  where
    new : SuppressedAddress
    new = record {
      id = fresh;
      project_id = p;
      address = bare a;
      reason = r;
      source_event_id = e;
      note = n;
      removed_at = none;
    }

    go : (o : Option SuppressedAddress) → keep_or_insert t new o ≡ ok (t', row) → OneLive t'
    go none h = insert_then t t' new row one h
    go (some old) h = unfold keep_or_insert in ground (arith, h)

module _ (bare : String → String) (t : List SuppressedAddress) (now p : ℕ) (a : String)
    (one : OneLive t) where
  found_after : find (is_live p (bare a)) (amend (is_live p (bare a)) (mark now) t) ≡ none
  found_after = find-none (is_live p (bare a)) (amend (is_live p (bare a)) (mark now) t) (
      omega (
        arith,
        one p (bare a),
        count-amend (is_live p (bare a)) (mark now) t (λ row. ground arith),
      ))

  found_other :
      (q : ℕ) (b : String)
      → (p == q && str_eq (bare a) b) ≡ false
      → find (is_live q b) (amend (is_live p (bare a)) (mark now) t) ≡ find (is_live q b) t
  found_other q b h =
      find-amend_other (is_live p (bare a)) (mark now) (is_live q b) t (λ row. ground arith)
        (λ row live.
          ground (arith, eq_iff row.address (bare a), eq_iff row.address b, eq_iff (bare a) b))

  -- After a removal nothing is found for the address, the answers for every other address and
  -- project stay, the result says whether there was something to remove, and no row is deleted.
  pub find_suppression-remove :
      (q : ℕ) (b : String)
      → (find_suppression bare (remove_suppression bare t now p a).0 q b
          ≡ (if p == q && str_eq (bare a) (bare b) then none else find_suppression bare t q b))
        × ((remove_suppression bare t now p a).1 ≡ is_some (find_suppression bare t p a))
        × (length (remove_suppression bare t now p a).0 ≡ length t)
  unfolding remove_suppression find_suppression
  find_suppression-remove q b = (
    elim (Bool-cases (p == q && str_eq (bare a) (bare b))) [
      | inl h ↦ rw (h, ← is_live_same p q (bare a) (bare b) h) (ground (arith, found_after))
      | inr h ↦ rw h (ground (arith, found_other q (bare b) h))
    ],
    ground arith,
    ground (arith, length-amend (is_live p (bare a)) (mark now) t),
  )
