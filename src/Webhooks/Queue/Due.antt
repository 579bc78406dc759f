-- ===== src/Webhooks/Queue/Due.antt =====
-- services/webhooks.py, `deliveries_due`: what one pass of the sweep is given.
use mathlib.Core.List.{Perm}
use mathlib.Core.List.Perm
use seskit.Base.{
  ℕ, zero, suc, ◌≤◌, min, leb, leb→le, Bool, List, [], ◌∷◌, ◌++◌, select, count, take, length, All,
  ◌≡◌, refl, arith, Bool-cases, inl, inr, ap,
}
use seskit.Webhooks.{WebhookDelivery}
use seskit.Webhooks.Queue.{due_time, insert_due, sort_due, is_due, deliveries_due}

-- Oldest due time first.
abbrev pub IsSorted : List WebhookDelivery → Type 0
IsSorted [] = Unit
IsSorted (x ∷ xs) = All (λ y. due_time x ≤ due_time y) xs × IsSorted xs

insert_due-perm :
    (d : WebhookDelivery) (xs : List WebhookDelivery) → Perm (insert_due d xs) (d ∷ xs)
unfolding insert_due
insert_due-perm d [] = Perm.refl (d ∷ [])
insert_due-perm d (x ∷ xs) = elim (Bool-cases (leb (due_time d) (due_time x))) [
  | inl h ↦ rw h (Perm.refl (d ∷ x ∷ xs))
  | inr h ↦ rw h (Perm.trans (Perm.cons x (insert_due-perm d xs)) (Perm.swap d x xs))
]

sort_due-perm : (xs : List WebhookDelivery) → Perm (sort_due xs) xs
unfolding sort_due
sort_due-perm [] = Perm.refl []
sort_due-perm (x ∷ xs) =
    Perm.trans (insert_due-perm x (sort_due xs)) (Perm.cons x (sort_due-perm xs))

-- All rows of a list are due no earlier than a given time.
abbrev NoEarlier : ℕ → List WebhookDelivery → Type 0
NoEarlier t = All (λ y. t ≤ due_time y)

NoEarlier-mono : (s t : ℕ) (xs : List WebhookDelivery) → s ≤ t → NoEarlier t xs → NoEarlier s xs
NoEarlier-mono s t [] h later = tt
NoEarlier-mono s t (x ∷ xs) h later = (omega arith, NoEarlier-mono s t xs h later.1)

insert_due-NoEarlier :
    (t : ℕ) (d : WebhookDelivery) (xs : List WebhookDelivery)
    → t ≤ due_time d
    → NoEarlier t xs
    → NoEarlier t (insert_due d xs)
unfolding insert_due
insert_due-NoEarlier t d [] h later = (h, tt)
insert_due-NoEarlier t d (x ∷ xs) h later = elim (Bool-cases (leb (due_time d) (due_time x))) [
  | inl e ↦ rw e (h, (later.0, later.1))
  | inr e ↦ rw e (later.0, insert_due-NoEarlier t d xs h later.1)
]

insert_due-IsSorted :
    (d : WebhookDelivery) (xs : List WebhookDelivery) → IsSorted xs → IsSorted (insert_due d xs)
unfolding insert_due
insert_due-IsSorted d [] s = (tt, tt)
insert_due-IsSorted d (x ∷ xs) s = elim (Bool-cases (leb (due_time d) (due_time x))) [
  | inl e ↦
      rw e
        ((leb→le _ _ e, NoEarlier-mono (due_time d) (due_time x) xs (leb→le _ _ e) s.0), (s.0, s.1))
  | inr e ↦
      rw e (
        insert_due-NoEarlier (due_time x) d xs (ground (arith, e)) s.0,
        insert_due-IsSorted d xs s.1,
      )
]

sort_due-IsSorted : (xs : List WebhookDelivery) → IsSorted (sort_due xs)
unfolding sort_due
sort_due-IsSorted [] = tt
sort_due-IsSorted (x ∷ xs) = insert_due-IsSorted x (sort_due xs) (sort_due-IsSorted xs)

drop : ℕ → List WebhookDelivery → List WebhookDelivery
drop zero xs = xs
drop (suc n) [] = []
drop (suc n) (x ∷ xs) = drop n xs

take-append-drop : (n : ℕ) (xs : List WebhookDelivery) → take n xs ++ drop n xs ≡ xs
unfolding drop
take-append-drop zero xs = refl
take-append-drop (suc n) [] = refl
take-append-drop (suc n) (x ∷ xs) = ap (◌∷◌ x) (take-append-drop n xs)

length-take : (n : ℕ) (xs : List WebhookDelivery) → length (take n xs) ≡ min n (length xs)
length-take zero xs = omega arith
length-take (suc n) [] = omega arith
length-take (suc n) (x ∷ xs) = omega (arith, length-take n xs)

length-insert_due :
    (d : WebhookDelivery) (xs : List WebhookDelivery) → length (insert_due d xs) ≡ suc (length xs)
unfolding insert_due
length-insert_due d [] = refl
length-insert_due d (x ∷ xs) = ground (arith, length-insert_due d xs)

length-sort_due : (xs : List WebhookDelivery) → length (sort_due xs) ≡ length xs
unfolding sort_due
length-sort_due [] = refl
length-sort_due (x ∷ xs) = omega (arith, length-insert_due x (sort_due xs), length-sort_due xs)

length-select :
    (test : WebhookDelivery → Bool) (xs : List WebhookDelivery)
    → length (select test xs) ≡ count test xs
unfolding select count
length-select test [] = refl
length-select test (x ∷ xs) = ground (arith, length-select test xs)

-- A pass takes the due rows in the order of their due times, as many as there are up to the limit:
-- with the rows that are left over they are a sorted arrangement of all the due rows, so nothing
-- that is left is due earlier than something that is taken.
pub deliveries_due_exact :
    (limit now : ℕ) (table : List WebhookDelivery)
    → (rest : List WebhookDelivery) × IsSorted (deliveries_due limit now table ++ rest)
      × Perm (deliveries_due limit now table ++ rest) (select (is_due now) table)
      × (length (deliveries_due limit now table) ≡ min limit (count (is_due now) table))
unfolding deliveries_due
deliveries_due_exact limit now table =
    let due = select (is_due now) table in
    (
      drop limit (sort_due due),
      rw (take-append-drop limit (sort_due due)) (sort_due-IsSorted due),
      rw (take-append-drop limit (sort_due due)) (sort_due-perm due),
      rw (length-take limit (sort_due due), length-sort_due due, length-select (is_due now) table),
    )
