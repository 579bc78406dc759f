-- ===== src/Suppression/Among.antt =====
-- services/suppression.py, `suppressed_among`: the send path's query answers exactly the recipients
-- whose reduced address has a live row.
use seskit.Base.{
  ℕ, ◌==◌, String, str_eq, eq_iff, Bool, ◌&&◌, not, List, [], ◌∷◌, map, ◌≡◌, refl, arith, is_some,
  find, select, any,
}
use seskit.Suppression.{
  SuppressedAddress, is_active, is_live, contains, to_set, rows_among, wanted_addresses,
  suppressed_among,
}

contains-to_set : (x : String) (l : List String) → contains x (to_set l) ≡ contains x l
unfolding contains to_set any
contains-to_set x [] = refl
contains-to_set x (a ∷ l) = ground (arith, contains-to_set x l, contains-to_set a l, eq_iff x a)

contains-select :
    (x : String) (test : String → Bool) (l : List String)
    → contains x (select test l) ≡ (contains x l && test x)
unfolding contains select any
contains-select x test [] = refl
contains-select x test (a ∷ l) = ground (arith, contains-select x test l, eq_iff x a)

contains-map :
    (x : String) (f : String → String) (l : List String)
    → contains x (map f l) ≡ any (λ a. str_eq x (f a)) l
unfolding contains any
contains-map x f [] = refl
contains-map x f (a ∷ l) = ground (arith, contains-map x f l)

-- The addresses of the rows that the query selects.
contains-rows :
    (x : String) (p : ℕ) (wanted : List String) (t : List SuppressedAddress)
    → contains x (
        map
          (λ row. row.address)
          (select (λ row. row.project_id == p && contains row.address wanted && is_active row) t))
      ≡ (contains x wanted && is_some (find (is_live p x) t))
unfolding contains select find any
contains-rows x p wanted [] = ground arith
contains-rows x p wanted (row ∷ t) =
    ground (arith, contains-rows x p wanted t, eq_iff x row.address, eq_iff row.address x)

contains-rows_among :
    (x : String) (p : ℕ) (wanted : List String) (t : List SuppressedAddress)
    → contains x (rows_among t p wanted) ≡ (contains x wanted && is_some (find (is_live p x) t))
unfolding rows_among
contains-rows_among x p [] t = unfold contains any in refl
contains-rows_among x p (w ∷ ws) t = rw contains-to_set (contains-rows x p (w ∷ ws) t)

contains-wanted_addresses :
    (bare : String → String) (addresses : List String) (x : String)
    → contains x (wanted_addresses bare addresses)
      ≡ (any (λ a. str_eq x (bare a)) addresses && not (str_eq x ""))
unfolding wanted_addresses
contains-wanted_addresses bare addresses x = rw (contains-select, contains-to_set, contains-map)

-- An address is reported exactly if some recipient reduces to it, it is not empty, and a live row
-- of this project holds it.
pub contains-suppressed_among :
    (bare : String → String) (t : List SuppressedAddress) (p : ℕ) (addresses : List String)
    (x : String)
    → contains x (suppressed_among bare t p addresses) ≡ (
        (any (λ a. str_eq x (bare a)) addresses && not (str_eq x ""))
        && is_some (find (is_live p x) t))
unfolding suppressed_among
contains-suppressed_among bare t p addresses x = rw (contains-rows_among, contains-wanted_addresses)
