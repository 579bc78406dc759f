-- ===== src/ApiKeys/Table.antt =====
-- services/api_keys.py: which row a hash leads to, and how each write changes that.
use seskit.Base.{
  ℕ, ◌==◌, ==_refl, String, str_eq, eq_iff, eq_refl, Bool, true, false, Option, none, some, List,
  [], ◌∷◌, if◌then◌else◌, is_some, find, any, not, Result, ok, err, ◌≡◌, refl, sym, arith,
  Bool-cases, inl, inr, all,
}
use seskit.ApiKeys.{
  ApiKey, IntegrityError, is_active, is_taken, insert_key, active_key, project_of, save_used,
  save_revoked,
}

-- Ids and hashes are unique.
unfoldable pub IsKeyed : List ApiKey → Type 0
IsKeyed [] = Unit {0}
IsKeyed (row ∷ rows) = (any (is_taken row) rows ≡ false) × IsKeyed rows

-- The table after an insert that may fail.
abbrev pub rows_or : List ApiKey → Result IntegrityError (List ApiKey) → List ApiKey
rows_or rows (ok after) = after
rows_or rows (err e) = rows

pub insert_key-IsKeyed :
    (fresh : ApiKey) (rows : List ApiKey)
    → IsKeyed rows
    → IsKeyed (rows_or rows (insert_key fresh rows))
unfolding IsKeyed insert_key
insert_key-IsKeyed fresh rows h = elim (Bool-cases (any (is_taken fresh) rows)) [
  | inl taken ↦ rw taken h
  | inr free ↦ rw free (free, h)
]

-- A hash that no row holds leads to no row.
pub active_key-free :
    (hashed : String) (rows : List ApiKey)
    → any (λ row. str_eq row.hashed_key hashed) rows ≡ false
    → active_key hashed rows ≡ none
unfolding active_key any find
active_key-free hashed [] h = refl
active_key-free hashed (row ∷ rows) h = ground (arith, h, active_key-free hashed rows)

-- What an update of the time of use does to the lookups.
pub project_of-save_used :
    (key_id now : ℕ) (hashed : String) (rows : List ApiKey)
    → project_of (active_key hashed (save_used key_id now rows))
      ≡ project_of (active_key hashed rows)
unfolding active_key save_used find is_active
project_of-save_used key_id now hashed [] = refl
project_of-save_used key_id now hashed (row ∷ rows) =
    ground (arith, project_of-save_used key_id now hashed rows)

pub any_taken-save_used :
    (fresh : ApiKey) (key_id now : ℕ) (rows : List ApiKey)
    → any (is_taken fresh) (save_used key_id now rows) ≡ any (is_taken fresh) rows
unfolding save_used any is_taken
any_taken-save_used fresh key_id now [] = refl
any_taken-save_used fresh key_id now (row ∷ rows) =
    ground (arith, any_taken-save_used fresh key_id now rows)

pub any_taken-save_revoked :
    (fresh : ApiKey) (key_id : ℕ) (revoked_at : Option ℕ) (rows : List ApiKey)
    → any (is_taken fresh) (save_revoked key_id revoked_at rows) ≡ any (is_taken fresh) rows
unfolding save_revoked any is_taken
any_taken-save_revoked fresh key_id revoked_at [] = refl
any_taken-save_revoked fresh key_id revoked_at (row ∷ rows) =
    ground (arith, any_taken-save_revoked fresh key_id revoked_at rows)

pub save_used-IsKeyed :
    (key_id now : ℕ) (rows : List ApiKey) → IsKeyed rows → IsKeyed (save_used key_id now rows)
unfolding IsKeyed save_used is_taken
save_used-IsKeyed key_id now [] h = h
save_used-IsKeyed key_id now (row ∷ rows) (free, h) =
    ground
      (arith, free, any_taken-save_used row key_id now rows, save_used-IsKeyed key_id now rows h)

pub save_revoked-IsKeyed :
    (key_id : ℕ) (revoked_at : Option ℕ) (rows : List ApiKey)
    → IsKeyed rows
    → IsKeyed (save_revoked key_id revoked_at rows)
unfolding IsKeyed save_revoked is_taken
save_revoked-IsKeyed key_id revoked_at [] h = h
save_revoked-IsKeyed key_id revoked_at (row ∷ rows) (free, h) = ground (
  arith,
  free,
  any_taken-save_revoked row key_id revoked_at rows,
  save_revoked-IsKeyed key_id revoked_at rows h,
)

-- The row has the id exactly if it has the hash.
unfoldable pub names_only : (key_id : ℕ) → (hashed : String) → ApiKey → Bool
names_only key_id hashed row =
    if row.id == key_id then str_eq row.hashed_key hashed else not (str_eq row.hashed_key hashed)

all-names_only :
    (api_key : ApiKey) (rows : List ApiKey)
    → any (is_taken api_key) rows ≡ false
    → all (names_only api_key.id api_key.hashed_key) rows ≡ true
unfolding any all is_taken names_only
all-names_only api_key [] h = refl
all-names_only api_key (row ∷ rows) h = ground (
  arith,
  h,
  all-names_only api_key rows,
  eq_iff api_key.hashed_key row.hashed_key,
  eq_iff row.hashed_key api_key.hashed_key,
)

pub any-found :
    (test other : ApiKey → Bool) (api_key : ApiKey) (rows : List ApiKey)
    → find test rows ≡ some api_key
    → other api_key ≡ true
    → any other rows ≡ true
unfolding find any
any-found test other api_key [] found h = ground (arith, found)
any-found test other api_key (row ∷ rows) found h =
    ground (arith, found, h, any-found test other api_key rows)

names_only-apart :
    (row api_key : ApiKey)
    → is_taken row api_key ≡ false
    → names_only api_key.id api_key.hashed_key row ≡ true
unfolding is_taken names_only
names_only-apart row api_key h = ground (arith, h)

row_found :
    (row api_key : ApiKey) (rows : List ApiKey) (test : ApiKey → Bool)
    → find test (row ∷ rows) ≡ some api_key
    → test row ≡ true
    → row ≡ api_key
unfolding find
row_found row api_key rows test found hit = ground (arith, found, hit)

names_only_self :
    (row : ApiKey) (rows : List ApiKey)
    → any (is_taken row) rows ≡ false
    → all (names_only row.id row.hashed_key) (row ∷ rows) ≡ true
unfolding all names_only
names_only_self row rows free =
    ground (arith, all-names_only row rows free, ==_refl row.id, eq_refl row.hashed_key)

names_only-head :
    (row api_key : ApiKey) (rows : List ApiKey)
    → any (is_taken row) rows ≡ false
    → row ≡ api_key
    → all (names_only api_key.id api_key.hashed_key) (row ∷ rows) ≡ true
names_only-head row api_key rows free same = rw (sym same) (names_only_self row rows free)

pub names_only-found :
    (test : ApiKey → Bool) (api_key : ApiKey) (rows : List ApiKey)
    → IsKeyed rows
    → find test rows ≡ some api_key
    → all (names_only api_key.id api_key.hashed_key) rows ≡ true
unfolding IsKeyed find all
names_only-found test api_key [] h found = refl
names_only-found test api_key (row ∷ rows) (free, h) found = elim (Bool-cases (test row)) [
  | inl hit ↦ names_only-head row api_key rows free (row_found row api_key rows test found hit)
  | inr miss ↦ ground (
    arith,
    found,
    miss,
    names_only-found test api_key rows h,
    any-found test (is_taken row) api_key rows,
    names_only-apart row api_key,
  )
]

pub project_of-save_revoked :
    (key_id : ℕ) (hashed other : String) (revoked_at : Option ℕ) (rows : List ApiKey)
    → all (names_only key_id hashed) rows ≡ true
    → str_eq hashed other ≡ false
    → project_of (active_key other (save_revoked key_id revoked_at rows))
      ≡ project_of (active_key other rows)
unfolding active_key save_revoked find is_active all names_only
project_of-save_revoked key_id hashed other revoked_at [] h differs = refl
project_of-save_revoked key_id hashed other revoked_at (row ∷ rows) h differs = ground (
  arith,
  h,
  differs,
  project_of-save_revoked key_id hashed other revoked_at rows,
  eq_iff row.hashed_key hashed,
  eq_iff row.hashed_key other,
  eq_iff hashed other,
)

-- After the row has been saved as revoked, its hash leads nowhere.
pub active_key-save_revoked :
    (key_id : ℕ) (hashed : String) (revoked_at : Option ℕ) (rows : List ApiKey)
    → all (names_only key_id hashed) rows ≡ true
    → is_some revoked_at ≡ true
    → active_key hashed (save_revoked key_id revoked_at rows) ≡ none
unfolding active_key save_revoked find is_active all names_only
active_key-save_revoked key_id hashed revoked_at [] h gone = refl
active_key-save_revoked key_id hashed revoked_at (row ∷ rows) h gone =
    ground (arith, h, gone, active_key-save_revoked key_id hashed revoked_at rows)

hash_free :
    (fresh : ApiKey) (rows : List ApiKey)
    → any (is_taken fresh) rows ≡ false
    → any (λ row. str_eq row.hashed_key fresh.hashed_key) rows ≡ false
unfolding any is_taken
hash_free fresh [] h = refl
hash_free fresh (row ∷ rows) h = ground (
  arith,
  h,
  hash_free fresh rows,
  eq_iff fresh.hashed_key row.hashed_key,
  eq_iff row.hashed_key fresh.hashed_key,
)

-- An insert takes no lookup away.
pub insert_key-keeps :
    (fresh : ApiKey) (rows : List ApiKey) (hashed : String) (project : ℕ)
    → project_of (active_key hashed rows) ≡ some project
    → project_of (active_key hashed (rows_or rows (insert_key fresh rows))) ≡ some project
unfolding insert_key
insert_key-keeps fresh rows hashed project h = elim (Bool-cases (any (is_taken fresh) rows)) [
  | inl taken ↦ rw taken h
  | inr free ↦ rw free (kept_behind fresh rows hashed project h free)
]
  where
    kept_behind :
        (fresh : ApiKey) (rows : List ApiKey) (hashed : String) (project : ℕ)
        → project_of (active_key hashed rows) ≡ some project
        → any (is_taken fresh) rows ≡ false
        → project_of (active_key hashed (fresh ∷ rows)) ≡ some project
    kept_behind fresh rows hashed project h free =
        elim (Bool-cases (str_eq fresh.hashed_key hashed)) [
          | inl same ↦ ground (
            arith,
            h,
            active_key-free fresh.hashed_key rows (hash_free fresh rows free),
            (eq_iff fresh.hashed_key hashed).0 same,
          )
          | inr differs ↦ unfold active_key find in rw differs h
        ]
