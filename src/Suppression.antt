-- ===== src/Suppression.antt =====
-- services/suppression.py over models/suppression.py: the list of addresses that a project does not
-- send to. The table is the list of its rows, oldest first; a project and a row are named by
-- numbers, and `bare` is `bare_address`.
pub mod Laws
pub mod Unique
pub mod Among
mod Tests
use seskit.Base.{
  ℕ, ◌==◌, String, str_eq, Bool, true, false, ◌&&◌, not, Option, none, some, List, [], ◌∷◌, ◌++◌,
  map, Result, ok, err, ◌>>=◌, if◌then◌else◌, is_some, find, select, amend, any,
}

pub data SuppressionReason : Type 0 where
  bounce complaint unsubscribe manual : SuppressionReason

pub record SuppressedAddress : Type 0 where
  pub id : ℕ
  pub project_id : ℕ
  pub address : String
  pub reason : SuppressionReason
  pub source_event_id : Option ℕ
  pub note : Option String
  pub removed_at : Option ℕ

abbrev pub is_active : SuppressedAddress → Bool
is_active row = not (is_some row.removed_at)

abbrev pub Table : Type 0
Table = List SuppressedAddress

pub data DatabaseError : Type 0 where
  integrity_error : DatabaseError

-- The `where` of `find_suppression`, after the address has been reduced.
abbrev pub is_live : ℕ → String → SuppressedAddress → Bool
is_live project_id address row =
    row.project_id == project_id && str_eq row.address address && is_active row

-- `session.add(row)` and the flush: the partial unique index `uq_suppressed_live` admits one live
-- row for a project and an address.
unfoldable pub insert_row : Table → SuppressedAddress → Result DatabaseError Table
insert_row table row =
    if is_active row && any (is_live row.project_id row.address) table
    then err integrity_error
    else ok (table ++ row ∷ [])

-- A Python set of addresses: each value once.
unfoldable pub contains : String → List String → Bool
contains a l = any (str_eq a) l

unfoldable pub to_set : List String → List String
unfolding contains
to_set [] = []
to_set (a ∷ l) = let rest = to_set l in if contains a rest then rest else a ∷ rest

-- What `suppress` does once it has looked: the row already there, or a new one.
unfoldable pub keep_or_insert :
    Table
    → SuppressedAddress
    → Option SuppressedAddress
    → Result DatabaseError (Table × SuppressedAddress)
unfolding insert_row
keep_or_insert table row (some existing) = ok (table, existing)
keep_or_insert table row none = do table' ← insert_row table row; ok (table', row)

-- The query of `suppressed_among`, which is not made for an empty list.
unfoldable pub rows_among : Table → ℕ → List String → List String
unfolding contains to_set
rows_among table project_id [] = []
rows_among table project_id (w ∷ ws) = to_set (
    map (λ row. row.address)
      (select
        (λ row. row.project_id == project_id && contains row.address (w ∷ ws) && is_active row)
        table))

module _ (bare : String → String) where
  unfoldable pub find_suppression : Table → ℕ → String → Option SuppressedAddress
  find_suppression table project_id address = find (is_live project_id (bare address)) table

  unfoldable pub suppress :
      Table
      → (fresh project_id : ℕ) → (address : String) → SuppressionReason
      → (source_event_id : Option ℕ) → (note : Option String)
      → Result DatabaseError (Table × SuppressedAddress)
  suppress table fresh project_id address reason source_event_id note =
      let value = bare address in
      keep_or_insert table
        (record {
          id = fresh;
          project_id = project_id;
          address = value;
          reason = reason;
          source_event_id = source_event_id;
          note = note;
          removed_at = none;
        })
        (find_suppression table project_id value)

  -- The recipients as a set of reduced addresses, without the empty one.
  unfoldable pub wanted_addresses : List String → List String
  unfolding to_set
  wanted_addresses addresses = select (λ a. not (str_eq a "")) (to_set (map bare addresses))

  unfoldable pub suppressed_among : Table → ℕ → List String → List String
  unfolding wanted_addresses rows_among
  suppressed_among table project_id addresses =
      rows_among table project_id (wanted_addresses addresses)

  unfoldable pub remove_suppression : Table → (now : ℕ) → ℕ → String → Table × Bool
  unfolding find_suppression
  remove_suppression table now project_id address =
      elim (find_suppression table project_id address) [
        | none ↦ (table, false)
        | some _ ↦ (
          amend (is_live project_id (bare address)) (λ row. record row { removed_at = some now })
              table,
          true,
        )
      ]
