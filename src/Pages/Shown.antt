-- ===== src/Pages/Shown.antt =====
-- routes/v1/emails.py: which messages a list shows.
use seskit.Base.{
  ℕ, suc, length, ◌<◌, ltb, ◌==◌, ==_iff, Bool, true, false, Option, none, some, List, [], ◌∷◌, ◌≡◌,
  refl, arith, Bool-cases, inl, inr, ◌⊎◌,
}
use seskit.Members.{In, In-select, select-In}
use seskit.Emails.{EmailStatus, Email}
use seskit.Pages.{has_status, insert_desc, by_id_desc, query, list_emails}
use seskit.Pages.Order.{IsDescending, HasUniqueIds}
use seskit.Pages.Walk.{walk, query_none, whole-IsDescending, page_after, walk_on}

-- A message of the project, with the status that was asked for, if one was.
unfoldable pub IsShown : ℕ → Option EmailStatus → List Email → Email → Type 0
IsShown project_id none table email = In email table × (email.project_id ≡ project_id)
IsShown project_id (some status) table email =
    In email table × (email.project_id ≡ project_id) × (email.status ≡ status)

insert_desc-In :
    (email fresh : Email) (rows : List Email)
    → In email (insert_desc fresh rows)
    → (fresh ≡ email) ⊎ In email rows
unfolding In insert_desc
insert_desc-In email fresh [] here = here
insert_desc-In email fresh (row ∷ rows) here =
    by_order (ltb row.id fresh.id) refl (insert_desc-In email fresh rows)
  where
    behind :
        (In email (insert_desc fresh rows) → (fresh ≡ email) ⊎ In email rows)
        → (row ≡ email) ⊎ In email (insert_desc fresh rows)
        → (fresh ≡ email) ⊎ ((row ≡ email) ⊎ In email rows)
    behind rest (inl same) = inr (inl same)
    behind rest (inr later) = elim (rest later) [
      | inl same ↦ inl same
      | inr stored ↦ inr (inr stored)
    ]

    by_order :
        (b : Bool)
        → ltb row.id fresh.id ≡ b
        → (In email (insert_desc fresh rows) → (fresh ≡ email) ⊎ In email rows)
        → (fresh ≡ email) ⊎ ((row ≡ email) ⊎ In email rows)
    by_order true first rest = rw first at here
    by_order false second rest = behind rest (rw second at here)

In-insert_desc :
    (email fresh : Email) (rows : List Email)
    → (fresh ≡ email) ⊎ In email rows
    → In email (insert_desc fresh rows)
unfolding In insert_desc
In-insert_desc email fresh [] here = here
In-insert_desc email fresh (row ∷ rows) here = elim (Bool-cases (ltb row.id fresh.id)) [
  | inl first ↦ rw first here
  | inr second ↦ rw second (behind (In-insert_desc email fresh rows) here)
]
  where
    behind :
        ((fresh ≡ email) ⊎ In email rows → In email (insert_desc fresh rows))
        → (fresh ≡ email) ⊎ ((row ≡ email) ⊎ In email rows)
        → (row ≡ email) ⊎ In email (insert_desc fresh rows)
    behind rest (inl same) = inr (rest (inl same))
    behind rest (inr (inl same)) = inl same
    behind rest (inr (inr stored)) = inr (rest (inr stored))

by_id_desc-In : (email : Email) (rows : List Email) → In email (by_id_desc rows) → In email rows
unfolding In by_id_desc
by_id_desc-In email [] here = here
by_id_desc-In email (row ∷ rows) here = elim (insert_desc-In email row (by_id_desc rows) here) [
  | inl same ↦ inl same
  | inr later ↦ inr (by_id_desc-In email rows later)
]

In-by_id_desc : (email : Email) (rows : List Email) → In email rows → In email (by_id_desc rows)
unfolding In by_id_desc
In-by_id_desc email [] here = here
In-by_id_desc email (row ∷ rows) (inl same) = In-insert_desc email row (by_id_desc rows) (inl same)
In-by_id_desc email (row ∷ rows) (inr later) =
    In-insert_desc email row (by_id_desc rows) (inr (In-by_id_desc email rows later))

status_is :
    (email : Email) (status : EmailStatus)
    → has_status (some status) email ≡ true
    → email.status ≡ status
unfolding has_status
status_is email status h = ground (arith, h)

has_status_same :
    (email : Email) (status : EmailStatus)
    → email.status ≡ status
    → has_status (some status) email ≡ true
unfolding has_status
has_status_same email status h = ground (arith, h)

module _ (project_id : ℕ) (table : List Email) (email : Email) where
  own_part :
      (status : Option EmailStatus)
      → In email (query project_id none status table)
      → In email table
        × ((email.project_id == project_id) ≡ true)
        × (has_status status email ≡ true)
  own_part status here =
      let here' = by_id_desc-In email _ (rw (query_none project_id status table) at here) in
      let (mine, asked) = select-In (has_status status) email _ here' in
      let (stored, own) = select-In (λ row. row.project_id == project_id) email table mine in
      (stored, own, asked)

  part_own :
      (status : Option EmailStatus)
      → In email table
      → (email.project_id == project_id) ≡ true
      → has_status status email ≡ true
      → In email (query project_id none status table)
  part_own status stored own asked = rw (query_none project_id status table) (
      In-by_id_desc email _ (
        In-select (has_status status) email _
          (In-select (λ row. row.project_id == project_id) email table stored own) asked))

  -- The list shows a message exactly if it is one of the project with the status asked for.
  pub query-IsShown :
      (status : Option EmailStatus)
      → (In email (query project_id none status table) → IsShown project_id status table email)
        × (IsShown project_id status table email → In email (query project_id none status table))
  unfolding IsShown
  query-IsShown none = (
    λ here.
        let (stored, own, _) = own_part none here in
        (stored, (==_iff email.project_id project_id).0 own),
    λ (stored, own).
        part_own none stored ((==_iff email.project_id project_id).1 own)
          (unfold has_status in refl),
  )
  query-IsShown (some status) = (
    λ here.
        let (stored, own, asked) = own_part (some status) here in
        (stored, (==_iff email.project_id project_id).0 own, status_is email status asked),
    λ (stored, own, asked).
        part_own (some status) stored ((==_iff email.project_id project_id).1 own)
          (has_status_same email status asked),
  )

-- A client that follows the pages, at least one message a page, from the first one on gets every
-- message of the project with the status that was asked for, if one was, and no other, newest first
-- and each once, and comes to the end after no more pages than there are such messages, and one. The
-- table has no two rows with one id.
pub walk_complete :
    (project_id k fuel : ℕ) (status : Option EmailStatus) (table : List Email)
    → HasUniqueIds table
    → length (query project_id none status table) < fuel
    → (walk project_id (suc k) status table fuel none ≡ some (query project_id none status table))
      × IsDescending (query project_id none status table)
      × ((email : Email)
          → (In email (query project_id none status table) → IsShown project_id status table email)
            × (IsShown project_id status table email
                → In email (query project_id none status table)))
walk_complete project_id k fuel status table unique enough = (
  walk_on project_id k status table fuel (query project_id none status table) none enough
      (unfold list_emails in refl)
      (λ before after email split.
        page_after project_id status table (suc k) before after email unique split),
  whole-IsDescending project_id status table unique,
  λ email. query-IsShown project_id table email status,
)
