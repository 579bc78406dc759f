-- ===== src/Pages/Walk.antt =====
-- routes/v1/emails.py: a client that follows the pages of a list to the end.
use seskit.Base.{
  ℕ, zero, suc, ltb, ◌<◌, ◌==◌, ==_refl, Bool, true, false, ◌&&◌, not, Option, none, some, List, [],
  ◌∷◌, ◌++◌, all, find, find-test, select, length, take, Result, ok, err, ◌≡◌, refl, sym, ap, ◌∙◌,
  arith, Bool-cases, Option-cases, inl, inr,
}
use seskit.Errors.{ApiError}
use seskit.Emails.{EmailStatus, Email}
use seskit.Pages.{EmailPage, has_status, is_older, by_id_desc, page_of, query, owned, list_emails}
use seskit.Pages.Order.{
  IsDescending, HasUniqueIds, by_id_desc-IsDescending, select-by_id_desc, select-after,
  select-HasUniqueIds, select-all, all_middle, all-by_id_desc, all-select,
}

unfoldable pub last_id : List Email → Option ℕ
last_id [] = none
last_id (email ∷ []) = some email.id
last_id (email ∷ other ∷ rows) = last_id (other ∷ rows)

abbrev pub followed_by : List Email → Option (List Email) → Option (List Email)
followed_by rows none = none
followed_by rows (some more) = some (rows ++ more)

-- What follows a page: the rest, if there is more and a row to go on from.
unfoldable pub turned :
    Option ℕ
    → (has_more : Bool) → List Email
    → (next : ℕ → Option (List Email)) → Option (List Email)
turned none has_more rows next = some rows
turned (some cursor) false rows next = some rows
turned (some cursor) true rows next = followed_by rows (next cursor)

unfoldable pub follow :
    Result ApiError EmailPage → (next : ℕ → Option (List Email)) → Option (List Email)
unfolding turned last_id
follow (err e) next = none
follow (ok page) next = turned (last_id page.«data») page.has_more page.«data» next

-- Page after page, each from the last id of the one before; nothing if a page is refused or the
-- fuel is spent.
module _ (project_id limit : ℕ) (status : Option EmailStatus) (table : List Email) where
  unfoldable pub walk : (fuel : ℕ) → (starting_after : Option ℕ) → Option (List Email)
  unfolding follow
  walk zero starting_after = none
  walk (suc fuel) starting_after =
      follow (list_emails project_id limit starting_after status table)
        (λ cursor. walk fuel (some cursor))

turned_last :
    (cursor : Option ℕ) (rows : List Email) (next : ℕ → Option (List Email))
    → turned cursor false rows next ≡ some rows
unfolding turned
turned_last none rows next = refl
turned_last (some cursor) rows next = refl

last_id-append :
    (rows : List Email) (email : Email) → last_id (rows ++ (email ∷ [])) ≡ some email.id
unfolding last_id
last_id-append [] email = refl
last_id-append (row ∷ []) email = refl
last_id-append (row ∷ other ∷ rows) email = last_id-append (other ∷ rows) email

-- A full page with more behind it.
cut :
    (k : ℕ) (rows : List Email)
    → ltb (suc k) (length (take (suc (suc k)) rows)) ≡ true
    → (before after : List Email) × (email : Email) × (rows ≡ before ++ (email ∷ after))
      × (take (suc k) (take (suc (suc k)) rows) ≡ before ++ (email ∷ []))
cut k [] h = ground (arith, h)
cut zero (row ∷ rows) h = ([], rows, row, refl, refl)
cut (suc k) (row ∷ rows) h =
    let (before, after, email, whole, page) = cut k rows (ground (arith, h)) in
    (row ∷ before, after, email, ap (λ rest. row ∷ rest) whole, ap (λ rest. row ∷ rest) page)

-- The last page.
take_short :
    (limit : ℕ) (rows : List Email)
    → ltb limit (length (take (suc limit) rows)) ≡ false
    → take limit (take (suc limit) rows) ≡ rows
take_short zero [] h = refl
take_short zero (row ∷ rows) h = ground (arith, h)
take_short (suc limit) [] h = refl
take_short (suc limit) (row ∷ rows) h =
    ap (λ rest. row ∷ rest) (take_short limit rows (ground (arith, h)))

select_swap :
    (p q : Email → Bool) (rows : List Email) → select p (select q rows) ≡ select q (select p rows)
unfolding select
select_swap p q [] = refl
select_swap p q (row ∷ rows) = ground (arith, select_swap p q rows)

all-true :
    (test : Email → Bool) (rows : List Email)
    → ((row : Email) → test row ≡ true)
    → all test rows ≡ true
unfolding all
all-true test [] h = refl
all-true test (row ∷ rows) h = ground (arith, h row, all-true test rows h)

all_selected : (test : Email → Bool) (rows : List Email) → all test (select test rows) ≡ true
unfolding all select
all_selected test [] = refl
all_selected test (row ∷ rows) = ground (arith, all_selected test rows)

-- What no row of a table passes, none of a part of it passes.
none-select :
    (test keep : Email → Bool) (rows : List Email)
    → all (λ row. not (test row)) rows ≡ true
    → all (λ row. not (test row)) (select keep rows) ≡ true
none-select test keep rows h = all-select (λ row. not (test row)) keep rows h

find-none :
    (test : Email → Bool) (rows : List Email)
    → find test rows ≡ none
    → all (λ row. not (test row)) rows ≡ true
unfolding find all
find-none test [] h = refl
find-none test (row ∷ rows) h = ground (arith, h, find-none test rows)

module _ (project_id : ℕ) (status : Option EmailStatus) (table : List Email) where
  abbrev whole : List Email
  whole = query project_id none status table

  abbrev own : Email → Bool
  own row = row.project_id == project_id

  -- What the whole query is, and the query from a row on.
  pub query_none : whole ≡ by_id_desc (select (has_status status) (select own table))
  unfolding query is_older
  query_none =
      ap (λ rows. by_id_desc (select (has_status status) rows))
        (select-all (λ row. true) (select own table)
          (all-true (λ row. true) (select own table) (λ row. refl)))

  query_some :
      (cursor : ℕ)
      → HasUniqueIds table
      → query project_id (some cursor) status table ≡ select (λ row. ltb row.id cursor) whole
  unfolding query is_older
  query_some cursor unique =
      ap by_id_desc (select_swap (has_status status) (λ row. ltb row.id cursor) (select own table))
      ∙ sym (
          select-by_id_desc (λ row. ltb row.id cursor)
            (select (has_status status) (select own table))
            (select-HasUniqueIds (has_status status) (select own table)
              (select-HasUniqueIds own table unique)))
      ∙ ap (select (λ row. ltb row.id cursor)) (sym query_none)

  all-whole :
      (test : Email → Bool)
      → all test (select (has_status status) (select own table)) ≡ true
      → all test whole ≡ true
  all-whole test h =
      rw query_none (all-by_id_desc test (select (has_status status) (select own table)) ∙ h)

  pub whole-IsDescending : HasUniqueIds table → IsDescending whole
  whole-IsDescending unique = rw query_none (
      by_id_desc-IsDescending (select (has_status status) (select own table)) (
        select-HasUniqueIds (has_status status) (select own table)
          (select-HasUniqueIds own table unique)))

  all-split :
      (test : Email → Bool) (before after : List Email) (email : Email)
      → whole ≡ before ++ (email ∷ after)
      → all test (select (has_status status) (select own table)) ≡ true
      → test email ≡ true
  all-split test before after email split h =
      all_middle test before after email (rw (sym split) (all-whole test h))

  own-split :
      (before after : List Email) (email : Email)
      → whole ≡ before ++ (email ∷ after)
      → own email ≡ true
  own-split before after email split =
      all-split own before after email split
        (all-select own (has_status status) (select own table) (all_selected own table))

  -- A row of the list can be paged from.
  owned_row :
      (before after : List Email) (email : Email)
      → whole ≡ before ++ (email ∷ after)
      → (found : Email) × (owned email.id project_id table ≡ some found) × (found.id ≡ email.id)
  unfolding owned
  owned_row before after email split =
      elim (Option-cases (find (λ row. (row.id == email.id) && own row) table)) [
        | inr (found, hit) ↦ (
          found,
          hit,
          ground (arith, find-test (λ row. (row.id == email.id) && own row) table found hit),
        )
        | inl missing ↦ ground (
          arith,
          ==_refl email.id,
          own-split before after email split,
          all-split (λ row. not ((row.id == email.id) && own row)) before after email split
              (none-select (λ row. (row.id == email.id) && own row) (has_status status)
                (select own table)
                (none-select (λ row. (row.id == email.id) && own row) own table
                  (find-none (λ row. (row.id == email.id) && own row) table missing))),
        )
      ]

  list_emails-found :
      (limit cursor : ℕ) (found : Email)
      → owned cursor project_id table ≡ some found
      → list_emails project_id limit (some cursor) status table
        ≡ ok (page_of limit (query project_id (some found.id) status table))
  unfolding list_emails
  list_emails-found limit cursor found hit = ground (arith, hit)

  pub page_after :
      (limit : ℕ) (before after : List Email) (email : Email)
      → HasUniqueIds table
      → whole ≡ before ++ (email ∷ after)
      → list_emails project_id limit (some email.id) status table ≡ ok (page_of limit after)
  page_after limit before after email unique split =
      let (found, hit, same) = owned_row before after email split in
      list_emails-found limit email.id found hit
      ∙ (ap (λ rows. ok (page_of limit rows))
          (ap (λ cursor. query project_id (some cursor) status table) same
            ∙ query_some email.id unique
            ∙ ap (select (λ row. ltb row.id email.id)) split
            ∙ select-after before after email (rw (sym split) (whole-IsDescending unique))))

append_more :
    (before more : List Email) (email : Email) (after : List Email)
    → before ++ (email ∷ (more ++ after)) ≡ (before ++ (email ∷ more)) ++ after
append_more [] more email after = refl
append_more (row ∷ before) more email after =
    ap (λ rows. row ∷ rows) (append_more before more email after)

length-append :
    (before after : List Email) (email : Email) → length after < length (before ++ (email ∷ after))
length-append [] after email = omega arith
length-append (row ∷ before) after email = ground (arith, length-append before after email)

module _ (project_id k : ℕ) (status : Option EmailStatus) (table : List Email) where
  pub walk_on :
      (fuel : ℕ) (rows : List Email) (starting_after : Option ℕ)
      → length rows < fuel
      → list_emails project_id (suc k) starting_after status table ≡ ok (page_of (suc k) rows)
      → ((before after : List Email) (email : Email)
          → rows ≡ before ++ (email ∷ after)
          → list_emails project_id (suc k) (some email.id) status table
            ≡ ok (page_of (suc k) after))
      → walk project_id (suc k) status table fuel starting_after ≡ some rows
  unfolding walk follow page_of
  walk_on zero rows starting_after enough page next = absurd (omega arith)
  walk_on (suc fuel) rows starting_after enough page next =
      elim (Bool-cases (ltb (suc k) (length (take (suc (suc k)) rows)))) [
        | inr last ↦
            rw (page, last, take_short (suc k) rows last) (turned_last (last_id rows) rows _)
        | inl more ↦
            let (before, after, email, whole, shown) = cut k rows more in
            rw (page, more, shown, last_id-append before email)
              (ap (followed_by (before ++ (email ∷ []))) (
                  walk_on fuel after (some email.id)
                    (ground (arith, enough, ap length whole, length-append before after email))
                    (next before after email whole)
                    (λ more_before rest other split.
                      next (before ++ (email ∷ more_before)) rest other (
                        whole
                        ∙ ap (λ rows. before ++ (email ∷ rows)) split
                        ∙ append_more before more_before email (other ∷ rest))))
                ∙ ap some (sym (append_more before [] email after) ∙ sym whole))
      ]
