-- ===== src/Pages/Order.antt =====
-- routes/v1/emails.py: the order of a page, and what a filter leaves of it.
use seskit.Base.{
  ltb, ◌==◌, Bool, true, ◌&&◌, not, List, [], ◌∷◌, ◌++◌, all, select, if◌then◌else◌, ◌≡◌, refl,
  arith,
}
use seskit.Emails.{Email}
use seskit.Pages.{insert_desc, by_id_desc}

-- Newest first, without repetition.
unfoldable pub IsDescending : List Email → Type 0
IsDescending [] = Unit {0}
IsDescending (email ∷ rows) = (all (λ row. ltb row.id email.id) rows ≡ true) × IsDescending rows

-- The primary key.
unfoldable pub HasUniqueIds : List Email → Type 0
HasUniqueIds [] = Unit {0}
HasUniqueIds (email ∷ rows) =
    (all (λ row. not (row.id == email.id)) rows ≡ true) × HasUniqueIds rows

all-insert_desc :
    (test : Email → Bool) (email : Email) (rows : List Email)
    → all test (insert_desc email rows) ≡ (test email && all test rows)
unfolding all insert_desc
all-insert_desc test email [] = refl
all-insert_desc test email (row ∷ rows) = ground (arith, all-insert_desc test email rows)

pub all-by_id_desc :
    (test : Email → Bool) (rows : List Email) → all test (by_id_desc rows) ≡ all test rows
unfolding all by_id_desc
all-by_id_desc test [] = refl
all-by_id_desc test (row ∷ rows) =
    ground (arith, all-insert_desc test row (by_id_desc rows), all-by_id_desc test rows)

all_below :
    (low high : Email) (rows : List Email)
    → ltb low.id high.id ≡ true
    → all (λ row. ltb row.id low.id) rows ≡ true
    → all (λ row. ltb row.id high.id) rows ≡ true
unfolding all
all_below low high [] below h = refl
all_below low high (row ∷ rows) below h = ground (arith, below, h, all_below low high rows below)

pub all-select :
    (test keep : Email → Bool) (rows : List Email)
    → all test rows ≡ true
    → all test (select keep rows) ≡ true
unfolding all select
all-select test keep [] h = refl
all-select test keep (row ∷ rows) h = ground (arith, h, all-select test keep rows)

insert_desc-IsDescending :
    (email : Email) (rows : List Email)
    → all (λ row. not (row.id == email.id)) rows ≡ true
    → IsDescending rows
    → IsDescending (insert_desc email rows)
unfolding IsDescending insert_desc all
insert_desc-IsDescending email [] apart h = (refl, tt)
insert_desc-IsDescending email (row ∷ rows) apart (above, h) = ground (
  arith,
  apart,
  above,
  h,
  all_below row email rows,
  all-insert_desc (λ other. ltb other.id row.id) email rows,
  insert_desc-IsDescending email rows,
)

pub by_id_desc-IsDescending :
    (rows : List Email) → HasUniqueIds rows → IsDescending (by_id_desc rows)
unfolding IsDescending by_id_desc HasUniqueIds
by_id_desc-IsDescending [] h = tt
by_id_desc-IsDescending (row ∷ rows) (apart, h) =
    insert_desc-IsDescending row (by_id_desc rows)
      (ground (arith, apart, all-by_id_desc (λ other. not (other.id == row.id)) rows))
      (by_id_desc-IsDescending rows h)

insert_desc-front :
    (email : Email) (rows : List Email)
    → all (λ row. ltb row.id email.id) rows ≡ true
    → insert_desc email rows ≡ email ∷ rows
unfolding insert_desc all
insert_desc-front email [] h = refl
insert_desc-front email (row ∷ rows) h = ground (arith, h)

select-insert_desc :
    (keep : Email → Bool) (email : Email) (rows : List Email)
    → IsDescending rows
    → select keep (insert_desc email rows)
      ≡ (if keep email then insert_desc email (select keep rows) else select keep rows)
unfolding select insert_desc IsDescending
select-insert_desc keep email [] h = ground arith
select-insert_desc keep email (row ∷ rows) (above, h) = ground (
  arith,
  above,
  select-insert_desc keep email rows h,
  all_below row email (select keep rows),
  all-select (λ other. ltb other.id row.id) keep rows above,
  insert_desc-front email (select keep rows),
)

-- Filtering and ordering change places.
pub select-by_id_desc :
    (keep : Email → Bool) (rows : List Email)
    → HasUniqueIds rows
    → select keep (by_id_desc rows) ≡ by_id_desc (select keep rows)
unfolding select by_id_desc HasUniqueIds
select-by_id_desc keep [] h = refl
select-by_id_desc keep (row ∷ rows) (apart, h) = ground (
  arith,
  select-insert_desc keep row (by_id_desc rows) (by_id_desc-IsDescending rows h),
  select-by_id_desc keep rows h,
)

pub select-all :
    (keep : Email → Bool) (rows : List Email) → all keep rows ≡ true → select keep rows ≡ rows
unfolding select all
select-all keep [] h = refl
select-all keep (row ∷ rows) h = ground (arith, h, select-all keep rows)

pub all_middle :
    (test : Email → Bool) (before after : List Email) (email : Email)
    → all test (before ++ (email ∷ after)) ≡ true
    → test email ≡ true
unfolding all
all_middle test [] after email h = ground (arith, h)
all_middle test (row ∷ before) after email h = ground (arith, h, all_middle test before after email)

-- What is older than a row of the list is what follows it.
pub select-after :
    (before after : List Email) (email : Email)
    → IsDescending (before ++ (email ∷ after))
    → select (λ row. ltb row.id email.id) (before ++ (email ∷ after)) ≡ after
unfolding select IsDescending
select-after [] after email (above, h) =
    ground (arith, select-all (λ row. ltb row.id email.id) after above)
select-after (row ∷ before) after email (above, h) = ground (
  arith,
  select-after before after email h,
  all_middle (λ other. ltb other.id row.id) before after email above,
)

pub select-HasUniqueIds :
    (keep : Email → Bool) (rows : List Email) → HasUniqueIds rows → HasUniqueIds (select keep rows)
unfolding HasUniqueIds select
select-HasUniqueIds keep [] h = h
select-HasUniqueIds keep (row ∷ rows) (apart, h) = ground (
  arith,
  apart,
  all-select (λ other. not (other.id == row.id)) keep rows apart,
  select-HasUniqueIds keep rows h,
)
