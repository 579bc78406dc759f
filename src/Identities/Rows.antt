-- ===== src/Identities/Rows.antt =====
-- What SES holds after calls and what rows name, and how adding, updating and removing a row change
-- which ids and names there are.
use seskit.Base.{
  ℕ, ltb, ◌==◌, String, str_eq, Bool, true, false, ◌&&◌, ◌||◌, not, List, [], ◌∷◌, ◌++◌, select,
  map, any, count, if◌then◌else◌, ◌≡◌, refl, arith,
}
use seskit.Identities.{
  IdentityStatus, SenderIdentity, Call, created, deleted, Registry, names, apply_status, without,
}

-- What an account holds after the calls, the newest of which is the first.
unfoldable pub holds : (value region : String) → List Call → Bool
holds value region [] = false
holds value region (created v r ∷ calls) =
    let before = holds value region calls in
    if str_eq v value && str_eq r region then true else before
holds value region (deleted v r ∷ calls) =
    let before = holds value region calls in
    if str_eq v value && str_eq r region then false else before

-- SES holds an identity exactly if a row of some project names it, and no two rows have one id.
unfoldable pub IsKeyed : List SenderIdentity → Type 0
IsKeyed [] = Unit {0}
IsKeyed (row ∷ rows) = (any (λ other. other.id == row.id) rows ≡ false) × IsKeyed rows

unfoldable pub IsBacked : Registry → Type 0
IsBacked registry =
    IsKeyed registry.rows
    × ((value region : String)
        → any (names value region) registry.rows ≡ holds value region registry.calls)

pub any-append :
    (test : SenderIdentity → Bool) (rows : List SenderIdentity) (row : SenderIdentity)
    → any test (rows ++ (row ∷ [])) ≡ (any test rows || test row)
unfolding any
any-append test [] row = ground arith
any-append test (other ∷ rows) row = ground (arith, any-append test rows row)

-- An answer that is written onto rows changes no name and no id.
pub any-apply :
    (value region : String) (now id : ℕ) (status : IdentityStatus) (rows : List SenderIdentity)
    → any
        (names value region)
        (map (λ row. if row.id == id then apply_status now status row else row) rows)
      ≡ any (names value region) rows
unfolding any names apply_status
any-apply value region now id status [] = refl
any-apply value region now id status (row ∷ rows) =
    ground (arith, any-apply value region now id status rows)

any_id-apply :
    (other now id : ℕ) (status : IdentityStatus) (rows : List SenderIdentity)
    → any
        (λ row. row.id == other)
        (map (λ row. if row.id == id then apply_status now status row else row) rows)
      ≡ any (λ row. row.id == other) rows
unfolding any apply_status
any_id-apply other now id status [] = refl
any_id-apply other now id status (row ∷ rows) =
    ground (arith, any_id-apply other now id status rows)

pub apply-IsKeyed :
    (now id : ℕ) (status : IdentityStatus) (rows : List SenderIdentity)
    → IsKeyed rows
    → IsKeyed (map (λ row. if row.id == id then apply_status now status row else row) rows)
unfolding IsKeyed apply_status
apply-IsKeyed now id status [] h = h
apply-IsKeyed now id status (row ∷ rows) (apart, h) =
    ground
      (arith, apart, any_id-apply row.id now id status rows, apply-IsKeyed now id status rows h)

pub append-IsKeyed :
    (rows : List SenderIdentity) (row : SenderIdentity)
    → any (λ other. other.id == row.id) rows ≡ false
    → IsKeyed rows
    → IsKeyed (rows ++ (row ∷ []))
unfolding IsKeyed any
append-IsKeyed [] row free h = (refl, tt)
append-IsKeyed (other ∷ rows) row free (apart, h) = (
  ground (arith, apart, free, any-append (λ x. x.id == other.id) rows row),
  append-IsKeyed rows row (ground (arith, free)) h,
)

pub any-without :
    (value region : String) (identity : SenderIdentity) (rows : List SenderIdentity)
    → any (names value region) (without identity rows)
      ≡ ltb 0 (count (λ row. names value region row && not (row.id == identity.id)) rows)
unfolding any without select count
any-without value region identity [] = ground arith
any-without value region identity (row ∷ rows) =
    ground (arith, any-without value region identity rows)

any_id-without :
    (id : ℕ) (identity : SenderIdentity) (rows : List SenderIdentity)
    → any (λ other. other.id == id) rows ≡ false
    → any (λ other. other.id == id) (without identity rows) ≡ false
unfolding any without select
any_id-without id identity [] h = refl
any_id-without id identity (row ∷ rows) h = ground (arith, h, any_id-without id identity rows)

pub without-IsKeyed :
    (identity : SenderIdentity) (rows : List SenderIdentity)
    → IsKeyed rows
    → IsKeyed (without identity rows)
unfolding IsKeyed without select
without-IsKeyed identity [] h = h
without-IsKeyed identity (row ∷ rows) (apart, h) =
    ground (arith, apart, any_id-without row.id identity rows, without-IsKeyed identity rows h)
