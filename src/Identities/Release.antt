-- ===== src/Identities/Release.antt =====
-- services/identities.py, remove_identity: a row that is removed, and the call to SES that may follow.
use seskit.Base.{
  ℕ, ltb, ◌==◌, ==_refl, ==_iff, String, str_eq, eq_iff, eq_refl, Bool, true, false, ◌&&◌, ◌||◌,
  not, some, List, [], ◌∷◌, find, select, any, all, Result, ok, err, ◌≡◌, refl, sym, ap, ◌∙◌, arith,
  Bool-cases, inl, inr,
}
use seskit.Errors.{ApiError}
use seskit.Identities.{
  SenderIdentity, deleted, Registry, names, count_other_references, without, release,
}
use seskit.Identities.Rows.{holds, IsKeyed, IsBacked, any-without, without-IsKeyed}

-- A row with the identity's id is the identity, as far as its name goes.
pub is_alone : SenderIdentity → SenderIdentity → Bool
is_alone identity row = not (row.id == identity.id) || names identity.value identity.region row

alone_absent :
    (identity : SenderIdentity) (rows : List SenderIdentity)
    → any (λ other. other.id == identity.id) rows ≡ false
    → all (is_alone identity) rows ≡ true
unfolding any all is_alone
alone_absent identity [] h = refl
alone_absent identity (row ∷ rows) h = ground (arith, h, alone_absent identity rows)

found_id :
    (test : SenderIdentity → Bool) (identity : SenderIdentity) (rows : List SenderIdentity)
    → find test rows ≡ some identity
    → any (λ other. other.id == identity.id) rows ≡ true
unfolding find any
found_id test identity [] h = ground (arith, h)
found_id test identity (row ∷ rows) h =
    ground (arith, h, found_id test identity rows, ==_refl identity.id)

alone_self : (identity : SenderIdentity) → is_alone identity identity ≡ true
unfolding is_alone names
alone_self identity = ground (arith, eq_refl identity.value, eq_refl identity.region)

alone_own :
    (row : SenderIdentity) (rows : List SenderIdentity)
    → any (λ other. other.id == row.id) rows ≡ false
    → all (is_alone row) (row ∷ rows) ≡ true
unfolding all
alone_own row rows apart = ground (arith, alone_self row, alone_absent row rows apart)

ids_differ :
    (id other : ℕ) (rows : List SenderIdentity)
    → any (λ row. row.id == id) rows ≡ false
    → any (λ row. row.id == other) rows ≡ true
    → (id == other) ≡ false
ids_differ id other rows absent present = elim (Bool-cases (id == other)) [
  | inl same ↦
      ground
        (arith, absent, present, ap (λ k. any (λ row. row.id == k) rows) ((==_iff id other).0 same))
  | inr differs ↦ differs
]

alone_other :
    (identity row : SenderIdentity) (rows : List SenderIdentity)
    → all (is_alone identity) rows ≡ true
    → (row.id == identity.id) ≡ false
    → all (is_alone identity) (row ∷ rows) ≡ true
unfolding all is_alone
alone_other identity row rows rest differs = ground (arith, rest, differs)

pub alone_found :
    (test : SenderIdentity → Bool) (identity : SenderIdentity) (rows : List SenderIdentity)
    → IsKeyed rows
    → find test rows ≡ some identity
    → all (is_alone identity) rows ≡ true
alone_found test identity [] h found = unfold all in refl
alone_found test identity (row ∷ rows) keyed found = elim (Bool-cases (test row)) [
  | inl hit ↦ alone_head row rows keyed (unfold find in ground (arith, found, hit))
  | inr miss ↦ alone_later row rows keyed (unfold find in ground (arith, found, miss)) (
      alone_found test identity rows (unfold IsKeyed in keyed.1)
        (unfold find in ground (arith, found, miss)))
]
  where
    alone_head :
        (row : SenderIdentity) (rows : List SenderIdentity)
        → IsKeyed (row ∷ rows)
        → row ≡ identity
        → all (is_alone identity) (row ∷ rows) ≡ true
    alone_head row rows keyed same = rw (sym same) (alone_own row rows (unfold IsKeyed in keyed.0))

    alone_later :
        (row : SenderIdentity) (rows : List SenderIdentity)
        → IsKeyed (row ∷ rows)
        → find test rows ≡ some identity
        → all (is_alone identity) rows ≡ true
        → all (is_alone identity) (row ∷ rows) ≡ true
    alone_later row rows keyed found rest = alone_other identity row rows rest (
        ids_differ row.id identity.id rows (unfold IsKeyed in keyed.0)
          (found_id test identity rows found))

-- Every other name stays.
any-without_other :
    (value region : String) (identity : SenderIdentity) (rows : List SenderIdentity)
    → all (is_alone identity) rows ≡ true
    → (str_eq identity.value value && str_eq identity.region region) ≡ false
    → any (names value region) (without identity rows) ≡ any (names value region) rows
unfolding any without select all is_alone names
any-without_other value region identity [] h differs = refl
any-without_other value region identity (row ∷ rows) h differs = ground (
  arith,
  h,
  differs,
  any-without_other value region identity rows,
  eq_iff row.value identity.value,
  eq_iff row.region identity.region,
  eq_iff row.value value,
  eq_iff row.region region,
  eq_iff identity.value value,
  eq_iff identity.region region,
)

any_part :
    (value region : String) (identity : SenderIdentity) (rows : List SenderIdentity)
    → any (names value region) (without identity rows) ≡ true
    → any (names value region) rows ≡ true
unfolding any without select
any_part value region identity [] h = h
any_part value region identity (row ∷ rows) h =
    ground (arith, h, any_part value region identity rows)

-- The names that are left after a removal.
kept_own :
    (value region : String) (identity : SenderIdentity) (rows : List SenderIdentity)
    → identity.value ≡ value
    → identity.region ≡ region
    → any (names value region) (without identity rows)
      ≡ ltb 0 (count_other_references identity rows)
unfolding count_other_references
kept_own value region identity rows same_value same_region =
    rw (sym same_value, sym same_region) (any-without identity.value identity.region identity rows)

release-shared :
    (others : ℕ) (answer : Result ApiError (Unit {0})) (identity : SenderIdentity)
    → (kept : Registry) (asked : Bool) (after : Registry) → ltb 0 others ≡ true
    → release others answer identity kept ≡ ok (asked, after)
    → after ≡ kept
unfolding release
release-shared others (ok done) identity kept asked after shared h = ground (arith, shared, h)
release-shared others (err e) identity kept asked after shared h = ground (arith, shared, h)

release_last :
    (others : ℕ) (answer : Result ApiError (Unit {0})) (identity : SenderIdentity)
    → (kept : Registry) (asked : Bool) (after : Registry) → ltb 0 others ≡ false
    → release others answer identity kept ≡ ok (asked, after)
    → after ≡ record kept { calls = deleted identity.value identity.region ∷ kept.calls }
unfolding release
release_last others (ok done) identity kept asked after last h = ground (arith, last, h)
release_last others (err e) identity kept asked after last h = ground (arith, last, h)

module _ (identity : SenderIdentity) (registry : Registry)
    (alone : all (is_alone identity) registry.rows ≡ true) (backed : IsBacked registry) where
  kept-IsBacked :
      ltb 0 (count_other_references identity registry.rows) ≡ true
      → IsBacked (record registry { rows = without identity registry.rows })
  unfolding IsBacked
  kept-IsBacked shared = (
    without-IsKeyed identity registry.rows backed.0,
    λ value region.
        elim (Bool-cases (str_eq identity.value value && str_eq identity.region region)) [
          | inr differs ↦
              any-without_other value region identity registry.rows alone differs
              ∙ backed.1 value region
          | inl same ↦ ground (
            arith,
            shared,
            same,
            kept_own value region identity registry.rows
                ((eq_iff identity.value value).0 (ground (arith, same)))
                ((eq_iff identity.region region).0 (ground (arith, same))),
            any_part value region identity registry.rows,
            backed.1 value region,
          )
        ],
  )

  deleted-IsBacked :
      ltb 0 (count_other_references identity registry.rows) ≡ false
      → IsBacked (record {
        rows = without identity registry.rows;
        calls = deleted identity.value identity.region ∷ registry.calls;
      })
  unfolding IsBacked holds
  deleted-IsBacked last = (
    without-IsKeyed identity registry.rows backed.0,
    λ value region.
        elim (Bool-cases (str_eq identity.value value && str_eq identity.region region)) [
          | inr differs ↦ rw differs (
              any-without_other value region identity registry.rows alone differs
              ∙ backed.1 value region)
          | inl same ↦ rw same (
              kept_own value region identity registry.rows
                ((eq_iff identity.value value).0 (ground (arith, same)))
                ((eq_iff identity.region region).0 (ground (arith, same)))
              ∙ last)
        ],
  )

  -- What a removal leaves is what it asked SES to keep.
  pub release-IsBacked :
      (answer : Result ApiError (Unit {0})) (asked : Bool) (after : Registry)
      → release
          (count_other_references identity registry.rows)
          answer
          identity
          (record registry { rows = without identity registry.rows })
        ≡ ok (asked, after)
      → IsBacked after
  release-IsBacked answer asked after done =
      elim (Bool-cases (ltb 0 (count_other_references identity registry.rows))) [
        | inl shared ↦
            rw
              (release-shared (count_other_references identity registry.rows) answer identity
                (record registry { rows = without identity registry.rows }) asked after shared done)
              (kept-IsBacked shared)
        | inr last ↦
            rw
              (release_last (count_other_references identity registry.rows) answer identity
                (record registry { rows = without identity registry.rows }) asked after last done)
              (deleted-IsBacked last)
      ]
