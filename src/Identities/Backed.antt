-- ===== src/Identities/Backed.antt =====
-- services/identities.py: what SES holds and what the rows of all projects name.
use seskit.Base.{
  ℕ, ◌==◌, String, str_eq, eq_iff, Bool, true, false, ◌&&◌, Option, none, some, List, [], ◌∷◌, find,
  any, all, Result, ok, err, >>=-ok, ◌≡◌, refl, sym, ◌∙◌, arith, Bool-cases, inl, inr,
}
use seskit.Errors.{ApiError}
use seskit.Aws.{AwsCredentials}
use seskit.Identities.{
  NameTools, IdentityStatus, SenderIdentity, created, Registry, names, get_owned_identity,
  find_identity, apply_status, new_identity, add_row, classify, add_identity, remove_identity,
}
use seskit.Identities.Rows.{holds, IsBacked, any-append, any-apply, apply-IsKeyed, append-IsKeyed}
use seskit.Identities.Release.{release-IsBacked, is_alone, alone_found}

found_own :
    (project_id : ℕ) (value region : String) (rows : List SenderIdentity)
    → (existing : SenderIdentity) → find_identity project_id value region rows ≡ some existing
    → any (names value region) rows ≡ true
unfolding find_identity find any
found_own project_id value region [] existing found = ground (arith, found)
found_own project_id value region (row ∷ rows) existing found =
    ground (arith, found, found_own project_id value region rows existing)

found_named :
    (project_id : ℕ) (value region v r : String) (rows : List SenderIdentity)
    → (existing : SenderIdentity) → find_identity project_id value region rows ≡ some existing
    → value ≡ v
    → region ≡ r
    → any (names v r) rows ≡ true
found_named project_id value region v r rows existing found same_value same_region =
    rw (sym same_value, sym same_region) (found_own project_id value region rows existing found)

add_row-IsBacked :
    (now fresh project_id : ℕ) (value region : String) (status : IdentityStatus)
    → (existing : Option SenderIdentity) (registry : Registry)
    → find_identity project_id value region registry.rows ≡ existing
    → any (λ row. row.id == fresh) registry.rows ≡ false
    → IsBacked registry
    → IsBacked (record {
      rows = add_row now fresh project_id value region status existing registry.rows;
      calls = created value region ∷ registry.calls;
    })
unfolding IsBacked add_row
add_row-IsBacked now fresh project_id value region status none registry found free (keyed, h) = (
  append-IsKeyed registry.rows _ free keyed,
  λ v r.
      any-append (names v r) registry.rows
        (apply_status now status (new_identity fresh project_id value region))
      ∙ unfold holds names apply_status in ground (arith, h v r),
)
add_row-IsBacked now fresh project_id value region status (some existing) registry found free
      (keyed, h) =
    (
      apply-IsKeyed now existing.id status registry.rows keyed,
      λ v r.
          any-apply v r now existing.id status registry.rows
          ∙ elim (Bool-cases (str_eq value v && str_eq region r)) [
            | inr differs ↦ unfold holds in rw differs (h v r)
            | inl same ↦
                unfold holds in
                rw same (
                  found_named project_id value region v r registry.rows existing found
                    ((eq_iff value v).0 (ground (arith, same)))
                    ((eq_iff region r).0 (ground (arith, same))))
          ],
    )

ok_same :
    (made after : Registry) → Path (Result ApiError Registry) (ok made) (ok after) → made ≡ after
ok_same made after h = ground (arith, h)

-- What a project asks for, with what SES and the stored credentials answer.
pub data Act : Type 0 where
  add :
      (now fresh project_id : ℕ)
      → (value region : String) → (credentials : Result ApiError AwsCredentials)
      → (answer : Result ApiError IdentityStatus) → Act
  remove :
      (identity_id project_id : ℕ)
      → (credentials : Result ApiError AwsCredentials) → (answer : Result ApiError (Unit {0})) → Act

unfoldable pub registry_or : Registry → Result ApiError Registry → Registry
registry_or registry (ok after) = after
registry_or registry (err e) = registry

unfoldable pub removal_or : Registry → Result ApiError (Bool × Registry) → Registry
removal_or registry (ok (asked, after)) = after
removal_or registry (err e) = registry

unfoldable pub remove_found :
    (credentials : Result ApiError AwsCredentials)
    → (answer : Result ApiError (Unit {0})) → Option SenderIdentity
    → Registry
    → Registry
unfolding removal_or
remove_found credentials answer none registry = registry
remove_found credentials answer (some identity) registry =
    removal_or registry (remove_identity credentials answer identity registry)

module _ (tools : NameTools) where
  unfoldable pub step : Act → Registry → Registry
  unfolding registry_or remove_found
  step (add now fresh project_id value region credentials answer) registry =
      registry_or registry
        (add_identity tools now fresh project_id value region credentials answer registry)
  step (remove identity_id project_id credentials answer) registry =
      remove_found credentials answer (get_owned_identity identity_id project_id registry.rows)
        registry

  unfoldable pub run : List Act → Registry → Registry
  run [] registry = registry
  run (act ∷ acts) registry = run acts (step act registry)

  -- A new row gets an id of its own.
  unfoldable pub IsFresh : Act → Registry → Type 0
  IsFresh (add now fresh project_id value region credentials answer) registry =
      any (λ row. row.id == fresh) registry.rows ≡ false
  IsFresh (remove identity_id project_id credentials answer) registry = Unit {0}

  unfoldable pub AreFresh : List Act → Registry → Type 0
  unfolding IsFresh step
  AreFresh [] registry = Unit {0}
  AreFresh (act ∷ acts) registry = IsFresh act registry × AreFresh acts (step act registry)

  added-IsBacked :
      (now fresh project_id : ℕ) (value region : String)
      → (credentials : Result ApiError AwsCredentials) (answer : Result ApiError IdentityStatus)
      → (registry : Registry) (result : Result ApiError Registry)
      → add_identity tools now fresh project_id value region credentials answer registry ≡ result
      → any (λ row. row.id == fresh) registry.rows ≡ false
      → IsBacked registry
      → IsBacked (registry_or registry result)
  unfolding registry_or add_identity
  added-IsBacked now fresh project_id value region credentials answer registry (err e) done free h =
      h
  added-IsBacked now fresh project_id value region credentials answer registry (ok after) done free
        h =
      let ((cleaned, kind), classified, done') = >>=-ok (classify tools value) _ done in
      let (_, known, done'') = >>=-ok credentials _ done' in
      let (status, answered, made) = >>=-ok answer _ done'' in
      rw (sym (ok_same _ after made)) (
        add_row-IsBacked now fresh project_id cleaned region status
          (find_identity project_id cleaned region registry.rows) registry refl free h)

  removed-IsBacked :
      (credentials : Result ApiError AwsCredentials) (answer : Result ApiError (Unit {0}))
      → (identity : SenderIdentity) (registry : Registry)
      → (result : Result ApiError (Bool × Registry))
      → remove_identity credentials answer identity registry ≡ result
      → all (is_alone identity) registry.rows ≡ true
      → IsBacked registry
      → IsBacked (removal_or registry result)
  unfolding removal_or remove_identity
  removed-IsBacked credentials answer identity registry (err e) done alone h = h
  removed-IsBacked credentials answer identity registry (ok (asked, after)) done alone h =
      let (_, known, released) = >>=-ok credentials _ done in
      release-IsBacked identity registry alone h answer asked after released

  removed_found-IsBacked :
      (credentials : Result ApiError AwsCredentials) (answer : Result ApiError (Unit {0}))
      → (test : SenderIdentity → Bool) (found : Option SenderIdentity) (registry : Registry)
      → find test registry.rows ≡ found
      → IsBacked registry
      → IsBacked (remove_found credentials answer found registry)
  unfolding remove_found
  removed_found-IsBacked credentials answer test none registry found h = h
  removed_found-IsBacked credentials answer test (some identity) registry found h =
      removed-IsBacked credentials answer identity registry
        (remove_identity credentials answer identity registry) refl
        (alone_found test identity registry.rows (unfold IsBacked in h.0) found) h

  step-IsBacked :
      (act : Act) (registry : Registry)
      → IsFresh act registry
      → IsBacked registry
      → IsBacked (step act registry)
  unfolding step IsFresh
  step-IsBacked (add now fresh project_id value region credentials answer) registry free h =
      added-IsBacked now fresh project_id value region credentials answer registry
        (add_identity tools now fresh project_id value region credentials answer registry) refl free
        h
  step-IsBacked (remove identity_id project_id credentials answer) registry free h =
      unfold get_owned_identity in
      removed_found-IsBacked credentials answer
        (λ row. (row.id == identity_id) && (row.project_id == project_id))
        (find (λ row. (row.id == identity_id) && (row.project_id == project_id)) registry.rows)
        registry refl h

  -- Whatever the projects of one account add and remove, with new rows under ids of their own, and
  -- whichever calls fail: if SES holds exactly the identities that rows name at the start, it does so
  -- at the end. A removal by one project never takes an identity from another, and the last one
  -- leaves nothing behind.
  pub run-IsBacked :
      (acts : List Act) (registry : Registry)
      → AreFresh acts registry
      → IsBacked registry
      → IsBacked (run acts registry)
  unfolding run AreFresh
  run-IsBacked [] registry fresh h = h
  run-IsBacked (act ∷ acts) registry (free, fresh) h =
      run-IsBacked acts (step act registry) fresh (step-IsBacked act registry free h)
