-- ===== src/Users/Recovery.antt =====
-- services/users.py and security/recovery.py: a recovery code is good once.
use seskit.Base.{
  ltb, ◌==◌, ==_refl, String, str_eq, eq_refl, Bool, true, false, Option, none, some, List, [], ◌∷◌,
  find, map, if◌then◌else◌, Result, ok, ◌≡◌, refl, sym, ap, ◌∙◌, arith, Bool-cases, inl, inr,
}
use seskit.Users.{
  UserTools, User, Accounts, UserError, min_password_length, get_user_by_email, save, authenticate,
  authenticate_found, hash_code, code_matches, key_matches, issue_recovery_code, recover_found,
  recover_password,
}

-- A row that is saved under its own id is found where the old one was.
find-map :
    (test : User → Bool) (user changed : User) (rows : List User)
    → find test rows ≡ some user
    → changed.id ≡ user.id
    → test changed ≡ true
    → find test (map (λ row. if row.id == changed.id then changed else row) rows) ≡ some changed
unfolding find
find-map test user changed [] found same passes = ground (arith, found)
find-map test user changed (row ∷ rows) found same passes =
    ground (arith, found, same, passes, find-map test user changed rows, ==_refl user.id)

find_passes :
    (test : User → Bool) (rows : List User) (user : User)
    → find test rows ≡ some user
    → test user ≡ true
unfolding find
find_passes test [] user h = ground (arith, h)
find_passes test (row ∷ rows) user h = ground (arith, h, find_passes test rows user)

module _ (tools : UserTools) where
  -- A recovery that succeeded, as what it did to the row.
  recovered :
      (proof new_hash recovery_key new_code : String) (found : Option User)
      (accounts after : Accounts) (shown : String) (user : User)
      → recover_found tools proof new_hash recovery_key new_code found accounts
        ≡ (some (user, shown), after)
      → (old : User) × (found ≡ some old)
        × (old.is_active ≡ true)
        × (shown ≡ new_code)
        × (user ≡ issue_recovery_code tools new_code (record old { password_hash = new_hash }))
        × (after ≡ save user accounts)
  unfolding recover_found
  recovered proof new_hash recovery_key new_code none accounts after shown user h =
      absurd (ground (arith, h))
  recovered proof new_hash recovery_key new_code (some old) accounts after shown user h =
      (old, refl, ground (arith, h), ground (arith, h), ground (arith, h), ground (arith, h))

  recover_password-found :
      (email proof new_password salt recovery_key new_code : String) (accounts : Accounts)
      → (out : Option (User × String) × Accounts)
      → recover_password tools email proof new_password salt recovery_key new_code accounts ≡ ok out
      → recover_found tools proof
          (tools.hash_password new_password salt)
          recovery_key
          new_code
          (get_user_by_email tools email accounts)
          accounts
        ≡ out
  unfolding recover_password
  recover_password-found email proof new_password salt recovery_key new_code accounts out h =
      ground (arith, h)

  -- The account of the address after its recovery.
  get_user_by_email-recovered :
      (email proof new_password salt recovery_key new_code : String) (accounts after : Accounts)
      (shown : String) (user : User)
      → recover_password tools email proof new_password salt recovery_key new_code accounts
        ≡ ok (some (user, shown), after)
      → (get_user_by_email tools email after ≡ some user)
        × (user.is_active ≡ true)
        × (user.password_hash ≡ tools.hash_password new_password salt)
        × (user.recovery_code_hash ≡ some (hash_code tools new_code))
        × (shown ≡ new_code)
  unfolding get_user_by_email issue_recovery_code
  get_user_by_email-recovered email proof new_password salt recovery_key new_code accounts after
        shown user h =
      let (old, found, active, same, made, saved) =
        recovered proof (tools.hash_password new_password salt) recovery_key new_code
          (get_user_by_email tools email accounts) accounts after shown user
          (recover_password-found email proof new_password salt recovery_key new_code accounts
            (some (user, shown), after) h) in
      (
        rw saved (
            unfold save in
            find-map (λ row. str_eq row.email (tools.normalise_email email)) old user accounts.users
              found (ap (λ u. u.id) made)
              (ap (λ u. str_eq u.email (tools.normalise_email email)) made
                ∙ find_passes (λ row. str_eq row.email (tools.normalise_email email)) accounts.users
                    old found)),
        ap (λ u. u.is_active) made ∙ active,
        ap (λ u. u.password_hash) made,
        ap (λ u. u.recovery_code_hash) made,
        same,
      )

  -- After an account has been recovered with a proof, the same proof recovers it no second time,
  -- unless it is the operator's key or has the hash of the code that was shown: the rows stay.
  pub recover_password_spent :
      (email proof new_password salt recovery_key new_code : String) (accounts after : Accounts)
      (shown : String) (user : User)
      → recover_password tools email proof new_password salt recovery_key new_code accounts
        ≡ ok (some (user, shown), after)
      → (password hashed key code_text : String)
      → ltb (tools.len password) min_password_length ≡ false
      → key_matches tools proof key ≡ false
      → str_eq (hash_code tools proof) (hash_code tools shown) ≡ false
      → recover_password tools email proof password hashed key code_text after ≡ ok (none, after)
  unfolding recover_password
  recover_password_spent email proof new_password salt recovery_key new_code accounts after shown
        user h password hashed key code_text long no_key other =
      let (found, active, renewed, coded, same) =
        get_user_by_email-recovered email proof new_password salt recovery_key new_code accounts
          after shown user h in
      rw (long, found)
        (unfold recover_found code_matches in
          rw
            (
              active,
              coded,
              no_key,
              (ap (λ c. str_eq (hash_code tools proof) (hash_code tools c)) (sym same) ∙ other),
            )
            refl)

  authenticate_renewed :
      (password rehashed new_hash : String) (user : User) (accounts : Accounts)
      → user.is_active ≡ true
      → user.password_hash ≡ new_hash
      → tools.needs_rehash new_hash ≡ false
      → authenticate_found tools password rehashed (some user) accounts
        ≡ ((if tools.verify password new_hash then some user else none), accounts)
  unfolding authenticate_found
  authenticate_renewed password rehashed new_hash user accounts active renewed fresh =
      elim (Bool-cases (tools.verify password new_hash)) [
        | inl good ↦ rw (renewed, active, fresh, good) refl
        | inr bad ↦ rw (renewed, bad) refl
      ]

  recover_found_again :
      (proof hashed key code_text : String) (user : User) (accounts : Accounts)
      → user.is_active ≡ true
      → user.recovery_code_hash ≡ some (hash_code tools proof)
      → {result : Result UserError (Option (User × String) × Accounts)}
      → ((out : Option (User × String) × Accounts)
          → recover_found tools proof hashed key code_text (some user) accounts ≡ out
          → result ≡ ok out)
      → (again : User) × (final : Accounts) × (result ≡ ok (some (again, code_text), final))
  recover_found_again proof hashed key code_text user accounts active coded gives =
      let again = issue_recovery_code tools code_text (record user { password_hash = hashed }) in
      (
        again,
        save again accounts,
        gives (some (again, code_text), save again accounts)
            (unfold recover_found code_matches in
              rw (active, coded, eq_refl (hash_code tools proof)) refl),
      )

  -- After a recovery the new password signs in, and another one only if the new hash verifies it too;
  -- the code that was shown recovers the account again. This holds for a hash that verifies the
  -- password that it was made of and that is not to be made again.
  pub recover_password_renewed :
      (email proof new_password salt recovery_key new_code : String) (accounts after : Accounts)
      (shown : String) (user : User)
      → recover_password tools email proof new_password salt recovery_key new_code accounts
        ≡ ok (some (user, shown), after)
      → tools.verify new_password (tools.hash_password new_password salt) ≡ true
      → tools.needs_rehash (tools.hash_password new_password salt) ≡ false
      → (password pepper key code_text : String)
      → ltb (tools.len password) min_password_length ≡ false
      → (authenticate tools email new_password pepper after ≡ (some user, after))
        × (authenticate tools email password pepper after ≡ (
          (if tools.verify password (tools.hash_password new_password salt)
              then some user
              else none),
          after,
        ))
        × ((again : User) × (final : Accounts) × (recover_password tools email shown password pepper
                key code_text after
              ≡ ok (some (again, code_text), final)))
  unfolding recover_password authenticate
  recover_password_renewed email proof new_password salt recovery_key new_code accounts after shown
        user h verifies fresh password pepper key code_text long =
      let (found, active, renewed, coded, same) =
        get_user_by_email-recovered email proof new_password salt recovery_key new_code accounts
          after shown user h in
      let signs_in : (other : String)
          → authenticate tools email other pepper after ≡ (
            (if tools.verify other (tools.hash_password new_password salt)
                then some user
                else none),
            after,
          ) =
        λ other. rw found (
          authenticate_renewed other (tools.hash_password other pepper)
            (tools.hash_password new_password salt) user after active renewed fresh) in
      (
        signs_in new_password ∙ rw verifies refl,
        signs_in password,
        recover_found_again shown (tools.hash_password password pepper) key code_text user after
            active (coded ∙ ap (λ c. some (hash_code tools c)) (sym same))
            (λ out done. rw (long, found) (ap ok done)),
      )
