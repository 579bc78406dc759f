-- ===== src/Users/Tests.antt =====
-- services/users.py: a small instance.
use seskit.Base.{
  String, str_eq, true, false, none, some, [], ◌∷◌, find, count, if◌then◌else◌, ok, ◌≡◌, refl,
}
use seskit.Users.{
  UserTools, User, Accounts, register_user, recover_password, recover_found, get_user_by_email,
  code_matches, key_matches, issue_recovery_code, save, hash_code, normalise_code, kept,
  authenticate,
}
use seskit.Users.Owner.{
  Signup, no_accounts, IsSound, IsLed, IsApart, owns, run, run-IsSound, register_user_race,
}
use seskit.Users.Recovery.{recover_password_spent, recover_password_renewed}

abbrev tools : UserTools
tools = record {
  normalise_email = λ email. email;
  len = λ text. 14;
  strip = λ text. text;
  upper = λ text. text;
  isalnum = λ c. true;
  sha256_hex = λ text. text;
  hash_password = λ password salt. password;
  verify = λ password password_hash. str_eq password password_hash;
  needs_rehash = λ password_hash. false;
}

abbrev ada : Signup
ada = record { id = 1; email = "ada@a.example"; password = "old"; salt = "a"; allow_signup = false }

abbrev eve : Signup
eve = record { id = 2; email = "eve@c.example"; password = "eve"; salt = "b"; allow_signup = false }

no_accounts-IsSound : IsSound no_accounts
unfolding IsSound IsLed IsApart
no_accounts-IsSound = (tt, tt, refl)

run-IsSound_example : IsSound (run tools (ada ∷ eve ∷ []) no_accounts)
run-IsSound_example = run-IsSound tools (ada ∷ eve ∷ []) no_accounts no_accounts-IsSound

register_user_race_example :
    (one : Accounts) × (both : Accounts) × (register_user tools 1 "ada@a.example" "old" "a" false
        no_accounts no_accounts
      ≡ ok one)
    × (register_user tools 2 "eve@c.example" "eve" "b" false no_accounts one ≡ ok both)
    × (count owns both.users ≡ 2)
register_user_race_example = register_user_race tools ada eve refl refl

abbrev account : (password_hash code_hash : String) → User
account password_hash code_hash = record {
  id = 1;
  email = "ada@a.example";
  password_hash = password_hash;
  recovery_code_hash = some code_hash;
  is_owner = true;
  is_active = true;
}

abbrev before : Accounts
before = record { users = account "old" "C0DE" ∷ []; projects = [] }

abbrev after : Accounts
after = record { users = account "new" "NEXT" ∷ []; projects = [] }

recovered :
    recover_password tools "ada@a.example" "CODE" "new" "salt" "" "NEXT" before
    ≡ ok (some (account "new" "NEXT", "NEXT"), after)
unfolding recover_password recover_found get_user_by_email find code_matches key_matches
    issue_recovery_code save hash_code normalise_code kept
recovered = refl

recover_password_spent_example :
    recover_password tools "ada@a.example" "CODE" "third" "third" "" "LAST" after ≡ ok (none, after)
recover_password_spent_example =
    recover_password_spent tools "ada@a.example" "CODE" "new" "salt" "" "NEXT" before after "NEXT"
      (account "new" "NEXT") recovered "third" "third" "" "LAST" refl (unfold key_matches in refl)
      (unfold hash_code normalise_code kept in refl)

recover_password_renewed_example :
    (authenticate tools "ada@a.example" "new" "again" after ≡ (some (account "new" "NEXT"), after))
    × (authenticate tools "ada@a.example" "old" "again" after
        ≡ ((if tools.verify "old" "new" then some (account "new" "NEXT") else none), after))
    × ((again : User) × (final : Accounts) × (recover_password tools "ada@a.example" "NEXT" "old"
            "again" "" "LAST" after
          ≡ ok (some (again, "LAST"), final)))
recover_password_renewed_example =
    recover_password_renewed tools "ada@a.example" "CODE" "new" "salt" "" "NEXT" before after "NEXT"
      (account "new" "NEXT") recovered refl refl "old" "again" "" "LAST" refl
