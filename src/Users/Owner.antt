-- ===== src/Users/Owner.antt =====
-- services/users.py: who owns an instance.
use seskit.Base.{
  ℕ, ◌==◌, String, str_eq, eq_iff, Bool, true, false, ◌||◌, Option, none, some, List, [], ◌∷◌, ◌++◌,
  any, find, map, length, count, Result, ok, err, ◌≡◌, refl, ap, arith, Bool-cases, inl, inr,
}
use seskit.Users.{
  UserTools, User, Project, Accounts, UserError, count_users, signup_allowed, get_user_by_email,
  is_taken, insert_user, register_new, register_user, default_project_name,
}

-- A registration, one after another.
pub record Signup : Type 0 where
  pub id : ℕ
  pub email : String
  pub password : String
  pub salt : String
  pub allow_signup : Bool

abbrev pub no_accounts : Accounts
no_accounts = record { users = []; projects = [] }

unfoldable pub accounts_or : Accounts → Result UserError Accounts → Accounts
accounts_or accounts (ok after) = after
accounts_or accounts (err e) = accounts

unfoldable pub owns : User → Bool
owns user = user.is_owner

-- The first account, and no other, is an owner; no two have one id or one address; each has a
-- project of its own.
unfoldable pub IsApart : List User → Type 0
IsApart [] = Unit {0}
IsApart (user ∷ users) = (any (is_taken user) users ≡ false) × IsApart users

unfoldable pub IsLed : List User → Type 0
IsLed [] = Unit {0}
IsLed (user ∷ users) = (user.is_owner ≡ true) × (any owns users ≡ false)

unfoldable pub IsSound : Accounts → Type 0
IsSound accounts =
    IsLed accounts.users
    × IsApart accounts.users
    × (map (λ project. project.user_id) accounts.projects ≡ map (λ user. user.id) accounts.users)

is_taken_sym : (a b : User) → is_taken a b ≡ is_taken b a
unfolding is_taken
is_taken_sym a b = ground (arith, eq_iff a.email b.email, eq_iff b.email a.email)

any-append :
    (test : User → Bool) (users : List User) (user : User)
    → any test (users ++ (user ∷ [])) ≡ (any test users || test user)
unfolding any
any-append test [] user = ground arith
any-append test (other ∷ users) user = ground (arith, any-append test users user)

IsApart-append :
    (users : List User) (user : User)
    → any (is_taken user) users ≡ false
    → IsApart users
    → IsApart (users ++ (user ∷ []))
unfolding IsApart any
IsApart-append [] user free h = (refl, tt)
IsApart-append (other ∷ users) user free (apart, h) = (
  ground (arith, apart, free, any-append (is_taken other) users user, is_taken_sym user other),
  IsApart-append users user (ground (arith, free)) h,
)

IsLed-append :
    (users : List User) (user : User)
    → user.is_owner ≡ (length users == 0)
    → IsLed users
    → IsLed (users ++ (user ∷ []))
unfolding IsLed owns any
IsLed-append [] user first h = (first, refl)
IsLed-append (other ∷ users) user first (led, rest) =
    (led, ground (arith, rest, first, any-append owns users user))

map-append :
    {A : Type 0} (f : A → ℕ) (rows : List A) (row : A)
    → map f (rows ++ (row ∷ [])) ≡ map f rows ++ (f row ∷ [])
map-append f [] row = refl
map-append f (other ∷ rows) row = ap (λ rest. f other ∷ rest) (map-append f rows row)

inserted-IsSound :
    (user : User) (project : Project) (accounts : Accounts)
    → user.is_owner ≡ (length accounts.users == 0)
    → any (is_taken user) accounts.users ≡ false
    → project.user_id ≡ user.id
    → IsSound accounts
    → IsSound (record {
      users = accounts.users ++ (user ∷ []);
      projects = accounts.projects ++ (project ∷ []);
    })
unfolding IsSound
inserted-IsSound user project accounts first free own (led, apart, projects) = (
  IsLed-append accounts.users user first led,
  IsApart-append accounts.users user free apart,
  rw
      (
        map-append (λ p. p.user_id) accounts.projects project,
        map-append (λ u. u.id) accounts.users user,
        projects,
        own,
      )
      refl,
)

insert_user-IsSound :
    (user : User) (accounts : Accounts)
    → user.is_owner ≡ (length accounts.users == 0)
    → IsSound accounts
    → IsSound (accounts_or accounts (insert_user user accounts))
unfolding insert_user accounts_or
insert_user-IsSound user accounts first h = elim (Bool-cases (any (is_taken user) accounts.users)) [
  | inl taken ↦ rw taken h
  | inr free ↦ rw free (inserted-IsSound user _ accounts first free refl h)
]

register_new-IsSound :
    (existing : Option User) (user : User) (accounts : Accounts)
    → user.is_owner ≡ (length accounts.users == 0)
    → IsSound accounts
    → IsSound (accounts_or accounts (register_new existing user accounts))
unfolding register_new
register_new-IsSound none user accounts first h = insert_user-IsSound user accounts first h
register_new-IsSound (some existing) user accounts first h = unfold accounts_or in h

module _ (tools : UserTools) where
  unfoldable pub answer : Signup → Accounts → Result UserError Accounts
  answer signup accounts =
      register_user tools signup.id signup.email signup.password signup.salt signup.allow_signup
        accounts accounts

  unfoldable pub run : List Signup → Accounts → Accounts
  run [] accounts = accounts
  run (signup ∷ signups) accounts = run signups (accounts_or accounts (answer signup accounts))

  answer-IsSound :
      (signup : Signup) (accounts : Accounts)
      → IsSound accounts
      → IsSound (accounts_or accounts (answer signup accounts))
  unfolding answer register_user count_users
  answer-IsSound signup accounts h =
      elim (Bool-cases (signup_allowed signup.allow_signup accounts)) [
        | inr closed ↦ rw closed (unfold accounts_or in h)
        | inl open_now ↦ rw open_now (
            register_new-IsSound
              (get_user_by_email tools (tools.normalise_email signup.email) accounts) _ accounts
              refl h)
      ]

  -- Of any number of registrations, one after another, with whatever answers to whether the sign-up
  -- is open: the first account is the owner and the only one, no two accounts have one id or one
  -- address, and the projects are one for each account, in their order and under its id, if all that
  -- holds of the accounts at the start.
  pub run-IsSound :
      (signups : List Signup) (accounts : Accounts)
      → IsSound accounts
      → IsSound (run signups accounts)
  unfolding run
  run-IsSound [] accounts h = h
  run-IsSound (signup ∷ signups) accounts h =
      run-IsSound signups (accounts_or accounts (answer signup accounts))
        (answer-IsSound signup accounts h)

  abbrev founder : Signup → User
  founder signup = record {
    id = signup.id;
    email = tools.normalise_email signup.email;
    password_hash = tools.hash_password signup.password signup.salt;
    recovery_code_hash = none;
    is_owner = true;
    is_active = true;
  }

  abbrev home : Signup → Project
  home signup = record { user_id = signup.id; name = default_project_name }

  -- Two registrations that both saw an instance without accounts, with different ids and addresses:
  -- both succeed with the sign-up closed, and there are two owners.
  pub register_user_race :
      (first second : Signup)
      → (second.id == first.id) ≡ false
      → str_eq (tools.normalise_email second.email) (tools.normalise_email first.email) ≡ false
      → (one : Accounts) × (both : Accounts) × (register_user tools first.id first.email
            first.password first.salt false no_accounts no_accounts
          ≡ ok one)
        × (register_user tools second.id second.email second.password second.salt false no_accounts
              one
            ≡ ok both)
        × (count owns both.users ≡ 2)
  unfolding register_user register_new insert_user is_taken any count owns count_users
      signup_allowed get_user_by_email find
  register_user_race first second ids addresses = (
    record { users = founder first ∷ []; projects = home first ∷ [] },
    record {
      users = founder first ∷ founder second ∷ [];
      projects = home first ∷ home second ∷ [];
    },
    refl,
    rw (ids, addresses) refl,
    refl,
  )
