-- ===== src/Users.antt =====
-- services/users.py, security/recovery.py and models/user.py: accounts, passwords and recovery codes.
-- The salt of a hash, the recovery code and the id that a call makes are arguments.
pub mod Owner
pub mod Recovery
mod Tests
use Prim.Native.Char.{Char, code}
use Prim.Native.String.{[] as empty, ◌∷◌ as cons}
use seskit.Base.{
  ℕ, ltb, ◌==◌, String, str_eq, Bool, true, false, ◌&&◌, ◌||◌, not, Option, none, some, List, [],
  ◌∷◌, ◌++◌, any, find, map, if◌then◌else◌, length, Result, ok, err,
}

-- Python's texts, Argon2 with its salt (`verify` and `needs_rehash` are `verify_and_update`) and
-- SHA-256.
pub record UserTools : Type 0 where
  pub normalise_email : String → String
  pub len : String → ℕ
  pub strip : String → String
  pub upper : String → String
  pub isalnum : Char → Bool
  pub sha256_hex : String → String
  pub hash_password : (password salt : String) → String
  pub verify : (password password_hash : String) → Bool
  pub needs_rehash : (password_hash : String) → Bool

pub record User : Type 0 where
  pub id : ℕ
  pub email : String
  pub password_hash : String
  pub recovery_code_hash : Option String
  pub is_owner : Bool
  pub is_active : Bool

pub record Project : Type 0 where
  pub user_id : ℕ
  pub name : String

-- The rows, oldest first.
pub record Accounts : Type 0 where
  pub users : List User
  pub projects : List Project

pub data UserError : Type 0 where
  password_too_short signup_closed email_already_registered integrity_error : UserError

abbrev pub min_password_length : ℕ
min_password_length = 12

abbrev pub default_project_name : String
default_project_name = "Default"

unfoldable pub count_users : Accounts → ℕ
count_users accounts = length accounts.users

unfoldable pub signup_allowed : (allow_signup : Bool) → Accounts → Bool
unfolding count_users
signup_allowed allow_signup accounts = allow_signup || (count_users accounts == 0)

unfoldable pub get_user_by_id : (user_id : ℕ) → Accounts → Option User
get_user_by_id user_id accounts = find (λ user. user.id == user_id) accounts.users

-- The primary key and the unique index on the address.
unfoldable pub is_taken : User → User → Bool
is_taken fresh user = (fresh.id == user.id) || str_eq fresh.email user.email

unfoldable pub insert_user : User → Accounts → Result UserError Accounts
unfolding is_taken
insert_user user accounts =
    if any (is_taken user) accounts.users
    then err integrity_error
    else ok (record {
      users = accounts.users ++ (user ∷ []);
      projects =
          accounts.projects ++ (record { user_id = user.id; name = default_project_name } ∷ []);
    })

-- An address that has an account gets no second one.
unfoldable pub register_new : (existing : Option User) → User → Accounts → Result UserError Accounts
unfolding insert_user
register_new none user accounts = insert_user user accounts
register_new (some existing) user accounts = err email_already_registered

-- A flush of a loaded row.
unfoldable pub save : User → Accounts → Accounts
save changed accounts = record accounts {
  users = map (λ user. if user.id == changed.id then changed else user) accounts.users;
}

-- What `_LOOKALIKES` makes of a character.
unfoldable pub lookalike : Char → Char
lookalike c =
    if code c == b'O'
    then "0"
    else if code c == b'I'
    then "1"
    else if code c == b'L'
    then "1"
    else if code c == b'U'
    then "V"
    else c

-- The kept characters of a text, resolved.
unfoldable pub kept : (isalnum : Char → Bool) → String → String
unfolding lookalike
kept isalnum empty = ""
kept isalnum (cons c value) =
    let rest = kept isalnum value in if isalnum c then cons (lookalike c) rest else rest

module _ (tools : UserTools) where
  open tools use {
    normalise_email, len, strip, upper, isalnum, sha256_hex, hash_password, verify, needs_rehash,
  }

  unfoldable pub get_user_by_email : (email : String) → Accounts → Option User
  get_user_by_email email accounts =
      find (λ user. str_eq user.email (normalise_email email)) accounts.users

  -- `saw`: the committed rows when the request asked; the insert meets those of its own moment.
  unfoldable pub register_user :
      (id : ℕ)
      → (email password salt : String) → (allow_signup : Bool) → (saw accounts : Accounts)
      → Result UserError Accounts
  unfolding signup_allowed count_users get_user_by_email register_new
  register_user id email password salt allow_signup saw accounts =
      if signup_allowed allow_signup saw
      then register_new (get_user_by_email (normalise_email email) saw)
          (record {
            id = id;
            email = normalise_email email;
            password_hash = hash_password password salt;
            recovery_code_hash = none;
            is_owner = count_users saw == 0;
            is_active = true;
          })
          accounts
      else err signup_closed

  -- An account that was found; `rehashed` is what a stronger hash of the password would be.
  unfoldable pub authenticate_found :
      (password rehashed : String) → Option User → Accounts → Option User × Accounts
  unfolding save
  authenticate_found password rehashed none accounts = (none, accounts)
  authenticate_found password rehashed (some user) accounts =
      if verify password user.password_hash && user.is_active
      then (if needs_rehash user.password_hash
          then (
            some (record user { password_hash = rehashed }),
            save (record user { password_hash = rehashed }) accounts,
          )
          else (some user, accounts))
      else (none, accounts)

  unfoldable pub authenticate : (email password salt : String) → Accounts → Option User × Accounts
  unfolding get_user_by_email authenticate_found
  authenticate email password salt accounts =
      authenticate_found password (hash_password password salt) (get_user_by_email email accounts)
        accounts

  unfoldable pub reset_found : (hashed : String) → Option User → Accounts → Option User × Accounts
  unfolding save
  reset_found hashed none accounts = (none, accounts)
  reset_found hashed (some user) accounts = (
    some (record user { password_hash = hashed }),
    save (record user { password_hash = hashed }) accounts,
  )

  unfoldable pub reset_password :
      (email password salt : String) → Accounts → Result UserError (Option User × Accounts)
  unfolding get_user_by_email reset_found
  reset_password email password salt accounts =
      if ltb (len password) min_password_length
      then err password_too_short
      else ok
          (reset_found (hash_password password salt) (get_user_by_email email accounts) accounts)

  unfoldable pub normalise_code : String → String
  unfolding kept
  normalise_code value = kept isalnum (upper value)

  unfoldable pub hash_code : String → String
  unfolding normalise_code
  hash_code code_text = sha256_hex (normalise_code code_text)

  -- `compare_digest` of two hex digests is equality.
  unfoldable pub code_matches : String → Option String → Bool
  unfolding hash_code
  code_matches presented none = false
  code_matches presented (some stored) = str_eq (hash_code presented) stored

  unfoldable pub key_matches : (presented configured : String) → Bool
  key_matches presented configured =
      if str_eq configured "" then false else str_eq (strip presented) configured

  -- The row with a new code.
  unfoldable pub issue_recovery_code : (new_code : String) → User → User
  unfolding hash_code
  issue_recovery_code new_code user = record user { recovery_code_hash = some (hash_code new_code) }

  unfoldable pub recover_found :
      (proof new_hash recovery_key new_code : String)
      → Option User
      → Accounts
      → Option (User × String) × Accounts
  unfolding code_matches key_matches issue_recovery_code save
  recover_found proof new_hash recovery_key new_code none accounts = (none, accounts)
  recover_found proof new_hash recovery_key new_code (some user) accounts =
      let changed = issue_recovery_code new_code (record user { password_hash = new_hash }) in
      if user.is_active
        && (code_matches proof user.recovery_code_hash || key_matches proof recovery_key)
      then (some (changed, new_code), save changed accounts)
      else (none, accounts)

  unfoldable pub recover_password :
      (email proof new_password salt recovery_key new_code : String)
      → Accounts
      → Result UserError (Option (User × String) × Accounts)
  unfolding get_user_by_email recover_found
  recover_password email proof new_password salt recovery_key new_code accounts =
      if ltb (len new_password) min_password_length
      then err password_too_short
      else ok (
          recover_found proof (hash_password new_password salt) recovery_key new_code
            (get_user_by_email email accounts) accounts)

  unfoldable pub regenerate_recovery_code :
      (password new_code : String) → User → Accounts → Option String × Accounts
  unfolding issue_recovery_code save
  regenerate_recovery_code password new_code user accounts =
      if verify password user.password_hash
      then (some new_code, save (issue_recovery_code new_code user) accounts)
      else (none, accounts)
