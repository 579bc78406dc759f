-- ===== src/ApiKeys/Tests.antt =====
-- services/api_keys.py and security/api_keys.py: the theorems at concrete histories, and runs.
use seskit.Base.{
  ℕ, str_eq, true, false, none, some, List, [], ◌∷◌, find, any, if◌then◌else◌, ◌≡◌, refl, arith,
  inr,
}
use seskit.ApiKeys.{
  KeyTools, ApiKey, get_owned_api_key, create_api_key, verify_api_key, touch_last_used, active_key,
  project_of, hash_key, parse_authorization,
}
use seskit.ApiKeys.Table.{IsKeyed}
use seskit.ApiKeys.Acts.{
  Keys, Act, authenticate, mark_used, issue, revoke, begin_revoke, commit_revoke, rows_after, step,
  run,
}
use seskit.ApiKeys.Bounded.{By}
use seskit.ApiKeys.Cached.{IsOrderly, AreOrderly, no_keys, verify_api_key-current}
use seskit.ApiKeys.Ends.{revoke-ends, begin_revoke-readmits}

-- Texts stand for their own hashes.
abbrev tools : KeyTools
tools = record {
  sha256_hex = λ raw. raw;
  len = λ text. if str_eq text "sk_" then 3 else 9;
  prefix = λ n text. text;
  lower = λ text. text;
  strip = λ text. text;
  partition_space = λ text. ("bearer", "sk_secret");
}

abbrev issued : List (ℕ × Act)
issued =
    (10, issue 1 7 "laptop" "sk_secret")
    ∷ (11, authenticate "sk_secret" true true)
    ∷ (12, mark_used "sk_secret" true)
    ∷ []

abbrev requests : List (ℕ × Act)
requests =
    (10, issue 1 7 "laptop" "sk_secret")
    ∷ (11, authenticate "sk_secret" true true)
    ∷ (20, revoke 1 7 true)
    ∷ (21, authenticate "sk_secret" true true)
    ∷ []

abbrev laptop : ApiKey
laptop = record {
  id = 1;
  project_id = 7;
  name = "laptop";
  key_prefix = "sk_secret";
  hashed_key = "sk_secret";
  last_used_at = some 12;
  revoked_at = none;
}

parse_authorization_test : parse_authorization tools (some "bearer sk_secret") ≡ some "sk_secret"
unfolding parse_authorization
parse_authorization_test = refl

rows_test : (run tools 60 30 issued no_keys).rows ≡ laptop ∷ []
unfolding run step rows_after create_api_key verify_api_key touch_last_used find any
rows_test = refl

requests-AreOrderly : AreOrderly requests
unfolding AreOrderly IsOrderly
requests-AreOrderly = (tt, (tt, (refl, (tt, tt))))

issued-By : By 20 issued
unfolding By
issued-By = ground arith

found_test : get_owned_api_key 1 7 (run tools 60 30 issued no_keys).rows ≡ some laptop
found_test = rw rows_test (unfold get_owned_api_key find in refl)

verify_api_key-current_example :
    let keys = run tools 60 30 requests no_keys in
    (verify_api_key tools true true 30 "sk_secret" 60 keys.rows keys.cache).0
    ≡ project_of (active_key (hash_key tools "sk_secret") keys.rows)
verify_api_key-current_example =
    verify_api_key-current tools 60 30 requests requests-AreOrderly true true 30 "sk_secret"

revoke-ends_example :
    let keys = run tools 60 30 issued no_keys in
    let ended = step tools 60 30 20 (revoke 1 7 false) keys in
    let later = run tools 60 30 issued ended in
    (verify_api_key tools true true 80 "sk_secret" 60 later.rows later.cache).0 ≡ none
revoke-ends_example =
    revoke-ends tools 60 30 issued issued 20 issued-By 1 7 laptop "sk_secret" found_test
      (unfold hash_key in refl) false 80 (inr (omega arith)) true true

abbrev stored : Keys
stored = record { rows = laptop ∷ []; cache = no_keys.cache }

begin_revoke-readmits_example :
    let evicted = step tools 60 30 20 (begin_revoke 1 7 true) stored in
    let used = step tools 60 30 21 (authenticate "sk_secret" true true) evicted in
    let later = step tools 60 30 22 (commit_revoke 1 7) used in
    (active_key (hash_key tools "sk_secret") later.rows ≡ none)
    × ((verify_api_key tools true true 50 "sk_secret" 60 later.rows later.cache).0 ≡ some 7)
begin_revoke-readmits_example =
    begin_revoke-readmits tools 60 30 stored (unfold IsKeyed any in (refl, tt)) 1 7 laptop
      "sk_secret" (unfold get_owned_api_key find in refl) (unfold active_key find hash_key in refl)
      (unfold hash_key in refl) 20 21 22 50 (omega arith) true
