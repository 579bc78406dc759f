-- ===== src/Identities/Tests.antt =====
-- services/identities.py: two projects with one domain.
use seskit.Base.{str_eq, false, none, List, [], ◌∷◌, any, find, Result, ok, refl}
use seskit.Errors.{ApiError}
use seskit.Aws.{domain, success, AwsCredentials}
use seskit.Identities.{
  NameTools, IdentityStatus, Registry, classify, is_name, add_identity, find_identity, add_row,
}
use seskit.Identities.Rows.{IsBacked, IsKeyed, holds}
use seskit.Identities.Backed.{
  Act, add, remove, IsFresh, AreFresh, registry_or, step, run, run-IsBacked,
}

-- The only name with an "@", a space or a leading dot here is none.
abbrev tools : NameTools
tools = record {
  strip = λ text. text;
  lower = λ text. text;
  len = λ text. 11;
  has = λ text part. str_eq part ".";
  starts_with = λ text part. false;
  ends_with = λ text part. false;
  partition_at = λ text. (text, "");
}

abbrev verified : IdentityStatus
verified = record {
  identity_type = domain;
  verification_status = success;
  dkim_status = none;
  mail_from_status = none;
  mail_from_domain = none;
  dkim_tokens = [];
}

abbrev credentials : Result ApiError AwsCredentials
credentials = ok (record { access_key_id = "id"; secret_access_key = "secret" })

abbrev acts : List Act
acts =
    add 10 1 7 "example.com" "eu-west-1" credentials (ok verified)
    ∷ add 11 2 8 "example.com" "eu-west-1" credentials (ok verified)
    ∷ remove 1 7 credentials (ok tt)
    ∷ []

abbrev nothing : Registry
nothing = record { rows = []; calls = [] }

nothing-IsBacked : IsBacked nothing
unfolding IsBacked IsKeyed holds any
nothing-IsBacked = (tt, λ value region. refl)

acts-AreFresh : AreFresh tools acts nothing
unfolding AreFresh IsFresh step registry_or add_identity classify is_name find_identity add_row any
    find
acts-AreFresh = (refl, (refl, (tt, tt)))

run-IsBacked_example : IsBacked (run tools acts nothing)
run-IsBacked_example = run-IsBacked tools acts nothing acts-AreFresh nothing-IsBacked
