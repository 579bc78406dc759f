-- ===== src/Unsubscribe/Tests.antt =====
-- security/unsubscribe.py with a toy encoding and a toy key.
use seskit.Base.{String, true, some, none, ◌≡◌, refl, arith, eq_iff}
use seskit.Unsubscribe.{
  TokenTools, partition, payload, sign, unsubscribe_token, read_token, token_matches, is_ascii,
}
use seskit.Unsubscribe.Token.{IsReadable, read_token-unsubscribe_token, token_matches_raises}

abbrev pub toy_tokens : TokenTools
toy_tokens = record {
  Key = String;
  id_text = λ n. "em1";
  b64encode = λ text. "ZW0x";
  b64decode = λ text. some "em1:a@b.example";
  hmac_digest = λ secret project. secret;
  hmac_hexdigest = λ key text. "5f";
}

pub toy-IsReadable : IsReadable toy_tokens "key" 7 1 "a@b.example"
unfolding payload sign
toy-IsReadable = record {
  no_dot = (refl, (refl, (refl, (refl, tt))));
  no_colon = (refl, (refl, (refl, tt)));
  decodes = refl;
  encoded = ground (arith, eq_iff "ZW0x" "");
  signed = ground (arith, eq_iff "5f" "");
  named = ground (arith, eq_iff "em1" "");
  given = ground (arith, eq_iff "a@b.example" "");
}

read_token-unsubscribe_token_example :
    read_token toy_tokens (unsubscribe_token toy_tokens "key" 7 1 "a@b.example")
    ≡ some ("em1", "a@b.example")
read_token-unsubscribe_token_example =
    read_token-unsubscribe_token toy_tokens "key" 7 1 "a@b.example" toy-IsReadable

abbrev toy_token : String
toy_token = "ZW0x.5f"

toy_token_matches : token_matches toy_tokens "key" 7 toy_token ≡ some true
unfolding token_matches
toy_token_matches = refl

no_separator : read_token toy_tokens "ZW0x" ≡ none
unfolding read_token
no_separator = refl

-- The same payload with a letter beyond ASCII for its signature.
abbrev pub odd_token : String
odd_token = "ZW0x.é"

read_odd_token : read_token toy_tokens odd_token ≡ some ("em1", "a@b.example")
unfolding read_token
read_odd_token = refl

odd_token_raises : token_matches toy_tokens "key" 7 odd_token ≡ none
odd_token_raises =
    token_matches_raises toy_tokens "key" 7 1 "a@b.example" odd_token (unfold partition in refl)
      (unfold partition is_ascii in refl)
