-- ===== src/Unsubscribe.antt =====
-- security/unsubscribe.py: the token of a one-click link. A row's id is written out as text by
-- `id_text`; base64 and HMAC-SHA256 are parameters.
pub mod Token
pub mod Tests
use Prim.Native.Char.{Char, code}
use Prim.Native.String.{[], ◌∷◌, ◌++◌}
use seskit.Base.{
  ℕ, ◌==◌, String, str_eq, Bool, true, false, ◌||◌, ◌&&◌, ltb, not, Option, none, some,
  if◌then◌else◌,
}

-- `text.partition(sep)`: what stands before the first separator, whether there is one, the rest.
unfoldable pub partition : (sep : ℕ) → String → String × Bool × String
partition sep [] = ([], false, [])
partition sep (c ∷ s) =
    let (before, found, after) = partition sep s in
    if code c == sep then ([], true, s) else (c ∷ before, found, after)

unfoldable pub is_ascii : String → Bool
is_ascii [] = true
is_ascii (c ∷ s) = let rest = is_ascii s in ltb (code c) 128 && rest

-- `hmac.compare_digest` of two texts: a `TypeError` unless both are ASCII.
unfoldable pub compare_digest : String → String → Option Bool
unfolding is_ascii
compare_digest a b = if is_ascii a && is_ascii b then some (str_eq a b) else none

pub record TokenTools : Type 1 where
  pub Key : Type 0
  pub id_text : ℕ → String
  -- `urlsafe_b64encode` without padding, and its inverse after the padding has been put back;
  -- `none` is one of the three errors that `read_token` catches.
  pub b64encode : String → String
  pub b64decode : String → Option String
  pub hmac_digest : String → String → Key
  pub hmac_hexdigest : Key → String → String

unfoldable pub split_payload : String → Option (String × String)
unfolding partition
split_payload raw =
    let (email_id, colon, address) = partition b':' raw in
    if not colon || (str_eq email_id "" || str_eq address "")
    then none
    else some (email_id, address)

module _ (tools : TokenTools) where
  open tools use {id_text, b64encode, b64decode, hmac_digest, hmac_hexdigest}

  unfoldable pub payload : ℕ → String → String
  payload email_id address = b64encode (id_text email_id ++ (":" ++ address))

  unfoldable pub sign : String → ℕ → String → String
  sign secret project_id text = hmac_hexdigest (hmac_digest secret (id_text project_id)) text

  unfoldable pub unsubscribe_token : String → (project_id email_id : ℕ) → String → String
  unfolding payload sign
  unsubscribe_token secret project_id email_id address =
      let text = payload email_id address in text ++ ("." ++ sign secret project_id text)

  -- The id, as text, and the address that a token carries, unverified.
  unfoldable pub read_token : String → Option (String × String)
  unfolding split_payload partition
  read_token token =
      let (text, separator, signature) = partition b'.' token in
      if not separator || (str_eq text "" || str_eq signature "")
      then none
      else elim (b64decode text) [ none ↦ none | some raw ↦ split_payload raw ]

  -- `none` is the exception: the payload is encoded as ASCII before it is signed.
  unfoldable pub token_matches : String → (project_id : ℕ) → String → Option Bool
  unfolding sign partition is_ascii compare_digest
  token_matches secret project_id token =
      let (text, separator, signature) = partition b'.' token in
      if not separator
      then some false
      else if is_ascii text
      then compare_digest (sign secret project_id text) signature
      else none
