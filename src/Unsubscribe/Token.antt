-- ===== src/Unsubscribe/Token.antt =====
-- security/unsubscribe.py: what is read out of a token is what was put into it.
use Prim.Native.Char.{Char, code}
use Prim.Native.String.append
use Prim.Native.String.{[], ◌∷◌, ◌++◌}
use seskit.Base.{ℕ, ◌==◌, String, eq_iff, eq_refl, true, false, none, some, ◌≡◌, ◌≢◌, refl, arith}
use seskit.Unsubscribe.{
  partition, TokenTools, sign, unsubscribe_token, split_payload, read_token, token_matches,
  is_ascii, compare_digest,
}

-- A text without the separator.
abbrev pub Lacks : ℕ → String → Type 0
Lacks sep [] = Unit {0}
Lacks sep (c ∷ s) = ((code c == sep) ≡ false) × Lacks sep s

-- A text is split at the first separator, which stands where it was written.
partition-append :
    (sep : ℕ) (before after : String) (c : Char)
    → Lacks sep before
    → (code c == sep) ≡ true
    → partition sep (before ++ ((c ∷ []) ++ after)) ≡ (before, true, after)
unfolding partition
partition-append sep [] after c lacks here =
    rw (append.nil ((c ∷ []) ++ after), append.cons c [] after, append.nil after, here) refl
partition-append sep (b ∷ before) after c lacks here =
    rw
      (
        append.cons b before ((c ∷ []) ++ after),
        lacks.0,
        partition-append sep before after c lacks.1 here,
      )
      refl

module _ (tools : TokenTools) (secret : String) (project_id email_id : ℕ) (address : String) where
  open tools use {id_text, b64encode, b64decode}

  -- The text that is encoded.
  abbrev pub plain : String
  plain = id_text email_id ++ (":" ++ address)

  abbrev pub signature : String
  signature = sign tools secret project_id (b64encode plain)

  token_parts :
      Lacks b'.' (b64encode plain)
      → partition b'.' (unsubscribe_token tools secret project_id email_id address)
        ≡ (b64encode plain, true, signature)
  unfolding unsubscribe_token
  token_parts lacks = partition-append b'.' (b64encode plain) signature "." lacks refl

  split_plain :
      Lacks b':' (id_text email_id)
      → id_text email_id ≢ ""
      → address ≢ ""
      → split_payload plain ≡ some (id_text email_id, address)
  unfolding split_payload
  split_plain lacks named given = ground (
    arith,
    partition-append b':' (id_text email_id) address ":" lacks refl,
    eq_iff (id_text email_id) "",
    eq_iff address "",
  )

  -- What a token is made of, and what the two calls of the parameters give back for it.
  pub record IsReadable : Type 0 where
    pub no_dot : Lacks b'.' (b64encode plain)
    pub no_colon : Lacks b':' (id_text email_id)
    pub decodes : b64decode (b64encode plain) ≡ some plain
    pub encoded : b64encode plain ≢ ""
    pub signed : signature ≢ ""
    pub named : id_text email_id ≢ ""
    pub given : address ≢ ""

  -- A token that was made for a message and an address is read back as that message and that
  -- address.
  pub read_token-unsubscribe_token :
      IsReadable
      → read_token tools (unsubscribe_token tools secret project_id email_id address)
        ≡ some (id_text email_id, address)
  unfolding read_token
  read_token-unsubscribe_token r = ground (
    arith,
    token_parts r.no_dot,
    split_plain r.no_colon r.named r.given,
    r.decodes,
    r.encoded,
    r.signed,
    eq_iff (b64encode plain) "",
    eq_iff signature "",
  )

  -- A token is accepted under the secret and the project that it was signed for.
  pub token_matches-unsubscribe_token :
      Lacks b'.' (b64encode plain)
      → is_ascii (b64encode plain) ≡ true
      → is_ascii signature ≡ true
      → token_matches tools secret project_id
          (unsubscribe_token tools secret project_id email_id address)
        ≡ some true
  unfolding token_matches compare_digest
  token_matches-unsubscribe_token lacks encoded signed =
      ground (arith, token_parts lacks, eq_refl signature, encoded, signed)

  -- A token is accepted only with the signature of its own text: a token for another message or
  -- address, or one signed under another project's key, is accepted only if HMAC collides.
  pub token_matches_sound :
      (token : String)
      → token_matches tools secret project_id token ≡ some true
      → let (text, found, given) = partition b'.' token in
        (found ≡ true) × (given ≡ sign tools secret project_id text)
  unfolding token_matches compare_digest
  token_matches_sound token h = ground (
    arith,
    h,
    eq_iff (sign tools secret project_id (partition b'.' token).0) ((partition b'.' token).2),
  )

  -- A token in which something that is not ASCII stands after the first dot is not refused: the
  -- check raises, whatever message the token names.
  pub token_matches_raises :
      (token : String)
      → let (text, found, given) = partition b'.' token in
        found ≡ true → is_ascii given ≡ false → token_matches tools secret project_id token ≡ none
  unfolding token_matches compare_digest
  token_matches_raises token found given = ground (arith, found, given)
