-- ===== src/Address.antt =====
-- email/message.py (`bare_address`) and addressing.py (`domain_of`): what an address is reduced to
-- before two of them are compared. The text functions of Python that they call are a parameter.
use seskit.Base.{String, Bool, Option, none, some, str_eq, if◌then◌else◌}

-- `email.utils.parseaddr`, `str.strip`, `str.lower`, `str.rpartition("@")`, `str.rstrip`
-- of a dot and of a slash, and `repr`.
pub record TextTools : Type 0 where
  pub parseaddr : String → String × String
  pub strip : String → String
  pub lower : String → String
  -- What stands before the last "@", whether there is one, and what follows it.
  pub rpartition_at : String → String × Bool × String
  pub rstrip_dot : String → String
  pub rstrip_slash : String → String
  pub repr : String → String

module _ (tools : TextTools) where
  open tools use {parseaddr, strip, lower, rpartition_at, rstrip_dot}

  unfoldable pub bare_address : String → String
  bare_address value = lower (strip (parseaddr value).1)

  -- `or None` turns an empty domain into the missing one.
  unfoldable pub domain_of : String → Option String
  domain_of value =
      let (_, at, domain) = rpartition_at (lower (strip (parseaddr value).1)) in
      let shown = rstrip_dot (strip domain) in
      if at then (if str_eq shown "" then none else some shown) else none
