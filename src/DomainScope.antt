-- ===== src/DomainScope.antt =====
-- services/domain_scope.py: which sent mail belongs to an identity of a project.
pub mod Suffixes
pub mod Disjoint
mod Tests
use Prim.Native.String.{[] as empty, ◌∷◌ as cons}
use seskit.Base.{
  ℕ, ◌==◌, String, str_eq, Bool, true, false, ◌&&◌, ◌||◌, not, Option, none, some, List, [], ◌∷◌,
  any, map, select, if◌then◌else◌,
}
use seskit.Address.{TextTools, bare_address, domain_of}
use seskit.Aws.{Identity, IdentityType, email_address, domain}

-- `text.endswith(ending)`.
unfoldable pub ends_with : (text ending : String) → Bool
ends_with empty ending = str_eq "" ending
ends_with (cons c text) ending =
    let rest = ends_with text ending in str_eq (cons c text) ending || rest

-- `f".{parent}"`.
abbrev pub dotted : String → String
dotted parent = cons "." parent

unfoldable pub under : (name parent : String) → Bool
unfolding ends_with
under name parent = str_eq name parent || ends_with name (dotted parent)

pub record Scope : Type 0 where
  pub value : String
  pub is_address : Bool
  pub narrower : List String

abbrev pub is_domain : IdentityType → Bool
is_domain email_address = false
is_domain domain = true

-- `sorted_set` is Python's `sorted` of a set.
module _ (tools : TextTools) (sorted_set : List String → List String) where
  open tools use {lower}

  unfoldable pub in_domain : Option String → Scope → Bool
  unfolding under
  in_domain none scope = false
  in_domain (some name) scope =
      under name scope.value && not (any (λ other. under name other) scope.narrower)

  unfoldable pub covers : Scope → (from_address : String) → Bool
  unfolding in_domain bare_address domain_of
  covers scope from_address =
      if scope.is_address
      then str_eq (bare_address tools from_address) scope.value
      else in_domain (domain_of tools from_address) scope

  unfoldable pub narrower_of : String → (domains : List String) → List String
  unfolding under
  narrower_of value domains =
      sorted_set
        (select (λ other. not (str_eq other value) && under other value) (map lower domains))

  unfoldable pub domains_of : List Identity → List String
  domains_of identities = map (λ i. i.value) (select (λ i. is_domain i.identity_type) identities)

  unfoldable pub scope_of : (domains : List String) → Identity → Scope
  unfolding narrower_of
  scope_of domains identity =
      if is_domain identity.identity_type
      then record {
        value = lower identity.value;
        is_address = false;
        narrower = narrower_of (lower identity.value) domains;
      }
      else record { value = lower identity.value; is_address = true; narrower = [] }

  -- The scopes of a project's identities, each with its identity.
  unfoldable pub scopes_for : List Identity → List (Identity × Scope)
  unfolding scope_of domains_of
  scopes_for identities =
      map (λ identity. (identity, scope_of (domains_of identities) identity)) identities

  -- Of the identity's own project only.
  unfoldable pub scope_for : (stored : List Identity) → Identity → Scope
  unfolding scope_of domains_of
  scope_for stored identity =
      scope_of (domains_of (select (λ i. i.project_id == identity.project_id) stored)) identity
