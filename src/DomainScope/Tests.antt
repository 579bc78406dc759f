-- ===== src/DomainScope/Tests.antt =====
-- services/domain_scope.py: a domain and its subdomain.
use seskit.Base.{String, ◌≤◌, List, [], ◌∷◌, all, count, refl}
use seskit.Aws.{Identity, domain, success}
use seskit.Sending.Tests.{toy_text}
use seskit.DomainScope.{scopes_for}
use seskit.DomainScope.Disjoint.{IsDistinct, apart_from, counts_for, covers_once}

abbrev named : String → Identity
named value = record {
  project_id = 7;
  identity_type = domain;
  value = value;
  verification_status = success;
}

abbrev identities : List Identity
identities = named "example.com" ∷ named "mail.example.com" ∷ []

identities-IsDistinct : IsDistinct toy_text (λ l. l) (λ test l. refl) identities
unfolding IsDistinct all apart_from
identities-IsDistinct = (refl, (refl, tt))

covers_once_example :
    count
      (counts_for toy_text (λ l. l) (λ test l. refl) "a@mail.example.com")
      (scopes_for toy_text (λ l. l) identities)
    ≤ 1
covers_once_example =
    covers_once toy_text (λ l. l) (λ test l. refl) identities "a@mail.example.com"
      identities-IsDistinct
