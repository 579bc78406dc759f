-- ===== src/DomainScope/Disjoint.antt =====
-- services/domain_scope.py: no mail is counted for two domains of a project.
use seskit.Base.{
  ℕ, ◌≤◌, String, str_eq, eq_iff, eq_refl, Bool, true, false, ◌&&◌, ◌||◌, not, Option, none, some,
  List, [], ◌∷◌, any, all, map, select, count, ◌≡◌, refl, sym, ap, ◌∙◌, arith, Bool-cases, inl, inr,
}
use seskit.Address.{TextTools, domain_of}
use seskit.Aws.{Identity}
use seskit.DomainScope.{
  under, Scope, is_domain, in_domain, covers, narrower_of, domains_of, scope_of, scopes_for,
}
use seskit.DomainScope.Suffixes.{under_either}

any-select :
    (test keep : String → Bool) (l : List String)
    → any test (select keep l) ≡ any (λ x. keep x && test x) l
unfolding any select
any-select test keep [] = refl
any-select test keep (x ∷ l) = ground (arith, any-select test keep l)

any_of :
    (test : String → Bool) (l : List String) (x : String)
    → any (str_eq x) l ≡ true
    → test x ≡ true
    → any test l ≡ true
unfolding any
any_of test [] x h passes = h
any_of test (y ∷ l) x h passes = elim (Bool-cases (str_eq x y)) [
  | inl same ↦ rw (sym (ap test ((eq_iff x y).0 same)), passes) refl
  | inr differs ↦ ground (arith, any_of test l x (ground (arith, h, differs)) passes)
]

module _ (tools : TextTools) (sorted_set : List String → List String)
    (same_members : (test : String → Bool) (l : List String)
      → any test (sorted_set l) ≡ any test l) where
  open tools use {lower}

  -- A domain identity beneath another one takes its mail from it.
  beneath :
      (domains : List String) (name low high : String)
      → any (str_eq low) (map lower domains) ≡ true
      → str_eq low high ≡ false
      → under low high ≡ true
      → under name low ≡ true
      → any (λ other. under name other) (narrower_of tools sorted_set high domains) ≡ true
  unfolding narrower_of
  beneath domains name low high among differs over covered =
      same_members (λ other. under name other)
        (select (λ other. not (str_eq other high) && under other high) (map lower domains))
      ∙ any-select (λ other. under name other)
          (λ other. not (str_eq other high) && under other high) (map lower domains)
      ∙ any_of (λ other. (not (str_eq other high) && under other high) && under name other)
          (map lower domains) low among (ground (arith, differs, over, covered))

  abbrev pub counts_for : (from_address : String) → Identity × Scope → Bool
  counts_for from_address (identity, scope) =
      is_domain identity.identity_type && covers tools sorted_set scope from_address

  -- The mail of a name that a domain identity counts.
  abbrev takes : (domains : List String) → String → Option String → Bool
  takes domains value none = false
  takes domains value (some name) =
      under name value
      && not (any (λ other. under name other) (narrower_of tools sorted_set value domains))

  counts_for-takes :
      (domains : List String) (a : Identity) (from_address : String)
      → counts_for from_address (a, scope_of tools sorted_set domains a) ≡ (
          is_domain a.identity_type && takes domains (lower a.value) (domain_of tools from_address))
  unfolding covers scope_of
  counts_for-takes domains a from_address = elim (Bool-cases (is_domain a.identity_type)) [
    | inl is ↦ rw is (by_name (domain_of tools from_address))
    | inr address ↦ rw address refl
  ]
    where
      by_name :
          (name : Option String)
          → in_domain tools sorted_set name (record {
            value = lower a.value;
            is_address = false;
            narrower = narrower_of tools sorted_set (lower a.value) domains;
          })
            ≡ takes domains (lower a.value) name
      by_name none = unfold in_domain in refl
      by_name (some name) = unfold in_domain in refl

  takes_once :
      (domains : List String) (a b : String) (name : Option String)
      → any (str_eq a) (map lower domains) ≡ true
      → any (str_eq b) (map lower domains) ≡ true
      → str_eq a b ≡ false
      → takes domains a name ≡ true
      → takes domains b name ≡ false
  takes_once domains a b none has_a has_b differs hit = refl
  takes_once domains a b (some name) has_a has_b differs hit = ground (
    arith,
    hit,
    differs,
    eq_iff a b,
    eq_iff b a,
    under_either name a b,
    beneath domains name a b has_a,
    beneath domains name b a has_b,
  )

  pair :
      (domains : List String) (a b : Identity) (from_address : String)
      → any (str_eq (lower a.value)) (map lower domains) ≡ true
      → any (str_eq (lower b.value)) (map lower domains) ≡ true
      → str_eq (lower a.value) (lower b.value) ≡ false
      → counts_for from_address (a, scope_of tools sorted_set domains a) ≡ true
      → counts_for from_address (b, scope_of tools sorted_set domains b) ≡ false
  pair domains a b from_address has_a has_b differs hit = ground (
    arith,
    hit,
    counts_for-takes domains a from_address,
    counts_for-takes domains b from_address,
    takes_once domains (lower a.value) (lower b.value) (domain_of tools from_address) has_a has_b
        differs,
  )

  -- Not the same domain.
  unfoldable pub apart_from : Identity → Identity → Bool
  apart_from identity other =
      not (is_domain other.identity_type) || not (str_eq (lower identity.value) (lower other.value))

  -- The domains of a project, of which no two are the same in lower case.
  unfoldable pub IsDistinct : List Identity → Type 0
  IsDistinct [] = Unit {0}
  IsDistinct (identity ∷ identities) =
      (all (apart_from identity) identities ≡ true) × IsDistinct identities

  counted : (domains : List String) → (from_address : String) → List Identity → ℕ
  counted domains from_address identities =
      count (counts_for from_address)
        (map (λ identity. (identity, scope_of tools sorted_set domains identity)) identities)

  -- The identity's name is among the domains, if it is a domain.
  abbrev is_inside : (domains : List String) → Identity → Bool
  is_inside domains identity =
      not (is_domain identity.identity_type)
      || any (str_eq (lower identity.value)) (map lower domains)

  inside_more :
      (name : String) (domains : List String) (identities : List Identity)
      → all (is_inside domains) identities ≡ true
      → all (is_inside (name ∷ domains)) identities ≡ true
  unfolding all any
  inside_more name domains [] h = refl
  inside_more name domains (identity ∷ identities) h =
      ground (arith, h, inside_more name domains identities)

  all_inside :
      (identities : List Identity)
      → all (is_inside (domains_of tools sorted_set identities)) identities ≡ true
  unfolding all any domains_of select
  all_inside [] = refl
  all_inside (identity ∷ identities) = ground (
    arith,
    eq_refl (lower identity.value),
    all_inside identities,
    inside_more identity.value (domains_of tools sorted_set identities) identities,
  )

  one_other :
      (domains : List String) (from_address : String) (identity other : Identity)
      → any (str_eq (lower identity.value)) (map lower domains) ≡ true
      → is_inside domains other ≡ true
      → apart_from identity other ≡ true
      → counts_for from_address (identity, scope_of tools sorted_set domains identity) ≡ true
      → counts_for from_address (other, scope_of tools sorted_set domains other) ≡ false
  unfolding apart_from
  one_other domains from_address identity other has inside apart hit =
      elim (Bool-cases (is_domain other.identity_type)) [
        | inl is ↦
            pair domains identity other from_address has (ground (arith, inside, is))
              (ground (arith, apart, is)) hit
        | inr address ↦ rw address refl
      ]

  others_not :
      (domains : List String) (from_address : String) (identity : Identity)
      → (identities : List Identity)
      → any (str_eq (lower identity.value)) (map lower domains) ≡ true
      → all (is_inside domains) identities ≡ true
      → all (apart_from identity) identities ≡ true
      → counts_for from_address (identity, scope_of tools sorted_set domains identity) ≡ true
      → counted domains from_address identities ≡ 0
  unfolding counted count all
  others_not domains from_address identity [] has inside apart hit = refl
  others_not domains from_address identity (other ∷ identities) has inside apart hit =
      rw
        (one_other domains from_address identity other has (ground (arith, inside))
          (ground (arith, apart)) hit)
        (others_not domains from_address identity identities has (ground (arith, inside))
          (ground (arith, apart)) hit)

  counted_once :
      (domains : List String) (from_address : String) (identities : List Identity)
      → IsDistinct identities
      → all (is_inside domains) identities ≡ true
      → counted domains from_address identities ≤ 1
  unfolding counted count IsDistinct all
  counted_once domains from_address [] distinct inside = omega arith
  counted_once domains from_address (identity ∷ identities) (apart, distinct) inside =
      elim (Bool-cases
        (counts_for from_address (identity, scope_of tools sorted_set domains identity))) [
          | inl hit ↦ rw hit (
              ground (
                arith,
                others_not domains from_address identity identities (ground (arith, inside, hit))
                    (ground (arith, inside)) apart hit,
              ))
          | inr miss ↦
              rw miss
                (counted_once domains from_address identities distinct (ground (arith, inside)))
        ]

  -- Of the domain identities of one project, with different names in lower case, at most one scope
  -- covers a sender: no message is counted twice.
  pub covers_once :
      (identities : List Identity) (from_address : String)
      → IsDistinct identities
      → count (counts_for from_address) (scopes_for tools sorted_set identities) ≤ 1
  unfolding scopes_for counted
  covers_once identities from_address distinct =
      counted_once (domains_of tools sorted_set identities) from_address identities distinct
        (all_inside identities)
