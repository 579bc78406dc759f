-- ===== src/DomainScope/Suffixes.antt =====
-- services/domain_scope.py: two names above one name lie one above the other.
use Prim.Native.String.{[] as empty, ◌∷◌ as cons}
use seskit.Base.{
  String, str_eq, eq_iff, eq_refl, true, ◌||◌, ◌≡◌, refl, sym, ap, arith, Bool-cases, inl, inr,
}
use seskit.DomainScope.{ends_with, dotted, under}

ends_with_self : (text : String) → ends_with text text ≡ true
unfolding ends_with
ends_with_self empty = refl
ends_with_self (cons c text) = ground (arith, eq_refl (cons c text))

ends_with_either :
    (text a b : String)
    → ends_with text a ≡ true
    → ends_with text b ≡ true
    → (ends_with a b || ends_with b a) ≡ true
ends_with_either empty a b ha hb =
    rw
      (
        sym ((eq_iff "" a).0 (unfold ends_with in ha)),
        sym ((eq_iff "" b).0 (unfold ends_with in hb)),
      )
      (unfold ends_with in refl)
ends_with_either (cons c text) a b ha hb = elim (Bool-cases (str_eq (cons c text) a)) [
  | inl whole ↦ rw (sym ((eq_iff (cons c text) a).0 whole)) (ground (arith, hb))
  | inr part ↦ elim (Bool-cases (str_eq (cons c text) b)) [
    | inl whole ↦ rw (sym ((eq_iff (cons c text) b).0 whole)) (ground (arith, ha))
    | inr rest ↦
        ends_with_either text a b (unfold ends_with in ground (arith, ha, part))
          (unfold ends_with in ground (arith, hb, rest))
  ]
]

tail : String → String
tail empty = ""
tail (cons c text) = text

undotted : (a b : String) → dotted a ≡ dotted b → a ≡ b
unfolding tail
undotted a b h = ap tail h

-- A dotted ending of a dotted name.
under-dotted : (a b : String) → ends_with (dotted a) (dotted b) ≡ true → under a b ≡ true
unfolding under ends_with
under-dotted a b h = elim (Bool-cases (str_eq (dotted a) (dotted b))) [
  | inl whole ↦ ground (arith, undotted a b ((eq_iff (dotted a) (dotted b)).0 whole), eq_iff a b)
  | inr part ↦ ground (arith, h, part)
]

-- Of two names that a name lies under, one lies under the other.
pub under_either :
    (name a b : String)
    → under name a ≡ true
    → under name b ≡ true
    → (under a b || under b a) ≡ true
unfolding under
under_either name a b ha hb = elim (Bool-cases (str_eq name a)) [
  | inl whole ↦ rw (sym ((eq_iff name a).0 whole)) (ground (arith, hb))
  | inr part ↦ elim (Bool-cases (str_eq name b)) [
    | inl whole ↦ rw (sym ((eq_iff name b).0 whole)) (ground (arith, ha))
    | inr rest ↦ ground (
      arith,
      ha,
      hb,
      part,
      rest,
      ends_with_either name (dotted a) (dotted b),
      under-dotted a b,
      under-dotted b a,
    )
  ]
]
