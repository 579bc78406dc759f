-- ===== src/Suppression/Tests.antt =====
-- services/suppression.py on small lists.
use seskit.Base.{
  String, str_eq, true, none, some, List, [], ◌∷◌, ok, ◌≡◌, refl, arith, find, select, any, count,
  if◌then◌else◌,
}
use seskit.Suppression.{
  SuppressedAddress, bounce, suppress, keep_or_insert, find_suppression, suppressed_among, contains,
}
use seskit.Suppression.Unique.{OneLive}
use seskit.Suppression.Among.{contains-suppressed_among}

-- A reduction that knows one display name.
abbrev bare : String → String
bare a = if str_eq a "Bob <bob@example.com>" then "bob@example.com" else a

abbrev bob : SuppressedAddress
bob = record {
  id = 1;
  project_id = 7;
  address = "bob@example.com";
  reason = bounce;
  source_event_id = some 4;
  note = none;
  removed_at = none;
}

abbrev old_bob : SuppressedAddress
old_bob = record bob { id = 0; removed_at = some 100 }

abbrev table : List SuppressedAddress
table = old_bob ∷ bob ∷ []

suppress-bob :
    suppress bare (old_bob ∷ []) 1 7 "Bob <bob@example.com>" bounce (some 4) none ≡ ok (table, bob)
unfolding suppress keep_or_insert find_suppression find any
suppress-bob = refl

among_table :
    suppressed_among bare table 7 ("eve@example.com" ∷ "Bob <bob@example.com>" ∷ [])
    ≡ "bob@example.com" ∷ []
unfolding suppressed_among select any
among_table = refl

table-OneLive : OneLive table
unfolding count
table-OneLive p a = ground arith

old_bob-OneLive : OneLive (old_bob ∷ [])
unfolding count
old_bob-OneLive p a = ground arith

contains-suppressed_among_example :
    contains "bob@example.com" (suppressed_among bare table 7 ("Bob <bob@example.com>" ∷ [])) ≡ true
unfolding any find
contains-suppressed_among_example =
    contains-suppressed_among bare table 7 ("Bob <bob@example.com>" ∷ []) "bob@example.com"
