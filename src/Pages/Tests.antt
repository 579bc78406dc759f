-- ===== src/Pages/Tests.antt =====
-- routes/v1/emails.py: the pages of three messages.
use seskit.Base.{ℕ, ◌<◌, none, some, List, [], ◌∷◌, length, select, all, ◌≡◌, refl, arith}
use seskit.Members.{In}
use seskit.Emails.{Email, ses}
use seskit.Accepting.{queued_row}
use seskit.Accepting.Tests.{toy_accept, project, to_eve}
use seskit.Sending.Tests.{toy_text}
use seskit.Pages.{query, by_id_desc}
use seskit.Pages.Order.{IsDescending, HasUniqueIds}
use seskit.Pages.Walk.{walk}
use seskit.Pages.Shown.{IsShown, walk_complete}

abbrev row : ℕ → Email
row id = queued_row toy_text toy_accept project to_eve id none ses

abbrev table : List Email
table = row 3 ∷ row 5 ∷ row 8 ∷ []

table-HasUniqueIds : HasUniqueIds table
unfolding HasUniqueIds all queued_row
table-HasUniqueIds = (refl, (refl, (refl, tt)))

table_length : length (query 7 none none table) < 4
unfolding query select by_id_desc queued_row
table_length = omega arith

walk_complete_example :
    (walk 7 2 none table 4 none ≡ some (query 7 none none table))
    × IsDescending (query 7 none none table)
    × ((email : Email)
        → (In email (query 7 none none table) → IsShown 7 none table email)
          × (IsShown 7 none table email → In email (query 7 none none table)))
walk_complete_example = walk_complete 7 1 4 none table table-HasUniqueIds table_length
