-- ===== src/Tests/Store.antt =====
-- The theorems on the database at concrete tables.
use obligator.Base.{ℕ, ◌≡◌, refl, String, false, some, List, [], ◌∷◌}
use obligator.Types.{Domain}
use obligator.Sqlite.Tables.{
  SqliteDatabase, RequestRow, counts_since, default_config, new_sqlite_database_with_db,
}
use obligator.Sqlite.Counts.{count_of, count_of-counts_since}
use obligator.Sqlite.WellFormed.{
  IsWellFormed, Call, public, user, domain, run, empty, run-new_sqlite_database-IsWellFormed,
}
use obligator.Tests.Toy.{marshal, unmarshal}
use obligator.Tests.Data.{store, provider}

abbrev row : ℕ → String → RequestRow
row time id = record { timestamp = time; hashed_requester_id = id; hashed_email = "" }

count_of-counts_since_example :
    count_of "ann" (counts_since 10 (row 9 "ann" ∷ row 11 "ann" ∷ row 12 "bob" ∷ row 13 "ann" ∷ []))
    ≡ some (record { hashed_requester_id = "ann"; count = 2 })
count_of-counts_since_example =
    count_of-counts_since 10 "ann" (row 9 "ann" ∷ row 11 "ann" ∷ row 12 "bob" ∷ row 13 "ann" ∷ [])

abbrev made : SqliteDatabase
made = record (empty 5) { config = default_config ∷ [] }

abbrev calls : List Call
calls =
    domain "example.com" "ann"
    ∷ domain "example.com" "bob"
    ∷ public false
    ∷ user (record { id_type = "email"; id = "ann" })
    ∷ user (record { id_type = "email"; id = "ann" })
    ∷ []

run-new_sqlite_database-IsWellFormed_example :
    IsWellFormed (run (λ s. s) (λ s. s) marshal unmarshal made calls)
unfolding new_sqlite_database_with_db
run-new_sqlite_database-IsWellFormed_example =
    run-new_sqlite_database-IsWellFormed (λ s. s) (λ s. s) marshal unmarshal 5 made calls refl

abbrev with_toy_provider : SqliteDatabase
with_toy_provider = record store { oauth2_providers = provider "idp" ∷ [] }

abbrev owned : Domain
owned = record { hashed_owner_id = "ann"; domain = "example.com" }

abbrev with_domain : SqliteDatabase
with_domain = record store { domains = owned ∷ [] }
