-- ===== src/Sqlite/Tables.antt =====
-- The tables that NewSqliteDatabaseWithDb creates, and what the statements do to a table.
use obligator.Base.{
  ℕ, ◌+◌, String, Bool, false, not, ◌&&◌, Result, ok, err, Option, none, List, [], ◌∷◌, ◌++◌, ◌==◌,
  if◌then◌else◌, exists, keep, ltb, length,
}
use obligator.Types.{OAuth2Provider, User, EmailValidationCount, Domain}

pub record ConfigRow : Type 0 where
  pub jwks_json : String
  pub public : Bool
  pub display_name : String
  pub forward_auth_passthrough : Bool
  pub prefix : String
  pub smtp_config_json : Option String

-- A row of email_validation_requests; the time is in seconds.
pub record RequestRow : Type 0 where
  pub timestamp : ℕ
  pub hashed_requester_id : String
  pub hashed_email : String

-- `clock` is SQLite's CURRENT_TIMESTAMP.
pub record SqliteDatabase : Type 0 where
  pub reachable : Bool
  pub clock : ℕ
  pub config : List ConfigRow
  pub requests : List RequestRow
  pub domains : List Domain
  pub users : List User
  pub oauth2_providers : List OAuth2Provider

abbrev pub statement : SqliteDatabase → Result SqliteDatabase
statement s = if s.reachable then ok s else err "unable to open database file"

-- QueryRow(...).Scan
abbrev pub first_row {ℓ} : {A : Type ℓ} → List A → Result A
first_row [] = err "sql: no rows in result set"
first_row (row ∷ rows) = ok row

module _ {A : Type 0} (key : A → String) where
  -- INSERT OR REPLACE: the row with the key goes, and the new one is the last.
  abbrev pub replace_into : A → List A → List A
  replace_into row rows = keep (λ old. not (key old == key row)) rows ++ row ∷ []

  -- INSERT into a table whose key is UNIQUE.
  abbrev pub insert_unique : A → List A → Result (List A)
  insert_unique row rows =
      if exists (λ old. key old == key row) rows
      then err "UNIQUE constraint failed"
      else ok (rows ++ row ∷ [])

-- The rows of one requester later than a time.
abbrev pub of_requester : ℕ → String → List RequestRow → List RequestRow
of_requester since id = keep (λ row. ltb since row.timestamp && row.hashed_requester_id == id)

-- SELECT hashed_requester_id, count(*) ... WHERE timestamp > ? GROUP BY hashed_requester_id: a row
-- for each requester, where its first request stands.
unfoldable pub counts_since : ℕ → List RequestRow → List EmailValidationCount
counts_since since [] = []
counts_since since (row ∷ rows) =
    let n = length (of_requester since row.hashed_requester_id rows) in
    let rest = counts_since since rows in
    if ltb since row.timestamp
    then (record { hashed_requester_id = row.hashed_requester_id; count = n + 1 }
        ∷ keep (λ c. not (c.hashed_requester_id == row.hashed_requester_id)) rest)
    else rest

-- INSERT INTO config DEFAULT VALUES
abbrev pub default_config : ConfigRow
default_config = record {
  jwks_json = "";
  public = false;
  display_name = "obligator";
  forward_auth_passthrough = false;
  prefix = "obligator_";
  smtp_config_json = none;
}

abbrev pub config_or_default : List ConfigRow → List ConfigRow
config_or_default [] = default_config ∷ []
config_or_default (row ∷ rows) = row ∷ rows

-- NewSqliteDatabaseWithDb: tables that exist are kept.
unfoldable pub new_sqlite_database_with_db : SqliteDatabase → Result SqliteDatabase
new_sqlite_database_with_db s =
    if s.reachable
    then ok (record s { config = config_or_default s.config })
    else err "unable to open database file"
