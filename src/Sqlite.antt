-- ===== src/Sqlite.antt =====
-- database.go, SqliteDatabase: the tables as lists of rows, oldest first, and each method as what its
-- SQL statement does to them. A statement fails when the driver cannot reach the database.
pub mod Tables
pub mod Keys
pub mod Counts
pub mod WellFormed
pub mod Maps
use obligator.Base.{
  ℕ, String, Bool, true, false, Result, ok, err, ◌>>=◌, or_err, Option, none, some, List, [], ◌∷◌,
  ◌++◌, ◌==◌, if◌then◌else◌, find, exists, map, keep,
}
use obligator.Types.{OAuth2Provider, SmtpConfig, User, DbConfig, EmailValidationCount, Domain}
use obligator.Platform.{Database}
use obligator.Utils.Hash.{hash_with}
use Tables.{
  SqliteDatabase, ConfigRow, RequestRow, statement, first_row, replace_into, insert_unique,
  counts_since,
}

module _ (sha256 hex : String → String) (marshal : SmtpConfig → Result String)
    (unmarshal : String → Result SmtpConfig) where
  abbrev pub hash : String → String
  hash = hash_with sha256 hex

  -- SELECT column FROM config
  abbrev read : {A : Type 0} → (ConfigRow → A) → SqliteDatabase → Result A
  read f s = do t ← statement s; row ← first_row t.config; ok (f row)

  -- UPDATE config SET column = ?
  abbrev update : (ConfigRow → ConfigRow) → SqliteDatabase → Result SqliteDatabase
  update f s = statement s >>= λ t. ok (record t { config = map f t.config })

  unfoldable pub get_config : SqliteDatabase → Result DbConfig
  get_config = read (λ row. record { is_public = row.public })

  unfoldable pub get_jwks_json : SqliteDatabase → Result String
  get_jwks_json = read (λ row. row.jwks_json)

  unfoldable pub set_jwks_json : String → SqliteDatabase → Result SqliteDatabase
  set_jwks_json v = update (λ row. record row { jwks_json = v })

  abbrev pub configured : Option String → Result String
  configured o = or_err o "No SMTP config set"

  unfoldable pub get_smtp_config : SqliteDatabase → Result SmtpConfig
  get_smtp_config s = do
    stored ← read (λ row. row.smtp_config_json) s
    json ← configured stored
    unmarshal json

  unfoldable pub set_smtp_config : SmtpConfig → SqliteDatabase → Result SqliteDatabase
  set_smtp_config smtp s =
      marshal smtp >>= λ json. update (λ row. record row { smtp_config_json = some json }) s

  unfoldable pub get_display_name : SqliteDatabase → Result String
  get_display_name = read (λ row. row.display_name)

  unfoldable pub set_display_name : String → SqliteDatabase → Result SqliteDatabase
  set_display_name v = update (λ row. record row { display_name = v })

  unfoldable pub set_public : Bool → SqliteDatabase → Result SqliteDatabase
  set_public v = update (λ row. record row { public = v })

  unfoldable pub get_forward_auth_passthrough : SqliteDatabase → Result Bool
  get_forward_auth_passthrough = read (λ row. row.forward_auth_passthrough)

  unfoldable pub set_forward_auth_passthrough : Bool → SqliteDatabase → Result SqliteDatabase
  set_forward_auth_passthrough v = update (λ row. record row { forward_auth_passthrough = v })

  unfoldable pub get_prefix : SqliteDatabase → Result String
  get_prefix = read (λ row. row.prefix)

  unfoldable pub set_prefix : String → SqliteDatabase → Result SqliteDatabase
  set_prefix v = update (λ row. record row { prefix = v })

  unfoldable pub add_email_validation_request :
      String → String → SqliteDatabase → Result SqliteDatabase
  add_email_validation_request requester_id email s = do
    t ← statement s
    let row : RequestRow = record {
      timestamp = t.clock;
      hashed_requester_id = hash requester_id;
      hashed_email = hash email;
    }
    ok (record t { requests = t.requests ++ row ∷ [] })

  unfoldable pub get_email_validation_counts :
      ℕ → SqliteDatabase → Result (List EmailValidationCount)
  get_email_validation_counts since s = statement s >>= λ t. ok (counts_since since t.requests)

  unfoldable pub add_domain : String → String → SqliteDatabase → Result SqliteDatabase
  add_domain domain owner_id s = do
    t ← statement s
    rows ←
        insert_unique (λ d. d.domain) (record { hashed_owner_id = hash owner_id; domain = domain })
          t.domains
    ok (record t { domains = rows })

  unfoldable pub get_domain : String → SqliteDatabase → Result Domain
  get_domain domain s = do
    t ← statement s
    or_err (find (λ d. d.domain == domain) t.domains) "sql: no rows in result set"

  unfoldable pub get_domains : SqliteDatabase → Result (List Domain)
  get_domains s = statement s >>= λ t. ok t.domains

  unfoldable pub get_users : SqliteDatabase → Result (List User)
  get_users s = statement s >>= λ t. ok t.users

  unfoldable pub set_user : User → SqliteDatabase → Result SqliteDatabase
  set_user u s = statement s >>= λ t. ok (record t { users = replace_into (λ v. v.id) u t.users })

  unfoldable pub get_oauth2_providers : SqliteDatabase → Result (List OAuth2Provider)
  get_oauth2_providers s = statement s >>= λ t. ok t.oauth2_providers

  unfoldable pub get_oauth2_provider_by_id : String → SqliteDatabase → Result OAuth2Provider
  get_oauth2_provider_by_id id s = do
    t ← statement s
    or_err (find (λ q. q.id == id) t.oauth2_providers) "sql: no rows in result set"

  unfoldable pub set_oauth2_provider : OAuth2Provider → SqliteDatabase → Result SqliteDatabase
  set_oauth2_provider q s = statement s >>= λ t.
      ok (record t { oauth2_providers = replace_into (λ o. o.id) q t.oauth2_providers })

  -- The interface of the handlers.
  unfoldable pub sqlite : Database SqliteDatabase
  unfolding get_config get_jwks_json set_jwks_json get_smtp_config set_smtp_config get_display_name
      set_display_name set_public get_forward_auth_passthrough set_forward_auth_passthrough
      get_prefix set_prefix add_email_validation_request get_email_validation_counts add_domain
      get_domain get_domains get_users set_user get_oauth2_providers get_oauth2_provider_by_id
      set_oauth2_provider
  sqlite = record {
    get_display_name = get_display_name;
    set_display_name = set_display_name;
    get_config = get_config;
    set_public = set_public;
    get_jwks_json = get_jwks_json;
    set_jwks_json = set_jwks_json;
    get_forward_auth_passthrough = get_forward_auth_passthrough;
    set_forward_auth_passthrough = set_forward_auth_passthrough;
    get_prefix = get_prefix;
    set_prefix = set_prefix;
    get_oauth2_providers = get_oauth2_providers;
    get_oauth2_provider_by_id = get_oauth2_provider_by_id;
    set_oauth2_provider = set_oauth2_provider;
    get_smtp_config = get_smtp_config;
    set_smtp_config = set_smtp_config;
    get_users = get_users;
    set_user = set_user;
    add_email_validation_request = add_email_validation_request;
    get_email_validation_counts = get_email_validation_counts;
    add_domain = add_domain;
    get_domain = get_domain;
    get_domains = get_domains;
  }
