-- ===== src/Platform.antt =====
-- What the program calls and does not implement. A `Database` is the interface of database.go over
-- a state `D`; a `Platform` adds the jwx, crypto, url and mail libraries, the random source, the
-- cluster's primary file and the clock's format. None of it has a definition here: Sqlite and the
-- tests give values.
use obligator.Base.{ℕ, ◌<◌, ◌≡◌, String, Bool, List, Option, Result, ok}
use obligator.Pages.{Page}
use obligator.Types.{
  Claim, Url, OAuth2Provider, SmtpConfig, User, DbConfig, EmailValidationCount, Domain,
}

-- A getter reads the state; a setter gives the next one. Either may fail.
pub record Database (D : Type 0) : Type 0 where
  pub get_display_name : D → Result String
  pub set_display_name : String → D → Result D
  pub get_config : D → Result DbConfig
  pub set_public : Bool → D → Result D
  pub get_jwks_json : D → Result String
  pub set_jwks_json : String → D → Result D
  pub get_forward_auth_passthrough : D → Result Bool
  pub set_forward_auth_passthrough : Bool → D → Result D
  pub get_prefix : D → Result String
  pub set_prefix : String → D → Result D
  pub get_oauth2_providers : D → Result (List OAuth2Provider)
  pub get_oauth2_provider_by_id : String → D → Result OAuth2Provider
  pub set_oauth2_provider : OAuth2Provider → D → Result D
  pub get_smtp_config : D → Result SmtpConfig
  pub set_smtp_config : SmtpConfig → D → Result D
  pub get_users : D → Result (List User)
  pub set_user : User → D → Result D
  pub add_email_validation_request : String → String → D → Result D
  pub get_email_validation_counts : ℕ → D → Result (List EmailValidationCount)
  pub add_domain : String → String → D → Result D
  pub get_domain : String → D → Result Domain
  pub get_domains : D → Result (List Domain)

pub record Platform : Type 1 where
  pub Db : Type 0
  pub db : Database Db
  -- lestrrat-go/jwx: tokens are read and changed by claim; the builder is given its calls.
  pub Token : Type 0
  pub Key : Type 0
  pub Keyset : Type 0
  pub new_token : Token
  pub get_claim : String → Token → Option Claim
  pub set_claim : String → Claim → Token → Result Token
  pub build : List (String × Claim) → Result Token
  pub subject : Token → String
  pub jwk_parse : String → Result Keyset
  pub public_set_of : Keyset → Result Keyset
  pub first_key : Keyset → Option Key
  pub jwt_sign : Key → Token → Result String
  pub jwt_parse : ℕ → Keyset → String → Result Token
  pub jwt_serialize : Key → Key → Token → Result String
  pub jwe_decrypt : Key → String → Result String
  -- crypto/sha256, encoding/hex and encoding/base64
  pub sha256 : String → String
  pub hex : String → String
  pub base64_raw_url : String → String
  -- crypto/rand: rand.Int with the reader's state
  pub Source : Type 0
  pub rand_int : Source → ℕ → Result (ℕ × Source)
  pub rand_int_lt : (s : Source) (m n : ℕ) (s' : Source) → rand_int s m ≡ ok (n, s') → n < m
  -- net/url, net, net/mail, time
  pub url_parse : String → Result Url
  pub split_host_port : String → Result String
  pub parse_address : String → Result String
  pub format_time : ℕ → String
  -- html/template: an error before any output, or none.
  pub execute_template : Page → Result (Unit {0})
  -- The host in /litefs/.primary, which can be read on a replica only.
  pub primary_file : Result String
