-- ===== src/Start.antt =====
-- obligator.go, NewServer: the defaults of the configuration, what the primary writes of it into the
-- database, and the parts that are made in order. What opens files and sockets is a parameter.
pub mod Rows
pub mod Configured
pub mod NewServer
pub mod Replica
pub mod ServeMux
pub mod Routes
pub mod Served
pub mod Command
use obligator.Base.{
  ℕ, zero, suc, String, ◌⧺◌, Bool, true, false, not, ◌||◌, Result, ok, err, ◌>>=◌, ok_or, Option,
  none, some, List, [], ◌∷◌, ◌++◌, ◌==◌, if◌then◌else◌, map,
}
use obligator.Types.{OAuth2Provider, SmtpConfig, User, Domain}
use obligator.Platform.{Database}

-- obligator.go, StringList: a flag that can be given several times.
abbrev pub StringList : Type 0
StringList = List String

abbrev text_after : String → StringList → String
text_after s [] = s
text_after s (domain ∷ rest) = text_after (s ⧺ " " ⧺ domain) rest

unfoldable pub string_list_text : StringList → String
string_list_text d = text_after "" d

unfoldable pub string_list_set : String → StringList → StringList
string_list_set value d = d ++ value ∷ []

-- obligator.go, ServerConfig; a nil pointer or slice is `none`.
pub record ServerConfig : Type 0 where
  pub port : ℕ
  pub auth_domains : List String
  pub prefix : String
  pub db_prefix : String
  pub database_dir : String
  pub api_socket_dir : String
  pub behind_proxy : Bool
  pub display_name : String
  pub geo_db_path : String
  pub forward_auth_passthrough : Bool
  pub domains : StringList
  pub users : StringList
  pub is_public : Bool
  pub proxy_type : String
  pub logo_png : Option String
  pub disable_qr_login : Bool
  pub jwks_json : String
  pub oauth2_providers : Option (List OAuth2Provider)
  pub smtp : Option SmtpConfig

abbrev number_or : ℕ → ℕ → ℕ
number_or zero d = d
number_or (suc n) d = suc n

abbrev text_or : String → String → String
text_or s d = if s == "" then d else s

unfoldable pub with_defaults : ServerConfig → ServerConfig
with_defaults conf = record conf {
  port = number_or conf.port 1616;
  prefix = text_or conf.prefix "obligator_";
  display_name = text_or conf.display_name "obligator";
  proxy_type = text_or conf.proxy_type "builtin";
}

abbrev pub email_user : String → User
email_user user_id = record { id_type = "email"; id = user_id }

module _ {Db : Type 0} (db : Database Db) where
  -- Where the source drops an error, the database stays as it was.
  abbrev pub or_kept : Db → Result Db → Db
  or_kept d r = ok_or d r

  unfoldable pub put_smtp : Option SmtpConfig → Db → Result Db
  put_smtp none d = ok d
  put_smtp (some smtp) d = db.set_smtp_config smtp d

  unfoldable pub put_domains : List String → Db → Db
  put_domains [] d = d
  put_domains (domain ∷ rest) d = put_domains rest (or_kept d (db.add_domain domain "root" d))

  unfoldable pub put_users : List String → Db → Result Db
  put_users [] d = ok d
  put_users (user_id ∷ rest) d = db.set_user (email_user user_id) d >>= put_users rest

  unfoldable pub put_provider_list : List OAuth2Provider → Db → Result Db
  put_provider_list [] d = ok d
  put_provider_list (provider ∷ rest) d =
      db.set_oauth2_provider provider d >>= put_provider_list rest

  abbrev provider_list : Option (List OAuth2Provider) → List OAuth2Provider
  provider_list none = []
  provider_list (some l) = l

  -- if b { db.Set...(...) }
  abbrev pub put_if : Bool → (Db → Result Db) → Db → Db
  put_if true set d = or_kept d (set d)
  put_if false set d = d

  -- What the primary writes. `stored_prefix` is what the database had before; an `err` is checkErr,
  -- which ends the process.
  unfoldable pub configure : ServerConfig → String → Db → Result Db
  configure conf stored_prefix d = do
    mailing ← put_smtp conf.smtp d
    let prefixed =
        put_if (not (conf.prefix == "obligator_") || stored_prefix == "")
          (db.set_prefix conf.prefix) mailing
    let named =
        put_if (not (conf.display_name == "obligator")) (db.set_display_name conf.display_name)
          prefixed
    peopled ← put_users conf.users (put_domains conf.domains named)
    let passing =
        put_if conf.forward_auth_passthrough (db.set_forward_auth_passthrough true) peopled
    let opened = put_if conf.is_public (db.set_public true) passing
    put_provider_list (provider_list conf.oauth2_providers) opened
