-- ===== src/Start/Command.antt =====
-- cmd/obligator/main.go: the configuration from the flags and from the file that -config names.
use obligator.Base.{
  ℕ, String, Bool, false, Result, ok, ◌>>=◌, Option, none, some, List, [], ◌==◌, if◌then◌else◌,
}
use obligator.Types.{OAuth2Provider, SmtpConfig}
use obligator.Start.{ServerConfig, StringList}

-- The flags; a flag that was not given has its default.
pub record Flags : Type 0 where
  pub config : String
  pub port : ℕ
  pub prefix : String
  pub database_dir : String
  pub api_socket_dir : String
  pub behind_proxy : Bool
  pub display_name : String
  pub geo_db_path : String
  pub forward_auth_passthrough : Bool
  pub proxy_type : String
  pub domains : StringList
  pub users : StringList

-- What is read of the file; a missing list is `none`.
pub record FileConfig : Type 0 where
  pub oauth2_providers : Option (List OAuth2Provider)
  pub smtp : Option SmtpConfig
  pub users : Option StringList
  pub is_public : Bool

unfoldable pub conf_of_flags : Flags → ServerConfig
conf_of_flags f = record {
  port = f.port;
  auth_domains = [];
  prefix = f.prefix;
  db_prefix = "";
  database_dir = f.database_dir;
  api_socket_dir = f.api_socket_dir;
  behind_proxy = f.behind_proxy;
  display_name = f.display_name;
  geo_db_path = f.geo_db_path;
  forward_auth_passthrough = f.forward_auth_passthrough;
  domains = f.domains;
  users = f.users;
  is_public = false;
  proxy_type = f.proxy_type;
  logo_png = none;
  disable_qr_login = false;
  jwks_json = "";
  oauth2_providers = none;
  smtp = none;
}

abbrev or_given {ℓ} : {A : Type ℓ} → Option A → A → A
or_given none given = given
or_given (some a) given = a

abbrev or_else {ℓ} : {A : Type ℓ} → Option A → Option A → Option A
or_else none given = given
or_else (some a) given = some a

-- What the file has replaces what the flags say.
unfoldable pub with_file : Option FileConfig → ServerConfig → ServerConfig
with_file none conf = conf
with_file (some file) conf = record conf {
  oauth2_providers = or_else file.oauth2_providers conf.oauth2_providers;
  smtp = or_else file.smtp conf.smtp;
  users = or_given file.users conf.users;
  is_public = file.is_public;
}

-- `read_file` is the file as its JSON decodes, where null is `none`. An `err` ends the process.
unfoldable pub command_config : (String → Result (Option FileConfig)) → Flags → Result ServerConfig
command_config read_file f =
    if f.config == ""
    then ok (with_file none (conf_of_flags f))
    else (read_file f.config >>= λ file. ok (with_file file (conf_of_flags f)))
