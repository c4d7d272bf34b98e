-- ===== src/Tests/Data.antt =====
-- The people, requests and states of the runs.
use obligator.Base.{String, true, false, List, [], ◌∷◌, none}
use obligator.Types.{Identity, Login, Request, OAuth2Provider}
use obligator.Http.{World, fresh}
use obligator.Sqlite.Tables.{SqliteDatabase, ConfigRow}
use obligator.Tests.Toy.{toy, Token}

abbrev pub ann : Identity
ann = record {
  id_type = "email";
  id = "ann@example.com";
  provider_name = "Email";
  name = "Ann";
  email = "ann@example.com";
  email_verified = true;
}

abbrev pub bob : Identity
bob = record {
  id_type = "email";
  id = "bob@example.com";
  provider_name = "Google";
  name = "";
  email = "bob@example.com";
  email_verified = true;
}

abbrev pub login_of_ann : String → Login
login_of_ann timestamp = record {
  id_type = "email";
  id = "ann@example.com";
  provider_name = "Email";
  timestamp = timestamp;
}

abbrev pub settings : ConfigRow
settings = record {
  jwks_json = "{}";
  public = true;
  display_name = "example";
  forward_auth_passthrough = false;
  prefix = "obligator_";
  smtp_config_json = none;
}

abbrev pub store : SqliteDatabase
store = record {
  reachable = true;
  clock = 100;
  config = settings ∷ [];
  requests = [];
  domains = [];
  users = [];
  oauth2_providers = [];
}

abbrev pub provider : String → OAuth2Provider
provider id = record {
  id = id;
  name = "Example";
  uri = "https://idp.example.com";
  client_id = "1";
  client_secret = "2";
  authorization_uri = "https://idp.example.com/auth";
  token_uri = "https://idp.example.com/token";
  scope = "openid";
  open_id_connect = true;
}

-- A request with a form, headers and cookies.
abbrev pub request :
    List (String × List String) → List (String × String) → List (String × String) → Request
request form headers cookies = record {
  method = "POST";
  host = "id.example.com";
  path = "/";
  raw_query = "";
  remote_addr = "10.0.0.1:50000";
  form = form;
  headers = headers;
  cookies = cookies;
}

abbrev pub world : (table : List (String × Token)) → World (toy table)
world table = record {
  w = fresh;
  db = store;
  random = [];
  pending_logins = [];
  pending_shares = [];
  pending_codes = [];
  jobs = [];
}
