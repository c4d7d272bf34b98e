-- ===== src/Tests/Replicated.antt =====
-- The theorem on the start of a replica at a concrete input.
use obligator.Base.{◌≡◌, refl, true, false, ok, err, [], ◌==◌, if◌then◌else◌, ◌∷◌}
use obligator.Platform.{Platform}
use obligator.Proxy.{builtin}
use obligator.Jose.Generate.{KeyTools}
use obligator.Start.{ServerConfig, with_defaults}
use obligator.Start.Command.{Flags, conf_of_flags}
use obligator.Start.NewServer.{Surroundings, Server, updating}
use obligator.Start.Replica.{left_of, new_server-replica}
use obligator.Sqlite.Tables.{SqliteDatabase, new_sqlite_database_with_db}
use obligator.Utils.Random.{gen_random_key}
use obligator.Tests.Toy.{toy}
use obligator.Tests.Data.{provider, store}

abbrev replica : Platform
replica = record (toy []) { primary_file = ok "2" }

-- A database with one provider.
abbrev with_provider : SqliteDatabase
with_provider = record store { oauth2_providers = provider "idp" ∷ [] }

abbrev flags : Flags
flags = record {
  config = "";
  port = 1616;
  prefix = "other_";
  database_dir = "./";
  api_socket_dir = "";
  behind_proxy = false;
  display_name = "Other";
  geo_db_path = "";
  forward_auth_passthrough = true;
  proxy_type = "builtin";
  domains = "a.example.com" ∷ [];
  users = "ann@example.com" ∷ [];
}

abbrev conf : ServerConfig
conf = conf_of_flags flags

abbrev tools : KeyTools replica
tools = record {
  Raw = Unit {0};
  generate_key = λ src. ok (tt, src);
  from_raw = λ raw. ok raw;
  is_rsa_private_key = λ key. true;
  assign_key_id = λ key. ok key;
  with_alg = λ key. key;
  singleton = λ key. key;
  marshal = λ l. ok "{}";
}

abbrev outside : Surroundings replica (Unit {0})
outside = record {
  sql_open = λ dir name. err "no such file";
  with_tables = new_sqlite_database_with_db;
  fly_alloc_id = "";
  read_file = λ path. ok "<svg/>";
  listen = λ dir name. ok tt;
  parse_templates = ok tt;
  open_geo_db = λ path. ok tt;
  fly_io_token = "";
  fly_io_app_id = "";
  send = λ call remote. (remote, err "connection refused");
  decimal = λ n. "1616";
  tools = tools;
}

abbrev started : Server replica (Unit {0})
started = record {
  config = with_defaults conf;
  db = with_provider;
  cluster = record { on_fly = false; local_id = "10000000000000000000000000000000" };
  random = [];
  proxy = builtin;
  remote = tt;
  metadata = updating replica outside;
  provider_logo_map = ("idp", "<svg/>") ∷ [];
}

new_server-replica_example :
    (started.db ≡ with_provider)
    × (started.random ≡ (
        if "" == ""
        then left_of replica outside (1 ∷ []) (gen_random_key replica (1 ∷ []))
        else 1 ∷ []))
unfolding obligator.Start.NewServer.new_server with_defaults conf_of_flags
    obligator.Cluster.i_am_the_primary obligator.Cluster.primary_host obligator.Sqlite.sqlite
    obligator.Proxy.new_proxy obligator.Proxy.add_domains obligator.Api.new_api
    obligator.Jose.Generate.new_jose obligator.Start.NewServer.new_handlers
    obligator.Start.NewServer.new_add_identity_email_handler
    obligator.Start.NewServer.build_provider_logo_map obligator.Jose.get_jwks
    obligator.Cluster.new_cluster gen_random_key obligator.Utils.Random.gen_random
    obligator.Utils.Random.char_text
new_server-replica_example =
    new_server-replica replica outside conf with_provider (1 ∷ []) tt started refl refl
